-- ===== src/Str/Hex.antt =====
-- `to_hstring` of kernel/string.c. `hexTo_StringOutput` is the static array of 128 bytes; reading
-- behind the 8 bytes of `value` is a fault, as is a negative index.
pub mod Digits
use sesh_os.Base.{
  ℕ, zero, suc, ◌+◌, ◌-◌, ◌*◌, ◌/◌, ◌%◌, ◌^◌, ◌≤◌, ◌<◌, ◌≡◌, refl, ◌∙◌, ap, ◌⊎◌, List, [], ◌∷◌,
  arith, bit_and, length, length-set, set, get_or, get_or-set_self, get_or-set_ne, if◌then◌else◌,
  ltb, u8, true, false,
}
use sesh_os.Base.Run.{Run, done, fault, ◌>>=◌}
use sesh_os.Base.Bits.{bit_and-low}
use sesh_os.Str.Split.{store}

-- `*((uint8_t *)&value + i)`
pub value_byte : ℕ → ℕ → Run ℕ
value_byte value i = if ltb i 8 then done (value / 256 ^ i % 256) else fault

-- `tmp + (tmp > 9 ? 55 : '0')`
unfoldable pub hex_digit : ℕ → ℕ
hex_digit tmp = u8 (tmp + (if ltb 9 tmp then 55 else b'0'))

-- `hexTo_StringOutput[size - k] = v`, with `size` 15
pub store_back : List ℕ → ℕ → ℕ → Run (List ℕ)
store_back out k v = if ltb 15 k then fault else store out (15 - k) v

-- The digits of `(*ptr & 0xF0) >> 4` and of `*ptr & 0x0F`.
pub high_char : ℕ → ℕ
high_char byte = hex_digit (bit_and byte 0xf0 / 2 ^ 4)

pub low_char : ℕ → ℕ
low_char byte = hex_digit (bit_and byte 0x0f)

pub hex_round : ℕ → ℕ → List ℕ → Run (List ℕ)
unfolding value_byte store_back
hex_round value i out = do
  byte ← value_byte value i
  out' ← store_back out (i * 2 + 1) (high_char byte)
  store_back out' (i * 2) (low_char byte)

-- `for (i = 0; i < size; i++)`, with `left` rounds to go
pub hex_loop : ℕ → ℕ → ℕ → List ℕ → Run (List ℕ)
hex_loop zero value i out = done out
hex_loop (suc left) value i out = hex_round value i out >>= hex_loop left value (i + 1)

unfoldable pub to_hstring : ℕ → List ℕ → Run (List ℕ)
unfolding hex_loop hex_round high_char low_char hex_digit
to_hstring value out = do out' ← hex_loop 15 value 0 out; store out' 16 0
