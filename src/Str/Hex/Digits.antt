-- ===== src/Str/Hex/Digits.antt =====
-- `to_hstring` of kernel/string.c: its first 8 rounds give the hexadecimal digits, and its ninth
-- reads behind the value.
use sesh_os.Base.{
  ℕ, zero, suc, ◌+◌, ◌-◌, ◌*◌, ◌/◌, ◌%◌, ◌^◌, ◌≤◌, ◌<◌, ◌≡◌, refl, ◌∙◌, ap, ◌⊎◌, inl, inr, List,
  arith, length, length-set, set, get_or, get_or-set_self, get_or-set_ne, ltb, true, false,
  Bool-cases, ltb→lt, ◌==◌, sym,
}
use mathlib.Core.Path.{subst}
use sesh_os.Base.Run.{done, fault}
use sesh_os.Base.Bits.{bit_and-low, bit_and-high_nibble}
use sesh_os.Str.Hex.{hex_digit, high_char, low_char, hex_round, hex_loop, to_hstring}

-- What one round stores: the digits of byte `i`, the high one first; `g` is the array after it.
record HexPair (value i : ℕ) (out g : List ℕ) : Type 0 where
  runs : hex_round value i out ≡ done g
  same_length : length g ≡ 128
  high : get_or g (14 - i * 2) 0 ≡ high_char (value / 256 ^ i % 256)
  low : get_or g (15 - i * 2) 0 ≡ low_char (value / 256 ^ i % 256)
  others : (k : ℕ) → (k < 14 - i * 2) ⊎ (15 - i * 2 < k) → get_or g k 0 ≡ get_or out k 0

hex_round-HexPair :
    (value i : ℕ) (out : List ℕ) → i < 8 → length out ≡ 128 → (g : List ℕ) × HexPair value i out g
unfolding hex_round
hex_round-HexPair value i out h l = (
  set mid (15 - i * 2) lo,
  record {
    runs = rw (in_value, not_low, fits, not_low', fits') refl;
    same_length =
        omega (arith, length-set {0} mid (15 - i * 2) lo, length-set {0} out (15 - (i * 2 + 1)) hi);
    high =
        get_or-set_ne mid (15 - i * 2) (14 - i * 2) lo 0 (omega arith)
        ∙ ap (λ (n : ℕ). get_or mid n 0) (omega arith)
        ∙ get_or-set_self out (15 - (i * 2 + 1)) hi 0 (omega arith);
    low =
        get_or-set_self mid (15 - i * 2) lo 0
          (omega (arith, length-set {0} out (15 - (i * 2 + 1)) hi));
    others = λ k apart.
        get_or-set_ne mid (15 - i * 2) k lo 0 (omega arith)
        ∙ get_or-set_ne out (15 - (i * 2 + 1)) k hi 0 (omega arith);
  },
)
  where
    hi : ℕ
    hi = high_char (value / 256 ^ i % 256)

    lo : ℕ
    lo = low_char (value / 256 ^ i % 256)

    mid : List ℕ
    mid = set out (15 - (i * 2 + 1)) hi

    in_value : ltb i 8 ≡ true
    in_value = ground arith

    not_low : ltb 15 (i * 2 + 1) ≡ false
    not_low = ground arith

    fits : ltb (15 - (i * 2 + 1)) (length out) ≡ true
    fits = ground arith

    not_low' : ltb 15 (i * 2) ≡ false
    not_low' = ground arith

    fits' : ltb (15 - i * 2) (length mid) ≡ true
    fits' = ground (arith, length-set out (15 - (i * 2 + 1)) hi)

-- Over a byte, the masks of the source pick the two digits.
high_char-digit : (b : ℕ) → b < 256 → high_char b ≡ hex_digit (b / 16)
unfolding high_char
high_char-digit b h = ap hex_digit (omega (arith, bit_and-high_nibble b h))

low_char-digit : (b : ℕ) → low_char b ≡ hex_digit (b % 16)
unfolding low_char
low_char-digit b = ap hex_digit (bit_and-low 4 b)

-- The byte `i` of a value holds its digits 2i and 2i + 1.
byte-digits :
    (v i : ℕ)
    → i < 8
    → (v / 256 ^ i % 256 / 16 ≡ v / 16 ^ (i * 2 + 1) % 16)
      × (v / 256 ^ i % 256 % 16 ≡ v / 16 ^ (i * 2) % 16)
byte-digits v zero h = (omega arith, omega arith)
byte-digits v (suc zero) h = (omega arith, omega arith)
byte-digits v (suc (suc zero)) h = (omega arith, omega arith)
byte-digits v (suc (suc (suc zero))) h = (omega arith, omega arith)
byte-digits v (suc (suc (suc (suc zero)))) h = (omega arith, omega arith)
byte-digits v (suc (suc (suc (suc (suc zero))))) h = (omega arith, omega arith)
byte-digits v (suc (suc (suc (suc (suc (suc zero)))))) h = (omega arith, omega arith)
byte-digits v (suc (suc (suc (suc (suc (suc (suc zero))))))) h = (omega arith, omega arith)
byte-digits v (suc (suc (suc (suc (suc (suc (suc (suc i)))))))) h = absurd (omega arith)

-- The character of the digit at place `k` of 16, the most significant first.
pub digit_at : ℕ → ℕ → ℕ
digit_at v k = hex_digit (v / 16 ^ (15 - k) % 16)

HexPair-digits :
    (v i : ℕ) (out g : List ℕ)
    → i < 8
    → HexPair v i out g
    → (get_or g (14 - i * 2) 0 ≡ digit_at v (14 - i * 2))
      × (get_or g (15 - i * 2) 0 ≡ digit_at v (15 - i * 2))
unfolding digit_at
HexPair-digits v i out g h r =
    let (hi, lo) = byte-digits v i h in
    (
      r.high
          ∙ high_char-digit (v / 256 ^ i % 256) (omega arith)
          ∙ ap hex_digit hi
          ∙ ap (λ (n : ℕ). hex_digit (v / 16 ^ n % 16)) (omega arith),
      r.low
          ∙ low_char-digit (v / 256 ^ i % 256)
          ∙ ap hex_digit lo
          ∙ ap (λ (n : ℕ). hex_digit (v / 16 ^ n % 16)) (omega arith),
    )

digits-HexPair :
    (v i k : ℕ) (out g g' : List ℕ)
    → i < 8
    → k < 16 - i * 2
    → HexPair v i out g
    → ((j : ℕ) → j < 16 - (i + 1) * 2 → get_or g' j 0 ≡ digit_at v j)
    → ((j : ℕ) → 16 - (i + 1) * 2 ≤ j → get_or g' j 0 ≡ get_or g j 0)
    → get_or g' k 0 ≡ digit_at v k
digits-HexPair v i k out g g' h b r digits others = elim (Bool-cases (ltb k (14 - i * 2))) [
  | inl early ↦ digits k (omega (arith, ltb→lt k (14 - i * 2) early))
  | inr late ↦ elim (Bool-cases (k == 14 - i * 2)) [
    | inl first ↦
        others k (ground arith) ∙ at k (14 - i * 2) (ground arith) (HexPair-digits v i out g h r).0
    | inr second ↦
        others k (ground arith) ∙ at k (15 - i * 2) (ground arith) (HexPair-digits v i out g h r).1
  ]
]
  where
    at : (j n : ℕ) → j ≡ n → get_or g n 0 ≡ digit_at v n → get_or g j 0 ≡ digit_at v j
    at j n e d = subst (λ t. get_or g t 0 ≡ digit_at v t) (sym e) d

-- The rounds from `i` to the eighth.
hex_loop-digits :
    (left i v : ℕ) (out : List ℕ)
    → i + left ≡ 8
    → length out ≡ 128
    → (g : List ℕ) × (hex_loop left v i out ≡ done g)
      × (length g ≡ 128)
      × ((k : ℕ) → k < 16 - i * 2 → get_or g k 0 ≡ digit_at v k)
      × ((k : ℕ) → 16 - i * 2 ≤ k → get_or g k 0 ≡ get_or out k 0)
unfolding hex_loop
hex_loop-digits zero i v out e l = (out, refl, l, (λ k h. absurd (omega arith)), λ k h. refl)
hex_loop-digits (suc left) i v out e l =
    let (g, r) = hex_round-HexPair v i out (omega arith) l in
    let (g', runs, l', digits, others) =
      hex_loop-digits left (i + 1) v g (omega arith) r.same_length in
    (
      g',
      rw r.runs runs,
      l',
      (λ k h. digits-HexPair v i k out g g' (omega arith) h r digits others),
      λ k h. others k (omega arith) ∙ r.others k (omega arith),
    )

-- After 8 rounds the first 16 characters of the array are the hexadecimal digits of the value, the
-- most significant first, and no other character has changed.
pub hex_loop-digit_at :
    (v : ℕ) (out : List ℕ)
    → length out ≡ 128
    → (g : List ℕ) × (hex_loop 8 v 0 out ≡ done g)
      × ((k : ℕ) → k < 16 → get_or g k 0 ≡ digit_at v k)
      × ((k : ℕ) → 16 ≤ k → get_or g k 0 ≡ get_or out k 0)
hex_loop-digit_at v out l =
    let (g, runs, l', digits, others) = hex_loop-digits 8 0 v out refl l in
    (g, runs, digits, others)

hex_round-fault : (v i : ℕ) (out : List ℕ) → ltb i 8 ≡ false → hex_round v i out ≡ fault
unfolding hex_round
hex_round-fault v i out outside = rw outside

hex_loop-fault :
    (left i v : ℕ) (out : List ℕ)
    → i ≤ 8
    → 9 ≤ i + left
    → length out ≡ 128
    → hex_loop left v i out ≡ fault
unfolding hex_loop
hex_loop-fault zero i v out h e l = absurd (omega arith)
hex_loop-fault (suc left) i v out h e l = elim (Bool-cases (ltb i 8)) [
  | inl inside ↦
      let (g, r) = hex_round-HexPair v i out (ltb→lt i 8 inside) l in
      rw r.runs (
        hex_loop-fault left (i + 1) v g (omega (arith, ltb→lt i 8 inside)) (omega arith)
          r.same_length)
  | inr outside ↦ rw (hex_round-fault v i out outside)
]

-- `to_hstring` reads behind the 8 bytes of its argument, whatever the value is.
pub to_hstring-fault : (v : ℕ) (out : List ℕ) → length out ≡ 128 → to_hstring v out ≡ fault
unfolding to_hstring
to_hstring-fault v out l = rw (hex_loop-fault 15 0 v out (omega arith) (omega arith) l)
