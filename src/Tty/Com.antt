-- ===== src/Tty/Com.antt =====
-- kernel/serial/comout.c: output to the debug port 0xE9.
use sesh_os.Base.{
  ℕ, zero, suc, ◌+◌, ◌*◌, ◌/◌, ◌^◌, ◌<◌, ◌≡◌, List, [], ◌∷◌, arith, length, leb, ◌-◌, if◌then◌else◌,
  ◌==◌, u64, u16,
}
use sesh_os.Base.Run.{Run, done, out_of_fuel}
use sesh_os.Base.Memory.{Memory, CStr}
use mathlib.Core.List.{reverse_aux}
use sesh_os.Tty.{Tty}

-- `while (input[i] != '\0') { outb(0xE9, input[i]); i++; }`
unfoldable pub comout : ℕ → Memory → ℕ → List ℕ → Run (List ℕ)
comout zero m input out = out_of_fuel
comout (suc fuel) m input out =
    let rest = comout fuel m (input + 1) (m input ∷ out) in if m input == 0 then done out else rest

-- `"0123456789abcdef"[d]`
pub hex_char : ℕ → ℕ
hex_char d = if leb d 9 then b'0' + d else b'a' + (d - 10)

-- `for (i = 0; i < 16; i++)`, with `left` rounds to go
pub comout_num_loop : ℕ → ℕ → List ℕ → List ℕ
comout_num_loop zero num out = out
comout_num_loop (suc left) num out =
    comout_num_loop left (u64 (num * 2 ^ 4)) (hex_char (num / 2 ^ 60) ∷ out)

unfoldable pub comout_num : ℕ → List ℕ → List ℕ
unfolding comout_num_loop hex_char
comout_num num out = comout_num_loop 16 num out

-- A one-character string is sent first; a zero byte sends nothing.
unfoldable pub com_log_wrapper : Tty → ℕ → Tty
com_log_wrapper t ch =
    let sent = record t { port_e9 = (if ch == 0 then t.port_e9 else ch ∷ t.port_e9) } in
    if ch == b'\r'
    then record sent { cursor_x = 0 }
    else if ch == b'\n'
    then record sent { cursor_y = u16 (t.cursor_y + 1) }
    else record sent { cursor_x = u16 (t.cursor_x + 1) }

-- `comout` sends every byte of the string, in order, and no other.
pub comout-reverse_aux :
    (fuel : ℕ) (m : Memory) (p : ℕ) (s out : List ℕ)
    → CStr m p s
    → length s < fuel
    → comout fuel m p out ≡ done (reverse_aux s out)
unfolding comout
comout-reverse_aux zero m p s out h f = absurd (omega arith)
comout-reverse_aux (suc fuel) m p [] out h f = ground arith
comout-reverse_aux (suc fuel) m p (c ∷ s) out h f =
    ground (arith, comout-reverse_aux fuel m (p + 1) s (c ∷ out))
