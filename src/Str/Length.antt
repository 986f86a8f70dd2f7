-- ===== src/Str/Length.antt =====
-- `strlen` and `strnlen_s` of kernel/string.c.
use sesh_os.Base.{ℕ, zero, suc, ◌+◌, ◌^◌, ◌<◌, ◌≡◌, ap, List, [], ◌∷◌, arith, length, min, u32, ◌∙◌}
use sesh_os.Base.Run.{done}
use sesh_os.Base.Memory.{Memory, CStr, CStr-eq}
use sesh_os.Str.{strlen_loop, strlen, strnlen_s}

strlen_loop-length :
    (fuel : ℕ) (m : Memory) (str i : ℕ) (s : List ℕ)
    → CStr m (str + i) s
    → length s < fuel
    → i + length s < 2 ^ 32
    → strlen_loop fuel m str i ≡ done (i + length s)
unfolding strlen_loop
strlen_loop-length zero m str i s h f b = absurd (omega arith)
strlen_loop-length (suc fuel) m str i [] h f b = ground arith
strlen_loop-length (suc fuel) m str i (c ∷ s) h f b = ground (
  arith,
  strlen_loop-length fuel m str (u32 (i + 1)) s
      (CStr-eq m (str + i + 1) (str + u32 (i + 1)) s (omega arith) h.2) (omega arith) (omega arith),
)

-- `strlen` of a string shorter than 2^32 bytes is its length, with fuel for its bytes and the
-- final zero.
pub strlen-length :
    (fuel : ℕ) (m : Memory) (str : ℕ) (s : List ℕ)
    → CStr m str s
    → length s < fuel
    → length s < 2 ^ 32
    → strlen fuel m str ≡ done (length s)
unfolding strlen
strlen-length fuel m str s h f b =
    strlen_loop-length fuel m str 0 s (CStr-eq m str (str + 0) s (omega arith) h) f (omega arith)
    ∙ ap done (omega arith)

-- `strnlen_s` is the length of the string, cut at the size given.
pub strnlen_s-min :
    (m : Memory) (p n : ℕ) (s : List ℕ) → CStr m p s → strnlen_s m p n ≡ min n (length s)
unfolding strnlen_s
strnlen_s-min m p zero s h = omega arith
strnlen_s-min m p (suc n) [] h = ground arith
strnlen_s-min m p (suc n) (c ∷ s) h = ground (arith, strnlen_s-min m (p + 1) n s)
