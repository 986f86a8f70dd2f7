-- ===== src/Str/Copy.antt =====
-- `strcpy` and `strcat` of kernel/string.c.
use sesh_os.Base.{
  ℕ, zero, suc, ◌+◌, ◌^◌, ◌≤◌, ◌<◌, ◌≡◌, ◌≢◌, refl, ◌⊎◌, List, [], ◌∷◌, ◌++◌, arith, length, ne→==,
}
use sesh_os.Base.Run.{done}
use sesh_os.Base.Memory.{Memory, poke, CStr, CStr-eq, CStr-SameOn, SameOff, SameOn}
use sesh_os.Str.{copy_loop, strcpy, strcat}
use sesh_os.Str.Length.{strlen-length}

-- `g` is `m` with the string `s` stored at `dest`, its final zero included.
pub record Stored (m : Memory) (dest : ℕ) (s : List ℕ) (g : Memory) : Type 0 where
  pub string : CStr g dest s
  pub outside : SameOff dest (dest + length s + 1) m g

Stored-cons :
    {m g : Memory} (dest c : ℕ) (s : List ℕ)
    → c ≢ 0
    → Stored (poke m dest c) (dest + 1) s g
    → Stored m dest (c ∷ s) g
Stored-cons dest c s ne rest = record {
  string = (ground (arith, rest.outside dest), ne, rest.string);
  outside = λ a out. ground (arith, rest.outside a);
}

copy_loop-Stored :
    (fuel : ℕ) (m : Memory) (dest src : ℕ) (s : List ℕ)
    → CStr m src s
    → length s < fuel
    → (dest ≤ src) ⊎ (src + length s < dest)
    → (g : Memory) × (copy_loop fuel m dest src ≡ done g) × Stored m dest s g
unfolding copy_loop
copy_loop-Stored zero m dest src s h f apart = absurd (omega arith)
copy_loop-Stored (suc fuel) m dest src [] h f apart =
    (poke m dest 0, ground arith, record { string = ground arith; outside = λ a out. ground arith })
copy_loop-Stored (suc fuel) m dest src (c ∷ s) h f apart =
    let same : SameOn (src + 1) (src + 1 + length s + 1) m (poke m dest (m src)) =
      λ a l r. ground arith in
    let (g, runs, stored) =
      copy_loop-Stored fuel (poke m dest (m src)) (dest + 1) (src + 1) s
        (CStr-SameOn (src + 1) s h.2 same) (omega arith) (omega arith) in
    (g, ground arith, Stored-cons dest c s h.1 (rw (← h.0) stored))

-- Unless the destination stands inside the source string, `strcpy` returns its destination, has
-- stored the string there and changes no other byte; a `NULL` destination is returned with the
-- memory unchanged.
pub strcpy-Stored :
    (fuel : ℕ) (m : Memory) (dest src : ℕ) (s : List ℕ)
    → CStr m src s
    → length s < fuel
    → (dest ≤ src) ⊎ (src + length s < dest)
    → (strcpy fuel m 0 src ≡ done (m, 0))
      × (dest ≢ 0 → (g : Memory) × (strcpy fuel m dest src ≡ done (g, dest)) × Stored m dest s g)
unfolding strcpy
strcpy-Stored fuel m dest src s h f apart = (
  refl,
  λ ne.
      let (g, runs, stored) = copy_loop-Stored fuel m dest src s h f apart in
      (g, rw (ne→== dest 0 ne, runs) refl, stored),
)

-- The string that stands before, and the one stored behind it at `e`, are one string.
CStr-append :
    (m g : Memory) (p e : ℕ) (d s : List ℕ)
    → e ≡ p + length d
    → CStr m p d
    → Stored m e s g
    → CStr g p (d ++ s)
CStr-append m g p e [] s eq h stored = CStr-eq g e p s (omega arith) stored.string
CStr-append m g p e (c ∷ d) s eq h stored =
    (ground (arith, stored.outside p), h.1, CStr-append m g (p + 1) e d s (omega arith) h.2 stored)

-- Where the source does not overlap the room for the result, `strcat` returns its destination,
-- which holds both strings, one behind the other, and changes only the bytes from the end of the
-- first string.
pub strcat-Stored :
    (fuel : ℕ) (m : Memory) (dest src : ℕ) (d s : List ℕ)
    → CStr m dest d
    → CStr m src s
    → length d < fuel
    → length s < fuel
    → length d < 2 ^ 32
    → (dest + length d + length s < src) ⊎ (src + length s < dest)
    → (g : Memory) × (strcat fuel m dest src ≡ done (g, dest))
      × CStr g dest (d ++ s)
      × SameOff (dest + length d) (dest + length d + length s + 1) m g
unfolding strcat
strcat-Stored fuel m dest src d s hd hs fd fs b apart =
    let (g, runs, stored) = copy_loop-Stored fuel m (dest + length d) src s hs fs (omega arith) in
    (
      g,
      rw (strlen-length fuel m dest d hd fd b, runs) refl,
      CStr-append m g dest (dest + length d) d s refl hd stored,
      stored.outside,
    )
