-- ===== src/Boot/Name.antt =====
-- What the arrays for the boot loader's name and version hold.
use sesh_os.Base.{
  le→leb, tests, gt→leb, ℕ, zero, suc, ◌+◌, ◌^◌, ◌<◌, ◌≤◌, ◌≡◌, ◌≢◌, refl, ap, ◌∙◌, inl, inr, ◌⊎◌,
  List, [], ◌∷◌, length, leb, arith, Bool-cases, sym,
}
use sesh_os.Base.Run.{done}
use sesh_os.Base.Memory.{Memory, CStr, SameOff}
use sesh_os.Mem.{memcpy}
use sesh_os.Mem.Copy.{memcpy_lem, copied-inside}
use sesh_os.Str.{strcpy}
use sesh_os.Str.Length.{strlen-length}
use sesh_os.Str.Copy.{strcpy-Stored, Stored}
use sesh_os.Boot.{copy_field}

CStr-end : (m : Memory) (p : ℕ) (s : List ℕ) → CStr m p s → m (p + length s) ≡ 0
CStr-end m p [] h = ap m (omega arith) ∙ h
CStr-end m p (c ∷ s) h = ap m (omega arith) ∙ CStr-end m (p + 1) s h.2

CStr-nonzero : (m : Memory) (p : ℕ) (s : List ℕ) (k : ℕ) → CStr m p s → k < length s → m (p + k) ≢ 0
CStr-nonzero m p [] k h l = absurd (omega arith)
CStr-nonzero m p (c ∷ s) zero h l = λ e. h.1 (omega (arith, h.0, ap m (plus_zero p), e))
  where
    plus_zero : (q : ℕ) → q + 0 ≡ q
    plus_zero q = omega arith
CStr-nonzero m p (c ∷ s) (suc k) h l =
    λ e. CStr-nonzero m (p + 1) s k h.2 (omega arith) (ap m (omega arith) ∙ e)

short-copy :
    (fuel : ℕ) (m g : Memory) (dest field : ℕ) (s : List ℕ)
    → CStr m field s
    → length s < fuel
    → length s ≤ 64
    → strcpy fuel m dest field ≡ done (g, dest)
    → copy_field fuel m dest field ≡ done g
unfolding copy_field
short-copy fuel m g dest field s h f short runs =
    rw (strlen-length fuel m field s h f (omega arith), le→leb (length s) 64 short, runs) refl

long-copy :
    (fuel : ℕ) (m : Memory) (dest field : ℕ) (s : List ℕ)
    → CStr m field s
    → length s < fuel
    → length s < 2 ^ 32
    → 64 < length s
    → copy_field fuel m dest field ≡ done (memcpy m dest field 64).0
unfolding copy_field
long-copy fuel m dest field s h f room long =
    rw (strlen-length fuel m field s h f room, gt→leb (length s) 64 long) refl

-- A name of up to 64 bytes is stored as a string, so that a name of exactly 64 bytes has its final
-- zero behind the array of 64 bytes; of a longer name the first 64 bytes are stored in order, and as
-- none of them is zero, the array has no final zero.
pub copy_field-array :
    (fuel : ℕ) (m : Memory) (dest field : ℕ) (s : List ℕ)
    → CStr m field s
    → length s < fuel
    → length s < 2 ^ 32
    → dest ≢ 0
    → (dest + 64 ≤ field) ⊎ (field + length s < dest)
    → (g : Memory) × (copy_field fuel m dest field ≡ done g)
      × (length s ≤ 64 → Stored m dest s g × (g (dest + length s) ≡ 0))
      × (64 < length s
          → SameOff dest (dest + 64) m g
            × ((k : ℕ) → k < 64 → (g (dest + k) ≡ m (field + k)) × (g (dest + k) ≢ 0)))
copy_field-array fuel m dest field s h f room ne apart = elim (Bool-cases (leb (length s) 64)) [
  | inl short ↦
      let (g, runs, stored) = (strcpy-Stored fuel m dest field s h f (before apart)).1 ne in
      (
        g,
        short-copy fuel m g dest field s h f (grind tests) runs,
        (λ _. (stored, CStr-end g dest s stored.string)),
        λ long. absurd (grind tests),
      )
  | inr long ↦
      let bytes = (memcpy_lem m dest field 64 (disjoint (grind tests) apart)).1 in
      (
        (memcpy m dest field 64).0,
        long-copy fuel m dest field s h f room (grind tests),
        (λ short. absurd (grind tests)),
        λ more. (
          (λ a out. ground (arith, bytes a)),
          λ k l.
              let copied_k = bytes (dest + k) ∙ copied-inside m dest field 64 k l in
              (copied_k, λ e. CStr-nonzero m field s k h (omega arith) (sym copied_k ∙ e)),
        ),
      )
]
  where
    before :
        (dest + 64 ≤ field) ⊎ (field + length s < dest) → (dest ≤ field) ⊎ (field + length s < dest)
    before (inl a) = inl (omega arith)
    before (inr b) = inr b

    disjoint :
        64 < length s
        → (dest + 64 ≤ field) ⊎ (field + length s < dest)
        → (dest ≤ field) ⊎ (field + 64 ≤ dest)
    disjoint l (inl a) = inl (omega arith)
    disjoint l (inr b) = inr (omega arith)
