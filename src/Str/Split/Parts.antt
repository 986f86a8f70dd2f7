-- ===== src/Str/Split/Parts.antt =====
-- `strsplit` cuts a string at the first separator.
use sesh_os.Base.{
  ℕ, suc, ◌+◌, ◌-◌, ◌^◌, ◌≤◌, ◌<◌, ◌≡◌, refl, ◌∙◌, ap, true, false, List, [], ◌∷◌, arith, length,
  length-set, set, get_or, get_or-set_self, get_or-set_ne, if◌then◌else◌, ◌==◌, ltb, Bool-cases,
  inl, inr, lt→ltb,
}
use sesh_os.Base.Run.{done}
use sesh_os.Base.Memory.{Memory, CStr, CStr-eq, Holds, NonZero, CStr-NonZero, CStr-Holds}
use mathlib.Core.Path.{subst}
use sesh_os.Str.{strlen}
use sesh_os.Str.Length.{strlen-length}
use sesh_os.Str.Split.{TwoStrings, before_loop, after_loop, strsplit}

-- The bytes up to the first separator, and those behind it.
abbrev pub before : ℕ → List ℕ → List ℕ
before d [] = []
before d (c ∷ s) = if c == d then [] else c ∷ before d s

abbrev pub after : ℕ → List ℕ → List ℕ
after d [] = []
after d (c ∷ s) = if c == d then s else after d s

abbrev pub bytes_of : List ℕ → Memory
bytes_of xs i = get_or xs i 0

-- `g` is the array `p` with the bytes `s` stored from index `i`.
record Filled (p : List ℕ) (i : ℕ) (s : List ℕ) (g : List ℕ) : Type 0 where
  same_length : length g ≡ length p
  holds : Holds (bytes_of g) i s
  earlier : (k : ℕ) → k < i → get_or g k 0 ≡ get_or p k 0

Filled-cons :
    (p : List ℕ) (i c : ℕ) (s g : List ℕ)
    → i < length p
    → Filled (set p i c) (i + 1) s g
    → Filled p i (c ∷ s) g
Filled-cons p i c s g l f = record {
  same_length = f.same_length ∙ length-set p i c;
  holds = (ground (arith, f.earlier i, get_or-set_self p i c 0), f.holds);
  earlier = λ k h. ground (arith, f.earlier k, get_or-set_ne p i k c 0);
}

-- The final zero makes the stored bytes a string.
CStr-set :
    (g : List ℕ) (i e : ℕ) (s : List ℕ)
    → NonZero s
    → Holds (bytes_of g) i s
    → i + length s ≡ e
    → e < length g
    → CStr (bytes_of (set g e 0)) i s
CStr-set g i e [] h f eq l =
    ground (arith, get_or-set_self g e 0 0, ap (λ (n : ℕ). get_or (set g e 0) n 0) eq)
CStr-set g i e (c ∷ s) h f eq l =
    (ground (arith, get_or-set_ne g e i 0 0), h.0, CStr-set g (i + 1) e s h.1 f.1 (omega arith) l)

after_loop-Filled :
    (m : Memory) (str i j : ℕ) (s p : List ℕ)
    → Holds m (str + i) s
    → j + length s ≤ length p
    → (g : List ℕ) × (after_loop (length s) m str i j p ≡ done (g, j + length s)) × Filled p j s g
unfolding after_loop
after_loop-Filled m str i j [] p h room =
    (p, ground arith, record { same_length = refl; holds = tt; earlier = λ k l. refl })
after_loop-Filled m str i j (c ∷ s) p h room =
    let next : Holds m (str + (i + 1)) s = subst (λ t. Holds m t s) (omega arith) h.1 in
    let (g, runs, filled) =
      after_loop-Filled m str (i + 1) (j + 1) s (set p j c) next
        (omega (arith, length-set {0} p j c)) in
    let fits : ltb j (length p) ≡ true = ground arith in
    (
      g,
      rw (h.0, fits) (runs ∙ ap (λ (n : ℕ). done (g, n)) (omega arith)),
      Filled-cons p j c s g (omega arith) filled,
    )

pub length-before : (d : ℕ) (s : List ℕ) → length (before d s) ≤ length s
length-before d [] = omega arith
length-before d (c ∷ s) = ground (arith, length-before d s)

pub length-after : (d : ℕ) (s : List ℕ) → length (after d s) ≤ length s
length-after d [] = omega arith
length-after d (c ∷ s) = ground (arith, length-after d s)

-- What is known of the loop over the bytes `s` from index `i`.
abbrev Cut : Memory → ℕ → ℕ → ℕ → ℕ → List ℕ → List ℕ → Type 0
Cut m str d n i b p =
    (g : List ℕ) × (before_loop n m str d i p ≡ done (g, i + length b)) × Filled p i b g

before-cons :
    (m : Memory) (str d i c : ℕ) (s p : List ℕ)
    → m (str + i) ≡ c
    → (c == d) ≡ false
    → i < length p
    → Cut m str d (length s) (i + 1) (before d s) (set p i c)
    → Cut m str d (suc (length s)) i (c ∷ before d s) p
unfolding before_loop
before-cons m str d i c s p e miss l (g, runs, filled) =
    (g, ground (arith, runs), Filled-cons p i c (before d s) g l filled)

before_loop-Filled :
    (m : Memory) (str d i : ℕ) (s p : List ℕ)
    → CStr m (str + i) s
    → i + length (before d s) ≤ length p
    → Cut m str d (length s) i (before d s) p
unfolding before_loop
before_loop-Filled m str d i [] p h room =
    (p, ground arith, record { same_length = refl; holds = tt; earlier = λ k l. refl })
before_loop-Filled m str d i (c ∷ s) p h room = elim (Bool-cases (c == d)) [
  | inl hit ↦
      rw hit (p, ground arith, record { same_length = refl; holds = tt; earlier = λ k l. refl })
  | inr miss ↦
      let room' : i + suc (length (before d s)) ≤ length p = rw miss at room in
      let next = CStr-eq m (str + i + 1) (str + (i + 1)) s (omega arith) h.2 in
      let rest =
        before_loop-Filled m str d (i + 1) s (set p i c) next
          (omega (arith, length-set {0} p i c)) in
      rw miss (before-cons m str d i c s p h.0 miss (omega arith) rest)
]

NonZero-before : (d : ℕ) (s : List ℕ) → NonZero s → NonZero (before d s)
NonZero-before d [] h = tt
NonZero-before d (c ∷ s) h = elim (Bool-cases (c == d)) [
  | inl hit ↦ rw hit tt
  | inr miss ↦ rw miss (h.0, NonZero-before d s h.1)
]

-- What stands behind the separator, in the string and as a list.
after-Holds :
    (m : Memory) (p d q : ℕ) (s : List ℕ)
    → CStr m p s
    → q ≡ p + length (before d s) + 1
    → Holds m q (after d s)
      × NonZero (after d s)
      × (length s - (length (before d s) + 1) ≡ length (after d s))
after-Holds m p d q [] h e = (tt, tt, omega arith)
after-Holds m p d q (c ∷ s) h e = elim (Bool-cases (c == d)) [
  | inl hit ↦
      let e' : q ≡ p + 0 + 1 = rw hit at e in
      rw hit (
        subst (λ t. Holds m t s) (omega arith) (CStr-Holds m (p + 1) s h.2),
        CStr-NonZero m (p + 1) s h.2,
        omega arith,
      )
  | inr miss ↦
      let e' : q ≡ p + suc (length (before d s)) + 1 = rw miss at e in
      let (holds, ne, len) = after-Holds m (p + 1) d q s h.2 (omega arith) in
      rw miss (holds, ne, omega arith)
]

strsplit-done :
    (fuel : ℕ) (junk1 junk2 : List ℕ) (m : Memory) (str d n i j : ℕ) (g1 g2 : List ℕ)
    → strlen fuel m str ≡ done n
    → before_loop n m str d 0 junk1 ≡ done (g1, i)
    → i < length g1
    → after_loop (n - (i + 1)) m str (i + 1) 0 junk2 ≡ done (g2, j)
    → j < length g2
    → strsplit fuel junk1 junk2 m str d ≡ done (record { a = set g1 i 0; b = set g2 j 0 })
unfolding strsplit
strsplit-done fuel junk1 junk2 m str d n i j g1 g2 e1 e2 l1 e3 l2 =
    rw (e1, e2, lt→ltb i (length g1) l1, e3, lt→ltb j (length g2) l2) refl

-- A string whose parts fit the arrays of 128 bytes is cut at the first separator: `a` holds the
-- bytes before it, all of them if there is none, and `b` the bytes behind it.
pub strsplit-before-after :
    (fuel : ℕ) (junk1 junk2 : List ℕ) (m : Memory) (str d : ℕ) (s : List ℕ)
    → length junk1 ≡ 128
    → length junk2 ≡ 128
    → CStr m str s
    → length s < fuel
    → length s < 2 ^ 32
    → length (before d s) < 128
    → length (after d s) < 128
    → (r : TwoStrings) × (strsplit fuel junk1 junk2 m str d ≡ done r)
      × CStr (bytes_of r.a) 0 (before d s)
      × CStr (bytes_of r.b) 0 (after d s)
unfolding strsplit
strsplit-before-after fuel junk1 junk2 m str d s l1 l2 h f b fits1 fits2 =
    let i = length (before d s) in
    let (g1, runs1, filled1) =
      before_loop-Filled m str d 0 s junk1 (CStr-eq m str (str + 0) s (omega arith) h)
        (omega arith) in
    let (holds, ne, len) = after-Holds m str d (str + (i + 1)) s h (omega arith) in
    let (g2, runs2, filled2) =
      after_loop-Filled m str (i + 1) 0 (after d s) junk2 holds (omega arith) in
    let runs1' : before_loop (length s) m str d 0 junk1 ≡ done (g1, i) =
      runs1 ∙ ap (λ (n : ℕ). done (g1, n)) (omega arith) in
    let runs2' : after_loop (length s - (i + 1)) m str (i + 1) 0 junk2
        ≡ done (g2, length (after d s)) =
      ap (λ (n : ℕ). after_loop n m str (i + 1) 0 junk2) len
      ∙ runs2
      ∙ ap (λ (n : ℕ). done (g2, n)) (omega arith) in
    let room1 : i < length g1 = omega (arith, filled1.same_length) in
    let room2 : length (after d s) < length g2 = omega (arith, filled2.same_length) in
    (
      record { a = set g1 i 0; b = set g2 (length (after d s)) 0 },
      strsplit-done fuel junk1 junk2 m str d (length s) i (length (after d s)) g1 g2
          (strlen-length fuel m str s h f b) runs1' room1 runs2' room2,
      CStr-set g1 0 i (before d s) (NonZero-before d s (CStr-NonZero m str s h)) filled1.holds
          (omega arith) room1,
      CStr-set g2 0 (length (after d s)) (after d s) ne filled2.holds (omega arith) room2,
    )
