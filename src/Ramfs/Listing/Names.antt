-- ===== src/Ramfs/Listing/Names.antt =====
-- Which names `ls` prints.
use sesh_os.Base.{
  ℕ, zero, suc, ◌+◌, ◌-◌, ◌<◌, ◌≤◌, ◌≡◌, ◌≢◌, refl, sym, ap, ◌∙◌, Bool, true, false, List, [], ◌∷◌,
  ◌++◌, ◌==◌, ltb, ltb→lt, lt→ltb, ◌↔◌, ge→ltb, ne→==, get_or, length, arith, if◌then◌else◌, inl,
  inr, ◌⊎◌, Bool-cases,
}
use mathlib.Core.List.{append_assoc, append-nil}
use sesh_os.Base.Int.{is_zero, is_zero→eq, eq→is_zero}
use sesh_os.Base.Memory.{Memory, CStr, CStr-eq, CStr-SameOn}
use sesh_os.Base.Run.{done, bind-done}
use sesh_os.Str.Compare.{strcmp-zero_iff}
use sesh_os.Str.Split.Parts.{before, after, length-before, length-after, strsplit-before-after}
use sesh_os.Ramfs.Listing.{array, arrays, name_in_path, is_listed, ls_loop, ls}

-- The second part of a path.
abbrev pub part : List ℕ → List ℕ
part s = before b'/' (after b'/' s)

-- An array that holds a string that is shorter than it.
abbrev pub Named : List ℕ → List ℕ → Type 0
Named xs s = CStr (array xs) 0 s

name_in_path-part :
    (fuel : ℕ) (junk : List ℕ) (m : Memory) (header : ℕ) (s : List ℕ)
    → length junk ≡ 128
    → CStr m header s
    → length s < 100
    → 100 ≤ fuel
    → (name : List ℕ) × (name_in_path fuel junk m header ≡ done name) × Named name (part s)
unfolding name_in_path
name_in_path-part fuel junk m header s l h short enough =
    let (full, runs, _, rest) =
      strsplit-before-after fuel junk junk m header b'/' s l l h (omega arith) (omega arith)
        (omega (arith, length-before b'/' s)) (omega (arith, length-after b'/' s)) in
    let (name, runs', holds, _) =
      strsplit-before-after fuel junk junk (array full.b) 0 b'/' (after b'/' s) l l rest
        (omega (arith, length-after b'/' s)) (omega (arith, length-after b'/' s))
        (omega (arith, length-after b'/' s, length-before b'/' (after b'/' s)))
        (omega (arith, length-after b'/' s, length-after b'/' (after b'/' s))) in
    (name.a, bind-done _ runs (bind-done _ runs' refl), holds)

arrays-first : (xs ys s : List ℕ) → Named xs s → length s < 128 → CStr (arrays xs ys) 0 s
arrays-first xs ys s h short = CStr-SameOn 0 s h (λ a lo hi. rw (lt→ltb a 128 (omega arith)) refl)

arrays-at : (xs ys : List ℕ) (p : ℕ) → arrays xs ys (128 + p) ≡ array ys p
arrays-at xs ys p = rw (ge→ltb (128 + p) 128 (omega arith)) (ap (array ys) (omega arith))

arrays-second : (xs ys s : List ℕ) (p : ℕ) → CStr (array ys) p s → CStr (arrays xs ys) (128 + p) s
arrays-second xs ys [] p h = arrays-at xs ys p ∙ h
arrays-second xs ys (c ∷ s) p h = (
  arrays-at xs ys p ∙ h.0,
  h.1,
  CStr-eq (arrays xs ys) (128 + (p + 1)) (128 + p + 1) s (omega arith)
      (arrays-second xs ys s (p + 1) h.2),
)

length-part : (s : List ℕ) → length (part s) ≤ length s
length-part s = omega (arith, length-after b'/' s, length-before b'/' (after b'/' s))

-- The file before is there from the second one on.
abbrev pub Previous : Memory → (headers : List ℕ) → (i : ℕ) → (old : List ℕ) → Type 0
Previous m headers i old = 1 < i → CStr m (get_or headers (i - 1) 0) old × (length old < 100)

is_listed-part :
    (fuel : ℕ) (junk : List ℕ) (m : Memory) (headers : List ℕ) (i : ℕ) (name s old : List ℕ)
    → length junk ≡ 128
    → 100 ≤ fuel
    → Named name (part s)
    → Previous m headers i old
    → (b : Bool) × (is_listed fuel junk m headers i name ≡ done b)
      × ((b ≡ true) ↔ ((i ≤ 1) ⊎ (part old ≡ part s)))
unfolding is_listed
is_listed-part fuel junk m headers i name s old l enough named before_ =
    elim (Bool-cases (ltb 1 i)) [
      | inl later ↦
          let (there, short) = before_ (ltb→lt 1 i later) in
          let (old_name, runs, holds) =
            name_in_path-part fuel junk m (get_or headers (i - 1) 0) old l there short enough in
          let (r, compares, zero_iff) =
            strcmp-zero_iff fuel (arrays old_name name) 0 128 (part old) (part s)
              (arrays-first old_name name (part old) holds (omega (arith, length-part old)))
              (arrays-second old_name name (part s) 0 named) (omega (arith, length-part old)) in
          rw later (
            is_zero r,
            bind-done _ runs (bind-done _ compares refl),
            (
              (λ e. inr (zero_iff.0 (is_zero→eq r e))),
              λ h. elim h [
                | inl first ↦ absurd (omega (arith, ltb→lt 1 i later))
                | inr same ↦ eq→is_zero r (zero_iff.1 same)
              ],
            ),
          )
      | inr first ↦ rw first (true, refl, ((λ e. inl (ground arith)), λ h. refl))
    ]

-- Headers with the paths `ss` from index `i` on, and one with an empty path behind them.
abbrev pub Files : Memory → (headers : List ℕ) → (i : ℕ) → (ss : List (List ℕ)) → Type 0
Files m headers i [] = (i < length headers) × (m (get_or headers i 0) ≡ 0)
Files m headers i (s ∷ ss) =
    (i < length headers)
    × CStr m (get_or headers i 0) s
    × (s ≢ [])
    × (length s < 100)
    × Files m headers (i + 1) ss

-- What is listed of the paths from file `i` on, `old` being the one before: the second part of the
-- first file's path, and of every other one's that has the same second part as the file before it.
pub data Listing : (i : ℕ) → (old : List ℕ) → List (List ℕ) → (text : List ℕ) → Type 0 where
  end : {i : ℕ} {old : List ℕ} → Listing i old [] []
  shown :
      {i : ℕ} {old s text : List ℕ} {ss : List (List ℕ)}
      → (i ≤ 1) ⊎ (part old ≡ part s)
      → Listing (i + 1) s ss text
      → Listing i old (s ∷ ss) ((part s ++ b'\n' ∷ []) ++ text)
  passed :
      {i : ℕ} {old s text : List ℕ} {ss : List (List ℕ)}
      → ¬ ((i ≤ 1) ⊎ (part old ≡ part s))
      → Listing (i + 1) s ss text
      → Listing i old (s ∷ ss) text

first_byte : (m : Memory) (p : ℕ) (s : List ℕ) → CStr m p s → s ≢ [] → (m p == 0) ≡ false
first_byte m p [] h some = absurd (some refl)
first_byte m p (c ∷ s) h some = ne→== (m p) 0 (λ e. h.1 (sym h.0 ∙ e))

refused : {b : Bool} → b ≡ true → b ≡ false → ⊥
refused e f = ground arith

module _ (printf : List ℕ → List ℕ)
    (prints : (xs s : List ℕ) → Named xs s → printf xs ≡ s ++ b'\n' ∷ []) where
  ls_loop-step :
      (rounds fuel : ℕ) (junk : List ℕ) (m : Memory) (headers : List ℕ) (i : ℕ)
      (printed name : List ℕ) (b : Bool)
      → i < length headers
      → (m (get_or headers i 0) == 0) ≡ false
      → name_in_path fuel junk m (get_or headers i 0) ≡ done name
      → is_listed fuel junk m headers i name ≡ done b
      → ls_loop printf (suc rounds) fuel junk m headers i printed
        ≡ ls_loop printf rounds fuel junk m headers
            (i + 1)
            (if b then printed ++ printf name else printed)
  unfolding ls_loop
  ls_loop-step rounds fuel junk m headers i printed name b inside some names lists =
      rw (lt→ltb i (length headers) inside, some) (bind-done _ names (bind-done _ lists refl))

  ls_loop-Listing :
      (rounds fuel : ℕ) (junk : List ℕ) (m : Memory) (headers : List ℕ) (i : ℕ) (old : List ℕ)
      (ss : List (List ℕ)) (printed : List ℕ)
      → length junk ≡ 128
      → 100 ≤ fuel
      → length {0} ss < rounds
      → Previous m headers i old
      → Files m headers i ss
      → (text : List ℕ) × (ls_loop printf rounds fuel junk m headers i printed
          ≡ done (printed ++ text))
        × Listing i old ss text
  unfolding ls_loop
  ls_loop-Listing zero fuel junk m headers i old ss printed l enough room previous files =
      absurd (omega arith)
  ls_loop-Listing (suc rounds) fuel junk m headers i old [] printed l enough room previous files = (
    [],
    rw (lt→ltb i (length headers) files.0, files.1) (ap done (sym (append-nil printed))),
    end,
  )
  ls_loop-Listing (suc rounds) fuel junk m headers i old (s ∷ ss) printed l enough room previous
        (inside, path, some, short, rest) =
      let (name, names, named) =
        name_in_path-part fuel junk m (get_or headers i 0) s l path short enough in
      let (b, lists, listed) =
        is_listed-part fuel junk m headers i name s old l enough named previous in
      let step =
        ls_loop-step rounds fuel junk m headers i printed name b inside (first_byte m _ s path some)
          names lists in
      let next : Previous m headers (i + 1) s =
        λ _. (CStr-eq m _ _ s (ap (λ (k : ℕ). get_or headers k 0) (omega arith)) path, short) in
      elim (Bool-cases b) [
        | inl yes_ ↦
            let (text, runs, listing) =
              ls_loop-Listing rounds fuel junk m headers (i + 1) s ss
                (printed ++ (part s ++ b'\n' ∷ [])) l enough (omega arith) next rest in
            (
              (part s ++ b'\n' ∷ []) ++ text,
              step
                  ∙ rw (yes_, prints name (part s) named)
                      (runs ∙ ap done (append_assoc printed (part s ++ b'\n' ∷ []) text)),
              shown (listed.0 yes_) listing,
            )
        | inr no_ ↦
            let (text, runs, listing) =
              ls_loop-Listing rounds fuel junk m headers (i + 1) s ss printed l enough (omega arith)
                next rest in
            (text, step ∙ rw no_ runs, passed (λ h. refused (listed.1 h) no_) listing)
      ]

  -- When the files behind the first one have paths of fewer than 100 bytes and a header with an empty
  -- path is behind them, `ls` returns, with rounds for the files and fuel for a path, and prints of
  -- the first of them the second part of its path, and of each other one if the file before it has
  -- the same second part.
  pub ls-Listing :
      (rounds fuel : ℕ) (junk : List ℕ) (m : Memory) (headers : List ℕ) (ss : List (List ℕ))
      → length junk ≡ 128
      → 100 ≤ fuel
      → length {0} ss < rounds
      → Files m headers 1 ss
      → (text : List ℕ) × (ls printf rounds fuel junk m headers ≡ done text) × Listing 1 [] ss text
  unfolding ls
  ls-Listing rounds fuel junk m headers ss l enough room files =
      ls_loop-Listing rounds fuel junk m headers 1 [] ss [] l enough room
        (λ h. absurd (omega arith)) files
