-- ===== src/Ramfs/Headers.antt =====
-- The table of headers that `parse` fills.
use sesh_os.Base.{
  ge→ltb, ℕ, zero, suc, ◌+◌, ◌*◌, ◌/◌, ◌^◌, ◌≤◌, ◌<◌, ◌≡◌, ◌≢◌, Bool-cases, inl, inr, ltb→lt, refl,
  ◌∙◌, ap, arith, u32, ltb, List, [], ◌∷◌, get_or, set, length, length-set, get_or-set_self,
  get_or-set_ne, ne→==, lt→ltb,
}
use sesh_os.Base.Run.{done, fault}
use sesh_os.Base.Memory.{Memory}
use sesh_os.Ramfs.{size_field, getsize, next_address, parse_loop, parse}
use sesh_os.Ramfs.Size.{AllOctal, octal, getsize-octal, next_address-blocks}

-- Where the header behind a file of `size` bytes stands.
abbrev pub behind : ℕ → ℕ → ℕ
behind p size = p + 512 + (size + 511) / 512 * 512

-- An archive at `p` below the 32-bit limit with files of the sizes given, and an empty name behind
-- them.
abbrev pub Archive : Memory → ℕ → List ℕ → Type 0
Archive m p [] = m p ≡ 0
Archive m p (size ∷ sizes) =
    (m p ≢ 0)
    × AllOctal m (p + size_field) 11
    × (octal m (p + size_field) 11 ≡ size)
    × (p + size + 1024 < 2 ^ 32)
    × Archive m (behind p size) sizes

-- The addresses of the headers, with that of the empty one.
abbrev pub addresses : ℕ → List ℕ → List ℕ
addresses p [] = p ∷ []
addresses p (size ∷ sizes) = p ∷ addresses (behind p size) sizes

-- The elements of `table` from `i` on begin with `xs`.
abbrev pub From : List ℕ → ℕ → List ℕ → Type 0
From table i [] = Unit {0}
From table i (x ∷ xs) = (get_or table i 0 ≡ x) × From table (i + 1) xs

next-behind :
    (m : Memory) (p size : ℕ)
    → AllOctal m (p + size_field) 11
    → octal m (p + size_field) 11 ≡ size
    → p + size + 1024 < 2 ^ 32
    → next_address p (getsize m (p + size_field)) ≡ behind p size
next-behind m p size oct e room =
    ap (next_address p) (getsize-octal m (p + size_field) oct ∙ omega arith)
    ∙ next_address-blocks p size room

-- What the loop does from place `i` of the table.
abbrev Loaded : ℕ → List ℕ → List ℕ → List ℕ → Type 0
Loaded i xs old new = From new i xs × ((k : ℕ) → k < i → get_or new k 0 ≡ get_or old k 0)

parse_loop-Loaded :
    (fuel : ℕ) (m : Memory) (p i : ℕ) (sizes headers : List ℕ)
    → Archive m p sizes
    → i + length sizes < length headers
    → length headers ≡ 32
    → length sizes < fuel
    → (hs : List ℕ) × (parse_loop fuel m p i headers ≡ done (hs, i + length sizes))
      × Loaded i (addresses p sizes) headers hs
unfolding parse_loop
parse_loop-Loaded zero m p i sizes headers a fit n f = absurd (omega arith)
parse_loop-Loaded (suc fuel) m p i [] headers a fit n f = (
  set headers i p,
  rw (lt→ltb i (length headers) (omega arith), a)
      (ap (λ (t : ℕ). done (set headers i p, t)) (omega arith)),
  (
    (get_or-set_self headers i p 0 (omega arith), tt),
    λ k l. get_or-set_ne headers i k p 0 (λ e. omega arith),
  ),
)
parse_loop-Loaded (suc fuel) m p i (size ∷ sizes) headers (named, oct, e, room, more) fit n f =
    let (hs, runs, (loaded, same)) =
      parse_loop-Loaded fuel m (behind p size) (i + 1) sizes (set headers i p) more
        (omega (arith, length-set {0} headers i p)) (omega (arith, length-set {0} headers i p))
        (omega arith) in
    (
      hs,
      rw
          (
            lt→ltb i (length headers) (omega arith),
            ne→== (m p) 0 named,
            next-behind m p size oct e room,
            step,
          )
          (runs ∙ ap (λ (t : ℕ). done (hs, t)) (omega arith)),
      (
        (same i (omega arith) ∙ get_or-set_self headers i p 0 (omega arith), loaded),
        λ k l. same k (omega arith) ∙ get_or-set_ne headers i k p 0 (λ e. omega arith),
      ),
    )
  where
    step : u32 (i + 1) ≡ i + 1
    step = omega arith

-- `parse` of an archive of at most 31 files below the 32-bit limit counts the files, and the table
-- of 32 places begins with the addresses of their headers and that of the empty one; fuel for the
-- files and the empty header is enough.
pub parse-addresses :
    (fuel : ℕ) (m : Memory) (p : ℕ) (sizes headers : List ℕ)
    → Archive m p sizes
    → p < 2 ^ 32
    → length headers ≡ 32
    → length sizes < 32
    → length sizes < fuel
    → (hs : List ℕ) × (parse fuel m p headers ≡ done (hs, length sizes))
      × From hs 0 (addresses p sizes)
unfolding parse
parse-addresses fuel m p sizes headers a low n fit f =
    let (hs, runs, (loaded, same)) =
      parse_loop-Loaded fuel m p 0 sizes headers a (omega arith) n f in
    (hs, rw whole (runs ∙ ap (λ (t : ℕ). done (hs, t)) (omega arith)), loaded)
  where
    whole : u32 p ≡ p
    whole = omega arith

step : (i : ℕ) → i ≤ 32 → u32 (i + 1) ≡ i + 1
step i h = omega arith

parse_loop-fault :
    (fuel : ℕ) (m : Memory) (p i : ℕ) (sizes headers : List ℕ)
    → Archive m p sizes
    → i ≤ 32
    → 32 ≤ i + length sizes
    → length headers ≡ 32
    → 32 < i + fuel
    → parse_loop fuel m p i headers ≡ fault
unfolding parse_loop
parse_loop-fault zero m p i sizes headers a low more n f = absurd (omega arith)
parse_loop-fault (suc fuel) m p i [] headers a low more n f =
    rw (ge→ltb i (length headers) (omega arith)) refl
parse_loop-fault (suc fuel) m p i (size ∷ sizes) headers (named, oct, e, room, rest) low more n f =
    elim (Bool-cases (ltb i (length headers))) [
      | inr out ↦ rw out refl
      | inl inside ↦
          let i' = ltb→lt i (length headers) inside in
          rw (inside, ne→== (m p) 0 named, next-behind m p size oct e room, step i (omega arith))
            (parse_loop-fault fuel m (behind p size) (i + 1) sizes (set headers i p) rest
              (omega arith) (omega arith) (omega (arith, length-set {0} headers i p)) (omega arith))
    ]

-- `parse` writes behind its table of 32 places for every archive of 32 files or more.
pub parse-fault :
    (fuel : ℕ) (m : Memory) (p : ℕ) (sizes headers : List ℕ)
    → Archive m p sizes
    → p < 2 ^ 32
    → length headers ≡ 32
    → 32 ≤ length sizes
    → 32 < fuel
    → parse fuel m p headers ≡ fault
unfolding parse
parse-fault fuel m p sizes headers a low n more f =
    rw whole
      (parse_loop-fault fuel m p 0 sizes headers a (omega arith) (omega arith) n (omega arith))
  where
    whole : u32 p ≡ p
    whole = omega arith
