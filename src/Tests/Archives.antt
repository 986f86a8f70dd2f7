-- ===== src/Tests/Archives.antt =====
-- Runs of kernel/fs/ramfs.c.
use sesh_os.Base.{
  ℕ, ◌+◌, ◌*◌, ◌%◌, ◌<◌, ◌≡◌, refl, sym, ◌∙◌, ◌++◌, length, ne→==, ap, zero, suc, ◌==◌, List, [],
  ◌∷◌, get_or, replicate, arith, if◌then◌else◌, leb, ltb, ◌&&◌,
}
use mathlib.Core.Path.{subst}
use sesh_os.Base.Run.{done}
use sesh_os.Base.Memory.{Memory, CStr}
use sesh_os.Ramfs.{parse, read_file}
use sesh_os.Ramfs.Size.{AllOctal, octal}
use sesh_os.Ramfs.Headers.{Archive, behind, addresses, From, parse-addresses}
use sesh_os.Base.Text.{codes}
use sesh_os.Ramfs.Listing.{array, ls}
use sesh_os.Ramfs.Listing.Names.{Named, Files, Listing, ls-Listing}
use sesh_os.Tests.{text}
use sesh_os.Ramfs.Lookup.{read_file-first_other}

-- An archive at 2048 of one file "a" of 8 bytes, and the name "b" at 1024.
abbrev archive : Memory
archive a =
    if a == 1024
    then b'b'
    else if a == 2048
    then b'a'
    else if a == 2181
    then b'1'
    else if leb 2172 a && ltb a 2183
    then b'0'
    else 0

archive-AllOctal : AllOctal archive (2048 + 124) 11
archive-AllOctal k h = ground arith

abbrev table : List ℕ
table = replicate 32 0

archive-Archive : Archive archive 2048 (8 ∷ [])
archive-Archive = ((λ e. omega arith), archive-AllOctal, refl, omega arith, refl)

parse-addresses_example :
    (hs : List ℕ) × (parse 2 archive 2048 table ≡ done (hs, 1))
    × From hs 0 (addresses 2048 (8 ∷ []))
parse-addresses_example =
    parse-addresses 2 archive 2048 (8 ∷ []) table archive-Archive (omega arith) refl (omega arith)
      (omega arith)

read_file-first_other_example : read_file 1 2 archive 1024 (2048 ∷ 3072 ∷ []) ≡ done (2048 + 512)
read_file-first_other_example =
    read_file-first_other archive (2048 ∷ 3072 ∷ []) 1024 (b'b' ∷ [])
      (refl, (λ e. omega arith), refl) 1 2 0 (b'a' ∷ []) (λ k h. absurd (omega arith))
      (refl, (λ e. omega arith), refl) (λ e. omega (arith, ap (λ (l : List ℕ). get_or l 0 0) e))
      (omega arith) (omega arith) (omega arith)

-- 32 empty files from 512 on.
abbrev many : Memory
many a =
    if a % 512 == 0
    then (if ltb a 16896 then b'a' else 0)
    else if leb 124 (a % 512) && ltb (a % 512) 135
    then b'0'
    else 0

octal-zeros : (m : Memory) (p n : ℕ) → ((k : ℕ) → k < n → m (p + k) ≡ b'0') → octal m p n ≡ 0
octal-zeros m p zero h = refl
octal-zeros m p (suc n) h =
    omega (arith, octal-zeros m p n (λ k l. h k (omega arith)), h n (omega arith))

many-digit : (q k : ℕ) → k < 11 → many (q * 512 + 124 + k) ≡ b'0'
many-digit q k h = ground arith

many-end : (q : ℕ) → q ≡ 33 → many (q * 512) ≡ 0
many-end q e = ground arith

next : (q : ℕ) → (q + 1) * 512 ≡ behind (q * 512) 0
next q = omega arith

many-Archive : (n q : ℕ) → q + n ≡ 33 → 0 < q → Archive many (q * 512) (replicate n 0)
many-Archive zero q e pos = many-end q (omega arith)
many-Archive (suc n) q e pos = (
  ground arith,
  (λ k h. (omega (arith, many-digit q k h), omega (arith, many-digit q k h))),
  octal-zeros many (q * 512 + 124) 11 (many-digit q),
  omega arith,
  subst (λ (a : ℕ). Archive many a (replicate n 0)) (next q)
      (many-Archive n (q + 1) (omega arith) (omega arith)),
)

-- The paths "x/b" and "y/b" behind each other.
abbrev paths : Memory
paths = text 100 (codes "x/b" ++ 0 ∷ codes "y/b")

paths-Files : Files paths (0 ∷ 100 ∷ 104 ∷ 107 ∷ []) 1 (codes "x/b" ∷ codes "y/b" ∷ [])
paths-Files = (
  omega arith,
  (refl, (λ e. omega arith), (refl, (λ e. omega arith), (refl, (λ e. omega arith), refl))),
  (λ e. omega (arith, ap (λ (l : List ℕ). length l) e)),
  omega arith,
  (
    omega arith,
    (refl, (λ e. omega arith), (refl, (λ e. omega arith), (refl, (λ e. omega arith), refl))),
    (λ e. omega (arith, ap (λ (l : List ℕ). length l) e)),
    omega arith,
    (omega arith, refl),
  ),
)

-- The bytes of an array before its first zero, and a new line.
abbrev print_array : List ℕ → List ℕ
print_array [] = b'\n' ∷ []
print_array (c ∷ xs) = if c == 0 then b'\n' ∷ [] else c ∷ print_array xs

behind_first : (xs : List ℕ) (c p : ℕ) → get_or xs p 0 ≡ get_or (c ∷ xs) (p + 1) 0
behind_first xs c p = ap (λ (k : ℕ). get_or (c ∷ xs) k 0) next_index
  where
    next_index : suc p ≡ p + 1
    next_index = omega arith

dropped : (xs s : List ℕ) (c p : ℕ) → CStr (array (c ∷ xs)) (p + 1) s → CStr (array xs) p s
dropped xs [] c p h = behind_first xs c p ∙ h
dropped xs (d ∷ s) c p h = (behind_first xs c p ∙ h.0, h.1, dropped xs s c (p + 1) h.2)

print_array-Named : (xs s : List ℕ) → Named xs s → print_array xs ≡ s ++ b'\n' ∷ []
print_array-Named [] [] h = refl
print_array-Named [] (d ∷ s) h = absurd (h.1 (sym h.0))
print_array-Named (c ∷ xs) [] h = rw h refl
print_array-Named (c ∷ xs) (d ∷ s) h =
    rw (h.0, ne→== d 0 h.1)
      (ap (λ (l : List ℕ). d ∷ l) (print_array-Named xs s (dropped xs s c 0 h.2)))

ls-Listing_example :
    (out : List ℕ) × (ls print_array 3 100 (replicate 128 7) paths (0 ∷ 100 ∷ 104 ∷ 107 ∷ [])
      ≡ done out)
    × Listing 1 [] (codes "x/b" ∷ codes "y/b" ∷ []) out
ls-Listing_example =
    ls-Listing print_array print_array-Named 3 100 (replicate 128 7) paths
      (0 ∷ 100 ∷ 104 ∷ 107 ∷ []) (codes "x/b" ∷ codes "y/b" ∷ []) refl (omega arith) (omega arith)
      paths-Files
