-- ===== src/Ramfs/Lookup.antt =====
-- Which file `readFile` answers with.
use sesh_os.Base.{
  ℕ, zero, suc, ◌+◌, ◌≤◌, ◌<◌, ◌≡◌, ◌≢◌, refl, ◌∙◌, arith, if◌then◌else◌, List, get_or, length,
  lt→ltb, Bool-cases, inl, inr,
}
use sesh_os.Base.Int.{is_zero, is_zero→eq, eq→is_zero}
use sesh_os.Base.Run.{Run, done, ◌>>=◌}
use sesh_os.Base.Memory.{Memory, CStr}
use sesh_os.Str.{strcmp}
use sesh_os.Str.Compare.{strcmp-zero_iff}
use sesh_os.Ramfs.{find_loop, read_file}

-- One comparison of names by `strcmp`, and what is done with the answer.
compared-same :
    (fuel : ℕ) (m : Memory) (p q : ℕ) (s : List ℕ) (same other : Run ℕ)
    → CStr m p s
    → CStr m q s
    → length s < fuel
    → (strcmp fuel m p q >>= λ r. if is_zero r then same else other) ≡ same
compared-same fuel m p q s same other h k f =
    let (r, runs, iff) = strcmp-zero_iff fuel m p q s s h k f in
    rw (runs, eq→is_zero r (iff.1 refl)) refl

compared-other :
    (fuel : ℕ) (m : Memory) (p q : ℕ) (s t : List ℕ) (same other : Run ℕ)
    → CStr m p s
    → CStr m q t
    → s ≢ t
    → length s < fuel
    → (strcmp fuel m p q >>= λ r. if is_zero r then same else other) ≡ other
compared-other fuel m p q s t same other h k ne f =
    let (r, runs, iff) = strcmp-zero_iff fuel m p q s t h k f in
    rw runs (elim (Bool-cases (is_zero r)) [
      | inl zeroed ↦ absurd (ne (iff.0 (is_zero→eq r zeroed)))
      | inr other_sign ↦ rw other_sign refl
    ])

module _ (m : Memory) (headers : List ℕ) (name : ℕ) (s : List ℕ) (wanted : CStr m name s) where
  find_loop-first_other :
      (rounds fuel i left : ℕ) (t : List ℕ)
      → ((k : ℕ) → i ≤ k → k < i + left → CStr m (get_or headers k 0) s)
      → CStr m (get_or headers (i + left) 0) t
      → s ≢ t
      → i + left < length headers
      → left < rounds
      → length s < fuel
      → find_loop rounds fuel m name i headers ≡ done (get_or headers (i + left) 0)
  unfolding find_loop
  find_loop-first_other zero fuel i left t same other ne fit r f = absurd (omega arith)
  find_loop-first_other (suc rounds) fuel i zero t same other ne fit r f =
      rw (lt→ltb i (length headers) (omega arith), plus)
        (compared-other fuel m name (get_or headers i 0) s t _ _ wanted (rw plus at other) ne f)
    where
      plus : i + 0 ≡ i
      plus = omega arith
  find_loop-first_other (suc rounds) fuel i (suc left) t same other ne fit r f =
      rw (lt→ltb i (length headers) (omega arith)) (
        compared-same fuel m name (get_or headers i 0) s _ _ wanted
          (same i (omega arith) (omega arith)) f
        ∙ rw plus (
            find_loop-first_other rounds fuel (i + 1) left t
              (λ k l u. same k (omega arith) (omega arith)) (rw plus at other) ne (omega arith)
              (omega arith) f))
    where
      plus : i + suc left ≡ i + 1 + left
      plus = omega arith

  -- `readFile` answers with the contents of the first file whose name is not the one asked for: the
  -- files before it, which have that name, are passed over.
  pub read_file-first_other :
      (rounds fuel i : ℕ) (t : List ℕ)
      → ((k : ℕ) → k < i → CStr m (get_or headers k 0) s)
      → CStr m (get_or headers i 0) t
      → s ≢ t
      → i < length headers
      → i < rounds
      → length s < fuel
      → read_file rounds fuel m name headers ≡ done (get_or headers i 0 + 512)
  unfolding read_file
  read_file-first_other rounds fuel i t same other ne fit r f =
      rw
        (
          find_loop-first_other rounds fuel 0 i t (λ k l u. same k (omega arith)) (rw plus other) ne
              (omega arith) r f,
          plus,
        )
        refl
    where
      plus : 0 + i ≡ i
      plus = omega arith
