-- ===== src/Keyboard/Chars.antt =====
-- The characters of keys, and lists that are changed at their end.
use sesh_os.Base.{
  ℕ, zero, suc, ◌+◌, ◌-◌, ◌<◌, ◌≤◌, ◌≡◌, ◌≢◌, refl, sym, inl, inr, Bool, true, false, ◌||◌, List,
  [], ◌∷◌, ◌++◌, ◌==◌, ltb, if◌then◌else◌, length, get_elem?, get_or, replicate, some, Bool-cases,
  arith, ==→eq,
}
use sesh_os.Base.Run.{done}
use sesh_os.Keyboard.{
  Keyboard, us_qwerty_ascii_ps2_mapping, shifted, get_us_qwerty_char_from_scan_code, shift_keys,
}

abbrev pub drop_last : List ℕ → List ℕ
drop_last [] = []
drop_last (c ∷ []) = []
drop_last (c ∷ d ∷ s) = c ∷ drop_last (d ∷ s)

-- The character of a key, 0 for none.
abbrev pub key_char : Keyboard → ℕ → ℕ
key_char k scancode =
    let c = get_or us_qwerty_ascii_ps2_mapping scancode 0 in
    if k.left_shift || k.right_shift then shifted c else c

get_elem?-get_or : (xs : List ℕ) (i d : ℕ) → i < length xs → get_elem? xs i ≡ some (get_or xs i d)
get_elem?-get_or [] i d h = absurd (omega arith)
get_elem?-get_or (x ∷ xs) zero d h = refl
get_elem?-get_or (x ∷ xs) (suc i) d h = get_elem?-get_or xs i d (omega arith)

pub get_or-outside : (xs : List ℕ) (i d : ℕ) → length xs ≤ i → get_or xs i d ≡ d
get_or-outside [] i d h = refl
get_or-outside (x ∷ xs) zero d h = absurd (omega arith)
get_or-outside (x ∷ xs) (suc i) d h = get_or-outside xs i d (omega arith)

pub get_or-snoc_left :
    (xs : List ℕ) (c i d : ℕ) → i < length xs → get_or (xs ++ c ∷ []) i d ≡ get_or xs i d
get_or-snoc_left [] c i d h = absurd (omega arith)
get_or-snoc_left (x ∷ xs) c zero d h = refl
get_or-snoc_left (x ∷ xs) c (suc i) d h = get_or-snoc_left xs c i d (omega arith)

pub get_or-snoc_end : (xs : List ℕ) (c d : ℕ) → get_or (xs ++ c ∷ []) (length xs) d ≡ c
get_or-snoc_end [] c d = refl
get_or-snoc_end (x ∷ xs) c d = get_or-snoc_end xs c d

pub length-drop_last : (s : List ℕ) → length (drop_last s) ≡ length s - 1
length-drop_last [] = refl
length-drop_last (c ∷ []) = refl
length-drop_last (c ∷ d ∷ s) = omega (arith, length-drop_last (d ∷ s))

pub get_or-drop_last :
    (s : List ℕ) (j : ℕ) → j + 1 < length s → get_or (drop_last s) j 0 ≡ get_or s j 0
get_or-drop_last [] j h = absurd (omega arith)
get_or-drop_last (c ∷ []) j h = absurd (omega arith)
get_or-drop_last (c ∷ d ∷ s) zero h = refl
get_or-drop_last (c ∷ d ∷ s) (suc j) h = get_or-drop_last (d ∷ s) j (omega arith)

pub get_or-replicate : (n j : ℕ) → get_or {A = ℕ} (replicate n 0) j 0 ≡ 0
get_or-replicate zero j = refl
get_or-replicate (suc n) zero = refl
get_or-replicate (suc n) (suc j) = get_or-replicate n j

pub looked_up :
    (k : Keyboard) (scancode : ℕ)
    → scancode ≢ 58
    → get_us_qwerty_char_from_scan_code k scancode ≡ done (key_char k scancode)
unfolding get_us_qwerty_char_from_scan_code
looked_up k scancode ne = elim (Bool-cases (ltb 58 scancode)) [
  | inl high ↦
      rw (high, get_or-outside us_qwerty_ascii_ps2_mapping scancode 0 (ground arith))
        (elim (Bool-cases (k.left_shift || k.right_shift)) [
          | inl down ↦ rw down refl
          | inr up ↦ rw up refl
        ])
  | inr low ↦ rw (low, get_elem?-get_or us_qwerty_ascii_ps2_mapping scancode 0 (ground arith)) refl
]

-- The character 0 of a key that is no character, in both states of the shift keys.
silent :
    (k : Keyboard) (scancode n : ℕ)
    → scancode ≡ n
    → get_or us_qwerty_ascii_ps2_mapping n 0 ≡ 0
    → key_char k scancode ≡ 0
silent k scancode n e z = elim (Bool-cases (k.left_shift || k.right_shift)) [
  | inl down ↦ rw (e, z, down) refl
  | inr up ↦ rw (e, z, up) refl
]

-- What the tests of the shift keys leave as it is.
pub record Kept (k : Keyboard) (c : ℕ) (r : Keyboard × ℕ) : Type 0 where
  pub char : r.1 ≡ c
  pub input : r.0.input ≡ k.input
  pub place : r.0.i ≡ k.i
  pub count : r.0.eoi ≡ k.eoi

pub shift_keys-Kept :
    (k : Keyboard) (scancode : ℕ)
    → Kept k (key_char k scancode) (shift_keys k scancode (key_char k scancode))
unfolding shift_keys
shift_keys-Kept k scancode = elim (Bool-cases (scancode == 0x2A)) [
  | inl a ↦ rw a (quiet 0x2A true k.right_shift a refl)
  | inr na ↦ rw na (elim (Bool-cases (scancode == 0x36)) [
    | inl b ↦ rw b (quiet 0x36 k.left_shift true b refl)
    | inr nb ↦ rw nb (elim (Bool-cases (scancode == 0xAA)) [
      | inl c ↦ rw c (quiet 0xAA false k.right_shift c refl)
      | inr nc ↦ rw nc (elim (Bool-cases (scancode == 0xB6)) [
        | inl d ↦ rw d (quiet 0xB6 k.left_shift false d refl)
        | inr nd ↦ rw nd (record { char = refl; input = refl; place = refl; count = refl })
      ])
    ])
  ])
]
  where
    quiet :
        (n : ℕ) (l r : Bool)
        → (scancode == n) ≡ true
        → get_or us_qwerty_ascii_ps2_mapping n 0 ≡ 0
        → Kept k (key_char k scancode) (record k { left_shift = l; right_shift = r }, 0)
    quiet n l r e z = record {
      char = sym (silent k scancode n (==→eq scancode n e) z);
      input = refl;
      place = refl;
      count = refl;
    }
