-- ===== src/Log/Fitting.antt =====
-- Short messages fit the array of `log`.
use sesh_os.Base.{
  ℕ, zero, suc, ◌+◌, ◌-◌, ◌<◌, ◌≤◌, ◌≡◌, refl, Bool, true, ◌&&◌, not, ◌==◌, ==→ne, List, [], ◌∷◌,
  ◌++◌, length, length-append, arith, Bool-cases, inl, inr, replicate,
}
use mathlib.Core.List.{reverse_aux}
use mathlib.Core.Path.{subst}
use sesh_os.Base.Run.{done}
use sesh_os.Base.Text.{codes}
use sesh_os.Tty.{Tty}
use sesh_os.Tty.FbCon.Markup.{Ready, render}
use sesh_os.Log.{esc, log, loglevel_fatal, finished, end_of_line}
use sesh_os.Log.Pieces.{padded, before, formatted, NoEscape, level_pieces, finished-render}
use sesh_os.Log.Style.{sent_text, log-Ready}

-- A test of `NoEscape` that closed texts pass by evaluation.
abbrev pub is_clean : List ℕ → Bool
is_clean [] = true
is_clean (c ∷ s) = not (c == 0x1b) && is_clean s

pub NoEscape-is_clean : (s : List ℕ) → is_clean s ≡ true → NoEscape s
NoEscape-is_clean [] h = tt
NoEscape-is_clean (c ∷ s) h = (==→ne c 0x1b (ground arith), NoEscape-is_clean s (ground arith))

length-blanks : (n : ℕ) → length {A = ℕ} (replicate n b' ') ≡ n
length-blanks zero = refl
length-blanks (suc n) = omega (arith, length-blanks n)

length-padded : (name : List ℕ) → length name ≤ 8 → length (padded name) ≡ 8
length-padded name h = omega (
  arith,
  length-append {0} name (replicate (8 - length name) b' '),
  length-blanks (8 - length name),
)

length-before :
    (module_ color : List ℕ)
    → length module_ ≤ 8
    → length (before module_ color) ≡ length color + 33
length-before module_ color h =
    let opened = (esc ∷ codes "[1m") ++ (esc ∷ codes "[33m[") ++ (esc ∷ codes "[36m") in
    let named = opened ++ padded module_ in
    let bold = named ++ (esc ∷ codes "[1m") in
    omega (
      arith,
      length-padded module_ h,
      length-append {0} opened (padded module_),
      length-append {0} named (esc ∷ codes "[1m"),
      length-append {0} bold (esc ∷ codes "[33m]"),
      length-append {0} (bold ++ (esc ∷ codes "[33m]")) color,
    )

length-ended : (s : List ℕ) → length (s ++ (esc ∷ codes "[0m") ++ end_of_line) ≡ length s + 6
length-ended s = omega (
  arith,
  length-append {0} (s ++ (esc ∷ codes "[0m")) end_of_line,
  length-append {0} s (esc ∷ codes "[0m"),
)

length-finished : (lv : ℕ) (s : List ℕ) → length (finished lv s) ≤ length s + 10
length-finished lv s = elim (Bool-cases (lv == loglevel_fatal)) [
  | inl fatal ↦
      rw fatal (omega (arith, length-ended (s ++ codes " !!!"), length-append {0} s (codes " !!!")))
  | inr other ↦ rw other (omega (arith, length-ended s))
]

length-level : (lv : ℕ) → lv ≤ 5 → length (render (level_pieces lv)) ≤ 12
length-level zero h = omega arith
length-level (suc zero) h = omega arith
length-level (suc (suc zero)) h = omega arith
length-level (suc (suc (suc zero))) h = omega arith
length-level (suc (suc (suc (suc zero)))) h = omega arith
length-level (suc (suc (suc (suc (suc zero))))) h = omega arith
length-level (suc (suc (suc (suc (suc (suc n)))))) h = absurd (omega arith)

-- A message of fewer than 128 bytes leaves room in the array of `log`.
pub length-formatted :
    (module_ color msg : List ℕ) (lv : ℕ)
    → length module_ ≤ 8
    → length color ≤ 12
    → length msg < 128
    → length (finished lv (formatted module_ color msg)) < 256
length-formatted module_ color msg lv name colored short = omega (
  arith,
  length-finished lv (formatted module_ color msg),
  length-append {0} (before module_ color) (b' ' ∷ msg),
  length-before module_ color name,
)

length-sent_text :
    (module_ msg : List ℕ) (lv : ℕ)
    → lv ≤ 5
    → length module_ ≤ 8
    → length msg < 128
    → length (sent_text module_ msg lv) < 256
length-sent_text module_ msg lv small name short =
    subst (λ (s : List ℕ). length s < 256) (finished-render module_ msg lv)
      (length-formatted module_ (render (level_pieces lv)) msg lv name (length-level lv small)
        short)

module _ (font : ℕ → ℕ → ℕ) where
  pub log-short :
      (t : Tty) (module_ msg : List ℕ) (lv : ℕ)
      → Ready font t
      → lv ≤ 5
      → length module_ ≤ 8
      → length msg < 128
      → NoEscape module_
      → NoEscape msg
      → (u : Tty) × (log font formatted t module_ msg lv ≡ done u)
        × Ready font u
        × (u.port_e9 ≡ reverse_aux (sent_text module_ msg lv) t.port_e9)
  log-short t module_ msg lv ready small name short clean clean_msg =
      let (u, runs, ready_u, _, _, port) =
        log-Ready font formatted t module_ msg lv ready small clean clean_msg (λ color. refl)
          (length-sent_text module_ msg lv small name short) in
      (u, runs, ready_u, port)
