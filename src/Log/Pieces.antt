-- ===== src/Log/Pieces.antt =====
-- The texts of `log` in kernel/log.c as bytes and colour sequences.
use sesh_os.Base.{
  ℕ, zero, suc, ◌-◌, ◌≤◌, ◌≡◌, ◌≢◌, refl, sym, ap, ◌∙◌, Bool, true, false, List, [], ◌∷◌, ◌++◌, map,
  arith, length, get_elem?, replicate, if◌then◌else◌, ◌==◌, leb, ◌&&◌, Bool-cases, inl, inr, some,
}
use mathlib.Core.Option.{some-injective}
use mathlib.Core.List.{append_assoc, append-nil}
use sesh_os.Str.Number.{accumulate}
use sesh_os.Base.Text.{codes}
use sesh_os.Tty.{Attributes}
use sesh_os.Tty.Colors.{apply_code, color_lgray, color_black, color_red, color_yellow}
use sesh_os.Tty.FbCon.Sequence.{AllOpen}
use sesh_os.Tty.FbCon.Markup.{Piece, byte, sequence, render, restyle, AllProper}
use sesh_os.Log.{esc, ansi_colors, loglevel_fatal, end_of_line, finished}

-- A name filled up to 8 bytes.
abbrev pub padded : List ℕ → List ℕ
padded name = name ++ replicate (8 - length name) b' '

-- The format of `log` with its arguments put in: what stands before the message, and all of it.
abbrev pub before : (module_ color : List ℕ) → List ℕ
before module_ color =
    (esc ∷ codes "[1m")
    ++ (esc ∷ codes "[33m[")
    ++ (esc ∷ codes "[36m")
    ++ padded module_
    ++ (esc ∷ codes "[1m")
    ++ (esc ∷ codes "[33m]")
    ++ color

abbrev pub formatted : (module_ color msg : List ℕ) → List ℕ
formatted module_ color msg = before module_ color ++ b' ' ∷ msg

abbrev pub bytes : List ℕ → List Piece
bytes s = map byte s

-- The body of the sequence for a level, and the text behind it.
abbrev pub level_pieces : ℕ → List Piece
level_pieces level =
    if leb level 1
    then sequence (codes "0") ∷ []
    else if level == 2
    then sequence (codes "37") ∷ []
    else if level == 3
    then sequence (codes "33") ∷ []
    else if level == 4
    then sequence (codes "0;31") ∷ []
    else sequence (codes "31") ∷ bytes (codes " !!! ")

abbrev pub head_pieces : List ℕ → List Piece
head_pieces module_ =
    sequence (codes "1")
      ∷ sequence (codes "33")
      ∷ byte b'['
      ∷ sequence (codes "36")
      ∷ bytes (padded module_)
    ++ sequence (codes "1") ∷ sequence (codes "33") ∷ byte b']' ∷ []

abbrev pub message_pieces : ℕ → List ℕ → List Piece
message_pieces level msg =
    byte b' ' ∷ bytes msg ++ (if level == loglevel_fatal then bytes (codes " !!!") else [])

render-append : (ps qs : List Piece) → render (ps ++ qs) ≡ render ps ++ render qs
render-append [] qs = refl
render-append (byte c ∷ ps) qs = ap (λ (l : List ℕ). c ∷ l) (render-append ps qs)
render-append (sequence body ∷ ps) qs =
    ap (λ (l : List ℕ). (esc ∷ b'[' ∷ body ++ b'm' ∷ []) ++ l) (render-append ps qs)
    ∙ sym (append_assoc (esc ∷ b'[' ∷ body ++ b'm' ∷ []) (render ps) (render qs))

render-bytes : (s : List ℕ) → render (bytes s) ≡ s
render-bytes [] = refl
render-bytes (c ∷ s) = ap (λ (l : List ℕ). c ∷ l) (render-bytes s)

restyle-append :
    (ps qs : List Piece) (a : Attributes) → restyle (ps ++ qs) a ≡ restyle qs (restyle ps a)
restyle-append [] qs a = refl
restyle-append (byte c ∷ ps) qs a = restyle-append ps qs a
restyle-append (sequence body ∷ ps) qs a = restyle-append ps qs _

restyle-bytes : (s : List ℕ) (a : Attributes) → restyle (bytes s) a ≡ a
restyle-bytes [] a = refl
restyle-bytes (c ∷ s) a = restyle-bytes s a

pub AllProper-append : (ps qs : List Piece) → AllProper ps → AllProper qs → AllProper (ps ++ qs)
AllProper-append [] qs h k = k
AllProper-append (byte c ∷ ps) qs h k = (h.0, AllProper-append ps qs h.1 k)
AllProper-append (sequence body ∷ ps) qs h k = (h.0, h.1, AllProper-append ps qs h.2 k)

-- No byte is the escape byte.
abbrev pub NoEscape : List ℕ → Type 0
NoEscape [] = Unit {0}
NoEscape (c ∷ s) = (c ≢ 0x1b) × NoEscape s

AllProper-bytes : (s : List ℕ) → NoEscape s → AllProper (bytes s)
AllProper-bytes [] h = tt
AllProper-bytes (c ∷ s) h = (h.0, AllProper-bytes s h.1)

NoEscape-append : (s t : List ℕ) → NoEscape s → NoEscape t → NoEscape (s ++ t)
NoEscape-append [] t h k = k
NoEscape-append (c ∷ s) t h k = (h.0, NoEscape-append s t h.1 k)

NoEscape-blanks : (n : ℕ) → NoEscape (replicate n b' ')
NoEscape-blanks zero = tt
NoEscape-blanks (suc n) = ((λ e. omega arith), NoEscape-blanks n)

ruleset rendering = (render-append, render-bytes, append_assoc, append-nil)

-- A level has a colour, which is its pieces.
pub level_color :
    (level : ℕ) → level ≤ 5 → get_elem? ansi_colors level ≡ some (render (level_pieces level))
level_color zero h = refl
level_color (suc zero) h = refl
level_color (suc (suc zero)) h = refl
level_color (suc (suc (suc zero))) h = refl
level_color (suc (suc (suc (suc zero)))) h = refl
level_color (suc (suc (suc (suc (suc zero))))) h = refl
level_color (suc (suc (suc (suc (suc (suc n)))))) h = absurd (omega arith)

abbrev pub before_message : (module_ : List ℕ) → (level : ℕ) → List Piece
before_message module_ level = head_pieces module_ ++ level_pieces level

abbrev pub all_pieces : (module_ msg : List ℕ) → (level : ℕ) → List Piece
all_pieces module_ msg level =
    before_message module_ level ++ message_pieces level msg ++ sequence (codes "0") ∷ []

pub color_render :
    (color : List ℕ) (level : ℕ)
    → level ≤ 5
    → get_elem? ansi_colors level ≡ some color
    → render (level_pieces level) ≡ color
color_render color level small e = some-injective _ _ (sym (level_color level small) ∙ e)

pub before-render :
    (module_ : List ℕ) (level : ℕ)
    → before module_ (render (level_pieces level)) ≡ render (before_message module_ level)
before-render module_ level = simp rendering

pub finished-render :
    (module_ msg : List ℕ) (level : ℕ)
    → finished level (formatted module_ (render (level_pieces level)) msg)
      ≡ render (all_pieces module_ msg level) ++ end_of_line
finished-render module_ msg level = elim (Bool-cases (level == loglevel_fatal)) [
  | inl fatal ↦ rw fatal (simp rendering)
  | inr other ↦ rw other (simp rendering)
]

-- The attributes of a message of a level, on the background that was there.
abbrev pub style : (level bg_color : ℕ) → Attributes
style level bg_color =
    if leb level 1
    then record { color = color_lgray; bg_color = color_black; bold = false }
    else record {
      color = (if level == 2 then color_lgray else if level == 5 then color_red else color_yellow);
      bg_color = bg_color;
      bold = true;
    }

-- Every byte is between a blank and ">", as it is in the bodies and the texts of the log.
abbrev pub is_low : List ℕ → Bool
is_low [] = true
is_low (c ∷ s) = leb b' ' c && leb c b'>' && is_low s

is_low-head :
    (c : ℕ) (s : List ℕ) → is_low (c ∷ s) ≡ true → (b' ' ≤ c) × (c ≤ b'>') × (is_low s ≡ true)
is_low-head c s h = (ground arith, ground arith, ground arith)

AllOpen-is_low : (s : List ℕ) → is_low s ≡ true → AllOpen s
AllOpen-is_low [] h = tt
AllOpen-is_low (c ∷ s) h =
    let (low, high, rest) = is_low-head c s h in
    ((λ e. omega arith), (λ e. omega arith), (λ e. omega arith), AllOpen-is_low s rest)

NoEscape-is_low : (s : List ℕ) → is_low s ≡ true → NoEscape s
NoEscape-is_low [] h = tt
NoEscape-is_low (c ∷ s) h =
    let (low, high, rest) = is_low-head c s h in ((λ e. omega arith), NoEscape-is_low s rest)

pub AllProper-head : (module_ : List ℕ) → NoEscape module_ → AllProper (head_pieces module_)
AllProper-head module_ h = (
  AllOpen-is_low (codes "1") refl,
  omega arith,
  (
    AllOpen-is_low (codes "33") refl,
    omega arith,
    (
      (λ e. omega arith),
      (
        AllOpen-is_low (codes "36") refl,
        omega arith,
        AllProper-append (bytes (padded module_))
            (sequence (codes "1") ∷ sequence (codes "33") ∷ byte b']' ∷ [])
            (AllProper-bytes (padded module_)
              (NoEscape-append module_ _ h (NoEscape-blanks (8 - length module_))))
            (
              AllOpen-is_low (codes "1") refl,
              omega arith,
              (AllOpen-is_low (codes "33") refl, omega arith, ((λ e. omega arith), tt)),
            ),
      ),
    ),
  ),
)

pub AllProper-level : (level : ℕ) → level ≤ 5 → AllProper (level_pieces level)
AllProper-level zero h = (AllOpen-is_low (codes "0") refl, omega arith, tt)
AllProper-level (suc zero) h = (AllOpen-is_low (codes "0") refl, omega arith, tt)
AllProper-level (suc (suc zero)) h = (AllOpen-is_low (codes "37") refl, omega arith, tt)
AllProper-level (suc (suc (suc zero))) h = (AllOpen-is_low (codes "33") refl, omega arith, tt)
AllProper-level (suc (suc (suc (suc zero)))) h =
    (AllOpen-is_low (codes "0;31") refl, omega arith, tt)
AllProper-level (suc (suc (suc (suc (suc zero))))) h = (
  AllOpen-is_low (codes "31") refl,
  omega arith,
  AllProper-bytes (codes " !!! ") (NoEscape-is_low (codes " !!! ") refl),
)
AllProper-level (suc (suc (suc (suc (suc (suc n)))))) h = absurd (omega arith)

AllProper-message : (level : ℕ) (msg : List ℕ) → NoEscape msg → AllProper (message_pieces level msg)
AllProper-message level msg h = (
  (λ e. omega arith),
  AllProper-append (bytes msg) _ (AllProper-bytes msg h)
      (elim (Bool-cases (level == loglevel_fatal)) [
        | inl fatal ↦
            rw fatal (AllProper-bytes (codes " !!!") (NoEscape-is_low (codes " !!!") refl))
        | inr other ↦ rw other tt
      ]),
)

pub AllProper-all :
    (module_ msg : List ℕ) (level : ℕ)
    → level ≤ 5
    → NoEscape module_
    → NoEscape msg
    → AllProper (all_pieces module_ msg level)
AllProper-all module_ msg level small h k =
    AllProper-append (before_message module_ level ++ message_pieces level msg)
      (sequence (codes "0") ∷ [])
      (AllProper-append (before_message module_ level) (message_pieces level msg)
        (AllProper-append (head_pieces module_) (level_pieces level) (AllProper-head module_ h)
          (AllProper-level level small))
        (AllProper-message level msg k))
      (AllOpen-is_low (codes "0") refl, omega arith, tt)

pub restyle-level :
    (module_ : List ℕ) (level : ℕ) (a : Attributes)
    → level ≤ 5
    → restyle (before_message module_ level) a ≡ style level a.bg_color
unfolding apply_code accumulate
restyle-level module_ zero a h = simp restyle-append
restyle-level module_ (suc zero) a h = simp restyle-append
restyle-level module_ (suc (suc zero)) a h = simp (restyle-append, restyle-bytes)
restyle-level module_ (suc (suc (suc zero))) a h = simp (restyle-append, restyle-bytes)
restyle-level module_ (suc (suc (suc (suc zero)))) a h = simp (restyle-append, restyle-bytes)
restyle-level module_ (suc (suc (suc (suc (suc zero))))) a h = simp (restyle-append, restyle-bytes)
restyle-level module_ (suc (suc (suc (suc (suc (suc n)))))) a h = absurd (omega arith)

pub restyle-all :
    (module_ msg : List ℕ) (level : ℕ) (a : Attributes)
    → restyle (all_pieces module_ msg level) a ≡ style 0 0
unfolding apply_code accumulate
restyle-all module_ msg level a = simp restyle-append
