-- ===== src/Tests/Logs.antt =====
-- Runs of the log.
use sesh_os.Base.{ℕ, ◌≡◌, refl, List, [], ◌∷◌, arith}
use mathlib.Core.List.{reverse_aux}
use sesh_os.Base.Run.{done}
use sesh_os.Base.Text.{codes}
use sesh_os.Tty.{Tty}
use sesh_os.Tty.FbCon.{put_all}
use sesh_os.Tty.FbCon.Markup.{
  Ready, Piece, byte, sequence, AllProper, render, restyle, put_all-render,
}
use sesh_os.Log.{log}
use sesh_os.Log.Pieces.{formatted, style, NoEscape}
use sesh_os.Log.Style.{sent_text, log-Ready}
use sesh_os.Tests.Console.{console, console-OnScreen, font}

pub console-Ready : Ready font (console 3 1)
console-Ready = (console-OnScreen 3 1 (omega arith), (refl, refl, refl))

abbrev kernel : List ℕ
kernel = codes "OS"

kernel-NoEscape : NoEscape kernel
kernel-NoEscape = ((λ e. omega arith), ((λ e. omega arith), tt))

log-Ready_example :
    (t' : Tty) × (log font formatted (console 3 1) kernel kernel 5 ≡ done t')
    × Ready font t'
    × (t'.cursor_x ≡ 0)
    × (t'.attr ≡ style 0 0)
    × (t'.port_e9 ≡ reverse_aux (sent_text kernel kernel 5) [])
log-Ready_example =
    log-Ready font formatted (console 3 1) kernel kernel 5 console-Ready (omega arith)
      kernel-NoEscape kernel-NoEscape (λ c. refl) (omega arith)

-- A bold red "A".
abbrev pieces : List Piece
pieces = sequence (codes "1") ∷ sequence (codes "31") ∷ byte b'A' ∷ []

pieces-AllProper : AllProper pieces
pieces-AllProper = (
  ((λ e. omega arith), (λ e. omega arith), (λ e. omega arith), tt),
  omega arith,
  (
    (
      (λ e. omega arith),
      (λ e. omega arith),
      (λ e. omega arith),
      ((λ e. omega arith), (λ e. omega arith), (λ e. omega arith), tt),
    ),
    omega arith,
    ((λ e. omega arith), tt),
  ),
)

put_all-render_example :
    (t' : Tty) × (put_all font (console 3 1) (render pieces) ≡ done t')
    × Ready font t'
    × (t'.attr ≡ restyle pieces (console 3 1).attr)
    × (t'.port_e9 ≡ [])
put_all-render_example = put_all-render font pieces (console 3 1) pieces-AllProper console-Ready
