-- ===== src/Video/Cursor.antt =====
-- The texts of kernel/video/video.c for the cursor and the one that `Clear`
-- prints, sent to the terminal. `decimal`
-- is what the library prints for `%i`; positions are those that are not negative.
pub mod Ignored
use sesh_os.Base.{ℕ, List, ◌∷◌, ◌++◌}
use sesh_os.Base.Run.{Run, ◌>>=◌}
use sesh_os.Base.Text.{codes}
use sesh_os.Tty.{Tty}
use sesh_os.Tty.FbCon.{put_all}

module _ (font : ℕ → ℕ → ℕ) where
  unfoldable pub set_cursor_pos : (decimal : ℕ → List ℕ) → Tty → (x y : ℕ) → Run Tty
  set_cursor_pos decimal t x y =
      put_all font t (0x1b ∷ codes "[" ++ decimal x ++ codes ";" ++ decimal y ++ codes "H") >>= λ u.
      put_all font u (0x1b ∷ codes "[1;1H")

  unfoldable pub get_cursor_pos : Tty → Run Tty
  get_cursor_pos t = put_all font t (0x1b ∷ codes "[6n")

  -- What `Clear` prints before its loops
  unfoldable pub clear_text : Tty → Run Tty
  clear_text t = put_all font t (0x1b ∷ codes "[2J " ++ 0x1b ∷ codes "[H")
