-- ===== src/Tests/Screens.antt =====
-- Runs of the drawing functions and of the boot loader's check.
use sesh_os.Base.{ℕ, ◌+◌, ◌<◌, ◌≤◌, ◌≡◌, ◌≢◌, refl, inl, List, [], ◌∷◌, length, arith}
use sesh_os.Base.Run.{done}
use sesh_os.Base.Memory.{Memory, CStr, SameOff}
use sesh_os.Str.Copy.{Stored}
use sesh_os.Boot.{copy_field}
use sesh_os.Boot.Name.{copy_field-array}
use sesh_os.Video.{Surface, draw_rect}
use sesh_os.Video.Indirect.{IsBlack, draw_rect-IsBlack}
use sesh_os.Tests.{text}

abbrev limine : List ℕ
limine = b'L' ∷ b'i' ∷ b'm' ∷ []

abbrev response : Memory
response = text 256 limine

limine-CStr : CStr response 256 limine
limine-CStr =
    (refl, (λ e. omega arith), (refl, (λ e. omega arith), (refl, (λ e. omega arith), refl)))

copy_field-array_example :
    (g : Memory) × (copy_field 4 response 64 256 ≡ done g)
    × (length limine ≤ 64 → Stored response 64 limine g × (g (64 + length limine) ≡ 0))
    × (64 < length limine
        → SameOff 64 (64 + 64) response g
          × ((k : ℕ) → k < 64 → (g (64 + k) ≡ response (256 + k)) × (g (64 + k) ≢ 0)))
copy_field-array_example =
    copy_field-array 4 response 64 256 limine limine-CStr (omega arith) (omega arith)
      (λ e. omega arith) (inl (omega arith))

abbrev surface : Surface
surface = record { ptr = 4096; width = 16; height = 16 }

black : IsBlack surface (λ a. 0)
black = record { zeros = λ a h l. refl; above = omega arith; size = omega arith }

draw_rect-IsBlack_example :
    IsBlack surface (draw_rect surface (λ a. 0) 1 2 3 4 0xFFAA0000)
    × SameOff 0 4 (λ a. 0) (draw_rect surface (λ a. 0) 1 2 3 4 0xFFAA0000)
draw_rect-IsBlack_example =
    draw_rect-IsBlack surface (λ a. 0) 1 2 3 4 0xFFAA0000 black (omega arith) (omega arith)
