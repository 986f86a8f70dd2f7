-- ===== src/Video.antt =====
-- kernel/video/video.c: drawing on the framebuffer in flat memory. An `int` is the word of its two's
-- complement.
pub mod Indirect
pub mod Cursor
use sesh_os.Base.{
  ℕ, zero, suc, ◌+◌, ◌-◌, ◌*◌, ◌/◌, ◌%◌, ◌^◌, Bool, ◌&&◌, leb, ltb, if◌then◌else◌, u32,
}
use sesh_os.Base.Words.{load32, store32}
use sesh_os.Base.Memory.{Memory}

-- `fbCon`, of which the drawing reads the address, the width and the height.
pub record Surface : Type 0 where
  pub ptr : ℕ
  pub width : ℕ
  pub height : ℕ

-- `fbCon.ptr[x + (y * fbCon.width)]`
unfoldable pub pixel_word : Surface → Memory → (x y : ℕ) → ℕ
unfolding load32
pixel_word s m x y = load32 m (s.ptr + 4 * u32 (x + u32 (y * s.width)))

-- The value of the pixel is used as the address that is written.
unfoldable pub put_pixel : Surface → Memory → (x y color : ℕ) → Memory
unfolding store32 pixel_word
put_pixel s m x y color = store32 m (pixel_word s m x y) color

unfoldable pub get_pixel : Surface → Memory → (x y : ℕ) → ℕ
unfolding load32 pixel_word
get_pixel s m x y = load32 m (pixel_word s m x y)

-- `for (k = i; ...; k++)` over the memory, with `left` rounds to go
pub for_memory : (left i : ℕ) → (Memory → ℕ → Memory) → Memory → Memory
for_memory zero i body m = m
for_memory (suc left) i body m = for_memory left (i + 1) body (body m i)

-- The rounds of a loop over an `int` that has a length added at its end: none for a negative length.
-- A sum beyond the last `int` is not defined.
abbrev pub rounds : ℕ → ℕ
rounds n = if leb (2 ^ 31) (u32 n) then 0 else u32 n

unfoldable pub draw_rect : Surface → Memory → (start_x start_y width height color : ℕ) → Memory
unfolding for_memory
draw_rect s m start_x start_y width height color =
    for_memory (rounds width) start_x
      (λ m1 x. for_memory (rounds height) start_y (λ m2 y. put_pixel s m2 x y color) m1) m

-- The first two words of the icon are its width and height, which are read once.
unfoldable pub draw_image : Surface → Memory → (icon pos_x pos_y : ℕ) → Memory
unfolding for_memory load32
draw_image s m icon pos_x pos_y =
    let width = load32 m icon in
    let height = load32 m (icon + 4) in
    for_memory (rounds height) 0
      (λ m1 y.
        for_memory (rounds width) 0
          (λ m2 x.
            put_pixel s m2 (pos_x + x) (pos_y + y) (load32 m2 (icon + 4 * (y * width + x + 2))))
          m1)
      m

-- The loops of `Clear`, which do not use its colour.
unfoldable pub clear : Surface → Memory → Memory
unfolding for_memory
clear s m = for_memory s.width 0 (λ m1 x. for_memory s.height 0 (λ m2 y. put_pixel s m2 x y 0) m1) m
