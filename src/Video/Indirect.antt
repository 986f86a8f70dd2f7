-- ===== src/Video/Indirect.antt =====
-- Where the drawing functions write.
use sesh_os.Base.{ℕ, zero, suc, ◌+◌, ◌*◌, ◌^◌, ◌<◌, ◌≤◌, ◌≡◌, refl, ◌∙◌, inl, inr, ◌⊎◌, arith, u32}
use sesh_os.Base.Memory.{Memory, SameOff}
use sesh_os.Video.{Surface, pixel_word, put_pixel, for_memory, rounds, draw_rect}
use sesh_os.Base.Words.{load32, store32}

-- Every pixel of the screen is black; the screen has at most 2^32 bytes and does not stand at the
-- first addresses.
pub record IsBlack (s : Surface) (m : Memory) : Type 0 where
  pub zeros : (a : ℕ) → s.ptr ≤ a → a < s.ptr + 4 * (s.width * s.height) → m a ≡ 0
  pub above : 4 ≤ s.ptr
  pub size : 4 * (s.width * s.height) ≤ 2 ^ 32

cell-inside : (x y width height : ℕ) → x < width → y < height → x + y * width < width * height
cell-inside x y width height hx hy = grind arith

put_pixel-IsBlack :
    (s : Surface) (m : Memory) (x y color : ℕ)
    → IsBlack s m
    → x < s.width
    → y < s.height
    → IsBlack s (put_pixel s m x y color) × SameOff 0 4 m (put_pixel s m x y color)
unfolding put_pixel pixel_word load32 store32
put_pixel-IsBlack s m x y color black hx hy =
    let inside = cell-inside x y s.width s.height hx hy in
    let i = x + y * s.width in
    let low : i < 2 ^ 30 = omega (arith, inside, black.size) in
    let at = s.ptr + 4 * u32 (x + u32 (y * s.width)) in
    let here : at ≡ s.ptr + 4 * i = omega (arith, low) in
    let e0 = black.zeros at (omega arith) (omega (arith, here, inside)) in
    let e1 = black.zeros (at + 1) (omega arith) (omega (arith, here, inside)) in
    let e2 = black.zeros (at + 2) (omega arith) (omega (arith, here, inside)) in
    let e3 = black.zeros (at + 3) (omega arith) (omega (arith, here, inside)) in
    let word : pixel_word s m x y ≡ 0 = omega (arith, e0, e1, e2, e3) in
    rw word (
      record {
        zeros = λ a h l. rest a (omega (arith, black.above)) ∙ black.zeros a h l;
        above = black.above;
        size = black.size;
      },
      λ a out. rest a (later out),
    )
  where
    rest : (a : ℕ) → 4 ≤ a → store32 m 0 color a ≡ m a
    rest a h = ground arith

    later : {a : ℕ} → (a < 0) ⊎ (4 ≤ a) → 4 ≤ a
    later (inl h) = absurd (omega arith)
    later (inr h) = h

-- A body that keeps the screen black and writes below 4 only, when it is called with a number below
-- `last`.
abbrev Harmless : Surface → (last : ℕ) → (Memory → ℕ → Memory) → Type 0
Harmless s last body =
    (m : Memory) (k : ℕ) → k < last → IsBlack s m → IsBlack s (body m k) × SameOff 0 4 m (body m k)

for_memory-Harmless :
    (s : Surface) (left i last : ℕ) (body : Memory → ℕ → Memory) (m : Memory)
    → Harmless s last body
    → i + left ≤ last
    → IsBlack s m
    → IsBlack s (for_memory left i body m) × SameOff 0 4 m (for_memory left i body m)
unfolding for_memory
for_memory-Harmless s zero i last body m harmless h black = (black, λ a out. refl)
for_memory-Harmless s (suc left) i last body m harmless h black =
    let (black1, same1) = harmless m i (omega arith) black in
    let (black2, same2) =
      for_memory-Harmless s left (i + 1) last body (body m i) harmless (omega arith) black1 in
    (black2, λ a out. same2 a out ∙ same1 a out)

-- On a black screen `drawRect` draws nothing, whatever the colour is and whatever the rectangle on
-- the screen is: only the four bytes at address 0 are written, since the pixels' values are used as
-- addresses.
pub draw_rect-IsBlack :
    (s : Surface) (m : Memory) (start_x start_y width height color : ℕ)
    → IsBlack s m
    → start_x + rounds width ≤ s.width
    → start_y + rounds height ≤ s.height
    → IsBlack s (draw_rect s m start_x start_y width height color)
      × SameOff 0 4 m (draw_rect s m start_x start_y width height color)
unfolding draw_rect
draw_rect-IsBlack s m start_x start_y width height color black right below =
    for_memory-Harmless s (rounds width) start_x s.width _ m
      (λ m1 x hx.
        for_memory-Harmless s (rounds height) start_y s.height _ m1
          (λ m2 y hy black2. put_pixel-IsBlack s m2 x y color black2 hx hy) below)
      right black
