-- ===== src/Tty/FbCon.antt =====
-- `FBCON_Write` and `FBCON_Init` of kernel/video/fbcon.c, `TTY_Write` of kernel/tty.c, and `putchar`
-- and `puts` of kernel/video/renderer.c, over the font, which is a binary file.
pub mod Cursor
pub mod Screen
pub mod Sequence
pub mod Markup
pub mod Hidden
use sesh_os.Base.{
  ℕ, zero, suc, ◌+◌, ◌-◌, ◌*◌, ◌/◌, ◌%◌, ◌^◌, Bool, true, false, not, List, [], ◌∷◌, ◌==◌, leb,
  if◌then◌else◌, u16, u32,
}
use sesh_os.Base.Run.{Run, done, out_of_fuel, ◌>>=◌}
use sesh_os.Base.Memory.{Memory}
use sesh_os.Tty.{
  Tty, Framebuffer, Attributes, WriteFunc, com_log_wrapper, fbcon_write, set_write_func,
}
use sesh_os.Tty.Colors.{color_lgray}
use sesh_os.Tty.Com
use sesh_os.Tty.Ansi.{handle_esc}
use sesh_os.Tty.Glyph.{Pen, draw_glyph}

-- The fields of `ret` that are copied, and the cursor and colours of a fresh console. `TTY_BgColor`
-- is not set here. A null `ptr` leaves the write function.
unfoldable pub fbcon_init : Tty → Framebuffer → Bool → Tty
unfolding set_write_func
fbcon_init t ret has_ptr =
    let t1 = record t {
      fb = ret;
      cursor_x = 0;
      cursor_y = 0;
      width = u16 (ret.width / 8);
      height = u16 (ret.height / 16);
      attr = record (t.attr) { color = color_lgray; bold = false };
    } in
    if has_ptr then set_write_func t1 fbcon_write else t1

-- The end of the function: the cursor goes on, and to the next line behind the last column.
unfoldable pub advance : Tty → Tty
advance t =
    let x = u16 (t.cursor_x + 1) in
    if leb t.width x
    then record t { cursor_x = 0; cursor_y = u16 (t.cursor_y + 1) }
    else record t { cursor_x = x }

module _ (font : ℕ → ℕ → ℕ) where
  unfoldable pub pen : Tty → (ch x y fg bg : ℕ) → Pen
  pen t ch x y fg bg = record {
    rows = font ch;
    offset = u32 (u32 (y * 16 * t.fb.width) + x * 8);
    width = t.fb.width;
    fg = fg;
    bg = bg;
    bold = t.attr.bold;
  }

  unfoldable pub write_glyph : Tty → (ch x y fg bg : ℕ) → Tty
  write_glyph t ch x y fg bg =
      advance
        (record t { fb = record (t.fb) { pixels = draw_glyph (pen t ch x y fg bg) t.fb.pixels } })

  -- A backspace calls `putchar`, which comes back here if this is the write function: two levels are
  -- enough.
  unfoldable pub write : ℕ → Tty → (ch x y fg bg : ℕ) → Run Tty
  write zero t ch x y fg bg = out_of_fuel
  write (suc depth) t ch x y fg bg =
      let escape = (do
        (t', completed) ← handle_esc t ch
        done (record t' { esc = not completed })) in
      let left = record t { cursor_x = t.cursor_x - 1 } in
      let blank : Run Tty = elim left.write_func [
        | com_log_wrapper ↦ done (Com.com_log_wrapper left b' ')
        | fbcon_write ↦
            write depth left b' ' left.cursor_x left.cursor_y left.attr.color left.attr.bg_color
      ] in
      let backspace = (do
        t' ← blank
        done (record t' { cursor_x = u16 (t'.cursor_x + 2 ^ 16 - 1) })) in
      if ch == 0x1b
      then done (record t { esc = true })
      else if t.esc
      then escape
      else if ch == b'\r'
      then done (record t { cursor_x = 0 })
      else if ch == 8
      then (if t.cursor_x == 0 then done t else backspace)
      else if ch == b'\n'
      then done (record t { cursor_x = 0; cursor_y = u16 (t.cursor_y + 1) })
      else done (write_glyph t ch x y fg bg)

  -- The call through the pointer.
  unfoldable pub call : WriteFunc → Tty → (ch x y fg bg : ℕ) → Run Tty
  call com_log_wrapper t ch x y fg bg = done (Com.com_log_wrapper t ch)
  call fbcon_write t ch x y fg bg = write 2 t ch x y fg bg

  -- `TTY_WriteFunc(ch, x, y, fgColor, bgColor)`
  unfoldable pub tty_write : Tty → (ch x y fg bg : ℕ) → Run Tty
  unfolding call
  tty_write t ch x y fg bg = call t.write_func t ch x y fg bg

  unfoldable pub putchar : Tty → ℕ → Run Tty
  unfolding tty_write
  putchar t c = tty_write t c t.cursor_x t.cursor_y t.attr.color t.attr.bg_color

  -- `while (*string != '\0') { putchar(*string); string++; }`; the count is what is returned
  unfoldable pub puts : ℕ → Memory → Tty → (string count : ℕ) → Run (Tty × ℕ)
  puts zero m t string count = out_of_fuel
  puts (suc fuel) m t string count =
      let rest = putchar t (m string) >>= λ t'. puts fuel m t' (string + 1) (count + 1) in
      if m string == 0 then done (t, count) else rest

  -- A run of `putchar` over given bytes.
  unfoldable pub put_all : Tty → List ℕ → Run Tty
  put_all t [] = done t
  put_all t (c ∷ s) = putchar t c >>= λ t'. put_all t' s
