-- ===== src/Tty.antt =====
-- kernel/tty.c, kernel/video/renderer.c and kernel/serial/comout.c: the terminal's state and the two
-- functions that write a character, with kernel/video/ansi.c and kernel/video/fbcon.c below.
pub mod Com
pub mod Colors
pub mod Ansi
pub mod Glyph
pub mod FbCon
use sesh_os.Base.{ℕ, Bool, List}
use sesh_os.Base.Memory.{Memory}

-- The function that `TTY_WriteFunc` points to.
pub data WriteFunc : Type 0 where
  com_log_wrapper : WriteFunc
  fbcon_write : WriteFunc

-- Colours are 32-bit words.
pub record Attributes : Type 0 where
  pub color : ℕ
  pub bg_color : ℕ
  pub bold : Bool

-- `framebuffer_t`: the pixels are words, by their index from `ptr`. The mode is never read and is left
-- out.
pub record Framebuffer : Type 0 where
  pub width : ℕ
  pub height : ℕ
  pub pixels : ℕ → ℕ

-- The statics of ansi.c: the bytes of `escapeSequence` by their index.
pub record Escape : Type 0 where
  pub completed : Bool
  pub sequence : Memory
  pub length : ℕ

-- The globals of the terminal. `port_e9` are the bytes sent to the debug port so far, the last one
-- first.
pub record Tty : Type 0 where
  pub cursor_x : ℕ
  pub cursor_y : ℕ
  pub width : ℕ
  pub height : ℕ
  pub attr : Attributes
  pub write_func : WriteFunc
  pub fb : Framebuffer
  pub esc : Bool
  pub escape : Escape
  pub port_e9 : List ℕ

unfoldable pub set_write_func : Tty → WriteFunc → Tty
set_write_func t f = record t { write_func = f }
