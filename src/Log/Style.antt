-- ===== src/Log/Style.antt =====
-- How the messages of the log look on the framebuffer console, and what they leave behind.
use sesh_os.Base.{
  none, ℕ, zero, suc, ◌+◌, ◌≤◌, ◌<◌, ◌≡◌, refl, sym, ap, ◌∙◌, List, ◌++◌, arith, length, get_elem?,
  if◌then◌else◌, ◌==◌, u16, lt→ltb, Bool-cases, inl, inr, some,
}
use mathlib.Core.List.{reverse_aux}
use sesh_os.Base.Run.{Run, done, bind-done}
use sesh_os.Tty.{Tty, fbcon_write}
use sesh_os.Tty.FbCon.{put_all}
use sesh_os.Tty.FbCon.Cursor.{OnScreen, putchar-line}
use sesh_os.Tty.FbCon.Markup.{
  Piece, render, restyle, AllProper, Ready, put_all-render, put_all-append,
}
use sesh_os.Log.{ansi_colors, end_of_line, finished, is_serial, log}
use sesh_os.Log.Pieces.{
  before, formatted, style, before_message, head_pieces, level_pieces, all_pieces, NoEscape,
  AllProper-append, AllProper-head, AllProper-level, AllProper-all, restyle-level, restyle-all,
  level_color, color_render, before-render, finished-render,
}

at_start : {t : Tty} {y : ℕ} → OnScreen t → OnScreen (record t { cursor_x = 0; cursor_y = y })
at_start on = record {
  to_fb = on.to_fb;
  no_escape = on.no_escape;
  column = omega (arith, on.column);
  narrow = on.narrow;
}

module _ (font : ℕ → ℕ → ℕ) where
  put_all-end_of_line :
      (t : Tty)
      → OnScreen t
      → put_all font t end_of_line
        ≡ done (record t { cursor_x = 0; cursor_y = u16 (t.cursor_y + 1) })
  unfolding put_all
  put_all-end_of_line t on =
      bind-done _ (putchar-line font t on).0
        (bind-done _ (putchar-line font (record t { cursor_x = 0 }) (at_start on)).1 refl)

  Ready-port : (t : Tty) (out : List ℕ) → Ready font t → Ready font (record t { port_e9 = out })
  Ready-port t out (on, fresh) = (
    record { to_fb = on.to_fb; no_escape = on.no_escape; column = on.column; narrow = on.narrow },
    fresh,
  )

  Ready-line :
      (t : Tty) (y : ℕ) → Ready font t → Ready font (record t { cursor_x = 0; cursor_y = y })
  Ready-line t y (on, fresh) = (at_start on, fresh)

  -- A line is begun if the cursor is not in the first column.
  put_all-begun :
      (t : Tty)
      → Ready font t
      → (u : Tty) × ((if t.cursor_x == 0 then done t else put_all font t end_of_line) ≡ done u)
        × Ready font u
        × (u.port_e9 ≡ t.port_e9)
  put_all-begun t ready = elim (Bool-cases (t.cursor_x == 0)) [
    | inl first ↦ rw first (t, refl, ready, refl)
    | inr inside ↦ rw inside (
      record t { cursor_x = 0; cursor_y = u16 (t.cursor_y + 1) },
      put_all-end_of_line t ready.0,
      Ready-line t _ ready,
      refl,
    )
  ]

  -- A text of pieces and the end of the line.
  put_all-line :
      (ps : List Piece) (t : Tty)
      → AllProper ps
      → Ready font t
      → (t' : Tty) × (put_all font t (render ps ++ end_of_line) ≡ done t')
        × Ready font t'
        × (t'.cursor_x ≡ 0)
        × (t'.attr ≡ restyle ps t.attr)
        × (t'.port_e9 ≡ t.port_e9)
  put_all-line ps t proper ready =
      let (u, runs, end, style, port) = put_all-render font ps t proper ready in
      (
        record u { cursor_x = 0; cursor_y = u16 (u.cursor_y + 1) },
        put_all-append font (render ps) end_of_line t
            ∙ bind-done _ runs (put_all-end_of_line u end.0),
        Ready-line u _ end,
        refl,
        style,
        port,
      )

  -- On a console outside any sequence, the text of `log` before the message of a level sets the
  -- attributes of that level: they are bold, an error is yellow like a warning, and the two lowest
  -- levels are neither bold nor on the background that was there.
  pub log-style :
      (t : Tty) (module_ color : List ℕ) (level : ℕ)
      → Ready font t
      → NoEscape module_
      → level ≤ 5
      → get_elem? ansi_colors level ≡ some color
      → (t' : Tty) × (put_all font t (before module_ color) ≡ done t')
        × (t'.attr ≡ style level t.attr.bg_color)
  log-style t module_ color level ready clean small colored =
      let ps = before_message module_ level in
      let proper =
        AllProper-append (head_pieces module_) (level_pieces level) (AllProper-head module_ clean)
          (AllProper-level level small) in
      let (t', runs, _, look, _) = put_all-render font ps t proper ready in
      (
        t',
        ap (put_all font t) (
              ap (before module_) (sym (color_render color level small colored))
              ∙ before-render module_ level)
            ∙ runs,
        look ∙ restyle-level module_ level t.attr small,
      )

-- The text that `log` sends.
abbrev pub sent_text : (module_ msg : List ℕ) → (level : ℕ) → List ℕ
sent_text module_ msg level = render (all_pieces module_ msg level) ++ end_of_line

no_color : (level : ℕ) → 5 < level → get_elem? ansi_colors level ≡ none
no_color zero h = absurd (omega arith)
no_color (suc zero) h = absurd (omega arith)
no_color (suc (suc zero)) h = absurd (omega arith)
no_color (suc (suc (suc zero))) h = absurd (omega arith)
no_color (suc (suc (suc (suc zero)))) h = absurd (omega arith)
no_color (suc (suc (suc (suc (suc zero))))) h = absurd (omega arith)
no_color (suc (suc (suc (suc (suc (suc n)))))) h = refl

module _ (font : ℕ → ℕ → ℕ) (sprintf : (module_ color msg : List ℕ) → List ℕ) where
  -- The line after the beginning, when the string fits.
  log-fitting :
      (t u : Tty) (module_ msg color text : List ℕ) (level : ℕ) {r : Run Tty}
      → (if t.cursor_x == 0 then done t else put_all font t end_of_line) ≡ done u
      → u.write_func ≡ fbcon_write
      → get_elem? ansi_colors level ≡ some color
      → finished level (sprintf module_ color msg) ≡ text
      → length text < 256
      → put_all font (record u { port_e9 = reverse_aux text u.port_e9 }) text ≡ r
      → log font sprintf t module_ msg level ≡ r
  unfolding log
  log-fitting t u module_ msg color text level begun to_fb colored same fits runs =
      bind-done _ begun (rw (colored, same, ap is_serial to_fb, lt→ltb _ 256 fits) runs)

  -- On a console outside any sequence, when `sprintf` keeps to its format, module and message have
  -- no escape byte, and the text fits its array of 256 bytes with the final zero, `log` of a level
  -- up to fatal returns with the console outside any sequence, in the first column and with the
  -- default attributes; the text, and nothing else, went to the debug port.
  pub log-Ready :
      (t : Tty) (module_ msg : List ℕ) (level : ℕ)
      → Ready font t
      → level ≤ 5
      → NoEscape module_
      → NoEscape msg
      → ((color : List ℕ) → sprintf module_ color msg ≡ formatted module_ color msg)
      → length (sent_text module_ msg level) < 256
      → (t' : Tty) × (log font sprintf t module_ msg level ≡ done t')
        × Ready font t'
        × (t'.cursor_x ≡ 0)
        × (t'.attr ≡ style 0 0)
        × (t'.port_e9 ≡ reverse_aux (sent_text module_ msg level) t.port_e9)
  unfolding log
  log-Ready t module_ msg level ready small clean clean_msg format fits =
      let (u, begun, ready_u, port) = put_all-begun font t ready in
      let text = sent_text module_ msg level in
      let v : Tty = record u { port_e9 = reverse_aux text u.port_e9 } in
      let (t', runs, end, first, look, ports) =
        put_all-line font (all_pieces module_ msg level) v
          (AllProper-all module_ msg level small clean clean_msg) (Ready-port font u _ ready_u) in
      (
        t',
        log-fitting t u module_ msg (render (level_pieces level)) text level begun ready_u.0.to_fb
            (level_color level small)
            (ap (finished level) (format _) ∙ finished-render module_ msg level) fits runs,
        end,
        first,
        look ∙ restyle-all module_ msg level v.attr,
        ports ∙ ap (λ (out : List ℕ). reverse_aux text out) port,
      )
