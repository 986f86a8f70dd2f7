-- ===== src/Log/Serial.antt =====
-- The log before there is a framebuffer, when the terminal writes to the debug port.
use sesh_os.Base.{
  ◌+◌, ℕ, ◌<◌, ◌≡◌, ◌≢◌, refl, ap, List, [], ◌∷◌, ◌==◌, length, get_elem?, if◌then◌else◌, lt→ltb,
  ne→==, some, arith, Bool-cases, inl, inr, u16, ◌++◌, ◌∙◌,
}
use mathlib.Core.List.{reverse_aux}
use sesh_os.Base.Memory.{NonZero}
use sesh_os.Base.Run.{done, bind-done}
use sesh_os.Tty.{Tty, com_log_wrapper}
use sesh_os.Tty.Com
use sesh_os.Tty.FbCon.{putchar, put_all, call}
use sesh_os.Base.Text.{codes}
use sesh_os.Log.{loglevel_fatal, esc, ansi_colors, finished, end_of_line, is_serial, log}

-- The terminal writes to the debug port, which has received `out`.
abbrev pub Serial : Tty → List ℕ → Type 0
Serial t out = (t.write_func ≡ com_log_wrapper) × (t.port_e9 ≡ out)

-- The column behind the bytes, which a carriage return makes the first one.
abbrev pub column : List ℕ → ℕ → ℕ
column [] x = x
column (c ∷ s) x = column s (if c == b'\r' then 0 else if c == b'\n' then x else u16 (x + 1))

-- The text before the line's end.
abbrev marked : ℕ → List ℕ → List ℕ
marked level s = (if level == loglevel_fatal then s ++ codes " !!!" else s) ++ (esc ∷ codes "[0m")

column-ended : (s : List ℕ) (x : ℕ) → column (s ++ end_of_line) x ≡ 0
column-ended [] x = refl
column-ended (c ∷ s) x = column-ended s _

com_log_wrapper-Serial :
    (t : Tty) (c : ℕ) (out : List ℕ)
    → Serial t out
    → c ≢ 0
    → Serial (Com.com_log_wrapper t c) (c ∷ out)
      × ((Com.com_log_wrapper t c).cursor_x
          ≡ (if c == b'\r' then 0 else if c == b'\n' then t.cursor_x else u16 (t.cursor_x + 1)))
unfolding Com.com_log_wrapper
com_log_wrapper-Serial t c out serial ne =
    let port = ap (λ (o : List ℕ). c ∷ o) serial.1 in
    elim (Bool-cases (c == b'\r')) [
      | inl return_ ↦ rw (return_, ne→== c 0 ne) ((serial.0, port), refl)
      | inr other ↦ elim (Bool-cases (c == b'\n')) [
        | inl line ↦ rw (other, line, ne→== c 0 ne) ((serial.0, port), refl)
        | inr plain ↦ rw (other, plain, ne→== c 0 ne) ((serial.0, port), refl)
      ]
    ]

module _ (font : ℕ → ℕ → ℕ) where
  putchar-com :
      (t : Tty) (c : ℕ)
      → t.write_func ≡ com_log_wrapper
      → putchar font t c ≡ done (Com.com_log_wrapper t c)
  unfolding putchar call
  putchar-com t c e = ap (λ f. call font f t c t.cursor_x t.cursor_y t.attr.color t.attr.bg_color) e

  put_all-Serial :
      (s : List ℕ) (t : Tty) (out : List ℕ)
      → Serial t out
      → NonZero s
      → (u : Tty) × (put_all font t s ≡ done u)
        × Serial u (reverse_aux s out)
        × (u.cursor_x ≡ column s t.cursor_x)
  unfolding put_all
  put_all-Serial [] t out serial nz = (t, refl, serial, refl)
  put_all-Serial (c ∷ s) t out serial nz =
      let (next, at) = com_log_wrapper-Serial t c out serial nz.0 in
      let (u, runs, sent, last) = put_all-Serial s (Com.com_log_wrapper t c) (c ∷ out) next nz.1 in
      (u, bind-done _ (putchar-com t c serial.0) runs, sent, last ∙ ap (column s) at)

  begun-Serial :
      (t : Tty) (out : List ℕ)
      → Serial t out
      → (u : Tty) × ((if t.cursor_x == 0 then done t else put_all font t end_of_line) ≡ done u)
        × Serial u (if t.cursor_x == 0 then out else b'\n' ∷ b'\r' ∷ out)
  begun-Serial t out serial = elim (Bool-cases (t.cursor_x == 0)) [
    | inl first ↦ rw first (t, refl, serial)
    | inr inside ↦
        let (u, runs, sent, _) =
          put_all-Serial end_of_line t out serial ((λ e. omega arith), ((λ e. omega arith), tt)) in
        rw inside (u, runs, sent)
  ]

-- On a terminal that writes to the debug port, when the text of `log` has no zero and fits its array
-- of 256 bytes with the final zero, the port receives it once, behind a line end if the terminal was
-- not in the first column, and the terminal is in the first column behind it.
pub log-Serial :
    (font : ℕ → ℕ → ℕ) (sprintf : (module_ color msg : List ℕ) → List ℕ) (t : Tty)
    (module_ msg color out : List ℕ) (level : ℕ)
    → Serial t out
    → get_elem? ansi_colors level ≡ some color
    → NonZero (finished level (sprintf module_ color msg))
    → length (finished level (sprintf module_ color msg)) < 256
    → (u : Tty) × (log font sprintf t module_ msg level ≡ done u)
      × Serial u (
          reverse_aux
            (finished level (sprintf module_ color msg))
            (if t.cursor_x == 0 then out else b'\n' ∷ b'\r' ∷ out))
      × (u.cursor_x ≡ 0)
unfolding log
log-Serial font sprintf t module_ msg color out level serial colored nz fits =
    let text = finished level (sprintf module_ color msg) in
    let (u, begun, serial_u) = begun-Serial font t out serial in
    let (v, runs, serial_v, last) = put_all-Serial font text u _ serial_u nz in
    (
      v,
      bind-done _ begun (rw (colored, ap is_serial serial_u.0, lt→ltb _ 256 fits) runs),
      serial_v,
      last ∙ column-ended (marked level (sprintf module_ color msg)) u.cursor_x,
    )
