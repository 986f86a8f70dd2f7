-- ===== src/Boot/Logging/Fitting.antt =====
-- The log calls of kernel/boot/checkLoader.c, which are made while the terminal still writes to the
-- debug port, and which boot loaders' names fit its array.
use sesh_os.Base.{
  ℕ, ◌+◌, ◌<◌, ◌≤◌, ◌≡◌, refl, ap, ◌∙◌, Bool, true, ◌&&◌, not, ◌==◌, ==→ne, none, some, List, [],
  ◌∷◌, ◌++◌, length, length-append, lt→ltb, ge→ltb, if◌then◌else◌, arith,
}
use mathlib.Core.List.{reverse_aux}
use sesh_os.Base.Memory.{Memory, CStr, NonZero, CStr-NonZero}
use sesh_os.Base.Run.{Run, done, fault, ◌>>=◌, bind-done}
use sesh_os.Base.Text.{codes}
use sesh_os.Tty.{Tty}
use sesh_os.Log.{esc, log}
use sesh_os.Log.Pieces.{before, formatted}
use sesh_os.Log.Fitting.{length-formatted}
use sesh_os.Log.Serial.{Serial, log-Serial}
use sesh_os.Boot.{LimineData, check_loader}
use sesh_os.Boot.Logging.{
  modname, loglevel_info, loglevel_warn, found_text, log_found, log_check, boot_check_loader,
}

length-found_text :
    (name version : List ℕ) → length (found_text name version) ≡ length name + length version + 61
length-found_text name version =
    let named = codes "Found Limine compatible bootloader, named \"" ++ name in
    let joined = named ++ codes "\", with version \"" in
    omega (
      arith,
      length-append {0} (joined ++ version) (codes "\""),
      length-append {0} joined version,
      length-append {0} named (codes "\", with version \""),
      length-append {0} (codes "Found Limine compatible bootloader, named \"") name,
    )

-- A test of `NonZero` that closed texts pass by evaluation.
abbrev pub is_nonzero : List ℕ → Bool
is_nonzero [] = true
is_nonzero (c ∷ s) = not (c == 0) && is_nonzero s

pub NonZero-is_nonzero : (s : List ℕ) → is_nonzero s ≡ true → NonZero s
NonZero-is_nonzero [] h = tt
NonZero-is_nonzero (c ∷ s) h = (==→ne c 0 (ground arith), NonZero-is_nonzero s (ground arith))

NonZero-append : (a b : List ℕ) → NonZero a → NonZero b → NonZero (a ++ b)
NonZero-append [] b ha hb = hb
NonZero-append (c ∷ a) b ha hb = (ha.0, NonZero-append a b ha.1 hb)

found_text-NonZero :
    (name version : List ℕ) → NonZero name → NonZero version → NonZero (found_text name version)
found_text-NonZero name version nz_name nz_version =
    let first = codes "Found Limine compatible bootloader, named \"" in
    let middle = codes "\", with version \"" in
    let last = codes "\"" in
    NonZero-append (first ++ name ++ middle ++ version) last
      (NonZero-append (first ++ name ++ middle) version
        (NonZero-append (first ++ name) middle
          (NonZero-append first name (NonZero-is_nonzero first refl) nz_name)
          (NonZero-is_nonzero middle refl))
        nz_version)
      (NonZero-is_nonzero last refl)

-- The colours of the two levels.
abbrev info_color : List ℕ
info_color = esc ∷ codes "[37m"

abbrev warn_color : List ℕ
warn_color = esc ∷ codes "[33m"

-- A message as the debug port gets it.
abbrev line : (color msg : List ℕ) → List ℕ
line color msg = formatted modname color msg ++ (esc ∷ codes "[0m") ++ b'\r' ∷ b'\n' ∷ []

line-NonZero :
    (color msg : List ℕ) → NonZero (before modname color) → NonZero msg → NonZero (line color msg)
line-NonZero color msg first nz =
    NonZero-append (formatted modname color msg ++ (esc ∷ codes "[0m")) (b'\r' ∷ b'\n' ∷ [])
      (NonZero-append (formatted modname color msg) (esc ∷ codes "[0m")
        (NonZero-append (before modname color) (b' ' ∷ msg) first ((λ e. omega arith), nz))
        (NonZero-is_nonzero (esc ∷ codes "[0m") refl))
      (NonZero-is_nonzero (b'\r' ∷ b'\n' ∷ []) refl)

abbrev detecting : List ℕ
detecting = codes "=== Autodetecting Bootloader ==="

abbrev yes : List ℕ
yes = codes "Limine... " ++ codes "YES"

-- What the debug port gets for a boot loader, the last byte first.
abbrev pub sent : (name version out : List ℕ) → List ℕ
sent name version out =
    reverse_aux (line info_color (found_text name version))
      (reverse_aux (line info_color yes) (reverse_aux (line info_color detecting) out))

-- The terminal writes to the debug port and is in the first column.
abbrev pub AtStart : Tty → List ℕ → Type 0
AtStart t out = Serial t out × (t.cursor_x ≡ 0)

module _ (font : ℕ → ℕ → ℕ) where
  log-info :
      (t : Tty) (msg out : List ℕ)
      → AtStart t out
      → NonZero msg
      → length msg < 128
      → (u : Tty) × (log font formatted t modname msg loglevel_info ≡ done u)
        × AtStart u (reverse_aux (line info_color msg) out)
  log-info t msg out start nz short =
      let (u, runs, serial, first) =
        log-Serial font formatted t modname msg info_color out loglevel_info start.0 refl
          (line-NonZero info_color msg (NonZero-is_nonzero (before modname info_color) refl) nz)
          (length-formatted modname info_color msg loglevel_info (omega arith) (omega arith)
            short) in
      let text = line info_color msg in
      (
        u,
        runs,
        (
          (
            serial.0,
            serial.1
                ∙ ap (λ (x : ℕ). reverse_aux text (if x == 0 then out else b'\n' ∷ b'\r' ∷ out))
                    start.1,
          ),
          first,
        ),
      )

  log-warn :
      (t : Tty) (msg out : List ℕ)
      → AtStart t out
      → NonZero msg
      → length msg < 128
      → (u : Tty) × (log font formatted t modname msg loglevel_warn ≡ done u)
        × AtStart u (reverse_aux (line warn_color msg) out)
  log-warn t msg out start nz short =
      let (u, runs, serial, first) =
        log-Serial font formatted t modname msg warn_color out loglevel_warn start.0 refl
          (line-NonZero warn_color msg (NonZero-is_nonzero (before modname warn_color) refl) nz)
          (length-formatted modname warn_color msg loglevel_warn (omega arith) (omega arith)
            short) in
      let text = line warn_color msg in
      (
        u,
        runs,
        (
          (
            serial.0,
            serial.1
                ∙ ap (λ (x : ℕ). reverse_aux text (if x == 0 then out else b'\n' ∷ b'\r' ∷ out))
                    start.1,
          ),
          first,
        ),
      )

  log_found-outcome :
      (text_at : Memory → ℕ → List ℕ) (t : Tty) (name version out : List ℕ)
      → AtStart t out
      → NonZero name
      → NonZero version
      → (length name + length version < 67
          → (u : Tty) × (log_found font formatted text_at t name version ≡ done u)
            × AtStart u (reverse_aux (line info_color (found_text name version)) out))
        × (67 ≤ length name + length version
            → log_found font formatted text_at t name version ≡ fault)
  unfolding log_found
  log_found-outcome text_at t name version out start nz_name nz_version =
      let text = found_text name version in
      let size = length-found_text name version in
      (
        (λ short.
            let fits : length text < 128 = omega (arith, size, short) in
            rw (lt→ltb (length text) 128 fits) (
              log-info t text out start (found_text-NonZero name version nz_name nz_version) fits)),
        λ long. rw (ge→ltb (length text) 128 (omega (arith, size, long))) refl,
      )

  -- Without a boot loader that answers, the three messages are logged and nothing is copied.
  pub boot_check_loader-none :
      (text_at : Memory → ℕ → List ℕ) (fuel loader_name loader_version : ℕ) (t : Tty) (m : Memory)
      (loader_id : ℕ) (out : List ℕ)
      → AtStart t out
      → (u : Tty) × (boot_check_loader font formatted text_at fuel loader_name loader_version t m
            loader_id none
          ≡ done (u, m, loader_id))
  unfolding boot_check_loader log_check check_loader
  boot_check_loader-none text_at fuel loader_name loader_version t m loader_id out start =
      let no = codes "Limine... " ++ codes "NO" in
      let unknown =
        codes "No known bootloader detected!  Disabling bootloader-specific features." in
      let (t1, runs1, start1) =
        log-info t detecting out start (NonZero-is_nonzero detecting refl) (omega arith) in
      let (t2, runs2, start2) =
        log-info t1 no _ start1 (NonZero-is_nonzero no refl) (omega arith) in
      let (t3, runs3, start3) =
        log-warn t2 unknown _ start2 (NonZero-is_nonzero unknown refl) (omega arith) in
      (t3, bind-done _ (bind-done _ runs1 (bind-done _ runs2 runs3)) refl)

  module _ (text_at : Memory → ℕ → List ℕ) where
    log_check-found :
        (t u v : Tty) (m : Memory) (limine : LimineData) (name version : List ℕ)
        → log font formatted t modname detecting loglevel_info ≡ done u
        → log font formatted u modname yes loglevel_info ≡ done v
        → text_at m limine.name ≡ name
        → text_at m limine.version ≡ version
        → log_check font formatted text_at t m (some limine)
          ≡ log_found font formatted text_at v name version
    unfolding log_check
    log_check-found t u v m limine name version runs_u runs_v named versioned = bind-done _ runs_u (
        bind-done _ runs_v (
          ap (λ n. log_found font formatted text_at v n (text_at m limine.version)) named
          ∙ ap (λ w. log_found font formatted text_at v name w) versioned))

    -- What follows the messages.
    abbrev rest :
        Memory
        → LimineData
        → (fuel loader_name loader_version loader_id : ℕ) → Run Tty
        → Run (Tty × Memory × ℕ)
    rest m limine fuel loader_name loader_version loader_id r = r >>= λ u.
        check_loader fuel loader_name loader_version m loader_id (some limine) >>= λ st.
        done (u, st.0, st.1)

    -- On a terminal that writes to the debug port and is in the first column, as `init` calls it, when
    -- the library prints strings shorter than `limit` as they are, and Limine gives the addresses of
    -- two such strings: if name and version have fewer than 67 bytes together, the port receives the
    -- three messages in order and the check ends as the two copies do, with what they leave; if they
    -- have 67 or more, the check writes outside its array of 128 bytes before it copies anything.
    pub boot_check_loader-outcome :
        (t : Tty) (m : Memory) (limine : LimineData) (name version out : List ℕ)
        (limit fuel loader_name loader_version loader_id : ℕ)
        → AtStart t out
        → ((p : ℕ) (s : List ℕ) → CStr m p s → length s < limit → text_at m p ≡ s)
        → CStr m limine.name name
        → CStr m limine.version version
        → length name < limit
        → length version < limit
        → (length name + length version < 67
            → (u : Tty) × Serial u (sent name version out)
              × (boot_check_loader font formatted text_at fuel loader_name loader_version t m
                    loader_id
                    (some limine)
                  ≡ (check_loader fuel loader_name loader_version m loader_id (some limine)
                      >>= λ st. done (u, st.0, st.1))))
          × (67 ≤ length name + length version
              → boot_check_loader font formatted text_at fuel loader_name loader_version t m
                  loader_id
                  (some limine)
                ≡ fault)
    unfolding boot_check_loader
    boot_check_loader-outcome t m limine name version out limit fuel loader_name loader_version
          loader_id start prints at_name at_version low_name low_version =
        let (u, runs_u, start_u) =
          log-info t detecting out start (NonZero-is_nonzero detecting refl) (omega arith) in
        let (v, runs_v, start_v) =
          log-info u yes _ start_u (NonZero-is_nonzero yes refl) (omega arith) in
        let (short, long) =
          log_found-outcome text_at v name version _ start_v
            (CStr-NonZero m limine.name name at_name)
            (CStr-NonZero m limine.version version at_version) in
        let found =
          log_check-found t u v m limine name version runs_u runs_v
            (prints limine.name name at_name low_name)
            (prints limine.version version at_version low_version) in
        (
          (λ few.
              let (w, runs_w, start_w) = short few in
              (w, start_w.0, bind-done _ (found ∙ runs_w) refl)),
          λ many. ap (rest m limine fuel loader_name loader_version loader_id) (found ∙ long many),
        )
