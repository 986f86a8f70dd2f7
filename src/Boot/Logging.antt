-- ===== src/Boot/Logging.antt =====
-- The texts that kernel/boot/checkLoader.c makes in its array of 128 bytes and hands to `log`, and the
-- whole check with them.
pub mod Fitting
use sesh_os.Base.{ℕ, Option, none, some, List, ◌++◌, length, ltb, if◌then◌else◌}
use sesh_os.Base.Memory.{Memory}
use sesh_os.Base.Run.{Run, done, fault, ◌>>=◌}
use sesh_os.Base.Text.{codes}
use sesh_os.Tty.{Tty}
use sesh_os.Log.{log}
use sesh_os.Boot.{LimineData, check_loader}

-- `MODNAME`
abbrev pub modname : List ℕ
modname = codes "BOOTDTCT"

abbrev pub loglevel_info : ℕ
loglevel_info = 2

abbrev pub loglevel_warn : ℕ
loglevel_warn = 3

abbrev pub found_text : (name version : List ℕ) → List ℕ
found_text name version =
    codes "Found Limine compatible bootloader, named \""
    ++ name
    ++ codes "\", with version \""
    ++ version
    ++ codes "\""

-- `text_at` is what the library prints for `%s` and an address.
module _ (font : ℕ → ℕ → ℕ) (sprintf : (module_ color msg : List ℕ) → List ℕ)
    (text_at : Memory → ℕ → List ℕ) where
  -- A text with its final zero must fit the array of 128 bytes.
  unfoldable pub log_found : Tty → (name version : List ℕ) → Run Tty
  log_found t name version =
      let str = found_text name version in
      if ltb (length str) 128 then log font sprintf t modname str loglevel_info else fault

  unfoldable pub log_check : Tty → Memory → Option LimineData → Run Tty
  unfolding log_found
  log_check t m none = do
    t1 ← log font sprintf t modname (codes "=== Autodetecting Bootloader ===") loglevel_info
    t2 ← log font sprintf t1 modname (codes "Limine... " ++ codes "NO") loglevel_info
    log font sprintf t2 modname
        (codes "No known bootloader detected!  Disabling bootloader-specific features.")
        loglevel_warn
  log_check t m (some limine) = do
    t1 ← log font sprintf t modname (codes "=== Autodetecting Bootloader ===") loglevel_info
    t2 ← log font sprintf t1 modname (codes "Limine... " ++ codes "YES") loglevel_info
    log_found t2 (text_at m limine.name) (text_at m limine.version)

  -- `BOOT_CheckLoader`: the terminal, the memory and `BOOT_LoaderID` behind it
  unfoldable pub boot_check_loader :
      ℕ
      → (loader_name loader_version : ℕ) → Tty
      → Memory
      → (loader_id : ℕ) → Option LimineData
      → Run (Tty × Memory × ℕ)
  unfolding log_check check_loader
  boot_check_loader fuel loader_name loader_version t m loader_id limine = do
    u ← log_check t m limine
    (m', id) ← check_loader fuel loader_name loader_version m loader_id limine
    done (u, m', id)
