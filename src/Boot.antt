-- ===== src/Boot.antt =====
-- kernel/boot/checkLoader.c: the boot loader's name and version are copied to arrays of 64 bytes. The
-- log calls are in Logging.
pub mod Name
pub mod Logging
use sesh_os.Base.{ℕ, ◌+◌, Bool, Option, none, some, leb, if◌then◌else◌}
use sesh_os.Base.Run.{Run, done, ◌>>=◌}
use sesh_os.Base.Memory.{Memory}
use sesh_os.Mem.{memcpy}
use sesh_os.Str.{strlen, strcpy}

-- A field is copied to its array at `dest`: the same code for the name and the version.
unfoldable pub copy_field : ℕ → Memory → (dest field : ℕ) → Run Memory
copy_field fuel m dest field = do
  n ← strlen fuel m field
  (if leb n 64
      then (do (g, ptr) ← strcpy fuel m dest field; done g)
      else done (memcpy m dest field 64).0)

-- The response of the boot loader: the addresses of the two strings.
pub record LimineData : Type 0 where
  pub name : ℕ
  pub version : ℕ

abbrev pub loader_id_limine_compatible : ℕ
loader_id_limine_compatible = 1

-- The memory and `BOOT_LoaderID`; `loader_name` and `loader_version` are the arrays' addresses.
unfoldable pub check_loader :
    ℕ
    → (loader_name loader_version : ℕ) → Memory
    → (loader_id : ℕ) → Option LimineData
    → Run (Memory × ℕ)
check_loader fuel loader_name loader_version m loader_id none = done (m, loader_id)
check_loader fuel loader_name loader_version m loader_id (some limine) = do
  m1 ← copy_field fuel m loader_name limine.name
  m2 ← copy_field fuel m1 loader_version limine.version
  done (m2, loader_id_limine_compatible)
