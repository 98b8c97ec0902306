-- ===== src/Storage.antt =====
-- vault/io.rs: writing a vault file with its safety copy, and putting a copy back. The calls of
-- `std::fs` are those of Files; an error keeps its place in the code and leaves out the system's text.
pub mod Siblings
pub mod Restore
pub mod Steps
pub mod Saving
pub mod Crash
pub mod Works
pub mod Saved
pub mod Whole
pub mod Lifetime
use gabbro.Prelude.{
  Bool, Option, Result, String, codes, err, false, if◌then◌else◌, none, not, ok, panic, some, true,
  ◌++◌,
}
use gabbro.Bytes.{Bytes}
use gabbro.Files.{
  ◌>>=◌, FileName, FileType, Removal, Task, is_dir, is_file, is_symlink, map_error, not_found,
  not_removed, open_truncated, read_file, remove_file, symlink_metadata, sync_all, write_all,
  return, removed, fail, ask, rename, finished, caught,
}
use gabbro.FileFormat.{FormatError, SealedVault, from_bytes, to_bytes}

pub data StorageError : Type 0 where
  path_taken path_is_symlink could_not_create could_not_write could_not_sync could_not_rename
        could_not_read_vault could_not_reread could_not_read_backup could_not_read_source
        could_not_keep_old could_not_delete dest_taken :
      StorageError
  rotation_failed refresh_failed keeping_failed : StorageError → StorageError
  not_a_vault : FormatError → StorageError
  copy_not_refreshed : StorageError → StorageError

abbrev pub Storing : Type 0 → Type 0
Storing A = Task StorageError A

-- The siblings of a path: `.tmp`, `.bak` and `.pre-restore`.
abbrev pub sibling : String → FileName → FileName
sibling suffix p = p ++ codes suffix

abbrev pub tmp_path : FileName → FileName
tmp_path p = sibling ".tmp" p

abbrev pub bak_path : FileName → FileName
bak_path p = sibling ".bak" p

abbrev pub pre_restore_path : FileName → FileName
pre_restore_path p = sibling ".pre-restore" p

abbrev pub is_symlink_type : FileType → Bool
is_symlink_type is_symlink = true
is_symlink_type is_file = false
is_symlink_type is_dir = false

abbrev pub is_some : {A : Type 0} → Option A → Bool
is_some none = false
is_some (some a) = true

abbrev pub require : StorageError → Bool → Storing (Unit {0})
require e true = return tt
require e false = fail e

-- `map_err(…)?` on a call that replies whether it went well
abbrev pub checked : StorageError → Storing Bool → Storing (Unit {0})
checked e t = t >>= require e

-- `map_err(…)?` on what a read gives
abbrev pub or_fail : {A : Type 0} → StorageError → Option A → Storing A
or_fail e (some a) = return a
or_fail e none = fail e

abbrev pub lift : {A : Type 0} → Result FormatError A → Storing A
lift (ok a) = return a
lift (err e) = fail (not_a_vault e)
lift panic = finished panic

unfoldable pub refuse_if_path_taken : FileName → Storing (Unit {0})
refuse_if_path_taken p = do seen ← ask (symlink_metadata p); require path_taken (not (is_some seen))

abbrev pub no_symlink : Option FileType → Bool
no_symlink none = true
no_symlink (some t) = not (is_symlink_type t)

unfoldable pub check_not_symlink : FileName → Storing (Unit {0})
check_not_symlink p = do seen ← ask (symlink_metadata p); require path_is_symlink (no_symlink seen)

unfoldable pub atomic_write_0600 : FileName → Bytes → Storing (Unit {0})
atomic_write_0600 p bytes = do
  u ← checked could_not_create (ask (open_truncated (tmp_path p)))
  u ← checked could_not_write (ask (write_all (tmp_path p) bytes))
  u ← checked could_not_sync (ask (sync_all (tmp_path p)))
  checked could_not_rename (ask (rename (tmp_path p) p))

unfoldable pub read_or : StorageError → FileName → Storing Bytes
read_or e p = do content ← ask (read_file p); or_fail e content

-- What `rotate_backup` does where there is a file.
unfoldable pub rotate_existing : FileName → Storing (Unit {0})
unfolding check_not_symlink read_or atomic_write_0600
rotate_existing p = map_error rotation_failed (do
  u ← check_not_symlink (bak_path p)
  previous ← read_or could_not_read_vault p
  atomic_write_0600 (bak_path p) previous)

unfoldable pub rotate_backup : FileName → Storing (Unit {0})
unfolding rotate_existing
rotate_backup p = do
  seen ← ask (symlink_metadata p)
  if is_some seen then rotate_existing p else return tt

unfoldable pub sync_backup_to_current : FileName → Storing (Unit {0})
unfolding check_not_symlink read_or atomic_write_0600
sync_backup_to_current p = map_error refresh_failed (do
  u ← check_not_symlink (bak_path p)
  current ← read_or could_not_read_vault p
  atomic_write_0600 (bak_path p) current)

unfoldable pub verify_and_sync_backup : FileName → Storing (Unit {0})
unfolding read_or from_bytes sync_backup_to_current
verify_and_sync_backup p = do
  written ← read_or could_not_reread p
  v ← lift (from_bytes written)
  sync_backup_to_current p

unfoldable pub write_vault : SealedVault → FileName → Storing (Unit {0})
unfolding check_not_symlink rotate_backup to_bytes atomic_write_0600 verify_and_sync_backup
write_vault sealed p = do
  u ← check_not_symlink p
  u ← rotate_backup p
  u ← atomic_write_0600 p (to_bytes sealed)
  verify_and_sync_backup p

abbrev pub is_removed : Removal → Bool
is_removed removed = true
is_removed not_found = true
is_removed not_removed = false

unfoldable pub remove_backup : FileName → Storing (Unit {0})
remove_backup p = do r ← ask (remove_file (bak_path p)); require could_not_delete (is_removed r)

unfoldable pub remove_pre_restore : FileName → Storing (Unit {0})
remove_pre_restore p = do
  r ← ask (remove_file (pre_restore_path p))
  require could_not_delete (is_removed r)

-- `if let Err(e) = sync_backup_to_current(path)`
unfoldable pub after_refresh : FileName → Result StorageError (Unit {0}) → Storing (Unit {0})
unfolding remove_backup
after_refresh p (ok u) = return tt
after_refresh p (err e) = do ignored ← caught (remove_backup p); fail (copy_not_refreshed e)
after_refresh p panic = finished panic

unfoldable pub refresh_backup_after_credential_change : FileName → Storing (Unit {0})
unfolding sync_backup_to_current after_refresh
refresh_backup_after_credential_change p = do
  refreshed ← caught (sync_backup_to_current p)
  after_refresh p refreshed
