-- ===== src/Storage/Restore.antt =====
-- vault/io.rs: reading a vault file, and putting its safety copy or another file in its place.
use gabbro.Prelude.{
  Bool, List, Option, Result, err, false, if◌then◌else◌, none, not, ok, panic, some, true,
}
use gabbro.Bytes.{Bytes}
use gabbro.Files.{
  FileName, FileType, is_dir, is_file, is_symlink, map_error, read_file, symlink_metadata, return,
  caught, ask, ◌>>=◌,
}
use gabbro.FileFormat.{SealedVault, YubiKeyRecord, from_bytes, is_format_too_new, is_format_too_old}
use gabbro.Storage.{
  Storing, atomic_write_0600, bak_path, check_not_symlink, is_some, keeping_failed,
  pre_restore_path, read_or, sync_backup_to_current, could_not_read_backup, could_not_read_vault,
  could_not_keep_old, could_not_read_source, require, lift, dest_taken,
}

abbrev pub is_file_type : Option FileType → Bool
is_file_type (some is_file) = true
is_file_type (some is_dir) = false
is_file_type (some is_symlink) = false
is_file_type none = false

abbrev pub is_ok : {E A : Type 0} → Result E A → Bool
is_ok (ok a) = true
is_ok (err e) = false
is_ok panic = false

unfoldable pub backup_exists : FileName → Storing Bool
backup_exists p = do seen ← ask (symlink_metadata (bak_path p)); return (is_file_type seen)

-- Whether a read gave a vault.
unfoldable pub parses : Option Bytes → Storing Bool
unfolding from_bytes
parses none = return false
parses (some bytes) = do v ← caught (lift (from_bytes bytes)); return (is_ok v)

unfoldable pub backup_usable : FileName → Storing Bool
unfolding check_not_symlink parses
backup_usable p = do
  safe ← caught (check_not_symlink (bak_path p))
  if is_ok safe then (do content ← ask (read_file (bak_path p)); parses content) else return false

unfoldable pub restore_vault_backup : FileName → Storing (Unit {0})
unfolding check_not_symlink read_or from_bytes atomic_write_0600
restore_vault_backup p = do
  u ← check_not_symlink p
  u ← check_not_symlink (bak_path p)
  bytes ← read_or could_not_read_backup (bak_path p)
  v ← lift (from_bytes bytes)
  atomic_write_0600 p bytes

-- The best copy of the vault at the path, if there is one.
unfoldable pub old_copy : FileName → Bool → Option FileType → Storing (Option Bytes)
unfolding read_or
old_copy p true seen = do bytes ← read_or could_not_keep_old (bak_path p); return (some bytes)
old_copy p false none = return none
old_copy p false (some t) = do bytes ← read_or could_not_keep_old p; return (some bytes)

unfoldable pub keep_copy : FileName → Option Bytes → Storing (Unit {0})
unfolding atomic_write_0600
keep_copy p none = return tt
keep_copy p (some bytes) = atomic_write_0600 (pre_restore_path p) bytes

-- `fs::symlink_metadata(path)` is called where the safety copy is of no use.
unfoldable pub seen_unless : Bool → FileName → Storing (Option FileType)
seen_unless true p = return none
seen_unless false p = ask (symlink_metadata p)

unfoldable pub preserve_pre_restore : FileName → Storing (Unit {0})
unfolding check_not_symlink backup_usable seen_unless old_copy keep_copy
preserve_pre_restore p = map_error keeping_failed (do
  u ← check_not_symlink (pre_restore_path p)
  usable ← backup_usable p
  seen ← seen_unless usable p
  bytes ← old_copy p usable seen
  keep_copy p bytes)

unfoldable pub restore_vault_from_file : FileName → FileName → Storing (Unit {0})
unfolding check_not_symlink read_or from_bytes preserve_pre_restore atomic_write_0600
    sync_backup_to_current
restore_vault_from_file p source = do
  u ← check_not_symlink p
  u ← check_not_symlink source
  bytes ← read_or could_not_read_source source
  v ← lift (from_bytes bytes)
  u ← preserve_pre_restore p
  u ← atomic_write_0600 p bytes
  sync_backup_to_current p

unfoldable pub adopt_vault_file : FileName → FileName → Storing (Unit {0})
unfolding check_not_symlink read_or from_bytes atomic_write_0600 sync_backup_to_current
adopt_vault_file source dest = do
  u ← check_not_symlink source
  seen ← ask (symlink_metadata dest)
  u ← require dest_taken (not (is_some seen))
  bytes ← read_or could_not_read_source source
  v ← lift (from_bytes bytes)
  u ← atomic_write_0600 dest bytes
  sync_backup_to_current dest

-- `read_vault`
unfoldable pub read_vault_file : FileName → Storing SealedVault
unfolding check_not_symlink read_or from_bytes
read_vault_file p = do
  u ← check_not_symlink p
  bytes ← read_or could_not_read_vault p
  lift (from_bytes bytes)

unfoldable pub vault_format_too_old : FileName → Storing Bool
unfolding check_not_symlink read_or is_format_too_old
vault_format_too_old p = do
  u ← check_not_symlink p
  bytes ← read_or could_not_read_vault p
  lift (is_format_too_old bytes)

unfoldable pub vault_format_too_new : FileName → Storing Bool
unfolding check_not_symlink read_or is_format_too_new
vault_format_too_new p = do
  u ← check_not_symlink p
  bytes ← read_or could_not_read_vault p
  lift (is_format_too_new bytes)

pub record VaultHeader : Type 0 where
  pub alias : Option Bytes
  pub yubikey_records : List YubiKeyRecord

unfoldable pub read_vault_header : FileName → Storing VaultHeader
unfolding read_vault_file
read_vault_header p = do
  sealed ← read_vault_file p
  return (record { alias = sealed.alias; yubikey_records = sealed.yubikey_records })
