-- ===== src/Storage/Lifetime.antt =====
-- The file of a vault over calls of vault/io.rs in any order, each of which may be stopped.
use gabbro.Files.{Disk, FileName, Reached}
use gabbro.Storage.Whole.{
  IsWhole, remove_backup-IsWhole, restore_vault_backup-IsWhole, restore_vault_from_file-IsWhole,
  sync_backup-IsWhole,
}
use gabbro.FileFormat.RoundTrip.{IsWritable, from_bytes-written}
use gabbro.Files.Rules.{Keeps, Keeps-bind, Keeps-caught, Reached-Keeps, returns, fails}
use gabbro.Storage.Crash.{Restarted, Restarted-file}
use gabbro.Prelude.{Result, err, inl, inr, ok, panic, refl, ◌∙◌, ◌≢◌}
use gabbro.FileFormat.{SealedVault, to_bytes}
use gabbro.Storage.{
  StorageError, Storing, after_refresh, refresh_backup_after_credential_change, write_vault,
}
use gabbro.Storage.Restore.{restore_vault_backup, restore_vault_from_file}
use gabbro.Storage.Saving.{write_vault-IsSaving}

pub data StorageCall : Type 0 where
  save : SealedVault → StorageCall
  restore_backup refresh_backup : StorageCall
  restore_from : FileName → StorageCall

abbrev pub task_of : FileName → StorageCall → Storing (Unit {0})
task_of p (save sealed) = write_vault sealed p
task_of p restore_backup = restore_vault_backup p
task_of p refresh_backup = refresh_backup_after_credential_change p
task_of p (restore_from source) = restore_vault_from_file p source

-- Only vaults that the format can hold are saved.
abbrev pub IsSavable : StorageCall → Type 0
IsSavable (save sealed) = IsWritable sealed
IsSavable restore_backup = Unit
IsSavable refresh_backup = Unit
IsSavable (restore_from source) = Unit

-- The disks that the vault at the path lives through: a call stops where it likes, or ends, and the
-- machine starts again.
pub data Lifetime (p : FileName) (start : Disk) : Disk → Type 0 where
  fresh : Lifetime p start start
  stopped :
      {d now later : Disk} (c : StorageCall)
      → Lifetime p start d
      → IsSavable c
      → Reached now d (task_of p c)
      → Restarted now later
      → Lifetime p start later

after_refresh-IsWhole :
    (p : FileName) (r : Result StorageError (Unit {0})) (d : Disk)
    → r ≢ panic
    → IsWhole p d
    → Keeps (IsWhole p) (λ u d'. Unit {0}) d (after_refresh p r)
unfolding after_refresh
after_refresh-IsWhole p (ok u) d safe h = returns h tt
after_refresh-IsWhole p (err e) d safe h =
    Keeps-bind (Keeps-caught (remove_backup-IsWhole p d h)) (λ r d1 h1 q. fails h1)
after_refresh-IsWhole p panic d safe h = absurd (safe refl)

write_vault-IsWhole :
    (p : FileName) (sealed : SealedVault) (d now : Disk)
    → IsWritable sealed
    → IsWhole p d
    → Reached now d (write_vault sealed p)
    → IsWhole p now
write_vault-IsWhole p sealed d now fits h reached =
    let saving = Reached-Keeps reached (write_vault-IsSaving p (to_bytes sealed) d sealed refl) in
    elim saving.vault [
      | inl same ↦ record {
        bytes = h.bytes;
        vault = h.vault;
        in_file = same ∙ h.in_file;
        parsed = h.parsed;
      }
      | inr new ↦ record {
        bytes = to_bytes sealed;
        vault = sealed;
        in_file = new;
        parsed = from_bytes-written sealed fits;
      }
    ]

refresh-IsWhole :
    (p : FileName) (d : Disk)
    → IsWhole p d
    → Keeps (IsWhole p) (λ u d'. Unit {0}) d (refresh_backup_after_credential_change p)
unfolding refresh_backup_after_credential_change
refresh-IsWhole p d h =
    Keeps-bind (Keeps-caught (sync_backup-IsWhole p d h))
      (λ r d1 h1 safe. after_refresh-IsWhole p r d1 safe h1)

task_of-IsWhole :
    (p : FileName) (c : StorageCall) (d now : Disk)
    → IsSavable c
    → IsWhole p d
    → Reached now d (task_of p c)
    → IsWhole p now
task_of-IsWhole p (save sealed) d now fits h reached =
    write_vault-IsWhole p sealed d now fits h reached
task_of-IsWhole p restore_backup d now fits h reached =
    Reached-Keeps reached (restore_vault_backup-IsWhole p d h)
task_of-IsWhole p refresh_backup d now fits h reached =
    Reached-Keeps reached (refresh-IsWhole p d h)
task_of-IsWhole p (restore_from source) d now fits h reached =
    Reached-Keeps reached (restore_vault_from_file-IsWhole p source d h)

-- Saves of vaults that the format can hold, restores and refreshes of the copy, in any order, each
-- stopped anywhere or run to its end, with any calls of the system failing, leave a whole vault in a
-- file that had one.
pub Lifetime-IsWhole :
    (p : FileName) (start d : Disk) → Lifetime p start d → IsWhole p start → IsWhole p d
Lifetime-IsWhole p start d fresh h = h
Lifetime-IsWhole p start d (stopped {d = before} {now = now} c earlier savable reached again) h =
    let whole =
      task_of-IsWhole p c before now savable (Lifetime-IsWhole p start before earlier h) reached in
    record {
      bytes = whole.bytes;
      vault = whole.vault;
      in_file = Restarted-file now d p whole.bytes again whole.in_file;
      parsed = whole.parsed;
    }
