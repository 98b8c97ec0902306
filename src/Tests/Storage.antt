-- ===== src/Tests/Storage.antt =====
-- vault/io.rs on a concrete disk.
use gabbro.Files.{Disk, Ends, FileName, Reached, run, put, file}
use gabbro.Files.Runs.{Ends-Reached, run-Ends}
use gabbro.Storage.Crash.{HasVault, write_vault-crash}
use gabbro.Storage.Saved.{IsReady, read_vault-write_vault}
use gabbro.Storage.Whole.{IsWhole}
use gabbro.Storage.Lifetime.{Lifetime-IsWhole, stopped, save, fresh}
use gabbro.Storage.{bak_path, write_vault}
use gabbro.Bytes.{bytes_eq}
use gabbro.Prelude.{codes, inl, none, ok, refl, some, subst, ◌≡◌, ◌⊎◌}
use gabbro.FileFormat.RoundTrip.{from_bytes-written}
use gabbro.Tests.FileFormat.{other_vault, other_vault-IsWritable, vault-IsWritable, vault}
use gabbro.Storage.Restore.{read_vault_file}
use gabbro.FileFormat.{to_bytes}

abbrev pub path : FileName
path = codes "v.gabbro"

-- A vault file with its safety copy.
abbrev pub disk : Disk
disk =
    put path (some (file (to_bytes vault)))
      (put (bak_path path) (some (file (to_bytes vault))) (λ q. none))

in_file : HasVault path vault disk
unfolding bytes_eq
in_file = (to_bytes vault, refl, from_bytes-written vault vault-IsWritable)

in_copy : HasVault (bak_path path) vault disk
unfolding bytes_eq
in_copy = (to_bytes vault, refl, from_bytes-written vault vault-IsWritable)

-- What a save that goes well leaves.
abbrev saved_disk : Disk
saved_disk = (run (write_vault other_vault path) disk).1

saving : Reached saved_disk disk (write_vault other_vault path)
saving = Ends-Reached (run-Ends (write_vault other_vault path) disk)

write_vault-crash_example :
    (HasVault path vault saved_disk ⊎ HasVault path other_vault saved_disk)
    × (HasVault (bak_path path) vault saved_disk
        ⊎ (HasVault (bak_path path) vault saved_disk
            ⊎ HasVault (bak_path path) other_vault saved_disk))
write_vault-crash_example =
    write_vault-crash other_vault vault vault path disk saved_disk saved_disk other_vault-IsWritable
      in_file in_copy saving (λ q. inl refl)

pub disk-IsReady : IsReady path disk
unfolding bytes_eq
disk-IsReady = record {
  vault = record { no_link = refl; openable = refl; readable = refl };
  copy = record { no_link = refl; openable = refl; readable = refl };
  tmp = refl;
  copy_tmp = refl;
}

read_vault-write_vault_example :
    ((run (write_vault other_vault path) disk).0 ≡ ok tt)
    × ((run (read_vault_file path) saved_disk).0 ≡ ok other_vault)
read_vault-write_vault_example =
    read_vault-write_vault other_vault path disk other_vault-IsWritable disk-IsReady

whole_run : Ends saved_disk (ok tt) disk (write_vault other_vault path)
whole_run =
    subst (λ r. Ends saved_disk r disk (write_vault other_vault path))
      (read_vault-write_vault other_vault path disk other_vault-IsWritable disk-IsReady).0
      (run-Ends (write_vault other_vault path) disk)

disk-IsWhole : IsWhole path disk
disk-IsWhole = record { bytes = in_file.0; vault = vault; in_file = in_file.1; parsed = in_file.2 }

Lifetime-IsWhole_example : IsWhole path saved_disk
Lifetime-IsWhole_example =
    Lifetime-IsWhole path disk saved_disk
      (stopped (save other_vault) fresh other_vault-IsWritable saving (λ q. inl refl)) disk-IsWhole
