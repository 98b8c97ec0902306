-- ===== src/Tests/Vaults.antt =====
-- A save and a load of a vault file, from the body to the bytes on the disk and back.
use gabbro.Tests.Crypto.{toy, toy-IsSound, drawn, drawn-IsDrawn, passphrase}
use gabbro.Tests.Serialization.{serde, serde-IsSerde, blank}
use gabbro.Tests.Storage.{disk, path, disk-IsReady}
use gabbro.Tests.FileFormat.{vault, vault-IsWritable}
use gabbro.Tests.Keys.{keyed_vault, first_key, wrapping, master}
use gabbro.Tests.Crypto.{text}
use gabbro.Prelude.{◌≡◌, refl, ok, arith, some, none, [], ◌∷◌, ap, codes, replicate, subst, sym}
use gabbro.Files.{put, run, content_of, Disk, file}
use gabbro.Vaults.{Outside, load_vault, save_vault, load_vault_with_key_record, reseal_vault_file}
use gabbro.Bytes.{bytes_eq, to_be}
use gabbro.FileFormat.{from_bytes, alias_of, to_bytes}
use gabbro.Vaults.Saved.{held_alias, load_vault-save_vault, alias_parsed}
use gabbro.Serialization.{serialize_vault_body}
use gabbro.Vaults.Sized.{IsAlias}
use gabbro.Storage.Saved.{IsReady}
use gabbro.FileFormat.RoundTrip.{IsWritable, from_bytes-written}
use gabbro.Utf8.{is_utf8}
use gabbro.Vaults.Resealed.{load_vault_with_key_record-reseal_vault_file}
use gabbro.Crypto.Keys.{open_vault_with_key_record, seal_vault_with_keys}

abbrev outside : Outside
outside = record { ciphers = toy; serde = serde }

disk-IsAlias : IsAlias (held_alias (content_of (disk path)))
unfolding held_alias bytes_eq
disk-IsAlias =
    subst IsAlias (sym (ap alias_parsed (from_bytes-written vault vault-IsWritable))) (record {
      fits = vault-IsWritable.alias_fits;
      utf8 = vault-IsWritable.alias_utf8;
      set = vault-IsWritable.alias_set;
    })

load_vault-save_vault_example :
    ((run (save_vault outside drawn blank passphrase path) disk).0 ≡ ok tt)
    × ((run
          (load_vault outside passphrase path)
          (run (save_vault outside drawn blank passphrase path) disk).1).0
        ≡ ok blank)
    × (held_alias (content_of ((run (save_vault outside drawn blank passphrase path) disk).1 path))
        ≡ held_alias (content_of (disk path)))
unfolding held_alias from_bytes serialize_vault_body bytes_eq
load_vault-save_vault_example =
    load_vault-save_vault outside drawn blank passphrase path disk (0x7b ∷ 0x7d ∷ []) toy-IsSound
      serde-IsSerde drawn-IsDrawn disk-IsReady (omega arith) refl (omega arith) disk-IsAlias

abbrev keyed_disk : Disk
keyed_disk = put path (some (file (to_bytes keyed_vault))) (λ q. none)

keyed_disk-IsReady : IsReady path keyed_disk
unfolding bytes_eq
keyed_disk-IsReady = record {
  vault = record { no_link = refl; openable = refl; readable = refl };
  copy = record { no_link = refl; openable = refl; readable = refl };
  tmp = refl;
  copy_tmp = refl;
}

keyed_vault-IsWritable : IsWritable keyed_vault
unfolding seal_vault_with_keys to_bytes to_be is_utf8 alias_of
keyed_vault-IsWritable = record {
  oldest = omega arith;
  newest = omega arith;
  m_fits = omega arith;
  t_fits = omega arith;
  p_fits = omega arith;
  argon2_salt_length = refl;
  hkdf_salt_length = refl;
  nonce_length = refl;
  record_count = omega arith;
  records = (
    record { id_fits = omega arith; salt_length = refl; blob_fits = omega arith },
    (record { id_fits = omega arith; salt_length = refl; blob_fits = omega arith }, tt),
  );
  alias_fits = omega arith;
  alias_utf8 = refl;
  alias_set = refl;
  blob_fits = omega arith;
  body_fits = omega arith;
  file_fits = omega arith;
}

load_vault_with_key_record-reseal_vault_file_example :
    ((run (reseal_vault_file outside (replicate 12 9) blank master path) keyed_disk).0 ≡ ok tt)
    × ((run
          (load_vault_with_key_record outside passphrase first_key.hmac_secret (codes "first") path)
          (run (reseal_vault_file outside (replicate 12 9) blank master path) keyed_disk).1).0
        ≡ ok (blank, master, some wrapping))
unfolding serialize_vault_body bytes_eq open_vault_with_key_record seal_vault_with_keys to_be
load_vault_with_key_record-reseal_vault_file_example =
    load_vault_with_key_record-reseal_vault_file outside (replicate 12 9) passphrase
      first_key.hmac_secret (codes "first") path keyed_disk keyed_vault text (0x7b ∷ 0x7d ∷ [])
      wrapping master blank toy-IsSound serde-IsSerde keyed_disk-IsReady refl refl
      keyed_vault-IsWritable refl refl (omega arith)
