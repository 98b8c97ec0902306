-- ===== src/Tests/FileFormat.antt =====
-- vault/file_format.rs at concrete files.
use gabbro.Prelude.{
  ok, replicate, [], arith, err, panic, refl, some, true, ℕ, ◌++◌, ◌↔◌, ◌∷◌, ◌≡◌, ◌≢◌, ◌≤◌,
}
use gabbro.FileFormat.RoundTrip.{IsWritable, from_bytes-to_bytes}
use gabbro.FileFormat.{
  SealedVault, YubiKeyRecord, from_bytes, header_aad, is_format_too_new, to_bytes,
  version_min_readable, magic, version, truncated, body, alias_of,
}
use gabbro.Bytes.{bytes_eq, from_be, to_be}
use gabbro.FileFormat.Panics.{from_bytes-ne-panic}
use gabbro.FileFormat.Aad.{header_aad_iff, authenticated}
use gabbro.Utf8.{is_utf8}
use gabbro.Cursor.{read_byte, read_prefixed, read_word, slice_word, ◌>>=◌, guard}

-- One YubiKey, and the alias "é".
abbrev key : YubiKeyRecord
key = record { credential_id = 1 ∷ 2 ∷ 3 ∷ []; salt = replicate 32 7; key_blob = 9 ∷ [] }

abbrev vault_with : ℕ → ℕ → SealedVault
vault_with format nonce_byte = record {
  version_byte = format;
  params = record { m_cost = 65536; t_cost = 3; p_cost = 4 };
  argon2_salt = replicate 32 1;
  hkdf_salt = replicate 32 2;
  nonce = replicate 12 nonce_byte;
  ciphertext = 5 ∷ 6 ∷ [];
  yubikey_records = key ∷ [];
  alias = some (0xc3 ∷ 0xa9 ∷ []);
  passphrase_blob = 8 ∷ [];
}

vault_with-IsWritable :
    (format nonce_byte : ℕ)
    → version_min_readable ≤ format
    → format ≤ version
    → IsWritable (vault_with format nonce_byte)
unfolding to_bytes to_be is_utf8 alias_of
vault_with-IsWritable format nonce_byte old new = record {
  oldest = old;
  newest = new;
  m_fits = omega arith;
  t_fits = omega arith;
  p_fits = omega arith;
  argon2_salt_length = refl;
  hkdf_salt_length = refl;
  nonce_length = refl;
  record_count = omega arith;
  records = (record { id_fits = omega arith; salt_length = refl; blob_fits = omega arith }, tt);
  alias_fits = omega arith;
  alias_utf8 = refl;
  alias_set = refl;
  blob_fits = omega arith;
  body_fits = omega arith;
  file_fits = omega arith;
}

abbrev pub vault : SealedVault
vault = vault_with 12 3

pub vault-IsWritable : IsWritable vault
vault-IsWritable = vault_with-IsWritable 12 3 (omega arith) (omega arith)

abbrev pub other_vault : SealedVault
other_vault = vault_with 11 4

pub other_vault-IsWritable : IsWritable other_vault
other_vault-IsWritable = vault_with-IsWritable 11 4 (omega arith) (omega arith)

from_bytes-to_bytes_example : from_bytes (to_bytes vault ++ 1 ∷ 2 ∷ []) ≡ ok vault
from_bytes-to_bytes_example = from_bytes-to_bytes vault (1 ∷ 2 ∷ []) vault-IsWritable

from_bytes-ne-panic_example : from_bytes (magic ++ 12 ∷ 0 ∷ []) ≢ panic
from_bytes-ne-panic_example = from_bytes-ne-panic (magic ++ 12 ∷ 0 ∷ [])

too_new_run : is_format_too_new (magic ++ 13 ∷ []) ≡ ok true
unfolding is_format_too_new bytes_eq
too_new_run = refl

header_aad_iff_example :
    (header_aad vault ≡ header_aad other_vault) ↔ (authenticated vault ≡ authenticated other_vault)
header_aad_iff_example = header_aad_iff vault other_vault vault-IsWritable other_vault-IsWritable

-- A body length near 2^64 is refused, not sliced.
huge_body_run :
    from_bytes
      (magic ++ (12 ∷ replicate 12 0 ++ replicate 76 0 ++ replicate 5 0 ++ replicate 8 255))
    ≡ err (truncated body)
unfolding from_bytes ◌>>=◌ guard read_byte read_word read_prefixed slice_word from_be bytes_eq
    is_utf8
huge_body_run = refl
