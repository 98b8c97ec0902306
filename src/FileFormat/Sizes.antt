-- ===== src/FileFormat/Sizes.antt =====
-- The size of a header.
use gabbro.Prelude.{
  ℕ, ◌+◌, ◌%◌, ◌≡◌, [], ◌∷◌, ◌++◌, arith, length, length-append, All, List, ◌*◌, ◌^◌, ◌≤◌,
}
use gabbro.Bytes.{Bytes, prefixed}
use gabbro.Bytes.Words.{length-to_be, length-prefixed}
use gabbro.FileFormat.{
  Argon2idParams, SealedVault, magic, params_bytes, records_bytes, alias_text, header_aad, to_bytes,
  YubiKeyRecord, record_bytes,
}
use gabbro.FileFormat.RoundTrip.{IsWritable, IsWritableRecord}

length-params_bytes : (costs : Argon2idParams) → length (params_bytes costs) ≡ 12
unfolding params_bytes
length-params_bytes costs = omega (arith, length-append {0}, length-to_be)

-- The part of a header behind its salts.
length-tail :
    (n : ℕ) (records text blob : Bytes)
    → length (n ∷ [] ++ (records ++ (prefixed 2 text ++ prefixed 2 blob)))
      ≡ 5 + length records + length text + length blob
length-tail n records text blob = omega (
  arith,
  length-append records (prefixed 2 text ++ prefixed 2 blob),
  length-append (prefixed 2 text) (prefixed 2 blob),
  length-prefixed 2 text,
  length-prefixed 2 blob,
)

length-front :
    (costs : Argon2idParams) (n : ℕ) (a_salt h_salt tail : Bytes)
    → length (magic ++ (n ∷ [] ++ (params_bytes costs ++ (a_salt ++ (h_salt ++ tail)))))
      ≡ 19 + length a_salt + length h_salt + length tail
length-front costs n a_salt h_salt tail = omega (
  arith,
  length-append (params_bytes costs) (a_salt ++ (h_salt ++ tail)),
  length-append a_salt (h_salt ++ tail),
  length-append h_salt tail,
  length-params_bytes costs,
)

pub length-header_aad :
    (v : SealedVault)
    → length (header_aad v)
      ≡ 24
        + length v.argon2_salt
        + length v.hkdf_salt
        + length (records_bytes v.yubikey_records)
        + length (alias_text v.alias)
        + length v.passphrase_blob
unfolding header_aad
length-header_aad v =
    let count = length v.yubikey_records % 256 in
    omega (
      arith,
      length-front v.params v.version_byte v.argon2_salt v.hkdf_salt (
          count ∷ []
          ++ (records_bytes v.yubikey_records
              ++ (prefixed 2 (alias_text v.alias) ++ prefixed 2 v.passphrase_blob))),
      length-tail count (records_bytes v.yubikey_records) (alias_text v.alias) v.passphrase_blob,
    )

-- A file is its header with the nonce, the length of the body and the body.
pub length-to_bytes :
    (v : SealedVault)
    → length (to_bytes v) ≡ 8 + length (header_aad v) + length v.nonce + length v.ciphertext
unfolding to_bytes
length-to_bytes v =
    let count = length v.yubikey_records % 256 in
    let records = records_bytes v.yubikey_records in
    let text = alias_text v.alias in
    let blobs = prefixed 2 v.passphrase_blob ++ prefixed 8 v.ciphertext in
    let tail = prefixed 2 text ++ blobs in
    omega (
      arith,
      length-header_aad v,
      length-front v.params v.version_byte v.argon2_salt v.hkdf_salt
          (v.nonce ++ (count ∷ [] ++ (records ++ tail))),
      length-append v.nonce (count ∷ [] ++ (records ++ tail)),
      length-append records tail,
      length-append (prefixed 2 text) blobs,
      length-append (prefixed 2 v.passphrase_blob) (prefixed 8 v.ciphertext),
      length-prefixed 2 text,
      length-prefixed 2 v.passphrase_blob,
      length-prefixed 8 v.ciphertext,
    )

length-record_bytes :
    (r : YubiKeyRecord)
    → length (record_bytes r) ≡ 4 + length r.credential_id + length r.salt + length r.key_blob
unfolding record_bytes
length-record_bytes r = omega (
  arith,
  length-append (prefixed 2 r.credential_id) (r.salt ++ prefixed 2 r.key_blob),
  length-append r.salt (prefixed 2 r.key_blob),
  length-prefixed 2 r.credential_id,
  length-prefixed 2 r.key_blob,
)

pub length-records_bytes :
    (rs : List YubiKeyRecord)
    → All IsWritableRecord rs
    → length (records_bytes rs) ≤ length rs * 2 ^ 18
unfolding records_bytes
length-records_bytes [] h = omega arith
length-records_bytes (r ∷ rs) h = omega (
  arith,
  h.0.id_fits,
  h.0.salt_length,
  h.0.blob_fits,
  length-record_bytes r,
  length-records_bytes rs h.1,
  length-append (record_bytes r) (records_bytes rs),
)

-- The header of a vault that can be written is data that the cipher takes.
pub header_aad_fits : (v : SealedVault) → IsWritable v → length (header_aad v) ≤ 2 ^ 36
header_aad_fits v h = omega (
  arith,
  length-header_aad v,
  length-records_bytes v.yubikey_records h.records,
  h.record_count,
  h.argon2_salt_length,
  h.hkdf_salt_length,
  h.alias_fits,
  h.blob_fits,
)
