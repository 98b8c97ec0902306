-- ===== src/FileFormat.antt =====
-- vault/file_format.rs: the `.gabbro` vault file, its header, and how it is written and read back.
-- Byte strings are lists of numbers; the alias, a Rust `String`, is its UTF-8 bytes.
pub mod RoundTrip
pub mod Aad
pub mod Versions
pub mod Panics
pub mod Sizes
use gabbro.Prelude.{
  ℕ, zero, suc, ◌+◌, ◌%◌, ◌^◌, Bool, Option, none, some, List, [], ◌∷◌, ◌++◌, Result, ok, err,
  map_ok, length, take, get_or, ltb, leb, if◌then◌else◌,
}
use gabbro.Bytes.{Bytes, to_be, bytes_eq, prefixed}
use gabbro.Utf8.{is_utf8}
use gabbro.Cursor.{
  Cursor, Reader, start, usize_mod, pure, fail, ◌>>=◌, ◌>>◌, need, slice, read, read_word, guard,
  read_byte, slice_word, read_prefixed,
}

-- b"GABBRO"
abbrev pub magic : Bytes
magic = 0x47 ∷ 0x41 ∷ 0x42 ∷ 0x42 ∷ 0x52 ∷ 0x4f ∷ []

abbrev pub version : ℕ
version = 12

abbrev pub version_min_readable : ℕ
version_min_readable = 11

-- `Argon2idParams` of crypto/kdf.rs
pub record Argon2idParams : Type 0 where
  pub m_cost : ℕ
  pub t_cost : ℕ
  pub p_cost : ℕ

pub record YubiKeyRecord : Type 0 where
  pub credential_id : Bytes
  pub salt : Bytes
  pub key_blob : Bytes

pub record SealedVault : Type 0 where
  pub version_byte : ℕ
  pub params : Argon2idParams
  pub argon2_salt : Bytes
  pub hkdf_salt : Bytes
  pub nonce : Bytes
  pub ciphertext : Bytes
  pub yubikey_records : List YubiKeyRecord
  pub alias : Option Bytes
  pub passphrase_blob : Bytes

-- The fields that "File truncated at …" names.
pub data Field : Type 0 where
  version_byte argon2_params argon2_salt hkdf_salt nonce : Field
  yubikey_record_count credential_id_length credential_id yubikey_salt : Field
  key_blob_length key_blob alias_length alias_bytes : Field
  passphrase_blob_length passphrase_blob body_length body : Field

-- The error texts.
pub data FormatError : Type 0 where
  too_short not_gabbro invalid_utf8 : FormatError
  truncated : Field → FormatError
  newer_version unsupported_version : ℕ → FormatError

unfoldable pub record_bytes : YubiKeyRecord → Bytes
unfolding prefixed
record_bytes r = prefixed 2 r.credential_id ++ (r.salt ++ prefixed 2 r.key_blob)

unfoldable pub records_bytes : List YubiKeyRecord → Bytes
unfolding record_bytes
records_bytes [] = []
records_bytes (r ∷ rs) = record_bytes r ++ records_bytes rs

unfoldable pub params_bytes : Argon2idParams → Bytes
params_bytes p = to_be 4 p.m_cost ++ (to_be 4 p.t_cost ++ to_be 4 p.p_cost)

-- `alias.as_deref().unwrap_or("")`
unfoldable pub alias_text : Option Bytes → Bytes
alias_text none = []
alias_text (some text) = text

-- The nonce and the body are left out.
unfoldable pub header_aad : SealedVault → Bytes
unfolding params_bytes records_bytes alias_text prefixed
header_aad v =
    magic
    ++ (v.version_byte ∷ []
        ++ (params_bytes v.params
            ++ (v.argon2_salt
                ++ (v.hkdf_salt
                    ++ ((length v.yubikey_records % 256) ∷ []
                        ++ (records_bytes v.yubikey_records
                            ++ (prefixed 2 (alias_text v.alias)
                                ++ prefixed 2 v.passphrase_blob)))))))

unfoldable pub to_bytes : SealedVault → Bytes
unfolding params_bytes records_bytes alias_text prefixed
to_bytes v =
    magic
    ++ (v.version_byte ∷ []
        ++ (params_bytes v.params
            ++ (v.argon2_salt
                ++ (v.hkdf_salt
                    ++ (v.nonce
                        ++ ((length v.yubikey_records % 256) ∷ []
                            ++ (records_bytes v.yubikey_records
                                ++ (prefixed 2 (alias_text v.alias)
                                    ++ (prefixed 2 v.passphrase_blob
                                        ++ prefixed 8 v.ciphertext)))))))))

unfoldable pub read_version : Reader FormatError ℕ
read_version = do
  v ← read_byte (truncated Field.version_byte)
  guard (leb v version) (newer_version v)
  guard (leb version_min_readable v) (unsupported_version v)
  pure v

unfoldable pub read_params : Reader FormatError Argon2idParams
read_params = do
  need (truncated argon2_params) 12
  m ← slice_word 4
  t ← slice_word 4
  p ← slice_word 4
  pure (record { m_cost = m; t_cost = t; p_cost = p })

unfoldable pub read_record : Reader FormatError YubiKeyRecord
read_record = do
  id ← read_prefixed (truncated credential_id_length) (truncated Field.credential_id) 2
  yk_salt ← read (truncated yubikey_salt) 32
  blob ← read_prefixed (truncated key_blob_length) (truncated Field.key_blob) 2
  pure (record { credential_id = id; salt = yk_salt; key_blob = blob })

-- `for _ in 0..yubikey_count`
unfoldable pub read_records : ℕ → Reader FormatError (List YubiKeyRecord)
unfolding read_record
read_records zero = pure []
read_records (suc n) = do r ← read_record; rs ← read_records n; pure (r ∷ rs)

-- An empty alias encodes None.
unfoldable pub alias_of : Bytes → Option Bytes
alias_of [] = none
alias_of (b ∷ bs) = some (b ∷ bs)

unfoldable pub read_alias : Reader FormatError (Option Bytes)
unfolding alias_of
read_alias = do
  text ← read_prefixed (truncated alias_length) (truncated alias_bytes) 2
  guard (is_utf8 text) invalid_utf8
  pure (alias_of text)

unfoldable pub read_passphrase_blob : Reader FormatError Bytes
read_passphrase_blob =
    read_prefixed (truncated passphrase_blob_length) (truncated Field.passphrase_blob) 2

-- `pos.checked_add(body_len)` and the check of the end against `data.len()`
body_fits : ℕ → Reader FormatError (Unit {0})
body_fits n c =
    if leb usize_mod (c.pos + n)
    then err (truncated body)
    else if ltb (length c.rest) n
    then err (truncated body)
    else ok (tt, c)

read_body : Reader FormatError Bytes
unfolding body_fits
read_body = do n ← read_word (truncated body_length) 8; body_fits n; slice n

read_vault : Reader FormatError SealedVault
unfolding read_version read_params read_records read_alias read_passphrase_blob read_body
read_vault = do
  identity ← read too_short 6
  guard (bytes_eq identity magic) not_gabbro
  v ← read_version
  p ← read_params
  a_salt ← read (truncated Field.argon2_salt) 32
  h_salt ← read (truncated Field.hkdf_salt) 32
  iv ← read (truncated Field.nonce) 12
  count ← read_byte (truncated yubikey_record_count)
  records ← read_records count
  name ← read_alias
  blob ← read_passphrase_blob
  sealed_body ← read_body
  pure (record {
    version_byte = v;
    params = p;
    argon2_salt = a_salt;
    hkdf_salt = h_salt;
    nonce = iv;
    ciphertext = sealed_body;
    yubikey_records = records;
    alias = name;
    passphrase_blob = blob;
  })

unfoldable pub from_bytes : Bytes → Result FormatError SealedVault
unfolding read_vault
from_bytes bytes = map_ok (λ r. r.0) (read_vault (start bytes))

unfoldable pub peek_version : Bytes → Result FormatError ℕ
peek_version bytes =
    if ltb (length bytes) 7
    then err too_short
    else if bytes_eq (take 6 bytes) magic
    then ok (get_or bytes 6 0)
    else err not_gabbro

unfoldable pub is_format_too_old : Bytes → Result FormatError Bool
unfolding peek_version
is_format_too_old bytes = map_ok (λ v. ltb v version_min_readable) (peek_version bytes)

unfoldable pub is_format_too_new : Bytes → Result FormatError Bool
unfolding peek_version
is_format_too_new bytes = map_ok (λ v. ltb version v) (peek_version bytes)
