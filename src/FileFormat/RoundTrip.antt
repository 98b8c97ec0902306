-- ===== src/FileFormat/RoundTrip.antt =====
-- Reading back what `to_bytes` writes.
use native.Mathlib.Nat.{mod-eq_of_lt}
use gabbro.Prelude.{
  ℕ, ◌%◌, ◌^◌, ◌<◌, ◌≤◌, ◌≡◌, refl, true, Option, List, [], ◌∷◌, ◌++◌, ok, length, length-append,
  All, arith, subst, take-append, drop-append, append-nil,
}
use gabbro.Bytes.{Bytes, prefixed}
use gabbro.Bytes.Words.{length-to_be}
use gabbro.Bytes.Equal.{bytes_eq_refl}
use gabbro.Utf8.{is_utf8}
use gabbro.Cursor.{usize_mod, ◌>>=◌, ◌>>◌, slice}
use gabbro.Cursor.Laws.{
  Reads, Reads-pure, Reads-bind, Reads-read, Reads-read_word, Reads-slice_word, Reads-read_byte,
  Reads-guard, Reads-need, Reads-last, Reads-read_prefixed, Reads-bind_end,
}
use gabbro.FileFormat.{
  magic, version, version_min_readable, Argon2idParams, YubiKeyRecord, SealedVault, record_bytes,
  records_bytes, params_bytes, alias_text, alias_of, to_bytes, read_version, read_params,
  read_record, read_records, read_alias, body_fits, read_body, read_vault, from_bytes,
}

-- The widths that Rust's types enforce, and the bounds of the length prefixes.
pub record IsWritableRecord (r : YubiKeyRecord) : Type 0 where
  pub id_fits : length r.credential_id < 2 ^ 16
  pub salt_length : length r.salt ≡ 32
  pub blob_fits : length r.key_blob < 2 ^ 16

pub record IsWritable (v : SealedVault) : Type 0 where
  pub oldest : version_min_readable ≤ v.version_byte
  pub newest : v.version_byte ≤ version
  pub m_fits : v.params.m_cost < 2 ^ 32
  pub t_fits : v.params.t_cost < 2 ^ 32
  pub p_fits : v.params.p_cost < 2 ^ 32
  pub argon2_salt_length : length v.argon2_salt ≡ 32
  pub hkdf_salt_length : length v.hkdf_salt ≡ 32
  pub nonce_length : length v.nonce ≡ 12
  pub record_count : length v.yubikey_records < 256
  pub records : All IsWritableRecord v.yubikey_records
  pub alias_fits : length (alias_text v.alias) < 2 ^ 16
  pub alias_utf8 : is_utf8 (alias_text v.alias) ≡ true
  -- an alias that is set is not empty: `Some("")` would be read back as `None`
  pub alias_set : alias_of (alias_text v.alias) ≡ v.alias
  pub blob_fits : length v.passphrase_blob < 2 ^ 16
  pub body_fits : length v.ciphertext < 2 ^ 64
  pub file_fits : length (to_bytes v) < usize_mod

pub Reads-record : (r : YubiKeyRecord) → IsWritableRecord r → Reads read_record (record_bytes r) r
unfolding read_record record_bytes
Reads-record r h = Reads-bind _ (Reads-read_prefixed _ _ 2 r.credential_id h.id_fits) (
    Reads-bind _ (Reads-read _ r.salt h.salt_length)
      (Reads-last _ (Reads-read_prefixed _ _ 2 r.key_blob h.blob_fits)))

Reads-records :
    (rs : List YubiKeyRecord)
    → All IsWritableRecord rs
    → Reads (read_records (length rs)) (records_bytes rs) rs
unfolding read_records records_bytes
Reads-records [] h = Reads-pure []
Reads-records (r ∷ rs) h =
    Reads-bind _ (Reads-record r h.0) (Reads-last (◌∷◌ r) (Reads-records rs h.1))

pub Reads-params :
    (p : Argon2idParams)
    → p.m_cost < 2 ^ 32
    → p.t_cost < 2 ^ 32
    → p.p_cost < 2 ^ 32
    → Reads read_params (params_bytes p) p
unfolding read_params params_bytes
Reads-params p hm ht hp = Reads-need _ 12 (omega (arith, length-append {0}, length-to_be)) (
    Reads-bind _ (Reads-slice_word 4 p.m_cost hm) (
      Reads-bind _ (Reads-slice_word 4 p.t_cost ht)
        (Reads-last _ (Reads-slice_word 4 p.p_cost hp))))

pub Reads-version : (v : ℕ) → version_min_readable ≤ v → v ≤ version → Reads read_version (v ∷ []) v
unfolding read_version
Reads-version v old new = Reads-bind _ (Reads-read_byte _ v) (
    Reads-bind _ (Reads-guard _ (ground arith))
      (Reads-bind _ (Reads-guard _ (ground arith)) (Reads-pure v)))

pub Reads-alias :
    (name : Option Bytes)
    → length (alias_text name) < 2 ^ 16
    → is_utf8 (alias_text name) ≡ true
    → alias_of (alias_text name) ≡ name
    → Reads read_alias (prefixed 2 (alias_text name)) name
unfolding read_alias
Reads-alias name fits utf8 set = subst (Reads read_alias (prefixed 2 (alias_text name))) set (
    Reads-bind_end _ (Reads-read_prefixed _ _ 2 (alias_text name) fits)
      (Reads-bind _ (Reads-guard _ utf8) (Reads-pure (alias_of (alias_text name)))))

-- The count byte tells how many records follow.
pub Reads-counted :
    (rs : List YubiKeyRecord)
    → length rs < 256
    → All IsWritableRecord rs
    → Reads (read_records (length rs % 256)) (records_bytes rs) rs
Reads-counted rs few h = rw (mod-eq_of_lt few) (Reads-records rs h)

Reads-fitting_slice :
    (body : Bytes) → Reads (body_fits (length body) >> slice (length body)) body body
unfolding body_fits slice ◌>>=◌
Reads-fitting_slice body = record {
  at = λ pos rest fits. ground (
    arith,
    length-append body rest,
    take-append (length body) body rest refl,
    drop-append (length body) body rest refl,
  );
}

Reads-body : (body : Bytes) → length body < 2 ^ 64 → Reads read_body (prefixed 8 body) body
unfolding read_body prefixed
Reads-body body fits =
    rw (mod-eq_of_lt fits)
      (Reads-bind _ (Reads-read_word _ 8 (length body) fits) (Reads-fitting_slice body))

Reads-vault : (v : SealedVault) → IsWritable v → Reads read_vault (to_bytes v) v
unfolding read_vault to_bytes
Reads-vault v h = Reads-bind _ (Reads-read _ magic refl) (
    Reads-bind _ (Reads-guard _ (bytes_eq_refl magic)) (
      Reads-bind _ (Reads-version v.version_byte h.oldest h.newest) (
        Reads-bind _ (Reads-params v.params h.m_fits h.t_fits h.p_fits) (
          Reads-bind _ (Reads-read _ v.argon2_salt h.argon2_salt_length) (
            Reads-bind _ (Reads-read _ v.hkdf_salt h.hkdf_salt_length) (
              Reads-bind _ (Reads-read _ v.nonce h.nonce_length) (
                Reads-bind _ (Reads-read_byte _ (length v.yubikey_records % 256)) (
                  Reads-bind _ (Reads-counted v.yubikey_records h.record_count h.records) (
                    Reads-bind _ (Reads-alias v.alias h.alias_fits h.alias_utf8 h.alias_set) (
                      Reads-bind _ (Reads-read_prefixed _ _ 2 v.passphrase_blob h.blob_fits)
                        (Reads-last _ (Reads-body v.ciphertext h.body_fits))))))))))))

-- Reading a file that `to_bytes` wrote gives the vault back, whatever bytes follow in the file.
pub from_bytes-to_bytes :
    (v : SealedVault) (trailing : Bytes) → IsWritable v → from_bytes (to_bytes v ++ trailing) ≡ ok v
unfolding from_bytes
from_bytes-to_bytes v trailing h = rw ((Reads-vault v h).at 0 trailing (omega arith))

pub from_bytes-written : (v : SealedVault) → IsWritable v → from_bytes (to_bytes v) ≡ ok v
from_bytes-written v h =
    subst (λ x. from_bytes x ≡ ok v) (append-nil (to_bytes v)) (from_bytes-to_bytes v [] h)
