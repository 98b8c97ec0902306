-- ===== src/Crypto/Keys.antt =====
-- crypto/vault_crypto.rs: a vault with several YubiKeys. The passphrase opens `passphrase_blob` to the
-- wrapping key; with the output of a registered key that opens its `key_blob` to the master key,
-- under which the body is sealed.
pub mod Unlock
pub mod Changes
pub mod Histories
pub mod Creation
use gabbro.Prelude.{
  replicate, ℕ, suc, zero, Bool, true, false, not, Option, none, some, List, [], ◌∷◌, ◌++◌, Result,
  ok, err, panic, if◌then◌else◌, length, take, drop, leb, ltb, ◌==◌,
}
use gabbro.Prelude.Chains.{◌>>=◌, ◌>>◌, ok_or, ensure}
use gabbro.Bytes.{Bytes, bytes_eq}
use gabbro.FileFormat.{
  SealedVault, YubiKeyRecord, version, argon2_salt, hkdf_salt, key_blob, passphrase_blob,
  version_byte,
}
use gabbro.Crypto.{
  Primitives, CryptoError, default_params, combine_yubikey, encrypt, decrypt, no_record,
  legacy_single_key, wrong_passphrase_or_corrupted, wrapping_key_size, master_size,
  already_registered, record_not_found, last_key, not_multi_key, wrong_passphrase, too_few_keys,
  too_many_keys, bad_passphrase_blob, bad_key_blob,
}
use gabbro.Crypto.Sealing.{SealRandom, seal_body, open_body, passphrase_key}

pub record YubiKeyRegistration : Type 0 where
  pub credential_id : Bytes
  pub hmac_secret : Bytes
  pub salt : Bytes

-- The bytes that `seal_vault_with_keys` draws, the nonce of the n-th key by its place.
pub record KeysRandom : Type 0 where
  pub body : SealRandom
  pub wrapping_key : Bytes
  pub blob_nonce : Bytes
  pub vault_key_master : Bytes
  pub key_nonce : ℕ → Bytes

-- `map_err(|_| e)`
abbrev pub with_error {ℓ} : {A : Type ℓ} → CryptoError → Result CryptoError A → Result CryptoError A
with_error e (ok a) = ok a
with_error e (err _) = err e
with_error e panic = panic

abbrev pub is_none : Option YubiKeyRecord → Bool
is_none none = true
is_none (some r) = false

-- `iter().find(|r| r.credential_id == credential_id)`
unfoldable pub find_record : Bytes → List YubiKeyRecord → Option YubiKeyRecord
find_record id [] = none
find_record id (r ∷ rs) = if bytes_eq r.credential_id id then some r else find_record id rs

-- `remove` of the first record with the id
unfoldable pub without_record : Bytes → List YubiKeyRecord → List YubiKeyRecord
without_record id [] = []
without_record id (r ∷ rs) =
    let rest = without_record id rs in if bytes_eq r.credential_id id then rs else r ∷ rest

unfoldable pub remove_key_from_sealed : SealedVault → Bytes → Result CryptoError SealedVault
unfolding find_record without_record
remove_key_from_sealed v credential = do
  found ← ok_or record_not_found (find_record credential v.yubikey_records)
  ensure last_key (not (leb (length v.yubikey_records) 1))
  ok (record v { yubikey_records = without_record credential v.yubikey_records })

module _ (p : Primitives) where
  -- A key sealed under another: 12 bytes of nonce, then 48 of text and tag.
  unfoldable pub key_in_blob : Bytes → Bytes → Bytes → Result CryptoError Bytes
  unfolding encrypt
  key_in_blob under iv key = do sealed ← encrypt p under iv key; ok (iv ++ sealed)

  -- The blob's text, opened.
  unfoldable pub opened_blob : Bytes → Bytes → Result CryptoError Bytes
  unfolding decrypt
  opened_blob under blob = decrypt p under (drop 12 blob) (take 12 blob)

  unfoldable pub record_of :
      Bytes → Bytes → Bytes → YubiKeyRegistration → Result CryptoError YubiKeyRecord
  unfolding key_in_blob combine_yubikey
  record_of wrapping master iv k = do
    blob ← key_in_blob (combine_yubikey p wrapping k.hmac_secret k.salt) iv master
    ok (record { credential_id = k.credential_id; salt = k.salt; key_blob = blob })

  -- `keys.iter().map(…).collect::<Result<Vec<_>, String>>()`
  unfoldable pub records_of :
      Bytes
      → Bytes
      → (ℕ → Bytes)
      → List YubiKeyRegistration
      → Result CryptoError (List YubiKeyRecord)
  unfolding record_of
  records_of wrapping master iv [] = ok []
  records_of wrapping master iv (k ∷ ks) = do
    r ← record_of wrapping master (iv 0) k
    rs ← records_of wrapping master (λ n. iv (suc n)) ks
    ok (r ∷ rs)

  unfoldable pub seal_vault_with_keys :
      KeysRandom
      → Bytes
      → List YubiKeyRegistration
      → Bytes
      → Option Bytes
      → Result CryptoError SealedVault
  unfolding passphrase_key key_in_blob records_of seal_body
  seal_vault_with_keys r passphrase keys plaintext name = do
    ensure (too_few_keys (length keys)) (not (ltb (length keys) 2))
    intermediate ← passphrase_key p passphrase r.body.argon2_salt r.body.hkdf_salt default_params
    blob ← key_in_blob intermediate r.blob_nonce r.wrapping_key
    records ← records_of r.wrapping_key r.vault_key_master r.key_nonce keys
    let headed : SealedVault = record {
      version_byte = version;
      params = default_params;
      argon2_salt = r.body.argon2_salt;
      hkdf_salt = r.body.hkdf_salt;
      nonce = replicate 12 0;
      ciphertext = [];
      yubikey_records = records;
      alias = name;
      passphrase_blob = blob;
    }
    seal_body p headed r.vault_key_master r.body.nonce plaintext

  -- The wrapping key, from a blob whose length is checked; `failed` is the error where it is shut.
  unfoldable pub wrapping_key_of : CryptoError → Bytes → Bytes → Result CryptoError Bytes
  unfolding opened_blob
  wrapping_key_of failed intermediate blob = do
    bytes ← with_error failed (opened_blob intermediate blob)
    ensure wrapping_key_size (length bytes == 32)
    ok bytes

  unfoldable pub master_of : Bytes → Bytes → YubiKeyRecord → Result CryptoError Bytes
  unfolding opened_blob combine_yubikey
  master_of wrapping hmac_secret r = do
    ensure (bad_key_blob (length r.key_blob)) (length r.key_blob == 60)
    bytes ← opened_blob (combine_yubikey p wrapping hmac_secret r.salt) r.key_blob
    ensure master_size (length bytes == 32)
    ok bytes

  -- The two keys, the wrapping key first: `open_vault_with_key_record` up to the body.
  unfoldable pub unlock : Bytes → Bytes → Bytes → SealedVault → Result CryptoError (Bytes × Bytes)
  unfolding passphrase_key find_record wrapping_key_of master_of
  unlock passphrase hmac_secret credential v = do
    intermediate ← passphrase_key p passphrase v.argon2_salt v.hkdf_salt v.params
    r ← ok_or no_record (find_record credential v.yubikey_records)
    ensure legacy_single_key (not (length r.key_blob == 0))
    ensure (bad_passphrase_blob (length v.passphrase_blob)) (length v.passphrase_blob == 60)
    wrapping ← wrapping_key_of wrong_passphrase_or_corrupted intermediate v.passphrase_blob
    master ← master_of wrapping hmac_secret r
    ok (wrapping, master)

  unfoldable pub open_vault_with_key_record :
      Bytes → Bytes → Bytes → SealedVault → Result CryptoError (Bytes × Bytes × Option Bytes)
  unfolding unlock open_body
  open_vault_with_key_record passphrase hmac_secret credential v = do
    keys ← unlock passphrase hmac_secret credential v
    plaintext ← open_body p v keys.1
    ok (plaintext, keys.1, some keys.0)

  unfoldable pub add_key_to_sealed :
      Bytes → SealedVault → YubiKeyRegistration → Bytes → Bytes → Result CryptoError SealedVault
  unfolding record_of find_record
  add_key_to_sealed iv v k wrapping master = do
    ensure (too_many_keys (length v.yubikey_records)) (not (leb 4 (length v.yubikey_records)))
    ensure already_registered (is_none (find_record k.credential_id v.yubikey_records))
    r ← record_of wrapping master iv k
    ok (record v { yubikey_records = v.yubikey_records ++ (r ∷ []) })

  -- `fresh` holds the salts and, as its nonce, that of the new blob.
  unfoldable pub change_vault_passphrase_with_keys :
      SealRandom → SealedVault → Bytes → Bytes → Result CryptoError SealedVault
  unfolding passphrase_key wrapping_key_of key_in_blob
  change_vault_passphrase_with_keys fresh v old_passphrase new_passphrase = do
    old ← passphrase_key p old_passphrase v.argon2_salt v.hkdf_salt v.params
    ensure not_multi_key (length v.passphrase_blob == 60)
    wrapping ← wrapping_key_of wrong_passphrase old v.passphrase_blob
    new ← passphrase_key p new_passphrase fresh.argon2_salt fresh.hkdf_salt default_params
    blob ← key_in_blob new fresh.nonce wrapping
    ok (record v {
      version_byte = version;
      params = default_params;
      argon2_salt = fresh.argon2_salt;
      hkdf_salt = fresh.hkdf_salt;
      passphrase_blob = blob;
    })
