-- ===== src/Vaults.antt =====
-- The vault calls of api/vault.rs: a body is serialized (Serialization), sealed (Crypto) and written
-- (Storage), and the other way round. The bytes that are drawn are arguments; `Outside` is the code of
-- other crates.
pub mod Session
pub mod Sized
pub mod Saved
pub mod Resealed
use gabbro.Prelude.{Option, none, some, List, [], Result, ok, err, panic}
use gabbro.Bytes.{Bytes}
use gabbro.Files.{FileName, Task, ◌>>=◌, return, fail, finished, caught, map_error}
use gabbro.FileFormat.{SealedVault, to_bytes}
use gabbro.Storage.{StorageError, write_vault, atomic_write_0600, read_or, could_not_read_source}
use gabbro.Storage.Restore.{read_vault_file}
use gabbro.Crypto.{Primitives, CryptoError}
use gabbro.Crypto.Sealing.{SealRandom, seal_vault, open_vault, reseal_vault_body}
use gabbro.Crypto.Keys.{
  KeysRandom, YubiKeyRegistration, seal_vault_with_keys, open_vault_with_key_record,
  add_key_to_sealed, remove_key_from_sealed, change_vault_passphrase_with_keys,
}
use gabbro.Serialization.{Serde, SerdeError, serialize_vault_body, deserialize_vault_body}
use gabbro.Session.{VaultBody}

pub record Outside : Type 0 where
  pub ciphers : Primitives
  pub serde : Serde

pub data VaultError : Type 0 where
  in_storage : StorageError → VaultError
  in_crypto : CryptoError → VaultError
  in_body : SerdeError → VaultError
  vault_locked not_a_key_vault no_wrapping_key hmac_size salt_size : VaultError

abbrev pub Vaulting : Type 0 → Type 0
Vaulting A = Task VaultError A

abbrev pub stored : {A : Type 0} → Task StorageError A → Vaulting A
stored t = map_error in_storage t

-- `?` on a result of another part
abbrev pub lifted : {E A : Type 0} → (E → VaultError) → Result E A → Vaulting A
lifted f (ok a) = return a
lifted f (err e) = fail (f e)
lifted f panic = finished panic

abbrev pub alias_read : Result StorageError SealedVault → Option Bytes
alias_read (ok v) = v.alias
alias_read (err e) = none
alias_read panic = none

-- `read_vault(path).ok().and_then(|v| v.alias)`
unfoldable pub existing_alias : FileName → Vaulting (Option Bytes)
unfolding read_vault_file
existing_alias path = do r ← caught (read_vault_file path); return (alias_read r)

module _ (o : Outside) where
  unfoldable pub build_passphrase_only_bytes : SealRandom → VaultBody → Bytes → Vaulting Bytes
  unfolding serialize_vault_body seal_vault to_bytes
  build_passphrase_only_bytes r body passphrase = do
    plaintext ← lifted in_body (serialize_vault_body o.serde body)
    sealed ← lifted in_crypto (seal_vault o.ciphers r passphrase plaintext none)
    return (to_bytes sealed)

  unfoldable pub save_vault : SealRandom → VaultBody → Bytes → FileName → Vaulting (Unit {0})
  unfolding existing_alias serialize_vault_body seal_vault write_vault
  save_vault r body passphrase path = do
    name ← existing_alias path
    plaintext ← lifted in_body (serialize_vault_body o.serde body)
    sealed ← lifted in_crypto (seal_vault o.ciphers r passphrase plaintext name)
    stored (write_vault sealed path)

  unfoldable pub load_vault : Bytes → FileName → Vaulting VaultBody
  unfolding read_vault_file open_vault deserialize_vault_body
  load_vault passphrase path = do
    sealed ← stored (read_vault_file path)
    plaintext ← lifted in_crypto (open_vault o.ciphers passphrase sealed)
    lifted in_body (deserialize_vault_body o.serde plaintext)

  unfoldable pub save_vault_with_keys :
      KeysRandom → VaultBody → Bytes → List YubiKeyRegistration → FileName → Vaulting (Unit {0})
  unfolding existing_alias serialize_vault_body seal_vault_with_keys write_vault
  save_vault_with_keys r body passphrase keys path = do
    name ← existing_alias path
    plaintext ← lifted in_body (serialize_vault_body o.serde body)
    sealed ← lifted in_crypto (seal_vault_with_keys o.ciphers r passphrase keys plaintext name)
    stored (write_vault sealed path)

  unfoldable pub load_vault_with_key_record :
      Bytes → Bytes → Bytes → FileName → Vaulting (VaultBody × Bytes × Option Bytes)
  unfolding read_vault_file open_vault_with_key_record deserialize_vault_body
  load_vault_with_key_record passphrase hmac_secret credential path = do
    sealed ← stored (read_vault_file path)
    opened ←
        lifted in_crypto
          (open_vault_with_key_record o.ciphers passphrase hmac_secret credential sealed)
    body ← lifted in_body (deserialize_vault_body o.serde opened.0)
    return (body, opened.1, opened.2)

  -- The end of each call that changes a header: the body is sealed under it again, and written.
  unfoldable pub reseal_and_write :
      Bytes → SealedVault → Bytes → Bytes → FileName → Vaulting (Unit {0})
  unfolding reseal_vault_body write_vault
  reseal_and_write iv v master plaintext path = do
    sealed ← lifted in_crypto (reseal_vault_body o.ciphers iv v master plaintext)
    stored (write_vault sealed path)

  unfoldable pub add_yubikey_to_vault :
      Bytes → Bytes → Bytes → Bytes → Bytes → YubiKeyRegistration → FileName → Vaulting (Unit {0})
  unfolding read_vault_file add_key_to_sealed reseal_and_write
  add_yubikey_to_vault blob_nonce iv plaintext wrapping master k path = do
    sealed ← stored (read_vault_file path)
    added ← lifted in_crypto (add_key_to_sealed o.ciphers blob_nonce sealed k wrapping master)
    reseal_and_write iv added master plaintext path

  unfoldable pub remove_yubikey_from_vault :
      Bytes → Bytes → Bytes → Bytes → FileName → Vaulting (Unit {0})
  unfolding read_vault_file remove_key_from_sealed reseal_and_write
  remove_yubikey_from_vault iv plaintext master credential path = do
    sealed ← stored (read_vault_file path)
    rest ← lifted in_crypto (remove_key_from_sealed sealed credential)
    reseal_and_write iv rest master plaintext path

  -- `reseal_vault_body` of api/vault.rs
  unfoldable pub reseal_vault_file : Bytes → VaultBody → Bytes → FileName → Vaulting (Unit {0})
  unfolding read_vault_file serialize_vault_body reseal_and_write
  reseal_vault_file iv body master path = do
    sealed ← stored (read_vault_file path)
    plaintext ← lifted in_body (serialize_vault_body o.serde body)
    reseal_and_write iv sealed master plaintext path

  unfoldable pub change_passphrase_with_keys :
      SealRandom → Bytes → Bytes → Bytes → Bytes → Bytes → FileName → Vaulting (Unit {0})
  unfolding read_vault_file change_vault_passphrase_with_keys reseal_and_write
  change_passphrase_with_keys fresh iv old_passphrase new_passphrase master plaintext path = do
    sealed ← stored (read_vault_file path)
    changed ←
        lifted in_crypto
          (change_vault_passphrase_with_keys o.ciphers fresh sealed old_passphrase new_passphrase)
    reseal_and_write iv changed master plaintext path

  unfoldable pub change_passphrase : SealRandom → FileName → Bytes → Bytes → Vaulting (Unit {0})
  unfolding load_vault save_vault
  change_passphrase r path old_passphrase new_passphrase = do
    body ← load_vault old_passphrase path
    save_vault r body new_passphrase path
