-- ===== src/Vaults/Session.antt =====
-- The calls of vault/session.rs that open a vault, and those that change its keys, its passphrase or
-- its alias. A call gives the session that it leaves; where it fails after the session was changed, the
-- error stands beside the session.
use gabbro.Prelude.{
  ℕ, Option, none, some, List, Result, ok, err, panic, String, length, ◌==◌, if◌then◌else◌, codes,
  map_ok,
}
use gabbro.Bytes.{Bytes}
use gabbro.Files.{FileName, ◌>>=◌, return, fail, finished, caught}
use gabbro.FileFormat.{alias_of}
use gabbro.Storage.{write_vault, refresh_backup_after_credential_change}
use gabbro.Storage.Restore.{read_vault_file}
use gabbro.Crypto.Sealing.{SealRandom, seal_vault, open_vault}
use gabbro.Crypto.Keys.{YubiKeyRegistration, open_vault_with_key_record}
use gabbro.Serialization.{serialize_vault_body, deserialize_vault_body}
use gabbro.Session.{VaultBody, VaultSession, YubikeyMaterial}
use gabbro.Entry.{VaultEntry}
use gabbro.Calendar.Purge.{purge_expired_history}
use gabbro.Vaults.{
  vault_locked, Outside, VaultError, Vaulting, stored, lifted, in_body, in_crypto, not_a_key_vault,
  no_wrapping_key, hmac_size, salt_size, save_vault, load_vault, load_vault_with_key_record,
  reseal_and_write, reseal_vault_file, add_yubikey_to_vault, remove_yubikey_from_vault,
  change_passphrase_with_keys,
}

-- A session keeps its path as the text that names the file.
module _ (o : Outside) where
  -- `do_save` of vault/session.rs, with the bytes that its branches draw
  unfoldable pub save_body :
      SealRandom → VaultBody → Bytes → FileName → Option Bytes → Vaulting (Unit {0})
  unfolding reseal_vault_file save_vault
  save_body r body passphrase path (some master) = reseal_vault_file o r.nonce body master path
  save_body r body passphrase path none = save_vault o r body passphrase path

  -- `purge_expired_history` on the given day; a slice out of range is a panic.
  unfoldable pub purged : ℕ → List VaultEntry → Vaulting (List VaultEntry)
  unfolding purge_expired_history
  purged today entries = elim (purge_expired_history today entries) [
    | none ↦ finished panic
    | some kept ↦ return kept
  ]

  -- The record that the unlocking calls store
  unfoldable pub session_of :
      VaultBody → List VaultEntry → String → Bytes → Option YubikeyMaterial → VaultSession
  session_of body kept path_text secret keys = record {
    folders = body.folders;
    entries = kept;
    path = path_text;
    passphrase = secret;
    yubikey = keys;
    yubikey_aliases = body.yubikey_aliases;
    deleted_ids = body.deleted_ids;
    pre_sync_backup = none;
  }

  unfoldable pub unlock_vault : ℕ → Bytes → String → Vaulting VaultSession
  unfolding load_vault purged session_of
  unlock_vault today passphrase path = do
    body ← load_vault o passphrase (codes path)
    kept ← purged today body.entries
    return (session_of body kept path passphrase none)

  unfoldable pub unlock_vault_with_key_record :
      ℕ → Bytes → Bytes → Bytes → String → Vaulting VaultSession
  unfolding load_vault_with_key_record purged session_of
  unlock_vault_with_key_record today passphrase hmac_secret credential path = do
    opened ← load_vault_with_key_record o passphrase hmac_secret credential (codes path)
    kept ← purged today opened.0.entries
    return (
        session_of opened.0 kept path passphrase
          (some (record { vault_key_master = opened.1; wrapping_key = opened.2 })))

  -- `session.as_ref().ok_or(…)?` and `ok_or(…)?`
  abbrev pub needed : {A : Type 0} → VaultError → Option A → Vaulting A
  needed e none = fail e
  needed e (some a) = return a

  abbrev pub sized : VaultError → Bytes → Vaulting (Unit {0})
  sized e bytes = if length bytes == 32 then return tt else fail e

  -- `body` is what `build_body` makes of the session at the call's time.
  unfoldable pub session_add_yubikey :
      Bytes
      → Bytes
      → Option VaultSession
      → (VaultSession → VaultBody)
      → YubiKeyRegistration
      → Vaulting (Unit {0})
  unfolding serialize_vault_body add_yubikey_to_vault refresh_backup_after_credential_change
  session_add_yubikey blob_nonce iv session body k = do
    s ← needed vault_locked session
    yk ← needed not_a_key_vault s.yubikey
    wrapping ← needed no_wrapping_key yk.wrapping_key
    u ← sized hmac_size k.hmac_secret
    u ← sized salt_size k.salt
    plaintext ← lifted in_body (serialize_vault_body o.serde (body s))
    u ← add_yubikey_to_vault o blob_nonce iv plaintext wrapping yk.vault_key_master k (codes s.path)
    stored (refresh_backup_after_credential_change (codes s.path))

  unfoldable pub session_remove_yubikey :
      Bytes → Option VaultSession → (VaultSession → VaultBody) → Bytes → Vaulting (Unit {0})
  unfolding serialize_vault_body remove_yubikey_from_vault refresh_backup_after_credential_change
  session_remove_yubikey iv session body credential = do
    s ← needed vault_locked session
    yk ← needed not_a_key_vault s.yubikey
    plaintext ← lifted in_body (serialize_vault_body o.serde (body s))
    u ← remove_yubikey_from_vault o iv plaintext yk.vault_key_master credential (codes s.path)
    stored (refresh_backup_after_credential_change (codes s.path))

  -- What changes the passphrase on the disk, with keys or without.
  unfoldable pub change_on_disk :
      SealRandom
      → Bytes
      → VaultSession
      → VaultBody
      → Bytes
      → Bytes
      → Option YubikeyMaterial
      → Vaulting (Unit {0})
  unfolding serialize_vault_body change_passphrase_with_keys load_vault save_vault
  change_on_disk r iv s body old_passphrase new_passphrase (some yk) = do
    plaintext ← lifted in_body (serialize_vault_body o.serde body)
    change_passphrase_with_keys o r iv old_passphrase new_passphrase yk.vault_key_master plaintext
        (codes s.path)
  change_on_disk r iv s body old_passphrase new_passphrase none = do
    checked_body ← load_vault o old_passphrase (codes s.path)
    save_vault o r body new_passphrase (codes s.path)

  unfoldable pub session_change_passphrase :
      SealRandom
      → Bytes
      → Option VaultSession
      → (VaultSession → VaultBody)
      → Bytes
      → Bytes
      → Vaulting (VaultSession × Result VaultError (Unit {0}))
  unfolding change_on_disk refresh_backup_after_credential_change
  session_change_passphrase r iv session body old_passphrase new_passphrase = do
    s ← needed vault_locked session
    u ← change_on_disk r iv s (body s) old_passphrase new_passphrase s.yubikey
    refreshed ← caught (stored (refresh_backup_after_credential_change (codes s.path)))
    return (record s { passphrase = new_passphrase }, refreshed)

  -- The new header's body is sealed: with the master key, or anew under the passphrase.
  unfoldable pub alias_on_disk :
      SealRandom
      → VaultSession
      → Bytes
      → Option Bytes
      → Option YubikeyMaterial
      → Vaulting (Unit {0})
  unfolding read_vault_file reseal_and_write seal_vault write_vault
  alias_on_disk r s plaintext name (some yk) = do
    sealed ← stored (read_vault_file (codes s.path))
    reseal_and_write o r.nonce (record sealed { alias = name }) yk.vault_key_master plaintext
        (codes s.path)
  alias_on_disk r s plaintext name none = do
    sealed ← lifted in_crypto (seal_vault o.ciphers r s.passphrase plaintext name)
    stored (write_vault sealed (codes s.path))

  unfoldable pub session_set_vault_alias :
      SealRandom → Option VaultSession → (VaultSession → VaultBody) → Bytes → Vaulting (Unit {0})
  unfolding serialize_vault_body alias_on_disk alias_of
  session_set_vault_alias r session body name = do
    s ← needed vault_locked session
    plaintext ← lifted in_body (serialize_vault_body o.serde (body s))
    alias_on_disk r s plaintext (alias_of name) s.yubikey

  abbrev pub opened_or_none : {E A : Type 0} → Result E A → Option A
  opened_or_none (ok a) = some a
  opened_or_none (err e) = none
  opened_or_none panic = none

  -- `Ok(None)` where the text is none; the body where there is one.
  unfoldable pub body_of_text : Option Bytes → Vaulting (Option VaultBody)
  unfolding deserialize_vault_body
  body_of_text none = return none
  body_of_text (some plaintext) = do
    body ← lifted in_body (deserialize_vault_body o.serde plaintext)
    return (some body)

  unfoldable pub open_with_held_passphrase :
      Option VaultSession → FileName → Vaulting (Option VaultBody)
  unfolding read_vault_file open_vault body_of_text
  open_with_held_passphrase session path = do
    s ← needed vault_locked session
    sealed ← stored (read_vault_file path)
    body_of_text (opened_or_none (open_vault o.ciphers s.passphrase sealed))

  unfoldable pub open_with_held_passphrase_and_key :
      Option VaultSession → FileName → Bytes → Bytes → Vaulting (Option VaultBody)
  unfolding read_vault_file open_vault_with_key_record body_of_text
  open_with_held_passphrase_and_key session path hmac_secret credential = do
    s ← needed vault_locked session
    sealed ← stored (read_vault_file path)
    body_of_text (
        opened_or_none (
          map_ok (λ r. r.0)
            (open_vault_with_key_record o.ciphers s.passphrase hmac_secret credential sealed)))
