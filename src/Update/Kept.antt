-- ===== src/Update/Kept.antt =====
-- What an update keeps of the stored entry.
use gabbro.Entry.{login, note, identity, card, file, custom, passkey, VaultEntry, entry_id, meta_of}
use gabbro.Bytes.{Bytes}
use gabbro.Prelude.{Option, String, [], if◌then◌else◌, none, some, ℕ, ◌≡◌}
use gabbro.Entry.Blob.{credential_blob}
use gabbro.Edit.{entry_attachments}
use gabbro.Update.{keep_attachments, keep_key_material, new_field_times}
use gabbro.Entry.History.{find_field}
use gabbro.Update.Secrets.{record_of, replaced_secrets, secrets}
use gabbro.Update.Calls.{takes_attachments}

-- The key material that the entry has afterwards: the stored entry's, where both are passkeys.
abbrev pub kept_key : VaultEntry → VaultEntry → Option Bytes
unfolding credential_blob
kept_key (passkey u) (passkey s) = some (credential_blob s)
kept_key (passkey u) (login s) = some (credential_blob u)
kept_key (passkey u) (note s) = some (credential_blob u)
kept_key (passkey u) (identity s) = some (credential_blob u)
kept_key (passkey u) (card s) = some (credential_blob u)
kept_key (passkey u) (file s) = some (credential_blob u)
kept_key (passkey u) (custom s) = some (credential_blob u)
kept_key (login u) stored = none
kept_key (note u) stored = none
kept_key (identity u) stored = none
kept_key (card u) stored = none
kept_key (file u) stored = none
kept_key (custom u) stored = none

abbrev pub key_blob : VaultEntry → Option Bytes
unfolding credential_blob
key_blob (passkey e) = some (credential_blob e)
key_blob (login e) = none
key_blob (note e) = none
key_blob (identity e) = none
key_blob (card e) = none
key_blob (file e) = none
key_blob (custom e) = none

-- What stands for the stored entry `stored` when the app's version `updated` has taken its place.
pub record IsReplaced (now : String) (now_ms : ℕ) (expires : Option String)
    (updated stored e : VaultEntry) : Type 0 where
  pub id : entry_id e ≡ entry_id updated
  pub folder : (meta_of e).folder ≡ (meta_of updated).folder
  pub updated_at : (meta_of e).updated_at ≡ now
  pub attachments :
      entry_attachments e ≡ (if takes_attachments updated then entry_attachments stored else [])
  pub key_material : key_blob e ≡ kept_key updated stored
  pub times :
      (meta_of e).field_times
      ≡ new_field_times now_ms stored (keep_key_material (keep_attachments stored updated) stored)
  pub history :
      (f : String)
      → find_field f (meta_of e).history
        ≡ record_of
            (replaced_secrets now expires (secrets updated) (secrets stored))
            (meta_of stored).history
            f

-- What a change of the metadata leaves.
record IsSameBody (a b : VaultEntry) : Type 0 where
  attachments : entry_attachments a ≡ entry_attachments b
  key_material : key_blob a ≡ key_blob b
  secret : secrets a ≡ secrets b

-- The edited entry with what is kept from the stored one filled in.
record IsFilled (updated stored e : VaultEntry) : Type 0 where
  meta : meta_of e ≡ meta_of updated
  attachments :
      entry_attachments e ≡ (if takes_attachments updated then entry_attachments stored else [])
  key_material : key_blob e ≡ kept_key updated stored
  secret : secrets e ≡ secrets updated
