-- ===== src/Update.antt =====
-- `update_entry` of api/vault.rs: an entry that the app edited takes the place of the stored one. What
-- does not go through the app, the attachments, key material, history and times, is kept from it.
pub mod Keys
pub mod Calls
pub mod Secrets
pub mod Times
pub mod Kept
use Prim.Native.String.{◌++◌ as str_append}
use gabbro.Entry.{
  login, note, identity, card, file, custom, passkey, EntryMeta, VaultEntry, entry_id, meta_of,
  with_meta, touched,
}
use gabbro.Prelude.{
  Bool, List, Option, Result, String, [], err, if◌then◌else◌, map, map_ok, none, not, ok, panic,
  some, str_eq, ℕ, ◌∷◌,
}
use gabbro.Session.{SessionError, type_mismatch, contains}
use gabbro.Calendar.Timestamps.{add_days_to_timestamp}
use gabbro.Session.Records.{change_entry}
use gabbro.Update.Keys.{changed_field_keys, item_keys}
use gabbro.Edit.{entry_attachments, with_attachments}
use gabbro.Merge.{opt_eq, text_or_empty, insert, forget}
use gabbro.Entry.History.{record_previous}
use gabbro.Entry.Blob.{with_key_material}

-- Attachments, where the edited entry takes any.
abbrev pub keep_attachments : VaultEntry → VaultEntry → VaultEntry
keep_attachments stored updated = with_attachments (λ _. entry_attachments stored) updated

unfoldable pub keep_key_material : VaultEntry → VaultEntry → VaultEntry
keep_key_material (passkey dst) (passkey src) = passkey (with_key_material dst src)
keep_key_material updated _ = updated

-- `for key in …: new_field_times.insert(key, now_ms)`
abbrev pub stamp_all : ℕ → List String → List (String × ℕ) → List (String × ℕ)
stamp_all now_ms [] times = times
stamp_all now_ms (k ∷ ks) times = stamp_all now_ms ks (insert k now_ms times)

abbrev pub forget_all : List String → List (String × ℕ) → List (String × ℕ)
forget_all [] times = times
forget_all (k ∷ ks) times = forget_all ks (forget k times)

-- `HashSet::difference`
unfoldable pub difference : List String → List String → List String
unfolding contains
difference [] ys = []
difference (x ∷ xs) ys = let rest = difference xs ys in if contains x ys then rest else x ∷ rest

abbrev pub del_key : String → String
del_key k = str_append "del:" k

unfoldable pub new_field_times : ℕ → VaultEntry → VaultEntry → List (String × ℕ)
unfolding changed_field_keys item_keys difference insert forget
new_field_times now_ms stored updated =
    let times = stamp_all now_ms (changed_field_keys stored updated) (meta_of stored).field_times in
    let removed = difference (item_keys stored) (item_keys updated) in
    forget_all (map del_key (item_keys updated)) (stamp_all now_ms (map del_key removed) times)

-- A record of the old value of a field that changed.
abbrev pub record_changed : Bool → String → String → String → Option String → EntryMeta → EntryMeta
record_changed changed field value now expires m =
    if changed then record_previous field value now expires m else m

-- The secrets that changed go to the history, and the time of the edit is set.
unfoldable pub snapshot_secrets :
    String → Option String → VaultEntry → VaultEntry → Result SessionError VaultEntry
unfolding record_previous opt_eq text_or_empty
snapshot_secrets now expires (login new) (login old) = ok (
    login (record new {
      meta =
          record_changed (not (str_eq old.password new.password)) "password" old.password now
            expires (touched now new.meta);
    }))
snapshot_secrets now expires (card new) (card old) = ok (
    card (record new {
      meta =
          record_changed (not (opt_eq old.pin new.pin)) "pin" (text_or_empty old.pin) now expires (
            record_changed (not (str_eq old.cvv new.cvv)) "cvv" old.cvv now expires
              (touched now new.meta));
    }))
snapshot_secrets now expires (note e) stored = ok (note (record e { meta = touched now e.meta }))
snapshot_secrets now expires (identity e) stored =
    ok (identity (record e { meta = touched now e.meta }))
snapshot_secrets now expires (file e) stored = ok (file (record e { meta = touched now e.meta }))
snapshot_secrets now expires (custom e) stored =
    ok (custom (record e { meta = touched now e.meta }))
snapshot_secrets now expires (passkey e) stored =
    ok (passkey (record e { meta = touched now e.meta }))
snapshot_secrets now expires _ _ = err type_mismatch

-- The entry that is stored instead.
unfoldable pub replacement :
    String → ℕ → Option String → VaultEntry → VaultEntry → Result SessionError VaultEntry
unfolding with_attachments entry_attachments keep_key_material new_field_times snapshot_secrets
replacement now now_ms expires updated stored =
    let filled = keep_key_material (keep_attachments stored updated) stored in
    let times = new_field_times now_ms stored filled in
    let seeded = with_meta (λ m. record m { history = (meta_of stored).history }) filled in
    map_ok (with_meta (λ m. record m { field_times = times }))
      (snapshot_secrets now expires seeded stored)

-- `expiry_days.map(|days| add_days_to_timestamp(&now, days))`, `none` where that panics
unfoldable pub expires_after : String → Option ℕ → Option (Option String)
unfolding add_days_to_timestamp
expires_after now none = some none
expires_after now (some days) = elim (add_days_to_timestamp now days) [
  | none ↦ none
  | some at ↦ some (some at)
]

unfoldable pub updated_entry :
    String → ℕ → Option ℕ → VaultEntry → VaultEntry → Result SessionError VaultEntry
unfolding expires_after replacement
updated_entry now now_ms expiry_days updated stored = elim (expires_after now expiry_days) [
  | none ↦ panic
  | some expires ↦ replacement now now_ms expires updated stored
]

unfoldable pub update_entry :
    String → ℕ → VaultEntry → Option ℕ → List VaultEntry → Result SessionError (List VaultEntry)
unfolding change_entry updated_entry
update_entry now now_ms updated expiry_days =
    change_entry (entry_id updated) (updated_entry now now_ms expiry_days updated)
