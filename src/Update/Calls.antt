-- ===== src/Update/Calls.antt =====
-- The calls of vault/session.rs that change one entry and save: the update, attachments, and the
-- restore of a previous value.
use Prim.Native.String.{◌++◌ as str_append}
use gabbro.Entry.{
  login, note, identity, card, file, custom, passkey, EntryAttachment, EntryMeta, HistoryRecord,
  VaultEntry, meta_of, with_meta, touched,
}
use gabbro.Prelude.{
  Bool, List, Option, Result, String, [], err, false, get_elem?, if◌then◌else◌, leb, length, ltb,
  map_ok, none, not, ok, some, str_eq, true, ℕ, ◌*◌, ◌++◌, ◌==◌, ◌∷◌,
}
use gabbro.Bytes.{Bytes}
use gabbro.Session.{
  Env, Outcome, SessionError, VaultSession, World, change_and_save, find_entry, no_attachment,
  no_entry, no_history_record, with_session, with_value, locked, attachment_too_large,
  no_attachments_on_file, too_many_attachments,
}
use gabbro.Session.Records.{change_entry, remove_at}
use gabbro.Edit.{drop_named, entry_attachments, set_entry_field_by_key, with_attachments}
use gabbro.Update.{update_entry}
use gabbro.Merge.{insert, forget}

unfoldable pub update_change :
    Env → VaultEntry → Option ℕ → VaultSession → Result SessionError VaultSession
unfolding update_entry
update_change env updated expiry_days s =
    map_ok (λ es. record s { entries = es })
      (update_entry env.now env.now_ms updated expiry_days s.entries)

unfoldable pub session_update_entry : Env → World → VaultEntry → Option ℕ → Outcome (Unit {0})
unfolding change_and_save update_change
session_update_entry env w updated expiry_days =
    change_and_save env w (update_change env updated expiry_days)

abbrev pub entry_attachment_max_count : ℕ
entry_attachment_max_count = 3

abbrev pub enpass_attachment_max_bytes : ℕ
enpass_attachment_max_bytes = 25 * 1024 * 1024

-- `entry_attachments_mut(…).ok_or(…)`
unfoldable pub takes_attachments : VaultEntry → Bool
takes_attachments (login e) = true
takes_attachments (note e) = true
takes_attachments (identity e) = true
takes_attachments (card e) = true
takes_attachments (custom e) = true
takes_attachments (file e) = false
takes_attachments (passkey e) = false

abbrev pub attachment_key : String → String
attachment_key uuid = str_append "attachments:" uuid

abbrev pub added_stamps : String → ℕ → String → EntryMeta → EntryMeta
unfolding insert forget
added_stamps now now_ms key m =
    touched now
      (record m { field_times = forget (str_append "del:" key) (insert key now_ms m.field_times) })

abbrev pub removed_stamps : String → ℕ → String → EntryMeta → EntryMeta
unfolding insert forget
removed_stamps now now_ms key m =
    touched now
      (record m { field_times = insert (str_append "del:" key) now_ms (forget key m.field_times) })

unfoldable pub add_attachment : Env → EntryAttachment → VaultEntry → Result SessionError VaultEntry
unfolding takes_attachments entry_attachments with_attachments
add_attachment env a e =
    if not (takes_attachments e)
    then err no_attachments_on_file
    else if leb entry_attachment_max_count (length (entry_attachments e))
    then err too_many_attachments
    else ok (
        with_meta (added_stamps env.now env.now_ms (attachment_key a.uuid))
          (with_attachments (λ old. old ++ a ∷ []) e))

unfoldable pub change_one :
    String
    → (VaultEntry → Result SessionError VaultEntry)
    → VaultSession
    → Result SessionError VaultSession
unfolding change_entry
change_one id f s = map_ok (λ es. record s { entries = es }) (change_entry id f s.entries)

-- `uuid` is the fresh identity of `new_entry_id`.
unfoldable pub session_add_attachment :
    Env → World → String → String → String → String → Bytes → Outcome String
unfolding change_and_save change_one add_attachment
session_add_attachment env w uuid id name kind content =
    if ltb enpass_attachment_max_bytes (length content)
    then (w, err attachment_too_large)
    else with_value uuid (
        change_and_save env w (
          change_one id (
            add_attachment env
              (record { uuid = uuid; name = name; kind = kind; content = content }))))

unfoldable pub remove_attachment : Env → String → VaultEntry → Result SessionError VaultEntry
unfolding takes_attachments entry_attachments with_attachments drop_named
remove_attachment env uuid e =
    let kept = drop_named (λ a. a.uuid) uuid (entry_attachments e) in
    if not (takes_attachments e)
    then err no_attachments_on_file
    else if length kept == length (entry_attachments e)
    then err (no_attachment uuid)
    else ok (
        with_meta (removed_stamps env.now env.now_ms (attachment_key uuid))
          (with_attachments (λ _. kept) e))

unfoldable pub session_remove_attachment : Env → World → String → String → Outcome (Unit {0})
unfolding change_and_save change_one remove_attachment
session_remove_attachment env w id uuid =
    change_and_save env w (change_one id (remove_attachment env uuid))

unfoldable pub find_attachment : String → List EntryAttachment → Option EntryAttachment
find_attachment uuid [] = none
find_attachment uuid (a ∷ rest) = if str_eq a.uuid uuid then some a else find_attachment uuid rest

unfoldable pub extracted : String → Option VaultEntry → String → Result SessionError Bytes
unfolding find_attachment entry_attachments
extracted id none uuid = err (no_entry id)
extracted id (some e) uuid = elim (find_attachment uuid (entry_attachments e)) [
  | none ↦ err (no_attachment uuid)
  | some a ↦ ok a.content
]

unfoldable pub session_extract_attachment : World → String → String → Result SessionError Bytes
unfolding find_entry extracted
session_extract_attachment w id uuid =
    with_session w (err locked) (λ s. extracted id (find_entry id s.entries) uuid)

unfoldable pub put_back :
    Env
    → (String → Option Bytes)
    → ℕ
    → Option HistoryRecord
    → VaultEntry
    → Result SessionError VaultEntry
unfolding set_entry_field_by_key remove_at insert
put_back env unb64 index none e = err (no_history_record index)
put_back env unb64 index (some r) e = ok (
    with_meta
      (λ m. touched env.now (record m {
        history = remove_at index m.history;
        field_times = insert r.field env.now_ms m.field_times;
      }))
      (set_entry_field_by_key unb64 r.field r.value e))

unfoldable pub restore_record :
    Env → (String → Option Bytes) → ℕ → VaultEntry → Result SessionError VaultEntry
unfolding put_back
restore_record env unb64 index e = put_back env unb64 index (get_elem? (meta_of e).history index) e

unfoldable pub session_restore_history :
    Env → World → (String → Option Bytes) → String → ℕ → Outcome (Unit {0})
unfolding change_and_save change_one restore_record
session_restore_history env w unb64 id index =
    change_and_save env w (change_one id (restore_record env unb64 index))
