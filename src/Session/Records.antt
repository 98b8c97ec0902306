-- ===== src/Session/Records.antt =====
-- The recovery history of an entry in the session (`session_get_entry_history` and
-- `session_delete_history` of vault/session.rs).
pub mod Removal
use gabbro.Prelude.{
  String, List, Result, [], err, if◌then◌else◌, leb, length, map_ok, none, ok, some, str_eq, suc,
  zero, ℕ, ◌∷◌,
}
use gabbro.Session.{
  Env, Outcome, SessionError, VaultSession, World, change_and_save, find_entry, no_entry,
  no_history_record, with_session, locked,
}
use gabbro.Entry.{HistoryRecord, VaultEntry, entry_id, meta_of, with_meta}

-- `iter_mut().find(…)` and the change of what was found.
unfoldable pub change_entry :
    String
    → (VaultEntry → Result SessionError VaultEntry)
    → List VaultEntry
    → Result SessionError (List VaultEntry)
change_entry id f [] = err (no_entry id)
change_entry id f (e ∷ es) =
    let rest = change_entry id f es in
    if str_eq (entry_id e) id then map_ok (λ e'. e' ∷ es) (f e) else map_ok (λ es'. e ∷ es') rest

-- `Vec::remove`, behind the check of the index
unfoldable pub remove_at : ℕ → List HistoryRecord → List HistoryRecord
remove_at n [] = []
remove_at zero (h ∷ hs) = hs
remove_at (suc n) (h ∷ hs) = h ∷ remove_at n hs

abbrev pub without_record : String → ℕ → VaultEntry → VaultEntry
without_record now index =
    with_meta (λ m. record m { history = remove_at index m.history; updated_at = now })

unfoldable pub remove_record : String → ℕ → VaultEntry → Result SessionError VaultEntry
remove_record now index e =
    if leb (length (meta_of e).history) index
    then err (no_history_record index)
    else ok (without_record now index e)

unfoldable pub delete_history_change :
    String → String → ℕ → VaultSession → Result SessionError VaultSession
unfolding change_entry remove_record
delete_history_change now id index s =
    map_ok (λ es. record s { entries = es }) (change_entry id (remove_record now index) s.entries)

unfoldable pub session_delete_history : Env → World → String → ℕ → Outcome (Unit {0})
unfolding change_and_save delete_history_change
session_delete_history env w id index =
    change_and_save env w (delete_history_change env.now id index)

unfoldable pub session_get_entry_history : World → String → Result SessionError (List HistoryRecord)
unfolding find_entry
session_get_entry_history w id = with_session w (err locked) (λ s. elim (find_entry id s.entries) [
  | none ↦ err (no_entry id)
  | some e ↦ ok (meta_of e).history
])
