-- ===== src/Session/Deletion.antt =====
-- Deleting entries (`session_delete_entry`, `session_delete_entries_no_save`, and `delete_entry` of
-- api/vault.rs). A deletion leaves a tombstone, by which a sync propagates it.
pub mod Tombstones
use gabbro.Prelude.{
  Option, List, Result, String, [], err, if◌then◌else◌, map, map_ok, ok, some, str_eq, ◌++◌, ◌∷◌,
}
use gabbro.Session.{
  DeletedEntry, Env, Outcome, SessionError, VaultSession, World, change_and_save, no_entry,
  with_session, contains, locked,
}
use gabbro.Entry.{VaultEntry, entry_id}

-- `position` and `remove`: the first entry with the id.
unfoldable pub delete_entry : String → List VaultEntry → Result SessionError (List VaultEntry)
delete_entry id [] = err (no_entry id)
delete_entry id (e ∷ es) =
    if str_eq (entry_id e) id then ok es else map_ok (λ rest. e ∷ rest) (delete_entry id es)

unfoldable pub delete_entry_change :
    String → String → VaultSession → Result SessionError VaultSession
unfolding delete_entry
delete_entry_change now id s =
    map_ok
      (λ es. record s {
        entries = es;
        deleted_ids = s.deleted_ids ++ record { id = id; deleted_at = now } ∷ [];
      })
      (delete_entry id s.entries)

unfoldable pub session_delete_entry : Env → World → String → Outcome (Unit {0})
unfolding change_and_save delete_entry_change
session_delete_entry env w id = change_and_save env w (delete_entry_change env.now id)

-- The loop over the ids: a tombstone for each that an entry has.
unfoldable pub push_tombstones :
    String → List VaultEntry → List String → List DeletedEntry → List DeletedEntry
unfolding contains
push_tombstones now es [] deleted = deleted
push_tombstones now es (id ∷ ids) deleted = push_tombstones now es ids (
    if contains id (map entry_id es)
    then deleted ++ record { id = id; deleted_at = now } ∷ []
    else deleted)

-- `entries.retain(|e| !ids.contains(entry_id(e)))`
unfoldable pub retain_entries : List String → List VaultEntry → List VaultEntry
unfolding contains
retain_entries ids [] = []
retain_entries ids (e ∷ es) =
    let rest = retain_entries ids es in if contains (entry_id e) ids then rest else e ∷ rest

unfoldable pub session_delete_entries_no_save : Env → World → List String → Outcome (Unit {0})
unfolding push_tombstones retain_entries
session_delete_entries_no_save env w ids =
    with_session w (w, err locked)
      (λ s. (
        record w {
          session = some (record s {
            entries = retain_entries ids s.entries;
            deleted_ids = push_tombstones env.now s.entries ids s.deleted_ids;
          });
        },
        ok tt,
      ))
