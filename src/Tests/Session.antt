-- ===== src/Tests/Session.antt =====
-- vault/session.rs at a concrete vault.
use gabbro.Prelude.{
  ok, String, [], eq_of_some, if◌then◌else◌, map, none, refl, some, subst, ◌&&◌, ◌||◌, ◌∷◌, ◌≡◌,
}
use gabbro.Session.{Env, Holds, VaultSession, World, complete, find_entry, contains}
use gabbro.Session.Deletion.Tombstones.{delete_entries_lem, deleted_names}
use gabbro.Session.Folders.Changes.{IsFiled}
use gabbro.Session.Folders.Integrity.{run_folder_call, run_folder_call-IsFiled, rename}
use gabbro.Entry.{VaultEntry, entry_id, note, with_meta}
use gabbro.Session.Deletion.{session_delete_entries_no_save, session_delete_entry}
use gabbro.Session.Records.Removal.{IsRecordRemoved, session_delete_history_lem}
use gabbro.Session.Records.{remove_record, session_delete_history}

abbrev pub note_in : String → String → VaultEntry
note_in id folder = note (record {
  meta = record {
    id = id;
    created_at = "t0";
    updated_at = "t0";
    folder = folder;
    field_times = [];
    history = [];
  };
  title = "T";
  content = "";
  custom_fields = [];
  attachments = [];
})

abbrev pub session : VaultSession
session = record {
  folders = "Work" ∷ "Private" ∷ [];
  entries = note_in "a" "Work" ∷ note_in "b" "" ∷ [];
  path = "vault.gabbro";
  passphrase = [];
  yubikey = none;
  yubikey_aliases = [];
  deleted_ids = [];
  pre_sync_backup = none;
}

abbrev pub world : World
world = record { session = some session; saved = none }

-- A disk that accepts every write.
abbrev pub env : Env
env = record {
  now = "t1";
  now_ms = 1;
  saved_at = "t2";
  write = λ body passphrase path key. complete;
}

session-IsFiled : IsFiled session
unfolding contains
session-IsFiled = record { distinct = (refl, (refl, tt)); named = refl; filed = (refl, (refl, tt)) }

run_folder_call-IsFiled_example : Holds IsFiled (run_folder_call env world (rename "Work" "Jobs")).0
run_folder_call-IsFiled_example =
    run_folder_call-IsFiled env world (rename "Work" "Jobs") tt
      (λ s here. subst IsFiled (eq_of_some here) session-IsFiled)

delete_run : (session_delete_entry env world "a").1 ≡ ok tt
unfolding session_delete_entry
delete_run = refl

delete_entries_example :
    (s' : VaultSession) × ((session_delete_entries_no_save env world ("b" ∷ "z" ∷ [])).0.session
      ≡ some s')
    × ((x : String)
        → find_entry x s'.entries
          ≡ (if contains x ("b" ∷ "z" ∷ []) then none else find_entry x session.entries))
    × ((x : String)
        → contains x (deleted_names s'.deleted_ids) ≡ (
            contains x (deleted_names [])
            || (contains x ("b" ∷ "z" ∷ []) && contains x (map entry_id session.entries))))
    × (s'.folders ≡ session.folders)
delete_entries_example = delete_entries_lem env world ("b" ∷ "z" ∷ []) session refl

abbrev edited_note : VaultEntry
edited_note =
    with_meta
      (λ m. record m {
        history = record { field = "title"; value = "S"; saved_at = "t0"; expires_at = none } ∷ [];
      })
      (note_in "c" "Work")

abbrev edited : VaultSession
edited = record session { entries = note_in "b" "" ∷ edited_note ∷ [] }

abbrev edited_world : World
edited_world = record { session = some edited; saved = none }

removal_run : (session_delete_history env edited_world "c" 0).1 ≡ ok tt
unfolding session_delete_history remove_record
removal_run = refl

session_delete_history_example :
    (s' : VaultSession) × ((session_delete_history env edited_world "c" 0).0.session ≡ some s')
    × IsRecordRemoved "t1" "c" 0 edited s'
session_delete_history_example =
    session_delete_history_lem env edited_world "c" 0 edited refl removal_run
