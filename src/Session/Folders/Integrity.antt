-- ===== src/Session/Folders/Integrity.antt =====
-- Every folder call keeps the folders distinct and named, and every entry in a folder that exists.
use gabbro.Prelude.{
  List, String, arith, false, ok, str_eq, true, ◌≡◌, eq_refl, map, ◌∷◌, Option, if_elim, some, ◌≢◌,
}
use gabbro.Session.Folders.Laws.{contains-without}
use gabbro.Entry.{VaultEntry}
use gabbro.Session.{VaultSession, contains, Env, Holds, Outcome, World}
use gabbro.Session.Folders.{
  create_change, folder_of, rename_change, refolder, without, assign_change, delete_change,
  session_assign_folder_to_entries, session_create_folder, session_delete_folder,
  session_rename_folder, target_known,
}
use gabbro.Session.Saving.{Holds-change_and_save}
use gabbro.Session.Folders.Changes.{
  IsFiled, assign-IsFiled, create-IsFiled, delete-IsFiled, folder-refolder, rename-IsFiled,
}

pub data FolderCall : Type 0 where
  create : String → FolderCall
  rename : String → String → FolderCall
  delete : String → Option String → FolderCall
  assign : List String → String → FolderCall

unfoldable pub run_folder_call : Env → World → FolderCall → Outcome (Unit {0})
unfolding session_create_folder session_rename_folder session_delete_folder
    session_assign_folder_to_entries
run_folder_call env w (create name) = session_create_folder env w name
run_folder_call env w (rename old new) = session_rename_folder env w old new
run_folder_call env w (delete name reassign_to) = session_delete_folder env w name reassign_to
run_folder_call env w (assign ids folder) = session_assign_folder_to_entries env w ids folder

-- A folder that is deleted is not named as the target for its own entries.
abbrev pub IsSensible : FolderCall → Type 0
IsSensible (delete name reassign_to) = reassign_to ≢ some name
IsSensible _ = Unit

-- Whatever the four folder calls do, the folders stay distinct and named and every entry stays in
-- a folder that exists, provided no folder is deleted with itself as the target for its entries.
pub run_folder_call-IsFiled :
    (env : Env) (w : World) (call : FolderCall)
    → IsSensible call
    → Holds IsFiled w
    → Holds IsFiled (run_folder_call env w call).0
unfolding run_folder_call
run_folder_call-IsFiled env w (create name) sensible h =
    if_elim (λ (r : Outcome (Unit {0})). Holds IsFiled r.0) (str_eq name "") (λ empty. h)
      (λ named.
        Holds-change_and_save env w (create_change name) IsFiled (create-IsFiled name named) h)
run_folder_call-IsFiled env w (rename old new) sensible h =
    if_elim (λ (r : Outcome (Unit {0})). Holds IsFiled r.0) (str_eq new "") (λ empty. h)
      (λ named.
        Holds-change_and_save env w (rename_change old new) IsFiled (rename-IsFiled old new named)
          h)
run_folder_call-IsFiled env w (delete name reassign_to) sensible h =
    Holds-change_and_save env w (delete_change name reassign_to) IsFiled
      (delete-IsFiled name reassign_to sensible) h
run_folder_call-IsFiled env w (assign ids folder) sensible h =
    Holds-change_and_save env w (assign_change ids folder) IsFiled (assign-IsFiled ids folder) h

-- If a folder that holds the first entry is deleted with itself as the target, the call reports
-- no error before the save, the folder is gone, and the entry still stands in it.
delete_to_itself :
    (name : String) (s : VaultSession) (e : VaultEntry) (es : List VaultEntry)
    → contains name s.folders ≡ true
    → s.entries ≡ e ∷ es
    → folder_of e ≡ name
    → (s' : VaultSession) × (delete_change name (some name) s ≡ ok s')
      × (contains name s'.folders ≡ false)
      × (e' : VaultEntry) × (s'.entries ≡ e' ∷ map (refolder name name) es)
      × (folder_of e' ≡ name)
unfolding delete_change target_known
delete_to_itself name s e es known first inside = (
  record s { folders = without name s.folders; entries = map (refolder name name) s.entries },
  ground arith,
  ground (arith, contains-without name name s.folders, eq_refl name),
  refolder name name e,
  rw first,
  ground (arith, folder-refolder name name e, inside),
)
