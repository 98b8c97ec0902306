-- ===== src/Session/Folders.antt =====
-- The folder calls of vault/session.rs. An entry without a folder has the folder "".
pub mod Laws
pub mod Changes
pub mod Integrity
use gabbro.Prelude.{
  Option, Bool, List, Result, String, [], err, if◌then◌else◌, map, none, not, ok, some, str_eq,
  true, ◌&&◌, ◌++◌, ◌∷◌,
}
use gabbro.Session.{
  Env, Outcome, SessionError, VaultSession, World, change_and_save, folder_exists, folder_not_found,
  with_session, empty_folder_name, contains, locked,
}
use gabbro.Entry.{VaultEntry, entry_id, meta_of, with_meta}

abbrev pub folder_of : VaultEntry → String
folder_of e = (meta_of e).folder

abbrev pub set_folder : String → VaultEntry → VaultEntry
set_folder f = with_meta (λ m. record m { folder = f })

-- `if *folder == old { *folder = new.clone() }`
unfoldable pub refolder : String → String → VaultEntry → VaultEntry
refolder old new e = if str_eq (folder_of e) old then set_folder new e else e

-- The loop over the folders stops at the first hit.
unfoldable pub rename_first : String → String → List String → List String
rename_first old new [] = []
rename_first old new (f ∷ fs) = if str_eq f old then new ∷ fs else f ∷ rename_first old new fs

-- `folders.retain(|f| *f != name)`
unfoldable pub without : String → List String → List String
without name [] = []
without name (f ∷ fs) = let rest = without name fs in if str_eq f name then rest else f ∷ rest

unfoldable pub session_list_folders : World → Result SessionError (List String)
session_list_folders w = with_session w (err locked) (λ s. ok s.folders)

unfoldable pub rename_change : String → String → VaultSession → Result SessionError VaultSession
unfolding contains rename_first refolder
rename_change old new s =
    if not (contains old s.folders)
    then err (folder_not_found old)
    else if contains new s.folders
    then err (folder_exists new)
    else ok (record s {
      folders = rename_first old new s.folders;
      entries = map (refolder old new) s.entries;
    })

unfoldable pub session_rename_folder : Env → World → String → String → Outcome (Unit {0})
unfolding change_and_save rename_change
session_rename_folder env w old new =
    if str_eq new ""
    then (w, err empty_folder_name)
    else change_and_save env w (rename_change old new)

-- `reassign_to.unwrap_or_default()`
abbrev pub target_of : Option String → String
target_of none = ""
target_of (some t) = t

unfoldable pub target_known : Option String → List String → Bool
unfolding contains
target_known none fs = true
target_known (some t) fs = contains t fs

unfoldable pub delete_change :
    String → Option String → VaultSession → Result SessionError VaultSession
unfolding contains target_known without refolder
delete_change name reassign_to s =
    if not (contains name s.folders)
    then err (folder_not_found name)
    else if not (target_known reassign_to s.folders)
    then err (folder_not_found (target_of reassign_to))
    else ok (record s {
      folders = without name s.folders;
      entries = map (refolder name (target_of reassign_to)) s.entries;
    })

unfoldable pub session_delete_folder : Env → World → String → Option String → Outcome (Unit {0})
unfolding change_and_save delete_change
session_delete_folder env w name reassign_to =
    change_and_save env w (delete_change name reassign_to)

unfoldable pub assign_one : List String → String → VaultEntry → VaultEntry
unfolding contains
assign_one ids folder e = if contains (entry_id e) ids then set_folder folder e else e

unfoldable pub assign_change :
    List String → String → VaultSession → Result SessionError VaultSession
unfolding contains assign_one
assign_change ids folder s =
    if not (str_eq folder "") && not (contains folder s.folders)
    then err (folder_not_found folder)
    else ok (record s { entries = map (assign_one ids folder) s.entries })

unfoldable pub session_assign_folder_to_entries :
    Env → World → List String → String → Outcome (Unit {0})
unfolding change_and_save assign_change
session_assign_folder_to_entries env w ids folder = change_and_save env w (assign_change ids folder)

unfoldable pub create_change : String → VaultSession → Result SessionError VaultSession
unfolding contains
create_change name s =
    if contains name s.folders
    then err (folder_exists name)
    else ok (record s { folders = s.folders ++ name ∷ [] })

unfoldable pub session_create_folder : Env → World → String → Outcome (Unit {0})
unfolding change_and_save create_change
session_create_folder env w name =
    if str_eq name ""
    then (w, err empty_folder_name)
    else change_and_save env w (create_change name)
