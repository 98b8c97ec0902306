-- ===== src/Session.antt =====
-- vault/session.rs: the unlocked vault in memory, and the calls that change it and save it.
-- `VAULT_SESSION` is the option in `World`. The clock and the outcome of writing the file are
-- arguments of each call (`Env`); `World.saved` is the body that the file holds.
pub mod Folders
pub mod Deletion
pub mod Saving
pub mod Records
use gabbro.Prelude.{
  Option, Bool, List, Result, String, [], err, false, if◌then◌else◌, map, none, ok, panic, some,
  str_eq, true, ℕ, ◌++◌, ◌∷◌, ◌≡◌, map_ok,
}
use gabbro.Bytes.{Bytes}
use gabbro.Entry.{VaultEntry, entry_id}

-- `DeletedEntry` and `VaultBody` of vault/serialization.rs
pub record DeletedEntry : Type 0 where
  pub id : String
  pub deleted_at : String

pub record VaultBody : Type 0 where
  pub folders : List String
  pub entries : List VaultEntry
  pub yubikey_aliases : List (String × String)
  pub vault_updated_at : String
  pub deleted_ids : List DeletedEntry

pub record YubikeyMaterial : Type 0 where
  pub vault_key_master : Bytes
  pub wrapping_key : Option Bytes

pub record SyncBackup : Type 0 where
  pub folders : List String
  pub entries : List VaultEntry
  pub deleted_ids : List DeletedEntry

pub record VaultSession : Type 0 where
  pub folders : List String
  pub entries : List VaultEntry
  pub path : String
  pub passphrase : Bytes
  pub yubikey : Option YubikeyMaterial
  pub yubikey_aliases : List (String × String)
  pub deleted_ids : List DeletedEntry
  pub pre_sync_backup : Option SyncBackup

-- The error texts.
pub data SessionError : Type 0 where
  locked empty_folder_name no_attachments_on_file too_many_attachments attachment_too_large :
      SessionError
  no_entry folder_not_found folder_exists no_attachment : String → SessionError
  type_mismatch : SessionError
  no_history_record : ℕ → SessionError
  save_failed : String → SessionError

-- How the writing of the file ends. A write that fails, or does not come to its end, may have put the
-- new file in place: `write_vault` renames it and reads it back, and copies it to the safety copy after.
pub data WriteEnd : Type 0 where
  complete : WriteEnd
  failed : Bool → String → WriteEnd
  aborted : Bool → WriteEnd

-- One call's view of the outside: `chrono_now` and `now_ms` when the session is changed,
-- `chrono_now` again when the body is built, and what writing that body comes to.
pub record Env : Type 0 where
  pub now : String
  pub now_ms : ℕ
  pub saved_at : String
  pub write : VaultBody → Bytes → String → Option Bytes → WriteEnd

pub record World : Type 0 where
  pub session : Option VaultSession
  pub saved : Option VaultBody

abbrev pub Outcome : Type 0 → Type 0
Outcome A = World × Result SessionError A

unfoldable pub is_vault_unlocked : World → Bool
is_vault_unlocked w = elim w.session [ none ↦ false | some s ↦ true ]

-- The secrets are overwritten before the session is dropped, which no later call can see.
unfoldable pub lock_vault : World → Outcome (Unit {0})
lock_vault w = (record w { session = none }, ok tt)

unfoldable pub build_body : Env → VaultSession → VaultBody
build_body env s = record {
  folders = s.folders;
  entries = s.entries;
  yubikey_aliases = s.yubikey_aliases;
  vault_updated_at = env.saved_at;
  deleted_ids = s.deleted_ids;
}

unfoldable pub extract_yubikey : VaultSession → Option Bytes
extract_yubikey s = elim s.yubikey [ none ↦ none | some yk ↦ some yk.vault_key_master ]

-- What the file holds after a write, and how the write ended.
abbrev pub written : VaultBody → World → WriteEnd → Outcome (Unit {0})
written body w complete = (record w { saved = some body }, ok tt)
written body w (failed placed e) =
    (record w { saved = if placed then some body else w.saved }, err (save_failed e))
written body w (aborted placed) =
    (record w { saved = if placed then some body else w.saved }, panic)

-- The end of every saving call, behind the lock: the session in memory is already `s`.
unfoldable pub do_save : Env → VaultSession → World → Outcome (Unit {0})
unfolding build_body extract_yubikey
do_save env s w =
    written (build_body env s) (record w { session = some s })
      (env.write (build_body env s) s.passphrase s.path (extract_yubikey s))

-- `session.as_mut().ok_or("Vault is locked")?`
abbrev pub with_session {ℓ} : {A : Type ℓ} → World → A → (VaultSession → A) → A
with_session w locked_case f = elim w.session [ none ↦ locked_case | some s ↦ f s ]

-- `Ok(value)` behind the save
abbrev pub with_value : {A : Type 0} → A → Outcome (Unit {0}) → Outcome A
with_value a (w, r) = (w, map_ok (λ _. a) r)

unfoldable pub after_change : Env → World → Result SessionError VaultSession → Outcome (Unit {0})
unfolding do_save
after_change env w (ok s') = do_save env s' w
after_change env w (err e) = (w, err e)
after_change env w panic = (w, panic)

-- The calls that change the session and then save it: the change, or the error before it.
unfoldable pub change_and_save :
    Env → World → (VaultSession → Result SessionError VaultSession) → Outcome (Unit {0})
unfolding after_change
change_and_save env w change = with_session w (w, err locked) (λ s. after_change env w (change s))

-- A property of the session in memory, if the vault is unlocked.
abbrev pub Holds {ℓ} : (VaultSession → Type ℓ) → World → Type ℓ
Holds P w = (s : VaultSession) → w.session ≡ some s → P s

unfoldable pub session_save : Env → World → Outcome (Unit {0})
unfolding change_and_save
session_save env w = change_and_save env w (λ s. ok s)

-- `entries.iter().find(|e| entry_id(e) == id)`
unfoldable pub find_entry : String → List VaultEntry → Option VaultEntry
find_entry id [] = none
find_entry id (e ∷ es) = if str_eq (entry_id e) id then some e else find_entry id es

unfoldable pub get_entry : World → String → Result SessionError VaultEntry
unfolding find_entry
get_entry w id =
    with_session w (err locked)
      (λ s. elim (find_entry id s.entries) [ none ↦ err (no_entry id) | some e ↦ ok e ])

-- `slice.contains(x)` on strings
unfoldable pub contains : String → List String → Bool
contains x [] = false
contains x (y ∷ ys) = if str_eq y x then true else contains x ys

unfoldable pub session_entry_ids : World → Result SessionError (List String)
session_entry_ids w = with_session w (err locked) (λ s. ok (map entry_id s.entries))

unfoldable pub session_add_entry_no_save : World → VaultEntry → Outcome (Unit {0})
session_add_entry_no_save w entry =
    with_session w (w, err locked)
      (λ s. (record w { session = some (record s { entries = s.entries ++ entry ∷ [] }) }, ok tt))
