-- ===== src/Tests/Sync.antt =====
-- The sync of a vault at concrete vaults.
use gabbro.Prelude.{[], refl, ◌≡◌, ◌∷◌, ◌++◌, map, none}
use gabbro.Session.{VaultBody, do_save}
use gabbro.Entry.{entry_id}
use gabbro.Sync.{do_merge}
use gabbro.Sync.Review.{Base64}
use gabbro.Sync.Calls.{session_cancel_sync, session_merge_vault_from_body}
use gabbro.Sync.Complete.{do_merge-ids, absent}
use gabbro.Sync.Cancel.{session_cancel_sync_lem, merged}
use gabbro.Tests.Session.{note_in, session, world, env}

abbrev incoming : VaultBody
incoming = record {
  folders = "Home" ∷ [];
  entries = note_in "b" "Home" ∷ note_in "c" "" ∷ [];
  yubikey_aliases = [];
  vault_updated_at = "t1";
  deleted_ids = record { id = "a"; deleted_at = "t1" } ∷ [];
}

-- An encoder that the run does not depend on.
abbrev plain : Base64
plain = record { encode = λ b. ""; decode = λ t. none }

do_merge-ids_example :
    map entry_id (do_merge (λ b. "") session incoming).0.entries
    ≡ map entry_id session.entries
      ++ absent (map entry_id session.entries) (map entry_id incoming.entries)
do_merge-ids_example = do_merge-ids (λ b. "") session incoming

session_cancel_sync_example :
    session_cancel_sync env (session_merge_vault_from_body plain env world incoming).0
    ≡ do_save env
        (record session { pre_sync_backup = none })
        (session_merge_vault_from_body plain env world incoming).0
session_cancel_sync_example =
    session_cancel_sync_lem plain session env
      (session_merge_vault_from_body plain env world incoming).0 (merged env world incoming refl)
