-- ===== src/Sync/Calls.antt =====
-- The calls of a sync: the merge keeps a snapshot, which a cancelled review goes back to.
use gabbro.Sync.Review.{Base64, Decisions, do_apply_sync_decisions, do_fast_merge}
use gabbro.Session.{
  Env, Outcome, SessionError, SyncBackup, VaultBody, VaultSession, World, do_save, with_session,
  locked, with_value,
}
use gabbro.Sync.{MergeSummary, do_merge}
use gabbro.Prelude.{Result, err, none, ok, panic, some}

abbrev pub snapshot : VaultSession → SyncBackup
snapshot s = record { folders = s.folders; entries = s.entries; deleted_ids = s.deleted_ids }

unfoldable pub session_merge_vault_from_body :
    Base64 → Env → World → VaultBody → Outcome MergeSummary
unfolding do_merge do_save
session_merge_vault_from_body b64 env w incoming =
    with_session w (w, err locked)
      (λ s.
        let (s', summary) =
          do_merge b64.encode (record s { pre_sync_backup = some (snapshot s) }) incoming in
        with_value summary (do_save env s' w))

unfoldable pub session_fast_merge_from_body :
    Base64 → Env → World → VaultBody → Outcome MergeSummary
unfolding do_fast_merge do_save
session_fast_merge_from_body b64 env w incoming =
    with_session w (w, err locked)
      (λ s.
        let (s', summary) = do_fast_merge b64 env.now env.now_ms s incoming in
        with_value summary (do_save env s' w))

-- `do_apply_sync_decisions(…)?`, and what follows it
unfoldable pub commit_review :
    Env → World → VaultSession × Result SessionError (Unit {0}) → Outcome (Unit {0})
unfolding do_save
commit_review env w (s, ok u) = do_save env (record s { pre_sync_backup = none }) w
commit_review env w (s, err e) = (record w { session = some s }, err e)
commit_review env w (s, panic) = (record w { session = some s }, panic)

unfoldable pub session_apply_sync_decisions : Base64 → Env → World → Decisions → Outcome (Unit {0})
unfolding do_apply_sync_decisions commit_review
session_apply_sync_decisions b64 env w d =
    with_session w (w, err locked)
      (λ s. commit_review env w (do_apply_sync_decisions b64 env.now env.now_ms d s))

unfoldable pub session_cancel_sync : Env → World → Outcome (Unit {0})
unfolding do_save
session_cancel_sync env w =
    with_session w (w, err locked)
      (λ s. elim s.pre_sync_backup [
        | none ↦ (w, ok tt)
        | some b ↦
            do_save env
              (record s {
                folders = b.folders;
                entries = b.entries;
                deleted_ids = b.deleted_ids;
                pre_sync_backup = none;
              })
              w
      ])
