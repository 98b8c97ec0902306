-- ===== src/Sync/Cancel.antt =====
-- A review that is cancelled leaves the vault as it was before the sync.
use gabbro.Bytes.{Bytes}
use gabbro.Prelude.{
  List, Result, String, [], if_elim, map, none, not, refl, some, str_eq, ◌&&◌, ◌∷◌, ◌≡◌, ap, arith,
  err, ok, panic, subst, sym, ℕ, Option, ◌∙◌, eq_of_some,
}
use gabbro.Session.{
  SessionError, VaultBody, VaultSession, contains, Env, World, build_body, do_save, extract_yubikey,
  with_session, written, Outcome, SyncBackup, WriteEnd, aborted, complete, failed,
}
use gabbro.Sync.Review.{
  SyncFolderInput, delete_entries, pick_folders, Base64, Decisions, after_folders,
  do_apply_sync_decisions, on_deleted,
}
use gabbro.Session.Deletion.{delete_entry}
use gabbro.Sync.{do_merge, MergeSummary}
use gabbro.Entry.{entry_id, VaultEntry}
use gabbro.Sync.Calls.{
  snapshot, commit_review, session_apply_sync_decisions, session_cancel_sync,
  session_merge_vault_from_body,
}

-- A session that a review is open on: only the entries, the folders and the tombstones have moved
-- since `before`, and the snapshot is that of `before`.
pub record IsUnderReview (before s : VaultSession) : Type 0 where
  pub kept :
      record s {
        folders = before.folders;
        entries = before.entries;
        deleted_ids = before.deleted_ids;
        pre_sync_backup = none;
      }
      ≡ record before { pre_sync_backup = none }
  pub backup : s.pre_sync_backup ≡ some (snapshot before)

do_merge-IsUnderReview :
    (b64 : Bytes → String) (s : VaultSession) (incoming : VaultBody)
    → IsUnderReview s (do_merge b64 (record s { pre_sync_backup = some (snapshot s) }) incoming).0
unfolding do_merge
do_merge-IsUnderReview b64 s incoming = record { kept = refl; backup = refl }

pick_folders-IsUnderReview :
    (before : VaultSession) (now : String) (fs : List SyncFolderInput) (s : VaultSession)
    → IsUnderReview before s
    → IsUnderReview before (pick_folders now fs s).0
unfolding pick_folders
pick_folders-IsUnderReview before now [] s h = h
pick_folders-IsUnderReview before now (f ∷ fs) s h =
    if_elim (λ (r : VaultSession × Result SessionError (Unit {0})). IsUnderReview before r.0)
      (not (str_eq f.folder "") && not (contains f.folder s.folders)) (λ _. h)
      (λ _.
        pick_folders-IsUnderReview before now fs _ (record { kept = h.kept; backup = h.backup }))

on_deleted_elim :
    (P : VaultSession → Type 0) (s : VaultSession)
    (k : List VaultEntry → VaultSession × Result SessionError (Unit {0}))
    (r : Result SessionError (List VaultEntry))
    → P s
    → ((es : List VaultEntry) → P (k es).0)
    → P (on_deleted s k r).0
on_deleted_elim P s k (ok es) h step = step es
on_deleted_elim P s k (err e) h step = h
on_deleted_elim P s k panic h step = h

delete_entries-IsUnderReview :
    (before : VaultSession) (now : String) (ids : List String) (s : VaultSession)
    → IsUnderReview before s
    → IsUnderReview before (delete_entries now ids s).0
unfolding delete_entries
delete_entries-IsUnderReview before now [] s h = h
delete_entries-IsUnderReview before now (id ∷ ids) s h =
    if_elim (λ (r : VaultSession × Result SessionError (Unit {0})). IsUnderReview before r.0)
      (contains id (map entry_id s.entries))
      (λ _. on_deleted_elim (IsUnderReview before) s _ (delete_entry id s.entries) h (λ es.
        delete_entries-IsUnderReview before now ids _
          (record { kept = h.kept; backup = h.backup })))
      (λ _. delete_entries-IsUnderReview before now ids s h)

after_folders-IsUnderReview :
    (before : VaultSession) (now : String) (ids : List String)
    (r : VaultSession × Result SessionError (Unit {0}))
    → IsUnderReview before r.0
    → IsUnderReview before (after_folders now ids r).0
unfolding delete_entries
after_folders-IsUnderReview before now ids (s, ok u) h =
    delete_entries-IsUnderReview before now ids s h
after_folders-IsUnderReview before now ids (s, err e) h = h
after_folders-IsUnderReview before now ids (s, panic) h = h

do_apply_sync_decisions-IsUnderReview :
    (b64 : Base64) (now : String) (now_ms : ℕ) (d : Decisions) (before s : VaultSession)
    → IsUnderReview before s
    → IsUnderReview before (do_apply_sync_decisions b64 now now_ms d s).0
unfolding do_apply_sync_decisions
do_apply_sync_decisions-IsUnderReview b64 now now_ms d before s h =
    after_folders-IsUnderReview before now d.entry_deletes _ (
      pick_folders-IsUnderReview before now d.folder_picks _
        (record { kept = h.kept; backup = h.backup }))

written-session :
    (body : VaultBody) (w : World) (r : WriteEnd) → (written body w r).0.session ≡ w.session
written-session body w complete = refl
written-session body w (failed placed e) = refl
written-session body w (aborted placed) = refl

pub do_save-session :
    (env : Env) (s : VaultSession) (w : World) → (do_save env s w).0.session ≡ some s
unfolding do_save
do_save-session env s w =
    written-session (build_body env s) (record w { session = some s })
      (env.write (build_body env s) s.passphrase s.path (extract_yubikey s))

-- The worlds of an open review: a merge opens it, and decisions that are refused leave it open.
pub data Reviewing (b64 : Base64) (before : VaultSession) : World → Type 0 where
  merged :
      (env : Env) (w : World) (incoming : VaultBody)
      → w.session ≡ some before
      → Reviewing b64 before (session_merge_vault_from_body b64 env w incoming).0
  refused :
      (env : Env) (w : World) (d : Decisions) (s : VaultSession) (e : SessionError)
      → Reviewing b64 before w
      → w.session ≡ some s
      → (do_apply_sync_decisions b64 env.now env.now_ms d s).1 ≡ err e
      → Reviewing b64 before (session_apply_sync_decisions b64 env w d).0

abbrev IsOpen : VaultSession → World → Type 0
IsOpen before w = (s : VaultSession) × (w.session ≡ some s) × IsUnderReview before s

commit_review-refused :
    (env : Env) (w : World) (r : VaultSession × Result SessionError (Unit {0})) (e : SessionError)
    → r.1 ≡ err e
    → (commit_review env w r).0.session ≡ some r.0
unfolding commit_review
commit_review-refused env w (s, ok u) e h = absurd (ground arith)
commit_review-refused env w (s, err x) e h = refl
commit_review-refused env w (s, panic) e h = refl

with_session_here :
    {A : Type 0} (w : World) (s : VaultSession) (a : A) (f : VaultSession → A)
    → w.session ≡ some s
    → with_session w a f ≡ f s
with_session_here w s a f here =
    ap (λ (o : Option VaultSession). elim o [ none ↦ a | some s' ↦ f s' ]) here

merge-session :
    (b64 : Base64) (env : Env) (w : World) (incoming : VaultBody) (s : VaultSession)
    → w.session ≡ some s
    → (session_merge_vault_from_body b64 env w incoming).0.session
      ≡ some (do_merge b64.encode (record s { pre_sync_backup = some (snapshot s) }) incoming).0
unfolding session_merge_vault_from_body
merge-session b64 env w incoming s here =
    ap (λ (o : Outcome MergeSummary). o.0.session) (with_session_here w s _ _ here)
    ∙ do_save-session env _ w

apply-session :
    (b64 : Base64) (env : Env) (w : World) (d : Decisions) (s : VaultSession) (e : SessionError)
    → w.session ≡ some s
    → (do_apply_sync_decisions b64 env.now env.now_ms d s).1 ≡ err e
    → (session_apply_sync_decisions b64 env w d).0.session
      ≡ some (do_apply_sync_decisions b64 env.now env.now_ms d s).0
unfolding session_apply_sync_decisions
apply-session b64 env w d s e here why =
    ap (λ (o : Outcome (Unit {0})). o.0.session) (with_session_here w s _ _ here)
    ∙ commit_review-refused env w _ e why

Reviewing-IsOpen :
    {b64 : Base64} {before : VaultSession} {w : World} → Reviewing b64 before w → IsOpen before w
Reviewing-IsOpen {b64} {before} (merged env w incoming here) = (
  _,
  merge-session b64 env w incoming before here,
  do_merge-IsUnderReview b64.encode before incoming,
)
Reviewing-IsOpen {b64} {before} (refused env w d s e open_review here why) =
    let (s', here', under) = Reviewing-IsOpen open_review in
    (
      _,
      apply-session b64 env w d s e here why,
      do_apply_sync_decisions-IsUnderReview b64 env.now env.now_ms d before s
          (subst (IsUnderReview before) (eq_of_some (sym here' ∙ here)) under),
    )

-- After a merge, and after decisions that were refused, cancelling the review saves the session as
-- it was before the merge.
pub session_cancel_sync_lem :
    (b64 : Base64) (before : VaultSession) (env : Env) (w : World)
    → Reviewing b64 before w
    → session_cancel_sync env w ≡ do_save env (record before { pre_sync_backup = none }) w
unfolding session_cancel_sync
session_cancel_sync_lem b64 before env w review =
    let (s, here, under) = Reviewing-IsOpen review in
    with_session_here w s _ _ here
    ∙ ap
        (λ (o : Option SyncBackup). elim o [
          | none ↦ (w, ok tt)
          | some b ↦
              do_save env
                (record s {
                  folders = b.folders;
                  entries = b.entries;
                  deleted_ids = b.deleted_ids;
                  pre_sync_backup = none;
                })
                w
        ])
        under.backup
    ∙ ap (λ t. do_save env t w) under.kept
