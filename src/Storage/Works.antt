-- ===== src/Storage/Works.antt =====
-- The steps of vault/io.rs on a disk that lets them through.
use gabbro.Bytes.{Bytes, bytes_eq}
use gabbro.Files.{
  Disk, FileName, content_of, is_openable, type_of, put, file, unsynced, synced, open_truncated,
  read_file, symlink_metadata, sync_all, write_all, run, ask, rename,
}
use gabbro.Storage.{
  StorageError, atomic_write_0600, check_not_symlink, is_some, no_symlink, read_or, tmp_path,
  Storing, or_fail, could_not_create, require, path_is_symlink, checked, could_not_write,
  could_not_sync, could_not_rename,
}
use gabbro.Files.Runs.{Works, Works-ask, Works-bind, Works-weaken}
use gabbro.Prelude.{
  [], ap, false, none, refl, some, true, ◌∙◌, ◌≡◌, Bool, Option, arith, eq_of_some, ok, subst, sym,
}
use gabbro.Storage.Siblings.{put-here, put-other, path-ne-tmp}

-- A name that stands for nothing or for a file.
pub record IsPlain (q : FileName) (d : Disk) : Type 0 where
  pub no_link : no_symlink (type_of (d q)) ≡ true
  pub openable : is_openable (d q) ≡ true
  pub readable : is_some (type_of (d q)) ≡ is_some (content_of (d q))

pub IsPlain-file : (q : FileName) (d : Disk) (b : Bytes) → d q ≡ some (file b) → IsPlain q d
IsPlain-file q d b e = record { no_link = rw e refl; openable = rw e refl; readable = rw e refl }

pub IsPlain-same : (q : FileName) (d d' : Disk) → d' q ≡ d q → IsPlain q d → IsPlain q d'
IsPlain-same q d d' e h = record {
  no_link = rw e h.no_link;
  openable = rw e h.openable;
  readable = rw e h.readable;
}

pub Works-require :
    {Q : Unit {0} → Disk → Type 0} {d : Disk} (e : StorageError) (b : Bool)
    → b ≡ true
    → Q tt d
    → Works Q d (require e b)
Works-require e true h q = record { value = tt; left = _; runs = refl; good = q }
Works-require e false h q = absurd (ground arith)

pub Works-or_fail :
    {A : Type 0} {Q : A → Disk → Type 0} {d : Disk} {a : A} (e : StorageError) (o : Option A)
    → o ≡ some a
    → Q a d
    → Works Q d (or_fail e o)
Works-or_fail {Q = Q} {d = d} e (some b) h q = record {
  value = b;
  left = d;
  runs = refl;
  good = subst (λ x. Q x d) (sym (eq_of_some h)) q;
}
Works-or_fail e none h q = absurd (cc)

-- A call that the disk lets through.
pub Works-checked :
    {d d' : Disk} (e : StorageError) (t : Storing Bool)
    → run t d ≡ (ok true, d')
    → Works (λ u d''. d'' ≡ d') d (checked e t)
Works-checked {d' = d'} e t h =
    Works-bind {Q = λ b d''. (b ≡ true) × (d'' ≡ d')}
      (record { value = true; left = d'; runs = h; good = (refl, refl) })
      (λ b d'' q. Works-require e b q.0 q.1)

pub Works-check :
    (q : FileName) (d : Disk) → IsPlain q d → Works (λ u d'. d' ≡ d) d (check_not_symlink q)
unfolding check_not_symlink
Works-check q d h = Works-bind (Works-ask (symlink_metadata q) d) (λ r d' seen.
    Works-require path_is_symlink (no_symlink r) (ap no_symlink seen.0 ∙ h.no_link) seen.1)

pub Works-read :
    (e : StorageError) (q : FileName) (d : Disk) (b : Bytes)
    → content_of (d q) ≡ some b
    → Works (λ x d'. (x ≡ b) × (d' ≡ d)) d (read_or e q)
unfolding read_or
Works-read e q d b h =
    Works-bind (Works-ask (read_file q) d)
      (λ r d' seen. Works-or_fail e r (seen.0 ∙ h) (refl, seen.1))

-- The bytes are in the file, the temporary name is free again, and nothing else changes.
pub record IsWritten (p : FileName) (bytes : Bytes) (d d' : Disk) : Type 0 where
  pub in_file : d' p ≡ some (file bytes)
  pub no_tmp : d' (tmp_path p) ≡ none
  pub others : (q : FileName) → bytes_eq (tmp_path p) q ≡ false → bytes_eq p q ≡ false → d' q ≡ d q

pub IsWritten-disk :
    (p : FileName) (bytes : Bytes) (d : Disk)
    → let t = tmp_path p in
      let d1 = put t (some (unsynced [])) d in
      let d2 = put t (some (unsynced bytes)) d1 in
      let d3 = put t (synced (d2 t)) d2 in IsWritten p bytes d (put p (d3 t) (put t none d3))
IsWritten-disk p bytes d =
    let t = tmp_path p in
    let d1 = put t (some (unsynced [])) d in
    let d2 = put t (some (unsynced bytes)) d1 in
    let d3 = put t (synced (d2 t)) d2 in
    record {
      in_file =
          put-here p (d3 t) (put t none d3)
          ∙ put-here t (synced (d2 t)) d2
          ∙ ap synced (put-here t (some (unsynced bytes)) d1);
      no_tmp = put-other p t (d3 t) (put t none d3) (path-ne-tmp p) ∙ put-here t none d3;
      others = λ q other_t other_p.
          put-other p q (d3 t) (put t none d3) other_p
          ∙ put-other t q none d3 other_t
          ∙ put-other t q (synced (d2 t)) d2 other_t
          ∙ put-other t q (some (unsynced bytes)) d1 other_t
          ∙ put-other t q (some (unsynced [])) d other_t;
    }

pub Works-atomic_write :
    (p : FileName) (bytes : Bytes) (d : Disk)
    → is_openable (d (tmp_path p)) ≡ true
    → Works (λ u d'. IsWritten p bytes d d') d (atomic_write_0600 p bytes)
unfolding atomic_write_0600
Works-atomic_write p bytes d openable =
    let t = tmp_path p in
    let d1 = put t (some (unsynced [])) d in
    let d2 = put t (some (unsynced bytes)) d1 in
    let d3 = put t (synced (d2 t)) d2 in
    Works-bind
      (Works-checked {d' = d1} could_not_create (ask (open_truncated t)) (rw openable refl))
      (λ u e1 q1.
        Works-bind
          (Works-checked {d' = d2} could_not_write (ask (write_all t bytes))
            (ap (λ (x : Disk). (ok true, put t (some (unsynced bytes)) x)) q1))
          (λ u e2 q2.
            Works-bind
              (Works-checked {d' = d3} could_not_sync (ask (sync_all t))
                (ap (λ (x : Disk). (ok true, put t (synced (x t)) x)) q2))
              (λ u e3 q3.
                Works-weaken
                  (Works-checked {d' = put p (d3 t) (put t none d3)} could_not_rename
                    (ask (rename t p))
                    (ap (λ (x : Disk). (ok true, put p (x t) (put t none x))) q3))
                  (λ u e4 q4. subst (IsWritten p bytes d) (sym q4) (IsWritten-disk p bytes d)))))
