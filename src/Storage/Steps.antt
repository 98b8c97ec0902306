-- ===== src/Storage/Steps.antt =====
-- The rules of Files for the steps of vault/io.rs.
-- A call that changes the disk or fails.
use gabbro.Prelude.{
  Bool, Option, Result, [], ap, arith, err, false, inl, inr, none, ok, panic, refl, some, subst,
  sym, true, ◌∙◌, ◌≡◌, ◌≢◌, ◌⊎◌, eq_of_some,
}
use gabbro.Bytes.{Bytes, bytes_eq}
use gabbro.Files.{
  Disk, FileName, Node, content_of, open_truncated, symlink_metadata, write_all, put, unsynced, ask,
  sync_all, synced, file, rename,
}
use gabbro.FileFormat.{FormatError}
use gabbro.Files.Rules.{
  Keeps, Keeps-ask, Keeps-bind, Keeps-read, returns, fails, Keeps-weaken, Keeps-map_error,
}
use gabbro.Storage.{
  StorageError, check_not_symlink, no_symlink, or_fail, read_or, path_is_symlink, require, lift,
  checked, atomic_write_0600, tmp_path, bak_path, refresh_failed, sync_backup_to_current,
  could_not_read_vault,
}
use gabbro.Storage.Siblings.{put-here, put-other, bak-ne-path, bak_tmp-ne-path}

abbrev Attempt : Bool → Disk → Disk → Disk → Type 0
Attempt r d e d' = ((r ≡ false) × (d' ≡ d)) ⊎ ((r ≡ true) × (d' ≡ e))

Attempt-done : (r : Bool) {d e d' : Disk} → Attempt r d e d' → r ≡ true → d' ≡ e
Attempt-done r (inl x) sure = absurd (ground (arith, x.0, sure))
Attempt-done r (inr x) sure = x.1

Attempt-kept : (I : Disk → Type 0) {r : Bool} {d e d' : Disk} → Attempt r d e d' → I d → I e → I d'
Attempt-kept I (inl x) i j = subst I (sym x.1) i
Attempt-kept I (inr x) i j = subst I (sym x.1) j

module _ {I : Disk → Type 0} where
  pub Keeps-require :
      {Q : Unit {0} → Disk → Type 0} {d : Disk} (e : StorageError) (b : Bool)
      → I d
      → (b ≡ true → Q tt d)
      → Keeps I Q d (require e b)
  Keeps-require e true i q = returns i (q refl)
  Keeps-require e false i q = fails i

  pub Keeps-or_fail :
      {A : Type 0} {Q : A → Disk → Type 0} {d : Disk} (e : StorageError) (o : Option A)
      → I d
      → ((a : A) → o ≡ some a → Q a d)
      → Keeps I Q d (or_fail e o)
  Keeps-or_fail e (some a) i q = returns i (q a refl)
  Keeps-or_fail e none i q = fails i

  pub Keeps-lift :
      {A : Type 0} {Q : A → Disk → Type 0} {d : Disk} (r : Result FormatError A)
      → r ≢ panic
      → I d
      → ((a : A) → r ≡ ok a → Q a d)
      → Keeps I Q d (lift r)
  Keeps-lift (ok a) safe i q = returns i (q a refl)
  Keeps-lift (err e) safe i q = fails i
  Keeps-lift panic safe i q = absurd (safe refl)

  pub Keeps-check_not_symlink :
      (d : Disk) (p : FileName) → I d → Keeps I (λ u d'. d' ≡ d) d (check_not_symlink p)
  unfolding check_not_symlink
  Keeps-check_not_symlink d p i =
      Keeps-bind (Keeps-ask (symlink_metadata p) i (λ r d' a. subst I (sym a.0) i))
        (λ r d' i' a. Keeps-require path_is_symlink (no_symlink r) i' (λ _. a.0))

  pub Keeps-read_or :
      (d : Disk) (e : StorageError) (p : FileName)
      → I d
      → Keeps I (λ b d'. (d' ≡ d) × (content_of (d p) ≡ some b)) d (read_or e p)
  unfolding read_or
  Keeps-read_or d e p i = Keeps-bind (Keeps-read p i) (λ r d' i' a. Keeps-or_fail e r i' (λ b here.
      (a.0, elim a.1 [ inl x ↦ absurd (ground (arith, x, here)) | inr x ↦ sym x ∙ here ])))

  module _ (t : FileName) (free : (n : Option Node) (e : Disk) → I e → I (put t n e)) where
    Keeps-open :
        (d : Disk) (e : StorageError)
        → I d
        → Keeps I (λ u d'. d' ≡ put t (some (unsynced [])) d) d (checked e (ask (open_truncated t)))
    Keeps-open d e i =
        Keeps-bind
          (Keeps-ask (open_truncated t) i (λ r d' a. elim a [
            | inl x ↦ subst I (sym x.1) i
            | inr x ↦ subst I (sym x.2) (free _ d i)
          ]))
          (λ r d' i' a.
            Keeps-require e r i'
              (λ sure. elim a [ inl x ↦ absurd (ground (arith, x.0, sure)) | inr x ↦ x.2 ]))

    Keeps-write_all :
        (d : Disk) (e : StorageError) (bytes : Bytes)
        → I d
        → Keeps I
            (λ u d'. d' ≡ put t (some (unsynced bytes)) d)
            d
            (checked e (ask (write_all t bytes)))
    Keeps-write_all d e bytes i =
        Keeps-bind (Keeps-ask (write_all t bytes) i (λ r d' a. subst I (sym a.1) (free _ d i)))
          (λ r d' i' a. Keeps-require e r i' (λ sure. elim a.2 [
            | inl x ↦ absurd (ground (arith, x, sure))
            | inr x ↦ a.1 ∙ ap (λ y. put t (some (unsynced y)) d) x.1
          ]))

    Keeps-sync_all :
        (d : Disk) (e : StorageError)
        → I d
        → Keeps I (λ u d'. d' ≡ put t (synced (d t)) d) d (checked e (ask (sync_all t)))
    Keeps-sync_all d e i =
        Keeps-bind (Keeps-ask (sync_all t) i (λ r d' a. Attempt-kept I a i (free _ d i)))
          (λ r d' i' a. Keeps-require e r i' (λ sure. Attempt-done r a sure))

    Keeps-rename :
        (d : Disk) (e : StorageError) (p : FileName)
        → I d
        → I (put p (d t) (put t none d))
        → Keeps I (λ u d'. d' ≡ put p (d t) (put t none d)) d (checked e (ask (rename t p)))
    Keeps-rename d e p i j =
        Keeps-bind (Keeps-ask (rename t p) i (λ r d' a. Attempt-kept I a i j))
          (λ r d' i' a. Keeps-require e r i' (λ sure. Attempt-done r a sure))

  -- The temporary file holds the bytes before it is renamed; nothing but it and the path changes.
  pub Keeps-atomic_write :
      (d : Disk) (p : FileName) (bytes : Bytes)
      → ((n : Option Node) (e : Disk) → I e → I (put (tmp_path p) n e))
      → ((e : Disk) → I e → I (put p (some (file bytes)) e))
      → I d
      → Keeps I
          (λ u d'.
            (d' p ≡ some (file bytes))
            × ((q : FileName)
                → bytes_eq (tmp_path p) q ≡ false
                → bytes_eq p q ≡ false
                → d' q ≡ d q))
          d
          (atomic_write_0600 p bytes)
  unfolding atomic_write_0600
  Keeps-atomic_write d p bytes free lands i =
      let t = tmp_path p in
      Keeps-bind (Keeps-open t free d _ i) (λ u d1 i1 e1.
        Keeps-bind (Keeps-write_all t free d1 _ bytes i1) (λ u d2 i2 e2.
          Keeps-bind (Keeps-sync_all t free d2 _ i2) (λ u d3 i3 e3.
            let whole : d3 t ≡ some (file bytes) =
              ap (λ (x : Disk). x t) e3
              ∙ put-here t _ d2
              ∙ ap (λ (x : Disk). synced (x t)) e2
              ∙ ap synced (put-here t _ d1) in
            Keeps-weaken
              (Keeps-rename t free d3 _ p i3
                (subst (λ n. I (put p n (put t none d3))) (sym whole) (lands _ (free none d3 i3))))
              (λ u d4 e4. (
                ap (λ (x : Disk). x p) e4 ∙ put-here p _ (put t none d3) ∙ whole,
                λ q other_t other_p.
                    ap (λ (x : Disk). x q) e4
                    ∙ put-other p q _ (put t none d3) other_p
                    ∙ put-other t q none d3 other_t
                    ∙ ap (λ (x : Disk). x q) e3
                    ∙ put-other t q _ d2 other_t
                    ∙ ap (λ (x : Disk). x q) e2
                    ∙ put-other t q _ d1 other_t
                    ∙ ap (λ (x : Disk). x q) e1
                    ∙ put-other t q _ d other_t,
              )))))

  -- The safety copy gets the bytes of the vault file, which stays as it is.
  pub Keeps-sync_backup :
      (d : Disk) (p : FileName) (bytes : Bytes)
      → d p ≡ some (file bytes)
      → ((n : Option Node) (e : Disk) → I e → I (put (tmp_path (bak_path p)) n e))
      → ((e : Disk) → I e → I (put (bak_path p) (some (file bytes)) e))
      → I d
      → Keeps I
          (λ u d'. (d' p ≡ some (file bytes)) × (d' (bak_path p) ≡ some (file bytes)))
          d
          (sync_backup_to_current p)
  unfolding sync_backup_to_current
  Keeps-sync_backup d p bytes whole free lands i = Keeps-map_error refresh_failed (
      Keeps-bind (Keeps-check_not_symlink d (bak_path p) i) (λ u d1 i1 e1.
        Keeps-bind (Keeps-read_or d1 could_not_read_vault p i1) (λ current d2 i2 e2.
          let held : d2 p ≡ some (file bytes) = ap (λ (x : Disk). x p) (e2.0 ∙ e1) ∙ whole in
          let same : bytes ≡ current =
            eq_of_some (sym (ap content_of (ap (λ (x : Disk). x p) e1 ∙ whole)) ∙ e2.1) in
          Keeps-weaken
            (Keeps-atomic_write d2 (bak_path p) current free
              (λ e j. subst (λ b. I (put (bak_path p) (some (file b)) e)) same (lands e j)) i2)
            (λ u d3 q. (
              q.1 p (bak_tmp-ne-path p) (bak-ne-path p) ∙ held,
              q.0 ∙ ap (λ b. some (file b)) (sym same),
            )))))
