-- ===== src/Storage/Saving.antt =====
-- What every run of a save keeps of the vault file and its safety copy.
use gabbro.Bytes.{Bytes, bytes_eq}
use gabbro.Files.{Disk, FileName, Node, content_of, symlink_metadata, put, file}
use gabbro.Files.Rules.{Keeps, Keeps-ask, Keeps-bind, Keeps-map_error, Keeps-weaken, returns}
use gabbro.Storage.Steps.{
  Keeps-atomic_write, Keeps-check_not_symlink, Keeps-lift, Keeps-read_or, Keeps-sync_backup,
}
use gabbro.Prelude.{
  Option, ap, false, if_elim, inl, inr, ok, refl, some, subst, sym, ◌∙◌, ◌≡◌, ◌⊎◌, eq_of_some,
}
use gabbro.FileFormat.{SealedVault, from_bytes, to_bytes}
use gabbro.Storage.Siblings.{
  bak-ne-path, bak_tmp-ne-path, path-ne-bak, put-here, put-other, tmp-ne-bak, tmp-ne-path,
}
use gabbro.Storage.{
  bak_path, is_some, rotate_backup, rotate_existing, rotation_failed, tmp_path,
  verify_and_sync_backup, write_vault, could_not_read_vault, could_not_reread,
}
use gabbro.FileFormat.Panics.{from_bytes-ne-panic}

-- While `new` is saved at the path: the vault file is as before or has `new`, and the safety copy is
-- as before, or has what the vault file had, or `new`.
pub record IsSaving (p : FileName) (new : Bytes) (before d : Disk) : Type 0 where
  pub vault : (d p ≡ before p) ⊎ (d p ≡ some (file new))
  pub copy :
      (d (bak_path p) ≡ before (bak_path p))
      ⊎ ((old : Bytes) × ((old ≡ new) ⊎ (content_of (before p) ≡ some old))
          × (d (bak_path p) ≡ some (file old)))

module _ (p : FileName) (new : Bytes) (before : Disk) where
  IsSaving-elsewhere :
      (t : FileName) (n : Option Node) (d : Disk)
      → bytes_eq t p ≡ false
      → bytes_eq t (bak_path p) ≡ false
      → IsSaving p new before d
      → IsSaving p new before (put t n d)
  IsSaving-elsewhere t n d not_vault not_copy h = record {
    vault =
        subst (λ x. (x ≡ before p) ⊎ (x ≡ some (file new))) (sym (put-other t p n d not_vault))
          h.vault;
    copy =
        subst
          (λ x.
            (x ≡ before (bak_path p))
            ⊎ ((old : Bytes) × ((old ≡ new) ⊎ (content_of (before p) ≡ some old))
                × (x ≡ some (file old))))
          (sym (put-other t (bak_path p) n d not_copy)) h.copy;
  }

  IsSaving-vault :
      (d : Disk) → IsSaving p new before d → IsSaving p new before (put p (some (file new)) d)
  IsSaving-vault d h = record {
    vault = inr (put-here p _ d);
    copy =
        subst
          (λ x.
            (x ≡ before (bak_path p))
            ⊎ ((old : Bytes) × ((old ≡ new) ⊎ (content_of (before p) ≡ some old))
                × (x ≡ some (file old))))
          (sym (put-other p (bak_path p) _ d (path-ne-bak p))) h.copy;
  }

  IsSaving-copy :
      (old : Bytes)
      → (old ≡ new) ⊎ (content_of (before p) ≡ some old)
      → (d : Disk) → IsSaving p new before d
      → IsSaving p new before (put (bak_path p) (some (file old)) d)
  IsSaving-copy old known d h = record {
    vault =
        subst (λ x. (x ≡ before p) ⊎ (x ≡ some (file new)))
          (sym (put-other (bak_path p) p _ d (bak-ne-path p))) h.vault;
    copy = inr (old, known, put-here (bak_path p) _ d);
  }

  IsSaving-tmp :
      (n : Option Node) (d : Disk)
      → IsSaving p new before d
      → IsSaving p new before (put (tmp_path p) n d)
  IsSaving-tmp n d = IsSaving-elsewhere (tmp_path p) n d (tmp-ne-path p) (tmp-ne-bak p)

  IsSaving-copy_tmp :
      (n : Option Node) (d : Disk)
      → IsSaving p new before d
      → IsSaving p new before (put (tmp_path (bak_path p)) n d)
  IsSaving-copy_tmp n d =
      IsSaving-elsewhere (tmp_path (bak_path p)) n d (bak_tmp-ne-path p) (tmp-ne-path (bak_path p))

  -- The vault file's content goes to the safety copy.
  rotate_backup-IsSaving :
      (d : Disk)
      → d ≡ before
      → IsSaving p new before d
      → Keeps (IsSaving p new before) (λ u d'. Unit {0}) d (rotate_backup p)
  unfolding rotate_backup rotate_existing
  rotate_backup-IsSaving d same i =
      Keeps-bind
        (Keeps-ask (symlink_metadata p) i (λ r d' a. subst (IsSaving p new before) (sym a.0) i))
        (λ r d1 i1 a.
          if_elim (Keeps (IsSaving p new before) (λ u d'. Unit {0}) d1) (is_some r)
            (λ _. Keeps-map_error rotation_failed (
              Keeps-bind (Keeps-check_not_symlink d1 (bak_path p) i1) (λ u d2 i2 e2.
                Keeps-bind (Keeps-read_or d2 could_not_read_vault p i2) (λ previous d3 i3 e3.
                  let known : content_of (before p) ≡ some previous =
                    ap (λ (x : Disk). content_of (x p)) (sym same ∙ sym a.0 ∙ sym e2) ∙ e3.1 in
                  Keeps-weaken
                    (Keeps-atomic_write d3 (bak_path p) previous IsSaving-copy_tmp
                      (IsSaving-copy previous (inr known)) i3)
                    (λ _ _ _. tt)))))
            (λ _. returns i1 tt))

  verify_and_sync_backup-IsSaving :
      (d : Disk)
      → d p ≡ some (file new)
      → IsSaving p new before d
      → Keeps
          (IsSaving p new before)
          (λ u d'.
            (d' p ≡ some (file new))
            × (d' (bak_path p) ≡ some (file new))
            × (v : SealedVault) × (from_bytes new ≡ ok v))
          d
          (verify_and_sync_backup p)
  unfolding verify_and_sync_backup
  verify_and_sync_backup-IsSaving d whole i =
      Keeps-bind (Keeps-read_or d could_not_reread p i) (λ written d1 i1 e1.
        let same : written ≡ new = eq_of_some (sym e1.1 ∙ ap content_of whole) in
        Keeps-bind
          (Keeps-lift {Q = λ v d'. (d' ≡ d1) × (from_bytes written ≡ ok v)} (from_bytes written)
            (from_bytes-ne-panic written) i1 (λ v parsed. (refl, parsed)))
          (λ v d2 i2 e2.
            Keeps-weaken
              (Keeps-sync_backup d2 p new (ap (λ (x : Disk). x p) (e2.0 ∙ e1.0) ∙ whole)
                IsSaving-copy_tmp (IsSaving-copy new (inl refl)) i2)
              (λ u d3 q. (q.0, q.1, v, ap from_bytes (sym same) ∙ e2.1))))

  pub write_vault-IsSaving :
      (sealed : SealedVault)
      → to_bytes sealed ≡ new
      → Keeps
          (IsSaving p new before)
          (λ u d'.
            (d' p ≡ some (file new))
            × (d' (bak_path p) ≡ some (file new))
            × (v : SealedVault) × (from_bytes new ≡ ok v))
          before
          (write_vault sealed p)
  unfolding write_vault
  write_vault-IsSaving sealed written =
      Keeps-bind (Keeps-check_not_symlink before p start) (λ u d1 i1 e1.
        Keeps-bind (rotate_backup-IsSaving d1 e1 i1) (λ u d2 i2 e2.
          Keeps-bind
            (Keeps-atomic_write d2 p (to_bytes sealed) IsSaving-tmp
              (λ e j.
                subst (λ b. IsSaving p new before (put p (some (file b)) e)) (sym written)
                  (IsSaving-vault e j))
              i2)
            (λ u d3 i3 e3.
              verify_and_sync_backup-IsSaving d3 (e3.0 ∙ ap (λ b. some (file b)) written) i3)))
    where
      start : IsSaving p new before before
      start = record { vault = inl refl; copy = inl refl }
