-- ===== src/Storage/Whole.antt =====
-- The calls of vault/io.rs on one path, in any order, stopped anywhere, keep a whole vault in the file.
use gabbro.Prelude.{
  Bool, Option, false, if_elim, inl, inr, none, ok, some, subst, sym, true, ◌∙◌, ◌≡◌,
}
use gabbro.Bytes.{Bytes, bytes_eq}
use gabbro.Files.{Disk, FileName, FileType, Node, remove_file, symlink_metadata, file, put}
use gabbro.Files.Rules.{
  Keeps, Keeps-ask, Keeps-bind, Keeps-caught, Keeps-map_error, Keeps-read, Keeps-weaken, returns,
}
use gabbro.Storage.Steps.{
  Keeps-atomic_write, Keeps-check_not_symlink, Keeps-lift, Keeps-read_or, Keeps-require,
  Keeps-sync_backup,
}
use gabbro.FileFormat.{SealedVault, from_bytes}
use gabbro.Storage.{
  atomic_write_0600, bak_path, is_removed, keeping_failed, pre_restore_path, remove_backup,
  sync_backup_to_current, tmp_path, could_not_read_backup, could_not_keep_old, could_not_delete,
  could_not_read_source, lift,
}
use gabbro.Storage.Restore.{
  backup_usable, is_ok, keep_copy, old_copy, preserve_pre_restore, restore_vault_backup,
  restore_vault_from_file, seen_unless, parses,
}
use gabbro.Storage.Siblings.{
  bak-ne-path, bak_tmp-ne-path, pre-ne-path, pre_tmp-ne-path, put-here, put-other, tmp-ne-path,
}
use gabbro.FileFormat.Panics.{from_bytes-ne-panic}

-- The file at the path is a vault.
pub record IsWhole (p : FileName) (d : Disk) : Type 0 where
  pub bytes : Bytes
  pub vault : SealedVault
  pub in_file : d p ≡ some (file bytes)
  pub parsed : from_bytes bytes ≡ ok vault

module _ (p : FileName) where
  IsWhole-elsewhere :
      (t : FileName)
      → bytes_eq t p ≡ false
      → (n : Option Node) (d : Disk) → IsWhole p d
      → IsWhole p (put t n d)
  IsWhole-elsewhere t other n d h = record {
    bytes = h.bytes;
    vault = h.vault;
    in_file = put-other t p n d other ∙ h.in_file;
    parsed = h.parsed;
  }

  IsWhole-put :
      (b : Bytes) (v : SealedVault)
      → from_bytes b ≡ ok v
      → (d : Disk) → IsWhole p d
      → IsWhole p (put p (some (file b)) d)
  IsWhole-put b v parsed d h = record {
    bytes = b;
    vault = v;
    in_file = put-here p _ d;
    parsed = parsed;
  }

  Keeps-elsewhere :
      (q : FileName) (b : Bytes) (d : Disk)
      → bytes_eq (tmp_path q) p ≡ false
      → bytes_eq q p ≡ false
      → IsWhole p d
      → Keeps (IsWhole p) (λ u d'. Unit {0}) d (atomic_write_0600 q b)
  Keeps-elsewhere q b d other_tmp other h =
      Keeps-weaken
        (Keeps-atomic_write d q b (IsWhole-elsewhere (tmp_path q) other_tmp)
          (IsWhole-elsewhere q other (some (file b))) h)
        (λ _ _ _. tt)

  pub sync_backup-IsWhole :
      (d : Disk) → IsWhole p d → Keeps (IsWhole p) (λ u d'. Unit {0}) d (sync_backup_to_current p)
  sync_backup-IsWhole d h =
      Keeps-weaken
        (Keeps-sync_backup d p h.bytes h.in_file
          (IsWhole-elsewhere (tmp_path (bak_path p)) (bak_tmp-ne-path p))
          (IsWhole-elsewhere (bak_path p) (bak-ne-path p) (some (file h.bytes))) h)
        (λ _ _ _. tt)

  parse-IsWhole :
      (b : Bytes) (d : Disk)
      → IsWhole p d
      → Keeps (IsWhole p) (λ v d'. from_bytes b ≡ ok v) d (lift (from_bytes b))
  parse-IsWhole b d h = Keeps-lift (from_bytes b) (from_bytes-ne-panic b) h (λ v e. e)

  pub restore_vault_backup-IsWhole :
      (d : Disk) → IsWhole p d → Keeps (IsWhole p) (λ u d'. Unit {0}) d (restore_vault_backup p)
  unfolding restore_vault_backup
  restore_vault_backup-IsWhole d h = Keeps-bind (Keeps-check_not_symlink d p h) (λ u d1 h1 e1.
      Keeps-bind (Keeps-check_not_symlink d1 (bak_path p) h1) (λ u d2 h2 e2.
        Keeps-bind (Keeps-read_or d2 could_not_read_backup (bak_path p) h2) (λ b d3 h3 e3.
          Keeps-bind (parse-IsWhole b d3 h3) (λ v d4 h4 parsed.
            Keeps-weaken
              (Keeps-atomic_write d4 p b (IsWhole-elsewhere (tmp_path p) (tmp-ne-path p))
                (IsWhole-put b v parsed) h4)
              (λ _ _ _. tt)))))

  parses-IsWhole :
      (o : Option Bytes) (d : Disk)
      → IsWhole p d
      → Keeps (IsWhole p) (λ b d'. Unit {0}) d (parses o)
  unfolding parses
  parses-IsWhole none d h = returns h tt
  parses-IsWhole (some b) d h =
      Keeps-bind (Keeps-caught (parse-IsWhole b d h)) (λ r d1 h1 e. returns h1 tt)

  backup_usable-IsWhole :
      (d : Disk) → IsWhole p d → Keeps (IsWhole p) (λ b d'. Unit {0}) d (backup_usable p)
  unfolding backup_usable
  backup_usable-IsWhole d h =
      Keeps-bind (Keeps-caught (Keeps-check_not_symlink d (bak_path p) h)) (λ safe d1 h1 e1.
        if_elim (Keeps (IsWhole p) (λ b d'. Unit {0}) d1) (is_ok safe)
          (λ _. Keeps-bind (Keeps-read (bak_path p) h1) (λ o d2 h2 e2. parses-IsWhole o d2 h2))
          (λ _. returns h1 tt))

  old_copy-IsWhole :
      (usable : Bool) (seen : Option FileType) (d : Disk)
      → IsWhole p d
      → Keeps (IsWhole p) (λ b d'. Unit {0}) d (old_copy p usable seen)
  unfolding old_copy
  old_copy-IsWhole true seen d h =
      Keeps-bind (Keeps-read_or d could_not_keep_old (bak_path p) h) (λ b d1 h1 e. returns h1 tt)
  old_copy-IsWhole false none d h = returns h tt
  old_copy-IsWhole false (some t) d h =
      Keeps-bind (Keeps-read_or d could_not_keep_old p h) (λ b d1 h1 e. returns h1 tt)

  keep_copy-IsWhole :
      (o : Option Bytes) (d : Disk)
      → IsWhole p d
      → Keeps (IsWhole p) (λ u d'. Unit {0}) d (keep_copy p o)
  unfolding keep_copy
  keep_copy-IsWhole none d h = returns h tt
  keep_copy-IsWhole (some b) d h =
      Keeps-elsewhere (pre_restore_path p) b d (pre_tmp-ne-path p) (pre-ne-path p) h

  preserve_pre_restore-IsWhole :
      (d : Disk) → IsWhole p d → Keeps (IsWhole p) (λ u d'. Unit {0}) d (preserve_pre_restore p)
  unfolding preserve_pre_restore seen_unless
  preserve_pre_restore-IsWhole d h = Keeps-map_error keeping_failed (
      Keeps-bind (Keeps-check_not_symlink d (pre_restore_path p) h) (λ u d1 h1 e1.
        Keeps-bind (backup_usable-IsWhole d1 h1) (λ usable d2 h2 e2.
          Keeps-bind (seen_unless-IsWhole usable d2 h2) (λ seen d3 h3 e3.
            Keeps-bind (old_copy-IsWhole usable seen d3 h3)
              (λ o d4 h4 e4. keep_copy-IsWhole o d4 h4)))))
    where
      seen_unless-IsWhole :
          (usable : Bool) (d : Disk)
          → IsWhole p d
          → Keeps (IsWhole p) (λ s d'. Unit {0}) d (seen_unless usable p)
      seen_unless-IsWhole true d h = returns h tt
      seen_unless-IsWhole false d h =
          Keeps-weaken (Keeps-ask (symlink_metadata p) h (λ r d' a. subst (IsWhole p) (sym a.0) h))
            (λ _ _ _. tt)

  pub restore_vault_from_file-IsWhole :
      (source : FileName) (d : Disk)
      → IsWhole p d
      → Keeps (IsWhole p) (λ u d'. Unit {0}) d (restore_vault_from_file p source)
  unfolding restore_vault_from_file
  restore_vault_from_file-IsWhole source d h =
      Keeps-bind (Keeps-check_not_symlink d p h) (λ u d1 h1 e1.
        Keeps-bind (Keeps-check_not_symlink d1 source h1) (λ u d2 h2 e2.
          Keeps-bind (Keeps-read_or d2 could_not_read_source source h2) (λ b d3 h3 e3.
            Keeps-bind (parse-IsWhole b d3 h3) (λ v d4 h4 parsed.
              Keeps-bind (preserve_pre_restore-IsWhole d4 h4) (λ u d5 h5 e5.
                Keeps-bind
                  (Keeps-atomic_write d5 p b (IsWhole-elsewhere (tmp_path p) (tmp-ne-path p))
                    (IsWhole-put b v parsed) h5)
                  (λ u d6 h6 e6. sync_backup-IsWhole d6 h6))))))

  pub remove_backup-IsWhole :
      (d : Disk) → IsWhole p d → Keeps (IsWhole p) (λ u d'. Unit {0}) d (remove_backup p)
  unfolding remove_backup
  remove_backup-IsWhole d h =
      Keeps-bind
        (Keeps-ask (remove_file (bak_path p)) h (λ r d' a. elim a [
          | inl x ↦ subst (IsWhole p) (sym x.1) h
          | inr x ↦ elim x [
            | inl y ↦ subst (IsWhole p) (sym y.2) h
            | inr y ↦
                subst (IsWhole p) (sym y.1)
                  (IsWhole-elsewhere (bak_path p) (bak-ne-path p) none d h)
          ]
        ]))
        (λ r d1 h1 e. Keeps-require could_not_delete (is_removed r) h1 (λ _. tt))
