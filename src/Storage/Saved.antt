-- ===== src/Storage/Saved.antt =====
-- A save succeeds where the disk allows it, and the vault reads back.
use gabbro.Bytes.{Bytes}
use gabbro.Files.{Disk, FileName, content_of, is_openable, type_of, file, symlink_metadata, run}
use gabbro.Storage.{
  is_some, tmp_path, bak_path, refresh_failed, rotate_backup, rotate_existing, rotation_failed,
  sync_backup_to_current, verify_and_sync_backup, write_vault, could_not_read_vault,
  could_not_reread, lift,
}
use gabbro.Files.Runs.{Works, Works-ask, Works-bind, Works-weaken, Works-map_error}
use gabbro.Prelude.{
  ap, none, refl, some, true, ◌∙◌, ◌≡◌, Option, arith, ok, subst, sym, Result, if_elim,
}
use gabbro.Storage.Siblings.{
  bak-ne-path, bak-ne-tmp, bak_tmp-ne-path, bak_tmp-ne-tmp, path-ne-bak, path-ne-bak_tmp,
  tmp-ne-bak, tmp-ne-bak_tmp,
}
use gabbro.FileFormat.{FormatError, SealedVault, from_bytes, to_bytes}
use gabbro.FileFormat.RoundTrip.{IsWritable, from_bytes-written}
use gabbro.Storage.Restore.{read_vault_file}
use gabbro.Storage.Works.{
  IsPlain, IsPlain-file, IsPlain-same, IsWritten, Works-atomic_write, Works-check, Works-read,
}

-- What a save needs of the disk: no symlinks or folders under the names that it uses.
pub record IsReady (p : FileName) (d : Disk) : Type 0 where
  pub vault : IsPlain p d
  pub copy : IsPlain (bak_path p) d
  pub tmp : is_openable (d (tmp_path p)) ≡ true
  pub copy_tmp : is_openable (d (tmp_path (bak_path p))) ≡ true

IsReady-rotated :
    (p : FileName) (bytes : Bytes) (d d' : Disk)
    → IsReady p d
    → IsWritten (bak_path p) bytes d d'
    → IsReady p d'
IsReady-rotated p bytes d d' ready w = record {
  vault = IsPlain-same p d d' (w.others p (bak_tmp-ne-path p) (bak-ne-path p)) ready.vault;
  copy = IsPlain-file (bak_path p) d' bytes w.in_file;
  tmp = ap is_openable (w.others (tmp_path p) (bak_tmp-ne-tmp p) (bak-ne-tmp p)) ∙ ready.tmp;
  copy_tmp = ap is_openable w.no_tmp;
}

IsReady-saved :
    (p : FileName) (bytes : Bytes) (d d' : Disk)
    → IsReady p d
    → IsWritten p bytes d d'
    → IsReady p d'
IsReady-saved p bytes d d' ready w = record {
  vault = IsPlain-file p d' bytes w.in_file;
  copy =
      IsPlain-same (bak_path p) d d' (w.others (bak_path p) (tmp-ne-bak p) (path-ne-bak p))
        ready.copy;
  tmp = ap is_openable w.no_tmp;
  copy_tmp =
      ap is_openable (w.others (tmp_path (bak_path p)) (tmp-ne-bak_tmp p) (path-ne-bak_tmp p))
      ∙ ready.copy_tmp;
}

is_some-elim : {A : Type 0} (o : Option A) → is_some o ≡ true → (a : A) × (o ≡ some a)
is_some-elim none h = absurd (ground arith)
is_some-elim (some a) h = (a, refl)

Works-rotate_existing :
    (p : FileName) (d : Disk)
    → IsReady p d
    → is_some (type_of (d p)) ≡ true
    → Works (λ u d'. IsReady p d') d (rotate_existing p)
unfolding rotate_existing
Works-rotate_existing p d ready there =
    let (previous, held) = is_some-elim (content_of (d p)) (sym ready.vault.readable ∙ there) in
    Works-map_error rotation_failed (
      Works-bind (Works-check (bak_path p) d ready.copy) (λ u d1 e1.
        Works-bind
          (Works-read could_not_read_vault p d1 previous
            (ap (λ (x : Disk). content_of (x p)) e1 ∙ held))
          (λ b d2 e2.
            let same = e2.1 ∙ e1 in
            let ready2 : IsReady p d2 = subst (IsReady p) (sym same) ready in
            Works-weaken (Works-atomic_write (bak_path p) b d2 ready2.copy_tmp)
              (λ u d3 w. IsReady-rotated p b d2 d3 ready2 w))))

Works-rotate_backup :
    (p : FileName) (d : Disk) → IsReady p d → Works (λ u d'. IsReady p d') d (rotate_backup p)
unfolding rotate_backup
Works-rotate_backup p d ready = Works-bind (Works-ask (symlink_metadata p) d) (λ r d1 seen.
    if_elim (Works (λ u d'. IsReady p d') d1) (is_some r)
      (λ there.
        Works-rotate_existing p d1 (subst (IsReady p) (sym seen.1) ready)
          (ap (λ (x : Disk). is_some (type_of (x p))) seen.1 ∙ ap is_some (sym seen.0) ∙ there))
      (λ _. record {
        value = tt;
        left = d1;
        runs = refl;
        good = subst (IsReady p) (sym seen.1) ready;
      }))

Works-sync_backup :
    (p : FileName) (bytes : Bytes) (d : Disk)
    → IsReady p d
    → d p ≡ some (file bytes)
    → Works (λ u d'. d' p ≡ some (file bytes)) d (sync_backup_to_current p)
unfolding sync_backup_to_current
Works-sync_backup p bytes d ready held = Works-map_error refresh_failed (
    Works-bind (Works-check (bak_path p) d ready.copy) (λ u d1 e1.
      Works-bind
        (Works-read could_not_read_vault p d1 bytes
          (ap (λ (x : Disk). content_of (x p)) e1 ∙ ap content_of held))
        (λ b d2 e2.
          let same = e2.1 ∙ e1 in
          Works-weaken
            (Works-atomic_write (bak_path p) b d2
              (ap (λ (x : Disk). is_openable (x (tmp_path (bak_path p)))) same ∙ ready.copy_tmp))
            (λ u d3 w.
              w.others p (bak_tmp-ne-path p) (bak-ne-path p)
              ∙ ap (λ (x : Disk). x p) same
              ∙ held))))

pub Works-lift :
    {A : Type 0} {d : Disk} (r : Result FormatError A) (a : A)
    → r ≡ ok a
    → Works (λ b d'. (b ≡ a) × (d' ≡ d)) d (lift r)
Works-lift {d = d} r a h =
    subst (λ x. Works (λ b d'. (b ≡ a) × (d' ≡ d)) d (lift x)) (sym h)
      (record { value = a; left = d; runs = refl; good = (refl, refl) })

pub Works-write_vault :
    (sealed : SealedVault) (p : FileName) (d : Disk)
    → from_bytes (to_bytes sealed) ≡ ok sealed
    → IsReady p d
    → Works (λ u d'. d' p ≡ some (file (to_bytes sealed))) d (write_vault sealed p)
unfolding write_vault verify_and_sync_backup
Works-write_vault sealed p d whole ready = Works-bind (Works-check p d ready.vault) (λ u d1 e1.
    Works-bind (Works-rotate_backup p d1 (subst (IsReady p) (sym e1) ready)) (λ u d2 ready2.
      Works-bind (Works-atomic_write p (to_bytes sealed) d2 ready2.tmp) (λ u d3 w.
        Works-bind (Works-read could_not_reread p d3 (to_bytes sealed) (ap content_of w.in_file))
          (λ b d4 e4.
            Works-bind (Works-lift {d = d4} (from_bytes b) sealed (ap from_bytes e4.0 ∙ whole))
              (λ v d5 e5.
                let same = e5.1 ∙ e4.1 in
                Works-sync_backup p (to_bytes sealed) d5
                  (subst (IsReady p) (sym same) (IsReady-saved p (to_bytes sealed) d2 d3 ready2 w))
                  (ap (λ (x : Disk). x p) same ∙ w.in_file))))))

-- On a disk that has no symlink or folder under the names that a save uses and that fails no call,
-- a save of a vault that can be written succeeds, and reading the file gives the vault.
pub read_vault-write_vault :
    (sealed : SealedVault) (p : FileName) (d : Disk)
    → IsWritable sealed
    → IsReady p d
    → ((run (write_vault sealed p) d).0 ≡ ok tt)
      × ((run (read_vault_file p) (run (write_vault sealed p) d).1).0 ≡ ok sealed)
unfolding read_vault_file
read_vault-write_vault sealed p d fits ready =
    let whole : from_bytes (to_bytes sealed) ≡ ok sealed = from_bytes-written sealed fits in
    let saved = Works-write_vault sealed p d whole ready in
    let held : saved.left p ≡ some (file (to_bytes sealed)) = saved.good in
    let back : Works (λ v d'. v ≡ sealed) saved.left (read_vault_file p) =
      Works-bind (Works-check p saved.left (IsPlain-file p saved.left (to_bytes sealed) held))
        (λ u d1 e1.
          Works-bind
            (Works-read could_not_read_vault p d1 (to_bytes sealed)
              (ap (λ (x : Disk). content_of (x p)) e1 ∙ ap content_of held))
            (λ b d2 e2.
              Works-weaken (Works-lift {d = d2} (from_bytes b) sealed (ap from_bytes e2.0 ∙ whole))
                (λ v d3 q. q.0))) in
    (
      ap (λ x. x.0) saved.runs,
      ap (λ x. (run (read_vault_file p) x.1).0) saved.runs
          ∙ ap (λ x. x.0) back.runs
          ∙ ap ok back.good,
    )
