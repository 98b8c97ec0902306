-- ===== src/Vaults/Saved.antt =====
-- What is saved is loaded again: through the file system, the format, the cipher and the JSON.
use gabbro.Prelude.{
  Option, none, some, Result, ok, err, panic, ◌≡◌, ◌≢◌, refl, ◌∙◌, sym, ap, subst, length, ◌<◌, ◌≤◌,
  ◌^◌, ap₂,
}
use gabbro.Bytes.{Bytes}
use gabbro.Files.{Disk, FileName, Task, ◌>>=◌, content_of, file, run, return, caught}
use gabbro.Files.Runs.{
  Works, Works-bind, Works-map_error, Works-weaken, run-bind, run-caught, run_next, run_caught,
}
use gabbro.FileFormat.{SealedVault, FormatError, from_bytes, to_bytes}
use gabbro.FileFormat.RoundTrip.{IsWritable, from_bytes-written}
use gabbro.FileFormat.Panics.{from_bytes-ne-panic}
use gabbro.Storage.{
  StorageError, lift, or_fail, could_not_read_vault, check_not_symlink, read_or, require,
  path_is_symlink,
}
use gabbro.Storage.Restore.{read_vault_file}
use gabbro.Storage.Works.{IsPlain, IsPlain-file, Works-check, Works-read}
use gabbro.Storage.Saved.{IsReady, Works-write_vault, Works-lift}
use gabbro.Vaults.{
  Outside, VaultError, existing_alias, alias_read, lifted, save_vault, load_vault, in_storage,
  in_body, in_crypto,
}
use gabbro.Vaults.Sized.{IsAlias, seal_vault-IsWritable}
use gabbro.Crypto.Sealing.{IsDrawn, SealRandom, open_vault, seal_vault}
use gabbro.Serialization.RoundTrip.{IsSerde, deserialize-serialize_vault_body}
use gabbro.Crypto.{IsSound}
use gabbro.Session.{VaultBody}
use gabbro.Serialization.{deserialize_vault_body, serialize_vault_body}
use gabbro.Crypto.Sealing.RoundTrip.{open_vault-seal_vault}

-- The alias that a file holds: none where it is not read as a vault.
abbrev pub alias_parsed : Result FormatError SealedVault → Option Bytes
alias_parsed (ok v) = v.alias
alias_parsed (err e) = none
alias_parsed panic = none

unfoldable pub held_alias : Option Bytes → Option Bytes
unfolding from_bytes
held_alias none = none
held_alias (some bytes) = alias_parsed (from_bytes bytes)

abbrev alias_next : Result StorageError SealedVault → Task VaultError (Option Bytes)
alias_next r = return (alias_read r)

alias_run :
    (r : Result FormatError SealedVault) (d : Disk)
    → r ≢ panic
    → run_next alias_next (run_caught (run (lift r) d)) ≡ (ok (alias_parsed r), d)
alias_run (ok v) d ne = refl
alias_run (err e) d ne = refl
alias_run panic d ne = absurd (ne refl)

alias_of_content :
    (o : Option Bytes) (d : Disk)
    → run_next alias_next
        (run_caught (run (or_fail could_not_read_vault o >>= λ bytes. lift (from_bytes bytes)) d))
      ≡ (ok (held_alias o), d)
unfolding held_alias
alias_of_content none d = refl
alias_of_content (some bytes) d = alias_run (from_bytes bytes) d (from_bytes-ne-panic bytes)

read_run :
    (p : FileName) (d : Disk)
    → IsPlain p d
    → run (read_vault_file p) d
      ≡ run (or_fail could_not_read_vault (content_of (d p)) >>= λ bytes. lift (from_bytes bytes)) d
unfolding read_vault_file check_not_symlink read_or
read_run p d plain =
    subst
      (λ b.
        run
          (require path_is_symlink b >>= λ u.
            read_or could_not_read_vault p >>= λ bytes. lift (from_bytes bytes))
          d
        ≡ run (or_fail could_not_read_vault (content_of (d p)) >>= λ bytes. lift (from_bytes bytes))
            d)
      (sym plain.no_link) refl

pub Works-existing_alias :
    (p : FileName) (d : Disk)
    → IsPlain p d
    → Works (λ name d'. (name ≡ held_alias (content_of (d p))) × (d' ≡ d)) d (existing_alias p)
unfolding existing_alias
Works-existing_alias p d plain = record {
  value = held_alias (content_of (d p));
  left = d;
  runs =
      run-bind (caught (read_vault_file p)) alias_next d
      ∙ ap (run_next alias_next)
          (run-caught (read_vault_file p) d ∙ ap run_caught (read_run p d plain))
      ∙ alias_of_content (content_of (d p)) d;
  good = (refl, refl);
}

pub Works-lifted :
    {E A : Type 0} {d : Disk} (f : E → VaultError) (r : Result E A) (a : A)
    → r ≡ ok a
    → Works (λ b d'. (b ≡ a) × (d' ≡ d)) d (lifted f r)
Works-lifted {d = d} f r a h =
    subst (λ x. Works (λ b d'. (b ≡ a) × (d' ≡ d)) d (lifted f x)) (sym h)
      (record { value = a; left = d; runs = refl; good = (refl, refl) })

-- Reading a file that holds a vault.
pub Works-read_vault :
    (p : FileName) (d : Disk) (v : SealedVault)
    → d p ≡ some (file (to_bytes v))
    → from_bytes (to_bytes v) ≡ ok v
    → Works (λ x d'. (x ≡ v) × (d' ≡ d)) d (read_vault_file p)
unfolding read_vault_file
Works-read_vault p d v held whole =
    Works-bind (Works-check p d (IsPlain-file p d (to_bytes v) held)) (λ u d1 e1.
      Works-bind
        (Works-read could_not_read_vault p d1 (to_bytes v)
          (ap (λ (x : Disk). content_of (x p)) e1 ∙ ap content_of held))
        (λ b d2 e2.
          Works-weaken (Works-lift {d = d2} (from_bytes b) v (ap from_bytes e2.0 ∙ whole))
            (λ x d3 e3. (e3.0, e3.1 ∙ e2.1 ∙ e1))))

-- What a saved vault comes to: the call succeeds, and the file holds the vault.
Works-save_vault :
    (o : Outside) (r : SealRandom) (body : VaultBody) (passphrase : Bytes) (p : FileName) (d : Disk)
    (text : Bytes) (v : SealedVault)
    → IsReady p d
    → serialize_vault_body o.serde body ≡ ok text
    → seal_vault o.ciphers r passphrase text (held_alias (content_of (d p))) ≡ ok v
    → IsWritable v
    → Works (λ u d'. d' p ≡ some (file (to_bytes v))) d (save_vault o r body passphrase p)
unfolding save_vault
Works-save_vault o r body passphrase p d text v ready at_text at_v fits =
    Works-bind (Works-existing_alias p d ready.vault) (λ name d1 e1.
      Works-bind (Works-lifted {d = d1} in_body (serialize_vault_body o.serde body) text at_text)
        (λ t d2 e2.
          Works-bind
            (Works-lifted {d = d2} in_crypto (seal_vault o.ciphers r passphrase t name) v (
              ap₂ (λ (x : Bytes) (y : Option Bytes). seal_vault o.ciphers r passphrase x y) e2.0
                e1.0
              ∙ at_v))
            (λ x d3 e3.
              let same = e3.1 ∙ e2.1 ∙ e1.1 in
              Works-map_error in_storage (
                Works-weaken
                  (Works-write_vault x p d3
                    (ap (λ (y : SealedVault). from_bytes (to_bytes y)) e3.0
                      ∙ from_bytes-written v fits
                      ∙ ap ok (sym e3.0))
                    (subst (IsReady p) (sym same) ready))
                  (λ u d4 e4. e4 ∙ ap (λ (y : SealedVault). some (file (to_bytes y))) e3.0)))))

Works-load_vault :
    (o : Outside) (passphrase : Bytes) (p : FileName) (d : Disk) (v : SealedVault) (text : Bytes)
    (body : VaultBody)
    → d p ≡ some (file (to_bytes v))
    → from_bytes (to_bytes v) ≡ ok v
    → open_vault o.ciphers passphrase v ≡ ok text
    → deserialize_vault_body o.serde text ≡ ok body
    → Works (λ b d'. b ≡ body) d (load_vault o passphrase p)
unfolding load_vault
Works-load_vault o passphrase p d v text body held whole opens reads =
    Works-bind (Works-map_error in_storage (Works-read_vault p d v held whole)) (λ x d1 e1.
      Works-bind
        (Works-lifted {d = d1} in_crypto (open_vault o.ciphers passphrase x) text
          (ap (open_vault o.ciphers passphrase) e1.0 ∙ opens))
        (λ t d2 e2.
          Works-weaken
            (Works-lifted {d = d2} in_body (deserialize_vault_body o.serde t) body
              (ap (deserialize_vault_body o.serde) e2.0 ∙ reads))
            (λ b d3 e3. e3.0)))

-- On a disk that has no symlink or folder under the names that a save uses and that fails no call:
-- saving a body succeeds, loading the file with the passphrase gives the body, and the alias that the
-- file had is kept. The passphrase has less than 2^32 bytes, the serialized body at most 2^36, the
-- drawn bytes the lengths of their arrays, and the alias of the file is one that the format holds.
pub load_vault-save_vault :
    (o : Outside) (r : SealRandom) (body : VaultBody) (passphrase : Bytes) (p : FileName) (d : Disk)
    (text : Bytes)
    → IsSound o.ciphers
    → IsSerde o.serde
    → IsDrawn r
    → IsReady p d
    → length passphrase < 2 ^ 32
    → serialize_vault_body o.serde body ≡ ok text
    → length text ≤ 2 ^ 36
    → IsAlias (held_alias (content_of (d p)))
    → ((run (save_vault o r body passphrase p) d).0 ≡ ok tt)
      × ((run (load_vault o passphrase p) (run (save_vault o r body passphrase p) d).1).0 ≡ ok body)
      × (held_alias (content_of ((run (save_vault o r body passphrase p) d).1 p))
          ≡ held_alias (content_of (d p)))
unfolding held_alias
load_vault-save_vault o r body passphrase p d text sound is_serde drawn ready hp at_text ht named =
    let name = held_alias (content_of (d p)) in
    let (v, at_v, opens) =
      open_vault-seal_vault o.ciphers sound r passphrase text name drawn hp ht named.fits in
    let (fits, named_so) =
      seal_vault-IsWritable o.ciphers r passphrase text name v sound drawn named ht at_v in
    let whole = from_bytes-written v fits in
    let saved = Works-save_vault o r body passphrase p d text v ready at_text at_v fits in
    let back =
      Works-load_vault o passphrase p saved.left v text body saved.good whole opens
        (deserialize-serialize_vault_body o.serde body text is_serde at_text) in
    (
      ap (λ x. x.0) saved.runs,
      ap (λ x. (run (load_vault o passphrase p) x.1).0) saved.runs
          ∙ ap (λ x. x.0) back.runs
          ∙ ap ok back.good,
      ap (λ x. held_alias (content_of (x.1 p))) saved.runs
          ∙ ap (λ n. held_alias (content_of n)) saved.good
          ∙ ap alias_parsed whole
          ∙ named_so,
    )
