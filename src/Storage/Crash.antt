-- ===== src/Storage/Crash.antt =====
-- What a save leaves on the disk wherever the machine stops.
use gabbro.Bytes.{Bytes}
use gabbro.Files.{Disk, FileName, content_of, file, Ends, Reached, unsynced}
use gabbro.Files.Rules.{Ends-Keeps, Reached-Keeps}
use gabbro.Prelude.{ap, inl, inr, ok, refl, some, sym, ◌∙◌, ◌≡◌, ◌⊎◌, eq_of_some, arith}
use gabbro.FileFormat.{SealedVault, from_bytes, to_bytes}
use gabbro.Storage.{bak_path, write_vault}
use gabbro.FileFormat.RoundTrip.{IsWritable, from_bytes-written}
use gabbro.Storage.Saving.{write_vault-IsSaving}

-- A vault file on the disk.
abbrev pub HasVault : FileName → SealedVault → Disk → Type 0
HasVault q v d = (b : Bytes) × (d q ≡ some (file b)) × (from_bytes b ≡ ok v)

-- A machine that stops and starts again: a file that was not on the disk yet has any content.
abbrev pub Restarted : Disk → Disk → Type 0
Restarted d later =
    (q : FileName)
    → (later q ≡ d q)
      ⊎ ((x : Bytes) × (y : Bytes) × (d q ≡ some (unsynced x)) × (later q ≡ some (file y)))

pub Restarted-file :
    (d later : Disk) (q : FileName) (b : Bytes)
    → Restarted d later
    → d q ≡ some (file b)
    → later q ≡ some (file b)
Restarted-file d later q b again here = elim (again q) [
  | inl same ↦ same ∙ here
  | inr lost ↦ absurd (ground (arith, lost.2, here))
]

-- Wherever a save stops, of a vault that can be written, over a vault file with its safety copy:
-- after a restart the file holds the old vault or the new one, and the copy is a vault too, its own,
-- the old one or the new one.
pub write_vault-crash :
    (sealed old copied : SealedVault) (p : FileName) (before now later : Disk)
    → IsWritable sealed
    → HasVault p old before
    → HasVault (bak_path p) copied before
    → Reached now before (write_vault sealed p)
    → Restarted now later
    → (HasVault p old later ⊎ HasVault p sealed later)
      × (HasVault (bak_path p) copied later
          ⊎ (HasVault (bak_path p) old later ⊎ HasVault (bak_path p) sealed later))
write_vault-crash sealed old copied p before now later fits (b, in_file, parsed)
      (c, in_copy, copy_parsed) reached again =
    let saving =
      Reached-Keeps reached (write_vault-IsSaving p (to_bytes sealed) before sealed refl) in
    let whole : from_bytes (to_bytes sealed) ≡ ok sealed = from_bytes-written sealed fits in
    (
      elim saving.vault [
        | inl same ↦ inl (b, Restarted-file now later p b again (same ∙ in_file), parsed)
        | inr new ↦ inr (to_bytes sealed, Restarted-file now later p _ again new, whole)
      ],
      elim saving.copy [
        | inl same ↦
            inl (c, Restarted-file now later (bak_path p) c again (same ∙ in_copy), copy_parsed)
        | inr moved ↦
            let held = Restarted-file now later (bak_path p) moved.0 again moved.2 in
            elim moved.1 [
              | inl e ↦ inr (inr (moved.0, held, ap from_bytes e ∙ whole))
              | inr e ↦ inr (
                  inl (
                    moved.0,
                    held,
                    ap from_bytes (eq_of_some (sym e ∙ ap content_of in_file)) ∙ parsed,
                  ))
            ]
      ],
    )

-- A save of a vault that can be written, if it succeeds, leaves the vault in the file and in the
-- safety copy.
write_vault-saved :
    (sealed : SealedVault) (p : FileName) (before now : Disk)
    → IsWritable sealed
    → Ends now (ok tt) before (write_vault sealed p)
    → HasVault p sealed now × HasVault (bak_path p) sealed now
write_vault-saved sealed p before now fits ends =
    let (in_file, in_copy, v, parsed) =
      Ends-Keeps ends (write_vault-IsSaving p (to_bytes sealed) before sealed refl) in
    let whole : from_bytes (to_bytes sealed) ≡ ok sealed = from_bytes-written sealed fits in
    ((to_bytes sealed, in_file, whole), (to_bytes sealed, in_copy, whole))
