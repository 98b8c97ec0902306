-- ===== src/Vaults/Resealed.antt =====
-- A file with keys that is saved: a key that opened it loads the new body.
use gabbro.Prelude.{Option, some, ok, ◌≡◌, refl, ◌∙◌, sym, ap, ap₂, subst, length, ◌≤◌, ◌^◌, arith}
use gabbro.Bytes.{Bytes}
use gabbro.Files.{Disk, FileName, file, run}
use gabbro.Files.Runs.{Works, Works-bind, Works-map_error, Works-weaken}
use gabbro.FileFormat.{SealedVault, from_bytes, to_bytes, header_aad, version}
use gabbro.FileFormat.RoundTrip.{IsWritable, from_bytes-written}
use gabbro.FileFormat.Sizes.{header_aad_fits, length-header_aad, length-to_bytes}
use gabbro.Storage.Saved.{IsReady, Works-write_vault}
use gabbro.Crypto.{Primitives, IsSound}
use gabbro.Crypto.Sealing.{reseal_vault_body}
use gabbro.Crypto.Sealing.RoundTrip.{seal_body-IsBody, seal_body_done}
use gabbro.Crypto.Keys.{open_vault_with_key_record}
use gabbro.Crypto.Keys.Unlock.{opened_iff}
use gabbro.Crypto.Keys.Changes.{open-reseal_vault_body}
use gabbro.Serialization.{serialize_vault_body, deserialize_vault_body}
use gabbro.Serialization.RoundTrip.{IsSerde, deserialize-serialize_vault_body}
use gabbro.Session.{VaultBody}
use gabbro.Vaults.{
  Outside, reseal_vault_file, reseal_and_write, load_vault_with_key_record, in_body, in_crypto,
  in_storage,
}
use gabbro.Vaults.Sized.{IsWritable-body}
use gabbro.Vaults.Saved.{Works-lifted, Works-read_vault}

IsWritable-dated :
    (v : SealedVault) → IsWritable v → IsWritable (record v { version_byte = version })
IsWritable-dated v h = record {
  oldest = omega arith;
  newest = omega arith;
  m_fits = h.m_fits;
  t_fits = h.t_fits;
  p_fits = h.p_fits;
  argon2_salt_length = h.argon2_salt_length;
  hkdf_salt_length = h.hkdf_salt_length;
  nonce_length = h.nonce_length;
  record_count = h.record_count;
  records = h.records;
  alias_fits = h.alias_fits;
  alias_utf8 = h.alias_utf8;
  alias_set = h.alias_set;
  blob_fits = h.blob_fits;
  body_fits = h.body_fits;
  file_fits = omega (
    arith,
    h.file_fits,
    length-to_bytes v,
    length-to_bytes (record v { version_byte = version }),
    length-header_aad v,
    length-header_aad (record v { version_byte = version }),
  );
}

-- Sealing the body of a vault that can be written again succeeds, and can be written.
pub reseal_vault_body_done :
    (p : Primitives) (iv : Bytes) (v : SealedVault) (master text : Bytes)
    → IsSound p
    → IsWritable v
    → length iv ≡ 12
    → length master ≡ 32
    → length text ≤ 2 ^ 36
    → (v' : SealedVault) × (reseal_vault_body p iv v master text ≡ ok v') × IsWritable v'
unfolding reseal_vault_body
reseal_vault_body_done p iv v master text sound fits hi hm ht =
    let dated : SealedVault = record v { version_byte = version } in
    let dated_fits = IsWritable-dated v fits in
    let aad = header_aad_fits dated dated_fits in
    let (v', at_v) = seal_body_done p sound dated master iv text hm hi ht aad in
    let b = seal_body-IsBody p dated master iv text at_v in
    (
      v',
      at_v,
      subst IsWritable (sym b.made) (
          IsWritable-body dated iv b.sealed dated_fits hi
            (omega (arith, sound.tagged master iv text (header_aad dated) b.sealed b.seals, ht))
            aad),
    )

-- A header that can be written is sealed with a body, and the file written.
pub Works-reseal_and_write :
    (o : Outside) (iv : Bytes) (v : SealedVault) (master text : Bytes) (p : FileName) (d : Disk)
    (v' : SealedVault)
    → IsReady p d
    → reseal_vault_body o.ciphers iv v master text ≡ ok v'
    → IsWritable v'
    → Works (λ u d'. d' p ≡ some (file (to_bytes v'))) d (reseal_and_write o iv v master text p)
unfolding reseal_and_write
Works-reseal_and_write o iv v master text p d v' ready at_v fits =
    Works-bind
      (Works-lifted {d = d} in_crypto (reseal_vault_body o.ciphers iv v master text) v' at_v)
      (λ x d1 e1. Works-map_error in_storage (
        Works-weaken
          (Works-write_vault x p d1
            (ap (λ (y : SealedVault). from_bytes (to_bytes y)) e1.0
              ∙ from_bytes-written v' fits
              ∙ ap ok (sym e1.0))
            (subst (IsReady p) (sym e1.1) ready))
          (λ u d2 e2. e2 ∙ ap (λ (y : SealedVault). some (file (to_bytes y))) e1.0)))

Works-load_with_key :
    (o : Outside) (passphrase hmac_secret credential : Bytes) (p : FileName) (d : Disk)
    (v : SealedVault) (text wrapping master : Bytes) (body : VaultBody)
    → d p ≡ some (file (to_bytes v))
    → from_bytes (to_bytes v) ≡ ok v
    → open_vault_with_key_record o.ciphers passphrase hmac_secret credential v
      ≡ ok (text, master, some wrapping)
    → deserialize_vault_body o.serde text ≡ ok body
    → Works
        (λ b d'. b ≡ (body, master, some wrapping))
        d
        (load_vault_with_key_record o passphrase hmac_secret credential p)
unfolding load_vault_with_key_record
Works-load_with_key o passphrase hmac_secret credential p d v text wrapping master body held whole
      opens reads =
    Works-bind (Works-map_error in_storage (Works-read_vault p d v held whole)) (λ x d1 e1.
      Works-bind
        (Works-lifted {d = d1} in_crypto
          (open_vault_with_key_record o.ciphers passphrase hmac_secret credential x)
          (text, master, some wrapping)
          (ap (open_vault_with_key_record o.ciphers passphrase hmac_secret credential) e1.0
            ∙ opens))
        (λ t d2 e2.
          Works-bind
            (Works-lifted {d = d2} in_body (deserialize_vault_body o.serde t.0) body (
              ap (λ (y : Bytes × Bytes × Option Bytes). deserialize_vault_body o.serde y.0) e2.0
              ∙ reads))
            (λ b d3 e3. record {
              value = (b, t.1, t.2);
              left = d3;
              runs = refl;
              good =
                  ap₂ (λ (y : VaultBody) (z : Bytes × Bytes × Option Bytes). (y, z.1, z.2)) e3.0
                    e2.0;
            })))

Works-reseal_vault_file :
    (o : Outside) (iv : Bytes) (body : VaultBody) (master : Bytes) (p : FileName) (d : Disk)
    (v : SealedVault) (text : Bytes) (v' : SealedVault)
    → IsReady p d
    → d p ≡ some (file (to_bytes v))
    → IsWritable v
    → serialize_vault_body o.serde body ≡ ok text
    → reseal_vault_body o.ciphers iv v master text ≡ ok v'
    → IsWritable v'
    → Works (λ u d'. d' p ≡ some (file (to_bytes v'))) d (reseal_vault_file o iv body master p)
unfolding reseal_vault_file
Works-reseal_vault_file o iv body master p d v text v' ready held fits at_text at_v fits' =
    Works-bind
      (Works-map_error in_storage (Works-read_vault p d v held (from_bytes-written v fits)))
      (λ x d1 e1.
        Works-bind (Works-lifted {d = d1} in_body (serialize_vault_body o.serde body) text at_text)
          (λ t d2 e2.
            Works-reseal_and_write o iv x master t p d2 v'
              (subst (IsReady p) (sym (e2.1 ∙ e1.1)) ready)
              (ap₂ (λ (y : SealedVault) (z : Bytes). reseal_vault_body o.ciphers iv y master z) e1.0
                  e2.0
                ∙ at_v)
              fits'))

-- On a disk that has no symlink or folder under the names that a save uses and that fails no call, over
-- a file whose vault can be written and which a key opens: a save with the master key succeeds, and
-- loading the file with that key gives the saved body and the same two keys. The serialized body has
-- at most 2^36 bytes.
pub load_vault_with_key_record-reseal_vault_file :
    (o : Outside) (iv passphrase hmac_secret credential : Bytes) (p : FileName) (d : Disk)
    (v : SealedVault) (old text wrapping master : Bytes) (body : VaultBody)
    → IsSound o.ciphers
    → IsSerde o.serde
    → IsReady p d
    → length iv ≡ 12
    → d p ≡ some (file (to_bytes v))
    → IsWritable v
    → open_vault_with_key_record o.ciphers passphrase hmac_secret credential v
      ≡ ok (old, master, some wrapping)
    → serialize_vault_body o.serde body ≡ ok text
    → length text ≤ 2 ^ 36
    → ((run (reseal_vault_file o iv body master p) d).0 ≡ ok tt)
      × ((run
            (load_vault_with_key_record o passphrase hmac_secret credential p)
            (run (reseal_vault_file o iv body master p) d).1).0
          ≡ ok (body, master, some wrapping))
load_vault_with_key_record-reseal_vault_file o iv passphrase hmac_secret credential p d v old text
      wrapping master body sound is_serde ready hi held fits opens at_text ht =
    let u =
      ((opened_iff o.ciphers passphrase hmac_secret credential v old wrapping master).0 opens).0 in
    let (v', at_v, fits') =
      reseal_vault_body_done o.ciphers iv v master text sound fits hi u.master_length ht in
    let saved =
      Works-reseal_vault_file o iv body master p d v text v' ready held fits at_text at_v fits' in
    let back =
      Works-load_with_key o passphrase hmac_secret credential p saved.left v' text wrapping master
        body saved.good (from_bytes-written v' fits')
        (open-reseal_vault_body o.ciphers sound passphrase hmac_secret credential v wrapping master
          iv text v' u at_v)
        (deserialize-serialize_vault_body o.serde body text is_serde at_text) in
    (
      ap (λ x. x.0) saved.runs,
      ap (λ x. (run (load_vault_with_key_record o passphrase hmac_secret credential p) x.1).0)
            saved.runs
          ∙ ap (λ x. x.0) back.runs
          ∙ ap ok back.good,
    )
