-- ===== src/Crypto/Keys/Changes.antt =====
-- What happens to a file with YubiKeys in its life, as api/vault.rs and vault/session.rs do it, and that
-- a key which stays registered goes on opening it. Every change seals the body again, since the
-- header is part of what is authenticated.
use gabbro.Prelude.{
  ok, ◌≡◌, ◌≢◌, refl, ◌∙◌, sym, ap, subst, length, ◌+◌, some, none, List, Bool-cases, Option, inl,
  inr, ◌++◌, [], ◌∷◌, true, eq_of_ok, false, ◌==◌,
}
use gabbro.Prelude.Chains.{>>=-eq-ok, ensure}
use gabbro.Bytes.{Bytes, bytes_eq}
use gabbro.Bytes.Equal.{bytes_eq_refl, eq_of_bytes_eq}
use gabbro.FileFormat.{SealedVault, YubiKeyRecord, version}
use gabbro.Crypto.{Primitives, IsSound, default_params, not_multi_key, wrong_passphrase}
use gabbro.Crypto.Sealing.{SealRandom, passphrase_key, reseal_vault_body}
use gabbro.Crypto.Sealing.RoundTrip.{seal_body-IsBody, open_body-seal_body}
use gabbro.Crypto.Keys.{
  YubiKeyRegistration, find_record, without_record, opened_blob, open_vault_with_key_record,
  add_key_to_sealed, remove_key_from_sealed, change_vault_passphrase_with_keys, wrapping_key_of,
  key_in_blob,
}
use gabbro.Crypto.Keys.Unlock.{Unlocks, opened_iff, opened-key_in_blob, wrapping_key_of-opens}

pub find_record-append :
    (id : Bytes) (rs : List YubiKeyRecord) (r found : YubiKeyRecord)
    → find_record id rs ≡ some found
    → find_record id (rs ++ (r ∷ [])) ≡ some found
unfolding find_record
find_record-append id [] r found h = cc
find_record-append id (x ∷ rs) r found h = elim (Bool-cases (bytes_eq x.credential_id id)) [
  | inl same ↦ rw same (rw same at h)
  | inr other ↦ rw other (find_record-append id rs r found (rw other at h))
]

pub find_record-last :
    (id : Bytes) (rs : List YubiKeyRecord) (r : YubiKeyRecord)
    → find_record id rs ≡ none
    → r.credential_id ≡ id
    → find_record id (rs ++ (r ∷ [])) ≡ some r
unfolding find_record
find_record-last id [] r h same = rw (ap (λ x. bytes_eq x id) same ∙ bytes_eq_refl id) refl
find_record-last id (x ∷ rs) r h same = elim (Bool-cases (bytes_eq x.credential_id id)) [
  | inl here ↦ absurd (cc (rw here at h))
  | inr other ↦ rw other (find_record-last id rs r (rw other at h) same)
]

bytes_eq-ne : (x gone id : Bytes) → bytes_eq x gone ≡ true → gone ≢ id → bytes_eq x id ≡ false
bytes_eq-ne x gone id same ne = elim (Bool-cases (bytes_eq x id)) [
  | inl here ↦ absurd (ne (sym (eq_of_bytes_eq x gone same) ∙ eq_of_bytes_eq x id here))
  | inr other ↦ other
]

pub find_record-without_record :
    (id gone : Bytes) (rs : List YubiKeyRecord)
    → gone ≢ id
    → find_record id (without_record gone rs) ≡ find_record id rs
unfolding find_record without_record
find_record-without_record id gone [] ne = refl
find_record-without_record id gone (x ∷ rs) ne = elim (Bool-cases (bytes_eq x.credential_id gone)) [
  | inl same ↦ rw (same, bytes_eq-ne x.credential_id gone id same ne) refl
  | inr other ↦ rw (other, find_record-without_record id gone rs ne) refl
]

module _ (p : Primitives) (sound : IsSound p) where
  -- Sealing the body again keeps the keys, and opens to the new body.
  pub open-reseal_vault_body :
      (passphrase hmac_secret credential : Bytes) (v : SealedVault)
      (wrapping master iv plaintext : Bytes) (v' : SealedVault)
      → Unlocks p passphrase hmac_secret credential v wrapping master
      → reseal_vault_body p iv v master plaintext ≡ ok v'
      → open_vault_with_key_record p passphrase hmac_secret credential v'
        ≡ ok (plaintext, master, some wrapping)
  unfolding reseal_vault_body
  open-reseal_vault_body passphrase hmac_secret credential v wrapping master iv plaintext v' u h =
      let dated : SealedVault = record v { version_byte = version } in
      let b = seal_body-IsBody p dated master iv plaintext h in
      (opened_iff p passphrase hmac_secret credential v' plaintext wrapping master).1 (
        subst (λ x. Unlocks p passphrase hmac_secret credential x wrapping master) (sym b.made)
            (record {
              intermediate = u.intermediate;
              keyed = u.keyed;
              found = u.found;
              at_found = u.at_found;
              blob_length = u.blob_length;
              blob_opens = u.blob_opens;
              wrapping_length = u.wrapping_length;
              key_blob_length = u.key_blob_length;
              key_opens = u.key_opens;
              master_length = u.master_length;
            }),
        open_body-seal_body p sound dated master iv plaintext h,
      )

  pub Unlocks-records :
      {passphrase hmac_secret credential : Bytes} {v : SealedVault} {wrapping master : Bytes}
      (rs : List YubiKeyRecord)
      → (u : Unlocks p passphrase hmac_secret credential v wrapping master)
      → find_record credential rs ≡ some u.found
      → Unlocks p passphrase hmac_secret credential
          (record v { yubikey_records = rs })
          wrapping
          master
  Unlocks-records rs u at_rs = record {
    intermediate = u.intermediate;
    keyed = u.keyed;
    found = u.found;
    at_found = at_rs;
    blob_length = u.blob_length;
    blob_opens = u.blob_opens;
    wrapping_length = u.wrapping_length;
    key_blob_length = u.key_blob_length;
    key_opens = u.key_opens;
    master_length = u.master_length;
  }

  -- A new passphrase opens the wrapping key that the old one opened.
  pub Unlocks-passphrase :
      (fresh : SealRandom) (old_passphrase new_passphrase hmac_secret credential : Bytes)
      (v : SealedVault) (wrapping master : Bytes) (v' : SealedVault)
      → length fresh.nonce ≡ 12
      → Unlocks p old_passphrase hmac_secret credential v wrapping master
      → change_vault_passphrase_with_keys p fresh v old_passphrase new_passphrase ≡ ok v'
      → Unlocks p new_passphrase hmac_secret credential v' wrapping master
  unfolding change_vault_passphrase_with_keys
  Unlocks-passphrase fresh old_passphrase new_passphrase hmac_secret credential v wrapping master v'
        hn u h =
      let (old, at_old, h1) =
        >>=-eq-ok (passphrase_key p old_passphrase v.argon2_salt v.hkdf_salt v.params) _ h in
      let (_, _, h2) = >>=-eq-ok (ensure not_multi_key (length v.passphrase_blob == 60)) _ h1 in
      let (w, at_w, h3) =
        >>=-eq-ok (wrapping_key_of p wrong_passphrase old v.passphrase_blob) _ h2 in
      let (new, at_new, h4) =
        >>=-eq-ok (passphrase_key p new_passphrase fresh.argon2_salt fresh.hkdf_salt default_params)
          _ h3 in
      let (blob, at_blob, made) = >>=-eq-ok (key_in_blob p new fresh.nonce w) _ h4 in
      let same_key : old ≡ u.intermediate = eq_of_ok (sym at_old ∙ u.keyed) in
      let same : w ≡ wrapping = eq_of_ok (
        sym (wrapping_key_of-opens p _ old v.passphrase_blob w at_w).0
        ∙ ap (λ k. opened_blob p k v.passphrase_blob) same_key
        ∙ u.blob_opens) in
      let sealed = opened-key_in_blob p sound new fresh.nonce w hn blob at_blob in
      subst (λ x. Unlocks p new_passphrase hmac_secret credential x wrapping master) (eq_of_ok made)
        (record {
          intermediate = new;
          keyed = at_new;
          found = u.found;
          at_found = u.at_found;
          blob_length =
              sealed.1
              ∙ ap (λ (x : Bytes). 28 + length x) same
              ∙ ap (λ n. 28 + n) u.wrapping_length;
          blob_opens = sealed.0 ∙ ap ok same;
          wrapping_length = u.wrapping_length;
          key_blob_length = u.key_blob_length;
          key_opens = u.key_opens;
          master_length = u.master_length;
        })

-- A file with YubiKeys, the passphrase it has, and the body that was sealed last.
pub record KeyedFile : Type 0 where
  pub passphrase : Bytes
  pub body : Bytes
  pub sealed : SealedVault

-- The changes of a file, in a session that holds its keys, but for the removal of `credential`:
-- a save, a new alias of the vault, a key more, a key less, and a new passphrase.
pub data Changed (p : Primitives) (wrapping master credential : Bytes)
    : KeyedFile → KeyedFile → Type 0 where
  saved :
      (f : KeyedFile) (iv text : Bytes) (v : SealedVault)
      → reseal_vault_body p iv f.sealed master text ≡ ok v
      → Changed p wrapping master credential f (record f { body = text; sealed = v })
  renamed :
      (f : KeyedFile) (name : Option Bytes) (iv text : Bytes) (v : SealedVault)
      → reseal_vault_body p iv (record f.sealed { alias = name }) master text ≡ ok v
      → Changed p wrapping master credential f (record f { body = text; sealed = v })
  key_added :
      (f : KeyedFile) (k : YubiKeyRegistration) (blob_nonce iv text : Bytes) (added v : SealedVault)
      → add_key_to_sealed p blob_nonce f.sealed k wrapping master ≡ ok added
      → reseal_vault_body p iv added master text ≡ ok v
      → Changed p wrapping master credential f (record f { body = text; sealed = v })
  key_removed :
      (f : KeyedFile) (gone iv text : Bytes) (rest v : SealedVault)
      → gone ≢ credential
      → remove_key_from_sealed f.sealed gone ≡ ok rest
      → reseal_vault_body p iv rest master text ≡ ok v
      → Changed p wrapping master credential f (record f { body = text; sealed = v })
  passphrase_changed :
      (f : KeyedFile) (fresh : SealRandom) (new iv text : Bytes) (changed v : SealedVault)
      → length fresh.nonce ≡ 12
      → change_vault_passphrase_with_keys p fresh f.sealed f.passphrase new ≡ ok changed
      → reseal_vault_body p iv changed master text ≡ ok v
      → Changed p wrapping master credential f
          (record { passphrase = new; body = text; sealed = v })

pub data History (p : Primitives) (wrapping master credential : Bytes)
    : KeyedFile → KeyedFile → Type 0 where
  start : (f : KeyedFile) → History p wrapping master credential f f
  then_changed :
      (f g h : KeyedFile)
      → History p wrapping master credential f g
      → Changed p wrapping master credential g h
      → History p wrapping master credential f h

-- The key opens the file, under its passphrase, to its body.
pub record IsOpened (p : Primitives) (hmac_secret credential wrapping master : Bytes)
    (f : KeyedFile) : Type 0 where
  pub opens :
      open_vault_with_key_record p f.passphrase hmac_secret credential f.sealed
      ≡ ok (f.body, master, some wrapping)
