-- ===== src/Crypto/Keys/Creation.antt =====
-- A vault that is made with several keys: sealing it succeeds, and every key opens it.
use gabbro.Prelude.{
  ok, ◌≡◌, refl, ◌∙◌, sym, ap, subst, length, some, none, eq_of_ok, [], ◌∷◌, Option, List, ℕ, suc,
  ◌<◌, ◌≤◌, ◌^◌, All, arith, Bool-cases, inl, inr, if◌then◌else◌, ◌++◌, eq_of_some, false,
  replicate, true, le→ltb,
}
use gabbro.Prelude.Chains.{>>=-eq-ok}
use gabbro.Bytes.{Bytes, bytes_eq}
use gabbro.FileFormat.{SealedVault, YubiKeyRecord, alias_text, version}
use gabbro.FileFormat.Sizes.{length-header_aad, length-records_bytes}
use gabbro.Crypto.{Primitives, IsSound, default_params, combine_yubikey, encrypt}
use gabbro.Crypto.Sealing.{IsDrawn, seal_body, passphrase_key}
use gabbro.Crypto.Sealing.RoundTrip.{
  seal_body-IsBody, open_body-seal_body, seal_body_done, passphrase_key_done,
}
use gabbro.Crypto.Keys.{
  YubiKeyRegistration, KeysRandom, find_record, record_of, records_of, key_in_blob,
  seal_vault_with_keys, open_vault_with_key_record,
}
use gabbro.Crypto.Keys.Unlock.{Unlocks, opened_iff, opened-key_in_blob}
use gabbro.Crypto.Keys.Histories.{record_of-opens}
use gabbro.FileFormat.RoundTrip.{IsWritableRecord}

pub record IsDrawnKeys (r : KeysRandom) : Type 0 where
  pub body : IsDrawn r.body
  pub wrapping_key : length r.wrapping_key ≡ 32
  pub blob_nonce : length r.blob_nonce ≡ 12
  pub vault_key_master : length r.vault_key_master ≡ 32
  pub key_nonce : (n : ℕ) → length (r.key_nonce n) ≡ 12

pub record IsRegistration (k : YubiKeyRegistration) : Type 0 where
  pub id_fits : length k.credential_id < 2 ^ 16
  pub salt_length : length k.salt ≡ 32

-- The first key with the id.
unfoldable pub first_with : Bytes → List YubiKeyRegistration → Option YubiKeyRegistration
first_with id [] = none
first_with id (k ∷ ks) = if bytes_eq k.credential_id id then some k else first_with id ks

find_record-here :
    (id : Bytes) (r : YubiKeyRecord) (rs : List YubiKeyRecord)
    → bytes_eq r.credential_id id ≡ true
    → find_record id (r ∷ rs) ≡ some r
unfolding find_record
find_record-here id r rs h = rw h refl

find_record-there :
    (id : Bytes) (r : YubiKeyRecord) (rs : List YubiKeyRecord)
    → bytes_eq r.credential_id id ≡ false
    → find_record id (r ∷ rs) ≡ find_record id rs
unfolding find_record
find_record-there id r rs h = rw h refl

module _ (p : Primitives) (sound : IsSound p) where
  key_in_blob_done :
      (under iv key : Bytes)
      → length under ≡ 32
      → length iv ≡ 12
      → length key ≡ 32
      → (blob : Bytes) × (key_in_blob p under iv key ≡ ok blob)
  unfolding key_in_blob encrypt
  key_in_blob_done under iv key hu hi hk =
      let (c, at_c) = sound.seals under iv key [] hu hi (omega (arith, hk)) (omega arith) in
      (iv ++ c, rw at_c refl)

  record_of_done :
      (wrapping master iv : Bytes) (k : YubiKeyRegistration)
      → length iv ≡ 12
      → length master ≡ 32
      → IsRegistration k
      → (r : YubiKeyRecord) × (record_of p wrapping master iv k ≡ ok r) × IsWritableRecord r
  unfolding record_of combine_yubikey
  record_of_done wrapping master iv k hi hm fits =
      let under = combine_yubikey p wrapping k.hmac_secret k.salt in
      let (blob, at_blob) = key_in_blob_done under iv master (sound.derived _ _ _) hi hm in
      let r : YubiKeyRecord = record {
        credential_id = k.credential_id;
        salt = k.salt;
        key_blob = blob;
      } in
      (
        r,
        rw at_blob refl,
        record {
          id_fits = fits.id_fits;
          salt_length = fits.salt_length;
          blob_fits =
              omega (arith, hm, (opened-key_in_blob p sound under iv master hi blob at_blob).1);
        },
      )

  records_of_done :
      (wrapping master : Bytes) (iv : ℕ → Bytes) (keys : List YubiKeyRegistration)
      → ((n : ℕ) → length (iv n) ≡ 12)
      → length master ≡ 32
      → All IsRegistration keys
      → (rs : List YubiKeyRecord) × (records_of p wrapping master iv keys ≡ ok rs)
        × All IsWritableRecord rs
        × (length rs ≡ length keys)
  unfolding records_of
  records_of_done wrapping master iv [] hi hm fits = ([], refl, tt, refl)
  records_of_done wrapping master iv (k ∷ ks) hi hm fits =
      let (r, at_r, small) = record_of_done wrapping master (iv 0) k (hi 0) hm fits.0 in
      let (rs, at_rs, smalls, same) =
        records_of_done wrapping master (λ n. iv (suc n)) ks (λ n. hi (suc n)) hm fits.1 in
      (r ∷ rs, rw (at_r, at_rs) refl, (small, smalls), ap suc same)

  -- The record that is found for a key is the one that was made for it.
  find_record-records_of :
      (wrapping master : Bytes) (iv : ℕ → Bytes) (keys : List YubiKeyRegistration) (id : Bytes)
      (k : YubiKeyRegistration) (rs : List YubiKeyRecord)
      → ((n : ℕ) → length (iv n) ≡ 12)
      → records_of p wrapping master iv keys ≡ ok rs
      → first_with id keys ≡ some k
      → (n : ℕ) × (r : YubiKeyRecord) × (find_record id rs ≡ some r)
        × (record_of p wrapping master (iv n) k ≡ ok r)
  unfolding records_of first_with find_record
  find_record-records_of wrapping master iv [] id k rs hi h at_k = cc
  find_record-records_of wrapping master iv (x ∷ xs) id k rs hi h at_k =
      let (r, at_r, h1) = >>=-eq-ok (record_of p wrapping master (iv 0) x) _ h in
      let (rest, at_rest, made) =
        >>=-eq-ok (records_of p wrapping master (λ n. iv (suc n)) xs) _ h1 in
      let named = (record_of-opens p sound wrapping master (iv 0) x r (hi 0) at_r).0 in
      let flag = ap (λ c. bytes_eq c id) named in
      let found_rs : find_record id rs ≡ find_record id (r ∷ rest) =
        ap (find_record id) (sym (eq_of_ok made)) in
      elim (Bool-cases (bytes_eq x.credential_id id)) [
        | inl here ↦ (
          0,
          r,
          found_rs ∙ find_record-here id r rest (flag ∙ here),
          subst (λ y. record_of p wrapping master (iv 0) y ≡ ok r) (eq_of_some (rw here at at_k))
              at_r,
        )
        | inr other ↦
            let (n, found, at_found, from) =
              find_record-records_of wrapping master (λ n. iv (suc n)) xs id k rest
                (λ n. hi (suc n)) at_rest (rw other at at_k) in
            (suc n, found, found_rs ∙ find_record-there id r rest (flag ∙ other) ∙ at_found, from)
      ]

  module _ (r : KeysRandom) (passphrase plaintext : Bytes) (keys : List YubiKeyRegistration)
      (name : Option Bytes) (key blob : Bytes) (rs : List YubiKeyRecord)
      (at_key : passphrase_key p passphrase r.body.argon2_salt r.body.hkdf_salt default_params
        ≡ ok key)
      (at_blob : key_in_blob p key r.blob_nonce r.wrapping_key ≡ ok blob)
      (at_rs : records_of p r.wrapping_key r.vault_key_master r.key_nonce keys ≡ ok rs) where
    abbrev headed : SealedVault
    headed = record {
      version_byte = version;
      params = default_params;
      argon2_salt = r.body.argon2_salt;
      hkdf_salt = r.body.hkdf_salt;
      nonce = replicate 12 0;
      ciphertext = [];
      yubikey_records = rs;
      alias = name;
      passphrase_blob = blob;
    }

    made_of_parts :
        (v : SealedVault)
        → 2 ≤ length keys
        → seal_body p headed r.vault_key_master r.body.nonce plaintext ≡ ok v
        → seal_vault_with_keys p r passphrase keys plaintext name ≡ ok v
    unfolding seal_vault_with_keys
    made_of_parts v h2 at_v = rw (le→ltb (length keys) 2 h2, at_key, at_blob, at_rs) at_v

    opened_by_each :
        (v : SealedVault)
        → IsDrawnKeys r
        → seal_body p headed r.vault_key_master r.body.nonce plaintext ≡ ok v
        → (id : Bytes) (k : YubiKeyRegistration) → first_with id keys ≡ some k
        → open_vault_with_key_record p passphrase k.hmac_secret id v
          ≡ ok (plaintext, r.vault_key_master, some r.wrapping_key)
    opened_by_each v drawn at_v id k at_k =
        let sealed = seal_body-IsBody p headed r.vault_key_master r.body.nonce plaintext at_v in
        let opens =
          opened-key_in_blob p sound key r.blob_nonce r.wrapping_key drawn.blob_nonce blob
            at_blob in
        let (n, found, at_found, from) =
          find_record-records_of r.wrapping_key r.vault_key_master r.key_nonce keys id k rs
            drawn.key_nonce at_rs at_k in
        let its =
          record_of-opens p sound r.wrapping_key r.vault_key_master (r.key_nonce n) k found
            (drawn.key_nonce n) from in
        (opened_iff p passphrase k.hmac_secret id v plaintext r.wrapping_key r.vault_key_master).1 (
          subst (λ x. Unlocks p passphrase k.hmac_secret id x r.wrapping_key r.vault_key_master)
              (sym sealed.made)
              (record {
                intermediate = key;
                keyed = at_key;
                found = found;
                at_found = at_found;
                blob_length = omega (arith, opens.1, drawn.wrapping_key);
                blob_opens = opens.0;
                wrapping_length = drawn.wrapping_key;
                key_blob_length = omega (arith, its.2, drawn.vault_key_master);
                key_opens = its.1;
                master_length = drawn.vault_key_master;
              }),
          open_body-seal_body p sound headed r.vault_key_master r.body.nonce plaintext at_v,
        )

  -- Sealing a new vault with 2 to 255 keys succeeds, and each key that is the first of its id opens the
  -- vault, under the passphrase, to the body, for key ids and an alias below 2^16 bytes, a passphrase
  -- below 2^32, a body of at most 2^36, and drawn bytes of the lengths of their arrays.
  pub open-seal_vault_with_keys :
      (r : KeysRandom) (passphrase plaintext : Bytes) (keys : List YubiKeyRegistration)
      (name : Option Bytes)
      → IsDrawnKeys r
      → 2 ≤ length keys
      → length keys < 256
      → All IsRegistration keys
      → length passphrase < 2 ^ 32
      → length plaintext ≤ 2 ^ 36
      → length (alias_text name) < 2 ^ 16
      → (v : SealedVault) × (seal_vault_with_keys p r passphrase keys plaintext name ≡ ok v)
        × ((id : Bytes) (k : YubiKeyRegistration)
            → first_with id keys ≡ some k
            → open_vault_with_key_record p passphrase k.hmac_secret id v
              ≡ ok (plaintext, r.vault_key_master, some r.wrapping_key))
  open-seal_vault_with_keys r passphrase plaintext keys name drawn h2 h255 fits hp ht hn =
      let (key, at_key, hk) =
        passphrase_key_done p sound passphrase r.body.argon2_salt r.body.hkdf_salt hp
          drawn.body.argon2_salt in
      let (blob, at_blob) =
        key_in_blob_done key r.blob_nonce r.wrapping_key hk drawn.blob_nonce drawn.wrapping_key in
      let opens =
        opened-key_in_blob p sound key r.blob_nonce r.wrapping_key drawn.blob_nonce blob at_blob in
      let (rs, at_rs, small, same) =
        records_of_done r.wrapping_key r.vault_key_master r.key_nonce keys drawn.key_nonce
          drawn.vault_key_master fits in
      let top = headed r passphrase plaintext keys name key blob rs at_key at_blob at_rs in
      let (v, at_v) =
        seal_body_done p sound top r.vault_key_master r.body.nonce plaintext drawn.vault_key_master
          drawn.body.nonce ht
          (omega (
            arith,
            length-header_aad top,
            length-records_bytes rs small,
            same,
            h255,
            hn,
            opens.1,
            drawn.wrapping_key,
            drawn.body.argon2_salt,
            drawn.body.hkdf_salt,
          )) in
      (
        v,
        made_of_parts r passphrase plaintext keys name key blob rs at_key at_blob at_rs v h2 at_v,
        opened_by_each r passphrase plaintext keys name key blob rs at_key at_blob at_rs v drawn
            at_v,
      )
