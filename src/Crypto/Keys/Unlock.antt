-- ===== src/Crypto/Keys/Unlock.antt =====
-- The keys of a vault that is opened, piece by piece.
use gabbro.Prelude.{
  ok, ◌≡◌, refl, ◌∙◌, sym, ap, length, ◌+◌, arith, some, eq_of_==, eq_of_ok, take-append,
  drop-append, length-append, Result, [], err, panic, ◌++◌, ◌==◌, not, ◌↔◌, Option, none,
}
use gabbro.Prelude.Chains.{>>=-eq-ok, ok_or-eq-ok, ensure-eq-ok, ok_or, ensure}
use gabbro.Bytes.{Bytes}
use gabbro.FileFormat.{SealedVault, YubiKeyRecord}
use gabbro.Crypto.{
  Primitives, IsSound, CryptoError, encrypt, decrypt, wrong_key, aes_failed, combine_yubikey,
  no_record, legacy_single_key, bad_passphrase_blob, wrong_passphrase_or_corrupted, bad_key_blob,
  master_size, wrapping_key_size,
}
use gabbro.Crypto.Sealing.{passphrase_key, open_body}
use gabbro.Crypto.Keys.{
  key_in_blob, opened_blob, wrapping_key_of, master_of, unlock, open_vault_with_key_record,
  find_record, with_error,
}

abbrev keys_in : Bytes × Bytes × Option Bytes → Result CryptoError (Bytes × Bytes)
keys_in (text, master, some wrapping) = ok (wrapping, master)
keys_in (text, master, none) = panic

module _ (p : Primitives) where
  pub opened-key_in_blob :
      IsSound p
      → (under iv key : Bytes) → length iv ≡ 12
      → (blob : Bytes) → key_in_blob p under iv key ≡ ok blob
      → (opened_blob p under blob ≡ ok key) × (length blob ≡ 28 + length key)
  unfolding key_in_blob opened_blob encrypt decrypt
  opened-key_in_blob sound under iv key hi blob h =
      let (c, at_c, made) = >>=-eq-ok (encrypt p under iv key) _ h in
      let seals = ok_or-eq-ok aes_failed _ at_c in
      let same : blob ≡ iv ++ c = sym (eq_of_ok made) in
      (
        rw (same, take-append 12 iv c hi, drop-append 12 iv c hi)
            (ap (ok_or wrong_key) (sound.opens under iv key [] c seals)),
        rw same (omega (arith, length-append iv c, hi, sound.tagged under iv key [] c seals)),
      )

  -- What it takes that a passphrase and a key give the wrapping key and the master key.
  pub record Unlocks (passphrase hmac_secret credential : Bytes) (v : SealedVault)
      (wrapping master : Bytes) : Type 0 where
    pub intermediate : Bytes
    pub keyed : passphrase_key p passphrase v.argon2_salt v.hkdf_salt v.params ≡ ok intermediate
    pub found : YubiKeyRecord
    pub at_found : find_record credential v.yubikey_records ≡ some found
    pub blob_length : length v.passphrase_blob ≡ 60
    pub blob_opens : opened_blob p intermediate v.passphrase_blob ≡ ok wrapping
    pub wrapping_length : length wrapping ≡ 32
    pub key_blob_length : length found.key_blob ≡ 60
    pub key_opens :
        opened_blob p (combine_yubikey p wrapping hmac_secret found.salt) found.key_blob ≡ ok master
    pub master_length : length master ≡ 32

  pub unlock_of_Unlocks :
      (passphrase hmac_secret credential : Bytes) (v : SealedVault) (wrapping master : Bytes)
      → Unlocks passphrase hmac_secret credential v wrapping master
      → unlock p passphrase hmac_secret credential v ≡ ok (wrapping, master)
  unfolding unlock wrapping_key_of master_of
  unlock_of_Unlocks passphrase hmac_secret credential v wrapping master u =
      rw
        (
          u.keyed, u.at_found, u.key_blob_length, u.blob_length, u.blob_opens, u.wrapping_length,
          u.key_opens, u.master_length,
        )
        refl

  with_error-eq-ok :
      (e : CryptoError) (r : Result CryptoError Bytes) {b : Bytes}
      → with_error e r ≡ ok b
      → r ≡ ok b
  with_error-eq-ok e (ok a) h = h
  with_error-eq-ok e (err x) h = cc
  with_error-eq-ok e panic h = cc

  pub wrapping_key_of-opens :
      (e : CryptoError) (intermediate blob wrapping : Bytes)
      → wrapping_key_of p e intermediate blob ≡ ok wrapping
      → (opened_blob p intermediate blob ≡ ok wrapping) × (length wrapping ≡ 32)
  unfolding wrapping_key_of
  wrapping_key_of-opens e intermediate blob wrapping h =
      let (bytes, at_bytes, h1) = >>=-eq-ok (with_error e (opened_blob p intermediate blob)) _ h in
      let (u, fits, made) = >>=-eq-ok (ensure wrapping_key_size (length bytes == 32)) _ h1 in
      let same = eq_of_ok made in
      (
        with_error-eq-ok e _ at_bytes ∙ made,
        ap (λ (x : Bytes). length x) (sym same)
            ∙ eq_of_== _ _ (ensure-eq-ok wrapping_key_size _ fits),
      )

  master_of-opens :
      (wrapping hmac_secret : Bytes) (r : YubiKeyRecord) (master : Bytes)
      → master_of p wrapping hmac_secret r ≡ ok master
      → (length r.key_blob ≡ 60)
        × (opened_blob p (combine_yubikey p wrapping hmac_secret r.salt) r.key_blob ≡ ok master)
        × (length master ≡ 32)
  unfolding master_of
  master_of-opens wrapping hmac_secret r master h =
      let (_, fits, h1) =
        >>=-eq-ok (ensure (bad_key_blob (length r.key_blob)) (length r.key_blob == 60)) _ h in
      let (bytes, at_bytes, h2) =
        >>=-eq-ok (opened_blob p (combine_yubikey p wrapping hmac_secret r.salt) r.key_blob) _ h1 in
      let (_, sized, made) = >>=-eq-ok (ensure master_size (length bytes == 32)) _ h2 in
      let same = eq_of_ok made in
      (
        eq_of_== _ _ (ensure-eq-ok _ _ fits),
        at_bytes ∙ made,
        ap (λ (x : Bytes). length x) (sym same) ∙ eq_of_== _ _ (ensure-eq-ok master_size _ sized),
      )

  pub Unlocks-unlock :
      (passphrase hmac_secret credential : Bytes) (v : SealedVault) (wrapping master : Bytes)
      → unlock p passphrase hmac_secret credential v ≡ ok (wrapping, master)
      → Unlocks passphrase hmac_secret credential v wrapping master
  unfolding unlock
  Unlocks-unlock passphrase hmac_secret credential v wrapping master h =
      let (key, at_key, h1) =
        >>=-eq-ok (passphrase_key p passphrase v.argon2_salt v.hkdf_salt v.params) _ h in
      let (r, at_r, h2) =
        >>=-eq-ok (ok_or no_record (find_record credential v.yubikey_records)) _ h1 in
      let (_, _, h3) = >>=-eq-ok (ensure legacy_single_key (not (length r.key_blob == 0))) _ h2 in
      let (_, fits, h4) =
        >>=-eq-ok
          (ensure (bad_passphrase_blob (length v.passphrase_blob)) (length v.passphrase_blob == 60))
          _ h3 in
      let (w, at_w, h5) =
        >>=-eq-ok (wrapping_key_of p wrong_passphrase_or_corrupted key v.passphrase_blob) _ h4 in
      let (m, at_m, made) = >>=-eq-ok (master_of p w hmac_secret r) _ h5 in
      let same = eq_of_ok made in
      let opens =
        wrapping_key_of-opens _ key v.passphrase_blob wrapping
          (at_w ∙ ap (λ (x : Bytes × Bytes). ok x.0) same) in
      let wraps = master_of-opens wrapping hmac_secret r master (
        ap (λ (x : Bytes × Bytes). master_of p x.0 hmac_secret r) (sym same)
        ∙ at_m
        ∙ ap (λ (x : Bytes × Bytes). ok x.1) same) in
      record {
        intermediate = key;
        keyed = at_key;
        found = r;
        at_found = ok_or-eq-ok no_record _ at_r;
        blob_length = eq_of_== _ _ (ensure-eq-ok _ _ fits);
        blob_opens = opens.0;
        wrapping_length = opens.1;
        key_blob_length = wraps.0;
        key_opens = wraps.1;
        master_length = wraps.2;
      }

  -- A file opens with a key exactly when the passphrase and the key give the two keys, and the
  -- master key opens the body.
  pub opened_iff :
      (passphrase hmac_secret credential : Bytes) (v : SealedVault)
      (plaintext wrapping master : Bytes)
      → (open_vault_with_key_record p passphrase hmac_secret credential v
          ≡ ok (plaintext, master, some wrapping))
        ↔ (Unlocks passphrase hmac_secret credential v wrapping master
            × (open_body p v master ≡ ok plaintext))
  unfolding open_vault_with_key_record
  opened_iff passphrase hmac_secret credential v plaintext wrapping master = (
    (λ h.
        let (keys, at_keys, h1) = >>=-eq-ok (unlock p passphrase hmac_secret credential v) _ h in
        let (text, at_text, made) = >>=-eq-ok (open_body p v keys.1) _ h1 in
        let same = eq_of_ok made in
        (
          Unlocks-unlock passphrase hmac_secret credential v wrapping master
              (at_keys ∙ ap keys_in same),
          ap (λ (x : Bytes × Bytes × Option Bytes). open_body p v x.1) (sym same)
              ∙ at_text
              ∙ ap (λ (x : Bytes × Bytes × Option Bytes). ok x.0) same,
        )),
    (λ h. rw (unlock_of_Unlocks passphrase hmac_secret credential v wrapping master h.0, h.1) refl),
  )
