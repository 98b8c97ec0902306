-- ===== src/Crypto/Sealing/RoundTrip.antt =====
-- Opening what was sealed, and what it takes that a file is opened.
use gabbro.Prelude.{
  ok, ◌≡◌, sym, ap, subst, some, Option, arith, length, refl, ◌+◌, ◌<◌, ◌^◌, ◌↔◌, ◌≤◌, ◌∙◌,
}
use gabbro.Prelude.Chains.{>>=-eq-ok, ok_or-eq-ok, ok_or}
use gabbro.Bytes.{Bytes}
use gabbro.FileFormat.{SealedVault, header_aad, Argon2idParams, alias_text, records_bytes}
use gabbro.Crypto.{
  Primitives, IsSound, encrypt_with_aad, decrypt_with_aad, aes_failed, wrong_key_or_header,
  default_params, derive_key, derive_vault_key_v11, info_vault_key_v11,
}
use gabbro.Crypto.Sealing.{
  seal_body, open_body, IsDrawn, SealRandom, open_vault, passphrase_key, seal_vault,
  seal_vault_with_params, unsealed,
}
use gabbro.FileFormat.Sizes.{length-header_aad}

module _ (p : Primitives) where
  -- What a sealed body is: the seal of the text under the header, in the vault otherwise unchanged.
  pub record IsBody (v : SealedVault) (key iv plaintext : Bytes) (v' : SealedVault) : Type 0 where
    pub sealed : Bytes
    pub seals : p.aes_seal key iv plaintext (header_aad v) ≡ some sealed
    pub made : v' ≡ record v { nonce = iv; ciphertext = sealed }

  pub seal_body-IsBody :
      (v : SealedVault) (key iv plaintext : Bytes) {v' : SealedVault}
      → seal_body p v key iv plaintext ≡ ok v'
      → IsBody v key iv plaintext v'
  unfolding seal_body encrypt_with_aad
  seal_body-IsBody v key iv plaintext h =
      let (c, at_c, made) = >>=-eq-ok (encrypt_with_aad p key iv plaintext (header_aad v)) _ h in
      record { sealed = c; seals = ok_or-eq-ok aes_failed _ at_c; made = cc }

  pub open_body-seal_body :
      IsSound p
      → (v : SealedVault) (key iv plaintext : Bytes) {v' : SealedVault}
      → seal_body p v key iv plaintext ≡ ok v'
      → open_body p v' key ≡ ok plaintext
  unfolding open_body decrypt_with_aad header_aad
  open_body-seal_body sound v key iv plaintext {v' = v'} h =
      let b = seal_body-IsBody v key iv plaintext h in
      subst (λ x. open_body p x key ≡ ok plaintext) (sym b.made)
        (ap (ok_or wrong_key_or_header)
          (sound.opens key iv plaintext (header_aad v) b.sealed b.seals))

  pub seal_body_done :
      IsSound p
      → (v : SealedVault) (key iv plaintext : Bytes) → length key ≡ 32
      → length iv ≡ 12
      → length plaintext ≤ 2 ^ 36
      → length (header_aad v) ≤ 2 ^ 36
      → (v' : SealedVault) × (seal_body p v key iv plaintext ≡ ok v')
  unfolding seal_body encrypt_with_aad
  seal_body_done sound v key iv plaintext hk hi ht ha =
      let (c, at_c) = sound.seals key iv plaintext (header_aad v) hk hi ht ha in
      (record v { nonce = iv; ciphertext = c }, rw at_c refl)

  pub passphrase_key_done :
      IsSound p
      → (passphrase a_salt h_salt : Bytes) → length passphrase < 2 ^ 32
      → length a_salt ≡ 32
      → (key : Bytes) × (passphrase_key p passphrase a_salt h_salt default_params ≡ ok key)
        × (length key ≡ 32)
  unfolding passphrase_key derive_key derive_vault_key_v11
  passphrase_key_done sound passphrase a_salt h_salt hp ha =
      let (km, at_km) = sound.derives passphrase a_salt hp ha in
      (p.hkdf_sha256 h_salt km info_vault_key_v11, rw at_km refl, sound.derived _ _ _)

length-unsealed_aad :
    (costs : Argon2idParams) (a_salt h_salt : Bytes) (name : Option Bytes)
    → length a_salt ≡ 32
    → length h_salt ≡ 32
    → length (header_aad (unsealed costs a_salt h_salt name)) ≡ 88 + length (alias_text name)
unfolding unsealed records_bytes
length-unsealed_aad costs a_salt h_salt name ha hh =
    omega (arith, length-header_aad (unsealed costs a_salt h_salt name), ha, hh)

module _ (p : Primitives) where
  opened_of_sealed :
      IsSound p
      → (v : SealedVault) (passphrase key iv plaintext : Bytes)
      → passphrase_key p passphrase v.argon2_salt v.hkdf_salt v.params ≡ ok key
      → (v' : SealedVault) → seal_body p v key iv plaintext ≡ ok v'
      → open_vault p passphrase v' ≡ ok plaintext
  unfolding open_vault
  opened_of_sealed sound v passphrase key iv plaintext at_key v' at_v =
      let made = (seal_body-IsBody p v key iv plaintext at_v).made in
      rw
        (ap (λ (x : SealedVault). passphrase_key p passphrase x.argon2_salt x.hkdf_salt x.params)
            made
          ∙ at_key)
        (open_body-seal_body p sound v key iv plaintext at_v)

  -- A vault sealed under a passphrase opens under it to the text that was sealed; sealing succeeds
  -- for salts of 32 bytes, a nonce of 12, a passphrase below 2^32 bytes, an alias below 2^16, and a
  -- text of at most 2^36.
  pub open_vault-seal_vault :
      IsSound p
      → (r : SealRandom) (passphrase plaintext : Bytes) (name : Option Bytes) → IsDrawn r
      → length passphrase < 2 ^ 32
      → length plaintext ≤ 2 ^ 36
      → length (alias_text name) < 2 ^ 16
      → (v : SealedVault) × (seal_vault p r passphrase plaintext name ≡ ok v)
        × (open_vault p passphrase v ≡ ok plaintext)
  unfolding seal_vault seal_vault_with_params open_vault unsealed
  open_vault-seal_vault sound r passphrase plaintext name drawn hp ht hn =
      let (key, at_key, hk) =
        passphrase_key_done p sound passphrase r.argon2_salt r.hkdf_salt hp drawn.argon2_salt in
      let headed = unsealed default_params r.argon2_salt r.hkdf_salt name in
      let (v, at_v) = seal_body_done p sound headed key r.nonce plaintext hk drawn.nonce ht (
        omega (
          arith,
          length-unsealed_aad default_params r.argon2_salt r.hkdf_salt name drawn.argon2_salt
              drawn.hkdf_salt,
        )) in
      (
        v,
        rw at_key at_v,
        opened_of_sealed sound headed passphrase key r.nonce plaintext at_key v at_v,
      )

  -- Of a passphrase from which a key is derived: a file is opened to a text exactly when sealing the
  -- text under that key, with the nonce and the header of the file, gives the file.
  pub open_vault_iff :
      IsSound p
      → (v : SealedVault) (passphrase key plaintext : Bytes)
      → passphrase_key p passphrase v.argon2_salt v.hkdf_salt v.params ≡ ok key
      → (open_vault p passphrase v ≡ ok plaintext) ↔ (seal_body p v key v.nonce plaintext ≡ ok v)
  unfolding open_vault open_body seal_body decrypt_with_aad encrypt_with_aad
  open_vault_iff sound v passphrase key plaintext at_key = (
    (λ h.
        rw
          (sound.seals_back key v.nonce plaintext (header_aad v) v.ciphertext
            (ok_or-eq-ok wrong_key_or_header _ (rw at_key at h)))
          refl),
    opened_of_sealed sound v passphrase key v.nonce plaintext at_key v,
  )
