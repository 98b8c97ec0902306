-- ===== src/Crypto/Sealing.antt =====
-- crypto/vault_crypto.rs: a vault under a passphrase alone, and the body under a key that is held.
pub mod RoundTrip
use gabbro.Prelude.{
  replicate, ℕ, Bool, Option, none, some, List, [], ◌∷◌, Result, ok, err, ◌≡◌, refl, ◌∙◌, sym, ap,
  subst, length,
}
use gabbro.Prelude.Chains.{◌>>=◌}
use gabbro.Bytes.{Bytes}
use gabbro.FileFormat.{
  Argon2idParams, SealedVault, version, header_aad, passphrase_blob, version_byte,
}
use gabbro.Crypto.{
  Primitives, CryptoError, default_params, derive_key, derive_vault_key_v11, encrypt_with_aad,
  decrypt_with_aad,
}

-- The bytes that `seal_vault` draws, in this order.
pub record SealRandom : Type 0 where
  pub argon2_salt : Bytes
  pub hkdf_salt : Bytes
  pub nonce : Bytes

-- The lengths of the arrays that are drawn.
pub record IsDrawn (r : SealRandom) : Type 0 where
  pub argon2_salt : length r.argon2_salt ≡ 32
  pub hkdf_salt : length r.hkdf_salt ≡ 32
  pub nonce : length r.nonce ≡ 12

-- The vault before its body is sealed: the nonce and the body are placeholders.
unfoldable pub unsealed : Argon2idParams → Bytes → Bytes → Option Bytes → SealedVault
unsealed costs a_salt h_salt name = record {
  version_byte = version;
  params = costs;
  argon2_salt = a_salt;
  hkdf_salt = h_salt;
  nonce = replicate 12 0;
  ciphertext = [];
  yubikey_records = [];
  alias = name;
  passphrase_blob = [];
}

module _ (p : Primitives) where
  -- The body and its nonce, for the header of `v`: the end of every function that seals.
  unfoldable pub seal_body : SealedVault → Bytes → Bytes → Bytes → Result CryptoError SealedVault
  unfolding encrypt_with_aad header_aad
  seal_body v key iv plaintext = do
    sealed ← encrypt_with_aad p key iv plaintext (header_aad v)
    ok (record v { nonce = iv; ciphertext = sealed })

  -- The start of every function that takes a passphrase.
  unfoldable pub passphrase_key : Bytes → Bytes → Bytes → Argon2idParams → Result CryptoError Bytes
  unfolding derive_key derive_vault_key_v11
  passphrase_key passphrase a_salt h_salt costs = do
    km ← derive_key p passphrase a_salt costs
    ok (derive_vault_key_v11 p km h_salt)

  unfoldable pub seal_vault_with_params :
      SealRandom → Bytes → Bytes → Option Bytes → Argon2idParams → Result CryptoError SealedVault
  unfolding seal_body passphrase_key unsealed
  seal_vault_with_params r passphrase plaintext name costs = do
    key ← passphrase_key passphrase r.argon2_salt r.hkdf_salt costs
    seal_body (unsealed costs r.argon2_salt r.hkdf_salt name) key r.nonce plaintext

  unfoldable pub seal_vault :
      SealRandom → Bytes → Bytes → Option Bytes → Result CryptoError SealedVault
  unfolding seal_vault_with_params
  seal_vault r passphrase plaintext name =
      seal_vault_with_params r passphrase plaintext name default_params

  unfoldable pub open_body : SealedVault → Bytes → Result CryptoError Bytes
  unfolding decrypt_with_aad header_aad
  open_body v key = decrypt_with_aad p key v.ciphertext v.nonce (header_aad v)

  unfoldable pub open_vault : Bytes → SealedVault → Result CryptoError Bytes
  unfolding passphrase_key open_body
  open_vault passphrase v = do
    key ← passphrase_key passphrase v.argon2_salt v.hkdf_salt v.params
    open_body v key

  unfoldable pub reseal_vault_body :
      Bytes → SealedVault → Bytes → Bytes → Result CryptoError SealedVault
  unfolding seal_body
  reseal_vault_body iv v key plaintext =
      seal_body (record v { version_byte = version }) key iv plaintext
