-- ===== src/Crypto.antt =====
-- crypto/kdf.rs, crypto/hkdf.rs and crypto/aes_gcm.rs: what the vault's cryptography calls. The
-- ciphers are those of other crates, the fields of `Primitives`; the random bytes of a call are its
-- arguments. An array of Rust is a list, of the length that its type says where a theorem asks it.
pub mod Sealing
pub mod Keys
use gabbro.Prelude.{
  ℕ, ◌+◌, Bool, Option, none, some, List, [], ◌∷◌, ◌++◌, Result, ok, err, length, ◌==◌, codes,
  if◌then◌else◌, String, ◌≡◌, ◌<◌, ◌^◌, ◌≤◌,
}
use gabbro.Prelude.Chains.{ok_or}
use gabbro.Bytes.{Bytes}
use gabbro.FileFormat.{Argon2idParams}

pub record Primitives : Type 0 where
  -- the crate `argon2`, for 96 bytes: the costs, the passphrase, the salt
  pub argon2id : Argon2idParams → Bytes → Bytes → Option Bytes
  -- the crate `hkdf` over SHA-256, for 32 bytes: the salt, the key material, the label
  pub hkdf_sha256 : Bytes → Bytes → Bytes → Bytes
  -- the crate `aes_gcm`: the key, the nonce, the text, and the data that is authenticated with it
  pub aes_seal : Bytes → Bytes → Bytes → Bytes → Option Bytes
  pub aes_open : Bytes → Bytes → Bytes → Bytes → Option Bytes

-- The error texts.
pub data CryptoError : Type 0 where
  argon2_failed aes_failed wrong_key wrong_key_or_header : CryptoError
  no_record legacy_single_key wrong_passphrase_or_corrupted wrapping_key_size master_size :
      CryptoError
  already_registered record_not_found last_key not_multi_key wrong_passphrase : CryptoError
  too_few_keys too_many_keys bad_passphrase_blob bad_key_blob : ℕ → CryptoError

abbrev pub default_params : Argon2idParams
default_params = record { m_cost = 65536; t_cost = 25; p_cost = 4 }

abbrev pub info_yubikey : Bytes
info_yubikey = codes "gabbro-yubikey-v1"

abbrev pub info_vault_key_v11 : Bytes
info_vault_key_v11 = codes "gabbro-vault-key-from-argon2id-v1"

module _ (p : Primitives) where
  unfoldable pub derive_key : Bytes → Bytes → Argon2idParams → Result CryptoError Bytes
  derive_key passphrase salt params = ok_or argon2_failed (p.argon2id params passphrase salt)

  unfoldable pub derive_vault_key_v11 : Bytes → Bytes → Bytes
  derive_vault_key_v11 km salt = p.hkdf_sha256 salt km info_vault_key_v11

  unfoldable pub combine_yubikey : Bytes → Bytes → Bytes → Bytes
  combine_yubikey first yubikey_output salt =
      p.hkdf_sha256 salt (first ++ yubikey_output) info_yubikey

  -- Of the pair that Rust returns, the nonce is an argument.
  unfoldable pub encrypt : Bytes → Bytes → Bytes → Result CryptoError Bytes
  encrypt key nonce plaintext = ok_or aes_failed (p.aes_seal key nonce plaintext [])

  unfoldable pub decrypt : Bytes → Bytes → Bytes → Result CryptoError Bytes
  decrypt key ciphertext nonce = ok_or wrong_key (p.aes_open key nonce ciphertext [])

  unfoldable pub encrypt_with_aad : Bytes → Bytes → Bytes → Bytes → Result CryptoError Bytes
  encrypt_with_aad key nonce plaintext aad = ok_or aes_failed (p.aes_seal key nonce plaintext aad)

  unfoldable pub decrypt_with_aad : Bytes → Bytes → Bytes → Bytes → Result CryptoError Bytes
  decrypt_with_aad key ciphertext nonce aad =
      ok_or wrong_key_or_header (p.aes_open key nonce ciphertext aad)

-- What the crates document: a sealed text opens, under the same key, nonce and data, to the text that
-- was sealed, and only what sealing gives is opened; sealing adds a tag of 16 bytes. Keys are derived
-- from passphrases of up to 2^32 - 1 bytes, and texts and data of up to 2^36 bytes are sealed.
pub record IsSound (p : Primitives) : Type 0 where
  pub opens :
      (key nonce text aad c : Bytes)
      → p.aes_seal key nonce text aad ≡ some c
      → p.aes_open key nonce c aad ≡ some text
  pub seals_back :
      (key nonce text aad c : Bytes)
      → p.aes_open key nonce c aad ≡ some text
      → p.aes_seal key nonce text aad ≡ some c
  pub tagged :
      (key nonce text aad c : Bytes)
      → p.aes_seal key nonce text aad ≡ some c
      → length c ≡ length text + 16
  pub seals :
      (key nonce text aad : Bytes)
      → length key ≡ 32
      → length nonce ≡ 12
      → length text ≤ 2 ^ 36
      → length aad ≤ 2 ^ 36
      → (c : Bytes) × (p.aes_seal key nonce text aad ≡ some c)
  pub derives :
      (passphrase salt : Bytes)
      → length passphrase < 2 ^ 32
      → length salt ≡ 32
      → (km : Bytes) × (p.argon2id default_params passphrase salt ≡ some km)
  pub derived : (salt material label : Bytes) → length (p.hkdf_sha256 salt material label) ≡ 32
