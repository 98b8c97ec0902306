-- ===== src/Tests/Crypto.antt =====
-- The vault's cryptography over ciphers that hide nothing: the tag is a sum of the key, the nonce and
-- the data, before the text.
use gabbro.Prelude.{
  ℕ, ◌+◌, Option, none, some, [], ◌∷◌, ◌++◌, Result, ok, err, panic, ◌≡◌, refl, length, take, drop,
  replicate, if◌then◌else◌, arith, length-append, length-take, take-append-drop, Bool-cases, inl,
  inr, eq_of_some, subst, ap, ap₂, codes, sym, ◌↔◌, ◌∙◌,
}
use gabbro.Bytes.{Bytes, bytes_eq, to_be, prefixed}
use gabbro.Bytes.Equal.{bytes_eq_refl, eq_of_bytes_eq}
use gabbro.Crypto.{
  Primitives, IsSound, CryptoError, decrypt_with_aad, default_params, derive_key,
  derive_vault_key_v11, encrypt_with_aad, wrong_key_or_header,
}
use gabbro.Crypto.Sealing.{
  IsDrawn, SealRandom, open_body, open_vault, passphrase_key, seal_body, seal_vault,
  seal_vault_with_params, unsealed,
}
use gabbro.FileFormat.{SealedVault, alias_text, header_aad, params_bytes, records_bytes}
use gabbro.Crypto.Sealing.RoundTrip.{open_vault-seal_vault, open_vault_iff}

abbrev pub sum : Bytes → ℕ
sum [] = 0
sum (b ∷ bs) = b + sum bs

abbrev pub tag : Bytes → Bytes → Bytes → Bytes
tag key nonce aad = (sum key + (sum nonce + sum aad)) ∷ replicate 15 0

abbrev pub toy : Primitives
toy = record {
  argon2id = λ costs passphrase salt. some (passphrase ++ salt);
  hkdf_sha256 = λ salt material label. take 32 (material ++ (salt ++ (label ++ replicate 32 0)));
  aes_seal = λ key nonce text aad. some (tag key nonce aad ++ text);
  aes_open = λ key nonce c aad.
      if bytes_eq (take 16 c) (tag key nonce aad) then some (drop 16 c) else none;
}

toy-opens :
    (key nonce text aad c : Bytes)
    → toy.aes_seal key nonce text aad ≡ some c
    → toy.aes_open key nonce c aad ≡ some text
toy-opens key nonce text aad c h =
    subst (λ x. toy.aes_open key nonce x aad ≡ some text) (eq_of_some h)
      (rw (bytes_eq_refl (tag key nonce aad)) refl)

toy-seals_back :
    (key nonce text aad c : Bytes)
    → toy.aes_open key nonce c aad ≡ some text
    → toy.aes_seal key nonce text aad ≡ some c
toy-seals_back key nonce text aad c h =
    elim (Bool-cases (bytes_eq (take 16 c) (tag key nonce aad))) [
      | inl same ↦ ap some (
          ap₂ (λ (x y : Bytes). x ++ y) (sym (eq_of_bytes_eq (take 16 c) (tag key nonce aad) same))
            (sym (eq_of_some (rw same at h)))
          ∙ take-append-drop 16 c)
      | inr other ↦ absurd (cc (rw other at h))
    ]

toy-tagged :
    (text t c : Bytes)
    → length t ≡ 16
    → ◌≡◌ {A = Option Bytes} (some (t ++ text)) (some c)
    → length c ≡ length text + 16
toy-tagged text t c ht h =
    omega (arith, length-append t text, ap (λ (x : Bytes). length x) (eq_of_some h), ht)

toy-derived :
    (salt material label : Bytes)
    → length (take 32 (material ++ (salt ++ (label ++ replicate 32 0)))) ≡ 32
toy-derived salt material label = omega (
  arith,
  length-take 32 (material ++ (salt ++ (label ++ replicate 32 0))),
  length-append material (salt ++ (label ++ replicate 32 0)),
  length-append salt (label ++ replicate 32 0),
  length-append label (replicate 32 0),
)

pub toy-IsSound : IsSound toy
toy-IsSound = record {
  opens = toy-opens;
  seals_back = toy-seals_back;
  tagged = λ key nonce text aad c h. toy-tagged text (tag key nonce aad) c refl h;
  seals = λ key nonce text aad hk hn ht ha. (tag key nonce aad ++ text, refl);
  derives = λ passphrase salt hp hs. (passphrase ++ salt, refl);
  derived = toy-derived;
}

abbrev pub drawn : SealRandom
drawn = record { argon2_salt = replicate 32 1; hkdf_salt = replicate 32 2; nonce = replicate 12 3 }

pub drawn-IsDrawn : IsDrawn drawn
drawn-IsDrawn = record { argon2_salt = refl; hkdf_salt = refl; nonce = refl }

abbrev pub passphrase : Bytes
passphrase = codes "correct horse"

abbrev pub text : Bytes
text = codes "the body"

open_vault-seal_vault_example :
    (v : SealedVault) × (seal_vault toy drawn passphrase text (some (codes "home")) ≡ ok v)
    × (open_vault toy passphrase v ≡ ok text)
unfolding alias_text
open_vault-seal_vault_example =
    open_vault-seal_vault toy toy-IsSound drawn passphrase text (some (codes "home")) drawn-IsDrawn
      (omega arith) (omega arith) (omega arith)

abbrev pub value_of : Result CryptoError SealedVault → SealedVault
value_of (ok v) = v
value_of (err e) = unsealed default_params [] [] none
value_of panic = unsealed default_params [] [] none

abbrev vault : SealedVault
vault = value_of (seal_vault toy drawn passphrase text none)

open_vault_iff_example : (open_vault toy passphrase vault ≡ ok text) ↔ (
    seal_body toy vault
      (derive_vault_key_v11 toy (passphrase ++ vault.argon2_salt) vault.hkdf_salt)
      vault.nonce
      text
    ≡ ok vault)
unfolding passphrase_key derive_key
open_vault_iff_example =
    open_vault_iff toy toy-IsSound vault passphrase
      (derive_vault_key_v11 toy (passphrase ++ vault.argon2_salt) vault.hkdf_salt) text refl

-- Another passphrase does not open the vault.
wrong_passphrase_refused : open_vault toy (codes "Correct horse") vault ≡ err wrong_key_or_header
unfolding open_vault open_body decrypt_with_aad passphrase_key derive_key derive_vault_key_v11
    seal_vault seal_vault_with_params seal_body encrypt_with_aad header_aad unsealed params_bytes
    records_bytes alias_text prefixed bytes_eq to_be
wrong_passphrase_refused = refl
