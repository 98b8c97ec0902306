-- ===== src/Vaults/Sized.antt =====
-- A sealed vault that can be written.
use gabbro.Prelude.{◌≡◌, ◌≤◌, ◌<◌, ◌+◌, ◌^◌, refl, arith, length, Option, true, ap, ok, subst, sym}
use gabbro.Bytes.{Bytes}
use gabbro.Utf8.{is_utf8}
use gabbro.FileFormat.{SealedVault, header_aad, alias_text, alias_of, records_bytes}
use gabbro.FileFormat.RoundTrip.{IsWritable}
use gabbro.FileFormat.Sizes.{length-header_aad, length-to_bytes}
use gabbro.Crypto.{default_params, IsSound, Primitives}
use gabbro.Crypto.Sealing.{
  unsealed, SealRandom, IsDrawn, passphrase_key, seal_vault, seal_vault_with_params,
}
use gabbro.Prelude.Chains.{>>=-eq-ok}
use gabbro.Crypto.Sealing.RoundTrip.{seal_body-IsBody}

-- An alias that the format can hold.
pub record IsAlias (name : Option Bytes) : Type 0 where
  pub fits : length (alias_text name) < 2 ^ 16
  pub utf8 : is_utf8 (alias_text name) ≡ true
  pub set : alias_of (alias_text name) ≡ name

-- A vault can be written with another body, of a length that the cipher takes.
pub IsWritable-body :
    (v : SealedVault) (iv c : Bytes)
    → IsWritable v
    → length iv ≡ 12
    → length c ≤ 2 ^ 36 + 16
    → length (header_aad v) ≤ 2 ^ 36
    → IsWritable (record v { nonce = iv; ciphertext = c })
unfolding header_aad
IsWritable-body v iv c h hi hc ha =
    let sealed : SealedVault = record v { nonce = iv; ciphertext = c } in
    record {
      oldest = h.oldest;
      newest = h.newest;
      m_fits = h.m_fits;
      t_fits = h.t_fits;
      p_fits = h.p_fits;
      argon2_salt_length = h.argon2_salt_length;
      hkdf_salt_length = h.hkdf_salt_length;
      nonce_length = hi;
      record_count = h.record_count;
      records = h.records;
      alias_fits = h.alias_fits;
      alias_utf8 = h.alias_utf8;
      alias_set = h.alias_set;
      blob_fits = h.blob_fits;
      body_fits = omega (arith, hc);
      file_fits = omega (arith, length-to_bytes sealed, hi, hc, ha);
    }

pub IsWritable-unsealed :
    (r : SealRandom) (name : Option Bytes)
    → IsDrawn r
    → IsAlias name
    → IsWritable (unsealed default_params r.argon2_salt r.hkdf_salt name)
unfolding unsealed records_bytes
IsWritable-unsealed r name drawn named =
    let v = unsealed default_params r.argon2_salt r.hkdf_salt name in
    record {
      oldest = omega arith;
      newest = omega arith;
      m_fits = omega arith;
      t_fits = omega arith;
      p_fits = omega arith;
      argon2_salt_length = drawn.argon2_salt;
      hkdf_salt_length = drawn.hkdf_salt;
      nonce_length = refl;
      record_count = omega arith;
      records = tt;
      alias_fits = named.fits;
      alias_utf8 = named.utf8;
      alias_set = named.set;
      blob_fits = omega arith;
      body_fits = omega arith;
      file_fits = omega (
        arith,
        length-to_bytes v,
        length-header_aad v,
        named.fits,
        drawn.argon2_salt,
        drawn.hkdf_salt,
      );
    }

-- What `seal_vault` makes can be written, and has the alias.
pub seal_vault-IsWritable :
    (p : Primitives) (r : SealRandom) (passphrase text : Bytes) (name : Option Bytes)
    (v : SealedVault)
    → IsSound p
    → IsDrawn r
    → IsAlias name
    → length text ≤ 2 ^ 36
    → seal_vault p r passphrase text name ≡ ok v
    → IsWritable v × (v.alias ≡ name)
unfolding seal_vault seal_vault_with_params unsealed records_bytes
seal_vault-IsWritable p r passphrase text name v sound drawn named ht h =
    let headed = unsealed default_params r.argon2_salt r.hkdf_salt name in
    let (key, _, h1) =
      >>=-eq-ok (passphrase_key p passphrase r.argon2_salt r.hkdf_salt default_params) _ h in
    let b = seal_body-IsBody p headed key r.nonce text h1 in
    let tagged = sound.tagged key r.nonce text (header_aad headed) b.sealed b.seals in
    (
      subst IsWritable (sym b.made) (
          IsWritable-body headed r.nonce b.sealed (IsWritable-unsealed r name drawn named)
            drawn.nonce (omega (arith, tagged, ht))
            (omega
              (arith, length-header_aad headed, named.fits, drawn.argon2_salt, drawn.hkdf_salt))),
      ap (λ (x : SealedVault). x.alias) b.made,
    )
