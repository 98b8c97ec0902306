-- ===== src/FileFormat/Aad.antt =====
-- What the authenticated header binds.
use gabbro.Prelude.{
  ◌<◌, ◌≡◌, ◌↔◌, ap, arith, ◌++◌, length-append, ◌%◌, refl, map_ok, [], length, ok,
}
use gabbro.Cursor.{Reader, usize_mod, ◌>>=◌, read, read_byte, pure, start, ◌>>◌}
use gabbro.Cursor.Laws.{
  Reads, Reads-bind, Reads-read, Reads-read_byte, Reads-last, Reads-read_prefixed,
}
use gabbro.FileFormat.{
  SealedVault, FormatError, header_aad, to_bytes, read_passphrase_blob, magic, read_version,
  too_short, read_params, truncated, Field, yubikey_record_count, read_records, Bytes, read_alias,
}
use gabbro.FileFormat.RoundTrip.{
  IsWritable, Reads-version, Reads-params, Reads-counted, Reads-alias,
}

-- The fields that the header authenticates: all but the nonce and the body.
abbrev pub authenticated : SealedVault → SealedVault
authenticated v = record v { nonce = []; ciphertext = [] }

-- A reader of the AAD, which the program never needs; it shows that nothing is lost in it.
read_aad : Reader FormatError SealedVault
read_aad = do
  read too_short 6
  v ← read_version
  p ← read_params
  a_salt ← read (truncated Field.argon2_salt) 32
  h_salt ← read (truncated Field.hkdf_salt) 32
  count ← read_byte (truncated yubikey_record_count)
  records ← read_records count
  name ← read_alias
  blob ← read_passphrase_blob
  pure (record {
    version_byte = v;
    params = p;
    argon2_salt = a_salt;
    hkdf_salt = h_salt;
    nonce = [];
    ciphertext = [];
    yubikey_records = records;
    alias = name;
    passphrase_blob = blob;
  })

Reads-aad : (v : SealedVault) → IsWritable v → Reads read_aad (header_aad v) (authenticated v)
unfolding read_aad header_aad read_passphrase_blob
Reads-aad v h = Reads-bind _ (Reads-read _ magic refl) (
    Reads-bind _ (Reads-version v.version_byte h.oldest h.newest) (
      Reads-bind _ (Reads-params v.params h.m_fits h.t_fits h.p_fits) (
        Reads-bind _ (Reads-read _ v.argon2_salt h.argon2_salt_length) (
          Reads-bind _ (Reads-read _ v.hkdf_salt h.hkdf_salt_length) (
            Reads-bind _ (Reads-read_byte _ (length v.yubikey_records % 256)) (
              Reads-bind _ (Reads-counted v.yubikey_records h.record_count h.records) (
                Reads-bind _ (Reads-alias v.alias h.alias_fits h.alias_utf8 h.alias_set)
                  (Reads-last _ (Reads-read_prefixed _ _ 2 v.passphrase_blob h.blob_fits)))))))))

-- The header is no longer than the file that holds it.
aad_fits : (v : SealedVault) → IsWritable v → length (header_aad v) < usize_mod
unfolding header_aad to_bytes
aad_fits v h = omega (arith, length-append {0}, h.file_fits)

aad_read :
    (v : SealedVault)
    → IsWritable v
    → map_ok (λ r. r.0) (read_aad (start (header_aad v ++ []))) ≡ ok (authenticated v)
aad_read v h = rw ((Reads-aad v h).at 0 [] (omega (arith, aad_fits v h)))

-- Two writable vaults have the same AAD exactly when they agree on every header field other than
-- the nonce: a change to any of these is a change of the AAD.
pub header_aad_iff :
    (v w : SealedVault)
    → IsWritable v
    → IsWritable w
    → (header_aad v ≡ header_aad w) ↔ (authenticated v ≡ authenticated w)
header_aad_iff v w hv hw = (
  (λ e. cc (
    aad_read v hv,
    aad_read w hw,
    ap (λ (bytes : Bytes). map_ok (λ r. r.0) (read_aad (start (bytes ++ [])))) e,
  )),
  (λ e. unfold header_aad in ap header_aad e),
)
