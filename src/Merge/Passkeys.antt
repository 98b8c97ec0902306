-- ===== src/Merge/Passkeys.antt =====
-- The key material of a merged passkey.
use gabbro.Merge.{Side, local, incoming, chosen, FieldMerger, decide, ◌>>=◌}
use gabbro.Entry.Blob.{credential_blob}
use gabbro.Bytes.{Bytes, bytes_eq}
use gabbro.Entry.{PasskeyEntry}
use gabbro.Prelude.{String, inl, inr, refl, ◌≡◌, ◌⊎◌}
use gabbro.Merge.Pair.{merge_passkey}

-- Half a credential signs for nobody: the merged passkey has the whole key material of one of the
-- two versions, whatever is decided for its other fields.
merge_passkey-credential_blob :
    (b64 : Bytes → String) (l i : PasskeyEntry) (m : FieldMerger)
    → (credential_blob (merge_passkey b64 l i m).0 ≡ credential_blob l)
      ⊎ (credential_blob (merge_passkey b64 l i m).0 ≡ credential_blob i)
unfolding merge_passkey credential_blob ◌>>=◌
merge_passkey-credential_blob b64 l i m =
    by_side
      (decide "credential" (bytes_eq (credential_blob l) (credential_blob i))
        (b64 (credential_blob l)) (b64 (credential_blob i)) m).0
  where
    by_side :
        (side : Side)
        → (credential_blob (chosen side l i) ≡ credential_blob l)
          ⊎ (credential_blob (chosen side l i) ≡ credential_blob i)
    by_side local = inl refl
    by_side incoming = inr refl
