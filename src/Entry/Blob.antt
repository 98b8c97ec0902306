-- ===== src/Entry/Blob.antt =====
-- `PasskeyEntry::credential_blob` and `apply_credential_blob`: the key material as one byte string.
use gabbro.Prelude.{
  Result, arith, err, if◌then◌else◌, length, length-append, ok, panic, ◌++◌, ◌<◌, ◌==◌, ◌^◌, ◌≡◌,
  Bool-cases, inl, inr, refl, ◌+◌, ◌↔◌, ◌≢◌, [], ap, sym, ◌∙◌,
}
use gabbro.Bytes.{Bytes, to_be, prefixed}
use gabbro.Cursor.{Cursor, Reader, read_prefixed, read_word, usize_mod, start, ◌>>=◌, ◌>>◌, pure}
use gabbro.Entry.{PasskeyEntry}
use gabbro.Bytes.Words.{length-to_be}
use gabbro.Cursor.Laws.{
  NoPanic, Reads, Reads-bind, Reads-last, Reads-read_prefixed, Reads-read_word, no_panic_rules,
  NoPanic-bind, NoPanic-pure,
}

pub data BlobError : Type 0 where
  truncated_length truncated_field truncated_algorithm trailing_bytes : BlobError

unfoldable pub credential_blob : PasskeyEntry → Bytes
unfolding prefixed
credential_blob e =
    prefixed 2 e.credential_id
    ++ (prefixed 2 e.private_key
        ++ (prefixed 2 e.public_key_cose ++ (prefixed 2 e.user_handle ++ to_be 8 e.algorithm)))

-- The inner `take`.
take_part : Reader BlobError Bytes
take_part = read_prefixed truncated_length truncated_field 2

-- `if pos + 8 != blob.len()`, with the position behind the algorithm.
at_end : Reader BlobError (Unit {0})
at_end c = if length c.rest == 0 then ok (tt, c) else err trailing_bytes

read_parts : PasskeyEntry → Reader BlobError PasskeyEntry
unfolding take_part
read_parts e = do
  id ← take_part
  key ← take_part
  cose ← take_part
  handle ← take_part
  alg ← read_word truncated_algorithm 8
  pure (record e {
    credential_id = id;
    private_key = key;
    public_key_cose = cose;
    user_handle = handle;
    algorithm = alg;
  })

read_blob : PasskeyEntry → Reader BlobError PasskeyEntry
unfolding read_parts at_end
read_blob e = do e' ← read_parts e; at_end; pure e'

-- The entry afterwards, and the outcome.
apply_outcome :
    PasskeyEntry
    → Result BlobError (PasskeyEntry × Cursor)
    → PasskeyEntry × Result BlobError (Unit {0})
apply_outcome e (ok (e', c)) = (e', ok tt)
apply_outcome e (err x) = (e, err x)
apply_outcome e panic = (e, panic)

unfoldable pub apply_credential_blob :
    PasskeyEntry → Bytes → PasskeyEntry × Result BlobError (Unit {0})
unfolding read_blob apply_outcome
apply_credential_blob e blob = apply_outcome e (read_blob e (start blob))

-- The widths that the length prefixes and an `i64` hold.
pub record IsBlobWritable (e : PasskeyEntry) : Type 0 where
  pub id_fits : length e.credential_id < 2 ^ 16
  pub key_fits : length e.private_key < 2 ^ 16
  pub cose_fits : length e.public_key_cose < 2 ^ 16
  pub handle_fits : length e.user_handle < 2 ^ 16
  pub algorithm_fits : e.algorithm < 2 ^ 64

-- The entry with another's key material.
abbrev pub with_key_material : PasskeyEntry → PasskeyEntry → PasskeyEntry
with_key_material e from = record e {
  credential_id = from.credential_id;
  private_key = from.private_key;
  public_key_cose = from.public_key_cose;
  user_handle = from.user_handle;
  algorithm = from.algorithm;
}

length-credential_blob :
    (e : PasskeyEntry) → IsBlobWritable e → length (credential_blob e) < usize_mod
unfolding credential_blob
length-credential_blob e h = omega (arith, length-append {0}, length-to_be)

Reads-parts :
    (e from : PasskeyEntry)
    → IsBlobWritable from
    → Reads (read_parts e) (credential_blob from) (with_key_material e from)
unfolding read_parts credential_blob
Reads-parts e from h = Reads-bind _ (Reads-read_prefixed _ _ 2 from.credential_id h.id_fits) (
    Reads-bind _ (Reads-read_prefixed _ _ 2 from.private_key h.key_fits) (
      Reads-bind _ (Reads-read_prefixed _ _ 2 from.public_key_cose h.cose_fits) (
        Reads-bind _ (Reads-read_prefixed _ _ 2 from.user_handle h.handle_fits)
          (Reads-last _ (Reads-read_word _ 8 from.algorithm h.algorithm_fits)))))

-- A blob that an entry wrote gives another entry exactly its key material, and is refused, with
-- the entry untouched, if anything follows it.
pub apply_credential_blob-credential_blob :
    (e from : PasskeyEntry) (trailing : Bytes)
    → IsBlobWritable from
    → apply_credential_blob e (credential_blob from ++ trailing) ≡ (
        if length trailing == 0 then (with_key_material e from, ok tt) else (e, err trailing_bytes))
unfolding apply_credential_blob ◌>>=◌
apply_credential_blob-credential_blob e from trailing h = elim (Bool-cases (length trailing == 0)) [
  | inl bare ↦ rw (read, bare)
  | inr more ↦ rw (read, more)
]
  where
    read :
        read_parts e (start (credential_blob from ++ trailing))
        ≡ ok (
          with_key_material e from,
          record { pos = 0 + length (credential_blob from); rest = trailing },
        )
    read = (Reads-parts e from h).at 0 trailing (omega (arith, length-credential_blob from h))

NoPanic-parts : (e : PasskeyEntry) → NoPanic (read_parts e)
unfolding read_parts
NoPanic-parts e = search no_panic_rules depth 16

NoPanic-end : NoPanic at_end
unfolding at_end
NoPanic-end = record { at = λ c. ground arith }

NoPanic-blob : (e : PasskeyEntry) → NoPanic (read_blob e)
unfolding read_blob
NoPanic-blob e =
    NoPanic-bind _ (NoPanic-parts e) (λ e'. NoPanic-bind _ NoPanic-end (λ done. NoPanic-pure e'))

-- Whatever the bytes: no panic, and on an error the entry is untouched.
pub apply_credential_blob_atomic :
    (e : PasskeyEntry) (blob : Bytes)
    → ((apply_credential_blob e blob).1 ≢ panic)
      × ((apply_credential_blob e blob).1 ≢ ok tt → (apply_credential_blob e blob).0 ≡ e)
unfolding apply_credential_blob
apply_credential_blob_atomic e blob =
    outcome (read_blob e (start blob)) ((NoPanic-blob e).at (start blob))
  where
    outcome :
        (r : Result BlobError (PasskeyEntry × Cursor))
        → r ≢ panic
        → ((apply_outcome e r).1 ≢ panic)
          × ((apply_outcome e r).1 ≢ ok tt → (apply_outcome e r).0 ≡ e)
    outcome (ok (e', c)) calm = (λ x. cc, λ x. absurd (x refl))
    outcome (err x) calm = (λ x. cc, λ x. refl)
    outcome panic calm = absurd (calm refl)

-- Two writable entries have the same blob exactly when all their key material agrees: no two
-- splits into fields produce the same bytes.
credential_blob_iff :
    (a b : PasskeyEntry)
    → IsBlobWritable a
    → IsBlobWritable b
    → (credential_blob a ≡ credential_blob b) ↔ (with_key_material a b ≡ a)
credential_blob_iff a b ha hb = (
  (λ e.
      sym (ap (λ r. r.0) (apply_credential_blob-credential_blob a b [] hb))
      ∙ ap (λ (blob : Bytes). (apply_credential_blob a (blob ++ [])).0) (sym e)
      ∙ ap (λ r. r.0) (apply_credential_blob-credential_blob a a [] ha)),
  (λ e. unfold credential_blob in sym (ap credential_blob e)),
)
