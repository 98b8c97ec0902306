-- ===== src/Tests/Entry.antt =====
-- vault/entry.rs at concrete entries.
use gabbro.Prelude.{
  ok, replicate, String, [], arith, err, if◌then◌else◌, length, none, panic, refl, some, str_eq, ℕ,
  ◌++◌, ◌-◌, ◌<◌, ◌==◌, ◌^◌, ◌∷◌, ◌≡◌, ◌≢◌,
}
use gabbro.Bytes.{Bytes}
use gabbro.Entry.{CardEntry, EntryMeta, HistoryRecord, PasskeyEntry}
use gabbro.Entry.Blob.{
  IsBlobWritable, apply_credential_blob, apply_credential_blob-credential_blob,
  apply_credential_blob_atomic, credential_blob, trailing_bytes, with_key_material,
}
use gabbro.Entry.History.{IsOnePerField, find_field, record_previous, record_previous_lem}
use gabbro.Entry.Card.{card_problems, new_card}
use gabbro.Entry.Card.{new_card}

abbrev old_password : HistoryRecord
old_password = record { field = "password"; value = "a"; saved_at = "t0"; expires_at = none }

abbrev meta : EntryMeta
meta = record {
  id = "id-1";
  created_at = "t0";
  updated_at = "t0";
  folder = "Work";
  field_times = [];
  history = old_password ∷ [];
}

record_previous_example :
    IsOnePerField (record_previous "password" "b" "t1" none meta).history
    × ((g : String)
        → find_field g (record_previous "password" "b" "t1" none meta).history ≡ (
            if str_eq "password" g
            then some
                (record { field = "password"; value = "b"; saved_at = "t1"; expires_at = none })
            else find_field g meta.history))
    × (record (record_previous "password" "b" "t1" none meta) { history = meta.history } ≡ meta)
unfolding find_field
record_previous_example = record_previous_lem "password" "b" "t1" none meta (refl, tt)

abbrev passkey_from : Bytes → PasskeyEntry
passkey_from key = record {
  meta = meta;
  rp_id = "example.com";
  user_name = "u";
  user_display_name = "U";
  user_handle = 1 ∷ [];
  credential_id = 2 ∷ 3 ∷ [];
  private_key = key;
  public_key_cose = 4 ∷ [];
  algorithm = 2 ^ 64 - 7;
  notes = none;
  custom_fields = [];
}

passkey_from-IsBlobWritable :
    (key : Bytes) → length key < 2 ^ 16 → IsBlobWritable (passkey_from key)
passkey_from-IsBlobWritable key fits = record {
  id_fits = omega arith;
  key_fits = fits;
  cose_fits = omega arith;
  handle_fits = omega arith;
  algorithm_fits = omega arith;
}

abbrev pub key_a : PasskeyEntry
key_a = passkey_from (replicate 32 1)

abbrev pub key_b : PasskeyEntry
key_b = passkey_from (replicate 32 2)

key_a-IsBlobWritable : IsBlobWritable key_a
key_a-IsBlobWritable = passkey_from-IsBlobWritable (replicate 32 1) (omega arith)

key_b-IsBlobWritable : IsBlobWritable key_b
key_b-IsBlobWritable = passkey_from-IsBlobWritable (replicate 32 2) (omega arith)

apply_credential_blob-credential_blob_example :
    apply_credential_blob key_a (credential_blob key_b ++ []) ≡ (
      if length {A = ℕ} [] == 0
      then (with_key_material key_a key_b, ok tt)
      else (key_a, err trailing_bytes))
apply_credential_blob-credential_blob_example =
    apply_credential_blob-credential_blob key_a key_b [] key_b-IsBlobWritable

apply_credential_blob_atomic_example :
    ((apply_credential_blob key_a (0 ∷ [])).1 ≢ panic)
    × ((apply_credential_blob key_a (0 ∷ [])).1 ≢ ok tt
        → (apply_credential_blob key_a (0 ∷ [])).0 ≡ key_a)
apply_credential_blob_atomic_example = apply_credential_blob_atomic key_a (0 ∷ [])

abbrev visa : CardEntry
visa = record {
  meta = meta;
  card_name = none;
  status = "active";
  cardholder_name = "A B";
  card_number = "4111 1111";
  expiry = "01/30";
  cvv = "1";
  credit_limit = none;
  card_account_number = none;
  payment_network = none;
  pin = none;
  bank_name = none;
  transaction_password = none;
  notes = none;
  custom_fields = [];
  attachments = [];
}

-- Eight digits are enough.
eight_digits_run : new_card visa ≡ ok visa
unfolding new_card card_problems
eight_digits_run = refl
