-- ===== src/FileFormat/Panics.antt =====
-- Opening any file, also a hostile one, ends in a vault or an error: no slice runs out of range.
use gabbro.Prelude.{zero, suc, [], ℕ, ◌≢◌, panic, arith, ◌∷◌}
use gabbro.Bytes.{Bytes}
use gabbro.Cursor.{◌>>=◌, ◌>>◌, need, slice, slice_word, start}
use gabbro.Cursor.Laws.{NoPanic, NoPanic-pure, no_panic_rules, NoPanic-bind}
use gabbro.FileFormat.{
  read_version, read_params, read_record, read_records, read_alias, read_passphrase_blob, body_fits,
  read_body, read_vault, from_bytes,
}

NoPanic-version : NoPanic read_version
unfolding read_version
NoPanic-version = search no_panic_rules

NoPanic-params : NoPanic read_params
unfolding read_params need slice_word slice ◌>>=◌
NoPanic-params = record { at = λ c. ground arith }

NoPanic-record : NoPanic read_record
unfolding read_record
NoPanic-record = search no_panic_rules depth 8

NoPanic-records : (n : ℕ) → NoPanic (read_records n)
unfolding read_records
NoPanic-records zero = NoPanic-pure []
NoPanic-records (suc n) =
    NoPanic-bind _ NoPanic-record
      (λ r. NoPanic-bind _ (NoPanic-records n) (λ rs. NoPanic-pure (r ∷ rs)))

NoPanic-alias : NoPanic read_alias
unfolding read_alias
NoPanic-alias = search no_panic_rules depth 8

NoPanic-fitting_slice : (n : ℕ) → NoPanic (body_fits n >> slice n)
unfolding body_fits slice ◌>>=◌
NoPanic-fitting_slice n = record { at = λ c. ground arith }

NoPanic-body : NoPanic read_body
unfolding read_body
NoPanic-body = search (no_panic_rules, NoPanic-fitting_slice)

NoPanic-vault : NoPanic read_vault
unfolding read_vault read_passphrase_blob
NoPanic-vault =
    search
      (
        no_panic_rules, NoPanic-version, NoPanic-params, NoPanic-records, NoPanic-alias,
        NoPanic-body,
      )
      depth 20

-- `from_bytes` returns a vault or an error on every input.
pub from_bytes-ne-panic : (bytes : Bytes) → from_bytes bytes ≢ panic
unfolding from_bytes
from_bytes-ne-panic bytes = ground (arith, NoPanic-vault.at (start bytes))
