-- ===== src/Ctap2/Responses.antt =====
-- ctap2.rs: the bytes of an answer, the status and the CBOR map.
use gabbro.Prelude.{Option, none, some, [], ◌∷◌, replicate, true}
use gabbro.Bytes.{Bytes}
use gabbro.Ctap2.{
  Value, Platform, AssertionParts, RegistrationParts, Answer, status, info, created, asserted,
  panicked, unsigned, bytes, text, boolean, array, dict, no_values, one_of, no_pairs, pair,
}

unfoldable pub get_info : Value
get_info = dict (
    pair (unsigned 1) (array (one_of (text "FIDO_2_0") (one_of (text "FIDO_2_1") no_values))) (
      pair (unsigned 3) (bytes (replicate 16 0)) (
        pair (unsigned 4)
          (dict (
            pair (text "rk") (boolean true)
              (pair (text "up") (boolean true) (pair (text "uv") (boolean true) no_pairs))))
          (pair (unsigned 5) (unsigned 2048) no_pairs))))

unfoldable pub creation_response : RegistrationParts → Value
creation_response parts = dict (
    pair (unsigned 1) (text "none")
      (pair (unsigned 2) (bytes parts.auth_data) (pair (unsigned 3) (dict no_pairs) no_pairs)))

unfoldable pub assertion_response : AssertionParts → Value
assertion_response parts = dict (
    pair (unsigned 1)
      (dict (
        pair (text "id") (bytes parts.credential_id)
          (pair (text "type") (text "public-key") no_pairs)))
      (pair (unsigned 2) (bytes parts.auth_data) (
        pair (unsigned 3) (bytes parts.signature_der) (
          pair (unsigned 4) (dict (pair (text "id") (bytes parts.user_handle) no_pairs))
            no_pairs))))

-- `CTAP2_OK` and the map; there are no bytes behind a panic.
unfoldable pub response : Platform → Answer → Option Bytes
unfolding get_info creation_response assertion_response
response pf (status n) = some (n ∷ [])
response pf info = some (0 ∷ pf.into_writer get_info)
response pf (created parts) = some (0 ∷ pf.into_writer (creation_response parts))
response pf (asserted parts) = some (0 ∷ pf.into_writer (assertion_response parts))
response pf panicked = none
