-- ===== src/Tests/Ctap2.antt =====
-- ctap2.rs on one request: a sign-in for a site that the vault has a passkey for, with a reader that
-- gives that request for every body but a first byte, which says whether `up` is false.
use gabbro.Prelude.{
  ◌≡◌, refl, [], ◌∷◌, some, none, ◌++◌, arith, Bool, false, Option, get_elem?, ◌==◌,
}
use gabbro.Bytes.{Bytes, bytes_eq}
use gabbro.Entry.{PasskeyEntry, passkey}
use gabbro.Session.{World, is_vault_unlocked}
use gabbro.Tests.Entry.{key_a}
use gabbro.Tests.Session.{env, session}
use gabbro.Ctap2.Requests.{
  assertion_matches, c_hash, has_allow_list, perform_assert, perform_assert_silent,
  up_option_is_false,
}
use gabbro.Ctap2.Handling.{
  Consents, approved_account, carry_out, describe_assertion, describe_request, follow_plan,
  handle_request, perform_approved,
}
use gabbro.Ctap2.{
  Fresh, Platform, any_pair, any_value, find_value, int_key, is_listed, passkeys_for, retain_listed,
  session_passkeys_for_rp, Value, allowed, dict, status, pair, unsigned, bytes, array, one_of,
  no_pairs, no_values, boolean, text,
}
use gabbro.Ctap2.Consent.{handle_request-IsConsented, IsConsented}
use gabbro.Ctap2.Accounts.{perform_approved-describe_request}

abbrev request : Bool → Value
request up = dict (
    pair (unsigned 1) (text "example.com") (
      pair (unsigned 2) (bytes (7 ∷ [])) (
        pair (unsigned 3)
          (array (one_of (dict (pair (text "id") (bytes (2 ∷ 3 ∷ [])) no_pairs)) no_values))
          (pair (unsigned 5) (dict (pair (text "up") (boolean up) no_pairs)) no_pairs))))

abbrev reader : Bytes → Option Value
reader [] = none
reader (b ∷ bs) = some (request (b == 1))

abbrev platform : Platform
platform = record {
  from_reader = reader;
  into_writer = λ v. [];
  sha256 = λ b. b;
  es256 = λ key message. some (key ++ message);
}

abbrev with_passkey : World
with_passkey = record {
  session = some (record session { entries = passkey key_a ∷ [] });
  saved = none;
}

abbrev new_key : Fresh
new_key = record {
  entry_id = "n";
  now = "t";
  private_key = 1 ∷ [];
  public_key_cose = 2 ∷ [];
  credential_id = 3 ∷ [];
}

abbrev refuser : Consents
refuser = record {
  approve_create = λ rp name. false;
  approve_assert = λ rp name. false;
  choose_account = λ rp names. none;
}

handle_request-IsConsented_example :
    IsConsented platform env with_passkey new_key
      (0 ∷ [])
      refuser
      (handle_request platform env with_passkey new_key (2 ∷ 0 ∷ []) refuser)
handle_request-IsConsented_example =
    handle_request-IsConsented platform env with_passkey new_key 2 (0 ∷ []) refuser

-- The silent probe is answered whatever the user would say.
silent_run :
    (handle_request platform env with_passkey new_key (2 ∷ 0 ∷ []) refuser).1
    ≡ perform_assert_silent platform key_a (7 ∷ [])
unfolding handle_request describe_request follow_plan assertion_matches up_option_is_false
    has_allow_list c_hash int_key find_value describe_assertion is_vault_unlocked
    session_passkeys_for_rp passkeys_for allowed retain_listed is_listed any_value any_pair bytes_eq
silent_run = refl

-- With `up: true` the same user's refusal ends in the status for it.
refused_run :
    (handle_request platform env with_passkey new_key (2 ∷ 1 ∷ []) refuser).1 ≡ status 0x27
unfolding handle_request describe_request follow_plan assertion_matches up_option_is_false
    has_allow_list c_hash int_key find_value describe_assertion is_vault_unlocked
    session_passkeys_for_rp passkeys_for allowed retain_listed is_listed any_value any_pair bytes_eq
    approved_account carry_out
refused_run = refl

perform_approved-describe_request_example :
    (pk : PasskeyEntry) × (pk.rp_id ≡ "example.com")
    × (get_elem? ("u" ∷ []) 0 ≡ some pk.user_name)
    × (perform_approved platform env with_passkey new_key (2 ∷ 1 ∷ []) 0
        ≡ (with_passkey, perform_assert platform with_passkey pk (c_hash platform (1 ∷ []))))
unfolding describe_request assertion_matches up_option_is_false has_allow_list c_hash int_key
    find_value describe_assertion is_vault_unlocked session_passkeys_for_rp passkeys_for allowed
    retain_listed is_listed any_value any_pair bytes_eq
perform_approved-describe_request_example =
    perform_approved-describe_request platform env with_passkey new_key (1 ∷ []) 2 "example.com"
      ("u" ∷ []) 0 refl (omega arith)
