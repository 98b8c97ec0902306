-- ===== src/Ctap2/Requests.antt =====
-- ctap2.rs: parsing a request, and performing it. Ctap2/Handling joins the two by the user's consent.
use gabbro.Prelude.{
  ℕ, Bool, true, false, not, ◌&&◌, ◌||◌, Option, none, some, List, [], ◌∷◌, ◌++◌, ok, err, panic,
  String, if◌then◌else◌, ◌-◌, ◌^◌,
}
use gabbro.Bytes.{Bytes}
use gabbro.Entry.{VaultEntry, PasskeyEntry, passkey}
use gabbro.Session.{World, Env, Outcome, change_and_save, is_vault_unlocked, get_entry}
use gabbro.Ctap2.{
  Value, Values, Pairs, Platform, Fresh, RegistrationParts, AssertionParts, Answer, CreateFields,
  status, created, asserted, panicked, err_invalid_cbor, err_missing_parameter,
  err_credential_excluded, err_unsupported_algorithm, err_operation_denied, err_no_credentials,
  is_text, as_text, as_bytes, as_dict, as_array, find_value, int_key, text_field, any_value,
  any_pair, in_dict, is_listed, is_es256, is_empty, session_passkeys_for_rp, allowed,
  assertion_authenticator_data, silent_assertion_authenticator_data,
  registration_authenticator_data, sign_assertion, boolean,
}

-- What is parsed, or the status byte that is the whole response.
pub data Parsed {ℓ} (A : Type ℓ) : Type ℓ where
  parsed : A → Parsed A
  refused : ℕ → Parsed A

infixl 10 ◌>>=◌ ◌>>◌
abbrev pub ◌>>=◌ {ℓ κ} : {A : Type ℓ} {B : Type κ} → Parsed A → (A → Parsed B) → Parsed B
parsed a >>= k = k a
refused n >>= k = refused n

abbrev pub ◌>>◌ {ℓ} : {B : Type ℓ} → Parsed (Unit {0}) → Parsed B → Parsed B
m >> k = m >>= λ _. k

abbrev pub ok_or {ℓ} : {A : Type ℓ} → ℕ → Option A → Parsed A
ok_or n none = refused n
ok_or n (some a) = parsed a

abbrev pub ensure : ℕ → Bool → Parsed (Unit {0})
ensure n true = parsed tt
ensure n false = refused n

abbrev pub is_false : Option Value → Bool
is_false (some (boolean b)) = not b
is_false _ = false

-- A text field of an optional map
abbrev pub text_in : String → Option Pairs → Option Value
text_in key none = none
text_in key (some ps) = find_value (is_text key) ps

-- `matches.is_empty()`
abbrev pub no_match : List PasskeyEntry → Bool
no_match [] = true
no_match (p ∷ ps) = false

unfoldable pub is_excluded : Values → List PasskeyEntry → Bool
unfolding is_listed
is_excluded vs [] = false
is_excluded vs (p ∷ ps) = is_listed vs p.credential_id || is_excluded vs ps

module _ (pf : Platform) where
  -- `ciborium::de::from_reader` to a map, or nothing
  abbrev pub request_map : Bytes → Option Pairs
  request_map body = as_dict (pf.from_reader body)

  unfoldable pub has_allow_list : Bytes → Bool
  unfolding int_key
  has_allow_list body = elim (request_map body) [
    | none ↦ false
    | some req ↦ elim (as_array (int_key req 3)) [ none ↦ false | some vs ↦ not (is_empty vs) ]
  ]

  unfoldable pub up_option_is_false : Bytes → Bool
  unfolding int_key find_value
  up_option_is_false body = elim (request_map body) [
    | none ↦ false
    | some req ↦ is_false (text_in "up" (as_dict (int_key req 5)))
  ]

  unfoldable pub c_hash : Bytes → Bytes
  unfolding int_key
  c_hash body = elim (request_map body) [
    | none ↦ []
    | some req ↦ elim (as_bytes (int_key req 2)) [ none ↦ [] | some h ↦ h ]
  ]

  unfoldable pub parse_create : World → Bytes → Parsed CreateFields
  unfolding is_vault_unlocked int_key text_field find_value any_value any_pair
  parse_create w body = do
    ensure err_operation_denied (is_vault_unlocked w)
    req ← ok_or err_invalid_cbor (request_map body)
    rp ← ok_or err_missing_parameter (as_dict (int_key req 2))
    user ← ok_or err_missing_parameter (as_dict (int_key req 3))
    params ← ok_or err_missing_parameter (as_array (int_key req 4))
    rp_text ← ok_or err_missing_parameter (text_field rp "id")
    name ← ok_or err_missing_parameter (text_field user "name")
    handle ← ok_or err_missing_parameter (as_bytes (find_value (is_text "id") user))
    ensure err_unsupported_algorithm
        (any_value (in_dict (λ k v. is_text "alg" k && is_es256 v)) params)
    parsed (record {
      rp_id = rp_text;
      user_name = name;
      display_name = elim (text_field user "displayName") [ none ↦ name | some d ↦ d ];
      user_handle = handle;
      raw = req;
    })

  unfoldable pub assertion_matches : World → Bytes → Parsed (String × List PasskeyEntry)
  unfolding is_vault_unlocked int_key session_passkeys_for_rp allowed
  assertion_matches w body = do
    ensure err_operation_denied (is_vault_unlocked w)
    req ← ok_or err_invalid_cbor (request_map body)
    rp ← ok_or err_missing_parameter (as_text (int_key req 1))
    hash ← ok_or err_missing_parameter (as_bytes (int_key req 2))
    ours ← ok_or err_operation_denied (session_passkeys_for_rp w rp)
    let matches = allowed (int_key req 3) ours
    ensure err_no_credentials (not (no_match matches))
    parsed (rp, matches)

  -- `sign_passkey_assertion` of api/passkey_bridge.rs
  unfoldable pub sign_passkey_assertion : World → String → Bytes → Option AssertionParts
  unfolding get_entry assertion_authenticator_data sign_assertion
  sign_passkey_assertion w id hash = elim (get_entry w id) [
    | ok (passkey e) ↦
        let data_signed = assertion_authenticator_data pf e.rp_id in
        elim (sign_assertion pf e.private_key data_signed hash) [
          | none ↦ none
          | some sig ↦ some (record {
            credential_id = e.credential_id;
            auth_data = data_signed;
            signature_der = sig;
            user_handle = e.user_handle;
          })
        ]
    | _ ↦ none
  ]

  abbrev pub asserted_or_denied : Option AssertionParts → Answer
  asserted_or_denied none = status err_operation_denied
  asserted_or_denied (some parts) = asserted parts

  unfoldable pub perform_assert : World → PasskeyEntry → Bytes → Answer
  unfolding sign_passkey_assertion
  perform_assert w pk hash = asserted_or_denied (sign_passkey_assertion w pk.meta.id hash)

  unfoldable pub perform_assert_silent : PasskeyEntry → Bytes → Answer
  unfolding silent_assertion_authenticator_data sign_assertion
  perform_assert_silent pk hash =
      let data_signed = silent_assertion_authenticator_data pf pk.rp_id in
      elim (sign_assertion pf pk.private_key data_signed hash) [
        | none ↦ status err_operation_denied
        | some sig ↦ asserted (record {
          credential_id = pk.credential_id;
          auth_data = data_signed;
          signature_der = sig;
          user_handle = pk.user_handle;
        })
      ]

  -- The entry that `register_passkey_parts` stores
  unfoldable pub new_passkey : Fresh → CreateFields → PasskeyEntry
  new_passkey f c = record {
    meta = record {
      id = f.entry_id;
      created_at = f.now;
      updated_at = f.now;
      folder = "";
      field_times = [];
      history = [];
    };
    rp_id = c.rp_id;
    user_name = c.user_name;
    user_display_name = c.display_name;
    user_handle = c.user_handle;
    credential_id = f.credential_id;
    private_key = f.private_key;
    public_key_cose = f.public_key_cose;
    algorithm = 2 ^ 64 - 7;
    notes = none;
    custom_fields = [];
  }

  -- `session_create_entry` of vault/session.rs, without the summary that it returns
  unfoldable pub session_create_entry : Env → World → VaultEntry → Outcome (Unit {0})
  unfolding change_and_save
  session_create_entry env w e =
      change_and_save env w (λ s. ok (record s { entries = s.entries ++ (e ∷ []) }))

  abbrev pub created_or_denied : RegistrationParts → Outcome (Unit {0}) → World × Answer
  created_or_denied parts (w, ok u) = (w, created parts)
  created_or_denied parts (w, err e) = (w, status err_operation_denied)
  created_or_denied parts (w, panic) = (w, panicked)

  unfoldable pub register_passkey : Env → World → Fresh → CreateFields → World × Answer
  unfolding session_create_entry registration_authenticator_data new_passkey
  register_passkey env w f c =
      created_or_denied
        (record {
          credential_id = f.credential_id;
          auth_data = registration_authenticator_data pf c.rp_id f.credential_id f.public_key_cose;
          public_key_cose = f.public_key_cose;
        })
        (session_create_entry env w (passkey (new_passkey f c)))

  -- The exclude-list names a credential of ours: an error where the vault is locked.
  unfoldable pub excluded : World → CreateFields → Parsed Bool
  unfolding int_key session_passkeys_for_rp is_excluded
  excluded w c = elim (as_array (int_key c.raw 5)) [
    | none ↦ parsed false
    | some vs ↦ do
      ours ← ok_or err_operation_denied (session_passkeys_for_rp w c.rp_id)
      parsed (is_excluded vs ours)
  ]

  unfoldable pub perform_create : Env → World → Fresh → CreateFields → World × Answer
  unfolding excluded register_passkey
  perform_create env w f c = elim (excluded w c) [
    | parsed b ↦ if b then (w, status err_credential_excluded) else register_passkey env w f c
    | refused n ↦ (w, status n)
  ]
