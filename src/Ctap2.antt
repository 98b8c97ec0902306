-- ===== src/Ctap2.antt =====
-- ctap2.rs: the commands of the virtual authenticator, with what they call of api/passkey_bridge.rs,
-- vault/session.rs and crypto/webauthn.rs. CBOR, SHA-256 and P-256 are other crates' (`Platform`); what
-- is drawn for a new key is an argument (`Fresh`). A response is an `Answer`, whose bytes are
-- `response`.
pub mod Requests
pub mod Handling
pub mod Consent
pub mod Responses
pub mod Accounts
use gabbro.Prelude.{
  ℕ, Bool, true, false, not, ◌&&◌, ◌||◌, Option, none, some, List, [], ◌∷◌, ◌++◌, Result, ok, err,
  panic, String, str_eq, length, ◌==◌, ltb, if◌then◌else◌, codes, map, get_elem?, ◌%◌, replicate,
  ◌^◌,
}
use gabbro.Prelude.Chains.{◌>>=◌, ◌>>◌, ok_or, ensure}
use gabbro.Bytes.{Bytes, bytes_eq, to_be}
use gabbro.Entry.{VaultEntry, PasskeyEntry, passkey, login, note, identity, card, file, custom}
use gabbro.Session.{World, Env, VaultSession, change_and_save, is_vault_unlocked, get_entry}

-- `ciborium::value::Value`, with an integer by its sign: `negative n` is -1 - n.
mutual
  pub data Value : Type 0 where
    unsigned negative : ℕ → Value
    bytes : Bytes → Value
    text : String → Value
    boolean : Bool → Value
    array : Values → Value
    dict : Pairs → Value
    other : Value

  pub data Values : Type 0 where
    no_values : Values
    one_of : Value → Values → Values

  pub data Pairs : Type 0 where
    no_pairs : Pairs
    pair : Value → Value → Pairs → Pairs

pub record Platform : Type 0 where
  pub from_reader : Bytes → Option Value
  pub into_writer : Value → Bytes
  pub sha256 : Bytes → Bytes
  -- the key pair of the bytes signs the message, or they are no key
  pub es256 : Bytes → Bytes → Option Bytes

pub record Fresh : Type 0 where
  pub entry_id : String
  pub now : String
  pub private_key : Bytes
  pub public_key_cose : Bytes
  pub credential_id : Bytes

pub record RegistrationParts : Type 0 where
  pub credential_id : Bytes
  pub auth_data : Bytes
  pub public_key_cose : Bytes

pub record AssertionParts : Type 0 where
  pub credential_id : Bytes
  pub auth_data : Bytes
  pub signature_der : Bytes
  pub user_handle : Bytes

pub data Answer : Type 0 where
  status : ℕ → Answer
  info : Answer
  created : RegistrationParts → Answer
  asserted : AssertionParts → Answer
  panicked : Answer

abbrev pub cmd_make_credential : ℕ
cmd_make_credential = 1

abbrev pub cmd_get_assertion : ℕ
cmd_get_assertion = 2

abbrev pub cmd_get_info : ℕ
cmd_get_info = 4

abbrev pub err_invalid_command : ℕ
err_invalid_command = 1

abbrev pub err_invalid_cbor : ℕ
err_invalid_cbor = 0x12

abbrev pub err_missing_parameter : ℕ
err_missing_parameter = 0x14

abbrev pub err_credential_excluded : ℕ
err_credential_excluded = 0x19

abbrev pub err_unsupported_algorithm : ℕ
err_unsupported_algorithm = 0x26

abbrev pub err_operation_denied : ℕ
err_operation_denied = 0x27

abbrev pub err_no_credentials : ℕ
err_no_credentials = 0x2e

abbrev pub is_text : String → Value → Bool
is_text key (text t) = str_eq t key
is_text key _ = false

abbrev pub is_int : ℕ → Value → Bool
is_int key (unsigned n) = n == key
is_int key _ = false

abbrev pub as_text : Option Value → Option String
as_text (some (text t)) = some t
as_text _ = none

abbrev pub as_bytes : Option Value → Option Bytes
as_bytes (some (bytes b)) = some b
as_bytes _ = none

abbrev pub as_dict : Option Value → Option Pairs
as_dict (some (dict ps)) = some ps
as_dict _ = none

abbrev pub as_array : Option Value → Option Values
as_array (some (array vs)) = some vs
as_array _ = none

-- `map.iter().find(|(k, _)| …).map(|(_, v)| v)`
unfoldable pub find_value : (Value → Bool) → Pairs → Option Value
find_value f no_pairs = none
find_value f (pair k v rest) = if f k then some v else find_value f rest

unfoldable pub int_key : Pairs → ℕ → Option Value
unfolding find_value
int_key req key = find_value (is_int key) req

unfoldable pub text_field : Pairs → String → Option String
unfolding find_value
text_field ps key = as_text (find_value (is_text key) ps)

unfoldable pub any_value : (Value → Bool) → Values → Bool
any_value f no_values = false
any_value f (one_of v rest) = f v || any_value f rest

unfoldable pub any_pair : (Value → Value → Bool) → Pairs → Bool
any_pair f no_pairs = false
any_pair f (pair k v rest) = f k v || any_pair f rest

abbrev pub in_dict : (Value → Value → Bool) → Value → Bool
in_dict f (dict ps) = any_pair f ps
in_dict f _ = false

abbrev pub is_bytes : Bytes → Value → Bool
is_bytes b (bytes c) = bytes_eq c b
is_bytes b _ = false

-- A descriptor of the list names the credential.
unfoldable pub is_listed : Values → Bytes → Bool
unfolding any_value any_pair
is_listed vs id = any_value (in_dict (λ k v. is_text "id" k && is_bytes id v)) vs

-- `alg: -7`
abbrev pub is_es256 : Value → Bool
is_es256 (negative n) = n == 6
is_es256 _ = false

abbrev pub is_empty : Values → Bool
is_empty no_values = true
is_empty (one_of v vs) = false

-- `filter_map` on the passkeys of the rp
unfoldable pub passkeys_for : String → List VaultEntry → List PasskeyEntry
passkeys_for rp [] = []
passkeys_for rp (passkey p ∷ es) =
    let rest = passkeys_for rp es in if str_eq p.rp_id rp then p ∷ rest else rest
passkeys_for rp (login e ∷ es) = passkeys_for rp es
passkeys_for rp (note e ∷ es) = passkeys_for rp es
passkeys_for rp (identity e ∷ es) = passkeys_for rp es
passkeys_for rp (card e ∷ es) = passkeys_for rp es
passkeys_for rp (file e ∷ es) = passkeys_for rp es
passkeys_for rp (custom e ∷ es) = passkeys_for rp es

unfoldable pub session_passkeys_for_rp : World → String → Option (List PasskeyEntry)
unfolding passkeys_for
session_passkeys_for_rp w rp = elim w.session [
  | none ↦ none
  | some s ↦ some (passkeys_for rp s.entries)
]

-- `matches.retain(…)`, on a list of descriptors
unfoldable pub retain_listed : Values → List PasskeyEntry → List PasskeyEntry
unfolding is_listed
retain_listed vs [] = []
retain_listed vs (p ∷ ps) =
    let rest = retain_listed vs ps in if is_listed vs p.credential_id then p ∷ rest else rest

-- The allow-list: none, or an empty one, lets every match pass.
unfoldable pub allowed : Option Value → List PasskeyEntry → List PasskeyEntry
unfolding retain_listed
allowed (some (array vs)) ps = if is_empty vs then ps else retain_listed vs ps
allowed _ ps = ps

unfoldable pub auth_data_with_flags : Platform → String → ℕ → Bytes
auth_data_with_flags pf rp flags = pf.sha256 (codes rp) ++ (flags ∷ to_be 4 0)

unfoldable pub assertion_authenticator_data : Platform → String → Bytes
unfolding auth_data_with_flags
assertion_authenticator_data pf rp = auth_data_with_flags pf rp 0x1d

unfoldable pub silent_assertion_authenticator_data : Platform → String → Bytes
unfolding auth_data_with_flags
silent_assertion_authenticator_data pf rp = auth_data_with_flags pf rp 0x18

unfoldable pub registration_authenticator_data : Platform → String → Bytes → Bytes → Bytes
registration_authenticator_data pf rp id cose =
    pf.sha256 (codes rp)
    ++ (0x5d ∷ to_be 4 0 ++ (replicate 16 0 ++ (to_be 2 (length id % 2 ^ 16) ++ (id ++ cose))))

unfoldable pub sign_assertion : Platform → Bytes → Bytes → Bytes → Option Bytes
sign_assertion pf key auth_data hash = pf.es256 key (auth_data ++ hash)

pub record CreateFields : Type 0 where
  pub rp_id : String
  pub user_name : String
  pub display_name : String
  pub user_handle : Bytes
  pub raw : Pairs
