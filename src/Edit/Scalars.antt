-- ===== src/Edit/Scalars.antt =====
-- `set_entry_scalar`: a field by its name. An unknown name is ignored. `unb64` is the base64 crate's
-- decoder, `none` on malformed text.
use gabbro.Bytes.{Bytes}
use gabbro.Entry.{
  CardEntry, CustomEntry, FileEntry, IdentityEntry, LoginEntry, NoteEntry, PasskeyEntry, VaultEntry,
  login, note, identity, card, file, custom, passkey,
}
use gabbro.Prelude.{List, Option, String, [], if◌then◌else◌, none, some, str_eq, ◌∷◌}
use gabbro.Entry.Blob.{apply_credential_blob}

-- `match key { "a" => …, … , _ => {} }`
unfoldable pub match_key {ℓ} : {E : Type ℓ} → String → List (String × (E → E)) → E → E
match_key key [] e = e
match_key key (arm ∷ arms) e = if str_eq key arm.0 then arm.1 e else match_key key arms e

-- The arms for the binary fields, which ride as base64.
unfoldable pub set_file_content : Option Bytes → FileEntry → FileEntry
set_file_content none e = e
set_file_content (some bytes) e = record e { content = bytes }

unfoldable pub set_credential : Option Bytes → PasskeyEntry → PasskeyEntry
unfolding apply_credential_blob
set_credential none e = e
set_credential (some blob) e = (apply_credential_blob e blob).0

abbrev pub login_arms : String → List (String × (LoginEntry → LoginEntry))
login_arms s =
    ("title", λ e. record e { title = s })
    ∷ ("url", λ e. record e { url = s })
    ∷ ("username", λ e. record e { username = s })
    ∷ ("password", λ e. record e { password = s })
    ∷ ("notes", λ e. record e { notes = some s })
    ∷ ("app_id", λ e. record e { app_id = some s })
    ∷ ("email", λ e. record e { email = some s })
    ∷ []

abbrev pub note_arms : String → List (String × (NoteEntry → NoteEntry))
note_arms s =
    ("title", λ e. record e { title = s }) ∷ ("content", λ e. record e { content = s }) ∷ []

abbrev pub identity_arms : String → List (String × (IdentityEntry → IdentityEntry))
identity_arms s =
    ("first_name", λ e. record e { first_name = s })
    ∷ ("last_name", λ e. record e { last_name = s })
    ∷ ("email", λ e. record e { email = s })
    ∷ ("phone", λ e. record e { phone = some s })
    ∷ ("address", λ e. record e { address = some s })
    ∷ []

abbrev pub card_arms : String → List (String × (CardEntry → CardEntry))
card_arms s =
    ("card_name", λ e. record e { card_name = some s })
    ∷ ("status", λ e. record e { status = s })
    ∷ ("cardholder_name", λ e. record e { cardholder_name = s })
    ∷ ("card_number", λ e. record e { card_number = s })
    ∷ ("expiry", λ e. record e { expiry = s })
    ∷ ("cvv", λ e. record e { cvv = s })
    ∷ ("credit_limit", λ e. record e { credit_limit = some s })
    ∷ ("card_account_number", λ e. record e { card_account_number = some s })
    ∷ ("payment_network", λ e. record e { payment_network = some s })
    ∷ ("pin", λ e. record e { pin = some s })
    ∷ ("bank_name", λ e. record e { bank_name = some s })
    ∷ ("transaction_password", λ e. record e { transaction_password = some s })
    ∷ ("notes", λ e. record e { notes = some s })
    ∷ []

abbrev pub file_arms : (String → Option Bytes) → String → List (String × (FileEntry → FileEntry))
unfolding set_file_content
file_arms unb64 s =
    ("filename", λ e. record e { filename = s })
    ∷ ("notes", λ e. record e { notes = some s })
    ∷ ("data", set_file_content (unb64 s))
    ∷ []

abbrev pub custom_arms : String → List (String × (CustomEntry → CustomEntry))
custom_arms s = ("title", λ e. record e { title = s }) ∷ []

abbrev pub passkey_arms :
    (String → Option Bytes) → String → List (String × (PasskeyEntry → PasskeyEntry))
unfolding set_credential
passkey_arms unb64 s =
    ("rp_id", λ e. record e { rp_id = s })
    ∷ ("user_name", λ e. record e { user_name = s })
    ∷ ("user_display_name", λ e. record e { user_display_name = s })
    ∷ ("notes", λ e. record e { notes = some s })
    ∷ ("credential", set_credential (unb64 s))
    ∷ []

unfoldable pub set_entry_scalar :
    (String → Option Bytes) → String → String → VaultEntry → VaultEntry
unfolding match_key
set_entry_scalar unb64 key s (login e) = login (match_key key (login_arms s) e)
set_entry_scalar unb64 key s (note e) = note (match_key key (note_arms s) e)
set_entry_scalar unb64 key s (identity e) = identity (match_key key (identity_arms s) e)
set_entry_scalar unb64 key s (card e) = card (match_key key (card_arms s) e)
set_entry_scalar unb64 key s (file e) = file (match_key key (file_arms unb64 s) e)
set_entry_scalar unb64 key s (custom e) = custom (match_key key (custom_arms s) e)
set_entry_scalar unb64 key s (passkey e) = passkey (match_key key (passkey_arms unb64 s) e)
