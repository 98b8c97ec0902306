-- ===== src/Update/Keys.antt =====
-- The keys under which an entry's fields and items sync (`changed_field_keys`, `item_keys`).
use Prim.Native.String.{◌++◌ as str_append}
use gabbro.Entry.{login, note, identity, card, file, custom, passkey, VaultEntry}
use gabbro.Prelude.{
  Bool, List, Option, String, [], false, if◌then◌else◌, map, none, not, some, str_eq, ◌++◌, ◌∷◌,
}
use gabbro.Merge.Items.{ItemKind, attachment_kind, custom_kind, field_kind, find_last}
use gabbro.Bytes.{bytes_eq}
use gabbro.Entry.Blob.{credential_blob}
use gabbro.Merge.{opt_eq}

-- `push_if`, one after another, with what follows
abbrev pub push_if : List (String × Bool) → List String → List String
push_if [] rest = rest
push_if ((key, changed) ∷ cs) rest =
    let keys = push_if cs rest in if changed then key ∷ keys else keys

abbrev pub differs : String → String → Bool
differs o n = not (str_eq o n)

abbrev pub opt_differs : Option String → Option String → Bool
unfolding opt_eq
opt_differs o n = not (opt_eq o n)

-- Whether the old item of the same identity, of two the last, is the same.
abbrev pub is_unchanged : {A : Type 0} → ItemKind A → Option A → A → Bool
is_unchanged kind none n = false
is_unchanged kind (some o) n = kind.same o n

-- `diff_custom`, `diff_attachments`, and the loop over the fields of a custom entry
unfoldable pub diff_items : {A : Type 0} → ItemKind A → List A → List A → List String
unfolding find_last
diff_items kind old [] = []
diff_items kind old (n ∷ ns) =
    let rest = diff_items kind old ns in
    if is_unchanged kind (find_last kind (kind.identity_of n) old) n
    then rest
    else str_append kind.prefix (kind.identity_of n) ∷ rest

unfoldable pub changed_field_keys : VaultEntry → VaultEntry → List String
unfolding diff_items bytes_eq credential_blob opt_eq
changed_field_keys (login o) (login n) =
    push_if
      (("title", differs o.title n.title)
        ∷ ("url", differs o.url n.url)
        ∷ ("username", differs o.username n.username)
        ∷ ("password", differs o.password n.password)
        ∷ ("notes", opt_differs o.notes n.notes)
        ∷ ("app_id", opt_differs o.app_id n.app_id)
        ∷ ("email", opt_differs o.email n.email)
        ∷ [])
      (diff_items custom_kind o.custom_fields n.custom_fields
        ++ diff_items attachment_kind o.attachments n.attachments)
changed_field_keys (note o) (note n) =
    push_if (("title", differs o.title n.title) ∷ ("content", differs o.content n.content) ∷ []) (
      diff_items custom_kind o.custom_fields n.custom_fields
      ++ diff_items attachment_kind o.attachments n.attachments)
changed_field_keys (identity o) (identity n) =
    push_if
      (("first_name", differs o.first_name n.first_name)
        ∷ ("last_name", differs o.last_name n.last_name)
        ∷ ("email", differs o.email n.email)
        ∷ ("phone", opt_differs o.phone n.phone)
        ∷ ("address", opt_differs o.address n.address)
        ∷ [])
      (diff_items custom_kind o.custom_fields n.custom_fields
        ++ diff_items attachment_kind o.attachments n.attachments)
changed_field_keys (card o) (card n) =
    push_if
      (("card_name", opt_differs o.card_name n.card_name)
        ∷ ("status", differs o.status n.status)
        ∷ ("cardholder_name", differs o.cardholder_name n.cardholder_name)
        ∷ ("card_number", differs o.card_number n.card_number)
        ∷ ("expiry", differs o.expiry n.expiry)
        ∷ ("cvv", differs o.cvv n.cvv)
        ∷ ("credit_limit", opt_differs o.credit_limit n.credit_limit)
        ∷ ("card_account_number", opt_differs o.card_account_number n.card_account_number)
        ∷ ("payment_network", opt_differs o.payment_network n.payment_network)
        ∷ ("pin", opt_differs o.pin n.pin)
        ∷ ("bank_name", opt_differs o.bank_name n.bank_name)
        ∷ ("transaction_password", opt_differs o.transaction_password n.transaction_password)
        ∷ ("notes", opt_differs o.notes n.notes)
        ∷ [])
      (diff_items custom_kind o.custom_fields n.custom_fields
        ++ diff_items attachment_kind o.attachments n.attachments)
changed_field_keys (file o) (file n) =
    push_if
      (("filename", differs o.filename n.filename)
        ∷ ("data", not (bytes_eq o.content n.content))
        ∷ ("notes", opt_differs o.notes n.notes)
        ∷ [])
      (diff_items custom_kind o.custom_fields n.custom_fields)
changed_field_keys (custom o) (custom n) = push_if (("title", differs o.title n.title) ∷ []) (
    diff_items field_kind o.fields n.fields
    ++ diff_items attachment_kind o.attachments n.attachments)
changed_field_keys (passkey o) (passkey n) =
    push_if
      (("rp_id", differs o.rp_id n.rp_id)
        ∷ ("user_name", differs o.user_name n.user_name)
        ∷ ("user_display_name", differs o.user_display_name n.user_display_name)
        ∷ ("notes", opt_differs o.notes n.notes)
        ∷ ("credential", not (bytes_eq (credential_blob o) (credential_blob n)))
        ∷ [])
      (diff_items custom_kind o.custom_fields n.custom_fields)
changed_field_keys _ _ = []

-- `add_custom`, `add_att`: a set, as the list of what is put in.
abbrev pub keys_of : {A : Type 0} → ItemKind A → List A → List String
keys_of kind = map (λ a. str_append kind.prefix (kind.identity_of a))

unfoldable pub item_keys : VaultEntry → List String
item_keys (login e) = keys_of custom_kind e.custom_fields ++ keys_of attachment_kind e.attachments
item_keys (note e) = keys_of custom_kind e.custom_fields ++ keys_of attachment_kind e.attachments
item_keys (identity e) =
    keys_of custom_kind e.custom_fields ++ keys_of attachment_kind e.attachments
item_keys (card e) = keys_of custom_kind e.custom_fields ++ keys_of attachment_kind e.attachments
item_keys (file e) = keys_of custom_kind e.custom_fields
item_keys (custom e) = keys_of field_kind e.fields ++ keys_of attachment_kind e.attachments
item_keys (passkey e) = keys_of custom_kind e.custom_fields
