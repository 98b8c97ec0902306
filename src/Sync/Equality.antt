-- ===== src/Sync/Equality.antt =====
-- The equality of entries that `#[derive(PartialEq)]` gives, field by field. Two maps are equal when
-- they have as many keys and agree on each, whatever their order.
use gabbro.Prelude.{
  Bool, List, Option, String, [], false, if◌then◌else◌, length, none, some, str_eq, true, ℕ, ◌&&◌,
  ◌==◌, ◌∷◌,
}
use gabbro.Entry.{
  CardEntry, CustomEntry, CustomField, EntryAttachment, EntryMeta, FileEntry, IdentityEntry,
  LoginEntry, NoteEntry, PasskeyEntry, VaultEntry, login, note, identity, card, file, custom,
  passkey,
}
use gabbro.Merge.Items.{bool_eq}
use gabbro.Bytes.{bytes_eq}
use gabbro.Merge.{opt_eq}
use gabbro.Merge.Finish.{record_eq}

unfoldable pub list_eq : {A : Type 0} → (A → A → Bool) → List A → List A → Bool
list_eq eq [] [] = true
list_eq eq (x ∷ xs) (y ∷ ys) = let rest = list_eq eq xs ys in if eq x y then rest else false
list_eq eq _ _ = false

unfoldable pub look_up : {A : Type 0} → String → List (String × A) → Option A
look_up k [] = none
look_up k (e ∷ es) = if str_eq e.0 k then some e.1 else look_up k es

unfoldable pub agrees : {A : Type 0} → (A → A → Bool) → List (String × A) → List (String × A) → Bool
unfolding look_up
agrees eq [] m = true
agrees eq (e ∷ es) m =
    let rest = agrees eq es m in
    elim (look_up e.0 m) [ none ↦ false | some v ↦ if eq e.1 v then rest else false ]

unfoldable pub map_eq : {A : Type 0} → (A → A → Bool) → List (String × A) → List (String × A) → Bool
unfolding agrees
map_eq eq a b = length a == length b && agrees eq a b

abbrev pub number_eq : ℕ → ℕ → Bool
number_eq a b = a == b

unfoldable pub custom_field_eq : CustomField → CustomField → Bool
unfolding bool_eq
custom_field_eq a b = str_eq a.label b.label && str_eq a.value b.value && bool_eq a.hidden b.hidden

unfoldable pub attachment_eq : EntryAttachment → EntryAttachment → Bool
unfolding bytes_eq
attachment_eq a b =
    str_eq a.uuid b.uuid
    && str_eq a.name b.name
    && str_eq a.kind b.kind
    && bytes_eq a.content b.content

unfoldable pub meta_eq : EntryMeta → EntryMeta → Bool
unfolding list_eq map_eq record_eq
meta_eq a b =
    str_eq a.id b.id
    && str_eq a.created_at b.created_at
    && str_eq a.updated_at b.updated_at
    && str_eq a.folder b.folder
    && map_eq number_eq a.field_times b.field_times
    && list_eq record_eq a.history b.history

unfoldable pub login_eq : LoginEntry → LoginEntry → Bool
unfolding list_eq custom_field_eq attachment_eq meta_eq opt_eq
login_eq a b =
    meta_eq a.meta b.meta
    && str_eq a.title b.title
    && str_eq a.url b.url
    && str_eq a.username b.username
    && str_eq a.password b.password
    && opt_eq a.notes b.notes
    && list_eq custom_field_eq a.custom_fields b.custom_fields
    && list_eq attachment_eq a.attachments b.attachments
    && opt_eq a.app_id b.app_id
    && opt_eq a.email b.email

unfoldable pub note_eq : NoteEntry → NoteEntry → Bool
unfolding list_eq custom_field_eq attachment_eq meta_eq
note_eq a b =
    meta_eq a.meta b.meta
    && str_eq a.title b.title
    && str_eq a.content b.content
    && list_eq custom_field_eq a.custom_fields b.custom_fields
    && list_eq attachment_eq a.attachments b.attachments

unfoldable pub identity_eq : IdentityEntry → IdentityEntry → Bool
unfolding list_eq custom_field_eq attachment_eq meta_eq opt_eq
identity_eq a b =
    meta_eq a.meta b.meta
    && str_eq a.first_name b.first_name
    && str_eq a.last_name b.last_name
    && str_eq a.email b.email
    && opt_eq a.phone b.phone
    && opt_eq a.address b.address
    && list_eq custom_field_eq a.custom_fields b.custom_fields
    && list_eq attachment_eq a.attachments b.attachments

unfoldable pub card_eq : CardEntry → CardEntry → Bool
unfolding list_eq custom_field_eq attachment_eq meta_eq opt_eq
card_eq a b =
    meta_eq a.meta b.meta
    && opt_eq a.card_name b.card_name
    && str_eq a.status b.status
    && str_eq a.cardholder_name b.cardholder_name
    && str_eq a.card_number b.card_number
    && str_eq a.expiry b.expiry
    && str_eq a.cvv b.cvv
    && opt_eq a.credit_limit b.credit_limit
    && opt_eq a.card_account_number b.card_account_number
    && opt_eq a.payment_network b.payment_network
    && opt_eq a.pin b.pin
    && opt_eq a.bank_name b.bank_name
    && opt_eq a.transaction_password b.transaction_password
    && opt_eq a.notes b.notes
    && list_eq custom_field_eq a.custom_fields b.custom_fields
    && list_eq attachment_eq a.attachments b.attachments

unfoldable pub file_eq : FileEntry → FileEntry → Bool
unfolding list_eq custom_field_eq meta_eq opt_eq bytes_eq
file_eq a b =
    meta_eq a.meta b.meta
    && str_eq a.filename b.filename
    && bytes_eq a.content b.content
    && opt_eq a.notes b.notes
    && list_eq custom_field_eq a.custom_fields b.custom_fields

unfoldable pub custom_eq : CustomEntry → CustomEntry → Bool
unfolding list_eq map_eq custom_field_eq attachment_eq meta_eq
custom_eq a b =
    meta_eq a.meta b.meta
    && str_eq a.title b.title
    && map_eq custom_field_eq a.fields b.fields
    && list_eq attachment_eq a.attachments b.attachments

unfoldable pub passkey_eq : PasskeyEntry → PasskeyEntry → Bool
unfolding list_eq custom_field_eq meta_eq opt_eq bytes_eq
passkey_eq a b =
    meta_eq a.meta b.meta
    && str_eq a.rp_id b.rp_id
    && str_eq a.user_name b.user_name
    && str_eq a.user_display_name b.user_display_name
    && bytes_eq a.user_handle b.user_handle
    && bytes_eq a.credential_id b.credential_id
    && bytes_eq a.private_key b.private_key
    && bytes_eq a.public_key_cose b.public_key_cose
    && a.algorithm == b.algorithm
    && opt_eq a.notes b.notes
    && list_eq custom_field_eq a.custom_fields b.custom_fields

unfoldable pub entry_eq : VaultEntry → VaultEntry → Bool
unfolding login_eq note_eq identity_eq card_eq file_eq custom_eq passkey_eq
entry_eq (login a) (login b) = login_eq a b
entry_eq (note a) (note b) = note_eq a b
entry_eq (identity a) (identity b) = identity_eq a b
entry_eq (card a) (card b) = card_eq a b
entry_eq (file a) (file b) = file_eq a b
entry_eq (custom a) (custom b) = custom_eq a b
entry_eq (passkey a) (passkey b) = passkey_eq a b
entry_eq _ _ = false
