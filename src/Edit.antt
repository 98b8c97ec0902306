-- ===== src/Edit.antt =====
-- The fields and items of an entry by their keys (api/vault.rs): a scalar field by its name, a custom
-- field by "custom_fields:" and its label, an attachment by "attachments:" and its uuid.
pub mod Scalars
use Prim.Native.String.{◌++◌ as str_append}
use text.Mathlib.Text.{starts_with}
use gabbro.Bytes.{Bytes}
use gabbro.Entry.{
  CustomField, EntryAttachment, VaultEntry, login, note, identity, card, file, custom, passkey,
}
use gabbro.Prelude.{
  List, Option, String, [], false, if◌then◌else◌, none, some, str_eq, strip_prefix, ◌∷◌,
}
use gabbro.Edit.Scalars.{set_entry_scalar}

-- `entry_attachments`
unfoldable pub entry_attachments : VaultEntry → List EntryAttachment
entry_attachments (login e) = e.attachments
entry_attachments (note e) = e.attachments
entry_attachments (identity e) = e.attachments
entry_attachments (card e) = e.attachments
entry_attachments (custom e) = e.attachments
entry_attachments (file e) = []
entry_attachments (passkey e) = []

-- What is done through `entry_attachments_mut`; there is nothing to change in the other two.
unfoldable pub with_attachments :
    (List EntryAttachment → List EntryAttachment) → VaultEntry → VaultEntry
with_attachments f (login e) = login (record e { attachments = f e.attachments })
with_attachments f (note e) = note (record e { attachments = f e.attachments })
with_attachments f (identity e) = identity (record e { attachments = f e.attachments })
with_attachments f (card e) = card (record e { attachments = f e.attachments })
with_attachments f (custom e) = custom (record e { attachments = f e.attachments })
with_attachments f (file e) = file e
with_attachments f (passkey e) = passkey e

-- What is done to the list of `entry_custom_fields_mut`, or to the map of a custom entry.
unfoldable pub with_custom_fields :
    (List CustomField → List CustomField)
    → (List (String × CustomField) → List (String × CustomField))
    → VaultEntry
    → VaultEntry
with_custom_fields f g (login e) = login (record e { custom_fields = f e.custom_fields })
with_custom_fields f g (note e) = note (record e { custom_fields = f e.custom_fields })
with_custom_fields f g (identity e) = identity (record e { custom_fields = f e.custom_fields })
with_custom_fields f g (card e) = card (record e { custom_fields = f e.custom_fields })
with_custom_fields f g (file e) = file (record e { custom_fields = f e.custom_fields })
with_custom_fields f g (custom e) = custom (record e { fields = g e.fields })
with_custom_fields f g (passkey e) = passkey (record e { custom_fields = f e.custom_fields })

abbrev pub new_field : String → String → CustomField
new_field label value = record { label = label; value = value; hidden = false }

-- The first field with the label takes the value; without one a new field is pushed.
unfoldable pub set_field : String → String → List CustomField → List CustomField
set_field label value [] = new_field label value ∷ []
set_field label value (f ∷ fs) =
    if str_eq f.label label then record f { value = value } ∷ fs else f ∷ set_field label value fs

-- `fields.entry(label).and_modify(…).or_insert_with(…)` on an `IndexMap`
unfoldable pub set_keyed_field :
    String → String → List (String × CustomField) → List (String × CustomField)
set_keyed_field label value [] = (label, new_field label value) ∷ []
set_keyed_field label value (e ∷ es) =
    if str_eq e.0 label
    then (e.0, record e.1 { value = value }) ∷ es
    else e ∷ set_keyed_field label value es

-- `Vec::retain` on a condition that is false of one name
module _ {A : Type 0} (name_of : A → String) where
  unfoldable pub drop_named : String → List A → List A
  drop_named name [] = []
  drop_named name (x ∷ xs) =
      let rest = drop_named name xs in if str_eq (name_of x) name then rest else x ∷ rest

unfoldable pub set_entry_field_by_key :
    (String → Option Bytes) → String → String → VaultEntry → VaultEntry
unfolding with_custom_fields set_field set_keyed_field set_entry_scalar
set_entry_field_by_key unb64 key value e = elim (strip_prefix "custom_fields:" key) [
  | some label ↦ with_custom_fields (set_field label value) (set_keyed_field label value) e
  | none ↦ if starts_with key "attachments:" then e else set_entry_scalar unb64 key value e
]

unfoldable pub remove_attachment_by_key : Option String → VaultEntry → VaultEntry
unfolding with_attachments drop_named
remove_attachment_by_key none e = e
remove_attachment_by_key (some uuid) e = with_attachments (drop_named (λ a. a.uuid) uuid) e

unfoldable pub remove_entry_item_by_key : String → VaultEntry → VaultEntry
unfolding with_custom_fields drop_named remove_attachment_by_key
remove_entry_item_by_key key e = elim (strip_prefix "custom_fields:" key) [
  | some label ↦
      with_custom_fields (drop_named (λ f. f.label) label) (drop_named (λ f. f.0) label) e
  | none ↦ remove_attachment_by_key (strip_prefix "attachments:" key) e
]
