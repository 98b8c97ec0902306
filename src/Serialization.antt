-- ===== src/Serialization.antt =====
-- vault/serialization.rs: the body of a vault as JSON, and the older forms that are read. The text and
-- the typed form of a JSON value are the work of `serde_json` and of the derived code (`Serde`); the
-- changes of the value between them are this file's. An object is a list of its keys and values.
pub mod Laws
pub mod Folding
pub mod Kept
pub mod RoundTrip
use gabbro.Prelude.{
  ℕ, Bool, true, false, ◌||◌, Option, none, some, List, [], ◌∷◌, ◌++◌, Result, ok, err, String,
  str_eq, map, if◌then◌else◌, ◌==◌,
}
use gabbro.Prelude.Chains.{◌>>=◌, ok_or}
use gabbro.Bytes.{Bytes}
use gabbro.Entry.{VaultEntry}
use gabbro.Session.{VaultBody}
use gabbro.Session.Folders.{refolder}

-- `serde_json::Value`; a number is its text.
mutual
  pub data Json : Type 0 where
    null : Json
    bool : Bool → Json
    number : String → Json
    str : String → Json
    array : Items → Json
    object : Fields → Json

  pub data Items : Type 0 where
    empty_array : Items
    item : Json → Items → Items

  pub data Fields : Type 0 where
    empty_object : Fields
    field : String → Json → Fields → Fields

pub record Serde : Type 0 where
  pub to_vec : VaultBody → Option Bytes
  pub from_slice : Bytes → Option Json
  pub body_from_value : Json → Option VaultBody
  pub entries_from_value : Json → Option (List VaultEntry)

pub data SerdeError : Type 0 where
  not_serialized not_deserialized legacy_not_deserialized : SerdeError

unfoldable pub get : String → Fields → Option Json
get k empty_object = none
get k (field j v rest) = if str_eq j k then some v else get k rest

-- `insert`
unfoldable pub put : String → Json → Fields → Fields
put k v empty_object = field k v empty_object
put k v (field j w rest) =
    let later = put k v rest in if str_eq j k then field j v rest else field j w later

unfoldable pub push : Items → Json → Items
push empty_array v = item v empty_array
push (item x rest) v = item x (push rest v)

abbrev pub or_else : {A : Type 0} → Option A → A → A
or_else none d = d
or_else (some a) d = a

-- `v.get("field").and_then(|f| f.as_str())`
unfoldable pub field_name : Json → Option String
unfolding get
field_name (object fields) = elim (get "field" fields) [ some (str s) ↦ some s | _ ↦ none ]
field_name _ = none

abbrev pub same_name : Option String → Option String → Bool
same_name none none = true
same_name (some s) (some t) = str_eq s t
same_name _ _ = false

unfoldable pub has_record : Option String → Items → Bool
unfolding field_name
has_record name empty_array = false
has_record name (item h rest) = same_name (field_name h) name || has_record name rest

unfoldable pub previous_record : String → Fields → Json
unfolding get
previous_record name prev = object (
    field "field" (str name) (
      field "value" (or_else (get "value" prev) (str "")) (
        field "saved_at" (or_else (get "saved_at" prev) (str ""))
          (field "expires_at" (or_else (get "expires_at" prev) null) empty_object))))

-- What a slot holds: its record and the value left in its place, if it holds an object.
unfoldable pub slot_step : String → String → Option Json → Fields × Items → Fields × Items
unfolding put push previous_record
slot_step key name (some (object prev)) (fields, records) =
    (put key null fields, push records (previous_record name prev))
slot_step key name _ s = s

unfoldable pub fold_slot : String → String → Fields × Items → Fields × Items
unfolding get slot_step
fold_slot key name s = slot_step key name (get key s.0) s

-- The loop over `SLOTS`
unfoldable pub fold_slots : Fields → Fields × Items
unfolding fold_slot
fold_slots fields = fold_slot "previous_pin" "pin" (
    fold_slot "previous_cvv" "cvv" (fold_slot "previous_password" "password" (fields, empty_array)))

-- `for rec in records { if !exists { hist.push(rec) } }`
unfoldable pub add_missing : Items → Items → Items
unfolding has_record field_name push
add_missing hist empty_array = hist
add_missing hist (item r rest) =
    add_missing (if has_record (field_name r) hist then hist else push hist r) rest

unfoldable pub with_history : Items → Json → Json
unfolding add_missing
with_history records (array hist) = array (add_missing hist records)
with_history records v = v

-- The `meta` with the records in its history; a new history is made where there is none.
unfoldable pub with_records : Items → Json → Json
unfolding get put with_history
with_records records (object meta) =
    object
      (put "history" (with_history records (or_else (get "history" meta) (array empty_array))) meta)
with_records records v = v

unfoldable pub store_records : Items → Fields → Fields
unfolding get put with_records
store_records empty_array fields = fields
store_records (item r rest) fields =
    put "meta" (with_records (item r rest) (or_else (get "meta" fields) (object empty_object)))
      fields

unfoldable pub fold_fields : Fields → Fields
unfolding fold_slots store_records
fold_fields fields = let (cleared, records) = fold_slots fields in store_records records cleared

unfoldable pub fold_inner_previous_secrets : Json → Json
unfolding fold_fields
fold_inner_previous_secrets (object fields) = object (fold_fields fields)
fold_inner_previous_secrets v = v

unfoldable pub fold_values : Fields → Fields
unfolding fold_inner_previous_secrets
fold_values empty_object = empty_object
fold_values (field k v rest) = field k (fold_inner_previous_secrets v) (fold_values rest)

unfoldable pub fold_previous_secrets : Json → Json
unfolding fold_values
fold_previous_secrets (object fields) = object (fold_values fields)
fold_previous_secrets v = v

unfoldable pub fold_all : Items → Items
unfolding fold_previous_secrets
fold_all empty_array = empty_array
fold_all (item v rest) = item (fold_previous_secrets v) (fold_all rest)

-- `as_array_mut` and the loop over the entries
unfoldable pub fold_array : Json → Json
unfolding fold_all
fold_array (array items) = array (fold_all items)
fold_array v = v

-- `value.get_mut("entries")`
unfoldable pub fold_entries : Json → Json
unfolding get put fold_array
fold_entries (object fields) = elim (get "entries" fields) [
  | none ↦ object fields
  | some v ↦ object (put "entries" (fold_array v) fields)
]
fold_entries v = v

-- `u8::is_ascii_whitespace`
abbrev pub is_whitespace : ℕ → Bool
is_whitespace b = b == 32 || (b == 9 || (b == 10 || (b == 12 || b == 13)))

unfoldable pub first_solid : Bytes → Option ℕ
first_solid [] = none
first_solid (b ∷ bs) = if is_whitespace b then first_solid bs else some b

abbrev pub default_folders : List String
default_folders = "Work" ∷ "Private" ∷ "Other" ∷ []

unfoldable pub migrate_folders : List VaultEntry → List VaultEntry
unfolding refolder
migrate_folders entries = map (refolder "Personal" "") entries

unfoldable pub empty_body : VaultBody
empty_body = record {
  folders = default_folders;
  entries = [];
  yubikey_aliases = [];
  vault_updated_at = "";
  deleted_ids = [];
}

module _ (s : Serde) where
  unfoldable pub serialize_vault_body : VaultBody → Result SerdeError Bytes
  serialize_vault_body body = ok_or not_serialized (s.to_vec body)

  -- A bare array, the original format
  unfoldable pub deserialize_legacy : Bytes → Result SerdeError VaultBody
  unfolding fold_array migrate_folders empty_body
  deserialize_legacy bytes = do
    value ← ok_or legacy_not_deserialized (s.from_slice bytes)
    old ← ok_or legacy_not_deserialized (s.entries_from_value (fold_array value))
    ok (record empty_body { entries = migrate_folders old })

  unfoldable pub deserialize_current : Bytes → Result SerdeError VaultBody
  unfolding fold_entries
  deserialize_current bytes = do
    value ← ok_or not_deserialized (s.from_slice bytes)
    ok_or not_deserialized (s.body_from_value (fold_entries value))

  unfoldable pub deserialize_vault_body : Bytes → Result SerdeError VaultBody
  unfolding first_solid deserialize_legacy deserialize_current
  deserialize_vault_body bytes = elim (first_solid bytes) [
    | none ↦ deserialize_current bytes
    | some b ↦ if b == 0x5b then deserialize_legacy bytes else deserialize_current bytes
  ]
