-- ===== src/Tests/Serialization.antt =====
-- vault/serialization.rs on concrete values, with a `serde_json` that knows one body.
use gabbro.Prelude.{
  ◌≡◌, refl, none, some, ok, List, Option, String, str_eq, [], ◌∷◌, true, Bool-cases, inl, inr,
  eq_iff, if◌then◌else◌, eq_of_some, subst, sym,
}
use gabbro.Bytes.{Bytes}
use gabbro.Session.{VaultBody, DeletedEntry}
use gabbro.Entry.{VaultEntry}
use gabbro.Serialization.RoundTrip.{
  IsSerde, IsWrittenBody, deserialize-serialize_vault_body, none_left, one_more, tagged,
}
use gabbro.Serialization.{
  Serde, deserialize_vault_body, first_solid, fold_fields, has_record, serialize_vault_body, get,
  object, Fields, Items, field, item, str, array, empty_object, empty_array,
}
use gabbro.Serialization.Kept.{fold_fields-history, history_in, password_slot, with_room}

abbrev old_password : Fields
old_password = field "value" (str "hunter1") (field "saved_at" (str "2024-01-01") empty_object)

-- A login of an older version, with a history that has a record of another field.
abbrev old_login : Fields
old_login =
    field "meta"
      (object (
        field "history"
          (array (item (object (field "field" (str "notes") empty_object)) empty_array))
          empty_object))
      (field "previous_password" (object old_password) empty_object)

fold_fields-history_example :
    has_record (some "password") (history_in (get "meta" (fold_fields old_login))) ≡ true
unfolding get
fold_fields-history_example =
    fold_fields-history "previous_password" "password" old_login password_slot (with_room _ _ refl)
      refl

abbrev pub blank : VaultBody
blank = record {
  folders = [];
  entries = [];
  yubikey_aliases = [];
  vault_updated_at = "";
  deleted_ids = [];
}

abbrev blank_vec :
    List String
    → List VaultEntry
    → List (String × String)
    → List DeletedEntry
    → String
    → Option Bytes
blank_vec [] [] [] [] t = if str_eq t "" then some (0x7b ∷ 0x7d ∷ []) else none
blank_vec _ _ _ _ t = none

abbrev login_now : Fields
login_now = field "password" (str "hunter2") empty_object

abbrev items_now : Items
items_now = item (object (field "Login" (object login_now) empty_object)) empty_array

abbrev fields_now : Fields
fields_now = field "entries" (array items_now) empty_object

abbrev pub serde : Serde
serde = record {
  to_vec = λ b. blank_vec b.folders b.entries b.yubikey_aliases b.deleted_ids b.vault_updated_at;
  from_slice = λ bytes. some (object fields_now);
  body_from_value = λ v. some blank;
  entries_from_value = λ v. none;
}

blank_written : IsWrittenBody serde blank (0x7b ∷ 0x7d ∷ [])
unfolding first_solid get
blank_written = record {
  fields = fields_now;
  items = items_now;
  starts = refl;
  parsed = refl;
  at_entries = refl;
  current =
      one_more _ empty_array
        (tagged "Login" login_now (record { password = refl; cvv = refl; pin = refl })) none_left;
  typed = refl;
}

written_blank :
    (folders : List String) (entries : List VaultEntry) (aliases : List (String × String))
    (deleted : List DeletedEntry) (t : String) (bytes : Bytes)
    → blank_vec folders entries aliases deleted t ≡ some bytes
    → IsWrittenBody serde
        (record {
          folders = folders;
          entries = entries;
          yubikey_aliases = aliases;
          vault_updated_at = t;
          deleted_ids = deleted;
        })
        bytes
unfolding first_solid get
written_blank [] [] [] [] t bytes h = elim (Bool-cases (str_eq t "")) [
  | inl same ↦
      subst (λ x. IsWrittenBody serde (record blank { vault_updated_at = x }) bytes)
        (sym ((eq_iff t "").0 same))
        (subst (IsWrittenBody serde blank) (eq_of_some (rw same at h)) blank_written)
  | inr other ↦ absurd (cc (rw other at h))
]
written_blank (x ∷ xs) _ _ _ t bytes h = cc
written_blank [] (x ∷ xs) _ _ t bytes h = cc
written_blank [] [] (x ∷ xs) _ t bytes h = cc
written_blank [] [] [] (x ∷ xs) t bytes h = cc

pub serde-IsSerde : IsSerde serde
serde-IsSerde = record {
  writes = λ b bytes h.
      written_blank b.folders b.entries b.yubikey_aliases b.deleted_ids b.vault_updated_at bytes h;
}

deserialize-serialize_vault_body_example :
    deserialize_vault_body serde (0x7b ∷ 0x7d ∷ []) ≡ ok blank
unfolding serialize_vault_body
deserialize-serialize_vault_body_example =
    deserialize-serialize_vault_body serde blank (0x7b ∷ 0x7d ∷ []) serde-IsSerde refl
