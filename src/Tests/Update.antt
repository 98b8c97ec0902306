-- ===== src/Tests/Update.antt =====
-- `update_entry` at a concrete entry.
use gabbro.Entry.{login, CustomField, VaultEntry, meta_of, with_meta}
use gabbro.Prelude.{List, String, [], if◌then◌else◌, map, none, some, true, ℕ, ◌∷◌, ◌≡◌}
use gabbro.Update.Keys.{changed_field_keys, item_keys}
use gabbro.Update.{del_key, new_field_times}
use gabbro.Session.{contains}
use gabbro.Update.Times.{get-new_field_times}
use gabbro.Merge.{get}

abbrev login_with : String → List CustomField → List (String × ℕ) → VaultEntry
login_with password fields times = login (record {
  meta = record {
    id = "a";
    created_at = "2026-01-01T00:00:00Z";
    updated_at = "2026-01-01T00:00:00Z";
    folder = "";
    field_times = times;
    history = [];
  };
  title = "Mail";
  url = "";
  username = "me";
  password = password;
  notes = none;
  custom_fields = fields;
  attachments = [];
  app_id = none;
  email = none;
})

abbrev pin : CustomField
pin = record { label = "PIN"; value = "1"; hidden = true }

abbrev stored_login : VaultEntry
stored_login = login_with "old" (pin ∷ []) (("title", 1) ∷ [])

-- The app's version: a new password, and the custom field is gone.
abbrev updated_login : VaultEntry
updated_login = login_with "new" [] []

abbrev result : List VaultEntry
result =
    with_meta
      (λ m. record m {
        updated_at = "2026-02-01T00:00:00Z";
        field_times = ("title", 1) ∷ ("password", 7) ∷ ("del:custom_fields:PIN", 7) ∷ [];
        history =
            record {
              field = "password";
              value = "old";
              saved_at = "2026-02-01T00:00:00Z";
              expires_at = none;
            }
            ∷ [];
      })
      updated_login
    ∷ []

get-new_field_times_example :
    get "del:custom_fields:PIN" (new_field_times 7 stored_login updated_login) ≡ (
      if contains "del:custom_fields:PIN" (map del_key (item_keys updated_login))
      then none
      else if contains "del:custom_fields:PIN" (map del_key (item_keys stored_login))
      then some 7
      else if contains "del:custom_fields:PIN" (changed_field_keys stored_login updated_login)
      then some 7
      else get "del:custom_fields:PIN" (meta_of stored_login).field_times)
get-new_field_times_example =
    get-new_field_times 7 stored_login updated_login "del:custom_fields:PIN"
