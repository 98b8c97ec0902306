-- ===== src/Serialization/RoundTrip.antt =====
-- What is written as the body of a vault is read back as it was.
use gabbro.Prelude.{◌≡◌, refl, ap, ap₂, some, ok, String}
use gabbro.Prelude.Chains.{ok_or-eq-ok}
use gabbro.Bytes.{Bytes}
use gabbro.Session.{VaultBody}
use gabbro.Serialization.{
  Json, Items, Fields, Serde, get, fold_values, fold_previous_secrets, fold_all, fold_array,
  fold_entries, first_solid, serialize_vault_body, deserialize_vault_body, deserialize_current,
  object, array, field, item, empty_object, empty_array, not_serialized,
}
use gabbro.Serialization.Laws.{put-get}
use gabbro.Serialization.Folding.{IsFolded, fold_inner_same}

-- An entry under the name of its kind, without a previous value in a slot.
pub data IsCurrentEntry : Json → Type 0 where
  tagged :
      (kind : String) (fields : Fields)
      → IsFolded fields
      → IsCurrentEntry (object (field kind (object fields) empty_object))

pub data AreCurrent : Items → Type 0 where
  none_left : AreCurrent empty_array
  one_more :
      (v : Json) (rest : Items) → IsCurrentEntry v → AreCurrent rest → AreCurrent (item v rest)

-- What the derived code writes for a body: an object, with the entries by the name of their kind,
-- whose fields are those of the structs, which have no slots; it is typed as the body.
pub record IsWrittenBody (s : Serde) (body : VaultBody) (bytes : Bytes) : Type 0 where
  pub fields : Fields
  pub items : Items
  pub starts : first_solid bytes ≡ some 0x7b
  pub parsed : s.from_slice bytes ≡ some (object fields)
  pub at_entries : get "entries" fields ≡ some (array items)
  pub current : AreCurrent items
  pub typed : s.body_from_value (object fields) ≡ some body

pub record IsSerde (s : Serde) : Type 0 where
  pub writes :
      (body : VaultBody) (bytes : Bytes) → s.to_vec body ≡ some bytes → IsWrittenBody s body bytes

fold_previous_same : (v : Json) → IsCurrentEntry v → fold_previous_secrets v ≡ v
unfolding fold_previous_secrets fold_values
fold_previous_same _ (tagged kind fields h) =
    ap (λ x. object (field kind x empty_object)) (fold_inner_same fields h)

fold_all_same : (items : Items) → AreCurrent items → fold_all items ≡ items
unfolding fold_all
fold_all_same _ none_left = refl
fold_all_same _ (one_more v rest h hs) = ap₂ item (fold_previous_same v h) (fold_all_same rest hs)

fold_entries_same :
    (fields : Fields) (items : Items)
    → get "entries" fields ≡ some (array items)
    → AreCurrent items
    → fold_entries (object fields) ≡ object fields
unfolding fold_entries fold_array
fold_entries_same fields items at_entries h =
    rw (fold_entries, at_entries, fold_all_same items h)
      (ap object (put-get "entries" (array items) fields at_entries))

-- A body that is serialized is read back as the same body: nothing of it is taken for an older form.
pub deserialize-serialize_vault_body :
    (s : Serde) (body : VaultBody) (bytes : Bytes)
    → IsSerde s
    → serialize_vault_body s body ≡ ok bytes
    → deserialize_vault_body s bytes ≡ ok body
unfolding serialize_vault_body deserialize_vault_body deserialize_current
deserialize-serialize_vault_body s body bytes is_serde h =
    let w = is_serde.writes body bytes (ok_or-eq-ok not_serialized _ h) in
    rw
      (
        deserialize_vault_body,
        w.starts,
        deserialize_current,
        w.parsed,
        fold_entries_same w.fields w.items w.at_entries w.current,
        w.typed,
      )
      refl
