-- ===== src/Serialization/Kept.antt =====
-- What a slot held is in the history after folding.
use gabbro.Prelude.{◌≡◌, refl, ◌∙◌, sym, ap, subst, some, none, true, String, Option, eq_refl}
use gabbro.Serialization.{
  Json, Items, Fields, item, get, has_record, slot_step, null, bool, number, str, array, object,
  fold_slot, fold_slots, fold_fields, store_records, with_records, with_history, previous_record,
  field_name, empty_array, or_else, empty_object,
}
use gabbro.Serialization.Laws.{
  get-put, has_record-push_old, has_record-push_new, has_record-add_missing_new,
}
use gabbro.Serialization.Folding.{is_object, fold_slot-others}

-- The history of an entry: the array under `history` of `meta`.
abbrev pub items_of : Option Json → Items
items_of (some (array items)) = items
items_of _ = empty_array

unfoldable pub history_in : Option Json → Items
unfolding get
history_in (some (object meta)) = items_of (get "history" meta)
history_in _ = empty_array

-- The metadata that a history can be stored in: each level is absent or of its kind.
pub data HasRoom : Option Json → Type 0 where
  no_meta : HasRoom none
  no_history : (meta : Fields) → get "history" meta ≡ none → HasRoom (some (object meta))
  with_room :
      (meta : Fields) (hist : Items)
      → get "history" meta ≡ some (array hist)
      → HasRoom (some (object meta))

-- What the three slots are called in the history.
pub data Slot : String → String → Type 0 where
  password_slot : Slot "previous_password" "password"
  cvv_slot : Slot "previous_cvv" "cvv"
  pin_slot : Slot "previous_pin" "pin"

slot_step-record :
    (key name : String) (o : Option Json) (s : Fields × Items)
    → is_object o ≡ true
    → has_record (some name) (slot_step key name o s).1 ≡ true
unfolding slot_step previous_record field_name
slot_step-record key name (some (object prev)) (f, r) h =
    has_record-push_new (some name) r _ (eq_refl name)
slot_step-record key name none s h = cc
slot_step-record key name (some null) s h = cc
slot_step-record key name (some (bool b)) s h = cc
slot_step-record key name (some (number n)) s h = cc
slot_step-record key name (some (str t)) s h = cc
slot_step-record key name (some (array items)) s h = cc

slot_step-kept :
    (key name : String) (n : Option String) (o : Option Json) (s : Fields × Items)
    → has_record n s.1 ≡ true
    → has_record n (slot_step key name o s).1 ≡ true
unfolding slot_step
slot_step-kept key name n (some (object prev)) (f, r) h = has_record-push_old n r _ h
slot_step-kept key name n none s h = h
slot_step-kept key name n (some null) s h = h
slot_step-kept key name n (some (bool b)) s h = h
slot_step-kept key name n (some (number m)) s h = h
slot_step-kept key name n (some (str t)) s h = h
slot_step-kept key name n (some (array items)) s h = h

fold_slot-record :
    (key name : String) (s : Fields × Items)
    → is_object (get key s.0) ≡ true
    → has_record (some name) (fold_slot key name s).1 ≡ true
unfolding fold_slot
fold_slot-record key name s h = slot_step-record key name (get key s.0) s h

fold_slot-kept :
    (key name : String) (n : Option String) (s : Fields × Items)
    → has_record n s.1 ≡ true
    → has_record n (fold_slot key name s).1 ≡ true
unfolding fold_slot
fold_slot-kept key name n s h = slot_step-kept key name n (get key s.0) s h

fold_slots-record :
    (key name : String) (fields : Fields)
    → Slot key name
    → is_object (get key fields) ≡ true
    → has_record (some name) (fold_slots fields).1 ≡ true
unfolding fold_slots
fold_slots-record _ _ fields password_slot h =
    let one = fold_slot "previous_password" "password" (fields, empty_array) in
    let two = fold_slot "previous_cvv" "cvv" one in
    fold_slot-kept "previous_pin" "pin" (some "password") two (
      fold_slot-kept "previous_cvv" "cvv" (some "password") one
        (fold_slot-record "previous_password" "password" (fields, empty_array) h))
fold_slots-record _ _ fields cvv_slot h =
    let one = fold_slot "previous_password" "password" (fields, empty_array) in
    let two = fold_slot "previous_cvv" "cvv" one in
    fold_slot-kept "previous_pin" "pin" (some "cvv") two (
      fold_slot-record "previous_cvv" "cvv" one (
        ap is_object (
          fold_slot-others "previous_password" "password" "previous_cvv" (fields, empty_array) refl)
        ∙ h))
fold_slots-record _ _ fields pin_slot h =
    let one = fold_slot "previous_password" "password" (fields, empty_array) in
    let two = fold_slot "previous_cvv" "cvv" one in
    fold_slot-record "previous_pin" "pin" two (
      ap is_object (
        fold_slot-others "previous_cvv" "cvv" "previous_pin" one refl
        ∙ fold_slot-others "previous_password" "password" "previous_pin" (fields, empty_array) refl)
      ∙ h)

fold_slots-meta : (fields : Fields) → get "meta" (fold_slots fields).0 ≡ get "meta" fields
unfolding fold_slots
fold_slots-meta fields =
    let one = fold_slot "previous_password" "password" (fields, empty_array) in
    let two = fold_slot "previous_cvv" "cvv" one in
    fold_slot-others "previous_pin" "pin" "meta" two refl
    ∙ fold_slot-others "previous_cvv" "cvv" "meta" one refl
    ∙ fold_slot-others "previous_password" "password" "meta" (fields, empty_array) refl

history-with_records :
    (n : Option String) (records : Items) (meta : Option Json)
    → HasRoom meta
    → has_record n records ≡ true
    → has_record n (history_in (some (with_records records (or_else meta (object empty_object)))))
      ≡ true
unfolding with_records with_history history_in get
history-with_records n records _ no_meta h = has_record-add_missing_new n records empty_array h
history-with_records n records _ (no_history meta e) h =
    rw (e, get-put "history" (with_history records (array empty_array)) meta)
      (has_record-add_missing_new n records empty_array h)
history-with_records n records _ (with_room meta hist e) h =
    rw (e, get-put "history" (with_history records (array hist)) meta)
      (has_record-add_missing_new n records hist h)

history-store_records :
    (n : Option String) (records : Items) (fields : Fields)
    → HasRoom (get "meta" fields)
    → has_record n records ≡ true
    → has_record n (history_in (get "meta" (store_records records fields))) ≡ true
unfolding store_records has_record
history-store_records n empty_array fields room h = cc
history-store_records n (item r rest) fields room h =
    rw
      (get-put "meta"
        (with_records (item r rest) (or_else (get "meta" fields) (object empty_object))) fields)
      (history-with_records n (item r rest) (get "meta" fields) room h)

-- Where the history is absent or an array, and the metadata absent or an object: a slot with a
-- previous value has, after folding, a record of its field in the history.
pub fold_fields-history :
    (key name : String) (fields : Fields)
    → Slot key name
    → HasRoom (get "meta" fields)
    → is_object (get key fields) ≡ true
    → has_record (some name) (history_in (get "meta" (fold_fields fields))) ≡ true
unfolding fold_fields
fold_fields-history key name fields slot room h =
    history-store_records (some name) (fold_slots fields).1 (fold_slots fields).0
      (subst HasRoom (sym (fold_slots-meta fields)) room) (fold_slots-record key name fields slot h)
