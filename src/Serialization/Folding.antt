-- ===== src/Serialization/Folding.antt =====
-- The old slots of an entry, folded into its history.
use gabbro.Prelude.{◌≡◌, refl, ◌∙◌, ap, some, none, true, false, String, Option, Bool, str_eq}
use gabbro.Serialization.{
  Json, Items, Fields, empty_array, item, get, slot_step, fold_slot, fold_slots, store_records,
  fold_inner_previous_secrets, object, null, bool, number, str, array, fold_fields,
}
use gabbro.Serialization.Laws.{get-put, get-put_other}

-- Whether a slot holds a previous value.
abbrev pub is_object : Option Json → Bool
is_object (some (object fields)) = true
is_object _ = false

-- No slot holds one.
pub record IsFolded (fields : Fields) : Type 0 where
  pub password : is_object (get "previous_password" fields) ≡ false
  pub cvv : is_object (get "previous_cvv" fields) ≡ false
  pub pin : is_object (get "previous_pin" fields) ≡ false

slot_step-same :
    (key name : String) (o : Option Json) (s : Fields × Items)
    → is_object o ≡ false
    → slot_step key name o s ≡ s
unfolding slot_step
slot_step-same key name none s h = refl
slot_step-same key name (some (object fields)) s h = cc
slot_step-same key name (some null) s h = refl
slot_step-same key name (some (bool b)) s h = refl
slot_step-same key name (some (number n)) s h = refl
slot_step-same key name (some (str t)) s h = refl
slot_step-same key name (some (array items)) s h = refl

pub fold_slots-IsFolded :
    (fields : Fields) → IsFolded fields → fold_slots fields ≡ (fields, empty_array)
unfolding fold_slots fold_slot
fold_slots-IsFolded fields h =
    rw
      (
        slot_step-same "previous_password" "password" _ (fields, empty_array) h.password,
        slot_step-same "previous_cvv" "cvv" _ (fields, empty_array) h.cvv,
      )
      (slot_step-same "previous_pin" "pin" _ (fields, empty_array) h.pin)

-- A step leaves its slot without an object, and the other slots alone.
slot_step-clears :
    (key name : String) (o : Option Json) (s : Fields × Items)
    → get key s.0 ≡ o
    → is_object (get key (slot_step key name o s).0) ≡ false
unfolding slot_step
slot_step-clears key name none s h = rw h refl
slot_step-clears key name (some (object fields)) (f, r) h = rw (get-put key null f) refl
slot_step-clears key name (some null) s h = rw h refl
slot_step-clears key name (some (bool b)) s h = rw h refl
slot_step-clears key name (some (number n)) s h = rw h refl
slot_step-clears key name (some (str t)) s h = rw h refl
slot_step-clears key name (some (array items)) s h = rw h refl

slot_step-others :
    (key name j : String) (o : Option Json) (s : Fields × Items)
    → str_eq key j ≡ false
    → get j (slot_step key name o s).0 ≡ get j s.0
unfolding slot_step
slot_step-others key name j none s ne = refl
slot_step-others key name j (some (object fields)) (f, r) ne = get-put_other key j null f ne
slot_step-others key name j (some null) s ne = refl
slot_step-others key name j (some (bool b)) s ne = refl
slot_step-others key name j (some (number n)) s ne = refl
slot_step-others key name j (some (str t)) s ne = refl
slot_step-others key name j (some (array items)) s ne = refl

fold_slot-clears :
    (key name : String) (s : Fields × Items) → is_object (get key (fold_slot key name s).0) ≡ false
unfolding fold_slot
fold_slot-clears key name s = slot_step-clears key name (get key s.0) s refl

pub fold_slot-others :
    (key name j : String) (s : Fields × Items)
    → str_eq key j ≡ false
    → get j (fold_slot key name s).0 ≡ get j s.0
unfolding fold_slot
fold_slot-others key name j s ne = slot_step-others key name j (get key s.0) s ne

pub IsFolded-fold_slots : (fields : Fields) → IsFolded (fold_slots fields).0
unfolding fold_slots
IsFolded-fold_slots fields =
    let one = fold_slot "previous_password" "password" (fields, empty_array) in
    let two = fold_slot "previous_cvv" "cvv" one in
    record {
      password =
          ap is_object (
            fold_slot-others "previous_pin" "pin" "previous_password" two refl
            ∙ fold_slot-others "previous_cvv" "cvv" "previous_password" one refl)
          ∙ fold_slot-clears "previous_password" "password" (fields, empty_array);
      cvv =
          ap is_object (fold_slot-others "previous_pin" "pin" "previous_cvv" two refl)
          ∙ fold_slot-clears "previous_cvv" "cvv" one;
      pin = fold_slot-clears "previous_pin" "pin" two;
    }

pub IsFolded-store_records :
    (records : Items) (fields : Fields) → IsFolded fields → IsFolded (store_records records fields)
unfolding store_records
IsFolded-store_records empty_array fields h = h
IsFolded-store_records (item r rest) fields h = record {
  password = ap is_object (get-put_other "meta" "previous_password" _ fields refl) ∙ h.password;
  cvv = ap is_object (get-put_other "meta" "previous_cvv" _ fields refl) ∙ h.cvv;
  pin = ap is_object (get-put_other "meta" "previous_pin" _ fields refl) ∙ h.pin;
}

pub fold_inner_same :
    (fields : Fields)
    → IsFolded fields
    → fold_inner_previous_secrets (object fields) ≡ object fields
unfolding fold_inner_previous_secrets fold_fields store_records
fold_inner_same fields h =
    ap (λ (s : Fields × Items). object (store_records s.1 s.0)) (fold_slots-IsFolded fields h)
