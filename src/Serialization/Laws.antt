-- ===== src/Serialization/Laws.antt =====
-- The keys of a JSON object, read and set.
use gabbro.Prelude.{
  ◌≡◌, refl, ◌∙◌, sym, ap, some, none, true, false, String, Option, Bool-cases, inl, inr, str_eq,
  eq_refl, eq_iff, Bool, eq_of_some, if◌then◌else◌,
}
use gabbro.Serialization.{
  Json, Items, Fields, empty_object, field, empty_array, item, get, put, push, has_record,
  same_name, field_name, add_missing,
}

pub get-put : (k : String) (v : Json) (fields : Fields) → get k (put k v fields) ≡ some v
unfolding get put
get-put k v empty_object = rw (eq_refl k) refl
get-put k v (field j w rest) = elim (Bool-cases (str_eq j k)) [
  | inl same ↦ rw (same, same) refl
  | inr other ↦ rw (other, other) (get-put k v rest)
]

pub get-put_other :
    (k j : String) (v : Json) (fields : Fields)
    → str_eq k j ≡ false
    → get j (put k v fields) ≡ get j fields
unfolding get put
get-put_other k j v empty_object ne = rw ne refl
get-put_other k j v (field i w rest) ne = elim (Bool-cases (str_eq i k)) [
  | inl same ↦ rw (same, ap (λ x. str_eq x j) ((eq_iff i k).0 same) ∙ ne) refl
  | inr other ↦ elim (Bool-cases (str_eq i j)) [
    | inl here ↦ rw (other, here) refl
    | inr there ↦ rw (other, there) (get-put_other k j v rest ne)
  ]
]

-- Setting a key to the value that it has changes nothing.
pub put-get :
    (k : String) (v : Json) (fields : Fields) → get k fields ≡ some v → put k v fields ≡ fields
unfolding get put
put-get k v empty_object h = cc
put-get k v (field j w rest) h = elim (Bool-cases (str_eq j k)) [
  | inl same ↦ rw same (ap (λ x. field j x rest) (sym (eq_of_some (rw same at h))))
  | inr other ↦ rw other (ap (field j w) (put-get k v rest (rw other at h)))
]

pub has_record-push_old :
    (name : Option String) (items : Items) (v : Json)
    → has_record name items ≡ true
    → has_record name (push items v) ≡ true
unfolding has_record push
has_record-push_old name empty_array v h = cc
has_record-push_old name (item x rest) v h = elim (Bool-cases (same_name (field_name x) name)) [
  | inl here ↦ rw here refl
  | inr there ↦ rw there (has_record-push_old name rest v (rw there at h))
]

pub has_record-push_new :
    (name : Option String) (items : Items) (v : Json)
    → same_name (field_name v) name ≡ true
    → has_record name (push items v) ≡ true
unfolding has_record push
has_record-push_new name empty_array v h = rw h refl
has_record-push_new name (item x rest) v h = elim (Bool-cases (same_name (field_name x) name)) [
  | inl here ↦ rw here refl
  | inr there ↦ rw there (has_record-push_new name rest v h)
]

add_old :
    (name : Option String) (b : Bool) (hist : Items) (r : Json)
    → has_record name hist ≡ true
    → has_record name (if b then hist else push hist r) ≡ true
add_old name true hist r h = h
add_old name false hist r h = has_record-push_old name hist r h

pub has_record-add_missing_old :
    (name : Option String) (records hist : Items)
    → has_record name hist ≡ true
    → has_record name (add_missing hist records) ≡ true
unfolding add_missing
has_record-add_missing_old name empty_array hist h = h
has_record-add_missing_old name (item r rest) hist h =
    has_record-add_missing_old name rest _ (add_old name (has_record (field_name r) hist) hist r h)

same_name-eq : (a b : Option String) → same_name a b ≡ true → a ≡ b
same_name-eq none none h = refl
same_name-eq none (some t) h = cc
same_name-eq (some s) none h = cc
same_name-eq (some s) (some t) h = ap some ((eq_iff s t).0 h)

add_new :
    (name : Option String) (hist : Items) (r : Json)
    → same_name (field_name r) name ≡ true
    → has_record name (if has_record (field_name r) hist then hist else push hist r) ≡ true
add_new name hist r h = elim (Bool-cases (has_record (field_name r) hist)) [
  | inl old ↦ rw old (ap (λ n. has_record n hist) (sym (same_name-eq (field_name r) name h)) ∙ old)
  | inr new ↦ rw new (has_record-push_new name hist r h)
]

-- A record that is stored is in the history afterwards, or one of its field was before.
pub has_record-add_missing_new :
    (name : Option String) (records hist : Items)
    → has_record name records ≡ true
    → has_record name (add_missing hist records) ≡ true
unfolding add_missing has_record
has_record-add_missing_new name empty_array hist h = cc
has_record-add_missing_new name (item r rest) hist h =
    elim (Bool-cases (same_name (field_name r) name)) [
      | inl here ↦ has_record-add_missing_old name rest _ (add_new name hist r here)
      | inr there ↦ has_record-add_missing_new name rest _ (rw there at h)
    ]
