-- ===== src/Update/Times.antt =====
-- The times of change after an update, for each key.
use gabbro.Prelude.{
  List, String, [], arith, eq_iff, if◌then◌else◌, map, none, refl, some, str_eq, ℕ, ◌∷◌, ◌≡◌,
  Bool-cases, ap, eq_refl, false, if_elim, inl, inr, subst, true, ◌∙◌,
}
use gabbro.Entry.{VaultEntry, meta_of}
use gabbro.Update.Keys.{changed_field_keys, item_keys}
use gabbro.Update.{del_key, forget_all, new_field_times, stamp_all, difference}
use gabbro.Merge.Deletions.{get-insert}
use gabbro.Session.{contains}
use gabbro.Merge.{get, forget, insert}

get-stamp_all :
    (now_ms : ℕ) (ks : List String) (times : List (String × ℕ)) (j : String)
    → get j (stamp_all now_ms ks times) ≡ (if contains j ks then some now_ms else get j times)
unfolding contains
get-stamp_all now_ms [] times j = refl
get-stamp_all now_ms (k ∷ ks) times j =
    ground (arith, get-stamp_all now_ms ks (insert k now_ms times) j, get-insert j k now_ms times)

get-forget :
    (j k : String) (times : List (String × ℕ))
    → get j (forget k times) ≡ (if str_eq k j then none else get j times)
unfolding get forget
get-forget j k [] = ground arith
get-forget j k (e ∷ es) = ground (arith, eq_iff e.0 k, eq_iff e.0 j, eq_iff k j, get-forget j k es)

get-forget_all :
    (ks : List String) (times : List (String × ℕ)) (j : String)
    → get j (forget_all ks times) ≡ (if contains j ks then none else get j times)
unfolding contains
get-forget_all [] times j = refl
get-forget_all (k ∷ ks) times j =
    ground (arith, get-forget_all ks (forget k times) j, get-forget j k times)

contains-del_key :
    (x : String) (ys : List String)
    → contains x ys ≡ true
    → contains (del_key x) (map del_key ys) ≡ true
unfolding contains
contains-del_key x [] h = absurd (ground arith)
contains-del_key x (y ∷ ys) h = elim (Bool-cases (str_eq y x)) [
  | inl same ↦
      if_elim (λ b. b ≡ true) (str_eq (del_key y) (del_key x)) (λ _. refl)
        (λ other. absurd (
          ground (
            arith,
            other,
            eq_refl (del_key x),
            ap (λ z. str_eq (del_key z) (del_key x)) ((eq_iff y x).0 same),
          )))
  | inr other ↦
      if_elim (λ b. b ≡ true) (str_eq (del_key y) (del_key x)) (λ _. refl)
        (λ _. contains-del_key x ys (ground arith))
]

-- Of a deletion that is none of the items that are there, the items that went are those that were.
contains-difference :
    (j : String) (xs ys : List String)
    → contains j (map del_key ys) ≡ false
    → contains j (map del_key (difference xs ys)) ≡ contains j (map del_key xs)
unfolding contains difference
contains-difference j [] ys h = refl
contains-difference j (x ∷ xs) ys h = elim (Bool-cases (contains x ys)) [
  | inl there ↦
      let elsewhere : str_eq (del_key x) j ≡ false = elim (Bool-cases (str_eq (del_key x) j)) [
        | inl same ↦
            let kept : contains j (map del_key ys) ≡ true =
              subst (λ z. contains z (map del_key ys) ≡ true) ((eq_iff (del_key x) j).0 same)
                (contains-del_key x ys there) in
            absurd (ground (arith, h, kept))
        | inr other ↦ other
      ] in
      rw (there, elsewhere) (contains-difference j xs ys h)
  | inr gone ↦
      rw gone (ap (λ b. if str_eq (del_key x) j then true else b) (contains-difference j xs ys h))
]

-- After an update, no deletion is recorded of an item that the entry has; one of an item that it had
-- and has no more is recorded with the time of the edit, as is the change of a field; all other times
-- are as they were.
pub get-new_field_times :
    (now_ms : ℕ) (stored updated : VaultEntry) (j : String)
    → get j (new_field_times now_ms stored updated) ≡ (
        if contains j (map del_key (item_keys updated))
        then none
        else if contains j (map del_key (item_keys stored))
        then some now_ms
        else if contains j (changed_field_keys stored updated)
        then some now_ms
        else get j (meta_of stored).field_times)
unfolding new_field_times
get-new_field_times now_ms stored updated j =
    let times = (meta_of stored).field_times in
    let changed = stamp_all now_ms (changed_field_keys stored updated) times in
    let gone = map del_key (difference (item_keys stored) (item_keys updated)) in
    elim (Bool-cases (contains j (map del_key (item_keys updated)))) [
      | inl there ↦
          get-forget_all (map del_key (item_keys updated)) (stamp_all now_ms gone changed) j
          ∙ rw there refl
      | inr none_there ↦ ground (
        arith,
        none_there,
        get-forget_all (map del_key (item_keys updated)) (stamp_all now_ms gone changed) j,
        get-stamp_all now_ms gone changed j,
        contains-difference j (item_keys stored) (item_keys updated) none_there,
        get-stamp_all now_ms (changed_field_keys stored updated) times j,
      )
    ]
