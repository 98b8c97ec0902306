-- ===== src/Merge/Items.antt =====
-- The items of an entry that have an identity of their own: custom fields and attachments. An item
-- on one side only is kept; a deletion on the other side only asks the user.
use Prim.Native.Nat.{Ordering}
use Prim.Native.String.{compare, ◌++◌ as str_append}
use gabbro.Prelude.{
  ℕ, Bool, List, Option, String, [], false, if◌then◌else◌, ltb, map, none, not, some, str_eq, true,
  ◌&&◌, ◌++◌, ◌∷◌,
}
use gabbro.Entry.{CustomField, EntryAttachment}
use gabbro.Merge.{
  Merging, keep_stamp, record_brought_over, get, decide, return, chosen, ◌>>=◌, ◌>>◌,
}
use gabbro.Bytes.{bytes_eq}
use gabbro.Session.{contains}

unfoldable pub carry_one_sided : String → Bool → Merging (Unit {0})
unfolding keep_stamp get
carry_one_sided key from_incoming m =
    keep_stamp key (get key (if from_incoming then m.im else m.lm).field_times) m

-- `field_times.get(key).copied().unwrap_or(0)`
abbrev pub time_or_zero : Option ℕ → ℕ
time_or_zero none = 0
time_or_zero (some t) = t

-- Whether the other side deleted the item after this side last changed it.
abbrev pub deleted_after : Option ℕ → ℕ → Bool
deleted_after none item_time = false
deleted_after (some del_time) item_time = ltb item_time del_time

unfoldable pub flag_delete : String → String → Bool → Merging (Unit {0})
flag_delete key label flagged m =
    if flagged
    then (
      tt,
      record m {
        pending =
            m.pending ++ record { id = m.id; title = m.title; field = key; label = label } ∷ [];
      },
    )
    else (tt, m)

unfoldable pub carry_or_flag_delete : String → String → Bool → Merging Bool
unfolding get carry_one_sided flag_delete ◌>>=◌
carry_or_flag_delete key label present_on_incoming m =
    let present = (if present_on_incoming then m.im else m.lm).field_times in
    let other = (if present_on_incoming then m.lm else m.im).field_times in
    let flagged =
      deleted_after (get (str_append "del:" key) other) (time_or_zero (get key present)) in
    (do flag_delete key label flagged; carry_one_sided key present_on_incoming; return flagged) m

unfoldable pub bool_eq : Bool → Bool → Bool
bool_eq true b = b
bool_eq false b = not b

-- What `merge_custom`, `merge_attachments` and the fields of a custom entry differ in: an item's
-- identity, the prefix of its key in `field_times`, when two are the same, the text that a clash
-- shows, the name that a deletion shows, and the value that a new item shows.
pub record ItemKind (A : Type 0) : Type 1 where
  pub identity_of : A → String
  pub prefix : String
  pub same : A → A → Bool
  pub shown : A → String
  pub named : A → String
  pub brought : A → String

module _ {A : Type 0} (kind : ItemKind A) where
  -- A `HashMap` of the items by identity: of two items with one identity the last is found.
  unfoldable pub find_last : String → List A → Option A
  find_last k [] = none
  find_last k (x ∷ xs) = elim (find_last k xs) [
    | some y ↦ some y
    | none ↦ if str_eq (kind.identity_of x) k then some x else none
  ]

  unfoldable pub note_new : String → A → Bool → Merging (Unit {0})
  unfolding record_brought_over
  note_new key i flagged =
      if flagged then return tt else record_brought_over key "" (kind.brought i)

  -- The last case is `unreachable!()`: the identity is one of an item on either side.
  unfoldable pub merge_item : String → Option A → Option A → Merging (List A)
  unfolding decide carry_or_flag_delete note_new ◌>>=◌
  merge_item key (some l) (some i) = do
    side ← decide key (kind.same l i) (kind.shown l) (kind.shown i)
    return (chosen side l i ∷ [])
  merge_item key (some l) none = do carry_or_flag_delete key (kind.named l) false; return (l ∷ [])
  merge_item key none (some i) = do
    flagged ← carry_or_flag_delete key (kind.named i) true
    note_new key i flagged
    return (i ∷ [])
  merge_item key none none = return []

  unfoldable pub merge_keys : List String → List A → List A → Merging (List A)
  unfolding merge_item find_last ◌>>=◌
  merge_keys [] ls is = return []
  merge_keys (k ∷ ks) ls is = do
    xs ← merge_item (str_append kind.prefix k) (find_last k ls) (find_last k is)
    ys ← merge_keys ks ls is
    return (xs ++ ys)

  -- The identities in the order of their first item, by the set of those seen.
  unfoldable pub unseen : List String → List A → List String
  unfolding contains
  unseen seen [] = []
  unseen seen (x ∷ xs) =
      let k = kind.identity_of x in
      if contains k seen then unseen seen xs else k ∷ unseen (k ∷ seen) xs

  unfoldable pub merge_items : List A → List A → Merging (List A)
  unfolding unseen merge_keys
  merge_items ls is = merge_keys (unseen [] (ls ++ is)) ls is

abbrev pub custom_kind : ItemKind CustomField
custom_kind = record {
  identity_of = λ f. f.label;
  prefix = "custom_fields:";
  same = λ l i. str_eq l.value i.value && bool_eq l.hidden i.hidden;
  shown = λ f. f.value;
  named = λ f. f.label;
  brought = λ f. f.value;
}

abbrev pub attachment_kind : ItemKind EntryAttachment
attachment_kind = record {
  identity_of = λ a. a.uuid;
  prefix = "attachments:";
  same = λ l i. str_eq l.name i.name && str_eq l.kind i.kind && bytes_eq l.content i.content;
  shown = λ a. a.name;
  named = λ a. a.name;
  brought = λ a. a.name;
}

unfoldable pub merge_custom : List CustomField → List CustomField → Merging (List CustomField)
unfolding merge_items
merge_custom = merge_items custom_kind

unfoldable pub merge_attachments :
    List EntryAttachment → List EntryAttachment → Merging (List EntryAttachment)
unfolding merge_items
merge_attachments = merge_items attachment_kind

-- The fields of a custom entry, an `IndexMap` with its keys.
abbrev pub field_kind : ItemKind (String × CustomField)
field_kind = record {
  identity_of = λ e. e.0;
  prefix = "custom_fields:";
  same = λ l i.
      str_eq l.1.value i.1.value && bool_eq l.1.hidden i.1.hidden && str_eq l.1.label i.1.label;
  shown = λ e. e.1.value;
  named = λ e. e.1.label;
  brought = λ e. e.1.value;
}

-- `keys.sort(); keys.dedup()`
unfoldable pub insert_key : String → List String → List String
insert_key k [] = k ∷ []
insert_key k (x ∷ xs) =
    let rest = insert_key k xs in
    elim (compare k x) [ Ordering.lt ↦ k ∷ x ∷ xs | Ordering.eq ↦ x ∷ xs | Ordering.gt ↦ x ∷ rest ]

unfoldable pub sorted_keys : List String → List String
unfolding insert_key
sorted_keys [] = []
sorted_keys (k ∷ ks) = insert_key k (sorted_keys ks)

unfoldable pub merge_fields :
    List (String × CustomField)
    → List (String × CustomField)
    → Merging (List (String × CustomField))
unfolding sorted_keys merge_keys
merge_fields ls is = merge_keys field_kind (sorted_keys (map (λ e. e.0) (ls ++ is))) ls is
