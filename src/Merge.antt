-- ===== src/Merge.antt =====
-- The merge of two versions of an entry (`merge_entry_pair` of vault/session.rs): the decision for
-- one field, and the accumulator `FieldMerger`, whose methods are actions that pass it on.
pub mod Items
pub mod Finish
pub mod Pair
pub mod Decisions
pub mod Kept
pub mod Steady
pub mod History
pub mod Passkeys
pub mod Itself
pub mod Deletions
use Prim.Native.Nat.{max, Ordering}
use Prim.Native.String.{compare}
use gabbro.Prelude.{
  ℕ, Bool, Option, none, some, List, [], ◌∷◌, ◌++◌, String, str_eq, false, if◌then◌else◌, true,
}
use gabbro.Entry.{EntryMeta}

-- Which version supplies a field.
pub data Side : Type 0 where
  local incoming : Side

abbrev pub chosen {ℓ} : {A : Type ℓ} → Side → A → A → A
chosen local l i = l
chosen incoming l i = i

-- `FieldConflictItem`, `PendingItemDeleteItem` and `BroughtOverItem` of api/vault.rs
pub record FieldConflictItem : Type 0 where
  pub id : String
  pub title : String
  pub field : String
  pub local_value : String
  pub incoming_value : String

pub record PendingItemDeleteItem : Type 0 where
  pub id : String
  pub title : String
  pub field : String
  pub label : String

pub record BroughtOverItem : Type 0 where
  pub id : String
  pub title : String
  pub field : String
  pub old_value : String
  pub new_value : String

-- `a > b` on strings
abbrev pub after : String → String → Bool
after a b = elim (compare a b) [ Ordering.gt ↦ true | _ ↦ false ]

-- The later of two edit times, where there is one.
unfoldable pub merged_stamp : Option ℕ → Option ℕ → Option ℕ
merged_stamp (some l) (some i) = some (max l i)
merged_stamp (some l) none = some l
merged_stamp none it = it

-- Two versions that differ, by which of them were edited.
unfoldable pub decide_edited :
    Option ℕ → Option ℕ → String → String → Option ℕ → Side × Option ℕ × Bool
decide_edited (some l) (some i) lu iu stamp = (local, stamp, true)
decide_edited (some l) none lu iu stamp = (local, stamp, false)
decide_edited none (some i) lu iu stamp = (incoming, stamp, false)
decide_edited none none lu iu stamp =
    if after iu lu
    then (incoming, none, false)
    else if after lu iu
    then (local, none, false)
    else (local, none, true)

unfoldable pub decide_field : Option ℕ → Option ℕ → String → String → Bool → Side × Option ℕ × Bool
unfolding merged_stamp decide_edited
decide_field lt it lu iu values_equal =
    if values_equal
    then (local, merged_stamp lt it, false)
    else decide_edited lt it lu iu (merged_stamp lt it)

-- A `BTreeMap` as an association list.
unfoldable pub get : String → List (String × ℕ) → Option ℕ
get k [] = none
get k (e ∷ es) = if str_eq e.0 k then some e.1 else get k es

unfoldable pub insert : String → ℕ → List (String × ℕ) → List (String × ℕ)
insert k v [] = (k, v) ∷ []
insert k v (e ∷ es) = if str_eq e.0 k then (k, v) ∷ es else e ∷ insert k v es

-- `BTreeMap::remove`
unfoldable pub forget : String → List (String × ℕ) → List (String × ℕ)
forget k [] = []
forget k (e ∷ es) = let rest = forget k es in if str_eq e.0 k then rest else e ∷ rest

pub record FieldMerger : Type 0 where
  pub id : String
  pub title : String
  pub lm : EntryMeta
  pub im : EntryMeta
  pub times : List (String × ℕ)
  pub conflicts : List FieldConflictItem
  pub pending : List PendingItemDeleteItem
  pub brought_over : List BroughtOverItem

abbrev pub new_merger : EntryMeta → EntryMeta → String → FieldMerger
new_merger lm im title = record {
  id = lm.id;
  title = title;
  lm = lm;
  im = im;
  times = [];
  conflicts = [];
  pending = [];
  brought_over = [];
}

-- What a method that takes `&mut self` is: its result and the changed merger.
abbrev pub Merging : Type 0 → Type 0
Merging A = FieldMerger → A × FieldMerger

module _ {A : Type 0} where
  abbrev pub return : A → Merging A
  return a m = (a, m)

module _ {A B : Type 0} where
  infixl 10 ◌>>=◌ ◌>>◌
  unfoldable pub ◌>>=◌ : Merging A → (A → Merging B) → Merging B
  ◌>>=◌ x f m = let (a, m') = x m in f a m'

  abbrev pub ◌>>◌ : Merging A → Merging B → Merging B
  x >> y = x >>= λ _. y

unfoldable pub record_brought_over : String → String → String → Merging (Unit {0})
record_brought_over key old new m = (
  tt,
  record m {
    brought_over =
        m.brought_over
        ++ record { id = m.id; title = m.title; field = key; old_value = old; new_value = new }
          ∷ [];
  },
)

unfoldable pub keep_stamp : String → Option ℕ → Merging (Unit {0})
unfolding insert
keep_stamp key none m = (tt, m)
keep_stamp key (some t) m = (tt, record m { times = insert key t m.times })

unfoldable pub note_decision : String → String → String → Side → Bool → Merging (Unit {0})
unfolding record_brought_over
note_decision key l i side true m = (
  tt,
  record m {
    conflicts =
        m.conflicts
        ++ record { id = m.id; title = m.title; field = key; local_value = l; incoming_value = i }
          ∷ [];
  },
)
note_decision key l i local false m = (tt, m)
note_decision key l i incoming false m = record_brought_over key l i m

unfoldable pub decide : String → Bool → String → String → Merging Side
unfolding get decide_field keep_stamp note_decision ◌>>=◌
decide key equal l i m =
    let (side, stamp, clash) =
      decide_field (get key m.lm.field_times) (get key m.im.field_times) m.lm.updated_at
        m.im.updated_at equal in
    (do keep_stamp key stamp; note_decision key l i side clash; return side) m

unfoldable pub pick_str : String → String → String → Merging String
unfolding decide ◌>>=◌
pick_str key l i = do side ← decide key (str_eq l i) l i; return (chosen side l i)

unfoldable pub text_or_empty : Option String → String
text_or_empty none = ""
text_or_empty (some s) = s

unfoldable pub opt_eq : Option String → Option String → Bool
opt_eq none none = true
opt_eq (some a) (some b) = str_eq a b
opt_eq _ _ = false

unfoldable pub pick_opt : String → Option String → Option String → Merging (Option String)
unfolding decide ◌>>=◌ text_or_empty opt_eq
pick_opt key l i = do
  side ← decide key (opt_eq l i) (text_or_empty l) (text_or_empty i)
  return (chosen side l i)
