-- ===== src/Merge/Steady.antt =====
-- No step of a merge changes the metadata of the two versions that it reads.
use gabbro.Merge.{
  Merging, ◌>>=◌, FieldMerger, decide, pick_str, pick_opt, Side, decide_field, keep_stamp,
  note_decision, record_brought_over, ◌>>◌, return, local, get, incoming,
}
use gabbro.Prelude.{
  Bool, List, Option, String, [], false, none, refl, some, true, ℕ, ◌++◌, ◌∙◌, ◌∷◌, ◌≡◌,
}
use gabbro.Entry.{CustomField, EntryAttachment}
use gabbro.Merge.Items.{
  ItemKind, carry_one_sided, carry_or_flag_delete, flag_delete, merge_attachments, merge_custom,
  merge_fields, merge_item, merge_items, merge_keys, note_new,
}

-- An action that leaves the metadata of the two versions alone.
pub record Steady {A : Type 0} (x : Merging A) : Type 0 where
  pub at : (m : FieldMerger) → ((x m).1.lm ≡ m.lm) × ((x m).1.im ≡ m.im)

module _ {A : Type 0} where
  pub Steady-return : (a : A) → Steady (return a)
  Steady-return a = record { at = λ m. (refl, refl) }

module _ {A B : Type 0} where
  pub Steady-bind :
      {f : A → Merging B} (x : Merging A) → Steady x → ((a : A) → Steady (f a)) → Steady (x >>= f)
  unfolding ◌>>=◌
  Steady-bind x hx hf = record {
    at = λ m. let (l, i) = hx.at m in let (l', i') = (hf (x m).0).at (x m).1 in (l' ∙ l, i' ∙ i);
  }

pub Steady-keep_stamp : (key : String) (stamp : Option ℕ) → Steady (keep_stamp key stamp)
unfolding keep_stamp
Steady-keep_stamp key none = record { at = λ m. (refl, refl) }
Steady-keep_stamp key (some t) = record { at = λ m. (refl, refl) }

pub Steady-record_brought_over : (key l i : String) → Steady (record_brought_over key l i)
unfolding record_brought_over
Steady-record_brought_over key l i = record { at = λ m. (refl, refl) }

pub Steady-note_decision :
    (key l i : String) (side : Side) (clash : Bool) → Steady (note_decision key l i side clash)
unfolding note_decision
Steady-note_decision key l i side true = record { at = λ m. (refl, refl) }
Steady-note_decision key l i local false = record { at = λ m. (refl, refl) }
Steady-note_decision key l i incoming false = Steady-record_brought_over key l i

pub ruleset steady_rules = (
  Steady-return, Steady-bind, Steady-keep_stamp, Steady-record_brought_over, Steady-note_decision,
)

pub Steady-decide : (key : String) (equal : Bool) (l i : String) → Steady (decide key equal l i)
unfolding decide
Steady-decide key equal l i = record {
  at = λ m.
      let (side, stamp, clash) =
        decide_field (get key m.lm.field_times) (get key m.im.field_times) m.lm.updated_at
          m.im.updated_at equal in
      (step side stamp clash).at m;
}
  where
    step :
        (side : Side) (stamp : Option ℕ) (clash : Bool)
        → Steady (keep_stamp key stamp >> (note_decision key l i side clash >> return side))
    step side stamp clash = search steady_rules

pub Steady-pick_str : (key l i : String) → Steady (pick_str key l i)
unfolding pick_str
Steady-pick_str key l i = search (steady_rules, Steady-decide)

pub Steady-pick_opt : (key : String) (l i : Option String) → Steady (pick_opt key l i)
unfolding pick_opt
Steady-pick_opt key l i = search (steady_rules, Steady-decide)

Steady-flag_delete : (key label : String) (flagged : Bool) → Steady (flag_delete key label flagged)
unfolding flag_delete
Steady-flag_delete key label true = record { at = λ m. (refl, refl) }
Steady-flag_delete key label false = record { at = λ m. (refl, refl) }

Steady-carry_one_sided : (key : String) (b : Bool) → Steady (carry_one_sided key b)
unfolding carry_one_sided
Steady-carry_one_sided key b = record { at = λ m. (Steady-keep_stamp key _).at m }

Steady-carry_or_flag_delete :
    (key label : String) (b : Bool) → Steady (carry_or_flag_delete key label b)
unfolding carry_or_flag_delete
Steady-carry_or_flag_delete key label b = record { at = λ m. (step _).at m }
  where
    step :
        (flagged : Bool)
        → Steady (flag_delete key label flagged >> (carry_one_sided key b >> return flagged))
    step flagged = search (steady_rules, Steady-flag_delete, Steady-carry_one_sided)

module _ {A : Type 0} (kind : ItemKind A) where
  Steady-note_new : (key : String) (i : A) (flagged : Bool) → Steady (note_new kind key i flagged)
  unfolding note_new
  Steady-note_new key i true = Steady-return tt
  Steady-note_new key i false = Steady-record_brought_over key "" (kind.brought i)

  Steady-merge_item : (key : String) (lo io : Option A) → Steady (merge_item kind key lo io)
  unfolding merge_item
  Steady-merge_item key (some l) (some i) = search (steady_rules, Steady-decide)
  Steady-merge_item key (some l) none = search (steady_rules, Steady-carry_or_flag_delete)
  Steady-merge_item key none (some i) =
      search (steady_rules, Steady-carry_or_flag_delete, Steady-note_new)
  Steady-merge_item key none none = Steady-return []

  Steady-merge_keys : (ks : List String) (ls is : List A) → Steady (merge_keys kind ks ls is)
  unfolding merge_keys
  Steady-merge_keys [] ls is = Steady-return []
  Steady-merge_keys (k ∷ ks) ls is =
      Steady-bind _ (Steady-merge_item _ _ _)
        (λ xs. Steady-bind _ (Steady-merge_keys ks ls is) (λ ys. Steady-return (xs ++ ys)))

pub Steady-merge_custom : (ls is : List CustomField) → Steady (merge_custom ls is)
unfolding merge_custom merge_items
Steady-merge_custom ls is = Steady-merge_keys _ _ ls is

pub Steady-merge_attachments : (ls is : List EntryAttachment) → Steady (merge_attachments ls is)
unfolding merge_attachments merge_items
Steady-merge_attachments ls is = Steady-merge_keys _ _ ls is

pub Steady-merge_fields : (ls is : List (String × CustomField)) → Steady (merge_fields ls is)
unfolding merge_fields
Steady-merge_fields ls is = Steady-merge_keys _ _ ls is

pub ruleset merge_rules = (
  steady_rules, Steady-decide, Steady-pick_str, Steady-pick_opt, Steady-merge_custom,
  Steady-merge_attachments, Steady-merge_fields,
)
