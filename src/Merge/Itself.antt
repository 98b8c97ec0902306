-- ===== src/Merge/Itself.antt =====
-- A sync with an unchanged version has nothing to report.
use gabbro.Merge.{
  Merging, ◌>>=◌, FieldMerger, new_merger, opt_eq, decide_field, keep_stamp, merged_stamp,
  note_decision, pick_opt, pick_str, decide, return, get, chosen,
}
use gabbro.Prelude.{
  Bool, List, Option, String, [], arith, eq_refl, false, none, refl, some, true, ℕ, ◌++◌, ◌∙◌, ◌∷◌,
  ◌≡◌,
}
use gabbro.Bytes.{Bytes}
use gabbro.Entry.{
  CustomField, EntryAttachment, VaultEntry, meta_of, login, note, identity, card, file, custom,
  passkey, FileEntry, PasskeyEntry,
}
use gabbro.Merge.Items.{
  ItemKind, attachment_kind, bool_eq, custom_kind, field_kind, merge_attachments, merge_custom,
  merge_fields, merge_item, merge_items, merge_keys,
}
use gabbro.Merge.Pair.{
  MergedPair, entry_display_title, finish_pair, merge_card, merge_custom_entry, merge_entry_pair,
  merge_file, merge_identity, merge_kinds, merge_login, merge_note, merge_passkey,
}
use gabbro.Bytes.Equal.{bytes_eq_refl}

-- An action that reports nothing.
record Quiet {A : Type 0} (x : Merging A) : Type 0 where
  at :
      (m : FieldMerger)
      → ((x m).1.conflicts ≡ m.conflicts)
        × ((x m).1.pending ≡ m.pending)
        × ((x m).1.brought_over ≡ m.brought_over)

module _ {A : Type 0} where
  Quiet-return : (a : A) → Quiet (return a)
  Quiet-return a = record { at = λ m. (refl, refl, refl) }

module _ {A B : Type 0} where
  Quiet-bind :
      {f : A → Merging B} (x : Merging A) → Quiet x → ((a : A) → Quiet (f a)) → Quiet (x >>= f)
  unfolding ◌>>=◌
  Quiet-bind x hx hf = record {
    at = λ m.
        let (c, p, b) = hx.at m in
        let (c', p', b') = (hf (x m).0).at (x m).1 in (c' ∙ c, p' ∙ p, b' ∙ b);
  }

Quiet-keep_stamp : (key : String) (stamp : Option ℕ) → Quiet (keep_stamp key stamp)
unfolding keep_stamp
Quiet-keep_stamp key none = record { at = λ m. (refl, refl, refl) }
Quiet-keep_stamp key (some t) = record { at = λ m. (refl, refl, refl) }

-- Equal values are never a clash, and nothing is brought over.
Quiet-decide : (key l i : String) (equal : Bool) → equal ≡ true → Quiet (decide key equal l i)
unfolding decide decide_field note_decision ◌>>=◌
Quiet-decide key l i true h = record {
  at = λ m.
      (Quiet-keep_stamp key (merged_stamp (get key m.lm.field_times) (get key m.im.field_times))).at
        m;
}
Quiet-decide key l i false h = absurd (ground arith)

Quiet-pick_str : (key s : String) → Quiet (pick_str key s s)
unfolding pick_str
Quiet-pick_str key s =
    Quiet-bind _ (Quiet-decide key s s _ (eq_refl s)) (λ side. Quiet-return (chosen side s s))

opt_eq_refl : (o : Option String) → opt_eq o o ≡ true
unfolding opt_eq
opt_eq_refl none = refl
opt_eq_refl (some s) = eq_refl s

Quiet-pick_opt : (key : String) (o : Option String) → Quiet (pick_opt key o o)
unfolding pick_opt
Quiet-pick_opt key o =
    Quiet-bind _ (Quiet-decide key _ _ _ (opt_eq_refl o)) (λ side. Quiet-return (chosen side o o))

module _ {A : Type 0} (kind : ItemKind A) (same_refl : (a : A) → kind.same a a ≡ true) where
  Quiet-merge_item : (key : String) (o : Option A) → Quiet (merge_item kind key o o)
  unfolding merge_item
  Quiet-merge_item key (some a) =
      Quiet-bind _ (Quiet-decide key _ _ _ (same_refl a))
        (λ side. Quiet-return (chosen side a a ∷ []))
  Quiet-merge_item key none = Quiet-return []

  Quiet-merge_keys : (ks : List String) (xs : List A) → Quiet (merge_keys kind ks xs xs)
  unfolding merge_keys
  Quiet-merge_keys [] xs = Quiet-return []
  Quiet-merge_keys (k ∷ ks) xs =
      Quiet-bind _ (Quiet-merge_item _ _)
        (λ ys. Quiet-bind _ (Quiet-merge_keys ks xs) (λ zs. Quiet-return (ys ++ zs)))

bool_eq_refl : (b : Bool) → bool_eq b b ≡ true
unfolding bool_eq
bool_eq_refl true = refl
bool_eq_refl false = refl

Quiet-merge_custom : (xs : List CustomField) → Quiet (merge_custom xs xs)
unfolding merge_custom merge_items
Quiet-merge_custom xs = Quiet-merge_keys custom_kind same_refl _ xs
  where
    same_refl : (f : CustomField) → custom_kind.same f f ≡ true
    same_refl f = ground (arith, eq_refl f.value, bool_eq_refl f.hidden)

Quiet-merge_attachments : (xs : List EntryAttachment) → Quiet (merge_attachments xs xs)
unfolding merge_attachments merge_items
Quiet-merge_attachments xs = Quiet-merge_keys attachment_kind same_refl _ xs
  where
    same_refl : (a : EntryAttachment) → attachment_kind.same a a ≡ true
    same_refl a = ground (arith, eq_refl a.name, eq_refl a.kind, bytes_eq_refl a.content)

Quiet-merge_fields : (xs : List (String × CustomField)) → Quiet (merge_fields xs xs)
unfolding merge_fields
Quiet-merge_fields xs = Quiet-merge_keys field_kind same_refl _ xs
  where
    same_refl : (e : String × CustomField) → field_kind.same e e ≡ true
    same_refl e = ground (arith, eq_refl e.1.value, bool_eq_refl e.1.hidden, eq_refl e.1.label)

ruleset quiet_rules = (
  Quiet-return, Quiet-bind, Quiet-pick_str, Quiet-pick_opt, Quiet-merge_custom,
  Quiet-merge_attachments, Quiet-merge_fields,
)

Quiet-file : (b64 : Bytes → String) (e : FileEntry) → Quiet (merge_file b64 e e)
unfolding merge_file
Quiet-file b64 e = search (quiet_rules, Quiet-decide, bytes_eq_refl) depth 24

Quiet-passkey : (b64 : Bytes → String) (e : PasskeyEntry) → Quiet (merge_passkey b64 e e)
unfolding merge_passkey
Quiet-passkey b64 e = search (quiet_rules, Quiet-decide, bytes_eq_refl) depth 24

abbrev IsQuiet : Option (Merging VaultEntry) → Type 0
IsQuiet none = Unit
IsQuiet (some x) = Quiet x

Quiet-kinds : (b64 : Bytes → String) (e : VaultEntry) → IsQuiet (merge_kinds b64 e e)
unfolding merge_kinds merge_login merge_note merge_identity merge_card merge_custom_entry
Quiet-kinds b64 (login e) = search quiet_rules depth 40
Quiet-kinds b64 (note e) = search quiet_rules depth 40
Quiet-kinds b64 (identity e) = search quiet_rules depth 40
Quiet-kinds b64 (card e) = search quiet_rules depth 40
Quiet-kinds b64 (file e) = Quiet-bind _ (Quiet-file b64 e) (λ merged. Quiet-return (file merged))
Quiet-kinds b64 (custom e) = search quiet_rules depth 40
Quiet-kinds b64 (passkey e) =
    Quiet-bind _ (Quiet-passkey b64 e) (λ merged. Quiet-return (passkey merged))

abbrev pub IsSilent : MergedPair → Type 0
IsSilent p = (p.conflicts ≡ []) × (p.pending ≡ []) × (p.brought_over ≡ [])

IsSilent-of_quiet :
    (e : VaultEntry) (o : Option (Merging VaultEntry)) → IsQuiet o → IsSilent (finish_pair e e o)
IsSilent-of_quiet e none h = (refl, refl, refl)
IsSilent-of_quiet e (some x) h = h.at (new_merger (meta_of e) (meta_of e) (entry_display_title e))

-- The merge of a version of an entry with itself reports no clash, asks for no deletion, and brings
-- nothing over.
merge_entry_pair-itself :
    (b64 : Bytes → String) (e : VaultEntry) → IsSilent (merge_entry_pair b64 e e)
unfolding merge_entry_pair
merge_entry_pair-itself b64 e = IsSilent-of_quiet e _ (Quiet-kinds b64 e)
