-- ===== src/Merge/History.antt =====
-- A merge keeps the replacement history of both versions.
use gabbro.Merge.{Merging, new_merger, opt_eq, FieldMerger}
use gabbro.Merge.Steady.{Steady, Steady-bind, Steady-return, merge_rules}
use gabbro.Bytes.{Bytes}
use gabbro.Entry.{
  CardEntry, CustomEntry, EntryMeta, FileEntry, HistoryRecord, IdentityEntry, LoginEntry, NoteEntry,
  PasskeyEntry, VaultEntry, meta_of, with_meta, login, note, identity, card, file, custom, passkey,
}
use gabbro.Prelude.{
  List, Option, String, [], arith, eq_iff, none, refl, some, subst, true, ◌++◌, ◌||◌, ◌↔◌, ◌∷◌, ◌≡◌,
  Bool, Bool-cases, ap, if_elim, if◌then◌else◌, inl, inr, sym, ◌∙◌,
}
use gabbro.Merge.Pair.{
  entry_display_title, merge_card, merge_custom_entry, merge_entry_pair, merge_file, merge_identity,
  merge_kinds, merge_login, merge_note, merge_passkey, finish_pair,
}
use gabbro.Merge.Finish.{finish_meta, has_record, record_eq, union_history, keep_deletions, later}

Steady-login : (l i : LoginEntry) → Steady (merge_login l i)
unfolding merge_login
Steady-login l i = search merge_rules depth 24

Steady-note : (l i : NoteEntry) → Steady (merge_note l i)
unfolding merge_note
Steady-note l i = search merge_rules depth 24

Steady-identity : (l i : IdentityEntry) → Steady (merge_identity l i)
unfolding merge_identity
Steady-identity l i = search merge_rules depth 24

Steady-card : (l i : CardEntry) → Steady (merge_card l i)
unfolding merge_card
Steady-card l i = search merge_rules depth 36

Steady-file : (b64 : Bytes → String) (l i : FileEntry) → Steady (merge_file b64 l i)
unfolding merge_file
Steady-file b64 l i = search merge_rules depth 24

Steady-custom : (l i : CustomEntry) → Steady (merge_custom_entry l i)
unfolding merge_custom_entry
Steady-custom l i = search merge_rules depth 24

Steady-passkey : (b64 : Bytes → String) (l i : PasskeyEntry) → Steady (merge_passkey b64 l i)
unfolding merge_passkey
Steady-passkey b64 l i = search merge_rules depth 24

abbrev IsSteady : Option (Merging VaultEntry) → Type 0
IsSteady none = Unit
IsSteady (some x) = Steady x

Steady-kinds : (b64 : Bytes → String) (l i : VaultEntry) → IsSteady (merge_kinds b64 l i)
unfolding merge_kinds
Steady-kinds b64 (login l) (login i) = Steady-bind _ (Steady-login l i) (λ e. Steady-return _)
Steady-kinds b64 (note l) (note i) = Steady-bind _ (Steady-note l i) (λ e. Steady-return _)
Steady-kinds b64 (identity l) (identity i) =
    Steady-bind _ (Steady-identity l i) (λ e. Steady-return _)
Steady-kinds b64 (card l) (card i) = Steady-bind _ (Steady-card l i) (λ e. Steady-return _)
Steady-kinds b64 (file l) (file i) = Steady-bind _ (Steady-file b64 l i) (λ e. Steady-return _)
Steady-kinds b64 (custom l) (custom i) = Steady-bind _ (Steady-custom l i) (λ e. Steady-return _)
Steady-kinds b64 (passkey l) (passkey i) =
    Steady-bind _ (Steady-passkey b64 l i) (λ e. Steady-return _)
Steady-kinds b64 _ _ = tt

pub meta_of-with_meta :
    (f : EntryMeta → EntryMeta) (e : VaultEntry) → meta_of (with_meta f e) ≡ f (meta_of e)
meta_of-with_meta f (login e) = refl
meta_of-with_meta f (note e) = refl
meta_of-with_meta f (identity e) = refl
meta_of-with_meta f (card e) = refl
meta_of-with_meta f (file e) = refl
meta_of-with_meta f (custom e) = refl
meta_of-with_meta f (passkey e) = refl

opt_eq_iff : (a b : Option String) → (opt_eq a b ≡ true) ↔ (a ≡ b)
unfolding opt_eq
opt_eq_iff none none = ground arith
opt_eq_iff none (some b) = ground arith
opt_eq_iff (some a) none = ground arith
opt_eq_iff (some a) (some b) = ground (arith, eq_iff a b)

record_eq_iff : (a b : HistoryRecord) → (record_eq a b ≡ true) ↔ (a ≡ b)
unfolding record_eq
record_eq_iff a b = ground (
  arith,
  eq_iff a.field b.field,
  eq_iff a.value b.value,
  eq_iff a.saved_at b.saved_at,
  opt_eq_iff a.expires_at b.expires_at,
)

has_record-snoc :
    (r h : HistoryRecord) (hs : List HistoryRecord)
    → has_record r (hs ++ h ∷ []) ≡ (has_record r hs || record_eq h r)
unfolding has_record
has_record-snoc r h [] = ground arith
has_record-snoc r h (x ∷ hs) = ground (arith, has_record-snoc r h hs)

-- A record that is there already need not be added.
has_record-add :
    (r h : HistoryRecord) (ls : List HistoryRecord)
    → has_record r (if has_record h ls then ls else ls ++ h ∷ [])
      ≡ (has_record r ls || record_eq h r)
has_record-add r h ls =
    if_elim (λ zs. has_record r zs ≡ (has_record r ls || record_eq h r)) (has_record h ls)
      (λ known. elim (Bool-cases (record_eq h r)) [
        | inl same ↦
            let here : has_record r ls ≡ true =
              subst (λ x. has_record x ls ≡ true) ((record_eq_iff h r).0 same) known in
            rw here refl
        | inr new ↦ ground arith
      ])
      (λ fresh. has_record-snoc r h ls)

has_record-union :
    (r : HistoryRecord) (ls is : List HistoryRecord)
    → has_record r (union_history ls is) ≡ (has_record r ls || has_record r is)
unfolding union_history has_record
has_record-union r ls [] = ground arith
has_record-union r ls (h ∷ is) =
    let added = if has_record h ls then ls else ls ++ h ∷ [] in
    has_record-union r added is
    ∙ (ap (λ b. b || has_record r is) (has_record-add r h ls)
        ∙ either_first (has_record r ls) (record_eq h r) (has_record r is))
  where
    either_first : (a b c : Bool) → ((a || b) || c) ≡ (a || (if b then true else c))
    either_first a b c = ground arith

-- The metadata of the merged entry, from that of the two versions.
abbrev pub start_of : VaultEntry → VaultEntry → FieldMerger
start_of l i = new_merger (meta_of l) (meta_of i) (entry_display_title l)

abbrev pub merged_meta : VaultEntry → VaultEntry → Merging VaultEntry → EntryMeta
merged_meta l i merging = record (meta_of (merging (start_of l i)).0) {
  updated_at = later (meta_of l).updated_at (meta_of i).updated_at;
  field_times =
      keep_deletions ((meta_of l).field_times ++ (meta_of i).field_times)
        (merging (start_of l i)).1.times;
  history = union_history (meta_of l).history (meta_of i).history;
}

pub merge_entry_pair-merged_meta :
    (b64 : Bytes → String) (l i : VaultEntry) (merging : Merging VaultEntry)
    → merge_kinds b64 l i ≡ some merging
    → meta_of (merge_entry_pair b64 l i).entry ≡ merged_meta l i merging
unfolding merge_entry_pair finish_meta
merge_entry_pair-merged_meta b64 l i merging same =
    let (l_kept, i_kept) = (subst IsSteady same (Steady-kinds b64 l i)).at (start_of l i) in
    subst (λ o. meta_of (finish_pair l i o).entry ≡ merged_meta l i merging) (sym same)
      (rw
        (
          meta_of-with_meta (finish_meta (merging (start_of l i)).1) (merging (start_of l i)).0,
          l_kept,
          i_kept,
        )
        refl)

-- The merge of two versions of an entry of one kind keeps in the history each record that either
-- version has, and adds no other.
pub merge_entry_pair-history :
    (b64 : Bytes → String) (l i : VaultEntry) (merging : Merging VaultEntry)
    → merge_kinds b64 l i ≡ some merging
    → (r : HistoryRecord)
    → has_record r (meta_of (merge_entry_pair b64 l i).entry).history
      ≡ (has_record r (meta_of l).history || has_record r (meta_of i).history)
merge_entry_pair-history b64 l i merging same r =
    ap (λ meta. has_record r meta.history) (merge_entry_pair-merged_meta b64 l i merging same)
    ∙ has_record-union r (meta_of l).history (meta_of i).history
