-- ===== src/Sync/Complete.antt =====
-- A merge deletes nothing and doubles nothing: the identities are those of the session's entries, in
-- order, and then those of the incoming entries that were not there.
use gabbro.Merge.{Merging, ◌>>=◌, FieldMerger, after, new_merger}
use gabbro.Bytes.{Bytes}
use gabbro.Prelude.{
  List, Option, String, [], ap, ap₂, arith, eq_iff, if_elim, if◌then◌else◌, map, none, option_elim,
  refl, some, ◌++◌, ◌∙◌, ◌∷◌, ◌≡◌, Bool-cases, inl, inr,
}
use gabbro.Sync.{
  MergeSummary, add_new, do_merge, empty_summary, last_entry, merge_local, merge_locals,
}
use gabbro.Session.{VaultBody, VaultSession, contains}
use gabbro.Entry.{
  VaultEntry, entry_id, meta_of, login, note, identity, card, file, custom, passkey, EntryMeta,
}
use gabbro.Merge.Pair.{
  finish_pair, merge_card, merge_custom_entry, merge_entry_pair, merge_file, merge_identity,
  merge_kinds, merge_login, merge_note, merge_passkey, entry_display_title,
}
use gabbro.Merge.Finish.{finish_meta}
use gabbro.Merge.History.{meta_of-with_meta}

-- The merged entry of one kind has the metadata of the local one to start with.
abbrev IsOfLocal : (l : VaultEntry) → Option (Merging VaultEntry) → Type 0
IsOfLocal l none = Unit
IsOfLocal l (some merging) = (m : FieldMerger) → meta_of (merging m).0 ≡ meta_of l

merge_kinds-IsOfLocal :
    (b64 : Bytes → String) (l i : VaultEntry) → IsOfLocal l (merge_kinds b64 l i)
unfolding merge_kinds merge_login merge_note merge_identity merge_card merge_file merge_custom_entry
    merge_passkey ◌>>=◌
merge_kinds-IsOfLocal b64 (login l) (login i) = λ m. refl
merge_kinds-IsOfLocal b64 (note l) (note i) = λ m. refl
merge_kinds-IsOfLocal b64 (identity l) (identity i) = λ m. refl
merge_kinds-IsOfLocal b64 (card l) (card i) = λ m. refl
merge_kinds-IsOfLocal b64 (file l) (file i) = λ m. refl
merge_kinds-IsOfLocal b64 (custom l) (custom i) = λ m. refl
merge_kinds-IsOfLocal b64 (passkey l) (passkey i) = λ m. refl
merge_kinds-IsOfLocal b64 _ _ = tt

entry_id-merge_entry_pair :
    (b64 : Bytes → String) (l i : VaultEntry)
    → entry_id i ≡ entry_id l
    → entry_id (merge_entry_pair b64 l i).entry ≡ entry_id l
unfolding merge_entry_pair finish_meta
entry_id-merge_entry_pair b64 l i same =
    by_kind (merge_kinds b64 l i) (merge_kinds-IsOfLocal b64 l i)
  where
    by_kind :
        (o : Option (Merging VaultEntry))
        → IsOfLocal l o
        → entry_id (finish_pair l i o).entry ≡ entry_id l
    by_kind none h =
        if_elim (λ e. entry_id e ≡ entry_id l) (after (meta_of i).updated_at (meta_of l).updated_at)
          (λ _. same) (λ _. refl)
    by_kind (some merging) h =
        let start = new_merger (meta_of l) (meta_of i) (entry_display_title l) in
        ap (λ (m : EntryMeta). m.id)
          (meta_of-with_meta (finish_meta (merging start).1) (merging start).0)
        ∙ ap (λ (m : EntryMeta). m.id) (h start)

last_entry-id :
    (id : String) (es : List VaultEntry) (e : VaultEntry)
    → last_entry id es ≡ some e
    → entry_id e ≡ id
unfolding last_entry
last_entry-id id [] e h = absurd (ground arith)
last_entry-id id (x ∷ xs) e h = ground (arith, last_entry-id id xs e, eq_iff (entry_id x) id)

entry_id-merge_local :
    (b64 : Bytes → String) (incoming : VaultBody) (l : VaultEntry) (s : MergeSummary)
    → entry_id (merge_local b64 incoming l s).0 ≡ entry_id l
unfolding merge_local
entry_id-merge_local b64 incoming l s =
    option_elim (λ (r : VaultEntry × MergeSummary). entry_id r.0 ≡ entry_id l)
      (last_entry (entry_id l) incoming.entries) (λ _. refl)
      (λ i found.
        entry_id-merge_entry_pair b64 l i (last_entry-id (entry_id l) incoming.entries i found))

ids-merge_locals :
    (b64 : Bytes → String) (incoming : VaultBody) (ls : List VaultEntry) (s : MergeSummary)
    → map entry_id (merge_locals b64 incoming ls s).0 ≡ map entry_id ls
unfolding merge_locals
ids-merge_locals b64 incoming [] s = refl
ids-merge_locals b64 incoming (l ∷ ls) s =
    ap₂ ◌∷◌ (entry_id-merge_local b64 incoming l s)
      (ids-merge_locals b64 incoming ls (merge_local b64 incoming l s).1)

-- What is not among the given names, in order.
abbrev pub absent : List String → List String → List String
unfolding contains
absent known [] = []
absent known (x ∷ xs) = let rest = absent known xs in if contains x known then rest else x ∷ rest

ids-add_new :
    (known : List String) (is : List VaultEntry)
    → map entry_id (add_new known is) ≡ absent known (map entry_id is)
unfolding add_new
ids-add_new known [] = refl
ids-add_new known (i ∷ is) = elim (Bool-cases (contains (entry_id i) known)) [
  | inl there ↦ rw there (ids-add_new known is)
  | inr new ↦ rw new (ap (◌∷◌ (entry_id i)) (ids-add_new known is))
]

map_append :
    (f : VaultEntry → String) (xs ys : List VaultEntry) → map f (xs ++ ys) ≡ map f xs ++ map f ys
map_append f [] ys = refl
map_append f (x ∷ xs) ys = ap (◌∷◌ (f x)) (map_append f xs ys)

-- The joined session has the session's entries in their order, each under its identity, and behind
-- them each incoming entry with an identity that was not there; nothing is deleted.
pub do_merge-ids :
    (b64 : Bytes → String) (s : VaultSession) (incoming : VaultBody)
    → map entry_id (do_merge b64 s incoming).0.entries
      ≡ map entry_id s.entries ++ absent (map entry_id s.entries) (map entry_id incoming.entries)
unfolding do_merge
do_merge-ids b64 s incoming =
    map_append entry_id (merge_locals b64 incoming s.entries empty_summary).0
      (add_new (map entry_id s.entries) incoming.entries)
    ∙ ap₂ ◌++◌ (ids-merge_locals b64 incoming s.entries empty_summary)
        (ids-add_new (map entry_id s.entries) incoming.entries)
