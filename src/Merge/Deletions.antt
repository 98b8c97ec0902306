-- ===== src/Merge/Deletions.antt =====
-- A deletion that either version recorded outlives the merge, unless the item was added again.
use gabbro.Merge.{get, insert, max, Merging}
use gabbro.Prelude.{
  List, Option, String, [], arith, eq_iff, eq_refl, if◌then◌else◌, none, option_elim, refl, some,
  str_eq, ℕ, ◌∷◌, ◌≡◌, ◌≤◌, if_elim, inl, inr, leb→le, subst, sym, true, ◌⊎◌, ◌++◌,
}
use gabbro.Merge.Finish.{keep_deletion, keep_deletions, strip_del, raise, readded}
use gabbro.Bytes.{Bytes}
use gabbro.Entry.{VaultEntry, meta_of}
use gabbro.Merge.Pair.{merge_entry_pair, merge_kinds}
use gabbro.Merge.History.{merge_entry_pair-merged_meta, start_of}

-- A time that is at least the given one.
abbrev pub IsSince : ℕ → Option ℕ → Type 0
IsSince v none = ⊥
IsSince v (some t) = v ≤ t

-- What is recorded stays recorded, with a time no earlier.
abbrev IsGrown : List (String × ℕ) → List (String × ℕ) → Type 0
IsGrown times times' = (k : String) (v : ℕ) → IsSince v (get k times) → IsSince v (get k times')

pub get-insert :
    (j k : String) (v : ℕ) (times : List (String × ℕ))
    → get j (insert k v times) ≡ (if str_eq k j then some v else get j times)
unfolding get insert
get-insert j k v [] = refl
get-insert j k v (e ∷ es) =
    ground (arith, eq_iff e.0 k, eq_iff e.0 j, eq_iff k j, get-insert j k v es)

raise-IsSince :
    (k : String) (v : ℕ) (times : List (String × ℕ)) → IsSince v (get k (raise k v times))
unfolding raise
raise-IsSince k v times =
    option_elim (λ ts. IsSince v (get k ts)) (get k times)
      (λ new. rw (get-insert k k v times, eq_refl k) (omega arith))
      (λ t old. rw (get-insert k k (max t v) times, eq_refl k) (omega arith))

-- The same at another name for the key.
IsSince-at :
    (w : ℕ) (k j : String) (times : List (String × ℕ))
    → str_eq k j ≡ true
    → IsSince w (get j times)
    → IsSince w (get k times)
IsSince-at w k j times same = subst (λ x. IsSince w (get x times)) (sym ((eq_iff k j).0 same))

raise-IsGrown : (k : String) (v : ℕ) (times : List (String × ℕ)) → IsGrown times (raise k v times)
unfolding raise
raise-IsGrown k v times j w h =
    option_elim (λ ts. IsSince w (get j ts)) (get k times)
      (λ new. rw (get-insert j k v times) (
        if_elim (IsSince w) (str_eq k j)
          (λ same. absurd (subst (IsSince w) new (IsSince-at w k j times same h))) (λ other. h)))
      (λ t old. rw (get-insert j k (max t v) times) (
        if_elim (IsSince w) (str_eq k j)
          (λ same.
            let since : w ≤ t = subst (IsSince w) old (IsSince-at w k j times same h) in
            omega arith)
          (λ other. h)))

keep_deletion-IsGrown :
    (k : String) (v : ℕ) (times : List (String × ℕ)) → IsGrown times (keep_deletion k v times)
unfolding keep_deletion
keep_deletion-IsGrown k v times j w h =
    option_elim (λ ts. IsSince w (get j ts)) (strip_del k) (λ _. h)
      (λ stripped _.
        if_elim (λ ts. IsSince w (get j ts)) (readded (get stripped times) v) (λ _. h)
          (λ _. raise-IsGrown k v times j w h))

keep_deletions-IsGrown : (es times : List (String × ℕ)) → IsGrown times (keep_deletions es times)
unfolding keep_deletions
keep_deletions-IsGrown [] times j w h = h
keep_deletions-IsGrown (e ∷ es) times j w h =
    keep_deletions-IsGrown es (keep_deletion e.0 e.1 times) j w
      (keep_deletion-IsGrown e.0 e.1 times j w h)

-- The deletion of an item at `v`, or an item added since, is on record.
abbrev pub IsRemembered : List (String × ℕ) → String → ℕ → Type 0
IsRemembered times k v =
    IsSince v (get k times)
    ⊎ ((stripped : String) × (strip_del k ≡ some stripped) × IsSince v (get stripped times))

readded-IsSince : (v : ℕ) (o : Option ℕ) → readded o v ≡ true → IsSince v o
readded-IsSince v none h = absurd (ground arith)
readded-IsSince v (some t) h = leb→le v t h

keep_deletion-IsRemembered :
    (k stripped : String) (v : ℕ) (times : List (String × ℕ))
    → strip_del k ≡ some stripped
    → IsRemembered (keep_deletion k v times) k v
unfolding keep_deletion
keep_deletion-IsRemembered k stripped v times del =
    subst
      (λ o.
        IsRemembered
          (elim o [
            | none ↦ times
            | some s ↦ if readded (get s times) v then times else raise k v times
          ])
          k v)
      (sym del)
      (if_elim (λ ts. IsRemembered ts k v) (readded (get stripped times) v)
        (λ again. inr (stripped, del, readded-IsSince v (get stripped times) again))
        (λ gone. inl (raise-IsSince k v times)))

grown-IsRemembered :
    (times times' : List (String × ℕ)) (k : String) (v : ℕ)
    → IsGrown times times'
    → IsRemembered times k v
    → IsRemembered times' k v
grown-IsRemembered times times' k v grown (inl since) = inl (grown k v since)
grown-IsRemembered times times' k v grown (inr (stripped, del, since)) =
    inr (stripped, del, grown stripped v since)

-- Whether a time is recorded for a key.
abbrev pub IsRecorded : String → ℕ → List (String × ℕ) → Type 0
IsRecorded k v [] = ⊥
IsRecorded k v (e ∷ es) = ((e.0 ≡ k) × (e.1 ≡ v)) ⊎ IsRecorded k v es

keep_deletions-IsRemembered :
    (es times : List (String × ℕ)) (k stripped : String) (v : ℕ)
    → strip_del k ≡ some stripped
    → IsRecorded k v es
    → IsRemembered (keep_deletions es times) k v
unfolding keep_deletions
keep_deletions-IsRemembered [] times k stripped v del h = absurd h
keep_deletions-IsRemembered (e ∷ es) times k stripped v del (inl (same_key, same_time)) =
    let first : IsRemembered (keep_deletion e.0 e.1 times) k v =
      rw (same_key, same_time) (keep_deletion-IsRemembered k stripped v times del) in
    grown-IsRemembered _ _ k v (keep_deletions-IsGrown es (keep_deletion e.0 e.1 times)) first
keep_deletions-IsRemembered (e ∷ es) times k stripped v del (inr rest) =
    keep_deletions-IsRemembered es (keep_deletion e.0 e.1 times) k stripped v del rest

-- For each deletion of an item that either version of an entry recorded, the merged entry has a
-- deletion of it that is as recent, or a change of the item since. The versions are of one kind.
pub merge_entry_pair-deletions :
    (b64 : Bytes → String) (l i : VaultEntry) (merging : Merging VaultEntry)
    → merge_kinds b64 l i ≡ some merging
    → (k stripped : String) (v : ℕ) → strip_del k ≡ some stripped
    → IsRecorded k v ((meta_of l).field_times ++ (meta_of i).field_times)
    → IsRemembered (meta_of (merge_entry_pair b64 l i).entry).field_times k v
merge_entry_pair-deletions b64 l i merging same k stripped v del recorded =
    subst (λ meta. IsRemembered meta.field_times k v)
      (sym (merge_entry_pair-merged_meta b64 l i merging same))
      (keep_deletions-IsRemembered ((meta_of l).field_times ++ (meta_of i).field_times)
        (merging (start_of l i)).1.times k stripped v del recorded)
