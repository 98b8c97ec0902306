-- ===== src/Merge/Kept.antt =====
-- No item is lost in a merge, and none appears twice or from nowhere.
use Prim.Native.String.{◌++◌ as str_append}
use gabbro.Merge.{◌>>=◌, Side, local, incoming, chosen, FieldMerger, decide}
use gabbro.Session.{contains}
use gabbro.Session.Folders.Laws.{IsDistinct}
use gabbro.Merge.Items.{ItemKind, find_last, merge_item, merge_items, merge_keys, unseen}
use gabbro.Prelude.{
  List, String, [], arith, eq_iff, false, map, none, refl, some, true, ◌||◌, ◌∷◌, ◌≡◌, ◌⊎◌, All,
  Option, ap, ap₂, eq_refl, if_elim, inl, inr, not, subst, sym, ◌&&◌, ◌++◌, ◌∙◌,
}

module _ {A : Type 0} (kind : ItemKind A) where
  abbrev pub ids : List A → List String
  ids = map kind.identity_of

  -- An item of one of the two versions, the last with its identity there.
  abbrev pub IsItemOf : List A → List A → A → Type 0
  IsItemOf ls is x =
      (find_last kind (kind.identity_of x) ls ≡ some x)
      ⊎ (find_last kind (kind.identity_of x) is ≡ some x)

  find_last-identity :
      (k : String) (xs : List A) (x : A) → find_last kind k xs ≡ some x → kind.identity_of x ≡ k
  unfolding find_last
  find_last-identity k [] x h = absurd (ground arith)
  find_last-identity k (y ∷ xs) x h =
      ground (arith, find_last-identity k xs x, eq_iff (kind.identity_of y) k)

  find_last-known :
      (k : String) (xs : List A) → find_last kind k xs ≡ none → contains k (ids xs) ≡ false
  unfolding find_last contains
  find_last-known k [] h = refl
  find_last-known k (y ∷ xs) h = ground (arith, find_last-known k xs)

  chosen_cases : (side : Side) (l i : A) → (chosen side l i ≡ l) ⊎ (chosen side l i ≡ i)
  chosen_cases local l i = inl refl
  chosen_cases incoming l i = inr refl

  -- One item comes out where there is one.
  merge_item_lem :
      (key : String) (lo io : Option A) (m : FieldMerger)
      → ¬ ((lo ≡ none) × (io ≡ none))
      → (x : A) × ((merge_item kind key lo io m).0 ≡ x ∷ []) × ((lo ≡ some x) ⊎ (io ≡ some x))
  unfolding merge_item ◌>>=◌
  merge_item_lem key (some l) (some i) m h =
      let side = (decide key (kind.same l i) (kind.shown l) (kind.shown i) m).0 in
      (
        chosen side l i,
        refl,
        elim (chosen_cases side l i) [
          | inl e ↦ inl (ap some (sym e))
          | inr e ↦ inr (ap some (sym e))
        ],
      )
  merge_item_lem key (some l) none m h = (l, refl, inl refl)
  merge_item_lem key none (some i) m h = (i, refl, inr refl)
  merge_item_lem key none none m h = absurd (h (refl, refl))

  item_of :
      (k : String) (ls is : List A) (x : A)
      → (find_last kind k ls ≡ some x) ⊎ (find_last kind k is ≡ some x)
      → (kind.identity_of x ≡ k) × IsItemOf ls is x
  item_of k ls is x (inl e) = let same = find_last-identity k ls x e in (same, inl (rw same e))
  item_of k ls is x (inr e) = let same = find_last-identity k is x e in (same, inr (rw same e))

  known_some :
      (k : String) (ls is : List A)
      → (contains k (ids ls) || contains k (ids is)) ≡ true
      → ¬ ((find_last kind k ls ≡ none) × (find_last kind k is ≡ none))
  known_some k ls is h none_found =
      ground (arith, find_last-known k ls none_found.0, find_last-known k is none_found.1)

  merge_keys_lem :
      (ks : List String) (ls is : List A) (m : FieldMerger)
      → All (λ k. (contains k (ids ls) || contains k (ids is)) ≡ true) ks
      → (ids (merge_keys kind ks ls is m).0 ≡ ks)
        × All (IsItemOf ls is) (merge_keys kind ks ls is m).0
  unfolding merge_keys ◌>>=◌
  merge_keys_lem [] ls is m h = (refl, tt)
  merge_keys_lem (k ∷ ks) ls is m h =
      let key = str_append kind.prefix k in
      let m' = (merge_item kind key (find_last kind k ls) (find_last kind k is) m).1 in
      let (x, one, from) =
        merge_item_lem key (find_last kind k ls) (find_last kind k is) m (known_some k ls is h.0) in
      let (same, item) = item_of k ls is x from in
      let (rest_ids, rest_items) = merge_keys_lem ks ls is m' h.1 in
      rw one (ap₂ ◌∷◌ same rest_ids, (item, rest_items))

  contains-ids :
      (k : String) (ls is : List A)
      → contains k (ids (ls ++ is)) ≡ (contains k (ids ls) || contains k (ids is))
  unfolding contains
  contains-ids k [] is = refl
  contains-ids k (l ∷ ls) is = ground (arith, contains-ids k ls is)

  contains-unseen :
      (k : String) (seen : List String) (xs : List A)
      → contains k (unseen kind seen xs) ≡ (contains k (ids xs) && not (contains k seen))
  unfolding unseen contains
  contains-unseen k seen [] = refl
  contains-unseen k seen (x ∷ xs) =
      let y = kind.identity_of x in
      ground (arith, eq_iff y k, contains-unseen k seen xs, contains-unseen k (y ∷ seen) xs)

  unseen-IsDistinct : (seen : List String) (xs : List A) → IsDistinct (unseen kind seen xs)
  unfolding unseen contains
  unseen-IsDistinct seen [] = tt
  unseen-IsDistinct seen (x ∷ xs) =
      let y = kind.identity_of x in
      if_elim IsDistinct (contains y seen) (λ old. unseen-IsDistinct seen xs)
        (λ fresh. (
          ground (arith, contains-unseen y (y ∷ seen) xs, eq_refl y),
          unseen-IsDistinct (y ∷ seen) xs,
        ))

All-of_contains :
    (P : String → Type 0) (ks : List String)
    → ((k : String) → contains k ks ≡ true → P k)
    → All P ks
unfolding contains
All-of_contains P [] h = tt
All-of_contains P (k ∷ ks) h =
    (h k (ground (arith, eq_refl k)), All-of_contains P ks (λ j e. h j (ground arith)))

module _ {A : Type 0} (kind : ItemKind A) where
  -- Merging two lists of items gives each identity of either list once, and no other, each with an
  -- item that one of the lists has under it.
  pub merge_items_lem :
      (ls is : List A) (m : FieldMerger)
      → IsDistinct (ids kind (merge_items kind ls is m).0)
        × ((k : String)
            → contains k (ids kind (merge_items kind ls is m).0)
              ≡ (contains k (ids kind ls) || contains k (ids kind is)))
        × All (IsItemOf kind ls is) (merge_items kind ls is m).0
  unfolding merge_items contains
  merge_items_lem ls is m =
      let keys = unseen kind [] (ls ++ is) in
      let same_keys : (k : String)
          → contains k keys ≡ (contains k (ids kind ls) || contains k (ids kind is)) =
        (λ k. ground (arith, contains-unseen kind k [] (ls ++ is), contains-ids kind k ls is)) in
      let (all_ids, items) =
        merge_keys_lem kind keys ls is m (All-of_contains _ keys (λ k e. sym (same_keys k) ∙ e)) in
      (
        subst IsDistinct (sym all_ids) (unseen-IsDistinct kind [] (ls ++ is)),
        (λ k. ap (contains k) all_ids ∙ same_keys k),
        items,
      )
