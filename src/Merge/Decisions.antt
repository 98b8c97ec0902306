-- ===== src/Merge/Decisions.antt =====
-- The decision for one field: it does not depend on which device merges, and what it replaces is
-- reported.
use Prim.Native.Nat.{Ordering}
use Prim.Native.String.{compare}
use gabbro.Entry.{EntryMeta}
use gabbro.Merge.Deletions.{get-insert}
use gabbro.Prelude.{
  ◌≤◌, eq_of_some, eq_refl, sym, subst, ◌∙◌, ◌⊎◌, inl, inr, String, text_turned, Bool, Option,
  arith, false, if◌then◌else◌, none, some, true, ℕ, ◌||◌, ◌≡◌, List, [], eq_iff, if_elim, refl,
  str_eq, ◌++◌, ◌∷◌, ◌≢◌,
}
use gabbro.Merge.{
  after, decide_field, Side, local, incoming, decide_edited, merged_stamp, FieldMerger, Merging,
  keep_stamp, note_decision, pick_str, record_brought_over, insert, ◌>>=◌, decide, get, return,
  chosen, ◌>>◌,
}

abbrev pub other : Side → Side
other local = incoming
other incoming = local

after_both : (a b : String) → after a b ≡ true → after b a ≡ false
after_both a b h = ground (arith, text_turned a b)

-- The device that has the two versions the other way round decides for the same version, or keeps
-- its own where the values are equal or clash; it reports the same clashes and keeps the same
-- edit time.
decide_field_swap :
    (lt it : Option ℕ) (lu iu : String) (equal : Bool)
    → decide_field it lt iu lu equal ≡ (
        let (side, stamp, clash) = decide_field lt it lu iu equal in
        (if equal || clash then local else other side, stamp, clash))
unfolding decide_field decide_edited merged_stamp
decide_field_swap (some l) (some i) lu iu equal = ground arith
decide_field_swap (some l) none lu iu equal = ground arith
decide_field_swap none (some i) lu iu equal = ground arith
decide_field_swap none none lu iu equal = ground (arith, after_both lu iu, after_both iu lu)

-- A version is ahead of another in a field: it alone records an edit of the field, or neither does and
-- it was changed later as a whole.
pub data IsAhead (key : String) (a b : EntryMeta) : Type 0 where
  edited : (t : ℕ) → get key a.field_times ≡ some t → get key b.field_times ≡ none → IsAhead key a b
  later :
      get key a.field_times ≡ none
      → get key b.field_times ≡ none
      → compare a.updated_at b.updated_at ≡ Ordering.gt
      → IsAhead key a b

-- The later of the edits that the two versions record of the field.
pub record IsLatest (key : String) (m : FieldMerger) (u : ℕ) : Type 0 where
  pub of_one : (get key m.lm.field_times ≡ some u) ⊎ (get key m.im.field_times ≡ some u)
  pub of_local : (t : ℕ) → get key m.lm.field_times ≡ some t → t ≤ u
  pub of_incoming : (t : ℕ) → get key m.im.field_times ≡ some t → t ≤ u

-- The edit times after the field: the later edit of it, if there is one, and all else as before.
pub record IsTimed (key : String) (m : FieldMerger) (times : List (String × ℕ)) : Type 0 where
  pub at_latest : (u : ℕ) → IsLatest key m u → get key times ≡ some u
  pub unedited :
      get key m.lm.field_times ≡ none
      → get key m.im.field_times ≡ none
      → get key times ≡ get key m.times
  pub others : (j : String) → key ≢ j → get j times ≡ get j m.times

-- What the merge of one text field comes to.
pub data PickOutcome (key l i : String) (m : FieldMerger) : String → FieldMerger → Type 0 where
  -- one value, and nothing to report
  agreed :
      (times : List (String × ℕ))
      → IsTimed key m times
      → l ≡ i
      → PickOutcome key l i m l (record m { times = times })
  -- the local value, which the incoming version is behind
  kept :
      (times : List (String × ℕ))
      → IsTimed key m times
      → l ≢ i
      → IsAhead key m.lm m.im
      → PickOutcome key l i m l (record m { times = times })
  -- neither is ahead: the local value, until the user has chosen
  clashed :
      (times : List (String × ℕ))
      → IsTimed key m times
      → l ≢ i
      → ¬ IsAhead key m.lm m.im
      → ¬ IsAhead key m.im m.lm
      → PickOutcome key l i m l (record m {
        times = times;
        conflicts =
            m.conflicts
            ++ record {
              id = m.id;
              title = m.title;
              field = key;
              local_value = l;
              incoming_value = i;
            }
              ∷ [];
      })
  -- the incoming value, which the local version is behind, and both are reported
  taken :
      (times : List (String × ℕ))
      → IsTimed key m times
      → l ≢ i
      → IsAhead key m.im m.lm
      → PickOutcome key l i m i (record m {
        times = times;
        brought_over =
            m.brought_over
            ++ record { id = m.id; title = m.title; field = key; old_value = l; new_value = i }
              ∷ [];
      })

stamped : String → Option ℕ → FieldMerger → List (String × ℕ)
stamped key none m = m.times
stamped key (some t) m = insert key t m.times

keep_stamp_lem :
    (key : String) (stamp : Option ℕ) (m : FieldMerger)
    → keep_stamp key stamp m ≡ (tt, record m { times = stamped key stamp m })
unfolding keep_stamp stamped
keep_stamp_lem key none m = refl
keep_stamp_lem key (some t) m = refl

after-gt : (a b : String) → after a b ≡ true → compare a b ≡ Ordering.gt
after-gt a b h = ground arith

gt-after : (a b : String) → compare a b ≡ Ordering.gt → after a b ≡ true
gt-after a b h = ground arith

-- The decisions that are possible, by whether the values are equal.
abbrev IsDecision : String → EntryMeta → EntryMeta → Bool → Side × Option ℕ × Bool → Type 0
IsDecision key lm im equal (local, stamp, true) =
    (equal ≡ false) × ¬ IsAhead key lm im × ¬ IsAhead key im lm
IsDecision key lm im equal (local, stamp, false) =
    (equal ≡ true) ⊎ ((equal ≡ false) × IsAhead key lm im)
IsDecision key lm im equal (incoming, stamp, clash) =
    (clash ≡ false) × (equal ≡ false) × IsAhead key im lm

-- A version whose field the other edited too is not ahead, nor one that another is later than.
edited_too :
    (key : String) (a b : EntryMeta) (t : ℕ) → get key b.field_times ≡ some t → ¬ IsAhead key a b
edited_too key a b t h (edited u has lacks) = cc
edited_too key a b t h (later lacks lacks_too c) = cc

not_later :
    (key : String) (a b : EntryMeta)
    → get key a.field_times ≡ none
    → after a.updated_at b.updated_at ≡ false
    → ¬ IsAhead key a b
not_later key a b h behind (edited u has lacks) = cc
not_later key a b h behind (later lacks lacks_too c) =
    cc (gt-after a.updated_at b.updated_at c, behind)

decide_field-IsDecision :
    (key : String) (lm im : EntryMeta) (lt it : Option ℕ) (equal : Bool)
    → get key lm.field_times ≡ lt
    → get key im.field_times ≡ it
    → IsDecision key lm im equal (decide_field lt it lm.updated_at im.updated_at equal)
unfolding decide_field decide_edited merged_stamp
decide_field-IsDecision key lm im lt it true hl hi = inl refl
decide_field-IsDecision key lm im (some l) (some i) false hl hi =
    (refl, edited_too key lm im i hi, edited_too key im lm l hl)
decide_field-IsDecision key lm im (some l) none false hl hi = inr (refl, edited l hl hi)
decide_field-IsDecision key lm im none (some i) false hl hi = (refl, refl, edited i hi hl)
decide_field-IsDecision key lm im none none false hl hi =
    if_elim (IsDecision key lm im false) (after im.updated_at lm.updated_at)
      (λ newer. (refl, refl, later hi hl (after-gt im.updated_at lm.updated_at newer)))
      (λ no_newer.
        if_elim (IsDecision key lm im false) (after lm.updated_at im.updated_at)
          (λ older. inr (refl, later hl hi (after-gt lm.updated_at im.updated_at older)))
          (λ no_older. (refl, not_later key lm im hl no_older, not_later key im lm hi no_newer)))

latest_stamp :
    (lt it : Option ℕ) (u : ℕ)
    → (lt ≡ some u) ⊎ (it ≡ some u)
    → ((t : ℕ) → lt ≡ some t → t ≤ u)
    → ((t : ℕ) → it ≡ some t → t ≤ u)
    → merged_stamp lt it ≡ some u
unfolding merged_stamp
latest_stamp (some l) (some i) u of_one hl hi =
    let low = hl l refl in
    let low_too = hi i refl in
    elim of_one [ inl e ↦ ground (arith, eq_of_some e) | inr e ↦ ground (arith, eq_of_some e) ]
latest_stamp (some l) none u (inl e) hl hi = e
latest_stamp (some l) none u (inr e) hl hi = cc
latest_stamp none it u (inl e) hl hi = cc
latest_stamp none it u (inr e) hl hi = e

no_stamp : (lt it : Option ℕ) → lt ≡ none → it ≡ none → merged_stamp lt it ≡ none
unfolding merged_stamp
no_stamp lt it hl hi = rw (hl, hi) refl

get-stamped_key :
    (key : String) (u : ℕ) (m : FieldMerger) → get key (stamped key (some u) m) ≡ some u
unfolding stamped
get-stamped_key key u m = rw (get-insert key key u m.times, eq_refl key) refl

get-stamped_other :
    (key : String) (stamp : Option ℕ) (m : FieldMerger) (j : String)
    → key ≢ j
    → get j (stamped key stamp m) ≡ get j m.times
unfolding stamped
get-stamped_other key none m j ne = refl
get-stamped_other key (some t) m j ne = get-insert j key t m.times ∙ ground (arith, eq_iff key j)

stamped-IsTimed :
    (key : String) (stamp : Option ℕ) (m : FieldMerger)
    → stamp ≡ merged_stamp (get key m.lm.field_times) (get key m.im.field_times)
    → IsTimed key m (stamped key stamp m)
stamped-IsTimed key stamp m same = record {
  at_latest = λ u h.
      subst (λ (x : Option ℕ). get key (stamped key x m) ≡ some u)
        (sym (same ∙ latest_stamp _ _ u h.of_one h.of_local h.of_incoming))
        (get-stamped_key key u m);
  unedited = λ hl hi.
      subst (λ (x : Option ℕ). get key (stamped key x m) ≡ get key m.times)
        (sym (same ∙ no_stamp _ _ hl hi)) (unfold stamped in refl);
  others = λ j ne. get-stamped_other key stamp m j ne;
}

decide_field-stamp :
    (lt it : Option ℕ) (lu iu : String) (equal : Bool)
    → (decide_field lt it lu iu equal).1 ≡ merged_stamp lt it
unfolding decide_field decide_edited merged_stamp
decide_field-stamp (some l) (some i) lu iu equal = ground arith
decide_field-stamp (some l) none lu iu equal = ground arith
decide_field-stamp none (some i) lu iu equal = ground arith
decide_field-stamp none none lu iu equal = ground arith

decided : String → String → String → Side × Option ℕ × Bool → Merging String
unfolding ◌>>=◌ keep_stamp note_decision
decided key l i (side, stamp, clash) = do
  keep_stamp key stamp
  note_decision key l i side clash
  return (chosen side l i)

decided-PickOutcome :
    (key l i : String) (d : Side × Option ℕ × Bool) (m : FieldMerger)
    → IsDecision key m.lm m.im (str_eq l i) d
    → d.1 ≡ merged_stamp (get key m.lm.field_times) (get key m.im.field_times)
    → PickOutcome key l i m (decided key l i d m).0 (decided key l i d m).1
unfolding decided ◌>>=◌ note_decision record_brought_over
decided-PickOutcome key l i (local, stamp, true) m (ne, behind, before) st =
    rw (keep_stamp_lem key stamp m)
      (clashed _ (stamped-IsTimed key stamp m st) (ground (arith, eq_iff l i)) behind before)
decided-PickOutcome key l i (local, stamp, false) m (inl same) st =
    rw (keep_stamp_lem key stamp m)
      (agreed _ (stamped-IsTimed key stamp m st) (ground (arith, eq_iff l i)))
decided-PickOutcome key l i (local, stamp, false) m (inr (ne, ahead)) st =
    rw (keep_stamp_lem key stamp m)
      (kept _ (stamped-IsTimed key stamp m st) (ground (arith, eq_iff l i)) ahead)
decided-PickOutcome key l i (incoming, stamp, true) m (no_clash, ne, ahead) st = absurd (cc)
decided-PickOutcome key l i (incoming, stamp, false) m (no_clash, ne, ahead) st =
    rw (keep_stamp_lem key stamp m)
      (taken _ (stamped-IsTimed key stamp m st) (ground (arith, eq_iff l i)) ahead)

-- Where the two values of a text field are equal there is nothing to report. Where they differ, the
-- merged entry has the value of the version that is ahead in the field: the one that alone was edited,
-- or, if neither was, the one changed later. An incoming value that replaces the local one is reported
-- as brought over, with both values. Where neither version is ahead the local value stays, and a clash
-- is reported. The edit time of the field becomes the later one of the two versions, if one records any;
-- nothing else of the merger changes.
pub pick_str-PickOutcome :
    (key l i : String) (m : FieldMerger)
    → PickOutcome key l i m (pick_str key l i m).0 (pick_str key l i m).1
unfolding pick_str decide ◌>>=◌ decided
pick_str-PickOutcome key l i m =
    decided-PickOutcome key l i _ m
      (decide_field-IsDecision key m.lm m.im _ _ (str_eq l i) refl refl)
      (decide_field-stamp (get key m.lm.field_times) (get key m.im.field_times) m.lm.updated_at
        m.im.updated_at (str_eq l i))
