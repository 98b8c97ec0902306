-- ===== src/Entry/History.antt =====
-- `EntryMeta::record_previous`: one previous value for each field.
use gabbro.Prelude.{
  Option, List, String, [], arith, eq_iff, if_elim, if◌then◌else◌, none, refl, some, str_eq, ◌∷◌,
  ◌≡◌,
}
use gabbro.Entry.{EntryMeta, HistoryRecord}

-- `find(|h| h.field == field)`
unfoldable pub find_field : String → List HistoryRecord → Option HistoryRecord
find_field field [] = none
find_field field (h ∷ hs) = if str_eq h.field field then some h else find_field field hs

-- The first record of the field is overwritten; without one the new record is pushed.
unfoldable pub set_previous : HistoryRecord → List HistoryRecord → List HistoryRecord
set_previous r [] = r ∷ []
set_previous r (h ∷ hs) = if str_eq h.field r.field then r ∷ hs else h ∷ set_previous r hs

unfoldable pub record_previous : String → String → String → Option String → EntryMeta → EntryMeta
unfolding set_previous
record_previous field value saved_at expires_at m = record m {
  history =
      set_previous
        (record { field = field; value = value; saved_at = saved_at; expires_at = expires_at })
        m.history;
}

-- At most one record for each field.
abbrev pub IsOnePerField : List HistoryRecord → Type 0
IsOnePerField [] = Unit
IsOnePerField (h ∷ hs) = (find_field h.field hs ≡ none) × IsOnePerField hs

pub find_field-set_previous :
    (r : HistoryRecord) (field : String) (hs : List HistoryRecord)
    → find_field field (set_previous r hs)
      ≡ (if str_eq r.field field then some r else find_field field hs)
unfolding find_field set_previous
find_field-set_previous r field [] = refl
find_field-set_previous r field (h ∷ hs) = ground (
  arith,
  eq_iff r.field field,
  eq_iff h.field field,
  eq_iff h.field r.field,
  find_field-set_previous r field hs,
)

set_previous-IsOnePerField :
    (r : HistoryRecord) (hs : List HistoryRecord)
    → IsOnePerField hs
    → IsOnePerField (set_previous r hs)
unfolding find_field set_previous
set_previous-IsOnePerField r [] h = (refl, tt)
set_previous-IsOnePerField r (x ∷ hs) h =
    if_elim IsOnePerField (str_eq x.field r.field)
      (λ same. (ground (arith, eq_iff x.field r.field), h.1))
      (λ other. (
        ground (
          arith,
          eq_iff r.field x.field,
          eq_iff x.field r.field,
          find_field-set_previous r x.field hs,
        ),
        set_previous-IsOnePerField r hs h.1,
      ))

-- After `record_previous` the field's record holds the given value, the records of all other
-- fields are as before, no field has two records if none had, and the other metadata is unchanged.
pub record_previous_lem :
    (field value saved_at : String) (expires_at : Option String) (m : EntryMeta)
    → IsOnePerField m.history
    → IsOnePerField (record_previous field value saved_at expires_at m).history
      × ((g : String)
          → find_field g (record_previous field value saved_at expires_at m).history ≡ (
              if str_eq field g
              then some (record {
                field = field;
                value = value;
                saved_at = saved_at;
                expires_at = expires_at;
              })
              else find_field g m.history))
      × (record (record_previous field value saved_at expires_at m) { history = m.history } ≡ m)
unfolding record_previous
record_previous_lem field value saved_at expires_at m h =
    (set_previous-IsOnePerField _ m.history h, λ g. find_field-set_previous _ g m.history, refl)
