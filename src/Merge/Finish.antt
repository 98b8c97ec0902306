-- ===== src/Merge/Finish.antt =====
-- The end of `merge_entry_pair`: the deletion stamps and the history of both versions.
use Prim.Native.Nat.{max}
use gabbro.Merge.{get, insert, after, opt_eq, FieldMerger}
use gabbro.Prelude.{
  Bool, List, Option, String, [], false, if◌then◌else◌, leb, none, some, str_eq, true, ℕ, ◌&&◌,
  ◌++◌, ◌∷◌, strip_prefix,
}
use gabbro.Entry.{EntryMeta, HistoryRecord}

-- `k.strip_prefix("del:")`
unfoldable pub strip_del : String → Option String
strip_del = strip_prefix "del:"

-- `times.contains_key(stripped) && times.get(stripped) >= Some(v)`
abbrev pub readded : Option ℕ → ℕ → Bool
readded none v = false
readded (some t) v = leb v t

-- `times.entry(k).or_insert(v)`, raised to `v`
unfoldable pub raise : String → ℕ → List (String × ℕ) → List (String × ℕ)
unfolding get insert
raise k v times = elim (get k times) [ none ↦ insert k v times | some e ↦ insert k (max e v) times ]

unfoldable pub keep_deletion : String → ℕ → List (String × ℕ) → List (String × ℕ)
unfolding strip_del raise get
keep_deletion k v times = elim (strip_del k) [
  | none ↦ times
  | some stripped ↦ if readded (get stripped times) v then times else raise k v times
]

unfoldable pub keep_deletions : List (String × ℕ) → List (String × ℕ) → List (String × ℕ)
unfolding keep_deletion
keep_deletions [] times = times
keep_deletions (e ∷ es) times = keep_deletions es (keep_deletion e.0 e.1 times)

unfoldable pub record_eq : HistoryRecord → HistoryRecord → Bool
unfolding opt_eq
record_eq a b =
    str_eq a.field b.field
    && str_eq a.value b.value
    && str_eq a.saved_at b.saved_at
    && opt_eq a.expires_at b.expires_at

-- `history.contains(h)`
unfoldable pub has_record : HistoryRecord → List HistoryRecord → Bool
unfolding record_eq
has_record h [] = false
has_record h (x ∷ xs) = if record_eq x h then true else has_record h xs

unfoldable pub union_history : List HistoryRecord → List HistoryRecord → List HistoryRecord
unfolding has_record
union_history history [] = history
union_history history (h ∷ hs) =
    union_history (if has_record h history then history else history ++ h ∷ []) hs

-- `std::cmp::max` of the two times of change
abbrev pub later : String → String → String
later l i = if after l i then l else i

-- The merged entry and the merger that decided its fields, with the metadata filled in.
unfoldable pub finish_meta : FieldMerger → EntryMeta → EntryMeta
unfolding keep_deletions union_history
finish_meta m meta = record meta {
  updated_at = later m.lm.updated_at m.im.updated_at;
  field_times = keep_deletions (m.lm.field_times ++ m.im.field_times) m.times;
  history = union_history m.lm.history m.im.history;
}
