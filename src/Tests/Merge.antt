-- ===== src/Tests/Merge.antt =====
-- The merge of two versions of a note, edited on two devices.
use gabbro.Merge.{Merging, ◌>>=◌, return, new_merger, pick_str}
use gabbro.Prelude.{All, List, String, [], false, inl, inr, none, refl, some, true, ◌||◌, ◌∷◌, ◌≡◌}
use gabbro.Bytes.{Bytes}
use gabbro.Entry.{CustomField, EntryMeta, HistoryRecord, NoteEntry, VaultEntry, meta_of, note}
use gabbro.Session.Folders.Laws.{IsDistinct}
use gabbro.Merge.Kept.{IsItemOf, merge_items_lem, ids}
use gabbro.Merge.Deletions.{IsRemembered, merge_entry_pair-deletions}
use gabbro.Merge.Decisions.{PickOutcome, pick_str-PickOutcome}
use gabbro.Merge.Items.{custom_kind, merge_items, bool_eq}
use gabbro.Merge.Finish.{has_record, strip_del}
use gabbro.Merge.Pair.{merge_entry_pair, merge_kinds, merge_note, entry_display_title}
use gabbro.Merge.History.{merge_entry_pair-history}
use gabbro.Session.{contains}

abbrev b64 : Bytes → String
b64 bs = "bytes"

abbrev old_secret : HistoryRecord
old_secret = record {
  field = "content";
  value = "first";
  saved_at = "2025-01-01";
  expires_at = none;
}

abbrev meta_a : EntryMeta
meta_a = record {
  id = "n";
  created_at = "2025-01-01";
  updated_at = "2025-02-01";
  folder = "";
  field_times = ("content", 5) ∷ ("del:custom_fields:pin", 9) ∷ [];
  history = [];
}

abbrev meta_b : EntryMeta
meta_b = record {
  id = "n";
  created_at = "2025-01-01";
  updated_at = "2025-03-01";
  folder = "";
  field_times = ("title", 7) ∷ [];
  history = old_secret ∷ [];
}

abbrev pin : CustomField
pin = record { label = "pin"; value = "1"; hidden = true }

abbrev puk : CustomField
puk = record { label = "puk"; value = "2"; hidden = false }

abbrev note_a : NoteEntry
note_a = record {
  meta = meta_a;
  title = "bank";
  content = "second";
  custom_fields = puk ∷ [];
  attachments = [];
}

abbrev note_b : NoteEntry
note_b = record {
  meta = meta_b;
  title = "my bank";
  content = "first";
  custom_fields = pin ∷ puk ∷ [];
  attachments = [];
}

abbrev merging : Merging VaultEntry
merging = merge_note note_a note_b >>= λ e. return (note e)

both_notes : merge_kinds b64 (note note_a) (note note_b) ≡ some merging
unfolding merge_kinds
both_notes = refl

-- The edited fields of both come together, and the deleted field is asked about.
merge_run :
    (merge_entry_pair b64 (note note_a) (note note_b)).pending
    ≡ record { id = "n"; title = "bank"; field = "custom_fields:pin"; label = "pin" } ∷ []
unfolding merge_entry_pair merge_kinds merge_note bool_eq entry_display_title
merge_run = refl

pick_str-PickOutcome_example :
    PickOutcome "title" "bank" "my bank"
      (new_merger meta_a meta_b "bank")
      (pick_str "title" "bank" "my bank" (new_merger meta_a meta_b "bank")).0
      (pick_str "title" "bank" "my bank" (new_merger meta_a meta_b "bank")).1
pick_str-PickOutcome_example =
    pick_str-PickOutcome "title" "bank" "my bank" (new_merger meta_a meta_b "bank")

abbrev merged_fields : List CustomField
merged_fields =
    (merge_items custom_kind (puk ∷ []) (pin ∷ puk ∷ []) (new_merger meta_a meta_b "bank")).0

merge_items_example :
    IsDistinct (ids custom_kind merged_fields)
    × ((k : String)
        → contains k (ids custom_kind merged_fields) ≡ (
            contains k (ids custom_kind (puk ∷ []))
            || contains k (ids custom_kind (pin ∷ puk ∷ []))))
    × All (IsItemOf custom_kind (puk ∷ []) (pin ∷ puk ∷ [])) merged_fields
merge_items_example =
    merge_items_lem custom_kind (puk ∷ []) (pin ∷ puk ∷ []) (new_merger meta_a meta_b "bank")

merge_entry_pair-history_example :
    has_record old_secret (meta_of (merge_entry_pair b64 (note note_a) (note note_b)).entry).history
    ≡ (has_record old_secret [] || has_record old_secret (old_secret ∷ []))
merge_entry_pair-history_example =
    merge_entry_pair-history b64 (note note_a) (note note_b) merging both_notes old_secret

pin_stripped : strip_del "del:custom_fields:pin" ≡ some "custom_fields:pin"
unfolding strip_del
pin_stripped = refl

merge_entry_pair-deletions_example :
    IsRemembered
      (meta_of (merge_entry_pair b64 (note note_a) (note note_b)).entry).field_times
      "del:custom_fields:pin"
      9
merge_entry_pair-deletions_example =
    merge_entry_pair-deletions b64 (note note_a) (note note_b) merging both_notes
      "del:custom_fields:pin" "custom_fields:pin" 9 pin_stripped (inr (inl (refl, refl)))
