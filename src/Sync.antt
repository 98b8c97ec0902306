-- ===== src/Sync.antt =====
-- The sync of two vaults (vault/session.rs): `do_merge` joins an incoming vault into the session and
-- collects what the user has to decide. A `HashMap` is used only through its keys, or as the list of
-- its last values; the order of the merged tombstones, that of a `HashMap`, is not fixed by Rust.
pub mod Equality
pub mod Review
pub mod Calls
pub mod Cancel
pub mod Complete
use gabbro.Session.{contains, find_entry, DeletedEntry, VaultBody, VaultSession}
use gabbro.Merge.{BroughtOverItem, FieldConflictItem, PendingItemDeleteItem, after}
use gabbro.Bytes.{Bytes}
use gabbro.Prelude.{
  List, Option, String, [], if◌then◌else◌, length, map, none, some, str_eq, ℕ, ◌%◌, ◌++◌, ◌+◌, ◌^◌,
  ◌∷◌,
}
use gabbro.Merge.Pair.{MergedPair, entry_display_title, merge_entry_pair}
use gabbro.Entry.{VaultEntry, entry_id, meta_of}
use gabbro.Sync.Equality.{entry_eq}

pub record PendingDeleteItem : Type 0 where
  pub id : String
  pub title : String

pub record FolderConflictItem : Type 0 where
  pub id : String
  pub title : String
  pub local_folder : String
  pub incoming_folder : String

pub record AddedEntryItem : Type 0 where
  pub id : String
  pub title : String

pub record MergeSummary : Type 0 where
  pub added : ℕ
  pub updated : ℕ
  pub added_entries : List AddedEntryItem
  pub brought_over : List BroughtOverItem
  pub pending_deletes : List PendingDeleteItem
  pub folder_conflicts : List FolderConflictItem
  pub field_conflicts : List FieldConflictItem
  pub pending_item_deletes : List PendingItemDeleteItem

abbrev pub empty_summary : MergeSummary
empty_summary = record {
  added = 0;
  updated = 0;
  added_entries = [];
  brought_over = [];
  pending_deletes = [];
  folder_conflicts = [];
  field_conflicts = [];
  pending_item_deletes = [];
}

-- A `HashMap` of the entries by id: of two with one id the last is found.
unfoldable pub last_entry : String → List VaultEntry → Option VaultEntry
last_entry id [] = none
last_entry id (e ∷ es) = elim (last_entry id es) [
  | some x ↦ some x
  | none ↦ if str_eq (entry_id e) id then some e else none
]

-- The folder of an entry that both have.
unfoldable pub note_folders : VaultEntry → VaultEntry → MergeSummary → MergeSummary
unfolding entry_display_title
note_folders l i s = if str_eq (meta_of l).folder (meta_of i).folder then s else record s {
  folder_conflicts =
      s.folder_conflicts
      ++ record {
        id = entry_id l;
        title = entry_display_title l;
        local_folder = (meta_of l).folder;
        incoming_folder = (meta_of i).folder;
      }
        ∷ [];
}

unfoldable pub note_pair : VaultEntry → MergedPair → MergeSummary → MergeSummary
unfolding entry_eq
note_pair l p s = record s {
  updated = if entry_eq p.entry l then s.updated else (s.updated + 1) % 2 ^ 32;
  field_conflicts = s.field_conflicts ++ p.conflicts;
  pending_item_deletes = s.pending_item_deletes ++ p.pending;
  brought_over = s.brought_over ++ p.brought_over;
}

unfoldable pub note_tombstone : VaultEntry → List DeletedEntry → MergeSummary → MergeSummary
unfolding contains entry_display_title
note_tombstone l deleted s =
    if contains (entry_id l) (map (λ d. d.id) deleted)
    then record s {
      pending_deletes =
          s.pending_deletes ++ record { id = entry_id l; title = entry_display_title l } ∷ [];
    }
    else s

-- One round of the loop over the local entries: the entry that is kept, and what there is to report.
unfoldable pub merge_local :
    (Bytes → String) → VaultBody → VaultEntry → MergeSummary → VaultEntry × MergeSummary
unfolding last_entry note_folders note_pair note_tombstone
merge_local b64 incoming l s = elim (last_entry (entry_id l) incoming.entries) [
  | some i ↦ let p = merge_entry_pair b64 l i in (p.entry, note_pair l p (note_folders l i s))
  | none ↦ (l, note_tombstone l incoming.deleted_ids s)
]

unfoldable pub merge_locals :
    (Bytes → String) → VaultBody → List VaultEntry → MergeSummary → List VaultEntry × MergeSummary
unfolding merge_local
merge_locals b64 incoming [] s = ([], s)
merge_locals b64 incoming (l ∷ ls) s =
    let (e, s') = merge_local b64 incoming l s in
    let (es, s'') = merge_locals b64 incoming ls s' in (e ∷ es, s'')

-- The loop over the incoming entries: those that are not there are added.
unfoldable pub add_new : List String → List VaultEntry → List VaultEntry
unfolding contains
add_new local_ids [] = []
add_new local_ids (i ∷ is) =
    let rest = add_new local_ids is in if contains (entry_id i) local_ids then rest else i ∷ rest

unfoldable pub note_added : List VaultEntry → MergeSummary → MergeSummary
unfolding entry_display_title
note_added new s = record s {
  added = (s.added + length new) % 2 ^ 32;
  added_entries =
      s.added_entries ++ map (λ e. record { id = entry_id e; title = entry_display_title e }) new;
}

unfoldable pub merge_folders : List String → List String → List String
unfolding contains
merge_folders folders [] = folders
merge_folders folders (f ∷ fs) =
    merge_folders (if contains f folders then folders else folders ++ f ∷ []) fs

-- `HashMap::insert`, and `entry(id).or_insert(at)` raised to the later time
unfoldable pub put_time :
    (String → String → String) → DeletedEntry → List DeletedEntry → List DeletedEntry
put_time pick d [] = d ∷ []
put_time pick d (x ∷ xs) =
    if str_eq x.id d.id
    then record x { deleted_at = pick x.deleted_at d.deleted_at } ∷ xs
    else x ∷ put_time pick d xs

unfoldable pub put_times :
    (String → String → String) → List DeletedEntry → List DeletedEntry → List DeletedEntry
unfolding put_time
put_times pick [] m = m
put_times pick (d ∷ ds) m = put_times pick ds (put_time pick d m)

unfoldable pub merge_tombstones : List DeletedEntry → List DeletedEntry → List DeletedEntry
unfolding put_times
merge_tombstones ls is =
    put_times (λ old new. if after new old then new else old) is (put_times (λ old new. new) ls [])

unfoldable pub do_merge : (Bytes → String) → VaultSession → VaultBody → VaultSession × MergeSummary
unfolding merge_locals add_new note_added merge_folders merge_tombstones
do_merge b64 s incoming =
    let (kept, summary) = merge_locals b64 incoming s.entries empty_summary in
    let new = add_new (map entry_id s.entries) incoming.entries in
    (
      record s {
        entries = kept ++ new;
        folders = merge_folders s.folders incoming.folders;
        deleted_ids = merge_tombstones s.deleted_ids incoming.deleted_ids;
      },
      note_added new summary,
    )
