-- ===== src/Sync/Review.antt =====
-- What is applied to the joined vault: every decision for the incoming side (`do_fast_merge`), or the
-- user's decisions (`do_apply_sync_decisions`).
use Prim.Native.String.{◌++◌ as str_append}
use text.Mathlib.Text.{starts_with}
use gabbro.Prelude.{
  Bool, List, Option, Result, String, [], err, if◌then◌else◌, map, none, not, ok, panic, str_eq, ℕ,
  ◌&&◌, ◌++◌, ◌||◌, ◌∷◌,
}
use gabbro.Merge.{BroughtOverItem, FieldConflictItem, insert, forget}
use gabbro.Bytes.{Bytes}
use gabbro.Entry.{EntryMeta, VaultEntry, entry_id, with_meta, touched}
use gabbro.Sync.{MergeSummary, do_merge}
use gabbro.Session.{SessionError, VaultBody, VaultSession, folder_not_found, contains}
use gabbro.Session.Deletion.{delete_entry}
use gabbro.Edit.{drop_named, remove_entry_item_by_key, set_entry_field_by_key}
use gabbro.Entry.History.{record_previous}

-- The base64 crate's encoder and decoder.
pub record Base64 : Type 0 where
  pub encode : Bytes → String
  pub decode : String → Option Bytes

-- `if let Some(i) = find(session, id) { … session.entries[i] … }`
unfoldable pub modify_entry : String → (VaultEntry → VaultEntry) → List VaultEntry → List VaultEntry
modify_entry id f [] = []
modify_entry id f (e ∷ es) =
    let rest = modify_entry id f es in if str_eq (entry_id e) id then f e ∷ es else e ∷ rest

-- A loop over a list that changes the entries.
abbrev pub each :
    {A : Type 0}
    → (A → List VaultEntry → List VaultEntry)
    → List A
    → List VaultEntry
    → List VaultEntry
each step [] es = es
each step (x ∷ xs) es = each step xs (step x es)

abbrev pub stamp_field : String → ℕ → EntryMeta → EntryMeta
unfolding insert
stamp_field key now_ms m = record m { field_times = insert key now_ms m.field_times }

abbrev pub stamp_deleted : String → ℕ → EntryMeta → EntryMeta
unfolding insert forget
stamp_deleted key now_ms m = record m {
  field_times = forget key (insert (str_append "del:" key) now_ms m.field_times);
}

unfoldable pub keep_brought_over : String → BroughtOverItem → List VaultEntry → List VaultEntry
unfolding modify_entry record_previous
keep_brought_over now b es =
    if str_eq b.old_value "" || starts_with b.field "attachments:"
    then es
    else modify_entry b.id (with_meta (record_previous b.field b.old_value now none)) es

unfoldable pub take_incoming :
    Base64 → String → ℕ → FieldConflictItem → List VaultEntry → List VaultEntry
unfolding modify_entry set_entry_field_by_key record_previous
take_incoming b64 now now_ms c = modify_entry c.id (λ e.
    with_meta
      (λ m.
        touched now (stamp_field c.field now_ms (record_previous c.field c.local_value now none m)))
      (set_entry_field_by_key b64.decode c.field c.incoming_value e))

unfoldable pub take_folder : String → String → String → List VaultEntry → List VaultEntry
unfolding modify_entry
take_folder now id folder =
    modify_entry id (with_meta (λ m. touched now (record m { folder = folder })))

unfoldable pub delete_item : String → ℕ → String → String → List VaultEntry → List VaultEntry
unfolding modify_entry remove_entry_item_by_key
delete_item now now_ms id field = modify_entry id (λ e.
    with_meta (λ m. touched now (stamp_deleted field now_ms m)) (remove_entry_item_by_key field e))

unfoldable pub fast_entries : Base64 → String → ℕ → MergeSummary → List VaultEntry → List VaultEntry
unfolding keep_brought_over take_incoming take_folder delete_item drop_named
fast_entries b64 now now_ms s es =
    let brought = each (keep_brought_over now) s.brought_over es in
    let fields = each (take_incoming b64 now now_ms) s.field_conflicts brought in
    let folders = each (λ f. take_folder now f.id f.incoming_folder) s.folder_conflicts fields in
    let items = each (λ d. delete_item now now_ms d.id d.field) s.pending_item_deletes folders in
    each (λ d. drop_named entry_id d.id) s.pending_deletes items

unfoldable pub do_fast_merge :
    Base64 → String → ℕ → VaultSession → VaultBody → VaultSession × MergeSummary
unfolding do_merge fast_entries
do_fast_merge b64 now now_ms s incoming =
    let (s', summary) = do_merge b64.encode s incoming in
    (record s' { entries = fast_entries b64 now now_ms summary s'.entries }, summary)

-- The user's decisions.
pub record SyncFieldResolutionInput : Type 0 where
  pub id : String
  pub field : String
  pub keep_incoming : Bool
  pub value : String

pub record SyncHistoryReplacementInput : Type 0 where
  pub id : String
  pub field : String
  pub new_value : String
  pub replaced_value : String

pub record SyncItemDeleteInput : Type 0 where
  pub id : String
  pub field : String
  pub delete : Bool

pub record SyncFolderInput : Type 0 where
  pub id : String
  pub folder : String

pub record Decisions : Type 0 where
  pub field_resolutions : List SyncFieldResolutionInput
  pub history_replacements : List SyncHistoryReplacementInput
  pub item_deletes : List SyncItemDeleteInput
  pub folder_picks : List SyncFolderInput
  pub entry_deletes : List String

unfoldable pub resolve_field :
    Base64 → String → ℕ → SyncFieldResolutionInput → List VaultEntry → List VaultEntry
unfolding modify_entry set_entry_field_by_key
resolve_field b64 now now_ms f = modify_entry f.id (λ e.
    with_meta (λ m. touched now (stamp_field f.field now_ms m))
      (if f.keep_incoming then set_entry_field_by_key b64.decode f.field f.value e else e))

unfoldable pub replace_value :
    Base64 → String → ℕ → SyncHistoryReplacementInput → List VaultEntry → List VaultEntry
unfolding modify_entry set_entry_field_by_key record_previous
replace_value b64 now now_ms h = modify_entry h.id (λ e.
    with_meta
      (λ m.
        touched now
          (stamp_field h.field now_ms (record_previous h.field h.replaced_value now none m)))
      (set_entry_field_by_key b64.decode h.field h.new_value e))

unfoldable pub decide_item : String → ℕ → SyncItemDeleteInput → List VaultEntry → List VaultEntry
unfolding modify_entry delete_item
decide_item now now_ms d es =
    if d.delete
    then delete_item now now_ms d.id d.field es
    else modify_entry d.id (with_meta (λ m. touched now (stamp_field d.field now_ms m))) es

-- The picks before an unknown folder have been applied.
unfoldable pub pick_folders :
    String → List SyncFolderInput → VaultSession → VaultSession × Result SessionError (Unit {0})
unfolding contains take_folder
pick_folders now [] s = (s, ok tt)
pick_folders now (f ∷ fs) s =
    let rest =
      pick_folders now fs (record s { entries = take_folder now f.id f.folder s.entries }) in
    if not (str_eq f.folder "") && not (contains f.folder s.folders)
    then (s, err (folder_not_found f.folder))
    else rest

-- `delete_entry(…)?` and what follows it
abbrev pub on_deleted :
    VaultSession
    → (List VaultEntry → VaultSession × Result SessionError (Unit {0}))
    → Result SessionError (List VaultEntry)
    → VaultSession × Result SessionError (Unit {0})
on_deleted s k (ok es) = k es
on_deleted s k (err e) = (s, err e)
on_deleted s k panic = (s, panic)

unfoldable pub delete_entries :
    String → List String → VaultSession → VaultSession × Result SessionError (Unit {0})
unfolding contains delete_entry
delete_entries now [] s = (s, ok tt)
delete_entries now (id ∷ ids) s =
    let skipped = delete_entries now ids s in
    let deleted =
      on_deleted s
        (λ es. delete_entries now ids (record s {
          entries = es;
          deleted_ids = s.deleted_ids ++ record { id = id; deleted_at = now } ∷ [];
        }))
        (delete_entry id s.entries) in
    if contains id (map entry_id s.entries) then deleted else skipped

-- `?` after the folder picks
abbrev pub after_folders :
    String
    → List String
    → VaultSession × Result SessionError (Unit {0})
    → VaultSession × Result SessionError (Unit {0})
unfolding delete_entries
after_folders now ids (s, ok u) = delete_entries now ids s
after_folders now ids (s, err e) = (s, err e)
after_folders now ids (s, panic) = (s, panic)

-- The session, which an error leaves as far changed as the decisions before it went, and the result.
unfoldable pub do_apply_sync_decisions :
    Base64 → String → ℕ → Decisions → VaultSession → VaultSession × Result SessionError (Unit {0})
unfolding resolve_field replace_value decide_item pick_folders delete_entries
do_apply_sync_decisions b64 now now_ms d s =
    let fields = each (resolve_field b64 now now_ms) d.field_resolutions s.entries in
    let values = each (replace_value b64 now now_ms) d.history_replacements fields in
    let items = each (decide_item now now_ms) d.item_deletes values in
    after_folders now d.entry_deletes
      (pick_folders now d.folder_picks (record s { entries = items }))
