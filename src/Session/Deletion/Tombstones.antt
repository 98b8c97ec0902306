-- ===== src/Session/Deletion/Tombstones.antt =====
-- A deleted entry is gone and leaves a tombstone; nothing else changes.
use gabbro.Prelude.{
  List, String, [], arith, eq_iff, if◌then◌else◌, map, none, ok, refl, some, str_eq, true, ◌&&◌,
  ◌++◌, ◌||◌, ◌∷◌, ◌≡◌, ◌≢◌, Bool-cases, ap, inl, inr, map_ok, map_ok-eq-ok, subst, sym,
}
use gabbro.Session.{DeletedEntry, Env, VaultSession, World, find_entry, contains}
use gabbro.Entry.{VaultEntry, entry_id}
use gabbro.Session.Deletion.{
  delete_entry, push_tombstones, retain_entries, session_delete_entries_no_save,
  session_delete_entry, delete_entry_change,
}
use gabbro.Session.Saving.{changed_of_done}

abbrev pub deleted_names : List DeletedEntry → List String
deleted_names = map (λ d. d.id)

find_entry-retain :
    (x : String) (ids : List String) (es : List VaultEntry)
    → find_entry x (retain_entries ids es) ≡ (if contains x ids then none else find_entry x es)
unfolding find_entry retain_entries
find_entry-retain x ids [] = ground arith
find_entry-retain x ids (e ∷ es) = ground (arith, eq_iff (entry_id e) x, find_entry-retain x ids es)

contains-names-append :
    (x now id : String) (ds : List DeletedEntry)
    → contains x (deleted_names (ds ++ record { id = id; deleted_at = now } ∷ []))
      ≡ (if str_eq id x then true else contains x (deleted_names ds))
unfolding contains
contains-names-append x now id [] = refl
contains-names-append x now id (d ∷ ds) = ground (arith, contains-names-append x now id ds)

contains-push_tombstones :
    (x now : String) (es : List VaultEntry) (ids : List String) (ds : List DeletedEntry)
    → contains x (deleted_names (push_tombstones now es ids ds))
      ≡ (contains x (deleted_names ds) || (contains x ids && contains x (map entry_id es)))
unfolding contains push_tombstones
contains-push_tombstones x now es [] ds = ground arith
contains-push_tombstones x now es (id ∷ ids) ds = ground (
  arith,
  eq_iff id x,
  contains-names-append x now id ds,
  contains-push_tombstones x now es ids ds,
  contains-push_tombstones x now es ids (ds ++ record { id = id; deleted_at = now } ∷ []),
)

-- The bulk deletion of an unlocked vault removes exactly the entries with the given ids, adds
-- tombstones for exactly those ids that an entry had, and keeps the folders.
pub delete_entries_lem :
    (env : Env) (w : World) (ids : List String) (s : VaultSession)
    → w.session ≡ some s
    → (s' : VaultSession) × ((session_delete_entries_no_save env w ids).0.session ≡ some s')
      × ((x : String)
          → find_entry x s'.entries ≡ (if contains x ids then none else find_entry x s.entries))
      × ((x : String)
          → contains x (deleted_names s'.deleted_ids) ≡ (
              contains x (deleted_names s.deleted_ids)
              || (contains x ids && contains x (map entry_id s.entries))))
      × (s'.folders ≡ s.folders)
unfolding session_delete_entries_no_save
delete_entries_lem env w ids s here = (
  record s {
    entries = retain_entries ids s.entries;
    deleted_ids = push_tombstones env.now s.entries ids s.deleted_ids;
  },
  ground arith,
  λ x. find_entry-retain x ids s.entries,
  λ x. contains-push_tombstones x env.now s.entries ids s.deleted_ids,
  refl,
)

-- No two entries share an id.
abbrev pub IsDistinctIds : List VaultEntry → Type 0
IsDistinctIds [] = Unit
IsDistinctIds (e ∷ es) = (find_entry (entry_id e) es ≡ none) × IsDistinctIds es

find_entry-delete_entry :
    (x id : String) (es es' : List VaultEntry)
    → IsDistinctIds es
    → delete_entry id es ≡ ok es'
    → find_entry x es' ≡ (if str_eq id x then none else find_entry x es)
unfolding find_entry delete_entry
find_entry-delete_entry x id [] es' d h = cc
find_entry-delete_entry x id (e ∷ es) es' d h = elim (Bool-cases (str_eq (entry_id e) id)) [
  | inl hit ↦ ground (arith, eq_iff (entry_id e) id, eq_iff id x, eq_iff (entry_id e) x)
  | inr miss ↦
      let rest_of : map_ok (λ rest. e ∷ rest) (delete_entry id es) ≡ ok es' = ground arith in
      let (rest, deleted, same) = map_ok-eq-ok (λ rest. e ∷ rest) (delete_entry id es) rest_of in
      subst (λ l. find_entry x l ≡ (if str_eq id x then none else find_entry x (e ∷ es))) same
        (ground (
          arith,
          eq_iff (entry_id e) id,
          eq_iff id x,
          eq_iff (entry_id e) x,
          find_entry-delete_entry x id es rest d.1 deleted,
        ))
]

delete_entry-found :
    (id : String) (es es' : List VaultEntry) → delete_entry id es ≡ ok es' → find_entry id es ≢ none
unfolding find_entry delete_entry
delete_entry-found id [] es' h = cc
delete_entry-found id (e ∷ es) es' h = elim (Bool-cases (str_eq (entry_id e) id)) [
  | inl hit ↦ ground arith
  | inr miss ↦
      let rest_of : map_ok (λ rest. e ∷ rest) (delete_entry id es) ≡ ok es' = ground arith in
      let (rest, deleted, same) = map_ok-eq-ok (λ rest. e ∷ rest) (delete_entry id es) rest_of in
      ground (arith, delete_entry-found id es rest deleted)
]

delete_change_lem :
    (now id : String) (s s' : VaultSession)
    → IsDistinctIds s.entries
    → delete_entry_change now id s ≡ ok s'
    → ((x : String)
        → find_entry x s'.entries ≡ (if str_eq id x then none else find_entry x s.entries))
      × (s'.deleted_ids ≡ s.deleted_ids ++ record { id = id; deleted_at = now } ∷ [])
      × (find_entry id s.entries ≢ none)
unfolding delete_entry_change
delete_change_lem now id s s' d h =
    let (es, deleted, same) = map_ok-eq-ok _ (delete_entry id s.entries) h in
    (
      λ x.
          subst
            (λ (t : VaultSession).
              find_entry x t.entries ≡ (if str_eq id x then none else find_entry x s.entries))
            same (find_entry-delete_entry x id s.entries es d deleted),
      ap (λ (t : VaultSession). t.deleted_ids) (sym same),
      delete_entry-found id s.entries es deleted,
    )

-- Where no two entries share an id, a deletion that is not refused removes exactly the entry with
-- the id, which was there, and appends its tombstone with the time of the deletion.
session_delete_entry_lem :
    (env : Env) (w : World) (id : String) (s : VaultSession)
    → w.session ≡ some s
    → IsDistinctIds s.entries
    → (session_delete_entry env w id).1 ≡ ok tt
    → (s' : VaultSession) × ((session_delete_entry env w id).0.session ≡ some s')
      × ((x : String)
          → find_entry x s'.entries ≡ (if str_eq id x then none else find_entry x s.entries))
      × (s'.deleted_ids ≡ s.deleted_ids ++ record { id = id; deleted_at = env.now } ∷ [])
      × (find_entry id s.entries ≢ none)
unfolding session_delete_entry
session_delete_entry_lem env w id s at_s d done =
    let (s', after, changed) = changed_of_done env w (delete_entry_change env.now id) s at_s done in
    let (gone, tombstone, found) = delete_change_lem env.now id s s' d changed in
    (s', after, gone, tombstone, found)
