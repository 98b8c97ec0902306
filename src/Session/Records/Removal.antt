-- ===== src/Session/Records/Removal.antt =====
-- What the removal of a history record changes.
use gabbro.Session.{SessionError, find_entry, Env, VaultSession, World, no_history_record}
use gabbro.Prelude.{
  Bool-cases, List, Result, String, [], arith, eq_iff, if◌then◌else◌, inl, inr, map_ok,
  map_ok-eq-ok, ok, some, str_eq, subst, ◌∷◌, ◌≡◌, err, false, leb, length, refl, ℕ, ◌<◌, true, ap,
  suc, zero, ◌++◌, ◌∙◌,
}
use gabbro.Entry.{
  VaultEntry, entry_id, meta_of, login, note, identity, card, file, custom, passkey, HistoryRecord,
  with_meta,
}
use gabbro.Session.Records.{
  change_entry, delete_history_change, remove_record, session_delete_history, without_record,
  remove_at,
}
use gabbro.Session.Saving.{changed_of_done}

pub change_entry_lem :
    (f : VaultEntry → Result SessionError VaultEntry)
    → (id : String)
    → ((e e' : VaultEntry) → str_eq (entry_id e) id ≡ true → f e ≡ ok e' → entry_id e' ≡ entry_id e)
    → (es es' : List VaultEntry) → change_entry id f es ≡ ok es'
    → (e : VaultEntry) × (e' : VaultEntry) × (find_entry id es ≡ some e)
      × (f e ≡ ok e')
      × ((x : String) → find_entry x es' ≡ (if str_eq id x then some e' else find_entry x es))
unfolding change_entry find_entry
change_entry_lem f id keeps [] es' h = absurd (ground arith)
change_entry_lem f id keeps (e ∷ es) es' h = elim (Bool-cases (str_eq (entry_id e) id)) [
  | inl hit ↦
      let changed : map_ok (λ e'. e' ∷ es) (f e) ≡ ok es' = ground arith in
      let (e', ran, same) = map_ok-eq-ok (λ e'. e' ∷ es) (f e) changed in
      let same_id = keeps e e' hit ran in
      (
        e,
        e',
        ground arith,
        ran,
        λ x.
            subst (λ zs. find_entry x zs ≡ (if str_eq id x then some e' else find_entry x (e ∷ es)))
              same
              (rw same_id
                (ground (arith, eq_iff (entry_id e) id, eq_iff (entry_id e) x, eq_iff id x))),
      )
  | inr miss ↦
      let changed : map_ok (λ zs. e ∷ zs) (change_entry id f es) ≡ ok es' = ground arith in
      let (rest, ran, same) = map_ok-eq-ok (λ zs. e ∷ zs) (change_entry id f es) changed in
      let (e₀, e', found, applied, others) = change_entry_lem f id keeps es rest ran in
      (
        e₀,
        e',
        ground arith,
        applied,
        λ x.
            subst (λ zs. find_entry x zs ≡ (if str_eq id x then some e' else find_entry x (e ∷ es)))
              same
              (ground
                (arith, others x, eq_iff (entry_id e) id, eq_iff (entry_id e) x, eq_iff id x)),
      )
]

entry_id-without_record :
    (now : String) (index : ℕ) (e : VaultEntry) → entry_id (without_record now index e) ≡ entry_id e
entry_id-without_record now index (login e) = refl
entry_id-without_record now index (note e) = refl
entry_id-without_record now index (identity e) = refl
entry_id-without_record now index (card e) = refl
entry_id-without_record now index (file e) = refl
entry_id-without_record now index (custom e) = refl
entry_id-without_record now index (passkey e) = refl

removed :
    (now : String) (index : ℕ) (e e' : VaultEntry)
    → remove_record now index e ≡ ok e'
    → (index < length (meta_of e).history) × (without_record now index e ≡ e')
unfolding remove_record
removed now index e e' h = elim (Bool-cases (leb (length (meta_of e).history) index)) [
  | inl beyond ↦ absurd (ground arith)
  | inr within ↦
      let same : (if false then err (no_history_record index) else ok (without_record now index e))
          ≡ ok e' =
        subst
          (λ b.
            (if b then err (no_history_record index) else ok (without_record now index e)) ≡ ok e')
          within h in
      (ground arith, cc)
]

-- What the call does to a session. The entry that is found under the id has a record at the index;
-- without it, and with the time of the call, that entry stands in the entry's place.
pub record IsRecordRemoved (now id : String) (index : ℕ) (s s' : VaultSession) : Type 0 where
  pub entry : VaultEntry
  pub changed : VaultEntry
  pub before : List HistoryRecord
  pub gone : HistoryRecord
  pub behind : List HistoryRecord
  pub found : find_entry id s.entries ≡ some entry
  pub at_index : length before ≡ index
  pub had : (meta_of entry).history ≡ before ++ gone ∷ behind
  pub has :
      meta_of changed ≡ record (meta_of entry) { history = before ++ behind; updated_at = now }
  pub else_same : changed ≡ with_meta (λ m. meta_of changed) entry
  pub entries_after :
      (x : String)
      → find_entry x s'.entries ≡ (if str_eq id x then some changed else find_entry x s.entries)
  pub session_same : s' ≡ record s { entries = s'.entries }

-- A list around an index of it.
split_at :
    (index : ℕ) (hs : List HistoryRecord)
    → index < length hs
    → (before : List HistoryRecord) × (gone : HistoryRecord) × (behind : List HistoryRecord)
      × (length before ≡ index)
      × (hs ≡ before ++ gone ∷ behind)
      × (remove_at index hs ≡ before ++ behind)
unfolding remove_at
split_at index [] h = absurd (omega arith)
split_at zero (r ∷ rs) h = ([], r, rs, refl, refl, refl)
split_at (suc index) (r ∷ rs) h =
    let (before, gone, behind, at, whole, rest) = split_at index rs (omega arith) in
    (r ∷ before, gone, behind, ap suc at, ap (◌∷◌ r) whole, ap (◌∷◌ r) rest)

meta_of-without_record :
    (now : String) (index : ℕ) (e : VaultEntry)
    → meta_of (without_record now index e)
      ≡ record (meta_of e) { history = remove_at index (meta_of e).history; updated_at = now }
meta_of-without_record now index (login e) = refl
meta_of-without_record now index (note e) = refl
meta_of-without_record now index (identity e) = refl
meta_of-without_record now index (card e) = refl
meta_of-without_record now index (file e) = refl
meta_of-without_record now index (custom e) = refl
meta_of-without_record now index (passkey e) = refl

without_record-meta :
    (now : String) (index : ℕ) (e : VaultEntry)
    → without_record now index e ≡ with_meta (λ m. meta_of (without_record now index e)) e
without_record-meta now index (login e) = refl
without_record-meta now index (note e) = refl
without_record-meta now index (identity e) = refl
without_record-meta now index (card e) = refl
without_record-meta now index (file e) = refl
without_record-meta now index (custom e) = refl
without_record-meta now index (passkey e) = refl

delete_history_change-IsRecordRemoved :
    (now id : String) (index : ℕ) (s s' : VaultSession)
    → delete_history_change now id index s ≡ ok s'
    → IsRecordRemoved now id index s s'
unfolding delete_history_change
delete_history_change-IsRecordRemoved now id index s s' h =
    let (es, ran, same) = map_ok-eq-ok _ (change_entry id (remove_record now index) s.entries) h in
    let (e, e', found, applied, others) =
      change_entry_lem (remove_record now index) id
        (λ a b hit r.
          subst (λ z. entry_id z ≡ entry_id a) (removed now index a b r).1
            (entry_id-without_record now index a))
        s.entries es ran in
    let (within, result) = removed now index e e' applied in
    let (before, gone, behind, at, whole, rest) = split_at index (meta_of e).history within in
    record {
      entry = e;
      changed = without_record now index e;
      before = before;
      gone = gone;
      behind = behind;
      found = found;
      at_index = at;
      had = whole;
      has =
          meta_of-without_record now index e
          ∙ ap (λ hs. record (meta_of e) { history = hs; updated_at = now }) rest;
      else_same = without_record-meta now index e;
      entries_after = λ x.
          subst
            (λ (t : VaultSession).
              find_entry x t.entries
              ≡ (if str_eq id x then some (without_record now index e) else find_entry x s.entries))
            same (rw result (others x));
      session_same = subst (λ (t : VaultSession). t ≡ record s { entries = t.entries }) same refl;
    }

-- A removal of a history record that is not refused takes the record at the index, which is there, from
-- the first entry with the id, and sets the time of the entry's change; the records before and behind it
-- stay, as does all else of the entry, every other entry that is found by its id, and the rest of the
-- session.
pub session_delete_history_lem :
    (env : Env) (w : World) (id : String) (index : ℕ) (s : VaultSession)
    → w.session ≡ some s
    → (session_delete_history env w id index).1 ≡ ok tt
    → (s' : VaultSession) × ((session_delete_history env w id index).0.session ≡ some s')
      × IsRecordRemoved env.now id index s s'
unfolding session_delete_history
session_delete_history_lem env w id index s at_s done =
    let (s', after, changed) =
      changed_of_done env w (delete_history_change env.now id index) s at_s done in
    (s', after, delete_history_change-IsRecordRemoved env.now id index s s' changed)
