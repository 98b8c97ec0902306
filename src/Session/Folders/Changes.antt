-- ===== src/Session/Folders/Changes.antt =====
-- Each change of the folder list keeps every entry in a folder that exists.
use gabbro.Prelude.{
  All, Bool, List, String, arith, false, if◌then◌else◌, ok, refl, str_eq, true, ◌||◌, ◌≡◌, All-map,
  [], eq_iff, eq_refl, map, subst, sym, ◌++◌, ◌∷◌, All-imp, Option, none, some, ◌≢◌,
}
use gabbro.Session.Folders.Laws.{
  IsDistinct, append-IsDistinct, contains-append, contains-rename_first, contains-without,
  rename_first-IsDistinct, without-IsDistinct,
}
use gabbro.Entry.{VaultEntry, login}
use gabbro.Session.{VaultSession, contains}
use gabbro.Session.Folders.{
  create_change, folder_of, rename_change, set_folder, refolder, assign_one, rename_first, without,
  assign_change, delete_change, target_known, target_of,
}

abbrev pub is_home : String → List String → Bool
is_home f fs = str_eq f "" || contains f fs

pub record IsFiled (s : VaultSession) : Type 0 where
  pub distinct : IsDistinct s.folders
  pub named : contains "" s.folders ≡ false
  pub filed : All (λ e. is_home (folder_of e) s.folders ≡ true) s.entries

pub folder-set_folder : (f : String) (e : VaultEntry) → folder_of (set_folder f e) ≡ f
folder-set_folder f (login e) = refl
folder-set_folder f _ = refl

pub folder-refolder :
    (old new : String) (e : VaultEntry)
    → folder_of (refolder old new e) ≡ (if str_eq (folder_of e) old then new else folder_of e)
unfolding refolder
folder-refolder old new e = ground (arith, folder-set_folder new e)

module _ (old new : String) (fs : List String) where
  home_renamed :
      contains old fs ≡ true
      → IsDistinct fs
      → (e : VaultEntry) → is_home (folder_of e) fs ≡ true
      → is_home (folder_of (refolder old new e)) (rename_first old new fs) ≡ true
  home_renamed known d e h = rw folder-refolder (
      ground (
        arith,
        eq_iff (folder_of e) old,
        eq_iff old (folder_of e),
        eq_refl new,
        contains-rename_first new old new fs known d,
        contains-rename_first (folder_of e) old new fs known d,
      ))

  home_deleted :
      is_home new (without old fs) ≡ true
      → (e : VaultEntry) → is_home (folder_of e) fs ≡ true
      → is_home (folder_of (refolder old new e)) (without old fs) ≡ true
  home_deleted known e h = rw folder-refolder (
      ground (
        arith,
        eq_iff (folder_of e) old,
        eq_iff old (folder_of e),
        contains-without (folder_of e) old fs,
      ))

pub home_assigned :
    (ids : List String) (folder : String) (fs : List String)
    → is_home folder fs ≡ true
    → (e : VaultEntry) → is_home (folder_of e) fs ≡ true
    → is_home (folder_of (assign_one ids folder e)) fs ≡ true
unfolding assign_one
home_assigned ids folder fs known e h = ground (arith, folder-set_folder folder e)

pub home_created :
    (name : String) (fs : List String) (e : VaultEntry)
    → is_home (folder_of e) fs ≡ true
    → is_home (folder_of e) (fs ++ name ∷ []) ≡ true
home_created name fs e h = ground (arith, contains-append (folder_of e) name fs)

pub rename-IsFiled :
    (old new : String)
    → str_eq new "" ≡ false
    → (s s' : VaultSession) → IsFiled s
    → rename_change old new s ≡ ok s'
    → IsFiled s'
rename-IsFiled old new named s s' h e =
    let (known, free, same) = inverted s s' e in
    subst IsFiled (sym same) (record {
      distinct = rename_first-IsDistinct old new s.folders free h.distinct;
      named =
          rw (contains-rename_first "" old new s.folders known h.distinct, named)
            (ground (arith, h.named));
      filed =
          All-map _ _ (refolder old new) (home_renamed old new s.folders known h.distinct) s.entries
            h.filed;
    })
  where
    inverted :
        (s s' : VaultSession)
        → rename_change old new s ≡ ok s'
        → (contains old s.folders ≡ true)
          × (contains new s.folders ≡ false)
          × (s' ≡ record s {
            folders = rename_first old new s.folders;
            entries = map (refolder old new) s.entries;
          })
    inverted s s' e = unfold rename_change in ground arith

pub create-IsFiled :
    (name : String)
    → str_eq name "" ≡ false
    → (s s' : VaultSession) → IsFiled s
    → create_change name s ≡ ok s'
    → IsFiled s'
create-IsFiled name named s s' h e =
    let (free, same) = inverted s s' e in
    subst IsFiled (sym same) (record {
      distinct = append-IsDistinct name s.folders free h.distinct;
      named = ground (arith, contains-append "" name s.folders, h.named);
      filed = All-imp _ _ (home_created name s.folders) s.entries h.filed;
    })
  where
    inverted :
        (s s' : VaultSession)
        → create_change name s ≡ ok s'
        → (contains name s.folders ≡ false) × (s' ≡ record s { folders = s.folders ++ name ∷ [] })
    inverted s s' e = unfold create_change in ground arith

pub assign-IsFiled :
    (ids : List String) (folder : String) (s s' : VaultSession)
    → IsFiled s
    → assign_change ids folder s ≡ ok s'
    → IsFiled s'
assign-IsFiled ids folder s s' h e =
    let (known, same) = inverted s s' e in
    subst IsFiled (sym same) (record {
      distinct = h.distinct;
      named = h.named;
      filed =
          All-map _ _ (assign_one ids folder) (home_assigned ids folder s.folders known) s.entries
            h.filed;
    })
  where
    inverted :
        (s s' : VaultSession)
        → assign_change ids folder s ≡ ok s'
        → (is_home folder s.folders ≡ true)
          × (s' ≡ record s { entries = map (assign_one ids folder) s.entries })
    inverted s s' e = unfold assign_change in ground arith

-- The folder that takes the entries of a deleted one is still there afterwards, unless it is the
-- deleted one.
pub target_home :
    (name : String) (reassign_to : Option String) (fs : List String)
    → reassign_to ≢ some name
    → target_known reassign_to fs ≡ true
    → is_home (target_of reassign_to) (without name fs) ≡ true
unfolding target_known
target_home name none fs other known = refl
target_home name (some t) fs other known = ground (arith, contains-without t name fs, eq_iff name t)

pub delete-IsFiled :
    (name : String) (reassign_to : Option String)
    → reassign_to ≢ some name
    → (s s' : VaultSession) → IsFiled s
    → delete_change name reassign_to s ≡ ok s'
    → IsFiled s'
delete-IsFiled name reassign_to other s s' h e =
    let (known, same) = inverted s s' e in
    subst IsFiled (sym same) (record {
      distinct = without-IsDistinct name s.folders h.distinct;
      named = ground (arith, contains-without "" name s.folders, h.named);
      filed =
          All-map _ _ (refolder name (target_of reassign_to))
            (home_deleted name (target_of reassign_to) s.folders
              (target_home name reassign_to s.folders other known))
            s.entries h.filed;
    })
  where
    inverted :
        (s s' : VaultSession)
        → delete_change name reassign_to s ≡ ok s'
        → (target_known reassign_to s.folders ≡ true)
          × (s' ≡ record s {
            folders = without name s.folders;
            entries = map (refolder name (target_of reassign_to)) s.entries;
          })
    inverted s s' e = unfold delete_change in ground arith
