-- ===== src/Update/Secrets.antt =====
-- What an update does to the history of previous values.
use gabbro.Entry.{
  login, note, identity, card, file, custom, passkey, EntryMeta, HistoryRecord, LoginEntry,
  VaultEntry, meta_of, with_meta, touched, CardEntry,
}
use gabbro.Prelude.{
  Bool, List, Option, String, [], false, if◌then◌else◌, none, not, refl, some, str_eq, true, ◌∷◌,
  ◌≡◌, ap, arith, eq_iff, ok, subst, sym, ◌∙◌, eq_of_ok,
}
use gabbro.Update.{record_changed, snapshot_secrets}
use gabbro.Entry.History.{find_field, find_field-set_previous, record_previous, set_previous}
use gabbro.Merge.{opt_eq, text_or_empty}

-- The secret fields of an entry that the history keeps.
abbrev pub secrets : VaultEntry → List (String × Option String)
secrets (login e) = ("password", some e.password) ∷ []
secrets (card e) = ("cvv", some e.cvv) ∷ ("pin", e.pin) ∷ []
secrets (note e) = []
secrets (identity e) = []
secrets (file e) = []
secrets (custom e) = []
secrets (passkey e) = []

-- The old values of the secrets that differ.
abbrev pub replaced_secrets :
    String
    → Option String
    → List (String × Option String)
    → List (String × Option String)
    → List HistoryRecord
unfolding opt_eq text_or_empty
replaced_secrets now expires ((field, n) ∷ ns) ((_, o) ∷ os) =
    let rest = replaced_secrets now expires ns os in
    if opt_eq o n
    then rest
    else record { field = field; value = text_or_empty o; saved_at = now; expires_at = expires }
      ∷ rest
replaced_secrets now expires _ _ = []

abbrev pub first_some : Option HistoryRecord → Option HistoryRecord → Option HistoryRecord
first_some none o = o
first_some (some r) o = some r

-- The record of a field, from the new ones or else from the old.
abbrev pub record_of : List HistoryRecord → List HistoryRecord → String → Option HistoryRecord
unfolding find_field
record_of new old field = first_some (find_field field new) (find_field field old)

first_some-if :
    (b : Bool) (r : HistoryRecord) (x o : Option HistoryRecord)
    → first_some (if b then some r else x) o ≡ (if b then some r else first_some x o)
first_some-if true r x o = refl
first_some-if false r x o = refl

record_of-cons :
    (r : HistoryRecord) (new old : List HistoryRecord) (f : String)
    → record_of (r ∷ new) old f ≡ (if str_eq r.field f then some r else record_of new old f)
unfolding find_field
record_of-cons r new old f =
    first_some-if (str_eq r.field f) r (find_field f new) (find_field f old)

-- One secret: its record is made where it changed.
record_changed_lem :
    (b : Bool) (field value now : String) (expires : Option String) (new : List HistoryRecord)
    (m : EntryMeta) (f : String)
    → let r : HistoryRecord = record {
      field = field;
      value = value;
      saved_at = now;
      expires_at = expires;
    } in
      find_field f (record_changed (not b) field value now expires m).history
      ≡ record_of (if b then [] else r ∷ []) m.history f
unfolding record_previous find_field
record_changed_lem true field value now expires new m f = refl
record_changed_lem false field value now expires new m f =
    find_field-set_previous _ f m.history ∙ sym (record_of-cons _ [] m.history f)

-- Two secrets, the second recorded after the first.
two_changed_lem :
    (b c : Bool) (first second : HistoryRecord) (h : List HistoryRecord) (f : String)
    → str_eq first.field second.field ≡ false
    → find_field f (
        if c
        then (if b then h else set_previous first h)
        else set_previous second (if b then h else set_previous first h))
      ≡ record_of
          (if b then (if c then [] else second ∷ []) else first ∷ (if c then [] else second ∷ []))
          h
          f
unfolding find_field set_previous
two_changed_lem true true first second h f other = refl
two_changed_lem true false first second h f other =
    find_field-set_previous second f h ∙ sym (record_of-cons second [] h f)
two_changed_lem false true first second h f other =
    find_field-set_previous first f h ∙ sym (record_of-cons first [] h f)
two_changed_lem false false first second h f other = ground (
  arith,
  find_field-set_previous second f (set_previous first h),
  find_field-set_previous first f h,
  record_of-cons first (second ∷ []) h f,
  record_of-cons second [] h f,
  eq_iff first.field f,
  eq_iff second.field f,
  eq_iff first.field second.field,
)

-- What `snapshot_secrets` leaves of the entry: other metadata, with the time of the edit and the
-- replaced secrets in the history.
pub record IsSnapshot (now : String) (expires : Option String) (e stored s : VaultEntry)
    : Type 0 where
  pub same : s ≡ with_meta (λ _. meta_of s) e
  pub id : (meta_of s).id ≡ (meta_of e).id
  pub folder : (meta_of s).folder ≡ (meta_of e).folder
  pub updated_at : (meta_of s).updated_at ≡ now
  pub history :
      (f : String)
      → find_field f (meta_of s).history
        ≡ record_of
            (replaced_secrets now expires (secrets e) (secrets stored))
            (meta_of e).history
            f

record_changed_same :
    (b : Bool) (field value now : String) (expires : Option String) (m : EntryMeta)
    → ((record_changed b field value now expires m).id ≡ m.id)
      × ((record_changed b field value now expires m).folder ≡ m.folder)
      × ((record_changed b field value now expires m).updated_at ≡ m.updated_at)
unfolding record_previous
record_changed_same true field value now expires m = (refl, refl, refl)
record_changed_same false field value now expires m = (refl, refl, refl)

login-IsSnapshot :
    (now : String) (expires : Option String) (n o : LoginEntry)
    → IsSnapshot now expires (login n) (login o) (
        login (record n {
          meta =
              record_changed
                (not (str_eq o.password n.password))
                "password"
                o.password
                now
                expires
                (touched now n.meta);
        }))
unfolding opt_eq text_or_empty
login-IsSnapshot now expires n o =
    let b = str_eq o.password n.password in
    let kept = record_changed_same (not b) "password" o.password now expires (touched now n.meta) in
    record {
      same = refl;
      id = kept.0;
      folder = kept.1;
      updated_at = kept.2;
      history =
          λ f. record_changed_lem b "password" o.password now expires [] (touched now n.meta) f;
    }

if_history :
    (b : Bool) (field value now : String) (expires : Option String) (m : EntryMeta)
    → (record_changed (not b) field value now expires m).history ≡ (
        if b
        then m.history
        else set_previous
            (record { field = field; value = value; saved_at = now; expires_at = expires })
            m.history)
unfolding record_previous
if_history true field value now expires m = refl
if_history false field value now expires m = refl

card-IsSnapshot :
    (now : String) (expires : Option String) (n o : CardEntry)
    → IsSnapshot now expires (card n) (card o) (
        card (record n {
          meta = record_changed (not (opt_eq o.pin n.pin)) "pin" (text_or_empty o.pin) now expires (
              record_changed
                (not (str_eq o.cvv n.cvv))
                "cvv"
                o.cvv
                now
                expires
                (touched now n.meta));
        }))
unfolding opt_eq text_or_empty
card-IsSnapshot now expires n o =
    let b = str_eq o.cvv n.cvv in
    let c = opt_eq o.pin n.pin in
    let m = record_changed (not b) "cvv" o.cvv now expires (touched now n.meta) in
    let kept = record_changed_same (not b) "cvv" o.cvv now expires (touched now n.meta) in
    let kept' = record_changed_same (not c) "pin" (text_or_empty o.pin) now expires m in
    record {
      same = refl;
      id = kept'.0 ∙ kept.0;
      folder = kept'.1 ∙ kept.1;
      updated_at = kept'.2 ∙ kept.2;
      history = λ f.
          ap (find_field f) (
            if_history c "pin" (text_or_empty o.pin) now expires m
            ∙ ap
                (λ h.
                  if c
                  then h
                  else set_previous
                      (record {
                        field = "pin";
                        value = text_or_empty o.pin;
                        saved_at = now;
                        expires_at = expires;
                      })
                      h)
                (if_history b "cvv" o.cvv now expires (touched now n.meta)))
          ∙ two_changed_lem b c
              (record { field = "cvv"; value = o.cvv; saved_at = now; expires_at = expires })
              (record {
                field = "pin";
                value = text_or_empty o.pin;
                saved_at = now;
                expires_at = expires;
              })
              n.meta.history f refl;
    }

pub snapshot_secrets-IsSnapshot :
    (now : String) (expires : Option String) (e stored s : VaultEntry)
    → snapshot_secrets now expires e stored ≡ ok s
    → IsSnapshot now expires e stored s
unfolding snapshot_secrets find_field
snapshot_secrets-IsSnapshot now expires (login n) (login o) s h =
    subst (IsSnapshot now expires (login n) (login o)) (eq_of_ok h)
      (login-IsSnapshot now expires n o)
snapshot_secrets-IsSnapshot now expires (card n) (card o) s h =
    subst (IsSnapshot now expires (card n) (card o)) (eq_of_ok h) (card-IsSnapshot now expires n o)
snapshot_secrets-IsSnapshot now expires (login n) (note o) s h = absurd (ground arith)
snapshot_secrets-IsSnapshot now expires (login n) (identity o) s h = absurd (ground arith)
snapshot_secrets-IsSnapshot now expires (login n) (card o) s h = absurd (ground arith)
snapshot_secrets-IsSnapshot now expires (login n) (file o) s h = absurd (ground arith)
snapshot_secrets-IsSnapshot now expires (login n) (custom o) s h = absurd (ground arith)
snapshot_secrets-IsSnapshot now expires (login n) (passkey o) s h = absurd (ground arith)
snapshot_secrets-IsSnapshot now expires (card n) (login o) s h = absurd (ground arith)
snapshot_secrets-IsSnapshot now expires (card n) (note o) s h = absurd (ground arith)
snapshot_secrets-IsSnapshot now expires (card n) (identity o) s h = absurd (ground arith)
snapshot_secrets-IsSnapshot now expires (card n) (file o) s h = absurd (ground arith)
snapshot_secrets-IsSnapshot now expires (card n) (custom o) s h = absurd (ground arith)
snapshot_secrets-IsSnapshot now expires (card n) (passkey o) s h = absurd (ground arith)
snapshot_secrets-IsSnapshot now expires (note n) o s h =
    subst (IsSnapshot now expires (note n) o) (eq_of_ok h)
      (record { same = refl; id = refl; folder = refl; updated_at = refl; history = λ f. refl })
snapshot_secrets-IsSnapshot now expires (identity n) o s h =
    subst (IsSnapshot now expires (identity n) o) (eq_of_ok h)
      (record { same = refl; id = refl; folder = refl; updated_at = refl; history = λ f. refl })
snapshot_secrets-IsSnapshot now expires (file n) o s h =
    subst (IsSnapshot now expires (file n) o) (eq_of_ok h)
      (record { same = refl; id = refl; folder = refl; updated_at = refl; history = λ f. refl })
snapshot_secrets-IsSnapshot now expires (custom n) o s h =
    subst (IsSnapshot now expires (custom n) o) (eq_of_ok h)
      (record { same = refl; id = refl; folder = refl; updated_at = refl; history = λ f. refl })
snapshot_secrets-IsSnapshot now expires (passkey n) o s h =
    subst (IsSnapshot now expires (passkey n) o) (eq_of_ok h)
      (record { same = refl; id = refl; folder = refl; updated_at = refl; history = λ f. refl })
