-- ===== src/Session/Saving.antt =====
-- What the saving calls leave in memory, for the theorems about their changes.
use gabbro.Prelude.{
  Result, err, inl, inr, none, ok, option_elim, panic, refl, some, eq_of_some, subst, sym, ◌∙◌, ◌≡◌,
  ◌≢◌, ◌⊎◌, ap,
}
use gabbro.Session.{
  World, Env, Holds, Outcome, SessionError, VaultSession, after_change, build_body, change_and_save,
  WriteEnd, aborted, complete, failed, locked, written,
}

-- The four ways in which a saving call ends.
pub data SaveOutcome (env : Env) (w : World)
    (change : VaultSession → Result SessionError VaultSession) (r : Outcome (Unit {0}))
    : Type 0 where
  -- the vault is locked, or the change is refused: nothing happens
  refused :
      (e : SessionError)
      → (w.session ≡ none) ⊎ ((s : VaultSession) × (w.session ≡ some s) × (change s ≡ err e))
      → r ≡ (w, err e)
      → SaveOutcome env w change r
  -- the change panics
  panicked : (s : VaultSession) → change s ≡ panic → r ≡ (w, panic) → SaveOutcome env w change r
  -- memory and file hold the change
  saved :
      (s s' : VaultSession)
      → w.session ≡ some s
      → change s ≡ ok s'
      → r.0.session ≡ some s'
      → r.0.saved ≡ some (build_body env s')
      → r.1 ≡ ok tt
      → SaveOutcome env w change r
  -- memory holds the change, and the file may hold it or not
  unsaved :
      (s s' : VaultSession)
      → w.session ≡ some s
      → change s ≡ ok s'
      → r.0.session ≡ some s'
      → r.1 ≢ ok tt
      → SaveOutcome env w change r

module _ (env : Env) (w : World) (change : VaultSession → Result SessionError VaultSession) where
  written_outcome :
      (s s' : VaultSession)
      → w.session ≡ some s
      → change s ≡ ok s'
      → (r : WriteEnd)
      → SaveOutcome env w change (written (build_body env s') (record w { session = some s' }) r)
  written_outcome s s' here changed complete = saved s s' here changed refl refl refl
  written_outcome s s' here changed (failed placed e) = unsaved s s' here changed refl (λ x. cc)
  written_outcome s s' here changed (aborted placed) = unsaved s s' here changed refl (λ x. cc)

  changed_outcome :
      (s : VaultSession)
      → w.session ≡ some s
      → (r : Result SessionError VaultSession) → change s ≡ r
      → SaveOutcome env w change (after_change env w r)
  unfolding after_change
  changed_outcome s here (ok s') changed = written_outcome s s' here changed _
  changed_outcome s here (err e) changed = refused e (inr (s, here, changed)) refl
  changed_outcome s here panic changed = panicked s changed refl

  -- A saving call ends in one of these ways.
  change_and_save-SaveOutcome : SaveOutcome env w change (change_and_save env w change)
  unfolding change_and_save
  change_and_save-SaveOutcome =
      option_elim (SaveOutcome env w change) w.session
        (λ none_here. refused locked (inl none_here) refl)
        (λ s here. changed_outcome s here (change s) refl)

  -- A saving call that reports success has made its change in memory.
  pub changed_of_done :
      (s : VaultSession)
      → w.session ≡ some s
      → (change_and_save env w change).1 ≡ ok tt
      → (s' : VaultSession) × ((change_and_save env w change).0.session ≡ some s')
        × (change s ≡ ok s')
  changed_of_done s at_s done = view (change_and_save env w change) done change_and_save-SaveOutcome
    where
      view :
          (r : Outcome (Unit {0}))
          → r.1 ≡ ok tt
          → SaveOutcome env w change r
          → (s' : VaultSession) × (r.0.session ≡ some s') × (change s ≡ ok s')
      view r ended (refused e why same) =
          absurd (cc (ended, ap (λ (o : Outcome (Unit {0})). o.1) same))
      view r ended (panicked t why same) =
          absurd (cc (ended, ap (λ (o : Outcome (Unit {0})). o.1) same))
      view r ended (unsaved t s' at_t changed after fails) = absurd (fails ended)
      view r ended (saved t s' at_t changed after written_file finished) =
          (s', after, subst (λ u. change u ≡ ok s') (eq_of_some (sym at_t ∙ at_s)) changed)

  -- The in-memory session satisfies `P`, if the vault is unlocked.
  pub Holds-change_and_save {ℓ} :
      (P : VaultSession → Type ℓ)
      → ((s s' : VaultSession) → P s → change s ≡ ok s' → P s')
      → Holds P w
      → Holds P (change_and_save env w change).0
  Holds-change_and_save P keeps h = held (change_and_save env w change) change_and_save-SaveOutcome
    where
      held : (r : Outcome (Unit {0})) → SaveOutcome env w change r → Holds P r.0
      held r (refused e why same) = subst (λ (o : Outcome (Unit {0})). Holds P o.0) (sym same) h
      held r (panicked s why same) = subst (λ (o : Outcome (Unit {0})). Holds P o.0) (sym same) h
      held r (saved s s' here changed after file done) =
          λ t e. subst P (eq_of_some (sym after ∙ e)) (keeps s s' (h s here) changed)
      held r (unsaved s s' here changed after fails) =
          λ t e. subst P (eq_of_some (sym after ∙ e)) (keeps s s' (h s here) changed)
