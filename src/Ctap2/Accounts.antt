-- ===== src/Ctap2/Accounts.antt =====
-- The accounts that the user is shown, and what is performed for each.
use gabbro.Prelude.{
  ℕ, zero, suc, ◌<◌, ◌≡◌, refl, ◌∙◌, sym, ap, subst, Bool, true, false, Option, none, some, List,
  [], ◌∷◌, String, length, ◌==◌, Bool-cases, inl, inr, map, get_elem?, arith, All, str_eq, eq_iff,
  eq_of_some, if◌then◌else◌, not, ◌≢◌,
}
use gabbro.Bytes.{Bytes}
use gabbro.Entry.{VaultEntry, PasskeyEntry, passkey, login, note, identity, card, file, custom}
use gabbro.Session.{World, Env, VaultSession, is_vault_unlocked}
use gabbro.Ctap2.{
  Platform, Fresh, Value, Values, passkeys_for, retain_listed, allowed, is_listed, is_empty,
  session_passkeys_for_rp, int_key, as_text, as_bytes, array, cmd_get_assertion, cmd_get_info,
  cmd_make_credential, err_operation_denied, err_invalid_cbor, err_missing_parameter,
  err_no_credentials, CreateFields,
}
use gabbro.Ctap2.Requests.{
  Parsed, parsed, refused, ok_or, ensure, request_map, assertion_matches, perform_assert, c_hash,
  up_option_is_false, has_allow_list, no_match, parse_create,
}
use gabbro.Ctap2.Handling.{
  RequestPlan, ask, respond, describe_request, describe_assertion, describe_creation,
  perform_approved, approved_assertion,
}
use gabbro.Ctap2.Consent.{eq_of_parsed, parsed-bind}

-- The passkey is for the site.
abbrev IsFor : String → PasskeyEntry → Type 0
IsFor rp p = p.rp_id ≡ rp

add_one :
    (rp : String) (p : PasskeyEntry) (rest : List PasskeyEntry) (b : Bool)
    → (b ≡ true → IsFor rp p)
    → All (IsFor rp) rest
    → All (IsFor rp) (if b then p ∷ rest else rest)
add_one rp p rest true here h = (here refl, h)
add_one rp p rest false here h = h

passkeys_for-IsFor : (rp : String) (es : List VaultEntry) → All (IsFor rp) (passkeys_for rp es)
unfolding passkeys_for
passkeys_for-IsFor rp [] = tt
passkeys_for-IsFor rp (passkey p ∷ es) =
    add_one rp p (passkeys_for rp es) (str_eq p.rp_id rp) (λ h. (eq_iff p.rp_id rp).0 h)
      (passkeys_for-IsFor rp es)
passkeys_for-IsFor rp (login e ∷ es) = passkeys_for-IsFor rp es
passkeys_for-IsFor rp (note e ∷ es) = passkeys_for-IsFor rp es
passkeys_for-IsFor rp (identity e ∷ es) = passkeys_for-IsFor rp es
passkeys_for-IsFor rp (card e ∷ es) = passkeys_for-IsFor rp es
passkeys_for-IsFor rp (file e ∷ es) = passkeys_for-IsFor rp es
passkeys_for-IsFor rp (custom e ∷ es) = passkeys_for-IsFor rp es

retain_listed-IsFor :
    (rp : String) (vs : Values) (ps : List PasskeyEntry)
    → All (IsFor rp) ps
    → All (IsFor rp) (retain_listed vs ps)
unfolding retain_listed
retain_listed-IsFor rp vs [] h = tt
retain_listed-IsFor rp vs (p ∷ ps) h =
    add_one rp p (retain_listed vs ps) (is_listed vs p.credential_id) (λ _. h.0)
      (retain_listed-IsFor rp vs ps h.1)

allowed-IsFor :
    (rp : String) (o : Option Value) (ps : List PasskeyEntry)
    → All (IsFor rp) ps
    → All (IsFor rp) (allowed o ps)
unfolding allowed
allowed-IsFor rp none ps h = h
allowed-IsFor rp (some (array vs)) ps h = elim (Bool-cases (is_empty vs)) [
  | inl e ↦ rw e h
  | inr e ↦ rw e (retain_listed-IsFor rp vs ps h)
]
allowed-IsFor rp (some (Value.unsigned n)) ps h = h
allowed-IsFor rp (some (Value.negative n)) ps h = h
allowed-IsFor rp (some (Value.bytes b)) ps h = h
allowed-IsFor rp (some (Value.text t)) ps h = h
allowed-IsFor rp (some (Value.boolean b)) ps h = h
allowed-IsFor rp (some (Value.dict d)) ps h = h
allowed-IsFor rp (some Value.other) ps h = h

session-IsFor :
    (w : World) (rp : String) (ours : List PasskeyEntry)
    → session_passkeys_for_rp w rp ≡ some ours
    → All (IsFor rp) ours
unfolding session_passkeys_for_rp
session-IsFor w rp ours h = go w.session h
  where
    go :
        (o : Option VaultSession)
        → elim o [ none ↦ none | some s ↦ some (passkeys_for rp s.entries) ] ≡ some ours
        → All (IsFor rp) ours
    go none e = cc
    go (some s) e = subst (All (IsFor rp)) (eq_of_some e) (passkeys_for-IsFor rp s.entries)

some_of_ok_or {ℓ} : {A : Type ℓ} (n : ℕ) (o : Option A) {a : A} → ok_or n o ≡ parsed a → o ≡ some a
some_of_ok_or n none h = cc
some_of_ok_or n (some b) h = cc

abbrev asked : RequestPlan → String × List String
asked (ask creates rp accounts) = (rp, accounts)
asked (respond a) = ("", [])

listed_user :
    (rp : String) (ps : List PasskeyEntry) (i : ℕ)
    → All (IsFor rp) ps
    → i < length (map (λ (e : PasskeyEntry). e.user_name) ps)
    → (pk : PasskeyEntry) × (get_elem? ps i ≡ some pk)
      × IsFor rp pk
      × (get_elem? (map (λ (e : PasskeyEntry). e.user_name) ps) i ≡ some pk.user_name)
listed_user rp [] i h bound = absurd (omega arith)
listed_user rp (p ∷ ps) zero h bound = (p, refl, h.0, refl)
listed_user rp (p ∷ ps) (suc i) h bound = listed_user rp ps i h.1 (omega arith)

module _ (pf : Platform) (env : Env) (w : World) (f : Fresh) (body : Bytes) where
  matches-IsFor :
      (rp : String) (ps : List PasskeyEntry)
      → assertion_matches pf w body ≡ parsed (rp, ps)
      → All (IsFor rp) ps
  unfolding assertion_matches
  matches-IsFor rp ps h =
      let (_, _, h1) = parsed-bind (ensure err_operation_denied (is_vault_unlocked w)) _ h in
      let (req, _, h2) = parsed-bind (ok_or err_invalid_cbor (request_map pf body)) _ h1 in
      let (its_rp, _, h3) =
        parsed-bind (ok_or err_missing_parameter (as_text (int_key req 1))) _ h2 in
      let (hash, _, h4) =
        parsed-bind (ok_or err_missing_parameter (as_bytes (int_key req 2))) _ h3 in
      let (ours, at_ours, h5) =
        parsed-bind (ok_or err_operation_denied (session_passkeys_for_rp w its_rp)) _ h4 in
      let (_, _, made) =
        parsed-bind (ensure err_no_credentials (not (no_match (allowed (int_key req 3) ours)))) _
          h5 in
      subst (λ (x : String × List PasskeyEntry). All (IsFor x.0) x.1) (eq_of_parsed made)
        (allowed-IsFor its_rp (int_key req 3) ours
          (session-IsFor w its_rp ours (some_of_ok_or _ _ at_ours)))

  shown_account :
      (r : Parsed (String × List PasskeyEntry)) (silent listed : Bool) (rp : String)
      (accounts : List String) (i : ℕ)
      → assertion_matches pf w body ≡ r
      → describe_assertion pf silent listed (c_hash pf body) r ≡ ask false rp accounts
      → i < length accounts
      → (pk : PasskeyEntry) × IsFor rp pk
        × (get_elem? accounts i ≡ some pk.user_name)
        × (approved_assertion pf w i (c_hash pf body) r
            ≡ (w, perform_assert pf w pk (c_hash pf body)))
  unfolding describe_assertion approved_assertion
  shown_account (refused n) silent listed rp accounts i at_r h bound = cc
  shown_account (parsed (its_rp, ps)) true listed rp accounts i at_r h bound = cc
  shown_account (parsed (its_rp, ps)) false listed rp accounts i at_r h bound =
      let same : (its_rp, map (λ (e : PasskeyEntry). e.user_name) ps) ≡ (rp, accounts) =
        ap asked h in
      let names = ap (λ (x : String × List String). x.1) same in
      let (pk, at_pk, site, user) =
        listed_user its_rp ps i (matches-IsFor its_rp ps at_r)
          (subst (λ (l : List String). i < length l) (sym names) bound) in
      (
        pk,
        site ∙ ap (λ (x : String × List String). x.0) same,
        ap (λ (l : List String). get_elem? l i) (sym names) ∙ user,
        rw (approved_assertion, at_pk) refl,
      )

  not_creation :
      (r : Parsed CreateFields) (rp : String) (accounts : List String)
      → describe_creation pf r ≢ ask false rp accounts
  unfolding describe_creation
  not_creation (parsed c) rp accounts h = cc
  not_creation (refused n) rp accounts h = cc

  -- Where the user is asked about a sign-in, each account that is shown is that of a passkey for the
  -- site, and approving it performs the assertion with that passkey, without a change of the world.
  pub perform_approved-describe_request :
      (cmd : ℕ) (rp : String) (accounts : List String) (i : ℕ)
      → describe_request pf w (cmd ∷ body) ≡ ask false rp accounts
      → i < length accounts
      → (pk : PasskeyEntry) × (pk.rp_id ≡ rp)
        × (get_elem? accounts i ≡ some pk.user_name)
        × (perform_approved pf env w f (cmd ∷ body) i
            ≡ (w, perform_assert pf w pk (c_hash pf body)))
  unfolding describe_request perform_approved
  perform_approved-describe_request cmd rp accounts i h bound =
      elim (Bool-cases (cmd == cmd_get_info)) [
        | inl is_info ↦ absurd (cc (rw is_info at h))
        | inr no_info ↦ elim (Bool-cases (cmd == cmd_make_credential)) [
          | inl makes ↦
              absurd (not_creation (parse_create pf w body) rp accounts (rw (no_info, makes) at h))
          | inr no_make ↦ elim (Bool-cases (cmd == cmd_get_assertion)) [
            | inl gets ↦
                rw (no_make, gets)
                  (shown_account (assertion_matches pf w body) (up_option_is_false pf body)
                    (has_allow_list pf body) rp accounts i refl (rw (no_info, no_make, gets) at h)
                    bound)
            | inr no_get ↦ absurd (cc (rw (no_info, no_make, no_get) at h))
          ]
        ]
      ]
