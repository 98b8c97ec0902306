-- ===== src/Ctap2/Consent.antt =====
-- What the authenticator does without the user, and what only with the user's consent.
use gabbro.Prelude.{
  eq_of_some, ℕ, ◌<◌, ◌≡◌, refl, sym, Bool, true, false, Option, none, some, List, [], ◌∷◌, String,
  length, ◌==◌, if◌then◌else◌, Bool-cases, inl, inr, map, get_elem?, arith, Option-cases, eq_of_==,
  subst, not,
}
use gabbro.Bytes.{Bytes}
use gabbro.Entry.{PasskeyEntry}
use gabbro.Session.{World, Env, is_vault_unlocked}
use gabbro.Ctap2.{
  Platform, Fresh, Answer, CreateFields, status, info, cmd_make_credential, cmd_get_assertion,
  cmd_get_info, allowed, int_key, session_passkeys_for_rp, as_bytes, as_text, err_invalid_cbor,
  err_missing_parameter, err_no_credentials, err_operation_denied,
}
use gabbro.Ctap2.Requests.{
  Parsed, parsed, refused, ◌>>=◌, ◌>>◌, ok_or, ensure, up_option_is_false, has_allow_list, c_hash,
  parse_create, assertion_matches, perform_assert, perform_assert_silent, excluded,
  register_passkey, perform_create, request_map, no_match,
}
use gabbro.Ctap2.Handling.{
  Consents, silent_answer, describe_assertion, describe_creation, describe_request,
  approved_creation, approved_assertion, perform_approved, approved_account, carry_out, follow_plan,
  handle_request,
}

-- An answer that no key was used for.
pub data IsPlain : Answer → Type 0 where
  a_status : (n : ℕ) → IsPlain (status n)
  the_info : IsPlain info

-- What the user said to the accounts of a sign-in: yes to the only one, or which one to use.
pub data IsApproved (c : Consents) (rp : String) (names : List String) : ℕ → Type 0 where
  the_only :
      (name : String)
      → names ≡ name ∷ []
      → c.approve_assert rp name ≡ true
      → IsApproved c rp names 0
  picked_one : (i : ℕ) → c.choose_account rp names ≡ some i → IsApproved c rp names i

module _ (pf : Platform) (env : Env) (w : World) (f : Fresh) (body : Bytes) (c : Consents) where
  -- The ways in which a request may end: without a key, with the world as it was; with the answer to a
  -- silent probe (`up: false`) that names credentials; with the account that the user approved; or with
  -- the registration that the user approved, whatever becomes of it.
  pub data IsConsented : World × Answer → Type 0 where
    no_key : (a : Answer) → IsPlain a → IsConsented (w, a)
    silent :
        (rp : String) (pk : PasskeyEntry) (ps : List PasskeyEntry)
        → up_option_is_false pf body ≡ true
        → has_allow_list pf body ≡ true
        → assertion_matches pf w body ≡ parsed (rp, pk ∷ ps)
        → IsConsented (w, perform_assert_silent pf pk (c_hash pf body))
    approved :
        (rp : String) (ps : List PasskeyEntry) (i : ℕ) (pk : PasskeyEntry)
        → assertion_matches pf w body ≡ parsed (rp, ps)
        → IsApproved c rp (map (λ (e : PasskeyEntry). e.user_name) ps) i
        → get_elem? ps i ≡ some pk
        → IsConsented (w, perform_assert pf w pk (c_hash pf body))
    registered :
        (fields : CreateFields)
        → parse_create pf w body ≡ parsed fields
        → c.approve_create fields.rp_id fields.user_name ≡ true
        → IsConsented (register_passkey pf env w f fields)

pub parsed-bind {ℓ κ} :
    {A : Type ℓ} {B : Type κ} (m : Parsed A) (k : A → Parsed B) {b : B}
    → (m >>= k) ≡ parsed b
    → (a : A) × (m ≡ parsed a) × (k a ≡ parsed b)
parsed-bind (parsed a) k h = (a, refl, h)
parsed-bind (refused n) k h = cc

pub eq_of_parsed {ℓ} : {A : Type ℓ} {a b : A} → parsed a ≡ parsed b → a ≡ b
eq_of_parsed h = cc

-- The matches of a request that is not refused are not empty.
matches_found :
    (n : ℕ) (rp : String) (ps : List PasskeyEntry) {b : String × List PasskeyEntry}
    → (ensure n (not (no_match ps)) >> parsed (rp, ps)) ≡ parsed b
    → 0 < length b.1
matches_found n rp [] h = cc
matches_found n rp (p ∷ ps) h =
    subst (λ (x : String × List PasskeyEntry). 0 < length x.1) (eq_of_parsed h) (omega arith)

approved_account-IsApproved :
    (pf : Platform) (c : Consents) (rp : String) (names : List String) (i : ℕ)
    → approved_account pf c false rp names ≡ some (some i)
    → IsApproved c rp names i
unfolding approved_account
approved_account-IsApproved pf c rp [] i h = picked_one i (eq_of_some h)
approved_account-IsApproved pf c rp (name ∷ []) i h = elim (Bool-cases (c.approve_assert rp name)) [
  | inl given ↦
      subst (IsApproved c rp (name ∷ [])) (eq_of_some (eq_of_some (rw given at h)))
        (the_only name refl given)
  | inr denied ↦ absurd (cc (rw denied at h))
]
approved_account-IsApproved pf c rp (name ∷ (other_name ∷ names)) i h = picked_one i (eq_of_some h)

approved_account-some :
    (pf : Platform) (c : Consents) (rp : String) (names : List String)
    → (o : Option ℕ) × (approved_account pf c false rp names ≡ some o)
unfolding approved_account
approved_account-some pf c rp [] = (c.choose_account rp [], refl)
approved_account-some pf c rp (name ∷ []) =
    (if c.approve_assert rp name then some 0 else none, refl)
approved_account-some pf c rp (name ∷ (other_name ∷ names)) =
    (c.choose_account rp (name ∷ (other_name ∷ names)), refl)

module _ (pf : Platform) (env : Env) (w : World) (f : Fresh) (body : Bytes) (c : Consents) where
  matches_ne :
      (rp : String) (ps : List PasskeyEntry)
      → assertion_matches pf w body ≡ parsed (rp, ps)
      → 0 < length ps
  unfolding assertion_matches
  matches_ne rp ps h =
      let (_, _, h1) = parsed-bind (ensure err_operation_denied (is_vault_unlocked w)) _ h in
      let (req, _, h2) = parsed-bind (ok_or err_invalid_cbor (request_map pf body)) _ h1 in
      let (its_rp, _, h3) =
        parsed-bind (ok_or err_missing_parameter (as_text (int_key req 1))) _ h2 in
      let (hash, _, h4) =
        parsed-bind (ok_or err_missing_parameter (as_bytes (int_key req 2))) _ h3 in
      let (ours, _, h5) =
        parsed-bind (ok_or err_operation_denied (session_passkeys_for_rp w its_rp)) _ h4 in
      matches_found err_no_credentials its_rp (allowed (int_key req 3) ours) h5

  created-IsConsented :
      (fields : CreateFields)
      → parse_create pf w body ≡ parsed fields
      → c.approve_create fields.rp_id fields.user_name ≡ true
      → (r : Parsed Bool) → excluded pf w fields ≡ r
      → IsConsented pf env w f body c (perform_create pf env w f fields)
  unfolding perform_create
  created-IsConsented fields h given (refused n) e = rw (perform_create, e) (no_key _ (a_status n))
  created-IsConsented fields h given (parsed true) e =
      rw (perform_create, e) (no_key _ (a_status _))
  created-IsConsented fields h given (parsed false) e =
      rw (perform_create, e) (registered fields h given)

  creation-IsConsented :
      (r : Parsed CreateFields)
      → parse_create pf w body ≡ r
      → IsConsented pf env w f body c
          (follow_plan pf env w f (cmd_make_credential ∷ body) c (describe_creation pf r))
  unfolding follow_plan describe_creation approved_account carry_out perform_approved
      approved_creation
  creation-IsConsented (refused n) h = no_key _ (a_status n)
  creation-IsConsented (parsed fields) h =
      elim (Bool-cases (c.approve_create fields.rp_id fields.user_name)) [
        | inl given ↦ rw (given, h) (created-IsConsented fields h given _ refl)
        | inr denied ↦ rw denied (no_key _ (a_status _))
      ]

  picked-IsConsented :
      (rp : String) (ps : List PasskeyEntry) (o : Option ℕ)
      → assertion_matches pf w body ≡ parsed (rp, ps)
      → approved_account pf c false rp (map (λ (e : PasskeyEntry). e.user_name) ps) ≡ some o
      → IsConsented pf env w f body c (carry_out pf env w f (cmd_get_assertion ∷ body) (some o))
  unfolding carry_out perform_approved approved_assertion
  picked-IsConsented rp ps none h picked = no_key _ (a_status _)
  picked-IsConsented rp ps (some i) h picked = rw h (elim (Option-cases (get_elem? ps i)) [
    | inl gone ↦ rw (approved_assertion, gone) (no_key _ (a_status _))
    | inr (pk, there) ↦
        rw (approved_assertion, there)
          (approved rp ps i pk h (approved_account-IsApproved pf c rp _ i picked) there)
  ])

  silent-IsConsented :
      (rp : String) (ps : List PasskeyEntry) (listed : Bool)
      → assertion_matches pf w body ≡ parsed (rp, ps)
      → up_option_is_false pf body ≡ true
      → has_allow_list pf body ≡ listed
      → IsConsented pf env w f body c (w, silent_answer pf listed ps (c_hash pf body))
  silent-IsConsented rp ps false h up list = no_key _ (a_status _)
  silent-IsConsented rp [] true h up list = absurd (omega (arith, matches_ne rp [] h))
  silent-IsConsented rp (pk ∷ ps) true h up list = silent rp pk ps up list h

  assertion-IsConsented :
      (r : Parsed (String × List PasskeyEntry))
      → assertion_matches pf w body ≡ r
      → IsConsented pf env w f body c (
          follow_plan pf env w f (cmd_get_assertion ∷ body) c (
            describe_assertion pf
              (up_option_is_false pf body)
              (has_allow_list pf body)
              (c_hash pf body)
              r))
  unfolding follow_plan describe_assertion
  assertion-IsConsented (refused n) h = no_key _ (a_status n)
  assertion-IsConsented (parsed (rp, ps)) h =
      let (o, picked) =
        approved_account-some pf c rp (map (λ (e : PasskeyEntry). e.user_name) ps) in
      elim (Bool-cases (up_option_is_false pf body)) [
        | inl up ↦ rw up (silent-IsConsented rp ps (has_allow_list pf body) h up refl)
        | inr shown ↦ rw (shown, picked) (picked-IsConsented rp ps o h picked)
      ]

-- Whatever bytes a site sends, and whatever the user answers: a request is answered without a key and
-- without a change of the world, or it is a silent probe that names credentials, or the user approved
-- the account that signs, or the registration that is stored.
pub handle_request-IsConsented :
    (pf : Platform) (env : Env) (w : World) (f : Fresh) (cmd : ℕ) (body : Bytes) (c : Consents)
    → IsConsented pf env w f body c (handle_request pf env w f (cmd ∷ body) c)
unfolding handle_request describe_request follow_plan
handle_request-IsConsented pf env w f cmd body c = elim (Bool-cases (cmd == cmd_get_info)) [
  | inl is_info ↦ rw is_info (no_key info the_info)
  | inr no_info ↦ elim (Bool-cases (cmd == cmd_make_credential)) [
    | inl makes ↦
        subst (λ x. IsConsented pf env w f body c (handle_request pf env w f (x ∷ body) c))
          (sym (eq_of_== cmd cmd_make_credential makes))
          (creation-IsConsented pf env w f body c (parse_create pf w body) refl)
    | inr no_make ↦ elim (Bool-cases (cmd == cmd_get_assertion)) [
      | inl gets ↦
          subst (λ x. IsConsented pf env w f body c (handle_request pf env w f (x ∷ body) c))
            (sym (eq_of_== cmd cmd_get_assertion gets))
            (assertion-IsConsented pf env w f body c (assertion_matches pf w body) refl)
      | inr no_get ↦ rw (no_info, no_make, no_get) (no_key _ (a_status _))
    ]
  ]
]
