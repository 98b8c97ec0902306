-- ===== src/Ctap2/Handling.antt =====
-- ctap2.rs: what a request asks the user, and what follows on the answer.
use gabbro.Prelude.{
  ℕ, Bool, true, false, Option, none, some, List, [], ◌∷◌, String, ◌==◌, if◌then◌else◌, map,
  get_elem?,
}
use gabbro.Bytes.{Bytes}
use gabbro.Entry.{PasskeyEntry}
use gabbro.Session.{World, Env}
use gabbro.Ctap2.{
  Platform, Fresh, Answer, CreateFields, status, info, panicked, cmd_make_credential,
  cmd_get_assertion, cmd_get_info, err_invalid_command, err_operation_denied, err_no_credentials,
}
use gabbro.Ctap2.Requests.{
  Parsed, parsed, refused, parse_create, assertion_matches, up_option_is_false, has_allow_list,
  c_hash, perform_assert, perform_assert_silent, perform_create,
}

pub data RequestPlan : Type 0 where
  ask : Bool → String → List String → RequestPlan
  respond : Answer → RequestPlan

-- The user's answers, `Consent` of ctap2.rs
pub record Consents : Type 0 where
  pub approve_create : String → String → Bool
  pub approve_assert : String → String → Bool
  pub choose_account : String → List String → Option ℕ

module _ (pf : Platform) where
  -- The matches of a request are not empty, so `swap_remove(0)` finds one.
  abbrev pub silent_answer : Bool → List PasskeyEntry → Bytes → Answer
  silent_answer false ps hash = status err_no_credentials
  silent_answer true [] hash = panicked
  silent_answer true (pk ∷ ps) hash = perform_assert_silent pf pk hash

  unfoldable pub describe_assertion :
      Bool → Bool → Bytes → Parsed (String × List PasskeyEntry) → RequestPlan
  describe_assertion silent listed hash (parsed (rp, ps)) =
      if silent
      then respond (silent_answer listed ps hash)
      else ask false rp (map (λ (e : PasskeyEntry). e.user_name) ps)
  describe_assertion silent listed hash (refused n) = respond (status n)

  unfoldable pub describe_creation : Parsed CreateFields → RequestPlan
  describe_creation (parsed c) = ask true c.rp_id (c.user_name ∷ [])
  describe_creation (refused n) = respond (status n)

  unfoldable pub describe_request : World → Bytes → RequestPlan
  unfolding describe_creation describe_assertion parse_create assertion_matches up_option_is_false
      has_allow_list c_hash
  describe_request w [] = respond (status err_invalid_command)
  describe_request w (cmd ∷ body) =
      if cmd == cmd_get_info
      then respond info
      else if cmd == cmd_make_credential
      then describe_creation (parse_create pf w body)
      else if cmd == cmd_get_assertion
      then describe_assertion (up_option_is_false pf body) (has_allow_list pf body) (c_hash pf body)
          (assertion_matches pf w body)
      else respond (status err_invalid_command)

  unfoldable pub approved_creation : Env → World → Fresh → Parsed CreateFields → World × Answer
  unfolding perform_create
  approved_creation env w f (parsed c) = perform_create pf env w f c
  approved_creation env w f (refused n) = (w, status n)

  unfoldable pub approved_assertion :
      World → ℕ → Bytes → Parsed (String × List PasskeyEntry) → World × Answer
  unfolding perform_assert
  approved_assertion w i hash (parsed (rp, ps)) = elim (get_elem? ps i) [
    | none ↦ (w, status err_no_credentials)
    | some pk ↦ (w, perform_assert pf w pk hash)
  ]
  approved_assertion w i hash (refused n) = (w, status n)

  unfoldable pub perform_approved : Env → World → Fresh → Bytes → ℕ → World × Answer
  unfolding approved_creation approved_assertion parse_create assertion_matches c_hash
  perform_approved env w f [] i = (w, status err_invalid_command)
  perform_approved env w f (cmd ∷ body) i =
      if cmd == cmd_make_credential
      then approved_creation env w f (parse_create pf w body)
      else if cmd == cmd_get_assertion
      then approved_assertion w i (c_hash pf body) (assertion_matches pf w body)
      else (w, status err_invalid_command)

  -- What the user is asked, and the account that is approved; `accounts[0]` may panic.
  unfoldable pub approved_account : Consents → Bool → String → List String → Option (Option ℕ)
  approved_account c creates rp [] = if creates then none else some (c.choose_account rp [])
  approved_account c creates rp (name ∷ []) = some (
      if (if creates then c.approve_create rp name else c.approve_assert rp name)
      then some 0
      else none)
  approved_account c creates rp (name ∷ (other_name ∷ names)) =
      if creates
      then some (if c.approve_create rp name then some 0 else none)
      else some (c.choose_account rp (name ∷ (other_name ∷ names)))

  unfoldable pub carry_out : Env → World → Fresh → Bytes → Option (Option ℕ) → World × Answer
  unfolding perform_approved
  carry_out env w f payload (some (some i)) = perform_approved env w f payload i
  carry_out env w f payload (some none) = (w, status err_operation_denied)
  carry_out env w f payload none = (w, panicked)

  unfoldable pub follow_plan : Env → World → Fresh → Bytes → Consents → RequestPlan → World × Answer
  unfolding approved_account carry_out
  follow_plan env w f payload c (respond a) = (w, a)
  follow_plan env w f payload c (ask creates rp accounts) =
      carry_out env w f payload (approved_account c creates rp accounts)

  abbrev pub is_get_info : Bytes → Bool
  is_get_info [] = false
  is_get_info (cmd ∷ body) = cmd == cmd_get_info

  unfoldable pub handle_request : Env → World → Fresh → Bytes → Consents → World × Answer
  unfolding describe_request follow_plan
  handle_request env w f payload c =
      if is_get_info payload
      then (w, info)
      else follow_plan env w f payload c (describe_request w payload)
