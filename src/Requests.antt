-- ===== src/Requests.antt =====
-- The validators of the request bodies: internal/model task.go, verification.go, membership.go, project.go,
-- operator.go and agent.go.
pub mod Accepts
pub mod Registration
use self_organizing_multi_ag.Base.{
  ℕ, ◌+◌, ℤ, pos, negsuc, String, Bool, true, false, not, ◌&&◌, ◌||◌, Option, none, some, List, [],
  ◌∷◌, length, is_some, contains, ◌==◌, nat_eq, ltb, if◌then◌else◌,
}
use self_organizing_multi_ag.Errors.{
  FieldName, field, element, member, text, required, max_entries, validation_error,
}
use self_organizing_multi_ag.Db.{
  Capability, Tool, Verdict, verified, rejected, inconclusive, other_verdict,
}
use self_organizing_multi_ag.Limits.{
  Check, refuse_if, first_error, check_text, check_list, check_object_size, ObjectSize,
  max_text_field, max_short_field, max_list_items,
}
use self_organizing_multi_ag.Tasks.{CreateTaskRequest}
use self_organizing_multi_ag.Queue.{VerifyRequest}
use self_organizing_multi_ag.Members.{InviteRequest}

abbrev pub invalid : String → Check
invalid m = some (validation_error (text m))

abbrev pub invalid_if : Bool → String → Check
invalid_if b m = refuse_if b (validation_error (text m))

-- `CreateTaskRequest.Validate`, on the team and the size of the context besides
unfoldable pub validate_task : Option String → ObjectSize → CreateTaskRequest → Check
validate_task team_id context r = first_error (
    invalid_if (r.objective == "") "objective is required"
    ∷ invalid_if (is_some team_id)
        "team_id is not supported yet (RFC-1200 out of scope this milestone)"
    ∷ check_text (field "objective") r.objective max_text_field
    ∷ check_list (field "constraints") r.constraints max_list_items max_text_field
    ∷ check_list (field "success_criteria") r.success_criteria max_list_items max_text_field
    ∷ check_list (field "required_capabilities") r.required_capabilities max_list_items
        max_short_field
    ∷ check_list (field "required_tools") r.required_tools max_list_items max_short_field
    ∷ check_object_size (field "context") context
    ∷ [])

abbrev pub known_verdict : Verdict → Bool
known_verdict (other_verdict s) = false
known_verdict _ = true

-- `VerifyRequest.Validate`
unfoldable pub validate_verification : VerifyRequest → Check
validate_verification r = first_error (
    check_text (field "attempt_id") r.attempt_id max_short_field
    ∷ invalid_if (r.target_message_id == "") "target_message_id is required"
    ∷ invalid_if (not (known_verdict r.verdict))
        "verdict must be verified, rejected or inconclusive"
    ∷ check_text (field "target_message_id") r.target_message_id max_short_field
    ∷ check_text (field "rationale") r.rationale max_text_field
    ∷ check_list (field "evidence") r.evidence max_list_items max_short_field
    ∷ [])

abbrev pub is_zero : ℤ → Bool
is_zero (pos n) = nat_eq n 0
is_zero (negsuc n) = false

abbrev pub is_positive : ℤ → Bool
is_positive (pos n) = ltb 0 n
is_positive (negsuc n) = false

abbrev pub above : ℕ → ℤ → Bool
above max (pos n) = ltb max n
above max (negsuc n) = false

-- Thirty days, in seconds.
abbrev pub longest_review : ℕ
longest_review = 2592000

-- The checks of a reviewer's invitation.
unfoldable pub validate_reviewer : InviteRequest → Check
validate_reviewer r = first_error (
    invalid_if (r.scope == "") "scope (a task_id) is required for a reviewer invitation"
    ∷ check_text (field "scope") r.scope max_short_field
    ∷ invalid_if (not (is_positive r.expires_in_seconds))
        "expires_in_seconds must be positive for a reviewer invitation"
    ∷ invalid_if (above longest_review r.expires_in_seconds)
        "expires_in_seconds must be at most 30 days"
    ∷ [])

-- `InviteRequest.Validate`
unfoldable pub validate_invite : InviteRequest → Check
validate_invite r = first_error (
    invalid_if (r.agent_id == "") "agent_id is required"
    ∷ check_text (field "agent_id") r.agent_id max_short_field
    ∷ (if r.reviewer
        then validate_reviewer r
        else invalid_if (not (r.scope == "") || not (is_zero r.expires_in_seconds))
            "scope and expires_in_seconds apply only to reviewer invitations")
    ∷ [])

-- `SetRoleRequest.Validate` and `TransferRequest.Validate`, on their only field
unfoldable pub validate_set_role : String → Check
validate_set_role role =
    invalid_if (not (role == "member" || role == "coordinator"))
      "role must be member or coordinator"

unfoldable pub validate_transfer : String → Check
validate_transfer new_owner = first_error (
    invalid_if (new_owner == "") "new_owner is required"
    ∷ check_text (field "new_owner") new_owner max_short_field
    ∷ [])

-- `CreateProjectRequest` as it is sent
pub record ProjectBody : Type 0 where
  pub name : String
  pub objective : String
  pub visibility : String
  pub listed : Option Bool
  pub membership_policy : String

-- `CreateProjectRequest.Validate`
unfoldable pub validate_project : ProjectBody → Check
validate_project r = first_error (
    invalid_if (r.name == "") "name is required"
    ∷ check_text (field "name") r.name max_short_field
    ∷ check_text (field "objective") r.objective max_text_field
    ∷ invalid_if (not (contains ("" ∷ "open" ∷ "closed" ∷ []) r.visibility))
        "visibility must be open or closed"
    ∷ invalid_if (not (contains ("" ∷ "invite_only" ∷ "invite_or_apply" ∷ []) r.membership_policy))
        "membership_policy must be invite_only or invite_or_apply"
    ∷ invalid_if
        (not (r.visibility == "closed") && (is_some r.listed || not (r.membership_policy == "")))
        "listed and membership_policy apply only to closed projects"
    ∷ [])

-- `OperatorRequest`
pub record OperatorRequest : Type 0 where
  pub kind : String
  pub title : String
  pub details : String

-- `OperatorRequest.Validate`
unfoldable pub validate_operator_request : OperatorRequest → Check
validate_operator_request r = first_error (
    invalid_if (not (contains ("wish" ∷ "request" ∷ "issue" ∷ []) r.kind))
      "kind must be wish, request or issue"
    ∷ invalid_if (r.title == "" || r.details == "") "title and details are required"
    ∷ check_text (field "title") r.title max_short_field
    ∷ check_text (field "details") r.details max_text_field
    ∷ [])

-- `RegisterRequest`; `Load` is the type of its `float64`.
pub record RegisterRequest (Load : Type 0) : Type 0 where
  pub capabilities : List Capability
  pub tools : List Tool
  pub skills : List String
  pub constraints : ObjectSize
  pub current_load : Option Load
  pub preferred_roles : List String
  pub evidence : List String
  pub operator : String

-- A loop of checks, with the index.
unfoldable pub check_each {ℓ} : {A : Type ℓ} → (ℕ → A → Check) → ℕ → List A → Check
check_each check i [] = none
check_each check i (a ∷ items) = first_error (check i a ∷ check_each check (i + 1) items ∷ [])

abbrev pub check_named : ℕ → Capability → Check
check_named i c =
    refuse_if (c.name == "")
      (validation_error (required (member (element (field "capabilities") i) "name")))

abbrev pub known_risk : String → Bool
known_risk risk =
    contains ("" ∷ "local_read" ∷ "local_write" ∷ "external_read" ∷ "external_write" ∷ []) risk

unfoldable pub check_tool : ℕ → Tool → Check
check_tool i t =
    let name = λ (s : String). member (element (field "tools") i) s in
    first_error (
      refuse_if (t.name == "") (validation_error (required (name "name")))
      ∷ check_text (name "name") t.name max_short_field
      ∷ check_text (name "version") t.version max_short_field
      ∷ check_list (name "operations") t.operations max_list_items max_short_field
      ∷ invalid_if (not (known_risk t.risk)) "tool risk is invalid"
      ∷ [])

unfoldable pub check_capability : ℕ → Capability → Check
check_capability i c =
    let name = λ (s : String). member (element (field "capabilities") i) s in
    first_error (
      check_text (name "name") c.name max_short_field
      ∷ check_text (name "description") c.description max_text_field
      ∷ check_list (name "tags") c.tags max_list_items max_short_field
      ∷ [])

abbrev pub off_scale {ℓ} : {Load : Type ℓ} → (Load → Bool) → Option Load → Bool
off_scale out none = false
off_scale out (some x) = out x

-- `RegisterRequest.Validate`; `out` is the test that a load is below 0 or above 1.
unfoldable pub validate_register : {Load : Type 0} → (Load → Bool) → RegisterRequest Load → Check
unfolding check_tool check_capability
validate_register out r = first_error (
    invalid_if (nat_eq (length r.capabilities) 0)
      "capabilities is required: an agent with no capabilities cannot be matched to any task"
    ∷ check_each check_named 0 r.capabilities
    ∷ refuse_if (ltb max_list_items (length r.tools))
        (validation_error (max_entries (field "tools") max_list_items))
    ∷ check_each check_tool 0 r.tools
    ∷ invalid_if (off_scale out r.current_load) "current_load must be between 0 and 1"
    ∷ refuse_if (ltb max_list_items (length r.capabilities))
        (validation_error (max_entries (field "capabilities") max_list_items))
    ∷ check_each check_capability 0 r.capabilities
    ∷ check_list (field "skills") r.skills max_list_items max_short_field
    ∷ check_list (field "preferred_roles") r.preferred_roles max_list_items max_short_field
    ∷ check_list (field "evidence") r.evidence max_list_items max_short_field
    ∷ check_text (field "operator") r.operator max_short_field
    ∷ check_object_size (field "constraints") r.constraints
    ∷ [])
