-- ===== src/Requests/Accepts.antt =====
-- Lemmas on the validators of tasks, verdicts and invitations.
use self_organizing_multi_ag.Base.{
  ℕ, ◌≤◌, ◌<◌, ℤ, pos, negsuc, String, ◌≡◌, ◌↔◌, refl, true, false, Option, none, arith, ◌==◌,
  if◌then◌else◌, Bool-cases, inl, inr,
}
use self_organizing_multi_ag.Errors.{field}
use self_organizing_multi_ag.Limits.{
  first_error, ObjectSize, max_text_field, max_short_field, max_list_items,
}
use self_organizing_multi_ag.Limits.Bounds.{
  Passes, Short, check_text_iff, ShortList, check_list_iff, SmallObject, check_object_size_iff,
}
use self_organizing_multi_ag.Tasks.{CreateTaskRequest}
use self_organizing_multi_ag.Queue.{VerifyRequest}
use self_organizing_multi_ag.Members.{InviteRequest}
use self_organizing_multi_ag.Requests.{
  validate_task, validate_verification, known_verdict, validate_invite, validate_reviewer, is_zero,
  is_positive, above, longest_review,
}

abbrev pub NonEmpty : String → Type 0
NonEmpty s = (s == "") ≡ false

-- A task's request within its bounds.
abbrev pub TaskFits : Option String → ObjectSize → CreateTaskRequest → Type 0
TaskFits team_id context r =
    NonEmpty r.objective
    × (team_id ≡ none)
    × Short max_text_field r.objective
    × ShortList max_list_items max_text_field r.constraints
    × ShortList max_list_items max_text_field r.success_criteria
    × ShortList max_list_items max_short_field r.required_capabilities
    × ShortList max_list_items max_short_field r.required_tools
    × SmallObject context

-- `CreateTaskRequest.Validate` accepts exactly the requests with an objective, without a team, and
-- with every text, list and object within its bound.
validate_task_iff :
    (team_id : Option String) (context : ObjectSize) (r : CreateTaskRequest)
    → Passes (validate_task team_id context r) ↔ TaskFits team_id context r
unfolding validate_task first_error
validate_task_iff team_id context r = ground (
  arith,
  check_text_iff (field "objective") r.objective max_text_field,
  check_list_iff (field "constraints") r.constraints max_list_items max_text_field,
  check_list_iff (field "success_criteria") r.success_criteria max_list_items max_text_field,
  check_list_iff (field "required_capabilities") r.required_capabilities max_list_items
      max_short_field,
  check_list_iff (field "required_tools") r.required_tools max_list_items max_short_field,
  check_object_size_iff (field "context") context,
)

abbrev pub ReviewFits : InviteRequest → Type 0
ReviewFits r =
    NonEmpty r.scope
    × Short max_short_field r.scope
    × ((n : ℕ) × (r.expires_in_seconds ≡ pos n) × (0 < n) × (n ≤ longest_review))

abbrev pub InviteFits : InviteRequest → Type 0
InviteFits r =
    NonEmpty r.agent_id
    × Short max_short_field r.agent_id
    × (if r.reviewer
        then ReviewFits r
        else ((r.scope == "") ≡ true) × (is_zero r.expires_in_seconds ≡ true))

time_box_iff :
    (z : ℤ)
    → ((is_positive z ≡ true) × (above longest_review z ≡ false))
      ↔ ((n : ℕ) × (z ≡ pos n) × (0 < n) × (n ≤ longest_review))
time_box_iff (pos n) =
    (λ h. (n, refl, ground arith, ground arith), λ (m, e, low, high). ground arith)
time_box_iff (negsuc n) = (λ h. absurd (cc h.0), λ (m, e, low, high). absurd (ground arith))

validate_reviewer_iff : (r : InviteRequest) → Passes (validate_reviewer r) ↔ ReviewFits r
unfolding validate_reviewer first_error
validate_reviewer_iff r = ground (
  arith,
  check_text_iff (field "scope") r.scope max_short_field,
  time_box_iff r.expires_in_seconds,
)

-- `InviteRequest.Validate` accepts exactly the invitations of a named agent that are a plain
-- membership, without scope and expiry, or a reviewer's, with a scope and an expiry of at most
-- thirty days.
validate_invite_iff : (r : InviteRequest) → Passes (validate_invite r) ↔ InviteFits r
unfolding validate_invite first_error
validate_invite_iff r = elim (Bool-cases r.reviewer) [
  | inl guest ↦ rw guest (
      ground (
        arith,
        check_text_iff (field "agent_id") r.agent_id max_short_field,
        validate_reviewer_iff r,
      ))
  | inr full ↦
      rw full (ground (arith, check_text_iff (field "agent_id") r.agent_id max_short_field))
]

-- A verdict's request within its bounds.
abbrev pub VerificationFits : VerifyRequest → Type 0
VerificationFits r =
    Short max_short_field r.attempt_id
    × NonEmpty r.target_message_id
    × (known_verdict r.verdict ≡ true)
    × Short max_short_field r.target_message_id
    × Short max_text_field r.rationale
    × ShortList max_list_items max_short_field r.evidence

validate_verification_iff :
    (r : VerifyRequest) → Passes (validate_verification r) ↔ VerificationFits r
unfolding validate_verification first_error
validate_verification_iff r = ground (
  arith,
  check_text_iff (field "attempt_id") r.attempt_id max_short_field,
  check_text_iff (field "target_message_id") r.target_message_id max_short_field,
  check_text_iff (field "rationale") r.rationale max_text_field,
  check_list_iff (field "evidence") r.evidence max_list_items max_short_field,
)
