-- ===== src/Messages/Payloads.antt =====
-- `Envelope.Validate` and `ValidatePayload` of internal/model/envelope.go. What `json.Unmarshal` makes of a payload
-- is a `Wire`; a `float64` is the 64 bits that hold it.
use self_organizing_multi_ag.Base.{
  ℕ, ℤ, negsuc, String, Bool, true, false, not, ◌&&◌, ◌||◌, Option, none, some, List, [], ◌∷◌,
  contains, ◌==◌, nat_eq, ltb, opt_text, if◌then◌else◌,
}
use self_organizing_multi_ag.Errors.{
  field, quoted, max_bytes, undecodable_payload, validation_error, with_details,
}
use self_organizing_multi_ag.Db.{
  MessageType, claim_type, result_type, verify_type, status_type, error_type, question_type,
  answer_type, event_type, other_type,
}
use self_organizing_multi_ag.Limits.{
  Check, refuse_if, first_error, check_text, check_list, max_text_field, max_short_field,
  max_list_items, max_object_size,
}
use self_organizing_multi_ag.Requests.{invalid_if, check_each}
use self_organizing_multi_ag.Messages.Insert.{Envelope}

-- The fields that are checked of `ClaimPayload`, `ResultPayload`, `VerifyPayload`, `StatusPayload`,
-- `ErrorPayload`, `QuestionPayload`, `AnswerPayload` and `EventPayload`
pub record ClaimPayload : Type 0 where
  pub claim_type : String
  pub statement : String
  pub confidence : ℕ

pub record ResultPayload : Type 0 where
  pub summary : String
  pub status : String
  pub artifacts : List String

pub record VerifyPayload : Type 0 where
  pub target_message_id : String
  pub verdict : String

pub record StatusPayload : Type 0 where
  pub subject : String
  pub subject_id : String
  pub state : String

pub record ErrorPayload : Type 0 where
  pub error_code : String
  pub message : String

-- A payload that decodes, or the text of the error.
pub data Decoded (A : Type 0) : Type 0 where
  decoded : A → Decoded A
  undecodable : String → Decoded A

pub record Wire : Type 0 where
  pub claim_in : String → Decoded ClaimPayload
  pub result_in : String → Decoded ResultPayload
  pub verify_in : String → Decoded VerifyPayload
  pub status_in : String → Decoded StatusPayload
  pub error_in : String → Decoded ErrorPayload
  pub question_in : String → Decoded String
  pub answer_in : String → Decoded String
  pub event_in : String → Decoded String
  -- `len` of a text, in bytes
  pub byte_length : String → ℕ
  -- the test that a confidence is below 0 or above 1
  pub out_of_unit : ℕ → Bool

module _ {A : Type 0} where
  -- `json.Unmarshal`, then the checks.
  unfoldable pub checked : String → (A → Check) → Decoded A → Check
  checked name check (decoded a) = check a
  checked name check (undecodable why) = some (validation_error (undecodable_payload name why))

abbrev pub one_of : List String → String → Bool
one_of allowed s = contains allowed s

module _ (wire : Wire) where
  unfoldable pub check_claim : ClaimPayload → Check
  check_claim p = first_error (
      invalid_if (not (one_of ("hypothesis" ∷ "solution" ∷ "task_claim" ∷ []) p.claim_type))
        "claim_type must be hypothesis, solution or task_claim"
      ∷ invalid_if (p.statement == "") "statement is required"
      ∷ invalid_if (wire.out_of_unit p.confidence) "confidence must be between 0 and 1"
      ∷ [])

unfoldable pub check_result : ResultPayload → Check
check_result p = first_error (
    invalid_if (p.summary == "") "summary is required"
    ∷ check_text (field "summary") p.summary max_text_field
    ∷ invalid_if (not (one_of ("success" ∷ "partial" ∷ "failure" ∷ []) p.status))
        "status must be success, partial or failure"
    ∷ check_list (field "artifacts") p.artifacts max_list_items max_short_field
    ∷ [])

unfoldable pub check_verdict : VerifyPayload → Check
check_verdict p = first_error (
    invalid_if (p.target_message_id == "") "target_message_id is required"
    ∷ invalid_if (not (one_of ("verified" ∷ "rejected" ∷ "inconclusive" ∷ []) p.verdict))
        "verdict must be verified, rejected or inconclusive"
    ∷ [])

unfoldable pub check_status : StatusPayload → Check
check_status p = first_error (
    invalid_if (not (one_of ("agent" ∷ "task" ∷ []) p.subject)) "subject must be agent or task"
    ∷ invalid_if (p.subject_id == "") "subject_id is required"
    ∷ invalid_if
        (not (
          one_of ("idle" ∷ "working" ∷ "blocked" ∷ "waiting" ∷ "completed" ∷ "failed" ∷ [])
            p.state))
        "invalid state"
    ∷ [])

unfoldable pub check_error : ErrorPayload → Check
check_error p =
    invalid_if (p.error_code == "" || p.message == "") "error_code and message are required"

-- `ValidatePayload`
unfoldable pub validate_payload : Wire → MessageType → String → Check
unfolding checked check_claim check_result check_verdict check_status check_error
validate_payload wire claim_type raw = checked "CLAIM" (check_claim wire) (wire.claim_in raw)
validate_payload wire result_type raw = checked "RESULT" check_result (wire.result_in raw)
validate_payload wire verify_type raw = checked "VERIFY" check_verdict (wire.verify_in raw)
validate_payload wire status_type raw = checked "STATUS" check_status (wire.status_in raw)
validate_payload wire error_type raw = checked "ERROR" check_error (wire.error_in raw)
validate_payload wire question_type raw =
    checked "QUESTION" (λ s. invalid_if (s == "") "question is required") (wire.question_in raw)
validate_payload wire answer_type raw =
    checked "ANSWER" (λ s. invalid_if (s == "") "answer is required") (wire.answer_in raw)
validate_payload wire event_type raw =
    checked "EVENT" (λ s. invalid_if (s == "") "event_type is required") (wire.event_in raw)
validate_payload wire (other_type s) raw =
    some (validation_error (quoted "unsupported message type %q" s))

-- `supportedTypes`
abbrev pub supported : MessageType → Check
supported (other_type s) = some (
    with_details "reason" "unsupported_message_type"
      (validation_error (quoted "unsupported message type %q" s)))
supported _ = none

abbrev pub is_answer : MessageType → Bool
is_answer answer_type = true
is_answer _ = false

abbrev pub is_negative : Option ℤ → Bool
is_negative (some (negsuc n)) = true
is_negative _ = false

-- The default that `Validate` writes into the envelope.
unfoldable pub with_priority : Envelope → Envelope
with_priority e = if e.priority == "" then record e { priority = "normal" } else e

-- A field that the loop on the identifiers visits.
abbrev pub identifier : Envelope → String → String
identifier e name =
    if name == "message_id"
    then e.message_id
    else if name == "sender"
    then e.sender
    else e.recipient

-- `Envelope.Validate`, past the default; `visit` is the order in which `range` visits a map.
unfoldable pub validate_envelope : Wire → (List String → List String) → Envelope → Check
unfolding with_priority
validate_envelope wire visit sent =
    let e = with_priority sent in
    first_error (
      invalid_if (e.message_id == "") "message_id is required"
      ∷ invalid_if (e.protocol_version == "") "protocol_version is required"
      ∷ supported e.type
      ∷ invalid_if (e.sender == "") "sender is required"
      ∷ invalid_if (e.recipient == "") "recipient is required"
      ∷ invalid_if (nat_eq e.timestamp 0) "timestamp is required"
      ∷ refuse_if (not (one_of ("low" ∷ "normal" ∷ "high" ∷ "critical" ∷ []) e.priority))
          (validation_error (quoted "invalid priority %q" e.priority))
      ∷ invalid_if (is_answer e.type && opt_text e.reply_to == "") "ANSWER requires reply_to"
      ∷ invalid_if (is_negative e.ttl) "ttl must not be negative"
      ∷ check_each (λ i name. check_text (field name) (identifier e name) max_short_field) 0
          (visit ("message_id" ∷ "sender" ∷ "recipient" ∷ []))
      ∷ refuse_if (ltb max_object_size (wire.byte_length e.payload))
          (validation_error (max_bytes (field "payload") max_object_size))
      ∷ validate_payload wire e.type e.payload
      ∷ [])
