-- ===== src/Db/Rows.antt =====
-- One record for each table of internal/schema/schema.sql that the modelled operations use.
use self_organizing_multi_ag.Base.{ℕ, String, Bool, Option, List, ℤ}
use self_organizing_multi_ag.Db.Records.{Agent, Knowledge, Artifact, OperatorRow, TelegramUpdate}

-- `TaskOpen`, `TaskClaimed`, `TaskSubmitted`, `TaskCompleted`, `TaskFailed`
pub data TaskStatus : Type 0 where
  task_open task_claimed task_submitted task_completed task_failed : TaskStatus

-- `status_text` is the column's text.
abbrev pub status_text : TaskStatus → String
status_text task_open = "OPEN"
status_text task_claimed = "CLAIMED"
status_text task_submitted = "SUBMITTED"
status_text task_completed = "COMPLETED"
status_text task_failed = "FAILED"

pub record Task : Type 0 where
  pub task_id : String
  pub schema_version : String
  pub objective : String
  pub context : String
  pub constraints : List String
  pub required_capabilities : List String
  pub required_tools : List String
  pub success_criteria : List String
  pub status : TaskStatus
  pub owner : Option String
  pub team_id : Option String
  pub project_id : Option String
  pub created_by : String
  pub idempotency_key : Option String
  pub created_at : ℕ
  pub deadline : Option ℕ
  pub claimed_at : Option ℕ
  pub lease_expires_at : Option ℕ
  pub claim_id : Option String
  pub submitted_message_id : Option String

-- The message types of `supportedTypes`; any other text is `other_type`.
pub data MessageType : Type 0 where
  claim_type result_type verify_type status_type error_type question_type answer_type : MessageType
  event_type : MessageType
  other_type : String → MessageType

-- A stored message. `ts` and `received_at` are seconds; `ttl` is a count of seconds.
pub record MessageRow : Type 0 where
  pub seq : ℕ
  pub message_id : String
  pub protocol_version : String
  pub type : MessageType
  pub sender : String
  pub recipient : String
  pub ts : ℕ
  pub conversation_id : Option String
  pub task_id : Option String
  pub priority : String
  pub payload : String
  pub evidence : List String
  pub reply_to : Option String
  pub ttl : Option ℤ
  pub received_at : ℕ

pub record JobRow : Type 0 where
  pub task_id : String
  pub message_id : String
  pub attempts : ℕ
  pub next_at : ℕ
  pub attempt_id : String
  pub lease_until : ℕ
  pub done : Bool

-- The verdicts that the code tells apart; any other text is `other_verdict`.
pub data Verdict : Type 0 where
  verified rejected inconclusive : Verdict
  other_verdict : String → Verdict

pub record VerificationRow : Type 0 where
  pub verification_id : String
  pub schema_version : String
  pub task_id : String
  pub verifier_id : String
  pub target_message_id : String
  pub verdict : Verdict
  pub rationale : String
  pub evidence : List String
  pub ts : ℕ

pub record AlertRow : Type 0 where
  pub task_id : String
  pub sent : Bool
  pub lease_until : ℕ
  pub token : String

pub record RetryRow : Type 0 where
  pub update_id : ℕ
  pub task_id : String
  pub created_at : ℕ

pub data Visibility : Type 0 where
  project_open project_closed : Visibility

pub data ProjectStatus : Type 0 where
  project_active project_archived : ProjectStatus

pub data Policy : Type 0 where
  invite_only invite_or_apply : Policy

pub record Project : Type 0 where
  pub project_id : String
  pub schema_version : String
  pub name : String
  pub objective : String
  pub visibility : Visibility
  pub listed : Bool
  pub membership_policy : Policy
  pub owner : String
  pub pending_owner : Option String
  pub pending_owner_at : Option ℕ
  pub status : ProjectStatus
  pub created_at : ℕ
  pub metadata : String

pub data MemberStatus : Type 0 where
  member_invited member_active member_revoked member_left member_reviewer : MemberStatus

pub data Role : Type 0 where
  role_member role_coordinator : Role

pub record Membership : Type 0 where
  pub project_id : String
  pub agent_id : String
  pub status : MemberStatus
  pub role : Role
  pub invited_by : Option String
  pub joined_at : Option ℕ
  pub scope : Option String
  pub expires_at : Option ℕ
  pub created_at : ℕ

pub data CredentialStatus : Type 0 where
  active revoked : CredentialStatus

pub record Credential : Type 0 where
  pub credential_id : String
  pub agent_id : String
  pub token_hash : String
  pub status : CredentialStatus
  pub rotated_from : Option String
  pub issued_at : ℕ

pub record AuditRow : Type 0 where
  pub event_id : String
  pub actor : String
  pub agent_id : String
  pub credential_id : String
  pub action : String
  pub created_at : ℕ

pub record OperatorUpdate : Type 0 where
  pub update_id : ℕ
  pub agent_id : String
  pub created_at : ℕ

-- The database.
pub record Db : Type 0 where
  pub agents : List Agent
  pub credentials : List Credential
  pub credential_audit : List AuditRow
  pub credential_operator_updates : List OperatorUpdate
  pub tasks : List Task
  pub messages : List MessageRow
  pub next_seq : ℕ
  pub verification_jobs : List JobRow
  pub verifications : List VerificationRow
  pub verification_alerts : List AlertRow
  pub verification_retries : List RetryRow
  pub projects : List Project
  pub project_members : List Membership
  pub knowledge : List Knowledge
  pub artifacts : List Artifact
  pub operator_requests : List OperatorRow
  pub telegram_updates : List TelegramUpdate
