-- ===== src/Db/Records.antt =====
-- One record for each of the tables agents, knowledge, artifacts, operator_requests and telegram_updates of
-- internal/schema/schema.sql. A `float64` is the 64 bits that hold it, and a JSON object its text.
use self_organizing_multi_ag.Base.{ℕ, ℤ, String, Option, List}

pub record Capability : Type 0 where
  pub capability_id : String
  pub name : String
  pub description : String
  pub tags : List String

pub record Tool : Type 0 where
  pub name : String
  pub version : String
  pub operations : List String
  pub risk : String

-- A key of the metadata object, with its value.
pub data Extension : Type 0 where
  ext_skills ext_preferred_roles ext_evidence : List String → Extension
  ext_operator : String → Extension

pub record Agent : Type 0 where
  pub agent_id : String
  pub schema_version : String
  pub capabilities : List Capability
  pub tools : List Tool
  pub skills : List String
  pub constraints : String
  pub preferred_roles : List String
  pub evidence : List String
  pub operator : Option String
  pub load : ℕ
  pub status : String
  pub metadata : List Extension
  pub created_at : ℕ
  pub updated_at : ℕ

pub record Reference : Type 0 where
  pub type : String
  pub id : String

pub data KnowledgeStatus : Type 0 where
  knowledge_proposed knowledge_reviewed knowledge_verified knowledge_archived : KnowledgeStatus
  knowledge_rejected : KnowledgeStatus

pub record Knowledge : Type 0 where
  pub knowledge_id : String
  pub schema_version : String
  pub category : String
  pub author : String
  pub content : String
  pub source : Option String
  pub confidence : ℕ
  pub status : KnowledgeStatus
  pub tags : List String
  pub references : List Reference
  pub project_id : Option String
  pub task_id : Option String
  pub supersedes : Option String
  pub superseded_by : Option String
  pub version : ℕ
  pub created_at : ℕ

pub record Artifact : Type 0 where
  pub artifact_id : String
  pub schema_version : String
  pub type : String
  pub uri : String
  pub checksum : String
  pub created_by : String
  pub task_id : Option String
  pub project_id : Option String
  pub size : ℤ
  pub retention : String
  pub expires_at : Option ℕ
  pub created_at : ℕ

pub data RequestStatus : Type 0 where
  request_pending request_sent request_answered request_failed : RequestStatus

pub record OperatorRow : Type 0 where
  pub request_id : String
  pub agent_id : String
  pub kind : String
  pub title : String
  pub details : String
  pub status : RequestStatus
  pub telegram_message_id : Option ℕ
  pub reply : Option String
  pub created_at : ℕ
  pub answered_at : Option ℕ

pub record TelegramUpdate : Type 0 where
  pub update_id : ℕ
  pub agent_id : String
  pub message_id : String
