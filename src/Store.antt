-- ===== src/Store.antt =====
-- The rows of backend/app/models/entities.py that the modelled services read and write. A UUID is
-- a natural number, an instant a number of microseconds, and a table the list of its rows.
-- Columns that no modelled code reads are left out.
pub mod Content
pub use relay.Store.Content.*
use relay.Prelude.{ℕ, Bool, Option, String, List, [], ◌∷◌, ◌&&◌, ◌==◌, str_eq}
use relay.Domain.Enums.{WorkflowStatus, ActionStatus, ApprovalStatus, ExecutionStatus}
use relay.Json.{Json}

-- The f-strings that serve as idempotency keys: a prefix and what follows it between colons,
-- the ids and, where it is no id, the last part.
pub record Key : Type 0 where
  pub prefix : String
  pub parts : List ℕ
  pub suffix : String

abbrev pub same_parts : List ℕ → List ℕ → Bool
same_parts [] [] = Bool.true
same_parts [] (c ∷ cs) = Bool.false
same_parts (b ∷ bs) [] = Bool.false
same_parts (b ∷ bs) (c ∷ cs) = (b == c) && same_parts bs cs

abbrev pub same_key : Key → Key → Bool
same_key a b = str_eq a.prefix b.prefix && same_parts a.parts b.parts && str_eq a.suffix b.suffix

-- `ExecutionSnapshot` of backend/app/runtime/client.py
pub record ExecutionSnapshot : Type 0 where
  pub execution_id : ℕ
  pub status : ExecutionStatus
  pub result : Option Json
  pub error_code : Option String

-- One entry of `results` of a COLLABORATE run.
pub record ActionResult : Type 0 where
  pub action_id : ℕ
  pub status : ExecutionStatus
  pub error_code : Option String

-- The entries that a COLLABORATE run ends with.
pub record Results : Type 0 where
  pub results : List ActionResult
  pub succeeded_count : ℕ
  pub failed_count : ℕ
  pub total_count : ℕ

pub record Tally : Type 0 where
  pub artifact_ids : List ℕ
  pub created_count : ℕ
  pub failed_count : ℕ
  pub approved_count : ℕ

-- The entries of `run.result_payload` that the services write, each absent until it is written.
pub record ResultPayload : Type 0 where
  pub execution : Option ExecutionSnapshot
  pub correlation_id : Option Key
  pub artifact_id : Option ℕ
  pub artifact : Option (String × String)
  pub tally : Option Tally
  pub results : Option Results
  pub task_id : Option ℕ

pub record WorkflowDefinition : Type 0 where
  pub id : ℕ
  pub key : String
  pub version : ℕ
  pub enabled : Bool

pub record WorkflowRun : Type 0 where
  pub id : ℕ
  pub user_id : ℕ
  pub workflow_definition_id : ℕ
  pub project_workspace_id : Option ℕ
  pub status : WorkflowStatus
  pub input_payload : Json
  pub runtime_execution_id : Option ℕ
  pub result_payload : Option ResultPayload
  pub error_code : Option String
  pub updated_at : ℕ
  pub started_at : Option ℕ
  pub completed_at : Option ℕ

pub record ProposedAction : Type 0 where
  pub id : ℕ
  pub workflow_run_id : ℕ
  pub action_type : String
  pub payload : Json
  pub status : ActionStatus

pub record ApprovalRequest : Type 0 where
  pub id : ℕ
  pub workflow_run_id : ℕ
  pub proposed_action_id : ℕ
  pub status : ApprovalStatus
  pub original_payload : Json
  pub approved_payload : Option Json
  pub requested_at : ℕ
  pub resolved_at : Option ℕ
  pub resolved_by : Option ℕ

pub record ExternalArtifact : Type 0 where
  pub id : ℕ
  pub workflow_run_id : ℕ
  pub proposed_action_id : ℕ
  pub artifact_type : String
  pub external_id : String
  pub external_url : String
  pub idempotency_key : Key

-- The values of an event's metadata.
pub data Metadata : Type 0 where
  uuid count : ℕ → Metadata
  text : String → Metadata
  flag : Bool → Metadata
  optional : Option String → Metadata
  key : Key → Metadata
  runtime_status : ExecutionStatus → Metadata
  status : WorkflowStatus → Metadata

pub record AuditEvent : Type 0 where
  pub user_id : ℕ
  pub workflow_run_id : Option ℕ
  pub event_type : String
  pub event_metadata : List (String × Metadata)
  pub created_at : ℕ

pub record LocalExecution : Type 0 where
  pub id : ℕ
  pub idempotency_key : Key
  pub operation : String
  pub request_payload : Json
  pub snapshot : ExecutionSnapshot

pub record Database : Type 0 where
  pub definitions : List WorkflowDefinition
  pub runs : List WorkflowRun
  pub actions : List ProposedAction
  pub approvals : List ApprovalRequest
  pub artifacts : List ExternalArtifact
  pub executions : List LocalExecution
  pub audit : List AuditEvent
  pub connections : List ConnectedAccount
  pub projects : List ProjectWorkspace
  pub members : List ProjectMember
  pub sources : List ProjectSource
  pub tasks : List ProjectTask
  pub documents : List SourceDocument
