-- ===== src/Sources/Schemas.antt =====
-- backend/app/sources/schemas.py
use relay.Prelude.{ℕ, Bool, Option, List, String}
use relay.Store.{Space}
use relay.Domain.Enums.{ApprovalStatus}

pub record SourceCaptureInput : Type 0 where
  pub source_type : String
  pub title : String
  pub content : String
  pub original_filename : Option String

pub record TaskProposal : Type 0 where
  pub title : String
  pub description : Option String
  pub due_date : Option ℕ
  pub estimate_minutes : Option ℕ
  pub priority : Option String
  pub owner : Option String
  pub source_reference : Option String
  pub reason : Option String
  pub needs_confirmation : List String

-- `TaskProposalEdit`, with the fields of `TaskProposal`.
pub record TaskProposalEdit : Type 0 where
  pub title : String
  pub description : Option String
  pub due_date : Option ℕ
  pub estimate_minutes : Option ℕ
  pub priority : Option String
  pub owner : Option String
  pub source_reference : Option String
  pub reason : Option String
  pub needs_confirmation : List String
  pub source_id : ℕ
  pub project_id : ℕ
  pub possible_duplicate : Bool
  pub duplicate_of_title : Option String

pub record TaskProposalRead : Type 0 where
  pub approval_id : ℕ
  pub run_id : ℕ
  pub action_id : ℕ
  pub status : ApprovalStatus
  pub project_id : ℕ
  pub project_name : String
  pub project_space : Space
  pub source_id : ℕ
  pub source_title : String
  pub source_type : String
  pub proposal : TaskProposalEdit
  pub requested_at : ℕ

pub record TaskInput : Type 0 where
  pub title : String
  pub description : Option String
  pub due_date : Option ℕ
  pub estimate_minutes : Option ℕ
  pub priority : Option String
  pub status : String

pub record TaskExecutionResult : Type 0 where
  pub task_id : ℕ
  pub duplicate : Bool
