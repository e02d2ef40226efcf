-- ===== src/Examples/Samples.antt =====
-- A run of one action with one approval, in the states that the examples start from.
use relay.Prelude.{ℕ, Option, none, some, List, [], ◌∷◌, String}
use relay.Domain.Enums.{WorkflowStatus as S, ActionStatus, ApprovalStatus, ExecutionStatus}
use relay.Json.{Json, Fields}
use relay.Store.{Key, ExecutionSnapshot, WorkflowRun, ProposedAction, ApprovalRequest, Database}
use relay.Session.{Session}

abbrev pub payload : Json
payload = Json.obj (Fields.field "title" (Json.str "Graphs") Fields.end)

abbrev pub run_in : S → WorkflowRun
run_in s = record {
  id = 1;
  user_id = 7;
  workflow_definition_id = 3;
  project_workspace_id = none;
  status = s;
  input_payload = payload;
  runtime_execution_id = none;
  result_payload = none;
  error_code = none;
  updated_at = 0;
  started_at = none;
  completed_at = none;
}

abbrev pub action_in : String → ActionStatus → ProposedAction
action_in name s = record {
  id = 10;
  workflow_run_id = 1;
  action_type = name;
  payload = payload;
  status = s;
}

abbrev pub request_in : ApprovalStatus → Option Json → Option ℕ → ApprovalRequest
request_in s approved at = record {
  id = 20;
  workflow_run_id = 1;
  proposed_action_id = 10;
  status = s;
  original_payload = payload;
  approved_payload = approved;
  requested_at = 0;
  resolved_at = at;
  resolved_by = at;
}

abbrev pub session_of : WorkflowRun → ProposedAction → List ApprovalRequest → Session
session_of r action apps =
    let db : Database = record {
      definitions = [];
      runs = r ∷ [];
      actions = action ∷ [];
      approvals = apps;
      artifacts = [];
      executions = [];
      audit = [];
      connections = [];
      projects = [];
      members = [];
      sources = [];
      tasks = [];
      documents = [];
    } in
    record {
      committed = db;
      working = db;
      last_recorded_at = none;
      times = λ n. n;
      ticks = 0;
      uuids = 100;
    }

abbrev pub study_page : String
study_page = "create_notion_study_page"

abbrev pub waiting : Session
waiting =
    session_of (run_in S.awaiting_approval) (action_in study_page ActionStatus.proposed)
      (request_in ApprovalStatus.pending none none ∷ [])

abbrev pub approved : Session
approved =
    session_of (run_in S.approved) (action_in study_page ActionStatus.approved)
      (request_in ApprovalStatus.approved (some payload) (some 7) ∷ [])

abbrev pub executing : Session
executing =
    session_of (run_in S.executing) (action_in study_page ActionStatus.executing)
      (request_in ApprovalStatus.approved (some payload) (some 7) ∷ [])

abbrev pub snapshot_in : ExecutionStatus → Option Json → Option String → ExecutionSnapshot
snapshot_in s result error = record {
  execution_id = 50;
  status = s;
  result = result;
  error_code = error;
}

abbrev pub key : Key
key = record { prefix = "learn"; parts = 1 ∷ 20 ∷ []; suffix = "" }
