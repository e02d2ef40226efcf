-- ===== src/Examples/Tasks.antt =====
-- Examples of connections, projects and tasks.
use relay.Prelude.{◌≡◌, ◌≢◌, ◌⊎◌, refl, false, none, some, [], ◌∷◌, String, All}
use relay.Domain.Enums.{WorkflowStatus as S, ActionStatus, ApprovalStatus}
use relay.Domain.Errors.{
  DomainError, Result, ok, err, runtime_unauthorized, runtime_malformed_response,
  source_processing_failed, other_exception,
}
use relay.Domain.Workflows.{transition, transitions, terminal_states}
use relay.Json.{Json}
use relay.Store.{
  Provider, ConnectionStatus, ConnectedAccount, Space, ProjectWorkspace, ProjectSource,
  ProposedAction, Database,
}
use relay.Session.{Session, ◌>>=◌, record_event, record_own_event, commit, rollback, attempt, uuid4}
use relay.Session.Keeps.{Keeps}
use relay.Repository.{
  run, load_run, approval, actions, run_approvals, set_run, set_action, set_approval,
}
use relay.Repository.Content.{project, source, add_task}
use relay.Runtime.Client.{RuntimeClient}
use relay.Services.Workflows.{gate_fails, apply_transition}
use relay.Services.Connections.{
  OAuthCredentials, mark, disconnect, create, replace, disconnect_one, disconnect_all,
  set_connection,
}
use relay.Services.Connections.Tokens.{AllSafe, connections-AllSafe}
use relay.Services.Connections.Disconnected.{is_live, disconnect-revokes}
use relay.Services.Projects.{delete}
use relay.Services.Projects.Deletion.{AreIntact, delete-AreIntact}
use relay.Sources.Schemas.{
  SourceCaptureInput, TaskProposalEdit, TaskProposalRead, TaskExecutionResult,
}
use relay.Sources.Capture.{add_source, process, conclude_capture, capture}
use relay.Sources.Capture.Atomic.{Failed, capture-err}
use relay.Sources.Execution.{
  operation, single_pair, submit_task, execute_new, execute_once, execute, create_task,
  conclude_task,
}
use relay.Sources.Execution.Guards.{IsReady, execute_task-IsReady}
use relay.Sources.Execution.Created.{IsCreated, create_task-IsCreated}
use relay.Sources.Proposals.{
  edit, owned, save, list, read_all, read_one, show_one, join_all, join_one, latest_first,
  insert_request,
}
use relay.Sources.Proposals.Saved.{IsSaved, edit_roundtrip}
use relay.Examples.Samples.{run_in, action_in, request_in, session_of}

abbrev credentials : OAuthCredentials
credentials = record {
  external_account_id = "w1";
  display_name = "Ana";
  access_token = "secret";
  refresh_token = none;
  expires_at = none;
  scopes = [];
}

connections-AllSafe_example :
    Keeps AllSafe (mark 7 3 ConnectionStatus.revoked)
    × Keeps AllSafe (disconnect 7 Provider.notion)
    × Keeps AllSafe (create (λ token. token) 7 Provider.notion credentials)
    × Keeps AllSafe (replace (λ token. token) 7 3 credentials)
connections-AllSafe_example =
    connections-AllSafe (λ token. token) 7 3 Provider.notion ConnectionStatus.revoked credentials

abbrev account : ConnectedAccount
account = record {
  id = 3;
  user_id = 7;
  provider = Provider.notion;
  external_account_id = "w1";
  display_name = "Ana";
  access_token_encrypted = some "x";
  refresh_token_encrypted = none;
  token_expires_at = none;
  scopes = [];
  status = ConnectionStatus.connected;
}

abbrev workspace : ProjectWorkspace
workspace = record {
  id = 8;
  user_id = 7;
  name = "Thesis";
  space = Space.school;
  description = none;
  deadline = none;
  course = none;
  notion_database_id = none;
  notion_property_mapping = none;
  github_repository_owner = none;
  github_repository_name = none;
}

abbrev brief : ProjectSource
brief = record {
  id = 9;
  user_id = 7;
  project_workspace_id = 8;
  source_type = "ASSIGNMENT_BRIEF";
  title = "Brief";
  original_filename = none;
  content = "Write";
  status = "READY";
  error_message = none;
}

abbrev proposal : String → TaskProposalEdit
proposal title = record {
  title = title;
  description = none;
  due_date = none;
  estimate_minutes = some 30;
  priority = none;
  owner = none;
  source_reference = none;
  reason = none;
  needs_confirmation = [];
  source_id = 9;
  project_id = 8;
  possible_duplicate = false;
  duplicate_of_title = none;
}

-- A codec that knows the title only.
abbrev dump_title : TaskProposalEdit → Json
dump_title p = Json.str p.title

abbrev validate_title : Json → Result TaskProposalEdit
validate_title (Json.str title) = ok (proposal title)
validate_title _ = ok (proposal "")

abbrev with_rows : Session → Session
with_rows s =
    let db : Database = record s.working {
      connections = account ∷ [];
      projects = workspace ∷ [];
      sources = brief ∷ [];
    } in
    record s { committed = db; working = db }

abbrev task_action : ActionStatus → ProposedAction
task_action status = record (action_in operation status) { payload = Json.str "Read" }

abbrev task_session : S → ActionStatus → ApprovalStatus → Session
task_session status action_status approval_status = with_rows (
    session_of (run_in status) (task_action action_status) (
      record (request_in approval_status none none) { approved_payload = some (Json.str "Read") }
      ∷ []))

abbrev second : {A B : Type 0} → A × B → B
second pair = pair.1

disconnect-revokes_example :
    All
      (λ c. is_live 7 Provider.notion c ≡ false)
      (second (
        disconnect 7 Provider.notion (
          task_session S.draft ActionStatus.proposed ApprovalStatus.pending))).committed.connections
unfolding disconnect disconnect_all disconnect_one set_connection record_own_event commit ◌>>=◌
disconnect-revokes_example =
    disconnect-revokes 7 Provider.notion
      (task_session S.draft ActionStatus.proposed ApprovalStatus.pending) _ refl

delete-AreIntact_example : Keeps AreIntact (delete 7 8)
delete-AreIntact_example = delete-AreIntact 7 8

abbrev ready : Session
ready = task_session S.approved ActionStatus.approved ApprovalStatus.approved

abbrev failing : DomainError → RuntimeClient
failing e = record {
  submit_execution = λ request s. (err e, s);
  get_execution = λ id s. (err e, s);
  cancel_execution = λ id s. (err e, s);
}

execute_differs :
    execute validate_title (failing runtime_unauthorized) 3 1 7 ready
    ≢ execute validate_title (failing runtime_malformed_response) 3 1 7 ready
unfolding execute execute_once execute_new submit_task single_pair set_run set_action record_event
    run load_run actions run_approvals apply_transition transition transitions terminal_states
    gate_fails commit ◌>>=◌
execute_differs same = cc

execute_task-IsReady_example : IsReady 1 7 ready
execute_task-IsReady_example =
    execute_task-IsReady validate_title (failing runtime_unauthorized)
      (failing runtime_malformed_response) 3 3 1 7 ready execute_differs

abbrev running : Session
running = task_session S.executing ActionStatus.executing ApprovalStatus.approved

abbrev outcome : TaskExecutionResult
outcome = record { task_id = 100; duplicate = false }

create_task-IsCreated_example :
    IsCreated 7
      (task_action ActionStatus.executing)
      (proposal "Read")
      running
      outcome
      (second (create_task 1 7 (task_action ActionStatus.executing) (proposal "Read") running))
unfolding create_task conclude_task project source uuid4 add_task set_run set_action record_event
    load_run actions run_approvals apply_transition transition transitions terminal_states
    gate_fails commit ◌>>=◌
create_task-IsCreated_example =
    create_task-IsCreated 1 7 (task_action ActionStatus.executing) (proposal "Read") running _
      outcome refl

abbrev asked : Session
asked = task_session S.awaiting_approval ActionStatus.proposed ApprovalStatus.pending

abbrev shown : TaskProposalRead
shown = record {
  approval_id = 20;
  run_id = 1;
  action_id = 10;
  status = ApprovalStatus.pending;
  project_id = 8;
  project_name = "Thesis";
  project_space = Space.school;
  source_id = 9;
  source_title = "Brief";
  source_type = "ASSIGNMENT_BRIEF";
  proposal = proposal "Read twice";
  requested_at = 0;
}

edit_roundtrip_example :
    IsSaved dump_title
      (proposal "Read twice")
      20
      shown
      (second (edit validate_title dump_title 20 7 (proposal "Read twice") asked))
unfolding edit owned save list read_all read_one show_one join_all join_one latest_first
    insert_request approval run project source set_action set_approval record_event commit ◌>>=◌
edit_roundtrip_example =
    edit_roundtrip validate_title dump_title (proposal "Read twice") refl 20 7 asked
      (second (edit validate_title dump_title 20 7 (proposal "Read twice") asked)) shown refl

abbrev input : SourceCaptureInput
input = record {
  source_type = "ASSIGNMENT_BRIEF";
  title = "Brief";
  content = "Write";
  original_filename = none;
}

abbrev failed_capture : Session
unfolding capture conclude_capture process project source add_source uuid4 attempt commit rollback
    ◌>>=◌
failed_capture = second (
    capture validate_title dump_title (λ title description known. none)
      (λ source user. err other_exception) 8 7 "Ana" input running)

capture-err_example :
    (failed_capture.committed ≡ running.committed)
    ⊎ Failed running.committed 100 7 8 input failed_capture
unfolding capture conclude_capture process project source add_source uuid4 attempt commit rollback
    ◌>>=◌
capture-err_example =
    capture-err validate_title dump_title (λ title description known. none)
      (λ source user. err other_exception) 8 7 "Ana" input running failed_capture
      source_processing_failed refl
