-- ===== src/Examples/Executions.antt =====
-- Examples of the runtime's clients and of the services that execute.
use relay.Prelude.{◌≡◌, ◌≢◌, refl, ◌⊎◌, true, false, Option, none, some, List, [], ◌∷◌, String}
use relay.Domain.Enums.{WorkflowStatus as S, ActionStatus, ApprovalStatus, ExecutionStatus}
use relay.Domain.Errors.{
  DomainError, Result, ok, err, invalid_workflow_transition, runtime_unauthorized,
  runtime_malformed_response, runtime_unavailable, other_exception,
}
use relay.Domain.Workflows.{one_of, transition, transitions, terminal_states}
use relay.Json.{Json, get_field}
use relay.Store.{ExecutionSnapshot, WorkflowRun, ProposedAction, ActionResult}
use relay.Session.{Session, ◌>>=◌, record_event, commit, attempt, uuid4}
use relay.Repository.{run, load_run, actions, run_approvals, set_run, set_action}
use relay.Runtime.Client.{
  ExecutionRequest, RuntimeClient, workflow_status_for_runtime, runtime_status_is_terminal,
  is_recoverable, run_has_recoverable_runtime_error, stops_polling, poll_next, poll_until_terminal,
}
use relay.Runtime.Client.Polling.{Polled, poll_until_terminal-Polled}
use relay.Runtime.Http.{response, interpret, is_retried, is_uncertain, interpret-is_uncertain}
use relay.Runtime.Local.{
  Connectors, task_outcome, perform, add_execution, caught, run_once, submit_found,
  submit_execution,
}
use relay.Runtime.Local.Replay.{submit_execution_twice}
use relay.Services.Workflows.{gate_fails, apply_transition}
use relay.Services.Execution.{
  ExternalArtifactResult, only_pair, submitted_payload, begin_execution, settle_succeeded,
  settle_terminal, settle_snapshot, add_artifact, after_submission, submit, publish, execute_open,
  execute, copy_field, copy_fields,
}
use relay.Services.Execution.Ends.{IsSettled}
use relay.Services.Execution.Guards.{IsReady, execute-IsReady}
use relay.Services.Execution.Outcome.{settle_snapshot-IsSettled}
use relay.Services.Execution.Retry.{
  IsRecoverable, unavailable, settle_snapshot-queued, after_submission-IsRecoverable,
}
use relay.Services.StudyPlan.{
  CalendarEventResult, StudyPlan, keep_artifacts, finish, finish_partial, settle_result,
  settle_plan,
}
use relay.Services.StudyPlan.Result.{settle_plan-IsSettled}
use relay.Services.Cancellation.{cancel_open, cancel, cancel-IsSettled}
use relay.Services.Collaborate.{conclude_partial, conclude}
use relay.Services.Collaborate.Conclusion.{conclude-IsSettled}
use relay.Examples.Samples.{
  payload, run_in, action_in, request_in, study_page, approved, executing, snapshot_in, key,
}

abbrev validate : Json → Result ExternalArtifactResult
validate value = ok (record {
  external_id = "p1";
  external_url = "https://notion.so/p1";
  destination_id = none;
  simulated = false;
})

-- A runtime that answers every call with one error.
abbrev failing : DomainError → RuntimeClient
failing e = record {
  submit_execution = λ request s. (err e, s);
  get_execution = λ id s. (err e, s);
  cancel_execution = λ id s. (err e, s);
}

abbrev page_action : ProposedAction
page_action = action_in study_page ActionStatus.executing

execute_differs :
    execute validate (failing runtime_unauthorized) 3 1 7 approved
    ≢ execute validate (failing runtime_malformed_response) 3 1 7 approved
unfolding execute execute_open publish submit after_submission submitted_payload copy_fields
    copy_field get_field only_pair begin_execution is_recoverable run_has_recoverable_runtime_error
    set_run set_action record_event run load_run actions run_approvals apply_transition transition
    transitions terminal_states gate_fails commit attempt ◌>>=◌
execute_differs same = cc

execute-IsReady_example : IsReady 1 7 approved
execute-IsReady_example =
    execute-IsReady validate (failing runtime_unauthorized) (failing runtime_malformed_response) 3 3
      1 7 approved execute_differs

abbrev done : ExecutionSnapshot
done = snapshot_in ExecutionStatus.succeeded (some payload) none

abbrev settled : Result WorkflowRun × Session
settled = settle_snapshot validate 1 7 page_action key key done executing

abbrev row_of : Result WorkflowRun × Session → WorkflowRun
row_of (ok r, s) = r
row_of (err e, s) = run_in S.draft

settle_snapshot-IsSettled_example : IsSettled 1 S.completed (row_of settled) settled.1
unfolding settle_snapshot settle_terminal settle_succeeded add_artifact set_run set_action
    runtime_status_is_terminal record_event uuid4 load_run actions run_approvals apply_transition
    transition transitions terminal_states gate_fails commit ◌>>=◌
settle_snapshot-IsSettled_example =
    settle_snapshot-IsSettled validate 1 7 page_action key key done executing settled.1
      (row_of settled) refl refl

settle_snapshot-queued_example :
    (settle_snapshot validate 1 7 page_action key key
      (snapshot_in ExecutionStatus.queued none none)
      executing).0
    ≡ err invalid_workflow_transition
settle_snapshot-queued_example =
    settle_snapshot-queued validate 1 7 page_action key key
      (snapshot_in ExecutionStatus.queued none none) executing (run_in S.executing) refl refl refl
      refl

after_submission-IsRecoverable_example : IsRecoverable 1 (
    after_submission validate
      (failing runtime_unavailable)
      3
      1
      7
      page_action
      key
      key
      (err runtime_unavailable)
      executing)
after_submission-IsRecoverable_example =
    after_submission-IsRecoverable validate 1 7 page_action key key (failing runtime_unavailable) 3
      runtime_unavailable executing (run_in S.executing) unavailable refl

abbrev validate_event : Option Json → Result CalendarEventResult
validate_event value = ok (record { external_id = "e1"; external_url = "https://calendar/e1" })

abbrev validate_plan : Json → Result StudyPlan
validate_plan value = ok (record { events = value ∷ [] })

abbrev python_str : Option Json → String
python_str value = "0"

abbrev booked : Result WorkflowRun × Session
booked =
    settle_plan validate_event validate_plan python_str 1 7 page_action
      (request_in ApprovalStatus.approved (some payload) (some 7)) payload
      (snapshot_in ExecutionStatus.partial none none) executing

settle_plan-IsSettled_example :
    IsSettled 1 (workflow_status_for_runtime ExecutionStatus.partial) (row_of booked) booked.1
unfolding settle_plan settle_result keep_artifacts finish finish_partial set_run set_action
    runtime_status_is_terminal record_event load_run actions run_approvals apply_transition
    transition transitions terminal_states gate_fails commit ◌>>=◌
settle_plan-IsSettled_example =
    settle_plan-IsSettled validate_event validate_plan python_str 1 7 page_action
      (request_in ApprovalStatus.approved (some payload) (some 7)) payload
      (snapshot_in ExecutionStatus.partial none none) executing booked.1 (row_of booked) refl refl

abbrev two_results : List ActionResult
two_results =
    record { action_id = 10; status = ExecutionStatus.succeeded; error_code = none }
    ∷ record { action_id = 11; status = ExecutionStatus.failed; error_code = some "X" }
    ∷ []

abbrev concluded : Result WorkflowRun × Session
concluded = conclude 1 7 two_results executing

conclude-IsSettled_example : IsSettled 1 S.partially_completed (row_of concluded) concluded.1
unfolding conclude conclude_partial run set_run record_event load_run actions run_approvals
    apply_transition transition transitions terminal_states gate_fails commit ◌>>=◌
conclude-IsSettled_example =
    conclude-IsSettled 1 7 two_results executing concluded.1 (row_of concluded) refl refl

abbrev cancelled : Result WorkflowRun × Session
cancelled = cancel (failing runtime_unavailable) 1 7 executing

cancel-IsSettled_example :
    ((cancelled.1 ≡ executing) × (one_of (row_of cancelled).status terminal_states ≡ true))
    ⊎ IsSettled 1 S.cancelled (row_of cancelled) cancelled.1
unfolding cancel cancel_open run record_event load_run actions run_approvals apply_transition
    transition transitions terminal_states gate_fails set_run commit ◌>>=◌
cancel-IsSettled_example =
    cancel-IsSettled (failing runtime_unavailable) 1 7 executing cancelled.1 (row_of cancelled) refl

abbrev connectors : Result (String × String) → Connectors
connectors validated = record {
  notion = none;
  calendar = none;
  github = none;
  validate_plan = λ value. err other_exception;
  validate_task = λ value. validated;
}

abbrev task_request : ExecutionRequest
task_request = record {
  workflow_run_id = 1;
  proposed_action_id = 10;
  action_type = "create_relay_task";
  approved_payload = payload;
  idempotency_key = key;
  correlation_id = key;
}

abbrev created : ExecutionSnapshot
created = record {
  execution_id = 100;
  status = ExecutionStatus.succeeded;
  result = some (task_outcome ("5", "6"));
  error_code = none;
}

abbrev after_task : Session
after_task = (submit_execution (connectors (ok ("5", "6"))) task_request executing).1

submit_execution_twice_example :
    submit_execution (connectors (err other_exception)) task_request after_task
    ≡ (ok created, after_task)
unfolding submit_execution submit_found run_once perform add_execution caught uuid4 attempt ◌>>=◌
submit_execution_twice_example =
    submit_execution_twice (connectors (ok ("5", "6"))) (connectors (err other_exception))
      task_request executing after_task created refl

poll_until_terminal-Polled_example :
    Polled
      (failing runtime_unauthorized)
      3
      (snapshot_in ExecutionStatus.running none none)
      executing
      (err runtime_unauthorized)
      executing
unfolding poll_until_terminal poll_next runtime_status_is_terminal stops_polling attempt ◌>>=◌
poll_until_terminal-Polled_example =
    poll_until_terminal-Polled (failing runtime_unauthorized) 3
      (snapshot_in ExecutionStatus.running none none) executing

interpret-is_uncertain_example :
    is_retried (interpret true (response 502 none)) ≡ is_uncertain (response 502 none)
interpret-is_uncertain_example = interpret-is_uncertain true (response 502 none)
