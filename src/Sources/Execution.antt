-- ===== src/Sources/Execution.antt =====
-- `TaskExecutionService.execute` of backend/app/sources/service.py. The runtime, the number of polls
-- and pydantic's validation of a payload are parameters.
pub mod Guards
pub mod Created
use relay.Prelude.{
  ℕ, Bool, true, false, Option, none, some, List, [], ◌∷◌, String, not, ◌==◌, ◌||◌, str_eq,
  if◌then◌else◌,
}
use relay.Domain.Enums.{
  WorkflowStatus as S, ActionStatus, ApprovalStatus, ExecutionStatus, is_workflow, is_approval,
  is_execution,
}
use relay.Domain.Errors.{Result, task_creation_failed, approval_payload_mismatch}
use relay.Json.{Json}
use relay.Store.{
  Key, ExecutionSnapshot, WorkflowRun, ProposedAction, ApprovalRequest, ProjectTask, ProjectSource,
  uuid,
}
use relay.Session.{
  Exec, pure, raise, lift, gets, or_raise, raise_if, commit, uuid4, record_event, ◌>>=◌, ◌>>◌,
}
use relay.Repository.{run, load_run, actions, run_approvals, set_run, set_action}
use relay.Repository.Content.{project, source, created_by, add_task}
use relay.Runtime.Client.{RuntimeClient, poll_until_terminal}
use relay.Services.Workflows.{apply_transition}
use relay.Sources.Schemas.{TaskProposalEdit, TaskExecutionResult}

-- `CREATE_TASK_OPERATION`
abbrev pub operation : String
operation = "create_relay_task"

abbrev pub task_key : ℕ → Key
task_key action_id = record { prefix = "source-task"; parts = action_id ∷ []; suffix = "" }

unfoldable pub single_pair :
    List ProposedAction → List ApprovalRequest → Option (ProposedAction × ApprovalRequest)
single_pair [] apps = none
single_pair (action ∷ []) [] = none
single_pair (action ∷ []) (approval ∷ []) = some (action, approval)
single_pair (action ∷ []) (approval ∷ other ∷ apps) = none
single_pair (action ∷ other ∷ acts) apps = none

-- `snapshot.error_code or "TASK_CREATION_FAILED"`
abbrev pub or_failed : Option String → String
or_failed none = "TASK_CREATION_FAILED"
or_failed (some c) = if str_eq c "" then "TASK_CREATION_FAILED" else c

-- The run fails, is committed, and the service raises.
unfoldable pub fail_task : ℕ → ℕ → ProposedAction → ExecutionSnapshot → Exec TaskExecutionResult
fail_task run_id owner action snapshot = do
  set_action action.id (λ a. record a { status = ActionStatus.failed })
  set_run run_id (λ r. record r { error_code = some (or_failed snapshot.error_code) })
  apply_transition run_id S.failed owner
  commit
  raise task_creation_failed

abbrev pub task_of : ℕ → ℕ → ProposedAction → TaskProposalEdit → ℕ → ℕ → ProjectTask
task_of id owner action edit project_id source_id = record {
  id = id;
  user_id = owner;
  project_workspace_id = project_id;
  title = edit.title;
  description = edit.description;
  due_date = edit.due_date;
  estimate_minutes = edit.estimate_minutes;
  priority = edit.priority;
  status = "TODO";
  source_id = some source_id;
  source_reference = edit.source_reference;
  proposed_action_id = some action.id;
}

abbrev pub with_task : ℕ → WorkflowRun → WorkflowRun
with_task id r = record r {
  result_payload = elim r.result_payload [
    | none ↦ none
    | some p ↦ some (record p { task_id = some id })
  ];
}

-- From the new task to the end.
unfoldable pub conclude_task : ℕ → ℕ → ProposedAction → ℕ → ℕ → Exec TaskExecutionResult
conclude_task run_id owner action id source_id = do
  set_action action.id (λ a. record a { status = ActionStatus.completed })
  set_run run_id (with_task id)
  apply_transition run_id S.completed owner
  record_event owner "TASK_CREATED_FROM_SOURCE" run_id
      (("task_id", uuid id) ∷ ("source_id", uuid source_id) ∷ [])
  commit
  pure (record { task_id = id; duplicate = false })

-- From the project and the source of the payload.
unfoldable pub create_task : ℕ → ℕ → ProposedAction → TaskProposalEdit → Exec TaskExecutionResult
unfolding conclude_task
create_task run_id owner action edit = do
  p ← project edit.project_id owner
  origin ← source edit.source_id owner
  raise_if (not (origin.project_workspace_id == p.id)) approval_payload_mismatch
  id ← uuid4
  add_task (task_of id owner action edit p.id origin.id)
  conclude_task run_id owner action id origin.id

-- What the runtime's last snapshot leads to.
unfoldable pub settle_task :
    ℕ → ℕ → ProposedAction → TaskProposalEdit → ExecutionSnapshot → Exec TaskExecutionResult
unfolding fail_task create_task
settle_task run_id owner action edit snapshot = do
  set_run run_id (λ r. record r {
    runtime_execution_id = some snapshot.execution_id;
    result_payload = some (record {
      execution = some snapshot;
      correlation_id = none;
      artifact_id = none;
      artifact = none;
      tally = none;
      results = none;
      task_id = none;
    });
  })
  if is_execution snapshot.status ExecutionStatus.succeeded
      then create_task run_id owner action edit
      else fail_task run_id owner action snapshot

module _ (validate : Json → Result TaskProposalEdit) (runtime : RuntimeClient)
    (poll_attempts : ℕ) where
  -- The submission of an approved proposal.
  unfoldable pub submit_task : ℕ → ℕ → ProposedAction → Json → Exec TaskExecutionResult
  unfolding settle_task
  submit_task run_id owner action payload = do
    apply_transition run_id S.queued owner
    set_action action.id (λ a. record a { status = ActionStatus.queued })
    commit
    locked ← run run_id owner
    apply_transition locked.id S.executing owner
    set_action action.id (λ a. record a { status = ActionStatus.executing })
    edit ← lift (validate payload)
    snapshot ← runtime.submit_execution (record {
      workflow_run_id = run_id;
      proposed_action_id = action.id;
      action_type = operation;
      approved_payload = payload;
      idempotency_key = task_key action.id;
      correlation_id = task_key action.id;
    })
    polled ← poll_until_terminal runtime poll_attempts snapshot
    settle_task run_id owner action edit polled

  unfoldable pub execute_new :
      WorkflowRun → ℕ → ProposedAction × ApprovalRequest → Exec TaskExecutionResult
  unfolding submit_task
  execute_new r owner pair = do
    raise_if
        (not (is_workflow r.status S.approved)
          || not (is_approval pair.1.status ApprovalStatus.approved))
        task_creation_failed
    payload ← or_raise pair.1.approved_payload task_creation_failed
    submit_task r.id owner pair.0 payload

  unfoldable pub execute_once :
      WorkflowRun
      → ℕ
      → ProposedAction × ApprovalRequest
      → Option ProjectTask
      → Exec TaskExecutionResult
  unfolding execute_new
  execute_once r owner pair (some existing) =
      pure (record { task_id = existing.id; duplicate = true })
  execute_once r owner pair none = execute_new r owner pair

  -- `TaskExecutionService.execute`
  unfoldable pub execute : ℕ → ℕ → Exec TaskExecutionResult
  unfolding execute_once
  execute run_id owner = do
    r ← run run_id owner
    acts ← actions r.id
    apps ← run_approvals r.id
    pair ← or_raise (single_pair acts apps) task_creation_failed
    existing ← gets (created_by pair.0.id)
    execute_once r owner pair existing
