-- ===== src/Services/Execution.antt =====
-- backend/app/services/execution.py: `ExecutionService.execute`, which publishes approved lecture
-- notes. The runtime, the number of polls that the settings allow, and the validation of the
-- runtime's result by pydantic are parameters.
pub mod Guards
pub mod Ends
pub mod Outcome
pub mod Retry
use relay.Prelude.{
  ℕ, Bool, true, false, Option, none, some, List, [], ◌∷◌, ◌++◌, String, find, any, not, ◌==◌, ◌&&◌,
  ◌||◌, str_eq, if◌then◌else◌,
}
use relay.Domain.Enums.{
  WorkflowStatus as S, ActionStatus, ApprovalStatus, ExecutionStatus, is_workflow, is_approval,
  is_execution,
}
use relay.Domain.Errors.{
  Result, ok, err, code, approval_required, learn_workflow_invalid_state, other_exception,
}
use relay.Json.{Json, Fields, get_field, set_field, truthy}
use relay.Store.{
  Key, same_key, ExecutionSnapshot, ResultPayload, WorkflowRun, ProposedAction, ApprovalRequest,
  ExternalArtifact, Metadata, uuid, text, flag, optional, runtime_status,
}
use relay.Session.{
  Exec, pure, raise, lift, gets, or_raise, raise_if, modify, commit, uuid4, attempt, record_event,
  ◌>>=◌, ◌>>◌,
}
use relay.Repository.{run, load_run, actions, run_approvals, set_run, set_action}
use relay.Runtime.Client.{
  ExecutionRequest, RuntimeClient, workflow_status_for_runtime, runtime_status_is_terminal,
  is_recoverable, run_has_recoverable_runtime_error, mark_runtime_recoverable, poll_until_terminal,
}
use relay.Services.Workflows.{apply_transition}

-- The fields of connectors/notion/schemas.py that the service reads.
pub record ExternalArtifactResult : Type 0 where
  pub external_id : String
  pub external_url : String
  pub destination_id : Option String
  pub simulated : Bool

-- `OPERATION` of backend/app/workflows/lecture_notes/actions.py
abbrev pub operation : String
operation = "create_notion_study_page"

abbrev pub learn_key : ℕ → ℕ → Key
learn_key run_id id = record { prefix = "learn"; parts = run_id ∷ id ∷ []; suffix = "" }

-- The single action of the run and its single approval.
unfoldable pub only_pair :
    String → List ProposedAction → List ApprovalRequest → Option (ProposedAction × ApprovalRequest)
only_pair name [] apps = none
only_pair name (action ∷ []) [] = none
only_pair name (action ∷ []) (approval ∷ []) =
    if str_eq action.action_type name then some (action, approval) else none
only_pair name (action ∷ []) (approval ∷ other ∷ apps) = none
only_pair name (action ∷ other ∷ acts) apps = none

-- The body of the loop that copies a connection field of the action into the approved payload.
unfoldable pub copy_field : Fields → String → Fields → Fields
copy_field source name target = elim (get_field name source) [
  | none ↦ target
  | some value ↦ if truthy value then set_field name value target else target
]

unfoldable pub copy_fields : Fields → List String → Fields → Fields
unfolding copy_field
copy_fields source [] target = target
copy_fields source (name ∷ names) target = copy_fields source names (copy_field source name target)

abbrev pub connection_fields : List String
connection_fields =
    "connection_id" ∷ "parent_destination_id" ∷ "parent_destination_title" ∷ "workspace_id"
    ∷ "workspace_name" ∷ []

unfoldable pub submitted_payload : Json → Json → Json
unfolding copy_fields
submitted_payload (Json.obj approved) (Json.obj current) =
    Json.obj (copy_fields current connection_fields approved)
submitted_payload approved current = approved

abbrev pub has_key : Key → ExternalArtifact → Bool
has_key k a = same_key a.idempotency_key k

-- The artifact of an earlier execution is taken over.
unfoldable pub reuse_artifact : ℕ → ℕ → ProposedAction → ExternalArtifact → Exec WorkflowRun
reuse_artifact run_id owner action existing = do
  set_run run_id (λ r. record r {
    result_payload = some (record {
      execution = none;
      correlation_id = none;
      artifact_id = some existing.id;
      artifact = some (existing.external_id, existing.external_url);
      tally = none;
      results = none;
      task_id = none;
    });
  })
  set_action action.id (λ a. record a { status = ActionStatus.completed })
  apply_transition run_id S.completed owner
  commit
  load_run run_id

-- APPROVED is left through QUEUED, which is committed, to EXECUTING.
unfoldable pub begin_execution : WorkflowRun → ℕ → ProposedAction → Exec Unit
begin_execution r owner action =
    if is_workflow r.status S.approved
    then (do
      apply_transition r.id S.queued owner
      set_action action.id (λ a. record a { status = ActionStatus.queued })
      record_event owner "EXECUTION_SUBMITTED" r.id (("action_id", uuid action.id) ∷ [])
      commit
      locked ← run r.id owner
      apply_transition locked.id S.executing owner)
    else pure tt

-- A snapshot that polling left open.
unfoldable pub settle_open : ℕ → ℕ → ProposedAction → ExecutionSnapshot → Exec WorkflowRun
settle_open run_id owner action snapshot = do
  set_action action.id (λ a. record a {
    status =
        if is_execution snapshot.status ExecutionStatus.queued
        then ActionStatus.queued
        else ActionStatus.executing;
  })
  r ← load_run run_id
  (if not (is_workflow r.status (workflow_status_for_runtime snapshot.status))
      then apply_transition run_id (workflow_status_for_runtime snapshot.status) owner
      else pure tt)
  record_event owner "RUNTIME_STATUS_SYNCED" run_id (
      ("runtime_execution_id", uuid snapshot.execution_id)
      ∷ ("status", runtime_status snapshot.status)
      ∷ [])
  commit
  load_run run_id

unfoldable pub settle_cancelled : ℕ → ℕ → ProposedAction → Exec WorkflowRun
settle_cancelled run_id owner action = do
  set_action action.id (λ a. record a { status = ActionStatus.failed })
  apply_transition run_id S.cancelled owner
  commit
  load_run run_id

-- `session.add(artifact)` and `flush`, with the constraint that its key is unique.
unfoldable pub add_artifact : ExternalArtifact → Exec Unit
add_artifact a = do
  taken ← gets (λ db. any (has_key a.idempotency_key) db.artifacts)
  raise_if taken other_exception
  modify (λ db. record db { artifacts = db.artifacts ++ a ∷ [] })

abbrev pub with_artifact : ℕ → WorkflowRun → WorkflowRun
with_artifact id r = record r {
  result_payload = elim r.result_payload [
    | none ↦ none
    | some p ↦ some (record p { artifact_id = some id })
  ];
}

unfoldable pub settle_succeeded :
    ℕ → ℕ → ProposedAction → Key → ExternalArtifactResult → Exec WorkflowRun
settle_succeeded run_id owner action idempotency_key result = do
  id ← uuid4
  add_artifact (record {
    id = id;
    workflow_run_id = run_id;
    proposed_action_id = action.id;
    artifact_type = if not result.simulated then "notion_study_page" else "mock_notion_study_page";
    external_id = result.external_id;
    external_url = result.external_url;
    idempotency_key = idempotency_key;
  })
  set_run run_id (with_artifact id)
  set_action action.id (λ a. record a { status = ActionStatus.completed })
  record_event owner "EXTERNAL_ACTION_COMPLETED" run_id
      (("artifact_id", uuid id) ∷ ("simulated", flag result.simulated) ∷ [])
  record_event owner "NOTION_PAGE_CREATED" run_id
      (("artifact_id", uuid id) ∷ ("destination_id", optional result.destination_id) ∷ [])
  record_event owner "EXTERNAL_ARTIFACT_RECORDED" run_id (("artifact_id", uuid id) ∷ [])
  apply_transition run_id S.completed owner
  record_event owner "WORKFLOW_COMPLETED" run_id []
  commit
  load_run run_id

-- `snapshot.error_code or "EXECUTION_FAILED"`
abbrev pub or_failed : Option String → String
or_failed none = "EXECUTION_FAILED"
or_failed (some c) = if str_eq c "" then "EXECUTION_FAILED" else c

unfoldable pub settle_failed : ℕ → ℕ → ProposedAction → Option String → Exec WorkflowRun
settle_failed run_id owner action error_code = do
  set_action action.id (λ a. record a { status = ActionStatus.failed })
  set_run run_id (λ r. record r { error_code = some (or_failed error_code) })
  record_event owner "NOTION_PAGE_CREATE_FAILED" run_id
      (("error_code", text (or_failed error_code)) ∷ [])
  record_event owner "EXTERNAL_ACTION_FAILED" run_id
      (("error_code", text (or_failed error_code)) ∷ [])
  apply_transition run_id S.failed owner
  commit
  load_run run_id

module _ (validate : Json → Result ExternalArtifactResult) where
  -- What a terminal snapshot other than a cancelled one makes of the run.
  unfoldable pub settle_terminal :
      ℕ → ℕ → ProposedAction → Key → ExecutionSnapshot → Exec WorkflowRun
  settle_terminal run_id owner action idempotency_key snapshot =
      if is_execution snapshot.status ExecutionStatus.succeeded
      then elim snapshot.result [
        | none ↦ settle_failed run_id owner action snapshot.error_code
        | some value ↦
            lift (validate value) >>= settle_succeeded run_id owner action idempotency_key
      ]
      else settle_failed run_id owner action snapshot.error_code

  -- Everything after polling.
  unfoldable pub settle_snapshot :
      ℕ → ℕ → ProposedAction → Key → Key → ExecutionSnapshot → Exec WorkflowRun
  settle_snapshot run_id owner action idempotency_key correlation_id snapshot = do
    set_run run_id (λ r. record r {
      runtime_execution_id = some snapshot.execution_id;
      result_payload = some (record {
        execution = some snapshot;
        correlation_id = some correlation_id;
        artifact_id = none;
        artifact = none;
        tally = none;
        results = none;
        task_id = none;
      });
    })
    (if not (runtime_status_is_terminal snapshot.status)
        then settle_open run_id owner action snapshot
        else if is_execution snapshot.status ExecutionStatus.cancelled
        then settle_cancelled run_id owner action
        else settle_terminal run_id owner action idempotency_key snapshot)

  module _ (runtime : RuntimeClient) (poll_attempts : ℕ) where
    -- What follows the submission, which may have raised.
    unfoldable pub after_submission :
        ℕ → ℕ → ProposedAction → Key → Key → Result ExecutionSnapshot → Exec WorkflowRun
    unfolding settle_snapshot settle_terminal
    after_submission run_id owner action idempotency_key correlation_id (ok snapshot) = do
      polled ← poll_until_terminal runtime poll_attempts snapshot
      settle_snapshot run_id owner action idempotency_key correlation_id polled
    after_submission run_id owner action idempotency_key correlation_id (err e) =
        if is_recoverable e
        then (do
          mark_runtime_recoverable owner run_id ActionStatus.executing action.id correlation_id
              (code e)
          commit
          load_run run_id)
        else raise e

    unfoldable pub submit : WorkflowRun → ℕ → ProposedAction → Key → Json → Exec WorkflowRun
    unfolding after_submission
    submit r owner action idempotency_key payload = do
      begin_execution r owner action
      set_action action.id (λ a. record a { status = ActionStatus.executing })
      record_event owner "EXTERNAL_EXECUTION_STARTED" r.id (("action_id", uuid action.id) ∷ [])
      record_event owner "NOTION_PAGE_CREATE_STARTED" r.id []
      outcome ← attempt (
          runtime.submit_execution (record {
            workflow_run_id = r.id;
            proposed_action_id = action.id;
            action_type = action.action_type;
            approved_payload = submitted_payload payload action.payload;
            idempotency_key = idempotency_key;
            correlation_id = learn_key r.id action.id;
          }))
      after_submission r.id owner action idempotency_key (learn_key r.id action.id) outcome

    unfoldable pub publish :
        WorkflowRun → ℕ → ProposedAction → Key → Json → Option ExternalArtifact → Exec WorkflowRun
    unfolding submit
    publish r owner action idempotency_key payload (some existing) =
        reuse_artifact r.id owner action existing
    publish r owner action idempotency_key payload none =
        submit r owner action idempotency_key payload

    unfoldable pub execute_open : WorkflowRun → ℕ → Exec WorkflowRun
    unfolding publish
    execute_open r owner = do
      raise_if (not (is_workflow r.status S.approved) && not (run_has_recoverable_runtime_error r))
          learn_workflow_invalid_state
      acts ← actions r.id
      apps ← run_approvals r.id
      pair ← or_raise (only_pair operation acts apps) approval_required
      raise_if (not (is_approval pair.1.status ApprovalStatus.approved)) approval_required
      payload ← or_raise pair.1.approved_payload approval_required
      existing ← gets (λ db. find (has_key (learn_key r.id pair.1.id)) db.artifacts)
      publish r owner pair.0 (learn_key r.id pair.1.id) payload existing

    -- `ExecutionService.execute`
    unfoldable pub execute : ℕ → ℕ → Exec WorkflowRun
    unfolding execute_open
    execute run_id owner = do
      r ← run run_id owner
      if is_workflow r.status S.completed then pure r else execute_open r owner
