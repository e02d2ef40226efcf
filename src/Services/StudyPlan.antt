-- ===== src/Services/StudyPlan.antt =====
-- backend/app/workflows/study_plan/execution.py: `StudyPlanExecutionService.execute`, which books an
-- approved study plan. The steps that its text shares with `ExecutionService.execute` are the ones of
-- relay.Services.Execution. The runtime, the number of polls, the validations of pydantic and
-- Python's text of a value are parameters.
pub mod Result
use relay.Prelude.{
  ℕ, ◌+◌, Bool, true, false, Option, none, some, List, [], ◌∷◌, String, length, find, not, ◌&&◌,
  str_eq, if◌then◌else◌,
}
use relay.Domain.Enums.{
  WorkflowStatus as S, ActionStatus, ApprovalStatus, ExecutionStatus, is_workflow, is_approval,
  is_execution,
}
use relay.Domain.Errors.{
  Result as Fallible, ok, err, code, approval_required, plan_workflow_invalid_state,
}
use relay.Json.{Json, Items, Fields, get_field}
use relay.Store.{
  Key, ExecutionSnapshot, ResultPayload, Tally, WorkflowRun, ProposedAction, ApprovalRequest,
  ExternalArtifact, uuid, count, text,
}
use relay.Session.{
  Exec, pure, raise, lift, gets, or_raise, raise_if, commit, uuid4, attempt, record_event, ◌>>=◌,
  ◌>>◌,
}
use relay.Repository.{run, load_run, actions, run_approvals, set_run, set_action}
use relay.Runtime.Client.{
  RuntimeClient, runtime_status_is_terminal, is_recoverable, run_has_recoverable_runtime_error,
  mark_runtime_recoverable, poll_until_terminal,
}
use relay.Services.Workflows.{apply_transition, is_empty}
use relay.Services.Execution.{
  only_pair, begin_execution, settle_open, settle_cancelled, has_key, add_artifact,
}

-- The fields of connectors/google/schemas.py that the service reads.
pub record CalendarEventResult : Type 0 where
  pub external_id : String
  pub external_url : String

-- A validated plan, of which the service reads the number of its events.
pub record StudyPlan : Type 0 where
  pub events : List Json

-- `OPERATION` of backend/app/workflows/study_plan/actions.py
abbrev pub operation : String
operation = "create_google_calendar_study_blocks"

abbrev pub plan_key : ℕ → ℕ → String → Key
plan_key run_id id index = record { prefix = "plan"; parts = run_id ∷ id ∷ []; suffix = index }

-- `x if isinstance(x, list) else []`
abbrev pub items_of : Option Json → Items
items_of none = Items.nil
items_of (some (Json.arr items)) = items
items_of (some Json.null) = Items.nil
items_of (some (Json.bool b)) = Items.nil
items_of (some (Json.num n)) = Items.nil
items_of (some (Json.str s)) = Items.nil
items_of (some (Json.obj fs)) = Items.nil

abbrev pub items_length : Items → ℕ
items_length Items.nil = 0
items_length (Items.cons item items) = 1 + items_length items

abbrev pub field_of : String → Option Json → Option Json
field_of name none = none
field_of name (some (Json.obj fs)) = get_field name fs
field_of name (some Json.null) = none
field_of name (some (Json.bool b)) = none
field_of name (some (Json.num n)) = none
field_of name (some (Json.str s)) = none
field_of name (some (Json.arr items)) = none

-- The existing artifact of an event, or a new one.
unfoldable pub keep_artifact :
    ℕ → ℕ → ProposedAction → Key → CalendarEventResult → Option ExternalArtifact → Exec ℕ
keep_artifact run_id owner action idempotency_key event (some existing) = pure existing.id
keep_artifact run_id owner action idempotency_key event none = do
  id ← uuid4
  add_artifact (record {
    id = id;
    workflow_run_id = run_id;
    proposed_action_id = action.id;
    artifact_type = "calendar_study_block";
    external_id = event.external_id;
    external_url = event.external_url;
    idempotency_key = idempotency_key;
  })
  record_event owner "CALENDAR_EVENT_CREATED" run_id (("artifact_id", uuid id) ∷ [])
  pure id

abbrev pub or_calendar_failed : Option String → String
or_calendar_failed none = "CALENDAR_EVENT_CREATE_FAILED"
or_calendar_failed (some c) = if str_eq c "" then "CALENDAR_EVENT_CREATE_FAILED" else c

unfoldable pub finish_succeeded : ℕ → ℕ → ProposedAction → Exec WorkflowRun
finish_succeeded run_id owner action = do
  set_action action.id (λ a. record a { status = ActionStatus.completed })
  apply_transition run_id S.completed owner
  record_event owner "WORKFLOW_COMPLETED" run_id []
  commit
  load_run run_id

unfoldable pub finish_partial : ℕ → ℕ → ProposedAction → String → ℕ → ℕ → Exec WorkflowRun
finish_partial run_id owner action error_code created failed = do
  set_action action.id (λ a. record a { status = ActionStatus.failed })
  set_run run_id (λ r. record r { error_code = some error_code })
  record_event owner "CALENDAR_EVENT_CREATE_FAILED" run_id
      (("error_code", text error_code) ∷ ("created", count created) ∷ ("failed", count failed) ∷ [])
  apply_transition run_id S.partially_completed owner
  commit
  load_run run_id

unfoldable pub finish_failed : ℕ → ℕ → ProposedAction → String → Exec WorkflowRun
finish_failed run_id owner action error_code = do
  set_action action.id (λ a. record a { status = ActionStatus.failed })
  set_run run_id (λ r. record r { error_code = some error_code })
  record_event owner "CALENDAR_EVENT_CREATE_FAILED" run_id (("error_code", text error_code) ∷ [])
  apply_transition run_id S.failed owner
  commit
  load_run run_id

unfoldable pub finish : ℕ → ℕ → ProposedAction → ExecutionSnapshot → ℕ → ℕ → Exec WorkflowRun
finish run_id owner action snapshot created failed =
    if is_execution snapshot.status ExecutionStatus.succeeded
    then finish_succeeded run_id owner action
    else if is_execution snapshot.status ExecutionStatus.partial
    then finish_partial run_id owner action (or_calendar_failed snapshot.error_code) created failed
    else finish_failed run_id owner action (or_calendar_failed snapshot.error_code)

abbrev pub with_tally : List ℕ → ℕ → ℕ → WorkflowRun → WorkflowRun
with_tally ids failed approved r = record r {
  result_payload = elim r.result_payload [
    | none ↦ none
    | some p ↦ some (record p {
      tally = some (record {
        artifact_ids = ids;
        created_count = length ids;
        failed_count = failed;
        approved_count = approved;
      });
    })
  ];
}

module _ (validate_event : Option Json → Fallible CalendarEventResult)
    (validate_plan : Json → Fallible StudyPlan) (python_str : Option Json → String) where
  -- The loop over the created events. Each event that is a dict gives one artifact id, so that their
  -- number is `created_count`.
  unfoldable pub keep_artifacts : ℕ → ℕ → ProposedAction → ℕ → Items → Exec (List ℕ)
  keep_artifacts run_id owner action approval_id Items.nil = pure []
  keep_artifacts run_id owner action approval_id (Items.cons (Json.obj fs) items) = do
    event ← lift (validate_event (get_field "event" fs))
    existing ← gets (λ db.
        find (has_key (plan_key run_id approval_id (python_str (get_field "index" fs))))
          db.artifacts)
    id ←
        keep_artifact run_id owner action
          (plan_key run_id approval_id (python_str (get_field "index" fs))) event existing
    ids ← keep_artifacts run_id owner action approval_id items
    pure (id ∷ ids)
  keep_artifacts run_id owner action approval_id (Items.cons Json.null items) =
      keep_artifacts run_id owner action approval_id items
  keep_artifacts run_id owner action approval_id (Items.cons (Json.bool b) items) =
      keep_artifacts run_id owner action approval_id items
  keep_artifacts run_id owner action approval_id (Items.cons (Json.num n) items) =
      keep_artifacts run_id owner action approval_id items
  keep_artifacts run_id owner action approval_id (Items.cons (Json.str s) items) =
      keep_artifacts run_id owner action approval_id items
  keep_artifacts run_id owner action approval_id (Items.cons (Json.arr vs) items) =
      keep_artifacts run_id owner action approval_id items

  -- A terminal snapshot that is not cancelled.
  unfoldable pub settle_result :
      ℕ → ℕ → ProposedAction → ApprovalRequest → Json → ExecutionSnapshot → Exec WorkflowRun
  settle_result run_id owner action approval payload snapshot = do
    plan ← lift (validate_plan payload)
    ids ←
        keep_artifacts run_id owner action approval.id
          (items_of (field_of "created" snapshot.result))
    set_run run_id (
        with_tally ids (items_length (items_of (field_of "failed" snapshot.result)))
          (length plan.events))
    (if not (is_empty ids)
        then record_event owner "EXTERNAL_ARTIFACT_RECORDED" run_id
            (("count", count (length ids)) ∷ [])
        else pure tt)
    finish run_id owner action snapshot (length ids)
        (items_length (items_of (field_of "failed" snapshot.result)))

  -- Everything after polling.
  unfoldable pub settle_plan :
      ℕ → ℕ → ProposedAction → ApprovalRequest → Json → ExecutionSnapshot → Exec WorkflowRun
  settle_plan run_id owner action approval payload snapshot = do
    set_run run_id (λ r. record r {
      runtime_execution_id = some snapshot.execution_id;
      result_payload = some (record {
        execution = some snapshot;
        correlation_id = some (plan_key run_id action.id "");
        artifact_id = none;
        artifact = none;
        tally = none;
        results = none;
        task_id = none;
      });
    })
    (if not (runtime_status_is_terminal snapshot.status)
        then settle_open run_id owner action snapshot
        else if is_execution snapshot.status ExecutionStatus.cancelled
        then settle_cancelled run_id owner action
        else settle_result run_id owner action approval payload snapshot)

  module _ (runtime : RuntimeClient) (poll_attempts : ℕ) where
    unfoldable pub after_submission :
        ℕ
        → ℕ
        → ProposedAction
        → ApprovalRequest
        → Json
        → Fallible ExecutionSnapshot
        → Exec WorkflowRun
    unfolding settle_plan
    after_submission run_id owner action approval payload (ok snapshot) = do
      polled ← poll_until_terminal runtime poll_attempts snapshot
      settle_plan run_id owner action approval payload polled
    after_submission run_id owner action approval payload (err e) =
        if is_recoverable e
        then (do
          mark_runtime_recoverable owner run_id ActionStatus.executing action.id
              (plan_key run_id action.id "") (code e)
          commit
          load_run run_id)
        else raise e

    unfoldable pub submit :
        WorkflowRun → ℕ → ProposedAction → ApprovalRequest → Json → Exec WorkflowRun
    unfolding after_submission
    submit r owner action approval payload = do
      begin_execution r owner action
      set_action action.id (λ a. record a { status = ActionStatus.executing })
      record_event owner "EXTERNAL_EXECUTION_STARTED" r.id (("action_id", uuid action.id) ∷ [])
      outcome ← attempt (
          runtime.submit_execution (record {
            workflow_run_id = r.id;
            proposed_action_id = action.id;
            action_type = action.action_type;
            approved_payload = payload;
            idempotency_key = plan_key r.id approval.id "";
            correlation_id = plan_key r.id action.id "";
          }))
      after_submission r.id owner action approval payload outcome

    unfoldable pub execute_open : WorkflowRun → ℕ → Exec WorkflowRun
    unfolding submit
    execute_open r owner = do
      raise_if (not (is_workflow r.status S.approved) && not (run_has_recoverable_runtime_error r))
          plan_workflow_invalid_state
      acts ← actions r.id
      apps ← run_approvals r.id
      pair ← or_raise (only_pair operation acts apps) approval_required
      raise_if (not (is_approval pair.1.status ApprovalStatus.approved)) approval_required
      payload ← or_raise pair.1.approved_payload approval_required
      submit r owner pair.0 pair.1 payload

    -- `StudyPlanExecutionService.execute`
    unfoldable pub execute_plan : ℕ → ℕ → Exec WorkflowRun
    unfolding execute_open
    execute_plan run_id owner = do
      r ← run run_id owner
      if is_workflow r.status S.completed then pure r else execute_open r owner
