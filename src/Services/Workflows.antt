-- ===== src/Services/Workflows.antt =====
-- backend/app/services/workflows.py
pub mod Moves
pub mod Gate
use relay.Prelude.{
  ℕ, Bool, true, false, Option, none, some, List, [], ◌∷◌, ◌++◌, map, all, any, ◌==◌, ◌&&◌, ◌||◌,
  not, if◌then◌else◌,
}
use relay.Domain.Enums.{
  WorkflowStatus as S, ActionStatus, ApprovalStatus, is_workflow, is_action, is_approval,
}
use relay.Domain.Errors.{
  Result, ok, err, workflow_not_found, workflow_definition_disabled, approval_required,
  invalid_workflow_transition,
}
use relay.Domain.Workflows.{one_of, Transition, transition}
use relay.Json.{Json}
use relay.Store.{
  Database, WorkflowDefinition, WorkflowRun, ProposedAction, ApprovalRequest, Metadata, uuid, text,
  status,
}
use relay.Session.{
  Session, Exec, pure, raise, lift, gets, or_raise, raise_if, modify, commit, now, uuid4,
  record_event, ◌>>=◌, ◌>>◌,
}
use relay.Repository.{run, load_run, actions, run_approvals, set_run, add_approval}
use relay.Prelude

abbrev pub contains : List ℕ → ℕ → Bool
contains ids i = any (λ j. j == i) ids

-- Equality of two sets of ids.
abbrev pub same_set : List ℕ → List ℕ → Bool
same_set xs ys = all (contains ys) xs && all (contains xs) ys

abbrev pub is_empty : {A : Type 0} → List A → Bool
is_empty [] = true
is_empty (x ∷ xs) = false

-- The gate of `apply_transition` on entering AWAITING_APPROVAL, APPROVED or QUEUED.
unfoldable pub gate_fails : S → List ProposedAction → List ApprovalRequest → Bool
gate_fails target acts apps =
    if one_of target (S.awaiting_approval ∷ S.approved ∷ S.queued ∷ [])
    then (is_empty acts
        || not (same_set (map (λ a. a.id) acts) (map (λ a. a.proposed_action_id) apps)))
      || (one_of target (S.approved ∷ S.queued ∷ [])
          && any (λ a. not (is_approval a.status ApprovalStatus.approved)) apps)
      || (is_workflow target S.awaiting_approval
          && any (λ a. not (is_approval a.status ApprovalStatus.pending)) apps)
    else false

abbrev pub moved : Transition → WorkflowRun → WorkflowRun
moved change r = record r {
  status = change.current;
  updated_at = change.updated_at;
  started_at = change.started_at;
  completed_at = change.completed_at;
}

-- `WorkflowService.apply_transition`
unfoldable pub apply_transition : ℕ → S → ℕ → Exec Unit
apply_transition run_id target owner = do
  r ← load_run run_id
  raise_if (not (r.user_id == owner)) workflow_not_found
  instant ← now
  change ← lift (transition r.status target r.started_at instant)
  acts ← actions run_id
  apps ← run_approvals run_id
  raise_if (gate_fails target acts apps) approval_required
  set_run run_id (moved change)
  record_event owner "WORKFLOW_STATE_CHANGED" run_id
      (("from", status change.previous) ∷ ("to", status change.current) ∷ [])

-- `WorkflowService.transition_workflow`
unfoldable pub transition_workflow : ℕ → S → ℕ → Exec WorkflowRun
transition_workflow run_id target owner = do
  r ← run run_id owner
  apply_transition r.id target owner
  commit
  load_run r.id

-- `WorkflowService.create`
unfoldable pub create : ℕ → ℕ → Json → Exec WorkflowRun
create owner definition_id input_payload = do
  found ← gets (λ db. Prelude.find (λ d. d.id == definition_id) db.definitions)
  definition ← or_raise found workflow_not_found
  raise_if (not definition.enabled) workflow_definition_disabled
  id ← uuid4
  at ← now
  modify (λ db. record db {
    runs =
        db.runs
        ++ record {
          id = id;
          user_id = owner;
          workflow_definition_id = definition.id;
          project_workspace_id = none;
          status = S.draft;
          input_payload = input_payload;
          runtime_execution_id = none;
          result_payload = none;
          error_code = none;
          updated_at = at;
          started_at = none;
          completed_at = none;
        }
          ∷ [];
  })
  record_event owner "WORKFLOW_CREATED" id (("definition_id", uuid definition.id) ∷ [])
  commit
  load_run id

abbrev pub request_status : ProposedAction → Bool
request_status a =
    is_action a.status ActionStatus.proposed || is_action a.status ActionStatus.edited

-- The body of the loop of `request_approvals`.
unfoldable pub request_one : ℕ → ℕ → ProposedAction → Exec Unit
request_one run_id owner action = do
  raise_if (not (request_status action)) approval_required
  id ← uuid4
  at ← now
  add_approval (record {
    id = id;
    workflow_run_id = run_id;
    proposed_action_id = action.id;
    status = ApprovalStatus.pending;
    original_payload = action.payload;
    approved_payload = none;
    requested_at = at;
    resolved_at = none;
    resolved_by = none;
  })
  record_event owner "APPROVAL_REQUESTED" run_id
      (("approval_id", uuid id) ∷ ("action_id", uuid action.id) ∷ [])

unfoldable pub request_all : ℕ → ℕ → List ProposedAction → Exec Unit
request_all run_id owner [] = pure tt
request_all run_id owner (action ∷ rest) = do
  request_one run_id owner action
  request_all run_id owner rest

-- `WorkflowService.request_approvals`
unfoldable pub request_approvals : ℕ → ℕ → Exec Unit
request_approvals run_id owner = do
  r ← run run_id owner
  raise_if (not (is_workflow r.status S.plan_ready)) invalid_workflow_transition
  acts ← actions r.id
  apps ← run_approvals r.id
  raise_if (is_empty acts || not (is_empty apps)) approval_required
  request_all r.id owner acts
  apply_transition r.id S.awaiting_approval owner
  commit
