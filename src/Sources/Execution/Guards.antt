-- ===== src/Sources/Execution/Guards.antt =====
-- When `TaskExecutionService.execute` of backend/app/sources/service.py reaches the runtime.
use relay.Prelude.{
  ℕ, ◌≡◌, ◌≢◌, true, ◌&&◌, none, some, find, Bool-cases, Option-cases, inl, inr, arith,
}
use relay.Domain.Enums.{WorkflowStatus as S, ApprovalStatus, is_workflow, is_approval}
use relay.Domain.Errors.{Result}
use relay.Json.{Json}
use relay.Store.{WorkflowRun, ProposedAction, ApprovalRequest}
use relay.Session.{Session, ◌>>=◌}
use relay.Repository.{owns, run, actions, actions_of, run_approvals, approvals_of}
use relay.Repository.Content.{created_by}
use relay.Runtime.Client.{RuntimeClient}
use relay.Sources.Schemas.{TaskProposalEdit}
use relay.Sources.Execution.{single_pair, execute_new, execute_once, execute}

-- An APPROVED run of the owner with a single action, whose single request is approved with a
-- payload, and which has created no task.
pub record IsReady (run_id owner : ℕ) (s : Session) : Type 0 where
  pub r : WorkflowRun
  pub action : ProposedAction
  pub approval : ApprovalRequest
  pub payload : Json
  pub found : find (owns run_id owner) s.working.runs ≡ some r
  pub only :
      single_pair (actions_of r.id s.working) (approvals_of r.id s.working)
      ≡ some (action, approval)
  pub approved_run : is_workflow r.status S.approved ≡ true
  pub granted : is_approval approval.status ApprovalStatus.approved ≡ true
  pub approved : approval.approved_payload ≡ some payload
  pub fresh : created_by action.id s.working ≡ none

module _ (validate : Json → Result TaskProposalEdit) (first second : RuntimeClient)
    (polls retries : ℕ) where
  execute_found-IsReady :
      (run_id owner : ℕ) (r : WorkflowRun) (s : Session) (action : ProposedAction)
      (approval : ApprovalRequest)
      → find (owns run_id owner) s.working.runs ≡ some r
      → single_pair (actions_of r.id s.working) (approvals_of r.id s.working)
        ≡ some (action, approval)
      → execute_once validate first polls r owner
          (action, approval)
          (created_by action.id s.working)
          s
        ≢ execute_once validate second retries r owner
            (action, approval)
            (created_by action.id s.working)
            s
      → IsReady run_id owner s
  unfolding execute_once execute_new ◌>>=◌
  execute_found-IsReady run_id owner r s action approval found only differ =
      elim (Option-cases (created_by action.id s.working)) [
        | inr (task, done) ↦ absurd (differ (ground arith))
        | inl fresh ↦
            elim (Bool-cases (
              is_workflow r.status S.approved
              && is_approval approval.status ApprovalStatus.approved)) [
                | inr closed ↦ absurd (differ (ground arith))
                | inl may ↦ elim (Option-cases approval.approved_payload) [
                  | inl missing ↦ absurd (differ (ground arith))
                  | inr (payload, approved) ↦ record {
                    r = r;
                    action = action;
                    approval = approval;
                    payload = payload;
                    found = found;
                    only = only;
                    approved_run = ground arith;
                    granted = ground arith;
                    approved = approved;
                    fresh = fresh;
                  }
                ]
              ]
      ]

  -- The runtime makes a difference to the execution of an accepted proposal only where the run is
  -- APPROVED, its only request is approved with a payload, and its action has created no task: a
  -- run that an earlier attempt left QUEUED, and a proposal that is a task, are never submitted.
  pub execute_task-IsReady :
      (run_id owner : ℕ) (s : Session)
      → execute validate first polls run_id owner s ≢ execute validate second retries run_id owner s
      → IsReady run_id owner s
  unfolding execute run actions run_approvals ◌>>=◌
  execute_task-IsReady run_id owner s differ =
      elim (Option-cases (find (owns run_id owner) s.working.runs)) [
        | inl missing ↦ absurd (differ (ground arith))
        | inr (r, found) ↦
            elim (Option-cases
              (single_pair (actions_of r.id s.working) (approvals_of r.id s.working))) [
                | inl many ↦ absurd (differ (ground arith))
                | inr ((action, approval), only) ↦
                    execute_found-IsReady run_id owner r s action approval found only
                      (λ same. differ (ground (arith, same)))
              ]
      ]
