-- ===== src/Services/Approvals.antt =====
-- backend/app/services/approvals.py: `ApprovalService.resolve`.
pub mod Consistency
pub mod Rejection
pub mod Once
pub mod Outcome
mod Expired
pub mod Expiry
use relay.Prelude.{
  ℕ, Bool, true, false, Option, none, some, List, [], ◌∷◌, all, find, not, ◌==◌, ◌&&◌, ◌||◌,
  if◌then◌else◌,
}
use relay.Domain.Enums.{WorkflowStatus as S, ActionStatus, ApprovalStatus, is_workflow, is_approval}
use relay.Domain.Errors.{
  approval_already_resolved, invalid_workflow_transition, approval_payload_mismatch,
}
use relay.Json.{Json, exact_json, same_codes}
use relay.Store.{ProposedAction, ApprovalRequest, uuid, text}
use relay.Session.{Exec, pure, gets, or_raise, raise_if, commit, now, record_event, ◌>>=◌, ◌>>◌}
use relay.Repository.{run, approval, run_approvals, set_action, set_approval}
use relay.Services.Workflows.{request_status, apply_transition}

-- The payload that the owner confirms is, as exact JSON, both the one of the request and the
-- action's current one.
unfoldable pub payload_matches : Option Json → ApprovalRequest → ProposedAction → Bool
payload_matches none approval action = false
payload_matches (some payload) approval action =
    same_codes (exact_json payload) (exact_json approval.original_payload)
    && same_codes (exact_json action.payload) (exact_json approval.original_payload)

abbrev pub is_pending : ApprovalRequest → Bool
is_pending a = is_approval a.status ApprovalStatus.pending

-- The decision on one request: the approved snapshot, or the rejection.
unfoldable pub decide_request :
    ApprovalRequest → ProposedAction → ℕ → Option Json → Bool → Exec Unit
decide_request approval action owner payload true = do
  raise_if (not (payload_matches payload approval action)) approval_payload_mismatch
  at ← now
  set_approval approval.id (λ _. record approval {
    approved_payload = payload;
    status = ApprovalStatus.approved;
    resolved_at = some at;
    resolved_by = some owner;
  })
  set_action action.id (λ a. record a { status = ActionStatus.approved })
  record_event owner "ACTION_APPROVED" approval.workflow_run_id
      (("approval_id", uuid approval.id) ∷ ("action_id", uuid action.id) ∷ [])
decide_request approval action owner payload false = do
  at ← now
  set_approval approval.id (λ _. record approval {
    status = ApprovalStatus.rejected;
    resolved_at = some at;
    resolved_by = some owner;
  })
  set_action action.id (λ a. record a { status = ActionStatus.rejected })
  record_event owner "ACTION_REJECTED" approval.workflow_run_id
      (("approval_id", uuid approval.id) ∷ ("action_id", uuid action.id) ∷ [])

-- The loop over the other requests of a rejected plan.
unfoldable pub expire_one : ℕ → ApprovalRequest → Exec Unit
expire_one owner other =
    if is_pending other
    then (do
      at ← now
      set_approval other.id
          (λ _. record other { status = ApprovalStatus.expired; resolved_at = some at })
      record_event owner "APPROVAL_EXPIRED" other.workflow_run_id
          (("approval_id", uuid other.id) ∷ ("reason", text "PLAN_REJECTED") ∷ []))
    else pure tt

unfoldable pub expire_all : ℕ → List ApprovalRequest → Exec Unit
expire_all owner [] = pure tt
expire_all owner (other ∷ rest) = do expire_one owner other; expire_all owner rest

-- What follows from the decision for the run.
unfoldable pub decide_run : ℕ → ℕ → Bool → Exec Unit
decide_run run_id owner true = do
  pending ← run_approvals run_id
  if all (λ a. is_approval a.status ApprovalStatus.approved) pending
      then apply_transition run_id S.approved owner
      else pure tt
decide_run run_id owner false = do
  pending ← run_approvals run_id
  expire_all owner pending
  apply_transition run_id S.rejected owner

-- The guards of `resolve`, with what they read.
unfoldable pub open_request : ℕ → ℕ → Exec (ApprovalRequest × ProposedAction)
open_request approval_id owner = do
  a ← approval approval_id owner
  r ← run a.workflow_run_id owner
  raise_if (not (is_pending a)) approval_already_resolved
  raise_if (not (is_workflow r.status S.awaiting_approval)) invalid_workflow_transition
  found ← gets (λ db. find (λ (x : ProposedAction). x.id == a.proposed_action_id) db.actions)
  action ← or_raise found approval_payload_mismatch
  raise_if (not (request_status action)) approval_payload_mismatch
  pure (a, action)

-- `ApprovalService.resolve`, up to the commit
unfoldable pub decide : ℕ → ℕ → Option Json → Bool → Exec Unit
decide approval_id owner payload approve = do
  request ← open_request approval_id owner
  decide_request request.0 request.1 owner payload approve
  decide_run request.0.workflow_run_id owner approve

unfoldable pub resolve : ℕ → ℕ → Option Json → Bool → Exec ApprovalRequest
resolve approval_id owner payload approve = do
  decide approval_id owner payload approve
  resolved ← approval approval_id owner
  commit
  pure resolved
