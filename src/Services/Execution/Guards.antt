-- ===== src/Services/Execution/Guards.antt =====
-- When `ExecutionService.execute` of backend/app/services/execution.py reaches the runtime.
use relay.Prelude.{
  ℕ, String, ◌≡◌, ◌≢◌, true, none, some, List, [], ◌∷◌, find, ◌||◌, Option-cases, Bool-cases, inl,
  inr, arith,
}
use relay.Domain.Enums.{WorkflowStatus as S, ApprovalStatus, is_workflow, is_approval}
use relay.Domain.Errors.{Result}
use relay.Json.{Json}
use relay.Store.{WorkflowRun, ProposedAction, ApprovalRequest}
use relay.Session.{Session, ◌>>=◌}
use relay.Repository.{owns, actions_of, approvals_of, run, actions, run_approvals}
use relay.Runtime.Client.{RuntimeClient, run_has_recoverable_runtime_error}
use relay.Services.Execution.{
  ExternalArtifactResult, operation, only_pair, learn_key, has_key, publish, execute_open, execute,
}

-- The run is the owner's, it is APPROVED or stopped by an error of the runtime that it may recover
-- from, its only action has its only request, which is APPROVED with a payload, and no artifact
-- carries the key of the execution.
pub record IsReady (run_id owner : ℕ) (s : Session) : Type 0 where
  pub r : WorkflowRun
  pub action : ProposedAction
  pub approval : ApprovalRequest
  pub payload : Json
  pub found : find (owns run_id owner) s.working.runs ≡ some r
  pub open_status : (is_workflow r.status S.approved || run_has_recoverable_runtime_error r) ≡ true
  pub only_action : actions_of r.id s.working ≡ action ∷ []
  pub only_approval : approvals_of r.id s.working ≡ approval ∷ []
  pub granted : approval.status ≡ ApprovalStatus.approved
  pub approved : approval.approved_payload ≡ some payload
  pub fresh : find (has_key (learn_key r.id approval.id)) s.working.artifacts ≡ none

only_pair-some :
    (name : String) (acts : List ProposedAction) (apps : List ApprovalRequest)
    (action : ProposedAction) (approval : ApprovalRequest)
    → only_pair name acts apps ≡ some (action, approval)
    → (acts ≡ action ∷ []) × (apps ≡ approval ∷ [])
unfolding only_pair
only_pair-some name [] apps action approval h = cc
only_pair-some name (a ∷ []) [] action approval h = cc
only_pair-some name (a ∷ []) (p ∷ []) action approval h = ground arith
only_pair-some name (a ∷ []) (p ∷ q ∷ apps) action approval h = cc
only_pair-some name (a ∷ b ∷ acts) apps action approval h = cc

module _ (validate : Json → Result ExternalArtifactResult) (first second : RuntimeClient)
    (polls retries : ℕ) where
  execute_open-IsReady :
      (run_id owner : ℕ) (r : WorkflowRun) (s : Session)
      → find (owns run_id owner) s.working.runs ≡ some r
      → execute_open validate first polls r owner s ≢ execute_open validate second retries r owner s
      → IsReady run_id owner s
  unfolding execute_open publish actions run_approvals ◌>>=◌
  execute_open-IsReady run_id owner r s found differ =
      elim (Bool-cases (is_workflow r.status S.approved || run_has_recoverable_runtime_error r)) [
        | inr closed ↦ absurd (differ (ground arith))
        | inl may ↦
            elim (Option-cases
              (only_pair operation (actions_of r.id s.working) (approvals_of r.id s.working))) [
                | inl many ↦ absurd (differ (ground arith))
                | inr ((action, approval), single) ↦
                    let lists = only_pair-some _ _ _ action approval single in
                    elim (Bool-cases (is_approval approval.status ApprovalStatus.approved)) [
                      | inr refused ↦ absurd (differ (ground arith))
                      | inl granted ↦ elim (Option-cases approval.approved_payload) [
                        | inl missing ↦ absurd (differ (ground arith))
                        | inr (payload, approved) ↦
                            elim (Option-cases
                              (find (has_key (learn_key r.id approval.id)) s.working.artifacts)) [
                                | inr (existing, published) ↦ absurd (differ (ground arith))
                                | inl fresh ↦ record {
                                  r = r;
                                  action = action;
                                  approval = approval;
                                  payload = payload;
                                  found = found;
                                  open_status = may;
                                  only_action = lists.0;
                                  only_approval = lists.1;
                                  granted = ground arith;
                                  approved = approved;
                                  fresh = fresh;
                                }
                              ]
                      ]
                    ]
              ]
      ]

  -- The runtime makes a difference to an execution only where the run is ready for it: in every
  -- other state the runtime is not reached, whatever it would have answered.
  pub execute-IsReady :
      (run_id owner : ℕ) (s : Session)
      → execute validate first polls run_id owner s ≢ execute validate second retries run_id owner s
      → IsReady run_id owner s
  unfolding execute run ◌>>=◌
  execute-IsReady run_id owner s differ =
      elim (Option-cases (find (owns run_id owner) s.working.runs)) [
        | inl missing ↦ absurd (differ (ground arith))
        | inr (r, found) ↦ elim (Bool-cases (is_workflow r.status S.completed)) [
          | inl done ↦ absurd (differ (ground arith))
          | inr other ↦
              execute_open-IsReady run_id owner r s found (λ same. differ (ground (arith, same)))
        ]
      ]
