-- ===== src/Services/Cancellation.antt =====
-- backend/app/services/runtime_execution.py: `RuntimeExecutionService.cancel`.
use relay.Prelude.{
  ℕ, ◌≡◌, true, Option, none, some, List, [], ◌∷◌, not, ◌&&◌, ◌||◌, find, arith, if◌then◌else◌,
  Bool-cases, Option-cases, find-holds, ◌⊎◌, inl, inr,
}
use relay.Domain.Enums.{
  WorkflowStatus as S, ActionStatus, ExecutionStatus, is_workflow, is_action, is_execution,
}
use relay.Domain.Errors.{ok, invalid_workflow_transition}
use relay.Domain.Workflows.{one_of, terminal_states}
use relay.Store.{
  ExecutionSnapshot, ResultPayload, WorkflowRun, ProposedAction, uuid, runtime_status,
}
use relay.Session.{Session, Exec, pure, raise_if, commit, record_event, ◌>>=◌, ◌>>◌}
use relay.Repository.{owns, run, load_run, actions, set_run, set_action}
use relay.Runtime.Client.{RuntimeClient, workflow_status_for_runtime}
use relay.Services.Workflows.{apply_transition}
use relay.Services.Execution.Ends.{Ends, Ends-bind, IsSettled, ends_rules}

-- `{**(run.result_payload or {}), "execution": ...}`
abbrev pub with_execution : ExecutionSnapshot → Option ResultPayload → ResultPayload
with_execution snapshot none = record {
  execution = some snapshot;
  correlation_id = none;
  artifact_id = none;
  artifact = none;
  tally = none;
  results = none;
  task_id = none;
}
with_execution snapshot (some p) = record p { execution = some snapshot }

-- The loop over the run's actions.
unfoldable pub fail_actions : List ProposedAction → Exec Unit
fail_actions [] = pure tt
fail_actions (action ∷ rest) = do
  (if is_action action.status ActionStatus.queued || is_action action.status ActionStatus.executing
      then set_action action.id (λ a. record a { status = ActionStatus.failed })
      else pure tt)
  fail_actions rest

unfoldable pub finish_cancel : WorkflowRun → ℕ → ExecutionSnapshot → Exec WorkflowRun
finish_cancel r owner snapshot = do
  set_run r.id (λ x. record x { result_payload = some (with_execution snapshot x.result_payload) })
  raise_if
      (not (is_workflow (workflow_status_for_runtime snapshot.status) S.cancelled)
        && not (is_execution snapshot.status ExecutionStatus.cancelled))
      invalid_workflow_transition
  acts ← actions r.id
  fail_actions acts
  record_event owner "RUNTIME_CANCELLED" r.id (
      ("runtime_execution_id", uuid snapshot.execution_id)
      ∷ ("status", runtime_status snapshot.status)
      ∷ [])
  apply_transition r.id S.cancelled owner
  commit
  load_run r.id

unfoldable pub cancel_open : RuntimeClient → WorkflowRun → ℕ → Option ℕ → Exec WorkflowRun
cancel_open runtime r owner none = do apply_transition r.id S.cancelled owner; commit; load_run r.id
cancel_open runtime r owner (some execution_id) =
    runtime.cancel_execution execution_id >>= finish_cancel r owner

-- `RuntimeExecutionService.cancel`
unfoldable pub cancel : RuntimeClient → ℕ → ℕ → Exec WorkflowRun
unfolding cancel_open
cancel runtime run_id owner = do
  r ← run run_id owner
  if one_of r.status
        (S.completed ∷ S.partially_completed ∷ S.failed ∷ S.rejected ∷ S.cancelled ∷ [])
      then pure r
      else (record_event owner "RUNTIME_CANCEL_REQUESTED" r.id []
          >> cancel_open runtime r owner r.runtime_execution_id)

finish_cancel-IsSettled :
    (r : WorkflowRun) (owner : ℕ) (snapshot : ExecutionSnapshot)
    → Ends (IsSettled r.id S.cancelled) (finish_cancel r owner snapshot)
unfolding finish_cancel
finish_cancel-IsSettled r owner snapshot = search ends_rules depth 30

cancel_open-IsSettled :
    (runtime : RuntimeClient) (r : WorkflowRun) (owner : ℕ) (execution_id : Option ℕ)
    → Ends (IsSettled r.id S.cancelled) (cancel_open runtime r owner execution_id)
unfolding cancel_open
cancel_open-IsSettled runtime r owner none = search ends_rules
cancel_open-IsSettled runtime r owner (some execution_id) =
    search (ends_rules, finish_cancel-IsSettled)

-- A cancellation that returns has either changed nothing, the run being at rest already, or it has
-- committed the run as CANCELLED, whatever the runtime answered.
pub cancel-IsSettled :
    (runtime : RuntimeClient) (run_id owner : ℕ) (s s' : Session) (r : WorkflowRun)
    → cancel runtime run_id owner s ≡ (ok r, s')
    → ((s' ≡ s) × (one_of r.status terminal_states ≡ true)) ⊎ IsSettled run_id S.cancelled r s'
unfolding cancel run terminal_states ◌>>=◌
cancel-IsSettled runtime run_id owner s s' r h =
    elim (Option-cases (find (owns run_id owner) s.working.runs)) [
      | inl missing ↦ absurd (ground arith)
      | inr (x, found) ↦ elim (Bool-cases (one_of x.status terminal_states)) [
        | inl rest ↦ inl (ground arith)
        | inr live ↦
            let holds = find-holds (owns run_id owner) s.working.runs found in
            let same : x.id ≡ run_id = ground (arith, holds) in
            let ran : (record_event owner "RUNTIME_CANCEL_REQUESTED" x.id []
                    >> cancel_open runtime x owner x.runtime_execution_id)
                  s
                ≡ (ok r, s') =
              ground arith in
            let settled =
              (Ends-bind (record_event owner "RUNTIME_CANCEL_REQUESTED" x.id []) _
                  λ _. cancel_open-IsSettled runtime x owner x.runtime_execution_id).at
                s s' r ran in
            inr (rw same at settled)
      ]
    ]
