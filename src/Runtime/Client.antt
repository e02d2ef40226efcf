-- ===== src/Runtime/Client.antt =====
-- backend/app/runtime/client.py, recovery.py, state.py and sync.py: the contract with the runtime,
-- the statuses that Relay derives from its answers, and polling. The runtime itself is a parameter:
-- an implementation of the protocol `RuntimeClient`.
pub mod Polling
use relay.Prelude.{
  ℕ, zero, suc, Bool, true, false, Option, none, some, List, [], ◌∷◌, String, all, any, ◌==◌, ◌&&◌,
  ◌||◌, str_eq, if◌then◌else◌,
}
use relay.Domain.Enums.{
  WorkflowStatus as S, ActionStatus, ExecutionStatus, is_workflow, is_action, is_execution,
}
use relay.Domain.Errors.{
  DomainError, Result, ok, err, code, runtime_request_timeout, runtime_unavailable,
  runtime_rate_limited, runtime_execution_not_found,
}
use relay.Json.{Json}
use relay.Store.{Key, ExecutionSnapshot, WorkflowRun, uuid, text, key}
use relay.Session.{Exec, pure, raise, attempt, record_event, ◌>>=◌, ◌>>◌}
use relay.Repository.{set_run}

pub record ExecutionRequest : Type 0 where
  pub workflow_run_id : ℕ
  pub proposed_action_id : ℕ
  pub action_type : String
  pub approved_payload : Json
  pub idempotency_key : Key
  pub correlation_id : Key

pub record RuntimeClient : Type 0 where
  pub submit_execution : ExecutionRequest → Exec ExecutionSnapshot
  pub get_execution : ℕ → Exec ExecutionSnapshot
  pub cancel_execution : ℕ → Exec ExecutionSnapshot

-- state.py
unfoldable pub workflow_status_for_runtime : ExecutionStatus → S
workflow_status_for_runtime ExecutionStatus.queued = S.queued
workflow_status_for_runtime ExecutionStatus.running = S.executing
workflow_status_for_runtime ExecutionStatus.succeeded = S.completed
workflow_status_for_runtime ExecutionStatus.partial = S.partially_completed
workflow_status_for_runtime ExecutionStatus.failed = S.failed
workflow_status_for_runtime ExecutionStatus.cancelled = S.cancelled

abbrev pub are_none : List ExecutionStatus → Bool
are_none [] = true
are_none (x ∷ xs) = false

unfoldable pub workflow_status_for_action_results : List ExecutionStatus → S
workflow_status_for_action_results statuses =
    if are_none statuses
    then S.failed
    else if all (λ x. is_execution x ExecutionStatus.succeeded) statuses
    then S.completed
    else if any (λ x. is_execution x ExecutionStatus.succeeded) statuses
    then S.partially_completed
    else if all (λ x. is_execution x ExecutionStatus.cancelled) statuses
    then S.cancelled
    else S.failed

unfoldable pub runtime_status_is_terminal : ExecutionStatus → Bool
runtime_status_is_terminal status =
    is_execution status ExecutionStatus.succeeded
    || is_execution status ExecutionStatus.partial
    || is_execution status ExecutionStatus.failed
    || is_execution status ExecutionStatus.cancelled

-- recovery.py: `except RECOVERABLE_RUNTIME_ERRORS`
unfoldable pub is_recoverable : DomainError → Bool
is_recoverable runtime_request_timeout = true
is_recoverable runtime_unavailable = true
is_recoverable runtime_rate_limited = true
is_recoverable _ = false

unfoldable pub is_recoverable_code : Option String → Bool
unfolding code
is_recoverable_code none = false
is_recoverable_code (some c) =
    any (str_eq c)
      (code runtime_request_timeout ∷ code runtime_unavailable ∷ code runtime_rate_limited ∷ [])

unfoldable pub run_has_recoverable_runtime_error : WorkflowRun → Bool
run_has_recoverable_runtime_error r =
    (is_workflow r.status S.queued || is_workflow r.status S.executing)
    && is_recoverable_code r.error_code

unfoldable pub mark_runtime_recoverable : ℕ → ℕ → ActionStatus → ℕ → Key → String → Exec Unit
mark_runtime_recoverable owner run_id action_status action_id correlation_id error_code = do
  set_run run_id (λ r. record r {
    status = if is_action action_status ActionStatus.queued then S.queued else S.executing;
    error_code = some error_code;
  })
  record_event owner "RUNTIME_RECOVERABLE_FAILURE" run_id (
      ("action_id", uuid action_id)
      ∷ ("correlation_id", key correlation_id)
      ∷ ("error_code", text error_code)
      ∷ [])

-- sync.py: `except (RuntimeRequestTimeout, RuntimeUnavailable, RuntimeExecutionNotFound)`
unfoldable pub stops_polling : DomainError → Bool
stops_polling runtime_request_timeout = true
stops_polling runtime_unavailable = true
stops_polling runtime_execution_not_found = true
stops_polling _ = false

unfoldable pub poll_next :
    (ExecutionSnapshot → Exec ExecutionSnapshot)
    → ExecutionSnapshot
    → Result ExecutionSnapshot
    → Exec ExecutionSnapshot
poll_next again current (ok fetched) = again fetched
poll_next again current (err e) = if stops_polling e then pure current else raise e

unfoldable pub poll_until_terminal : RuntimeClient → ℕ → ExecutionSnapshot → Exec ExecutionSnapshot
unfolding poll_next
poll_until_terminal runtime zero current = pure current
poll_until_terminal runtime (suc attempts) current =
    if runtime_status_is_terminal current.status then pure current else (do
      fetched ← attempt (runtime.get_execution current.execution_id)
      poll_next (poll_until_terminal runtime attempts) current fetched)
