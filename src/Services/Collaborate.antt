-- ===== src/Services/Collaborate.antt =====
-- The conclusion of `CollaborateExecutionService.execute` of
-- backend/app/workflows/project_meeting/execution.py: what the results of the actions, which it has
-- submitted one by one, make of the run.
pub mod Conclusion
use relay.Prelude.{
  ℕ, ◌+◌, ◌-◌, Bool, true, false, not, ◌&&◌, ◌||◌, Option, none, some, List, [], ◌∷◌, String, any,
  length, map, keep, find, ltb, ◌==◌, str_eq, if◌then◌else◌,
}
use relay.Domain.Enums.{WorkflowStatus as S, ExecutionStatus, is_workflow, is_execution}
use relay.Domain.Errors.{Result, other_exception}
use relay.Store.{ActionResult, ResultPayload, WorkflowRun, count}
use relay.Session.{Exec, pure, raise, or_raise, commit, record_event, ◌>>=◌, ◌>>◌}
use relay.Repository.{run, load_run, set_run}
use relay.Runtime.Client.{workflow_status_for_runtime, runtime_status_is_terminal}
use relay.Services.Workflows.{apply_transition, is_empty}

abbrev pub is_succeeded : ActionResult → Bool
is_succeeded x = is_execution x.status ExecutionStatus.succeeded

abbrev pub is_pending : ActionResult → Bool
is_pending x =
    is_execution x.status ExecutionStatus.queued || is_execution x.status ExecutionStatus.running

-- `sum(1 for status in statuses if status == SUCCEEDED)`
abbrev pub succeeded_count : List ActionResult → ℕ
succeeded_count [] = 0
succeeded_count (x ∷ xs) =
    let more = succeeded_count xs in if is_succeeded x then 1 + more else more

abbrev pub pending_count : List ActionResult → ℕ
pending_count [] = 0
pending_count (x ∷ xs) =
    let more = pending_count xs in if runtime_status_is_terminal x.status then more else 1 + more

-- `if code`
abbrev pub has_code : ActionResult → Bool
has_code x = elim x.error_code [ none ↦ false | some c ↦ not (str_eq c "") ]

-- `next(code for code in pending_codes if code)`, which raises where no code is left.
unfoldable pub pending_code : List ActionResult → Exec (Option String)
pending_code results = do
  first ←
      or_raise (find has_code (keep (λ x. is_execution x.status ExecutionStatus.queued) results))
        other_exception
  pure first.error_code

-- `workflow_status_for_runtime(statuses[0])`
abbrev pub target_status : List ActionResult → S
target_status [] = S.failed
target_status (x ∷ xs) = workflow_status_for_runtime x.status

unfoldable pub conclude_pending : ℕ → ℕ → List ActionResult → Exec WorkflowRun
unfolding pending_code
conclude_pending run_id owner results = do
  (if not (is_empty (keep (λ x. is_execution x.status ExecutionStatus.queued) results))
      then (do c ← pending_code results; set_run run_id (λ r. record r { error_code = c }))
      else pure tt)
  r ← load_run run_id
  (if not (is_workflow r.status (target_status results))
        && not (is_workflow r.status S.executing && is_workflow (target_status results) S.queued)
      then apply_transition run_id (target_status results) owner
      else pure tt)
  record_event owner "RUNTIME_STATUS_SYNCED" run_id
      (("pending_count", count (pending_count results)) ∷ [])
  commit
  load_run run_id

unfoldable pub conclude_completed : ℕ → ℕ → Exec WorkflowRun
conclude_completed run_id owner = do
  apply_transition run_id S.completed owner
  record_event owner "WORKFLOW_COMPLETED" run_id []
  commit
  load_run run_id

unfoldable pub conclude_partial : ℕ → ℕ → ℕ → ℕ → Exec WorkflowRun
conclude_partial run_id owner succeeded failed = do
  set_run run_id (λ r. record r { error_code = some "COLLABORATE_PARTIALLY_COMPLETED" })
  apply_transition run_id S.partially_completed owner
  record_event owner "PARTIAL_COMPLETION" run_id
      (("succeeded", count succeeded) ∷ ("failed", count failed) ∷ [])
  commit
  load_run run_id

unfoldable pub conclude_failed : ℕ → ℕ → Exec WorkflowRun
conclude_failed run_id owner = do
  set_run run_id (λ r. record r { error_code = some "COLLABORATE_EXECUTION_FAILED" })
  apply_transition run_id S.failed owner
  commit
  load_run run_id

abbrev pub failed_count : List ActionResult → ℕ
failed_count results = length results - succeeded_count results

unfoldable pub conclude : ℕ → ℕ → List ActionResult → Exec WorkflowRun
conclude run_id owner results = do
  locked ← run run_id owner
  set_run run_id (λ r. record r {
    result_payload = some (record {
      execution = none;
      correlation_id = none;
      artifact_id = none;
      artifact = none;
      tally = none;
      results = some (record {
        results = results;
        succeeded_count = succeeded_count results;
        failed_count = failed_count results;
        total_count = length results;
      });
      task_id = none;
    });
  })
  (if any is_pending results
      then conclude_pending run_id owner results
      else if succeeded_count results == length results
      then conclude_completed run_id owner
      else if ltb 0 (succeeded_count results)
      then conclude_partial run_id owner (succeeded_count results) (failed_count results)
      else conclude_failed run_id owner)
