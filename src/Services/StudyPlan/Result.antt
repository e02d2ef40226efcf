-- ===== src/Services/StudyPlan/Result.antt =====
-- What a terminal snapshot makes of a study plan (backend/app/workflows/study_plan/execution.py).
use relay.Prelude.{ℕ, String, ◌≡◌, refl, true, false, Option, not, arith}
use relay.Domain.Enums.{ExecutionStatus, is_execution}
use relay.Domain.Errors.{Result, ok}
use relay.Json.{Json}
use relay.Store.{ExecutionSnapshot, WorkflowRun, ProposedAction, ApprovalRequest}
use relay.Session.{Session}
use relay.Repository.{set_run}
use relay.Runtime.Client.{workflow_status_for_runtime, runtime_status_is_terminal}
use relay.Services.Execution.Ends.{
  Ends, Ends-bind, Ends-if, IsSettled, ends_rules, settle_cancelled-IsSettled,
}
use relay.Services.StudyPlan.{
  CalendarEventResult, StudyPlan, finish, finish_succeeded, finish_partial, finish_failed,
  settle_result, settle_plan,
}

finish-as :
    (st : ExecutionStatus) (run_id owner : ℕ) (action : ProposedAction)
    (snapshot : ExecutionSnapshot) (created failed : ℕ)
    → snapshot.status ≡ st
    → runtime_status_is_terminal st ≡ true
    → is_execution st ExecutionStatus.cancelled ≡ false
    → Ends
        (IsSettled run_id (workflow_status_for_runtime st))
        (finish run_id owner action snapshot created failed)
unfolding finish finish_succeeded finish_partial finish_failed workflow_status_for_runtime
    runtime_status_is_terminal
finish-as ExecutionStatus.queued run_id owner action snapshot created failed e t h = absurd (cc)
finish-as ExecutionStatus.running run_id owner action snapshot created failed e t h = absurd (cc)
finish-as ExecutionStatus.cancelled run_id owner action snapshot created failed e t h = absurd (cc)
finish-as ExecutionStatus.succeeded run_id owner action snapshot created failed e t h =
    rw e (search ends_rules depth 30)
finish-as ExecutionStatus.partial run_id owner action snapshot created failed e t h =
    rw e (search ends_rules depth 30)
finish-as ExecutionStatus.failed run_id owner action snapshot created failed e t h =
    rw e (search ends_rules depth 30)

cancelled-eq :
    (st : ExecutionStatus)
    → is_execution st ExecutionStatus.cancelled ≡ true
    → st ≡ ExecutionStatus.cancelled
cancelled-eq st h = ground arith

module _ (validate_event : Option Json → Result CalendarEventResult)
    (validate_plan : Json → Result StudyPlan) (python_str : Option Json → String) (run_id owner : ℕ)
    (action : ProposedAction) (approval : ApprovalRequest) (payload : Json) where
  settle_plan-Ends :
      (snapshot : ExecutionSnapshot)
      → runtime_status_is_terminal snapshot.status ≡ true
      → Ends (IsSettled run_id (workflow_status_for_runtime snapshot.status)) (
          settle_plan validate_event validate_plan python_str run_id owner action approval payload
            snapshot)
  unfolding settle_plan settle_result workflow_status_for_runtime
  settle_plan-Ends snapshot terminal = Ends-bind (set_run run_id _) _ (λ _.
      Ends-if (not (runtime_status_is_terminal snapshot.status)) _ _ (λ running. absurd (cc))
        (λ _.
          Ends-if (is_execution snapshot.status ExecutionStatus.cancelled) _ _
            (λ same.
              rw (cancelled-eq snapshot.status same)
                (settle_cancelled-IsSettled run_id owner action))
            (λ other. Ends-bind _ _ λ plan. Ends-bind _ _ λ ids. Ends-bind _ _ λ _.
              Ends-bind _ _ λ _.
                finish-as snapshot.status run_id owner action snapshot _ _ refl terminal other)))

  -- A study plan whose runtime has finished leaves the run, in the committed row that is returned,
  -- in exactly the status that the table of runtime statuses gives for the snapshot.
  pub settle_plan-IsSettled :
      (snapshot : ExecutionSnapshot) (s s' : Session) (r : WorkflowRun)
      → runtime_status_is_terminal snapshot.status ≡ true
      → settle_plan validate_event validate_plan python_str run_id owner action approval payload
          snapshot s
        ≡ (ok r, s')
      → IsSettled run_id (workflow_status_for_runtime snapshot.status) r s'
  settle_plan-IsSettled snapshot s s' r terminal h =
      (settle_plan-Ends snapshot terminal).at s s' r h
