-- ===== src/Services/Execution/Outcome.antt =====
-- What a terminal snapshot makes of the run (backend/app/services/execution.py).
use relay.Prelude.{ℕ, ◌≡◌, refl, true, false, Option, none, some, not, arith}
use relay.Domain.Enums.{WorkflowStatus as S, ExecutionStatus, is_execution}
use relay.Domain.Errors.{Result, ok}
use relay.Json.{Json}
use relay.Store.{Key, ExecutionSnapshot, WorkflowRun, ProposedAction}
use relay.Session.{Session, lift}
use relay.Repository.{set_run}
use relay.Runtime.Client.{runtime_status_is_terminal}
use relay.Services.Execution.{ExternalArtifactResult, settle_terminal, settle_snapshot}
use relay.Services.Execution.Ends.{
  Ends, Ends-bind, Ends-if, IsSettled, settle_failed-IsSettled, settle_cancelled-IsSettled,
  settle_succeeded-IsSettled,
}

-- The status that a terminal snapshot stands for.
abbrev pub settled_as : ExecutionStatus → Option Json → S
settled_as ExecutionStatus.succeeded (some value) = S.completed
settled_as ExecutionStatus.succeeded none = S.failed
settled_as ExecutionStatus.cancelled result = S.cancelled
settled_as _ result = S.failed

module _ (validate : Json → Result ExternalArtifactResult) (run_id owner : ℕ)
    (action : ProposedAction) (k correlation_id : Key) where
  settle_terminal-as :
      (st : ExecutionStatus) (res : Option Json) (snapshot : ExecutionSnapshot)
      → snapshot.status ≡ st
      → snapshot.result ≡ res
      → is_execution st ExecutionStatus.cancelled ≡ false
      → Ends
          (IsSettled run_id (settled_as st res))
          (settle_terminal validate run_id owner action k snapshot)
  unfolding settle_terminal
  settle_terminal-as ExecutionStatus.succeeded (some value) snapshot e f h =
      rw (e, f)
        (Ends-bind (lift (validate value)) _ (settle_succeeded-IsSettled run_id owner action k))
  settle_terminal-as ExecutionStatus.succeeded none snapshot e f h =
      rw (e, f) (settle_failed-IsSettled run_id owner action snapshot.error_code)
  settle_terminal-as ExecutionStatus.cancelled res snapshot e f h = absurd (cc)
  settle_terminal-as ExecutionStatus.queued res snapshot e f h =
      rw e (settle_failed-IsSettled run_id owner action snapshot.error_code)
  settle_terminal-as ExecutionStatus.running res snapshot e f h =
      rw e (settle_failed-IsSettled run_id owner action snapshot.error_code)
  settle_terminal-as ExecutionStatus.partial res snapshot e f h =
      rw e (settle_failed-IsSettled run_id owner action snapshot.error_code)
  settle_terminal-as ExecutionStatus.failed res snapshot e f h =
      rw e (settle_failed-IsSettled run_id owner action snapshot.error_code)

  cancelled-eq :
      (st : ExecutionStatus)
      → is_execution st ExecutionStatus.cancelled ≡ true
      → st ≡ ExecutionStatus.cancelled
  cancelled-eq st h = ground arith

  settle_snapshot-Ends :
      (snapshot : ExecutionSnapshot)
      → runtime_status_is_terminal snapshot.status ≡ true
      → Ends
          (IsSettled run_id (settled_as snapshot.status snapshot.result))
          (settle_snapshot validate run_id owner action k correlation_id snapshot)
  unfolding settle_snapshot
  settle_snapshot-Ends snapshot terminal = Ends-bind (set_run run_id _) _ (λ _.
      Ends-if (not (runtime_status_is_terminal snapshot.status)) _ _ (λ running. absurd (cc))
        (λ _.
          Ends-if (is_execution snapshot.status ExecutionStatus.cancelled) _ _
            (λ same.
              rw (cancelled-eq snapshot.status same)
                (settle_cancelled-IsSettled run_id owner action))
            (settle_terminal-as snapshot.status snapshot.result snapshot refl refl)))

  -- An execution whose runtime has finished leaves the run in the status that the snapshot stands
  -- for: COMPLETED if it succeeded with a result, CANCELLED if it was cancelled, FAILED otherwise.
  -- What it returns is the committed row.
  pub settle_snapshot-IsSettled :
      (snapshot : ExecutionSnapshot) (s s' : Session) (r : WorkflowRun)
      → runtime_status_is_terminal snapshot.status ≡ true
      → settle_snapshot validate run_id owner action k correlation_id snapshot s ≡ (ok r, s')
      → IsSettled run_id (settled_as snapshot.status snapshot.result) r s'
  settle_snapshot-IsSettled snapshot s s' r terminal h =
      (settle_snapshot-Ends snapshot terminal).at s s' r h
