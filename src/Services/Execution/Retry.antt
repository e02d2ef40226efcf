-- ===== src/Services/Execution/Retry.antt =====
-- Executions that the runtime leaves open or uncertain (backend/app/services/execution.py).
use relay.Prelude.{ℕ, ◌≡◌, refl, true, none, some, find, ◌==◌, arith}
use relay.Domain.Enums.{WorkflowStatus as S, ExecutionStatus}
use relay.Domain.Errors.{
  DomainError, Result, ok, err, code, invalid_workflow_transition, runtime_request_timeout,
  runtime_unavailable, runtime_rate_limited,
}
use relay.Domain.Workflows.{transition}
use relay.Json.{Json}
use relay.Store.{Key, ExecutionSnapshot, WorkflowRun, ProposedAction}
use relay.Session.{Session, ◌>>=◌, commit, record_event}
use relay.Repository.{load_run, set_run, set_action, update_run}
use relay.Runtime.Client.{
  RuntimeClient, workflow_status_for_runtime, runtime_status_is_terminal, is_recoverable,
  is_recoverable_code, run_has_recoverable_runtime_error, mark_runtime_recoverable,
}
use relay.Services.Workflows.{apply_transition}
use relay.Services.Execution.{
  ExternalArtifactResult, settle_open, settle_snapshot, after_submission,
}
use relay.Services.Execution.Ends.{find-update_run}

-- The errors after which it is not known what the runtime did.
pub data IsUncertain : DomainError → Type 0 where
  timeout : IsUncertain runtime_request_timeout
  unavailable : IsUncertain runtime_unavailable
  rate_limited : IsUncertain runtime_rate_limited

uncertain-is_recoverable : (e : DomainError) → IsUncertain e → is_recoverable e ≡ true
unfolding is_recoverable
uncertain-is_recoverable e timeout = refl
uncertain-is_recoverable e unavailable = refl
uncertain-is_recoverable e rate_limited = refl

-- The call has returned a run that is committed, and that is executed again.
pub record IsRecoverable (run_id : ℕ) (done : Result WorkflowRun × Session) : Type 0 where
  pub r : WorkflowRun
  pub returned : done.0 ≡ ok r
  pub committed : find (λ (x : WorkflowRun). x.id == run_id) done.1.committed.runs ≡ some r
  pub status : r.status ≡ S.executing
  pub retried : run_has_recoverable_runtime_error r ≡ true

module _ (validate : Json → Result ExternalArtifactResult) (run_id owner : ℕ)
    (action : ProposedAction) (k correlation_id : Key) where
  abbrev synced : ExecutionSnapshot → WorkflowRun → WorkflowRun
  synced snapshot r = record r {
    runtime_execution_id = some snapshot.execution_id;
    result_payload = some (record {
      execution = some snapshot;
      correlation_id = some correlation_id;
      artifact_id = none;
      artifact = none;
      tally = none;
      results = none;
      task_id = none;
    });
  }

  settle_open-queued :
      (snapshot : ExecutionSnapshot) (s : Session) (row : WorkflowRun)
      → snapshot.status ≡ ExecutionStatus.queued
      → find (λ (x : WorkflowRun). x.id == run_id) s.working.runs ≡ some row
      → row.status ≡ S.executing
      → row.user_id ≡ owner
      → (settle_open run_id owner action snapshot s).0 ≡ err invalid_workflow_transition
  unfolding settle_open workflow_status_for_runtime load_run apply_transition set_action transition
      ◌>>=◌
  settle_open-queued snapshot s row queued found executing owned = ground arith

  -- A runtime that, after polling, still has the execution QUEUED makes the settlement of a run in
  -- EXECUTING raise: the transition from EXECUTING to QUEUED is not listed.
  pub settle_snapshot-queued :
      (snapshot : ExecutionSnapshot) (s : Session) (row : WorkflowRun)
      → snapshot.status ≡ ExecutionStatus.queued
      → find (λ (x : WorkflowRun). x.id == run_id) s.working.runs ≡ some row
      → row.status ≡ S.executing
      → row.user_id ≡ owner
      → (settle_snapshot validate run_id owner action k correlation_id snapshot s).0
        ≡ err invalid_workflow_transition
  unfolding settle_snapshot set_run runtime_status_is_terminal ◌>>=◌
  settle_snapshot-queued snapshot s row queued found executing owned =
      let f : WorkflowRun → WorkflowRun = synced snapshot in
      let after : Session = record s {
        working = record s.working { runs = update_run run_id f s.working.runs };
      } in
      let refused =
        settle_open-queued snapshot after (f row) queued
          (find-update_run run_id f (λ r. refl) row s.working.runs found) executing owned in
      ground (arith, refused)

  recoverable_code :
      (e : DomainError) → is_recoverable e ≡ true → is_recoverable_code (some (code e)) ≡ true
  unfolding is_recoverable is_recoverable_code code
  recoverable_code runtime_request_timeout h = refl
  recoverable_code runtime_unavailable h = refl
  recoverable_code runtime_rate_limited h = refl
  recoverable_code _ h = absurd (cc)

  -- After an error of the runtime that leaves the execution uncertain (RuntimeRequestTimeout,
  -- RuntimeUnavailable, RuntimeRateLimited), the submission of a run that is there returns the run,
  -- which is the one it committed, in EXECUTING, in a state from which it is executed again.
  pub after_submission-IsRecoverable :
      (runtime : RuntimeClient) (polls : ℕ) (e : DomainError) (s : Session) (row : WorkflowRun)
      → IsUncertain e
      → find (λ (x : WorkflowRun). x.id == run_id) s.working.runs ≡ some row
      → IsRecoverable run_id
          (after_submission validate runtime polls run_id owner action k correlation_id (err e) s)
  unfolding after_submission mark_runtime_recoverable run_has_recoverable_runtime_error record_event
      set_run load_run commit ◌>>=◌
  after_submission-IsRecoverable runtime polls e s row uncertain found =
      let f : WorkflowRun → WorkflowRun =
        λ r. record r { status = S.executing; error_code = some (code e) } in
      let may = uncertain-is_recoverable e uncertain in
      let seen = find-update_run run_id f (λ r. refl) row s.working.runs found in
      rw may (record {
        r = f row;
        returned = ground (arith, seen);
        committed = ground (arith, seen);
        status = refl;
        retried = recoverable_code e may;
      })
