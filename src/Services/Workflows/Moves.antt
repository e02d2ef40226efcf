-- ===== src/Services/Workflows/Moves.antt =====
-- What `apply_transition` of backend/app/services/workflows.py does on each of its branches.
use relay.Prelude.{
  ℕ, suc, ◌≡◌, false, some, [], ◌∷◌, ◌++◌, inl, inr, find, Option-cases, ◌==◌, arith,
}
use relay.Domain.Enums.{WorkflowStatus as S}
use relay.Domain.Errors.{DomainError, Result-cases, ok, err}
use relay.Domain.Workflows.{Transition, transition}
use relay.Store.{WorkflowRun, AuditEvent, status}
use relay.Session.{Session, next_instant, record_event, ◌>>=◌}
use relay.Repository.{
  actions_of, approvals_of, update_run, load_run, actions, run_approvals, set_run,
}
use relay.Services.Workflows.{gate_fails, moved, apply_transition}

-- The audit event of a change of status.
abbrev pub state_changed : ℕ → ℕ → Transition → Session → AuditEvent
state_changed run_id owner change s = record {
  user_id = owner;
  workflow_run_id = some run_id;
  event_type = "WORKFLOW_STATE_CHANGED";
  event_metadata = ("from", status change.previous) ∷ ("to", status change.current) ∷ [];
  created_at = next_instant s.last_recorded_at (s.times (suc s.ticks));
}

-- The session after an accepted transition: the run's row is moved and one event is appended.
abbrev pub accepted : ℕ → ℕ → Transition → Session → Session
accepted run_id owner change s = record s {
  ticks = suc (suc s.ticks);
  last_recorded_at = some (next_instant s.last_recorded_at (s.times (suc s.ticks)));
  working = record s.working {
    runs = update_run run_id (moved change) s.working.runs;
    audit = s.working.audit ++ state_changed run_id owner change s ∷ [];
  };
}

pub record IsAccepted (run_id : ℕ) (target : S) (owner : ℕ) (s s' : Session) : Type 0 where
  pub r : WorkflowRun
  pub change : Transition
  pub found : find (λ (r : WorkflowRun). r.id == run_id) s.working.runs ≡ some r
  pub owned : r.user_id ≡ owner
  pub listed : transition r.status target r.started_at (s.times s.ticks) ≡ ok change
  pub gate : gate_fails target (actions_of run_id s.working) (approvals_of run_id s.working) ≡ false
  pub final : s' ≡ accepted run_id owner change s

module _ (run_id : ℕ) (target : S) (owner : ℕ) (s : Session) where
  -- An accepted transition.
  pub apply_transition-ok :
      {s' : Session}
      → apply_transition run_id target owner s ≡ (ok tt, s')
      → IsAccepted run_id target owner s s'
  unfolding apply_transition load_run actions run_approvals set_run record_event ◌>>=◌
  apply_transition-ok h =
      elim (Option-cases (find (λ (r : WorkflowRun). r.id == run_id) s.working.runs)) [
        | inl missing ↦ absurd (ground arith)
        | inr (r, found) ↦
            elim (Result-cases (transition r.status target r.started_at (s.times s.ticks))) [
              | inl (change, listed) ↦ record {
                r = r;
                change = change;
                found = found;
                owned = ground arith;
                listed = listed;
                gate = ground arith;
                final = ground arith;
              }
              | inr (e, refused) ↦ absurd (ground arith)
            ]
      ]

  -- A refusal has written nothing: neither a row, nor an event, nor the watermark.
  pub apply_transition-err :
      {e : DomainError} {s' : Session}
      → apply_transition run_id target owner s ≡ (err e, s')
      → (s'.working ≡ s.working)
        × (s'.committed ≡ s.committed)
        × (s'.last_recorded_at ≡ s.last_recorded_at)
  unfolding apply_transition load_run actions run_approvals set_run record_event ◌>>=◌
  apply_transition-err h =
      elim (Option-cases (find (λ (r : WorkflowRun). r.id == run_id) s.working.runs)) [
        | inl missing ↦ ground arith
        | inr (r, found) ↦
            elim (Result-cases (transition r.status target r.started_at (s.times s.ticks))) [
              | inl (change, listed) ↦ ground arith
              | inr (e, refused) ↦ ground arith
            ]
      ]

  -- The converse of `apply_transition-ok`: nothing else can refuse.
  pub apply_transition-accepts :
      (r : WorkflowRun) (change : Transition)
      → find (λ (r : WorkflowRun). r.id == run_id) s.working.runs ≡ some r
      → r.user_id ≡ owner
      → transition r.status target r.started_at (s.times s.ticks) ≡ ok change
      → gate_fails target (actions_of run_id s.working) (approvals_of run_id s.working) ≡ false
      → apply_transition run_id target owner s ≡ (ok tt, accepted run_id owner change s)
  unfolding apply_transition load_run actions run_approvals set_run record_event ◌>>=◌
  apply_transition-accepts r change found owned listed gate = ground arith
