-- ===== src/Services/Execution/Ends.antt =====
-- Properties of the end of every successful run, and the ends of the executions of
-- backend/app/services/execution.py.
use relay.Prelude.{
  ℕ, String, ◌≡◌, refl, Bool, true, false, Option, none, some, List, [], ◌∷◌, find, ◌==◌,
  Bool-cases, inl, inr, arith, if◌then◌else◌,
}
use relay.Domain.Enums.{WorkflowStatus as S}
use relay.Domain.Errors.{ok}
use relay.Domain.Workflows.Lifecycle.{transition-current}
use relay.Store.{Metadata, Key, WorkflowRun, ProposedAction}
use relay.Session.{Session, Exec, ◌>>=◌, commit, record_event}
use relay.Session.Runs.{>>=-Halves}
use relay.Repository.{load_run, update_run}
use relay.Services.Workflows.{apply_transition, moved}
use relay.Services.Workflows.Moves.{apply_transition-ok}
use relay.Services.Execution.{
  ExternalArtifactResult, settle_cancelled, settle_succeeded, settle_failed,
}

-- Every successful run of `m` ends in `P`.
pub record Ends {A : Type 0} (P : A → Session → Type 0) (m : Exec A) : Type 0 where
  pub at : (s s' : Session) (a : A) → m s ≡ (ok a, s') → P a s'

pub Ends-bind :
    {A B : Type 0} {P : B → Session → Type 0} (m : Exec A) (f : A → Exec B)
    → ((a : A) → Ends P (f a))
    → Ends P (m >>= f)
Ends-bind m f each = record {
  at = λ s s' b h.
      let halves = >>=-Halves m f s h in (each halves.value).at halves.between s' b halves.second;
}

pub Ends-if :
    {A : Type 0} {P : A → Session → Type 0} (b : Bool) (m n : Exec A)
    → (b ≡ true → Ends P m)
    → (b ≡ false → Ends P n)
    → Ends P (if b then m else n)
Ends-if true m n hm hn = hm refl
Ends-if false m n hm hn = hn refl

-- The returned row has status `target` and is the committed one.
pub record IsSettled (run_id : ℕ) (target : S) (r : WorkflowRun) (s : Session) : Type 0 where
  pub reached : r.status ≡ target
  pub committed : find (λ (x : WorkflowRun). x.id == run_id) s.committed.runs ≡ some r

module _ (run_id : ℕ) (f : WorkflowRun → WorkflowRun)
    (keeps_id : (r : WorkflowRun) → (f r).id ≡ r.id) where
  pub find-update_run :
      (r : WorkflowRun) (rows : List WorkflowRun)
      → find (λ (x : WorkflowRun). x.id == run_id) rows ≡ some r
      → find (λ (x : WorkflowRun). x.id == run_id) (update_run run_id f rows) ≡ some (f r)
  find-update_run r [] h = cc
  find-update_run r (x ∷ rows) h = elim (Bool-cases (x.id == run_id)) [
    | inl same ↦ ground (arith, keeps_id x)
    | inr other ↦ let more = find-update_run r rows in ground (arith, more)
  ]

  pub find-none-update_run :
      (rows : List WorkflowRun)
      → find (λ (x : WorkflowRun). x.id == run_id) rows ≡ none
      → find (λ (x : WorkflowRun). x.id == run_id) (update_run run_id f rows) ≡ none
  find-none-update_run [] h = refl
  find-none-update_run (x ∷ rows) h = elim (Bool-cases (x.id == run_id)) [
    | inl same ↦ ground arith
    | inr other ↦ let more = find-none-update_run rows in ground (arith, more)
  ]

-- After an accepted transition the transaction sees the run in the status it was moved to.
abbrev Reached : ℕ → S → Session → Type 0
Reached run_id target s =
    (row : WorkflowRun) × (find (λ (x : WorkflowRun). x.id == run_id) s.working.runs ≡ some row)
    × (row.status ≡ target)

apply_transition-Reached :
    (run_id : ℕ) (target : S) (owner : ℕ) (s s' : Session)
    → apply_transition run_id target owner s ≡ (ok tt, s')
    → Reached run_id target s'
apply_transition-Reached run_id target owner s s' h =
    let m = apply_transition-ok run_id target owner s h in
    rw m.final (
      moved m.change m.r,
      find-update_run run_id (moved m.change) (λ r. refl) m.r s.working.runs m.found,
      transition-current m.r.status target m.r.started_at (s.times s.ticks) m.listed,
    )

load-IsSettled :
    (run_id : ℕ) (target : S) (s s' : Session) (r : WorkflowRun)
    → Reached run_id target s
    → (commit >>= λ _. load_run run_id) s ≡ (ok r, s')
    → IsSettled run_id target r s'
unfolding ◌>>=◌ commit load_run
load-IsSettled run_id target s s' r (row, found, reached) h = record {
  reached = ground arith;
  committed = ground arith;
}

pub finish-IsSettled :
    (run_id : ℕ) (target : S) (owner : ℕ)
    → Ends
        (IsSettled run_id target)
        (apply_transition run_id target owner >>= λ _. commit >>= λ _. load_run run_id)
finish-IsSettled run_id target owner = record {
  at = λ s s' r h.
      let halves = >>=-Halves (apply_transition run_id target owner) _ s h in
      load-IsSettled run_id target halves.between s' r
        (apply_transition-Reached run_id target owner s halves.between halves.first) halves.second;
}

record_event-Reached :
    (run_id : ℕ) (target : S) (owner : ℕ) (event_type : String)
    (metadata : List (String × Metadata)) (s s' : Session)
    → Reached run_id target s
    → record_event owner event_type run_id metadata s ≡ (ok tt, s')
    → Reached run_id target s'
unfolding record_event ◌>>=◌
record_event-Reached run_id target owner event_type metadata s s' (row, found, reached) h =
    (row, ground arith, reached)

pub finish_recorded-IsSettled :
    (run_id : ℕ) (target : S) (owner : ℕ) (event_type : String)
    (metadata : List (String × Metadata))
    → Ends (IsSettled run_id target) (
        apply_transition run_id target owner >>= λ _.
        record_event owner event_type run_id metadata >>= λ _. commit >>= λ _. load_run run_id)
finish_recorded-IsSettled run_id target owner event_type metadata = record {
  at = λ s s' r h.
      let moved = >>=-Halves (apply_transition run_id target owner) _ s h in
      let recorded =
        >>=-Halves (record_event owner event_type run_id metadata) _ moved.between moved.second in
      load-IsSettled run_id target recorded.between s' r
        (record_event-Reached run_id target owner event_type metadata moved.between recorded.between
          (apply_transition-Reached run_id target owner s moved.between moved.first) recorded.first)
        recorded.second;
}

pub ruleset ends_rules = (Ends-bind, finish-IsSettled, finish_recorded-IsSettled)

pub settle_failed-IsSettled :
    (run_id owner : ℕ) (action : ProposedAction) (error_code : Option String)
    → Ends (IsSettled run_id S.failed) (settle_failed run_id owner action error_code)
unfolding settle_failed
settle_failed-IsSettled run_id owner action error_code = search ends_rules depth 30

pub settle_cancelled-IsSettled :
    (run_id owner : ℕ) (action : ProposedAction)
    → Ends (IsSettled run_id S.cancelled) (settle_cancelled run_id owner action)
unfolding settle_cancelled
settle_cancelled-IsSettled run_id owner action = search ends_rules depth 30

pub settle_succeeded-IsSettled :
    (run_id owner : ℕ) (action : ProposedAction) (k : Key) (result : ExternalArtifactResult)
    → Ends (IsSettled run_id S.completed) (settle_succeeded run_id owner action k result)
unfolding settle_succeeded
settle_succeeded-IsSettled run_id owner action k result = search ends_rules depth 40
