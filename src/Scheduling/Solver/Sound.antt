-- ===== src/Scheduling/Solver/Sound.antt =====
-- What `CPSATStudyScheduler.solve` of backend/app/scheduling/solver.py returns, where CP-SAT's
-- answers satisfy the models that they answer.
use relay.Prelude.{
  ℕ, ◌+◌, ◌*◌, ◌≤◌, ◌<◌, ◌≡◌, sym, subst, Bool, true, false, ◌&&◌, List, [], map, keep, any, length,
  All, All-map, All-every, All-keep, leb, String, str_eq, arith,
}
use relay.Prelude.Int.{ℤ, pos, negsuc, pos_part, ◌+ℤ◌, ◌≤ℤ◌}
use relay.Scheduling.Slots.{minute, FreeWindow}
use relay.Scheduling.Sessions.Lengths.{Fits}
use relay.Scheduling.Problem.{
  AcademicTask, StudySession, duration_minutes, SchedulingProblem, SchedulingWeights,
}
use relay.Scheduling.Overlap.{CandidateSlot}
use relay.Scheduling.Overlap.Selection.{Obeys, overlap_constraints-Spaced}
use relay.Scheduling.Constraints.{sort_sessions, total_minutes}
use relay.Scheduling.Constraints.Valid.{AreSpaced, sort_sessions-All}
use relay.Scheduling.Windows.Hours.{IsFreeTime}
use relay.Scheduling.Candidates.{locked_minutes_by_task, remaining}
use relay.Scheduling.Candidates.Placed.{IsCandidate}
use relay.Scheduling.Penalties.{Penalty, minutes_of}
use relay.Scheduling.Solver.{
  Model, SolverStatus, solver_optimal, solver_feasible, solver_other, Solution, build_model,
  of_task, to_session,
}
use relay.Scheduling.Solver.Order.{sort_sessions-keep, map-AreSpaced, map-All}
use relay.Scheduling.Solver.Totals.{
  selected_sum, Bounded, IsWhole, whole_minutes, requirements-Bounded, sort_sessions-total_minutes,
  selected_sum-total_minutes,
}

-- The variable of a penalty has a value.
abbrev pub IsPayable : (ℕ → Bool) → Penalty → Type 0
IsPayable value penalty =
    pos penalty.offset +ℤ selected_sum value penalty.terms ≤ℤ pos (penalty.target + penalty.maximum)

-- The values satisfy every constraint of the model.
pub record Satisfies (m : Model) (value : ℕ → Bool) : Type 0 where
  pub pairs : Obeys value m.pairs
  pub groups : All (λ group. length (keep value group) ≤ 1) m.groups
  pub bounds : All (Bounded value) m.bounds
  pub penalties : All (IsPayable value) m.penalties

abbrev pub has_values : SolverStatus → Bool
has_values solver_optimal = true
has_values solver_feasible = true
has_values solver_other = false

-- An answer that has values satisfies its model.
abbrev pub IsSound : (Model → Solution) → Type 0
IsSound cp_sat = (m : Model) → has_values (cp_sat m).status ≡ true → Satisfies m (cp_sat m).value

abbrev pub window_of : StudySession → FreeWindow
window_of s = record { start = s.start; finish = s.finish }

abbrev pub IsStudyFree : SchedulingProblem → FreeWindow → Type 0
IsStudyFree p = IsFreeTime p.preferences p.availability_windows p.busy_intervals p.locked_sessions

-- The session lies in free study time and in the future, and ends by the deadline of its task.
pub record IsPlanned (p : SchedulingProblem) (s : StudySession) : Type 0 where
  pub free : IsStudyFree p (window_of s)
  pub future : p.now ≤ s.start
  pub at_least : 1 ≤ duration_minutes s
  pub at_most : duration_minutes s ≤ p.preferences.maximum_session_minutes
  pub due : any (λ t. str_eq t.id s.task_id && leb s.finish t.deadline) p.tasks ≡ true

-- The new sessions as a schedule.
pub record IsSchedule (p : SchedulingProblem) (new : List StudySession) : Type 0 where
  pub planned : All (IsPlanned p) new
  pub spaced : AreSpaced (p.preferences.minimum_break_minutes * minute) new
  pub within :
      All
        (λ task.
          total_minutes task.id new ≤ remaining (locked_minutes_by_task p.locked_sessions) task)
        p.tasks

pub no_sessions-IsSchedule : (p : SchedulingProblem) → IsSchedule p []
no_sessions-IsSchedule p = record {
  planned = tt;
  spaced = tt;
  within = All-every _ (λ task. omega arith) p.tasks;
}

positive_part : (maximum : ℕ) (z : ℤ) → Fits maximum z → (1 ≤ pos_part z) × (pos_part z ≤ maximum)
positive_part maximum (pos m) h = (omega (arith, h.0), omega (arith, h.1))
positive_part maximum (negsuc m) h = absurd (omega (arith, h.0))

module _ (p : SchedulingProblem) (c : CandidateSlot) (h : IsCandidate (IsStudyFree p) p c) where
  IsCandidate-IsWhole : IsWhole c
  IsCandidate-IsWhole = (h.lasts, h.fits.0)

  IsCandidate-Nonempty : c.start < c.finish
  IsCandidate-Nonempty =
      let long = positive_part p.preferences.maximum_session_minutes c.duration_minutes h.fits in
      rw h.lasts (omega (arith, long.0))

module _ (session_id : String → ℕ → ℕ → String) (p : SchedulingProblem) where
  total_minutes-bound :
      (cs : List CandidateSlot) (value : ℕ → Bool)
      → All (IsCandidate (IsStudyFree p) p) cs
      → (task : AcademicTask)
      → Bounded value (
        map minutes_of (keep (of_task task.id) cs),
        remaining (locked_minutes_by_task p.locked_sessions) task,
      )
      → total_minutes task.id
          (sort_sessions (map (to_session session_id) (keep (λ c. value c.index) cs)))
        ≤ remaining (locked_minutes_by_task p.locked_sessions) task
  total_minutes-bound cs value placed task h =
      let whole = All-map (λ c k. IsCandidate-IsWhole p c k) cs placed in
      let sum = selected_sum-total_minutes session_id value task.id cs whole in
      rw (sort_sessions-total_minutes task.id _) (omega (arith, rw sum at h))

  to_session-IsPlanned :
      (c : CandidateSlot) → IsCandidate (IsStudyFree p) p c → IsPlanned p (to_session session_id c)
  to_session-IsPlanned c h =
      let whole = whole_minutes session_id c (IsCandidate-IsWhole p c h) in
      let long = positive_part p.preferences.maximum_session_minutes c.duration_minutes h.fits in
      record {
        free = h.free;
        future = h.future;
        at_least = rw whole.0 long.0;
        at_most = rw whole.0 long.1;
        due = h.due;
      }

  pub selection-IsSchedule :
      (weights : SchedulingWeights) (cs : List CandidateSlot) (value : ℕ → Bool)
      → All (IsCandidate (IsStudyFree p) p) cs
      → Satisfies (build_model p weights (locked_minutes_by_task p.locked_sessions) cs) value
      → IsSchedule p (sort_sessions (map (to_session session_id) (keep (λ c. value c.index) cs)))
  unfolding build_model
  selection-IsSchedule weights cs value placed satisfied =
      let test : CandidateSlot → Bool = λ c. value c.index in
      let locked = locked_minutes_by_task p.locked_sessions in
      let pause = p.preferences.minimum_break_minutes in
      let long = All-map (λ c h. IsCandidate-Nonempty p c h) cs placed in
      let spaced = (overlap_constraints-Spaced value pause cs long).0 satisfied.pairs in
      let bounds = requirements-Bounded value locked cs p.tasks satisfied.bounds in
      record {
        planned = sort_sessions-All (IsPlanned p) _ (
            map-All session_id (IsPlanned p) _
              (All-map to_session-IsPlanned _ (All-keep _ test cs placed)));
        spaced =
            subst (AreSpaced (pause * minute)) (sym (sort_sessions-keep session_id test cs))
              (map-AreSpaced session_id (pause * minute) _ spaced);
        within = All-map (λ task h. total_minutes-bound cs value placed task h) p.tasks bounds;
      }
