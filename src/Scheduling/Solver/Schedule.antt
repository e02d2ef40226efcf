-- ===== src/Scheduling/Solver/Schedule.antt =====
-- `CPSATStudyScheduler.solve` of backend/app/scheduling/solver.py returns a schedule.
use relay.Prelude.{
  ℕ, ◌*◌, ◌≤◌, ◌≡◌, refl, Bool, true, ◌&&◌, Option, some, List, [], any, All, All-map, length, ltb,
  String, ◌++◌, Bool-cases, inl, inr,
}
use relay.Scheduling.Sessions.{slot_minutes}
use relay.Scheduling.Problem.{StudySession, SchedulingProblem, SchedulingWeights}
use relay.Scheduling.Overlap.{CandidateSlot}
use relay.Scheduling.Constraints.{sort_sessions}
use relay.Scheduling.Windows.Hours.{IsFreeTime-Inside, subtract_both-IsFreeTime}
use relay.Scheduling.Candidates.{locked_minutes_by_task, remaining, candidate_slots}
use relay.Scheduling.Candidates.Placed.{IsCandidate, candidate_slots-IsCandidate}
use relay.Scheduling.Solver.{
  Model, SolverStatus, solver_optimal, solver_feasible, solver_other, Solution, build_model,
  free_windows, candidates_for_model, max_candidates, coarser, is_empty, read_solution, solve_with,
  solve,
}
use relay.Scheduling.Solver.Report.{SchedulingStatus, SchedulingResult, result}
use relay.Scheduling.Solver.Sound.{
  IsSound, IsStudyFree, IsSchedule, Satisfies, has_values, no_sessions-IsSchedule,
  selection-IsSchedule,
}

-- The sessions of a result are the locked ones and those of a schedule, in the order of their starts.
pub record Plans (p : SchedulingProblem) (r : SchedulingResult) : Type 0 where
  pub new : List StudySession
  pub merged : r.sessions ≡ sort_sessions (p.locked_sessions ++ new)
  pub schedule : IsSchedule p new

module _ (session_id : String → ℕ → ℕ → String) (p : SchedulingProblem)
    (weights : SchedulingWeights) where
  free_windows-IsStudyFree : All (IsStudyFree p) (free_windows p)
  unfolding free_windows
  free_windows-IsStudyFree =
      All-map (λ w h. h.1) _
        (subtract_both-IsFreeTime p.preferences p.availability_windows p.busy_intervals
          p.locked_sessions)

  no_new-Plans :
      (status : SchedulingStatus)
      → Plans p (result p [] (locked_minutes_by_task p.locked_sessions) status)
  unfolding result
  no_new-Plans status = record { new = []; merged = refl; schedule = no_sessions-IsSchedule p }

  new-Plans :
      (new : List StudySession) (status : SchedulingStatus)
      → IsSchedule p new
      → Plans p (result p new (locked_minutes_by_task p.locked_sessions) status)
  unfolding result
  new-Plans new status h = record { new = new; merged = refl; schedule = h }

  -- The answer of CP-SAT on these candidates.
  abbrev Answers : List CandidateSlot → SolverStatus → (ℕ → Bool) → Type 0
  Answers cs status value =
      has_values status ≡ true
      → Satisfies (build_model p weights (locked_minutes_by_task p.locked_sessions) cs) value

  read_solution-Plans :
      (cs : List CandidateSlot) (status : SolverStatus) (value : ℕ → Bool)
      → All (IsCandidate (IsStudyFree p) p) cs
      → Answers cs status value
      → Plans p (read_solution session_id p cs (record { status = status; value = value }))
  unfolding read_solution
  read_solution-Plans cs solver_optimal value placed sound =
      new-Plans _ SchedulingStatus.optimal
        (selection-IsSchedule session_id p weights cs value placed (sound refl))
  read_solution-Plans cs solver_feasible value placed sound =
      new-Plans _ SchedulingStatus.feasible
        (selection-IsSchedule session_id p weights cs value placed (sound refl))
  read_solution-Plans cs solver_other value placed sound = no_new-Plans SchedulingStatus.infeasible

  solve_with-Plans :
      (cp_sat : Model → Solution)
      → IsSound cp_sat
      → (cs : List CandidateSlot) → All (IsCandidate (IsStudyFree p) p) cs
      → Plans p (solve_with session_id cp_sat p weights cs)
  solve_with-Plans cp_sat sound cs placed =
      let locked = locked_minutes_by_task p.locked_sessions in
      let m = build_model p weights locked cs in
      elim (Bool-cases (is_empty cs && any (λ task. ltb 0 (remaining locked task)) p.tasks)) [
        | inl nothing ↦ rw nothing (no_new-Plans SchedulingStatus.infeasible)
        | inr some_left ↦
            rw some_left
              (read_solution-Plans cs (cp_sat m).status (cp_sat m).value placed (sound m))
      ]

  abbrev Placed : Option (List CandidateSlot) → Type 0
  Placed made =
      (cs : List CandidateSlot) × (made ≡ some cs) × All (IsCandidate (IsStudyFree p) p) cs

  module _ (preferred : slot_minutes ≤ p.preferences.preferred_session_minutes)
      (maximum : slot_minutes ≤ p.preferences.maximum_session_minutes) where
    candidate_slots-Placed :
        (step_minutes : ℕ)
        → Placed (
            candidate_slots p weights
              (free_windows p)
              (locked_minutes_by_task p.locked_sessions)
              step_minutes)
    candidate_slots-Placed step_minutes =
        candidate_slots-IsCandidate (IsStudyFree p)
          (IsFreeTime-Inside p.preferences p.availability_windows p.busy_intervals
            p.locked_sessions)
          p weights step_minutes (free_windows p) (locked_minutes_by_task p.locked_sessions)
          free_windows-IsStudyFree preferred maximum

    candidates_for_model-Placed : Placed (candidates_for_model p weights)
    unfolding candidates_for_model
    candidates_for_model-Placed =
        let (cs, e, placed) = candidate_slots-Placed slot_minutes in
        elim (Bool-cases (ltb max_candidates (length cs))) [
          | inl many ↦
              let (ds, f, placed2) = candidate_slots-Placed (slot_minutes * coarser (length cs)) in
              (ds, rw (candidates_for_model, e, many, f) refl, placed2)
          | inr few ↦ (cs, rw (candidates_for_model, e, few) refl, placed)
        ]

    -- Where the sessions asked for are of a slot at least and CP-SAT's answers satisfy their
    -- models, `solve` returns a result, whose sessions are the locked ones and new ones such that:
    -- each new one lies in one availability window and in the study hours of a study day, meets no
    -- busy interval and no locked session, does not start before now, ends by the deadline of its
    -- task and is no longer than the maximum; each is over, with the minimum break, before any
    -- later one starts; and the new ones of a task take no more minutes than it still needs.
    pub solve-Plans :
        (cp_sat : Model → Solution)
        → IsSound cp_sat
        → (r : SchedulingResult) × (solve session_id cp_sat p weights ≡ some r) × Plans p r
    unfolding solve
    solve-Plans cp_sat sound =
        let (cs, e, placed) = candidates_for_model-Placed in
        (
          solve_with session_id cp_sat p weights cs,
          rw (solve, e) refl,
          solve_with-Plans cp_sat sound cs placed,
        )
