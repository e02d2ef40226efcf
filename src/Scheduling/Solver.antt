-- ===== src/Scheduling/Solver.antt =====
-- `CPSATStudyScheduler.solve` of backend/app/scheduling/solver.py. The model that it builds is data;
-- CP-SAT, which answers it, and the text of a session's id are parameters.
pub mod Report
pub mod Order
pub mod Totals
pub mod Sound
pub mod Schedule
use relay.Prelude.{
  ℕ, suc, ◌+◌, ◌-◌, ◌*◌, ◌/◌, Bool, true, false, not, ◌&&◌, ◌||◌, Option, none, some, List, [], ◌∷◌,
  ◌++◌, map, keep, any, length, String, ltb, leb, ◌==◌, str_eq, if◌then◌else◌,
}
use relay.Prelude.Int.{ℤ, pos, ◌+ℤ◌}
use relay.Prelude.Dict.{get_or, put, gather}
use relay.Scheduling.Sessions.{slot_minutes}
use relay.Scheduling.Slots.{FreeWindow, subtract_busy}
use relay.Scheduling.Problem.{AcademicTask, StudySession, SchedulingProblem, SchedulingWeights}
use relay.Scheduling.Constraints.{sort_sessions}
use relay.Scheduling.Overlap.{CandidateSlot, overlap_constraints}
use relay.Scheduling.Windows.{clip_to_study_windows, subtract_locked}
use relay.Scheduling.Candidates.{Minutes, locked_minutes_by_task, remaining, candidate_slots}
use relay.Scheduling.Penalties.{
  Terms, Penalty, minutes_of, daily_balance_penalties, same_task_daily_penalties,
}
use relay.Scheduling.Solver.Report.{
  SchedulingStatus, optimal, feasible, infeasible, SchedulingResult, result,
}

-- The model: the pairs and the groups of which one at most is selected, the sums with their bounds,
-- the soft costs, and the value of each selected candidate.
pub record Model : Type 0 where
  pub pairs : List (ℕ × ℕ)
  pub groups : List (List ℕ)
  pub bounds : List (Terms × ℕ)
  pub penalties : List Penalty
  pub objective : Terms

pub data SolverStatus : Type 0 where
  solver_optimal solver_feasible solver_other : SolverStatus

pub record Solution : Type 0 where
  pub status : SolverStatus
  pub value : ℕ → Bool

abbrev pub same_fragment : String × ℕ → String × ℕ → Bool
same_fragment a b = str_eq a.0 b.0 && (a.1 == b.1)

-- `fragment_groups`
unfoldable pub fragment_groups :
    List ((String × ℕ) × List ℕ) → List CandidateSlot → List ((String × ℕ) × List ℕ)
fragment_groups groups [] = groups
fragment_groups groups (c ∷ cs) =
    fragment_groups (gather same_fragment (c.task_id, c.fragment_id) c.index groups) cs

abbrev pub of_task : String → CandidateSlot → Bool
of_task id c = str_eq c.task_id id

-- `if task_vars: model.add(sum(task_vars) <= requirement)`
abbrev pub bound_own : ℕ → List CandidateSlot → List (Terms × ℕ) → List (Terms × ℕ)
bound_own requirement [] more = more
bound_own requirement (c ∷ cs) more = (map minutes_of (c ∷ cs), requirement) ∷ more

unfoldable pub requirements : Minutes → List CandidateSlot → List AcademicTask → List (Terms × ℕ)
requirements locked candidates [] = []
requirements locked candidates (task ∷ tasks) =
    bound_own (remaining locked task) (keep (of_task task.id) candidates)
      (requirements locked candidates tasks)

-- `candidate.duration_minutes * weight + candidate.score`, the product as a repeated sum.
unfoldable pub times : ℕ → ℤ → ℤ
times ℕ.zero z = pos 0
times (suc n) z = z +ℤ times n z

abbrev pub worth : SchedulingWeights → CandidateSlot → ℕ × ℤ
worth weights c = (c.index, times weights.unscheduled_minute c.duration_minutes +ℤ c.score)

unfoldable pub build_model :
    SchedulingProblem → SchedulingWeights → Minutes → List CandidateSlot → Model
unfolding fragment_groups requirements daily_balance_penalties same_task_daily_penalties times
build_model p weights locked candidates = record {
  pairs = overlap_constraints p.preferences.minimum_break_minutes candidates;
  groups = map (λ group. group.1) (fragment_groups [] candidates);
  bounds = requirements locked candidates p.tasks;
  penalties =
      daily_balance_penalties p weights locked candidates
      ++ same_task_daily_penalties p weights candidates;
  objective = map (worth weights) candidates;
}

abbrev pub max_candidates : ℕ
max_candidates = 4000

-- `-(-n // MAX_CANDIDATES)`
abbrev pub coarser : ℕ → ℕ
coarser n = (n + (max_candidates - 1)) / max_candidates

-- The free time that candidates are taken from.
unfoldable pub free_windows : SchedulingProblem → List FreeWindow
free_windows p =
    subtract_locked
      (subtract_busy (clip_to_study_windows p.availability_windows p.preferences) p.busy_intervals)
      p.locked_sessions

abbrev pub recount :
    SchedulingProblem → SchedulingWeights → List CandidateSlot → Option (List CandidateSlot)
recount p weights cs =
    if ltb max_candidates (length cs)
    then candidate_slots p weights (free_windows p) (locked_minutes_by_task p.locked_sessions)
        (slot_minutes * coarser (length cs))
    else some cs

-- The candidates, in coarser steps where there are too many of them.
unfoldable pub candidates_for_model :
    SchedulingProblem → SchedulingWeights → Option (List CandidateSlot)
unfolding free_windows
candidates_for_model p weights =
    elim (candidate_slots p weights (free_windows p) (locked_minutes_by_task p.locked_sessions)
      slot_minutes) [ none ↦ none | some cs ↦ recount p weights cs ]

abbrev pub is_empty : List CandidateSlot → Bool
is_empty [] = true
is_empty (c ∷ cs) = false

-- `solver.boolean_value(selected[index])`
abbrev pub is_selected : Solution → CandidateSlot → Bool
is_selected solution c = solution.value c.index

module _ (session_id : String → ℕ → ℕ → String) where
  abbrev pub to_session : CandidateSlot → StudySession
  to_session c = record {
    id = some (session_id c.task_id c.fragment_id c.start);
    task_id = c.task_id;
    start = c.start;
    finish = c.finish;
  }

  -- What the answer of CP-SAT makes of the candidates.
  unfoldable pub read_solution :
      SchedulingProblem → List CandidateSlot → Solution → SchedulingResult
  read_solution p candidates solution =
      let locked = locked_minutes_by_task p.locked_sessions in
      let sessions = sort_sessions (map to_session (keep (is_selected solution) candidates)) in
      elim solution.status [
        | solver_optimal ↦ result p sessions locked optimal
        | solver_feasible ↦ result p sessions locked feasible
        | solver_other ↦ result p [] locked infeasible
      ]

  module _ (cp_sat : Model → Solution) where
    abbrev pub solve_with :
        SchedulingProblem → SchedulingWeights → List CandidateSlot → SchedulingResult
    solve_with p weights candidates =
        let locked = locked_minutes_by_task p.locked_sessions in
        if is_empty candidates && any (λ task. ltb 0 (remaining locked task)) p.tasks
        then result p [] locked infeasible
        else read_solution p candidates (cp_sat (build_model p weights locked candidates))

    -- `CPSATStudyScheduler.solve`; `none` where the cutting of a task does not end.
    unfoldable pub solve : SchedulingProblem → SchedulingWeights → Option SchedulingResult
    unfolding candidates_for_model build_model read_solution
    solve p weights = elim (candidates_for_model p weights) [
      | none ↦ none
      | some candidates ↦ some (solve_with p weights candidates)
    ]
