-- ===== src/Scheduling/Solver/Report.antt =====
-- `_result` of backend/app/scheduling/solver.py. The average is the pair of the total minutes and the
-- number of the new sessions.
use relay.Prelude.{
  ℕ, ◌+◌, Bool, true, false, ◌&&◌, List, [], ◌∷◌, ◌++◌, String, length, ltb, ◌==◌, str_eq,
  if◌then◌else◌,
}
use relay.Prelude.Dict.{get_or, put}
use relay.Scheduling.Problem.{AcademicTask, StudySession, duration_minutes, SchedulingProblem}
use relay.Scheduling.Constraints.{sort_sessions}
use relay.Scheduling.Candidates.{Minutes, add_sessions, remaining}

pub data SchedulingStatus : Type 0 where
  optimal feasible infeasible : SchedulingStatus

pub record SchedulingConflict : Type 0 where
  pub task_id : String
  pub unscheduled_minutes : ℕ

pub record SchedulingMetrics : Type 0 where
  pub tasks_fully_scheduled : ℕ
  pub tasks_partially_scheduled : ℕ
  pub unscheduled_minutes : ℕ
  pub session_count : ℕ
  pub average_session_minutes : ℕ × ℕ
  pub deadline_violations : ℕ
  pub preference_violations : ℕ

pub record SchedulingResult : Type 0 where
  pub status : SchedulingStatus
  pub sessions : List StudySession
  pub conflicts : List SchedulingConflict
  pub metrics : SchedulingMetrics
  pub unscheduled_minutes_by_task : Minutes

-- `unscheduled`, a dict over the ids of the tasks.
unfoldable pub unscheduled_of : Minutes → Minutes → List AcademicTask → Minutes
unscheduled_of scheduled left [] = left
unscheduled_of scheduled left (task ∷ tasks) =
    unscheduled_of scheduled (put str_eq task.id (remaining scheduled task) left) tasks

abbrev pub left_for : Minutes → AcademicTask → ℕ
left_for left task = get_or str_eq 0 task.id left

unfoldable pub conflicts_of : Minutes → List AcademicTask → List SchedulingConflict
conflicts_of left [] = []
conflicts_of left (task ∷ tasks) =
    let more = conflicts_of left tasks in
    if ltb 0 (left_for left task)
    then record { task_id = task.id; unscheduled_minutes = left_for left task } ∷ more
    else more

unfoldable pub count_complete : Minutes → List AcademicTask → ℕ
count_complete left [] = 0
count_complete left (task ∷ tasks) =
    let more = count_complete left tasks in if left_for left task == 0 then 1 + more else more

unfoldable pub count_partial : Minutes → List AcademicTask → ℕ
count_partial left [] = 0
count_partial left (task ∷ tasks) =
    let more = count_partial left tasks in
    if ltb 0 (left_for left task) && ltb (left_for left task) task.estimated_minutes
    then 1 + more
    else more

unfoldable pub sum_values : Minutes → ℕ
sum_values [] = 0
sum_values (item ∷ items) = item.1 + sum_values items

unfoldable pub total_duration : List StudySession → ℕ
total_duration [] = 0
total_duration (s ∷ rest) = duration_minutes s + total_duration rest

abbrev pub no_sessions : List StudySession → Bool
no_sessions [] = true
no_sessions (s ∷ rest) = false

abbrev pub has_conflicts : List SchedulingConflict → Bool
has_conflicts [] = false
has_conflicts (c ∷ cs) = true

unfoldable pub result :
    SchedulingProblem → List StudySession → Minutes → SchedulingStatus → SchedulingResult
unfolding unscheduled_of conflicts_of count_complete count_partial sum_values total_duration
result p new locked status =
    let scheduled = add_sessions locked new in
    let left = unscheduled_of scheduled [] p.tasks in
    let conflicts = conflicts_of left p.tasks in
    record {
      status =
          if has_conflicts conflicts && no_sessions new
          then SchedulingStatus.infeasible
          else status;
      sessions = sort_sessions (p.locked_sessions ++ new);
      conflicts = conflicts;
      metrics = record {
        tasks_fully_scheduled = count_complete left p.tasks;
        tasks_partially_scheduled = count_partial left p.tasks;
        unscheduled_minutes = sum_values left;
        session_count = length new + length p.locked_sessions;
        average_session_minutes = (total_duration new, length new);
        deadline_violations = 0;
        preference_violations = 0;
      };
      unscheduled_minutes_by_task = left;
    }
