-- ===== src/Scheduling/Constraints.antt =====
-- backend/app/scheduling/constraints.py: the validation of blocks that the user has moved. Instants
-- are microseconds; what the time zone and the calendar say of an instant is given by the problem.
pub mod Valid
use relay.Prelude.{
  ℕ, ◌+◌, ◌-◌, ◌*◌, ◌/◌, Bool, true, false, not, ◌&&◌, ◌||◌, Option, none, some, List, [], ◌∷◌,
  String, any, ltb, leb, ◌==◌, str_eq, if◌then◌else◌,
}
use relay.Scheduling.Slots.{minute, overlaps, FreeWindow, BusyInterval}
use relay.Scheduling.Problem.{
  AcademicTask, StudySession, duration_minutes, LocalTime, SchedulingPreference, SchedulingProblem,
}

-- The messages of the reports that are not valid.
pub data Violation : Type 0 where
  unknown_task duplicate_block past_deadline too_long outside_window outside_hours : Violation
  overlaps_busy over_estimate overlapping too_close : Violation

-- `{task.id: task for task in problem.tasks}.get(id)`: of equal ids the last counts.
unfoldable pub task_of : String → List AcademicTask → Option AcademicTask
task_of id [] = none
task_of id (t ∷ ts) = elim (task_of id ts) [
  | some u ↦ some u
  | none ↦ if str_eq t.id id then some t else none
]

abbrev pub is_seen : Option String → List String → Bool
is_seen none seen = false
is_seen (some id) seen = any (str_eq id) seen

abbrev pub see : Option String → List String → List String
see none seen = seen
see (some id) seen = id ∷ seen

abbrev pub in_window : StudySession → FreeWindow → Bool
in_window s w = leb w.start s.start && leb s.finish w.finish

abbrev pub session_overlaps_busy : StudySession → BusyInterval → Bool
session_overlaps_busy s b = overlaps s.start s.finish b.start b.finish

abbrev pub outside_local_hours : SchedulingProblem → StudySession → Bool
outside_local_hours p s =
    not (p.preferences.zone.date s.start == p.preferences.zone.date s.finish)
    || ltb (p.preferences.zone.time_of_day s.start) p.preferences.earliest_study_time
    || ltb p.preferences.latest_study_time (p.preferences.zone.time_of_day s.finish)
    || (not p.preferences.weekend_available && leb 5 (p.preferences.zone.weekday s.start))

-- The body of the loop over the sessions.
unfoldable pub check_session :
    SchedulingProblem → List String → StudySession → Option AcademicTask → Option Violation
check_session p seen s none = some unknown_task
check_session p seen s (some task) =
    if is_seen s.id seen
    then some duplicate_block
    else if ltb task.deadline s.finish
    then some past_deadline
    else if ltb p.preferences.maximum_session_minutes (duration_minutes s)
    then some too_long
    else if not (any (in_window s) p.availability_windows)
    then some outside_window
    else if outside_local_hours p s
    then some outside_hours
    else if any (session_overlaps_busy s) p.busy_intervals
    then some overlaps_busy
    else none

unfoldable pub check_sessions :
    SchedulingProblem → List String → List StudySession → Option Violation
unfolding check_session task_of
check_sessions p seen [] = none
check_sessions p seen (s ∷ rest) = elim (check_session p seen s (task_of s.task_id p.tasks)) [
  | some violation ↦ some violation
  | none ↦ check_sessions p (see s.id seen) rest
]

abbrev pub total_minutes : String → List StudySession → ℕ
total_minutes id [] = 0
total_minutes id (s ∷ rest) =
    let more = total_minutes id rest in
    if str_eq s.task_id id then duration_minutes s + more else more

abbrev pub exceeds : SchedulingProblem → List StudySession → StudySession → Bool
exceeds p sessions s = elim (task_of s.task_id p.tasks) [
  | none ↦ false
  | some task ↦ ltb task.estimated_minutes (total_minutes s.task_id sessions)
]

unfoldable pub insert_session : StudySession → List StudySession → List StudySession
insert_session s [] = s ∷ []
insert_session s (t ∷ ts) =
    let later = insert_session s ts in if ltb t.start s.start then t ∷ later else s ∷ t ∷ ts

-- `sorted(sessions, key=lambda item: item.start)`
unfoldable pub sort_sessions : List StudySession → List StudySession
unfolding insert_session
sort_sessions [] = []
sort_sessions (s ∷ rest) = insert_session s (sort_sessions rest)

-- The loop over the pairs of neighbours.
unfoldable pub check_gaps : ℕ → List StudySession → Option Violation
check_gaps pause [] = none
check_gaps pause (left ∷ []) = none
check_gaps pause (left ∷ right ∷ rest) =
    let more = check_gaps pause (right ∷ rest) in
    if ltb right.start left.finish
    then some overlapping
    else if ltb right.start (left.finish + pause)
    then some too_close
    else more

unfoldable pub validate_session_adjustments :
    SchedulingProblem → List StudySession → Option Violation
unfolding check_sessions sort_sessions check_gaps
validate_session_adjustments p sessions = elim (check_sessions p [] sessions) [
  | some violation ↦ some violation
  | none ↦
      if any (exceeds p sessions) sessions
      then some over_estimate
      else check_gaps (p.preferences.minimum_break_minutes * minute) (sort_sessions sessions)
]
