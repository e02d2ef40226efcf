-- ===== src/Scheduling/Candidates.antt =====
-- `_locked_minutes_by_task`, `_slot_score` and `_candidate_slots` of backend/app/scheduling/solver.py.
-- A fragment has an integer length, as `decompose_minutes` may make it negative.
pub mod Due
pub mod Placed
pub mod Starts
use relay.Prelude.{
  ℕ, zero, suc, ◌+◌, ◌-◌, ◌*◌, ◌/◌, max, Bool, true, false, ◌&&◌, ◌||◌, Option, none, some, List,
  [], ◌∷◌, ◌++◌, String, ltb, leb, ◌==◌, str_eq, if◌then◌else◌,
}
use relay.Prelude.Int.{ℤ, pos, negsuc, sub_ℕ, neg_part, ◌+ℤ◌}
use relay.Prelude.Dict.{get_or, put}
use relay.Json.{codes, codes_before}
use relay.Scheduling.Sessions.{decompose_minutes}
use relay.Scheduling.Slots.{minute, FreeWindow, ceil_to_slot}
use relay.Scheduling.Problem.{
  AcademicTask, StudySession, duration_minutes, Period, SchedulingPreference, SchedulingProblem,
  SchedulingWeights,
}
use relay.Scheduling.Overlap.{CandidateSlot}

abbrev pub Minutes : Type 0
Minutes = List (String × ℕ)

-- `minutes[task_id] = minutes.get(task_id, 0) + more`
abbrev pub add_to : String → ℕ → Minutes → Minutes
add_to task_id more minutes = put str_eq task_id (get_or str_eq 0 task_id minutes + more) minutes

-- The loop of `_locked_minutes_by_task`, which `_result` repeats for the new sessions.
unfoldable pub add_sessions : Minutes → List StudySession → Minutes
add_sessions minutes [] = minutes
add_sessions minutes (s ∷ rest) = add_sessions (add_to s.task_id (duration_minutes s) minutes) rest

unfoldable pub locked_minutes_by_task : List StudySession → Minutes
unfolding add_sessions
locked_minutes_by_task locked = add_sessions [] locked

-- `max(0, task.estimated_minutes - minutes.get(task.id, 0))`
abbrev pub remaining : Minutes → AcademicTask → ℕ
remaining minutes task = task.estimated_minutes - get_or str_eq 0 task.id minutes

abbrev pub local_hour : SchedulingPreference → ℕ → ℕ
local_hour p start = p.zone.time_of_day start / (60 * minute)

abbrev pub in_period : Period → ℕ → Bool
in_period Period.morning hour = leb 7 hour && ltb hour 12
in_period Period.afternoon hour = leb 12 hour && ltb hour 17
in_period Period.evening hour = leb 17 hour && ltb hour 22
in_period Period.any_period hour = false

abbrev pub is_at_least : ℤ → ℕ → Bool
is_at_least (pos n) m = leb m n
is_at_least (negsuc n) m = false

-- `_slot_score`; a difference of instants is floored at 0, where the source takes the maximum.
unfoldable pub slot_score : AcademicTask → ℕ → ℤ → SchedulingPreference → SchedulingWeights → ℕ → ℤ
unfolding ◌+ℤ◌
slot_score task start minutes p weights anchor =
    let hours = max 1 ((task.deadline - anchor) / (60 * minute)) in
    let urgency = (168 - hours) * weights.deadline_urgency in
    let preferred =
      if in_period p.preferred_period (local_hour p start) then weights.preferred_period else 0 in
    let fragmentation =
      if is_at_least minutes p.preferred_session_minutes then weights.fragmentation else 0 in
    sub_ℕ (urgency + 6 * weights.priority + preferred + fragmentation)
      (task.priority * weights.priority + (start - anchor) / minute / 15 * weights.earliness)

-- `start + timedelta(minutes=minutes)`
abbrev pub shift : ℕ → ℤ → ℕ
shift start (pos n) = start + n * minute
shift start (negsuc n) = start - suc n * minute

-- The loop over the starts in one window, with fuel: it goes on while the fragment ends in the
-- window and by the deadline.
unfoldable pub starts_in : ℕ → ℕ → FreeWindow → ℕ → ℤ → ℕ → List ℕ
starts_in zero step window deadline minutes start = []
starts_in (suc fuel) step window deadline minutes start =
    let more = starts_in fuel step window deadline minutes (start + step) in
    if leb (shift start minutes) window.finish && leb (shift start minutes) deadline
    then start ∷ more
    else []

-- Every step is at least a microsecond: no start lies further than this from the first one.
abbrev pub enough : FreeWindow → ℤ → ℕ
enough window minutes = suc (window.finish + neg_part minutes * minute)

module _ (p : SchedulingProblem) (weights : SchedulingWeights) (step_minutes : ℕ) where
  -- `max(window.start, problem.now)`, rounded up.
  abbrev pub first_start : FreeWindow → ℕ
  first_start window = ceil_to_slot (max window.start p.now)

  abbrev pub candidate : AcademicTask → ℕ → ℤ → ℕ → CandidateSlot
  candidate task fragment_id minutes start = record {
    index = 0;
    task_id = task.id;
    start = start;
    finish = shift start minutes;
    fragment_id = fragment_id;
    duration_minutes = minutes;
    score = slot_score task start minutes p.preferences weights p.now;
  }

  abbrev pub candidates_at : AcademicTask → ℕ → ℤ → List ℕ → List CandidateSlot
  candidates_at task fragment_id minutes [] = []
  candidates_at task fragment_id minutes (start ∷ starts) =
      candidate task fragment_id minutes start ∷ candidates_at task fragment_id minutes starts

  unfoldable pub candidates_in : AcademicTask → ℕ → ℤ → List FreeWindow → List CandidateSlot
  unfolding starts_in slot_score
  candidates_in task fragment_id minutes [] = []
  candidates_in task fragment_id minutes (window ∷ windows) =
      candidates_at task fragment_id minutes (
        starts_in (enough window minutes) (step_minutes * minute) window task.deadline minutes
          (first_start window))
      ++ candidates_in task fragment_id minutes windows

  -- The fragments of a task, numbered.
  unfoldable pub candidates_of : AcademicTask → List FreeWindow → ℕ → List ℤ → List CandidateSlot
  unfolding candidates_in
  candidates_of task windows fragment_id [] = []
  candidates_of task windows fragment_id (minutes ∷ chunks) =
      candidates_in task fragment_id minutes windows
      ++ candidates_of task windows (suc fragment_id) chunks

  abbrev pub of_chunks :
      AcademicTask → List FreeWindow → Option (List ℤ) → Option (List CandidateSlot)
  of_chunks task windows none = none
  of_chunks task windows (some chunks) = some (candidates_of task windows 0 chunks)

abbrev pub append_both :
    Option (List CandidateSlot) → Option (List CandidateSlot) → Option (List CandidateSlot)
append_both none ys = none
append_both (some xs) none = none
append_both (some xs) (some ys) = some (xs ++ ys)

-- `key=lambda item: (item.deadline, item.priority, item.title)`
abbrev pub comes_before : AcademicTask → AcademicTask → Bool
comes_before a b =
    ltb a.deadline b.deadline
    || ((a.deadline == b.deadline)
        && (ltb a.priority b.priority
            || ((a.priority == b.priority) && codes_before (codes a.title) (codes b.title))))

unfoldable pub insert_task : AcademicTask → List AcademicTask → List AcademicTask
insert_task t [] = t ∷ []
insert_task t (u ∷ us) =
    let later = insert_task t us in if comes_before u t then u ∷ later else t ∷ u ∷ us

unfoldable pub sort_tasks : List AcademicTask → List AcademicTask
unfolding insert_task
sort_tasks [] = []
sort_tasks (t ∷ ts) = insert_task t (sort_tasks ts)

-- The position of a candidate in the list is its index.
abbrev pub number : ℕ → List CandidateSlot → List CandidateSlot
number n [] = []
number n (c ∷ cs) = record c { index = n } ∷ number (suc n) cs

module _ (p : SchedulingProblem) (weights : SchedulingWeights) (free : List FreeWindow)
    (locked : Minutes) (step_minutes : ℕ) where
  unfoldable pub candidates_for : List AcademicTask → Option (List CandidateSlot)
  unfolding candidates_of
  candidates_for [] = some []
  candidates_for (task ∷ tasks) =
      append_both
        (of_chunks p weights step_minutes task free (
          decompose_minutes (remaining locked task) p.preferences.preferred_session_minutes
            p.preferences.maximum_session_minutes))
        (candidates_for tasks)

  -- `_candidate_slots`; `none` where the cutting of a task does not end.
  unfoldable pub candidate_slots : Option (List CandidateSlot)
  unfolding candidates_for sort_tasks
  candidate_slots = elim (candidates_for (sort_tasks p.tasks)) [
    | none ↦ none
    | some cs ↦ some (number 0 cs)
  ]
