-- ===== src/Scheduling/Constraints/Valid.antt =====
-- What a valid report of backend/app/scheduling/constraints.py guarantees.
use relay.Prelude.{
  ℕ, ◌+◌, ◌≤◌, ◌<◌, ◌≡◌, ltb, true, false, some, List, [], ◌∷◌, any, All, Bool-cases, inl, inr,
}
use relay.Scheduling.Problem.{AcademicTask, StudySession, SchedulingProblem, duration_minutes}
use relay.Scheduling.Constraints.{
  task_of, in_window, session_overlaps_busy, outside_local_hours, insert_session, sort_sessions,
}

-- The session belongs to a task of the problem, ends before its deadline, is not too long, lies in
-- a window and in the local hours, and meets no busy interval.
pub record IsPlaced (p : SchedulingProblem) (s : StudySession) : Type 0 where
  pub task : AcademicTask
  pub known : task_of s.task_id p.tasks ≡ some task
  pub in_time : s.finish ≤ task.deadline
  pub short : duration_minutes s ≤ p.preferences.maximum_session_minutes
  pub inside : any (in_window s) p.availability_windows ≡ true
  pub in_hours : outside_local_hours p s ≡ false
  pub clear : All (λ b. session_overlaps_busy s b ≡ false) p.busy_intervals

-- Each session ends at least a break before every later one starts.
abbrev pub AreSpaced : ℕ → List StudySession → Type 0
AreSpaced pause [] = Unit
AreSpaced pause (s ∷ rest) = All (λ t. s.finish + pause ≤ t.start) rest × AreSpaced pause rest

abbrev pub Lasts : StudySession → Type 0
Lasts s = s.start < s.finish

insert_session-All :
    (P : StudySession → Type 0) (s : StudySession) (rest : List StudySession)
    → P s
    → All P rest
    → All P (insert_session s rest)
unfolding insert_session
insert_session-All P s [] h k = (h, tt)
insert_session-All P s (t ∷ ts) h k = elim (Bool-cases (ltb t.start s.start)) [
  | inl later ↦ rw later (k.0, insert_session-All P s ts h k.1)
  | inr here ↦ rw here (h, k)
]

pub sort_sessions-All :
    (P : StudySession → Type 0) (sessions : List StudySession)
    → All P sessions
    → All P (sort_sessions sessions)
unfolding sort_sessions
sort_sessions-All P [] h = tt
sort_sessions-All P (s ∷ rest) h =
    insert_session-All P s (sort_sessions rest) h.0 (sort_sessions-All P rest h.1)
