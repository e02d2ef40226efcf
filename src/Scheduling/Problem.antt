-- ===== src/Scheduling/Problem.antt =====
-- The records of backend/app/scheduling/models.py and objectives.py. Instants are microseconds; what
-- the time zone and the calendar say of an instant is given by the problem.
use relay.Prelude.{ℕ, ◌-◌, ◌/◌, Bool, Option, List, String}
use relay.Scheduling.Slots.{minute, FreeWindow, BusyInterval}

pub record AcademicTask : Type 0 where
  pub id : String
  pub title : String
  pub deadline : ℕ
  pub estimated_minutes : ℕ
  pub priority : ℕ

pub record StudySession : Type 0 where
  pub id : Option String
  pub task_id : String
  pub start : ℕ
  pub finish : ℕ

-- `duration_minutes`
abbrev pub duration_minutes : StudySession → ℕ
duration_minutes s = (s.finish - s.start) / minute

-- `ZoneInfo` and `datetime`: the local day of an instant, its local time of day in microseconds, its
-- weekday, and the instant at a time of a local day.
pub record LocalTime : Type 0 where
  pub date : ℕ → ℕ
  pub time_of_day : ℕ → ℕ
  pub weekday : ℕ → ℕ
  pub combine : ℕ → ℕ → ℕ

pub data Period : Type 0 where
  morning afternoon evening any_period : Period

pub record SchedulingPreference : Type 0 where
  pub zone : LocalTime
  pub earliest_study_time : ℕ
  pub latest_study_time : ℕ
  pub preferred_session_minutes : ℕ
  pub maximum_session_minutes : ℕ
  pub minimum_break_minutes : ℕ
  pub weekend_available : Bool
  pub preferred_period : Period

pub record SchedulingProblem : Type 0 where
  pub tasks : List AcademicTask
  pub availability_windows : List FreeWindow
  pub busy_intervals : List BusyInterval
  pub preferences : SchedulingPreference
  pub locked_sessions : List StudySession
  pub now : ℕ

pub record SchedulingWeights : Type 0 where
  pub unscheduled_minute : ℕ
  pub deadline_urgency : ℕ
  pub priority : ℕ
  pub preferred_period : ℕ
  pub fragmentation : ℕ
  pub earliness : ℕ
  pub daily_balance : ℕ
  pub same_task_second_session : ℕ
  pub same_task_additional_session : ℕ

abbrev pub default_weights : SchedulingWeights
default_weights = record {
  unscheduled_minute = 1000;
  deadline_urgency = 40;
  priority = 30;
  preferred_period = 12;
  fragmentation = 8;
  earliness = 1;
  daily_balance = 8;
  same_task_second_session = 250;
  same_task_additional_session = 1500;
}
