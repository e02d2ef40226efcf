-- ===== src/Scheduling/Windows.antt =====
-- `_clip_to_study_windows` and `_subtract_locked` of backend/app/scheduling/solver.py: the part of
-- the availability that lies in the daily study hours, less the locked sessions. Datetimes of one
-- zone are compared by their instants, as they are where the zone's offset does not change.
pub mod Hours
use relay.Prelude.{
  ℕ, zero, suc, ◌+◌, ◌-◌, min, max, Bool, true, false, ◌||◌, List, [], ◌∷◌, ◌++◌, map, keep, ltb,
  if◌then◌else◌,
}
use relay.Scheduling.Slots.{
  FreeWindow, BusyInterval, ceil_to_slot, floor_to_slot, is_proper, subtract_busy,
}
use relay.Scheduling.Problem.{LocalTime, SchedulingPreference, StudySession}

-- `preferences.weekend_available or cursor_day.weekday() < 5`
abbrev pub is_study_day : SchedulingPreference → ℕ → Bool
is_study_day p day = p.weekend_available || ltb (p.zone.weekday (p.zone.combine day 0)) 5

-- The body of the loop over the days of a window.
unfoldable pub clip_day : SchedulingPreference → FreeWindow → ℕ → List FreeWindow
clip_day p w day =
    let start = max w.start (p.zone.combine day p.earliest_study_time) in
    let finish = min w.finish (p.zone.combine day p.latest_study_time) in
    if is_study_day p day
    then (if ltb start finish
        then record { start = ceil_to_slot start; finish = floor_to_slot finish } ∷ []
        else [])
    else []

-- The days from `day` on, as many as `count`.
unfoldable pub clip_days : SchedulingPreference → FreeWindow → ℕ → ℕ → List FreeWindow
unfolding clip_day
clip_days p w zero day = []
clip_days p w (suc count) day = clip_day p w day ++ clip_days p w count (suc day)

-- `while cursor_day <= last_day`
abbrev pub days_of : SchedulingPreference → FreeWindow → ℕ
days_of p w = suc (p.zone.date w.finish) - p.zone.date w.start

unfoldable pub clip_windows : SchedulingPreference → List FreeWindow → List FreeWindow
unfolding clip_days
clip_windows p [] = []
clip_windows p (w ∷ ws) = clip_days p w (days_of p w) (p.zone.date w.start) ++ clip_windows p ws

unfoldable pub clip_to_study_windows : List FreeWindow → SchedulingPreference → List FreeWindow
unfolding clip_windows
clip_to_study_windows windows p = keep is_proper (clip_windows p windows)

abbrev pub busy_of : StudySession → BusyInterval
busy_of s = record { start = s.start; finish = s.finish }

unfoldable pub subtract_locked : List FreeWindow → List StudySession → List FreeWindow
subtract_locked windows locked = subtract_busy windows (map busy_of locked)
