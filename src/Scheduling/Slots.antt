-- ===== src/Scheduling/Slots.antt =====
-- The free time of a planning window: `_ceil_to_slot`, `_floor_to_slot`, `_subtract_busy` and
-- `_subtract_locked` of backend/app/scheduling/solver.py, `overlaps` of constraints.py. An instant
-- is a number of microseconds on a clock whose hours agree with the datetime's own zone up to a
-- multiple of a slot, as those of all present time zones do.
pub mod Rounding
pub mod Free
pub mod Covered
use relay.Prelude.{
  ℕ, suc, ◌+◌, ◌-◌, ◌*◌, ◌/◌, ◌%◌, min, max, Bool, true, false, ◌&&◌, List, [], ◌∷◌, ◌++◌, map,
  keep, ltb, ◌==◌, if◌then◌else◌,
}
use relay.Scheduling.Sessions.{slot_minutes}

abbrev pub minute : ℕ
minute = 60000000

-- `moment.minute % SLOT_MINUTES`
abbrev pub past_slot : ℕ → ℕ
past_slot moment = moment / minute % 60 % slot_minutes

-- `moment.replace(second=0, microsecond=0)`
abbrev pub whole_minute : ℕ → ℕ
whole_minute moment = moment - moment % minute

unfoldable pub ceil_to_slot : ℕ → ℕ
ceil_to_slot moment =
    if (past_slot moment == 0) && (moment % minute == 0)
    then whole_minute moment
    else whole_minute (moment + (slot_minutes - past_slot moment) * minute)

unfoldable pub floor_to_slot : ℕ → ℕ
floor_to_slot moment = whole_minute (moment - past_slot moment * minute)

pub record FreeWindow : Type 0 where
  pub start : ℕ
  pub finish : ℕ

-- `BusyInterval` of backend/app/scheduling/models.py
pub record BusyInterval : Type 0 where
  pub start : ℕ
  pub finish : ℕ

-- `overlaps` of constraints.py
abbrev pub overlaps : ℕ → ℕ → ℕ → ℕ → Bool
overlaps start finish other_start other_finish = ltb start other_finish && ltb other_start finish

abbrev pub before_busy : BusyInterval → FreeWindow → List FreeWindow
before_busy busy w =
    if ltb w.start busy.start
    then record { start = w.start; finish = min w.finish (floor_to_slot busy.start) } ∷ []
    else []

abbrev pub after_busy : BusyInterval → FreeWindow → List FreeWindow
after_busy busy w =
    if ltb busy.finish w.finish
    then record { start = max w.start (ceil_to_slot busy.finish); finish = w.finish } ∷ []
    else []

-- What is left of a window next to one busy interval: the body of the inner loop.
unfoldable pub cut_window : BusyInterval → FreeWindow → List FreeWindow
cut_window busy w =
    if overlaps w.start w.finish busy.start busy.finish
    then before_busy busy w ++ after_busy busy w
    else w ∷ []

unfoldable pub cut_windows : BusyInterval → List FreeWindow → List FreeWindow
cut_windows busy [] = []
cut_windows busy (w ∷ ws) = cut_window busy w ++ cut_windows busy ws

abbrev pub is_proper : FreeWindow → Bool
is_proper w = ltb w.start w.finish

unfoldable pub subtract_busy : List FreeWindow → List BusyInterval → List FreeWindow
unfolding cut_windows cut_window
subtract_busy free [] = free
subtract_busy free (busy ∷ rest) = subtract_busy (keep is_proper (cut_windows busy free)) rest
