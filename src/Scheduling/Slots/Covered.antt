-- ===== src/Scheduling/Slots/Covered.antt =====
-- `_subtract_busy` of backend/app/scheduling/solver.py gives up no more than the busy time rounded
-- out to slots.
use relay.Prelude.{
  ℕ, ◌≡◌, refl, Bool, true, false, List, [], ◌∷◌, ◌++◌, keep, any, All, ltb, leb, ◌&&◌, ◌||◌, arith,
}
use relay.Scheduling.Slots.{
  FreeWindow, BusyInterval, cut_window, cut_windows, is_proper, subtract_busy, ceil_to_slot,
  floor_to_slot,
}
use relay.Scheduling.Slots.Rounding.{ceil_to_slot_bounds, floor_to_slot_bounds}

-- The instant `t` lies in one of the windows.
abbrev pub covers : ℕ → List FreeWindow → Bool
covers t ws = any (λ w. leb w.start t && ltb t w.finish) ws

-- `t` is outside the busy interval rounded out to slots.
abbrev pub Clear : ℕ → BusyInterval → Type 0
Clear t busy = (leb (floor_to_slot busy.start) t && ltb t (ceil_to_slot busy.finish)) ≡ false

covers-append :
    (t : ℕ) (xs ys : List FreeWindow) → covers t (xs ++ ys) ≡ (covers t xs || covers t ys)
covers-append t [] ys = refl
covers-append t (x ∷ xs) ys = ground (arith, covers-append t xs ys)

covers-keep : (t : ℕ) (ws : List FreeWindow) → covers t (keep is_proper ws) ≡ covers t ws
covers-keep t [] = refl
covers-keep t (w ∷ ws) = ground (arith, covers-keep t ws)

cut_window-covers :
    (t : ℕ) (busy : BusyInterval) (w : FreeWindow)
    → Clear t busy
    → covers t (w ∷ []) ≡ true
    → covers t (cut_window busy w) ≡ true
unfolding cut_window
cut_window-covers t busy w h k =
    ground (arith, floor_to_slot_bounds busy.start, ceil_to_slot_bounds busy.finish)

cut_windows-covers :
    (t : ℕ) (busy : BusyInterval) (ws : List FreeWindow)
    → Clear t busy
    → covers t ws ≡ true
    → covers t (cut_windows busy ws) ≡ true
unfolding cut_windows
cut_windows-covers t busy [] h k = k
cut_windows-covers t busy (w ∷ ws) h k = ground (
  arith,
  covers-append t (cut_window busy w) (cut_windows busy ws),
  cut_window-covers t busy w h,
  cut_windows-covers t busy ws h,
)

-- An instant of a given window that lies outside every busy interval, rounded out to slots, is
-- still in a window that is left.
pub subtract_busy-covers :
    (t : ℕ) (busys : List BusyInterval) (ws : List FreeWindow)
    → All (Clear t) busys
    → covers t ws ≡ true
    → covers t (subtract_busy ws busys) ≡ true
unfolding subtract_busy
subtract_busy-covers t [] ws h k = k
subtract_busy-covers t (busy ∷ rest) ws h k =
    subtract_busy-covers t rest (keep is_proper (cut_windows busy ws)) h.1
      (rw (covers-keep t (cut_windows busy ws)) (cut_windows-covers t busy ws h.0 k))
