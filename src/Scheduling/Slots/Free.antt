-- ===== src/Scheduling/Slots/Free.antt =====
-- `_subtract_busy` of backend/app/scheduling/solver.py leaves no busy time and adds none.
use relay.Prelude.{
  ◌≤◌, All-keep, All-both, All-every, keep-All, ◌≡◌, true, false, List, [], ◌∷◌, keep, any, All,
  All-append, All-map, leb, ◌&&◌, arith,
}
use relay.Scheduling.Slots.{
  FreeWindow, BusyInterval, overlaps, cut_window, cut_windows, is_proper, subtract_busy,
}
use relay.Scheduling.Slots.Rounding.{ceil_to_slot_bounds, floor_to_slot_bounds}

-- `w` lies in `v`.
abbrev pub Inside : FreeWindow → FreeWindow → Type 0
Inside w v = (v.start ≤ w.start) × (w.finish ≤ v.finish)

abbrev pub Avoids : BusyInterval → FreeWindow → Type 0
Avoids busy w = overlaps w.start w.finish busy.start busy.finish ≡ false

pub Avoids-Inside :
    (busy : BusyInterval) (w v : FreeWindow) → Inside w v → Avoids busy v → Avoids busy w
Avoids-Inside busy w v h k = ground arith

cut_window-Inside :
    (busy : BusyInterval) (w : FreeWindow) → All (λ v. Inside v w) (cut_window busy w)
unfolding cut_window
cut_window-Inside busy w =
    ground (arith, floor_to_slot_bounds busy.start, ceil_to_slot_bounds busy.finish)

-- What holds of a window and of all windows in it holds of what is cut from it.
cut_window-All :
    (P : FreeWindow → Type 0)
    → ((w v : FreeWindow) → Inside w v → P v → P w)
    → (busy : BusyInterval) (w : FreeWindow) → P w
    → All P (cut_window busy w)
cut_window-All P down busy w h =
    All-map (λ v contained. down v w contained h) (cut_window busy w) (cut_window-Inside busy w)

cut_window-Avoids : (busy : BusyInterval) (w : FreeWindow) → All (Avoids busy) (cut_window busy w)
unfolding cut_window
cut_window-Avoids busy w =
    ground (arith, floor_to_slot_bounds busy.start, ceil_to_slot_bounds busy.finish)

cut_windows-All :
    (P : FreeWindow → Type 0)
    → ((w v : FreeWindow) → Inside w v → P v → P w)
    → (busy : BusyInterval) (ws : List FreeWindow) → All P ws
    → All P (cut_windows busy ws)
unfolding cut_windows
cut_windows-All P down busy [] h = tt
cut_windows-All P down busy (w ∷ ws) h =
    All-append P (cut_window busy w) _ (cut_window-All P down busy w h.0)
      (cut_windows-All P down busy ws h.1)

cut_windows-Avoids :
    (busy : BusyInterval) (ws : List FreeWindow) → All (Avoids busy) (cut_windows busy ws)
unfolding cut_windows
cut_windows-Avoids busy [] = tt
cut_windows-Avoids busy (w ∷ ws) =
    All-append (Avoids busy) (cut_window busy w) _ (cut_window-Avoids busy w)
      (cut_windows-Avoids busy ws)

-- A statement that passes to smaller windows passes to what is left of the free time.
pub subtract_busy-All :
    (P : FreeWindow → Type 0)
    → ((w v : FreeWindow) → Inside w v → P v → P w)
    → (busys : List BusyInterval) (ws : List FreeWindow) → All P ws
    → All P (subtract_busy ws busys)
unfolding subtract_busy
subtract_busy-All P down [] ws h = h
subtract_busy-All P down (busy ∷ rest) ws h =
    subtract_busy-All P down rest (keep is_proper (cut_windows busy ws))
      (All-keep P is_proper (cut_windows busy ws) (cut_windows-All P down busy ws h))

pub subtract_busy-Avoids :
    (busys : List BusyInterval) (ws : List FreeWindow)
    → All (λ w. All (λ b. Avoids b w) busys) (subtract_busy ws busys)
unfolding subtract_busy
subtract_busy-Avoids [] ws = All-every _ (λ w. tt) ws
subtract_busy-Avoids (busy ∷ rest) ws =
    let left = keep is_proper (cut_windows busy ws) in
    All-both (Avoids busy) (λ w. All (λ b. Avoids b w) rest) (subtract_busy left rest)
      (subtract_busy-All (Avoids busy) (Avoids-Inside busy) rest left
        (All-keep (Avoids busy) is_proper (cut_windows busy ws) (cut_windows-Avoids busy ws)))
      (subtract_busy-Avoids rest left)

abbrev pub Proper : FreeWindow → Type 0
Proper w = is_proper w ≡ true

pub subtract_busy-Proper :
    (busys : List BusyInterval) (ws : List FreeWindow)
    → All Proper ws
    → All Proper (subtract_busy ws busys)
unfolding subtract_busy
subtract_busy-Proper [] ws h = h
subtract_busy-Proper (busy ∷ rest) ws h =
    subtract_busy-Proper rest _ (keep-All is_proper (cut_windows busy ws))

-- `w` lies in a window of `given`.
abbrev pub Within : List FreeWindow → FreeWindow → Type 0
Within given w = any (λ v. leb v.start w.start && leb w.finish v.finish) given ≡ true

pub Within-Inside :
    (given : List FreeWindow) (w v : FreeWindow) → Inside w v → Within given v → Within given w
Within-Inside [] w v h k = cc
Within-Inside (g ∷ given) w v h k = ground (arith, Within-Inside given w v h)

pub Within-cons :
    (g w : FreeWindow) (given : List FreeWindow) → Within given w → Within (g ∷ given) w
Within-cons g w given h = ground arith

Within-self : (given : List FreeWindow) → All (Within given) given
Within-self [] = tt
Within-self (g ∷ given) =
    (ground arith, All-map (λ w h. Within-cons g w given h) given (Within-self given))

-- Every window that is left is proper, lies in one of the given windows, and overlaps no busy
-- interval.
pub record IsFree (given : List FreeWindow) (busys : List BusyInterval) (w : FreeWindow)
    : Type 0 where
  pub proper_window : Proper w
  pub given_time : Within given w
  pub not_busy : All (λ b. Avoids b w) busys

All-IsFree :
    (given : List FreeWindow) (busys : List BusyInterval) (ws : List FreeWindow)
    → All Proper ws
    → All (Within given) ws
    → All (λ w. All (λ b. Avoids b w) busys) ws
    → All (IsFree given busys) ws
All-IsFree given busys [] p q r = tt
All-IsFree given busys (w ∷ ws) p q r = (
  record { proper_window = p.0; given_time = q.0; not_busy = r.0 },
  All-IsFree given busys ws p.1 q.1 r.1,
)

-- From proper windows, whatever the busy intervals, in any number and order, even empty or
-- reversed ones: each window that is left is proper, lies in a given window, and overlaps none of
-- the busy intervals.
pub subtract_busy-IsFree :
    (given : List FreeWindow) (busys : List BusyInterval)
    → All Proper given
    → All (IsFree given busys) (subtract_busy given busys)
subtract_busy-IsFree given busys h =
    All-IsFree given busys (subtract_busy given busys) (subtract_busy-Proper busys given h)
      (subtract_busy-All (Within given) (Within-Inside given) busys given (Within-self given))
      (subtract_busy-Avoids busys given)
