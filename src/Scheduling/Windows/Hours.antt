-- ===== src/Scheduling/Windows/Hours.antt =====
-- Where the clipped windows of backend/app/scheduling/solver.py lie.
use relay.Prelude.{
  ℕ, zero, suc, min, max, ltb, ◌≤◌, ◌≡◌, true, List, [], ◌∷◌, All, All-append, All-map, All-keep,
  All-both, All-of_map, keep-All, map, Bool-cases, inl, inr, arith,
}
use relay.Scheduling.Slots.{FreeWindow, BusyInterval, is_proper, subtract_busy}
use relay.Scheduling.Slots.Rounding.{ceil_to_slot_bounds, floor_to_slot_bounds}
use relay.Scheduling.Slots.Free.{
  Inside, Avoids-Inside, Proper, Within, Within-Inside, Within-cons, Avoids, subtract_busy-All,
  subtract_busy-Proper, subtract_busy-Avoids,
}
use relay.Scheduling.Problem.{SchedulingPreference, StudySession}
use relay.Scheduling.Windows.{
  is_study_day, clip_day, clip_days, days_of, clip_windows, clip_to_study_windows, busy_of,
  subtract_locked,
}

-- On some study day, between the earliest and the latest study time.
pub record StudyTime (p : SchedulingPreference) (w : FreeWindow) : Type 0 where
  pub day : ℕ
  pub study_day : is_study_day p day ≡ true
  pub not_early : p.zone.combine day p.earliest_study_time ≤ w.start
  pub not_late : w.finish ≤ p.zone.combine day p.latest_study_time

StudyTime-Inside :
    (p : SchedulingPreference) (w v : FreeWindow) → Inside w v → StudyTime p v → StudyTime p w
StudyTime-Inside p w v h k = record {
  day = k.day;
  study_day = k.study_day;
  not_early = omega (arith, h.0, k.not_early);
  not_late = omega (arith, h.1, k.not_late);
}

Within-first : (v w : FreeWindow) (given : List FreeWindow) → Inside w v → Within (v ∷ given) w
Within-first v w given h = ground arith

abbrev Clipped : SchedulingPreference → FreeWindow → FreeWindow → Type 0
Clipped p v w = Inside w v × StudyTime p w

clip_day-Clipped :
    (p : SchedulingPreference) (w : FreeWindow) (day : ℕ) → All (Clipped p w) (clip_day p w day)
unfolding clip_day
clip_day-Clipped p w day = elim (Bool-cases (is_study_day p day)) [
  | inr rest_day ↦ rw rest_day tt
  | inl study_day ↦
      let start = max w.start (p.zone.combine day p.earliest_study_time) in
      let finish = min w.finish (p.zone.combine day p.latest_study_time) in
      let up = ceil_to_slot_bounds start in
      let down = floor_to_slot_bounds finish in
      rw study_day (elim (Bool-cases (ltb start finish)) [
        | inr short ↦ rw short tt
        | inl long ↦ rw long (
          (
            (omega (arith, up.0), omega (arith, down.0)),
            record {
              day = day;
              study_day = study_day;
              not_early = omega (arith, up.0);
              not_late = omega (arith, down.0);
            },
          ),
          tt,
        )
      ])
]

clip_days-Clipped :
    (p : SchedulingPreference) (w : FreeWindow) (count day : ℕ)
    → All (Clipped p w) (clip_days p w count day)
unfolding clip_days
clip_days-Clipped p w zero day = tt
clip_days-Clipped p w (suc count) day =
    All-append (Clipped p w) (clip_day p w day) _ (clip_day-Clipped p w day)
      (clip_days-Clipped p w count (suc day))

abbrev ClippedFrom : SchedulingPreference → List FreeWindow → FreeWindow → Type 0
ClippedFrom p given w = Within given w × StudyTime p w

clip_windows-ClippedFrom :
    (p : SchedulingPreference) (ws : List FreeWindow) → All (ClippedFrom p ws) (clip_windows p ws)
unfolding clip_windows
clip_windows-ClippedFrom p [] = tt
clip_windows-ClippedFrom p (w ∷ ws) =
    All-append (ClippedFrom p (w ∷ ws)) (clip_days p w (days_of p w) (p.zone.date w.start)) _
      (All-map (λ v (k : Clipped p w v). (Within-first w v ws k.0, k.1)) _
        (clip_days-Clipped p w (days_of p w) (p.zone.date w.start)))
      (All-map (λ v k. (Within-cons w v ws k.0, k.1)) _ (clip_windows-ClippedFrom p ws))

-- A window in which candidates may lie.
pub record IsFreeTime (p : SchedulingPreference) (given : List FreeWindow)
    (busys : List BusyInterval) (locked : List StudySession) (w : FreeWindow) : Type 0 where
  pub given_time : Within given w
  pub study_time : StudyTime p w
  pub not_busy : All (λ b. Avoids b w) busys
  pub not_locked : All (λ s. Avoids (busy_of s) w) locked

pub clip_to_study_windows-ClippedFrom :
    (p : SchedulingPreference) (given : List FreeWindow)
    → All (λ w. Proper w × ClippedFrom p given w) (clip_to_study_windows given p)
unfolding clip_to_study_windows
clip_to_study_windows-ClippedFrom p given =
    All-both Proper (ClippedFrom p given) _ (keep-All is_proper (clip_windows p given))
      (All-keep (ClippedFrom p given) is_proper _ (clip_windows-ClippedFrom p given))

pub IsFreeTime-Inside :
    (p : SchedulingPreference) (given : List FreeWindow) (busys : List BusyInterval)
    (locked : List StudySession) (w v : FreeWindow)
    → Inside w v
    → IsFreeTime p given busys locked v
    → IsFreeTime p given busys locked w
IsFreeTime-Inside p given busys locked w v h k = record {
  given_time = Within-Inside given w v h k.given_time;
  study_time = StudyTime-Inside p w v h k.study_time;
  not_busy = All-map (λ b. Avoids-Inside b w v h) busys k.not_busy;
  not_locked = All-map (λ s. Avoids-Inside (busy_of s) w v h) locked k.not_locked;
}

ClippedFrom-Inside :
    (p : SchedulingPreference) (given : List FreeWindow) (w v : FreeWindow)
    → Inside w v
    → ClippedFrom p given v
    → ClippedFrom p given w
ClippedFrom-Inside p given w v h k = (Within-Inside given w v h k.0, StudyTime-Inside p w v h k.1)

abbrev AvoidsAll : List BusyInterval → FreeWindow → Type 0
AvoidsAll busys w = All (λ b. Avoids b w) busys

both-Inside :
    (p : SchedulingPreference) (given : List FreeWindow) (busys : List BusyInterval)
    (w v : FreeWindow)
    → Inside w v
    → ClippedFrom p given v × AvoidsAll busys v
    → ClippedFrom p given w × AvoidsAll busys w
both-Inside p given busys w v h k =
    (ClippedFrom-Inside p given w v h k.0, All-map (λ b. Avoids-Inside b w v h) busys k.1)

-- The study windows less the busy and the locked time.
pub subtract_both-IsFreeTime :
    (p : SchedulingPreference) (given : List FreeWindow) (busys : List BusyInterval)
    (locked : List StudySession)
    → All
        (λ w. Proper w × IsFreeTime p given busys locked w)
        (subtract_locked (subtract_busy (clip_to_study_windows given p) busys) locked)
unfolding subtract_locked
subtract_both-IsFreeTime p given busys locked =
    let clipped = clip_to_study_windows-ClippedFrom p given in
    let Held : FreeWindow → Type 0 = ClippedFrom p given in
    let proper = subtract_busy-Proper busys _ (All-map (λ w h. h.0) _ clipped) in
    let held =
      subtract_busy-All Held (ClippedFrom-Inside p given) busys _
        (All-map (λ w h. h.1) _ clipped) in
    let quiet = subtract_busy-Avoids busys (clip_to_study_windows given p) in
    let both = All-both Held (AvoidsAll busys) _ held quiet in
    let cut = map busy_of locked in
    let proper2 = subtract_busy-Proper cut _ proper in
    let held2 =
      subtract_busy-All (λ w. Held w × AvoidsAll busys w) (both-Inside p given busys) cut _ both in
    let quiet2 = subtract_busy-Avoids cut (subtract_busy (clip_to_study_windows given p) busys) in
    All-map
      (λ w h. (
        h.0,
        record {
          given_time = h.1.0.0.0;
          study_time = h.1.0.0.1;
          not_busy = h.1.0.1;
          not_locked = All-of_map (λ b. Avoids b w) busy_of locked h.1.1;
        },
      ))
      _
      (All-both Proper _ _ proper2
        (All-both (λ w. Held w × AvoidsAll busys w) (AvoidsAll cut) _ held2 quiet2))
