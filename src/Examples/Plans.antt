-- ===== src/Examples/Plans.antt =====
-- Examples of the scheduler as a whole.
use relay.Prelude.{
  ℕ, ◌+◌, ◌*◌, ◌≡◌, Bool, true, false, not, ◌&&◌, some, [], ◌∷◌, all, All-map, all→All, any, keep,
  length, leb, ◌==◌, if◌then◌else◌, Bool-cases, inl, inr, arith,
}
use relay.Prelude.Int.{ℤ, pos, pos_part, neg_part, ◌+ℤ◌}
use relay.Scheduling.Slots.{minute}
use relay.Scheduling.Problem.{SchedulingProblem, Period, default_weights}
use relay.Scheduling.Candidates.{starts_in, enough}
use relay.Scheduling.Candidates.Starts.{starts_in_complete}
use relay.Scheduling.Penalties.{Penalty}
use relay.Scheduling.Solver.{Model, solver_feasible, solver_other, Solution, solve}
use relay.Scheduling.Solver.Report.{SchedulingResult}
use relay.Scheduling.Solver.Totals.{selected_sum}
use relay.Scheduling.Solver.Sound.{IsSound}
use relay.Scheduling.Solver.Schedule.{Plans, solve-Plans}

starts_in_complete_example :
    any
      (λ s. s == 2 * (15 * minute))
      (starts_in
        (enough (record { start = 0; finish = 90 * minute }) (pos 45))
        (15 * minute)
        (record { start = 0; finish = 90 * minute })
        (80 * minute)
        (pos 45)
        0)
    ≡ true
starts_in_complete_example =
    starts_in_complete 2 (15 * minute) (record { start = 0; finish = 90 * minute }) (80 * minute) 45
      0 (omega arith) (omega arith) (omega arith)

abbrev leb_ℤ : ℤ → ℤ → Bool
leb_ℤ a b = leb (pos_part a + neg_part b) (pos_part b + neg_part a)

abbrev is_payable : (ℕ → Bool) → Penalty → Bool
is_payable value penalty =
    leb_ℤ (pos penalty.offset +ℤ selected_sum value penalty.terms)
      (pos (penalty.target + penalty.maximum))

abbrev satisfies : Model → (ℕ → Bool) → Bool
satisfies m value =
    all (λ p. not (value p.0 && value p.1)) m.pairs
    && (all (λ group. leb (length (keep value group)) 1) m.groups
        && (all (λ bound. leb_ℤ (selected_sum value bound.0) (pos bound.1)) m.bounds
            && all (is_payable value) m.penalties))

-- A solver that offers the first candidate, where that is a solution.
abbrev first_only : ℕ → Bool
first_only i = i == 0

abbrev modest : Model → Solution
modest m =
    if satisfies m first_only
    then record { status = solver_feasible; value = first_only }
    else record { status = solver_other; value = first_only }

modest-IsSound : IsSound modest
modest-IsSound m solved = elim (Bool-cases (satisfies m first_only)) [
  | inr fails ↦ absurd (ground arith)
  | inl holds ↦ rw holds (record {
    pairs =
        All-map (λ p h. ground (arith, h)) m.pairs
          (all→All (λ p. not (first_only p.0 && first_only p.1)) m.pairs (ground arith));
    groups =
        All-map (λ g h. ground (arith, h)) m.groups
          (all→All (λ g. leb (length (keep first_only g)) 1) m.groups (ground arith));
    bounds =
        All-map (λ b h. ground (arith, h)) m.bounds
          (all→All (λ b. leb_ℤ (selected_sum first_only b.0) (pos b.1)) m.bounds (ground arith));
    penalties =
        All-map (λ q h. ground (arith, h)) m.penalties
          (all→All (is_payable first_only) m.penalties (ground arith));
  })
]

-- One task of an hour, a day of study from 9 to 17 o'clock.
abbrev problem : SchedulingProblem
problem = record {
  tasks =
      record {
        id = "t1";
        title = "Graphs";
        deadline = 1440 * minute;
        estimated_minutes = 60;
        priority = 1;
      }
      ∷ [];
  availability_windows = record { start = 0; finish = 720 * minute } ∷ [];
  busy_intervals = record { start = 600 * minute; finish = 630 * minute } ∷ [];
  preferences = record {
    zone = record {
      date = λ t. 0;
      time_of_day = λ t. t;
      weekday = λ t. 1;
      combine = λ day time. time;
    };
    earliest_study_time = 540 * minute;
    latest_study_time = 1020 * minute;
    preferred_session_minutes = 45;
    maximum_session_minutes = 60;
    minimum_break_minutes = 10;
    weekend_available = false;
    preferred_period = Period.morning;
  };
  locked_sessions = [];
  now = 0;
}

solve-Plans_example :
    (r : SchedulingResult) × (solve (λ id fragment start. id) modest problem default_weights
      ≡ some r)
    × Plans problem r
solve-Plans_example =
    solve-Plans (λ id fragment start. id) problem default_weights (omega arith) (omega arith) modest
      modest-IsSound
