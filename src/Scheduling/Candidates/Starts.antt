-- ===== src/Scheduling/Candidates/Starts.antt =====
-- The loop over the starts in one window of backend/app/scheduling/solver.py leaves out none.
use relay.Prelude.{ℕ, zero, suc, ◌+◌, ◌*◌, ◌≤◌, ◌<◌, ◌≡◌, true, any, ◌==◌, arith}
use relay.Prelude.Int.{pos}
use relay.Scheduling.Slots.{minute, FreeWindow}
use relay.Scheduling.Candidates.{starts_in, enough}

at_most_times : (k step : ℕ) → 1 ≤ step → k ≤ k * step
at_most_times zero step h = omega arith
at_most_times (suc k) step h = let rest = at_most_times k step h in ground (arith, rest)

starts_in-has :
    (fuel k step : ℕ) (window : FreeWindow) (deadline minutes start : ℕ)
    → k < fuel
    → start + k * step + minutes * minute ≤ window.finish
    → start + k * step + minutes * minute ≤ deadline
    → any (λ s. s == start + k * step) (starts_in fuel step window deadline (pos minutes) start)
      ≡ true
unfolding starts_in
starts_in-has zero k step window deadline minutes start less h d = absurd (omega arith)
starts_in-has (suc fuel) zero step window deadline minutes start less h d = ground arith
starts_in-has (suc fuel) (suc k) step window deadline minutes start less h d =
    let later =
      starts_in-has fuel k step window deadline minutes (start + step) (omega arith) (ground arith)
        (ground arith) in
    let same : start + step + k * step ≡ start + suc k * step = ground arith in
    let there = rw same at later in ground (arith, there)

-- Where the step is not 0, every start at a whole number of steps from the first one at which the
-- minutes fit in the window and end by the deadline is found: the fuel is enough.
pub starts_in_complete :
    (k step : ℕ) (window : FreeWindow) (deadline minutes start : ℕ)
    → 1 ≤ step
    → start + k * step + minutes * minute ≤ window.finish
    → start + k * step + minutes * minute ≤ deadline
    → any
        (λ s. s == start + k * step)
        (starts_in (enough window (pos minutes)) step window deadline (pos minutes) start)
      ≡ true
starts_in_complete k step window deadline minutes start positive h d =
    let steps = at_most_times k step positive in
    starts_in-has (enough window (pos minutes)) k step window deadline minutes start (omega arith) h
      d
