-- ===== src/Scheduling/Candidates/Placed.antt =====
-- Where the candidates of backend/app/scheduling/solver.py lie.
use relay.Prelude.{
  ℕ, zero, suc, ◌+◌, ◌*◌, max, ◌≤◌, ◌≡◌, refl, ◌&&◌, Option, some, List, [], ◌∷◌, ◌++◌, All,
  All-append, All-map, Bool-cases, inl, inr, leb, arith,
}
use relay.Prelude.Int.{ℤ, pos, negsuc, pos_part}
use relay.Scheduling.Sessions.{slot_minutes}
use relay.Scheduling.Sessions.Lengths.{Fits, decompose_minutes-total, decompose_minutes-Fits}
use relay.Scheduling.Slots.{minute, FreeWindow}
use relay.Scheduling.Slots.Rounding.{ceil_to_slot_bounds}
use relay.Scheduling.Slots.Free.{Inside}
use relay.Scheduling.Problem.{AcademicTask, SchedulingProblem, SchedulingWeights}
use relay.Scheduling.Overlap.{CandidateSlot}
use relay.Scheduling.Candidates.Due.{Due, Due-first, Due-later, sort_tasks-All}
use relay.Scheduling.Candidates.{
  Minutes, shift, starts_in, enough, first_start, candidate, candidates_at, candidates_in,
  candidates_of, sort_tasks, number, candidates_for, candidate_slots, remaining,
}

abbrev pub span : CandidateSlot → FreeWindow
span c = record { start = c.start; finish = c.finish }

-- What holds of each candidate, where `Q` holds of each free window.
pub record IsCandidate (Q : FreeWindow → Type 0) (p : SchedulingProblem) (c : CandidateSlot)
    : Type 0 where
  pub free : Q (span c)
  pub future : p.now ≤ c.start
  pub lasts : c.finish ≡ c.start + pos_part c.duration_minutes * minute
  pub fits : Fits p.preferences.maximum_session_minutes c.duration_minutes
  pub due : Due p.tasks c

starts_in-bounds :
    (fuel step : ℕ) (window : FreeWindow) (deadline : ℕ) (minutes : ℤ) (start : ℕ)
    → All
        (λ s. (start ≤ s) × (shift s minutes ≤ window.finish) × (shift s minutes ≤ deadline))
        (starts_in fuel step window deadline minutes start)
unfolding starts_in
starts_in-bounds zero step window deadline minutes start = tt
starts_in-bounds (suc fuel) step window deadline minutes start =
    elim (Bool-cases
      (leb (shift start minutes) window.finish && leb (shift start minutes) deadline)) [
        | inr past ↦ rw past tt
        | inl fits ↦
            let more = starts_in-bounds fuel step window deadline minutes (start + step) in
            let ends : (shift start minutes ≤ window.finish) × (shift start minutes ≤ deadline) =
              ground arith in
            rw fits (
              (omega arith, ends.0, ends.1),
              All-map (λ s h. (omega (arith, h.0), h.1, h.2)) _ more,
            )
      ]

shift-lasts :
    (start maximum : ℕ) (minutes : ℤ)
    → Fits maximum minutes
    → shift start minutes ≡ start + pos_part minutes * minute
shift-lasts start maximum (pos n) h = refl
shift-lasts start maximum (negsuc n) h = absurd (ground arith)

module _ (Q : FreeWindow → Type 0) (down : (w v : FreeWindow) → Inside w v → Q v → Q w)
    (p : SchedulingProblem) (weights : SchedulingWeights) (step_minutes : ℕ) where
  -- A task whose candidates are all due.
  abbrev HasDue : AcademicTask → Type 0
  HasDue task = (c : CandidateSlot) → c.task_id ≡ task.id → c.finish ≤ task.deadline → Due p.tasks c

  tasks-HasDue :
      (tasks : List AcademicTask)
      → ((c : CandidateSlot) → Due tasks c → Due p.tasks c)
      → All HasDue tasks
  tasks-HasDue [] into = tt
  tasks-HasDue (task ∷ tasks) into = (
    (λ c same ends. into c (Due-first task tasks c same ends)),
    tasks-HasDue tasks (λ c h. into c (Due-later task tasks c h)),
  )

  sorted_tasks-HasDue : All HasDue (sort_tasks p.tasks)
  sorted_tasks-HasDue = sort_tasks-All HasDue p.tasks (tasks-HasDue p.tasks (λ c h. h))

  module _ (task : AcademicTask) (is_due : HasDue task) (fragment_id : ℕ) (minutes : ℤ)
      (fits : Fits p.preferences.maximum_session_minutes minutes) where
    candidates_at-IsCandidate :
        (window : FreeWindow) (starts : List ℕ)
        → Q window
        → All
            (λ s.
              (first_start p weights step_minutes window ≤ s)
              × (shift s minutes ≤ window.finish)
              × (shift s minutes ≤ task.deadline))
            starts
        → All
            (IsCandidate Q p)
            (candidates_at p weights step_minutes task fragment_id minutes starts)
    candidates_at-IsCandidate window [] q h = tt
    candidates_at-IsCandidate window (s ∷ starts) q h =
        let c = candidate p weights step_minutes task fragment_id minutes s in
        let up = ceil_to_slot_bounds (max window.start p.now) in
        (
          record {
            free = down (span c) window (omega (arith, up.0, h.0.0), h.0.1) q;
            future = omega (arith, up.0, h.0.0);
            lasts = shift-lasts s p.preferences.maximum_session_minutes minutes fits;
            fits = fits;
            due = is_due c refl h.0.2;
          },
          candidates_at-IsCandidate window starts q h.1,
        )

    candidates_in-IsCandidate :
        (windows : List FreeWindow)
        → All Q windows
        → All
            (IsCandidate Q p)
            (candidates_in p weights step_minutes task fragment_id minutes windows)
    unfolding candidates_in
    candidates_in-IsCandidate [] q = tt
    candidates_in-IsCandidate (w ∷ windows) q =
        All-append (IsCandidate Q p) _ _
          (candidates_at-IsCandidate w _ q.0 (
            starts_in-bounds (enough w minutes) (step_minutes * minute) w task.deadline minutes
              (first_start p weights step_minutes w)))
          (candidates_in-IsCandidate windows q.1)

  candidates_of-IsCandidate :
      (task : AcademicTask)
      → HasDue task
      → (windows : List FreeWindow) → All Q windows
      → (fragment_id : ℕ) (chunks : List ℤ)
      → All (Fits p.preferences.maximum_session_minutes) chunks
      → All (IsCandidate Q p) (candidates_of p weights step_minutes task windows fragment_id chunks)
  unfolding candidates_of
  candidates_of-IsCandidate task is_due windows q fragment_id [] fits = tt
  candidates_of-IsCandidate task is_due windows q fragment_id (minutes ∷ chunks) fits =
      All-append (IsCandidate Q p) _ _
        (candidates_in-IsCandidate task is_due fragment_id minutes fits.0 windows q)
        (candidates_of-IsCandidate task is_due windows q (suc fragment_id) chunks fits.1)

  number-IsCandidate :
      (n : ℕ) (cs : List CandidateSlot)
      → All (IsCandidate Q p) cs
      → All (IsCandidate Q p) (number n cs)
  number-IsCandidate n [] h = tt
  number-IsCandidate n (c ∷ cs) h = (
    record {
      free = h.0.free;
      future = h.0.future;
      lasts = h.0.lasts;
      fits = h.0.fits;
      due = h.0.due;
    },
    number-IsCandidate (suc n) cs h.1,
  )

  -- The candidates of a list of tasks, all of them found and placed.
  record Offered (made : Option (List CandidateSlot)) : Type 0 where
    candidates : List CandidateSlot
    returned : made ≡ some candidates
    placed : All (IsCandidate Q p) candidates

  module _ (free : List FreeWindow) (locked : Minutes) (q : All Q free)
      (preferred : slot_minutes ≤ p.preferences.preferred_session_minutes)
      (maximum : slot_minutes ≤ p.preferences.maximum_session_minutes) where
    candidates_for-Offered :
        (tasks : List AcademicTask)
        → All HasDue tasks
        → Offered (candidates_for p weights free locked step_minutes tasks)
    unfolding candidates_for
    candidates_for-Offered [] is_due = record { candidates = []; returned = refl; placed = tt }
    candidates_for-Offered (task ∷ tasks) is_due =
        let (chunks, cut, whole) =
          decompose_minutes-total (remaining locked task) p.preferences.preferred_session_minutes
            p.preferences.maximum_session_minutes (omega (arith, preferred))
            (omega (arith, maximum)) in
        let fits =
          decompose_minutes-Fits (remaining locked task) p.preferences.preferred_session_minutes
            p.preferences.maximum_session_minutes {chunks = chunks} preferred maximum cut in
        let rest = candidates_for-Offered tasks is_due.1 in
        record {
          candidates = candidates_of p weights step_minutes task free 0 chunks ++ rest.candidates;
          returned = rw (cut, rest.returned) refl;
          placed =
              All-append (IsCandidate Q p) _ _
                (candidates_of-IsCandidate task is_due.0 free q 0 chunks fits) rest.placed;
        }

    pub candidate_slots-IsCandidate :
        (cs : List CandidateSlot) × (candidate_slots p weights free locked step_minutes ≡ some cs)
        × All (IsCandidate Q p) cs
    unfolding candidate_slots
    candidate_slots-IsCandidate =
        let offered = candidates_for-Offered (sort_tasks p.tasks) (sorted_tasks-HasDue) in
        (
          number 0 offered.candidates,
          rw (candidate_slots, offered.returned) refl,
          number-IsCandidate 0 offered.candidates offered.placed,
        )
