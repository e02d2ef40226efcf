-- ===== src/Scheduling/Solver/Totals.antt =====
-- The minutes of each task in the answer of backend/app/scheduling/solver.py.
use relay.Prelude.{
  ℕ, ◌+◌, ◌*◌, ◌≡◌, refl, Bool, List, [], ◌∷◌, map, keep, All, String, if◌then◌else◌, Bool-cases,
  inl, inr, arith,
}
use relay.Prelude.Int.{ℤ, pos, negsuc, pos_part, ◌+ℤ◌, ◌≤ℤ◌, pos-+ℤ-pos}
use relay.Scheduling.Slots.{minute}
use relay.Scheduling.Problem.{AcademicTask, StudySession, duration_minutes}
use relay.Scheduling.Overlap.{CandidateSlot}
use relay.Scheduling.Candidates.{Minutes, remaining}
use relay.Scheduling.Constraints.{insert_session, sort_sessions, total_minutes}
use relay.Scheduling.Penalties.{Terms, minutes_of}
use relay.Scheduling.Solver.{bound_own, requirements, of_task, to_session}

-- `sum(selected[i] * weight for i, weight in terms)` in an answer.
unfoldable pub selected_sum : (ℕ → Bool) → Terms → ℤ
selected_sum value [] = pos 0
selected_sum value (term ∷ terms) =
    let more = selected_sum value terms in if value term.0 then term.1 +ℤ more else more

abbrev pub Bounded : (ℕ → Bool) → Terms × ℕ → Type 0
Bounded value bound = selected_sum value bound.0 ≤ℤ pos bound.1

none_selected : (value : ℕ → Bool) (n : ℕ) → Bounded value ([], n)
unfolding selected_sum
none_selected value n = omega arith

bound_own-Bounded :
    (value : ℕ → Bool) (requirement : ℕ) (own : List CandidateSlot) (more : List (Terms × ℕ))
    → All (Bounded value) (bound_own requirement own more)
    → Bounded value (map minutes_of own, requirement) × All (Bounded value) more
bound_own-Bounded value requirement [] more h = (none_selected value requirement, h)
bound_own-Bounded value requirement (c ∷ cs) more h = h

pub requirements-Bounded :
    (value : ℕ → Bool) (locked : Minutes) (cs : List CandidateSlot) (tasks : List AcademicTask)
    → All (Bounded value) (requirements locked cs tasks)
    → All
        (λ task. Bounded value (map minutes_of (keep (of_task task.id) cs), remaining locked task))
        tasks
unfolding requirements
requirements-Bounded value locked cs [] h = tt
requirements-Bounded value locked cs (task ∷ tasks) h =
    let both =
      bound_own-Bounded value (remaining locked task) (keep (of_task task.id) cs)
        (requirements locked cs tasks) h in
    (both.0, requirements-Bounded value locked cs tasks both.1)

insert_session-total_minutes :
    (id : String) (s : StudySession) (rest : List StudySession)
    → total_minutes id (insert_session s rest) ≡ total_minutes id (s ∷ rest)
unfolding insert_session
insert_session-total_minutes id s [] = refl
insert_session-total_minutes id s (t ∷ ts) = ground (arith, insert_session-total_minutes id s ts)

pub sort_sessions-total_minutes :
    (id : String) (sessions : List StudySession)
    → total_minutes id (sort_sessions sessions) ≡ total_minutes id sessions
unfolding sort_sessions
sort_sessions-total_minutes id [] = refl
sort_sessions-total_minutes id (s ∷ rest) = ground (
  arith,
  insert_session-total_minutes id s (sort_sessions rest),
  sort_sessions-total_minutes id rest,
)

positive : (z : ℤ) → pos 1 ≤ℤ z → z ≡ pos (pos_part z)
positive (pos n) h = refl
positive (negsuc n) h = absurd (omega arith)

-- A candidate of a whole positive number of minutes.
abbrev pub IsWhole : CandidateSlot → Type 0
IsWhole c =
    (c.finish ≡ c.start + pos_part c.duration_minutes * minute) × (pos 1 ≤ℤ c.duration_minutes)

module _ (session_id : String → ℕ → ℕ → String) where
  pub whole_minutes :
      (c : CandidateSlot)
      → IsWhole c
      → (duration_minutes (to_session session_id c) ≡ pos_part c.duration_minutes)
        × (c.duration_minutes ≡ pos (pos_part c.duration_minutes))
  whole_minutes c h = (omega (arith, h.0), positive c.duration_minutes h.1)

module _ (session_id : String → ℕ → ℕ → String) (value : ℕ → Bool) (id : String) where
  pub selected_sum-total_minutes :
      (cs : List CandidateSlot)
      → All IsWhole cs
      → selected_sum value (map minutes_of (keep (of_task id) cs))
        ≡ pos (total_minutes id (map (to_session session_id) (keep (λ c. value c.index) cs)))
  unfolding selected_sum
  selected_sum-total_minutes [] h = refl
  selected_sum-total_minutes (c ∷ cs) h =
      let rest = selected_sum-total_minutes cs h.1 in
      let here = whole_minutes session_id c h.0 in
      elim (Bool-cases (value c.index)) [
        | inr off ↦ elim (Bool-cases (of_task id c)) [
          | inl own ↦ rw (off, own, off) rest
          | inr other ↦ rw (off, other) rest
        ]
        | inl on ↦ elim (Bool-cases (of_task id c)) [
          | inl own ↦
              rw (on, own, on, here.0, here.1, rest) (pos-+ℤ-pos (pos_part c.duration_minutes) _)
          | inr other ↦ rw (on, other) rest
        ]
      ]
