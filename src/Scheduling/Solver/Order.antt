-- ===== src/Scheduling/Solver/Order.antt =====
-- The order of the new sessions of backend/app/scheduling/solver.py, and their minutes.
use relay.Prelude.{
  ℕ, ◌+◌, ◌≤◌, ◌≡◌, refl, sym, ◌∙◌, ap, Bool, List, [], ◌∷◌, map, keep, All, All-map, All-keep, ltb,
  String, if◌then◌else◌, Bool-cases, inl, inr, arith,
}
use relay.Scheduling.Problem.{StudySession}
use relay.Scheduling.Overlap.{CandidateSlot, insert_by_start, sort_by_start}
use relay.Scheduling.Overlap.Sweep.{IsSorted, sort_by_start-IsSorted}
use relay.Scheduling.Overlap.Selection.{Spaced}
use relay.Scheduling.Constraints.{insert_session, sort_sessions}
use relay.Scheduling.Constraints.Valid.{AreSpaced}
use relay.Scheduling.Solver.{to_session}

insert_by_start_first :
    (c : CandidateSlot) (cs : List CandidateSlot)
    → All (λ d. c.start ≤ d.start) cs
    → insert_by_start c cs ≡ c ∷ cs
unfolding insert_by_start
insert_by_start_first c [] h = refl
insert_by_start_first c (d ∷ ds) h = ground (arith, h.0)

keep-insert_by_start :
    (test : CandidateSlot → Bool) (c : CandidateSlot) (cs : List CandidateSlot)
    → IsSorted cs
    → keep test (insert_by_start c cs)
      ≡ (if test c then insert_by_start c (keep test cs) else keep test cs)
unfolding insert_by_start
keep-insert_by_start test c [] h = ground arith
keep-insert_by_start test c (d ∷ ds) h = elim (Bool-cases (ltb d.start c.start)) [
  | inl later ↦ let rest = keep-insert_by_start test c ds h.1 in ground (arith, rest)
  | inr here ↦
      let le : c.start ≤ d.start = ground arith in
      let after : All (λ e. c.start ≤ e.start) (keep test ds) =
        All-keep (λ e. c.start ≤ e.start) test ds
          (All-map (λ e (k : d.start ≤ e.start). omega (arith, le, k)) ds h.0) in
      let first = insert_by_start_first c (keep test ds) after in ground (arith, first)
]

keep-sort_by_start :
    (test : CandidateSlot → Bool) (cs : List CandidateSlot)
    → keep test (sort_by_start cs) ≡ sort_by_start (keep test cs)
unfolding sort_by_start
keep-sort_by_start test [] = refl
keep-sort_by_start test (c ∷ cs) =
    let step = keep-insert_by_start test c (sort_by_start cs) (sort_by_start-IsSorted cs) in
    let rest = keep-sort_by_start test cs in
    elim (Bool-cases (test c)) [
      | inl on ↦ rw (step, on, rest) refl
      | inr off ↦ rw (step, off, rest) refl
    ]

module _ (session_id : String → ℕ → ℕ → String) where
  abbrev sessions_of : List CandidateSlot → List StudySession
  sessions_of cs = map (to_session session_id) cs

  insert_session-map :
      (c : CandidateSlot) (cs : List CandidateSlot)
      → insert_session (to_session session_id c) (sessions_of cs)
        ≡ sessions_of (insert_by_start c cs)
  unfolding insert_session insert_by_start
  insert_session-map c [] = refl
  insert_session-map c (d ∷ ds) = elim (Bool-cases (ltb d.start c.start)) [
    | inl later ↦ rw (later, insert_session-map c ds) refl
    | inr here ↦ rw here refl
  ]

  pub sort_sessions-map :
      (cs : List CandidateSlot) → sort_sessions (sessions_of cs) ≡ sessions_of (sort_by_start cs)
  unfolding sort_sessions sort_by_start
  sort_sessions-map [] = refl
  sort_sessions-map (c ∷ cs) = rw (sort_sessions-map cs) (insert_session-map c (sort_by_start cs))

  pub map-All :
      (P : StudySession → Type 0) (cs : List CandidateSlot)
      → All (λ c. P (to_session session_id c)) cs
      → All P (sessions_of cs)
  map-All P [] h = tt
  map-All P (c ∷ cs) h = (h.0, map-All P cs h.1)

  pub map-AreSpaced :
      (pause : ℕ) (cs : List CandidateSlot) → Spaced pause cs → AreSpaced pause (sessions_of cs)
  map-AreSpaced pause [] h = tt
  map-AreSpaced pause (c ∷ cs) h =
      (map-All (λ t. c.finish + pause ≤ t.start) cs h.0, map-AreSpaced pause cs h.1)

  -- The new sessions are those of the selected candidates in the order of their starts.
  pub sort_sessions-keep :
      (test : CandidateSlot → Bool) (cs : List CandidateSlot)
      → sort_sessions (sessions_of (keep test cs)) ≡ sessions_of (keep test (sort_by_start cs))
  sort_sessions-keep test cs =
      sort_sessions-map (keep test cs) ∙ ap sessions_of (sym (keep-sort_by_start test cs))
