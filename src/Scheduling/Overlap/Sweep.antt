-- ===== src/Scheduling/Overlap/Sweep.antt =====
-- The early exit of the sweep in backend/app/scheduling/solver.py loses no constraint.
use relay.Prelude.{
  ℕ, ◌+◌, ◌*◌, ◌≤◌, ◌≡◌, refl, List, [], ◌∷◌, ◌++◌, All, All-map, ltb, leb, Bool-cases, inl, inr,
  leb→le, arith, if◌then◌else◌,
}
use relay.Scheduling.Slots.{minute}
use relay.Scheduling.Overlap.{
  CandidateSlot, insert_by_start, sort_by_start, conflicts, sweep_right, sweep, overlap_constraints,
}

-- The comparison of every candidate with every later one, with no exit.
abbrev pub pairs_right : ℕ → CandidateSlot → List CandidateSlot → List (ℕ × ℕ)
pairs_right pause left [] = []
pairs_right pause left (right ∷ rest) =
    let more = pairs_right pause left rest in
    if conflicts pause left right then (left.index, right.index) ∷ more else more

abbrev pub all_pairs : ℕ → List CandidateSlot → List (ℕ × ℕ)
all_pairs pause [] = []
all_pairs pause (left ∷ rest) = pairs_right pause left rest ++ all_pairs pause rest

abbrev pub IsSorted : List CandidateSlot → Type 0
IsSorted [] = Unit
IsSorted (c ∷ cs) = All (λ d. c.start ≤ d.start) cs × IsSorted cs

pub insert_by_start-All :
    (P : CandidateSlot → Type 0) (c : CandidateSlot) (cs : List CandidateSlot)
    → P c
    → All P cs
    → All P (insert_by_start c cs)
unfolding insert_by_start
insert_by_start-All P c [] h k = (h, tt)
insert_by_start-All P c (d ∷ ds) h k = elim (Bool-cases (ltb d.start c.start)) [
  | inl later ↦ rw later (k.0, insert_by_start-All P c ds h k.1)
  | inr here ↦ rw here (h, k)
]

insert_by_start-IsSorted :
    (c : CandidateSlot) (cs : List CandidateSlot) → IsSorted cs → IsSorted (insert_by_start c cs)
unfolding insert_by_start
insert_by_start-IsSorted c [] h = (tt, tt)
insert_by_start-IsSorted c (d ∷ ds) h = elim (Bool-cases (ltb d.start c.start)) [
  | inl later ↦ rw later (
    insert_by_start-All (λ e. d.start ≤ e.start) c ds (ground arith) h.0,
    insert_by_start-IsSorted c ds h.1,
  )
  | inr here ↦
      let le : c.start ≤ d.start = ground arith in
      rw here ((le, All-map (λ e above. omega (arith, le)) ds h.0), h)
]

pub sort_by_start-IsSorted : (cs : List CandidateSlot) → IsSorted (sort_by_start cs)
unfolding sort_by_start
sort_by_start-IsSorted [] = tt
sort_by_start-IsSorted (c ∷ cs) =
    insert_by_start-IsSorted c (sort_by_start cs) (sort_by_start-IsSorted cs)

-- Past the break nothing conflicts.
pairs_right-past :
    (pause : ℕ) (left : CandidateSlot) (rest : List CandidateSlot)
    → All (λ r. left.finish + pause ≤ r.start) rest
    → pairs_right pause left rest ≡ []
pairs_right-past pause left [] h = refl
pairs_right-past pause left (r ∷ rest) h = ground (arith, pairs_right-past pause left rest h.1)

sweep_right-eq-pairs_right :
    (pause : ℕ) (left : CandidateSlot) (rest : List CandidateSlot)
    → IsSorted rest
    → sweep_right pause left rest ≡ pairs_right pause left rest
unfolding sweep_right
sweep_right-eq-pairs_right pause left [] h = refl
sweep_right-eq-pairs_right pause left (r ∷ rest) h =
    elim (Bool-cases (leb (left.finish + pause) r.start)) [
      | inl past ↦
          let le = leb→le (left.finish + pause) r.start past in
          rw
            (
              past,
              pairs_right-past pause left (r ∷ rest)
                  (le, All-map (λ d above. omega (arith, le)) rest h.0),
            )
            refl
      | inr close ↦ rw (close, sweep_right-eq-pairs_right pause left rest h.1) refl
    ]

pub sweep-eq-all_pairs :
    (pause : ℕ) (cs : List CandidateSlot) → IsSorted cs → sweep pause cs ≡ all_pairs pause cs
unfolding sweep
sweep-eq-all_pairs pause [] h = refl
sweep-eq-all_pairs pause (c ∷ cs) h =
    rw (sweep_right-eq-pairs_right pause c cs h.1, sweep-eq-all_pairs pause cs h.1)

-- The sweep with its early exit adds the same constraints, in the same order, as comparing every
-- candidate with every later one in the order of their starts.
pub overlap_constraints-eq-all_pairs :
    (break_minutes : ℕ) (candidates : List CandidateSlot)
    → overlap_constraints break_minutes candidates
      ≡ all_pairs (break_minutes * minute) (sort_by_start candidates)
unfolding overlap_constraints
overlap_constraints-eq-all_pairs break_minutes candidates =
    sweep-eq-all_pairs (break_minutes * minute) (sort_by_start candidates)
      (sort_by_start-IsSorted candidates)
