-- ===== src/Scheduling/Overlap.antt =====
-- `_add_overlap_constraints` of backend/app/scheduling/solver.py: the pairs of candidates of which
-- the model may select one at most. A candidate carries its index in the list of candidates.
pub mod Sweep
pub mod Selection
use relay.Prelude.{
  ℕ, ◌+◌, ◌*◌, Bool, true, false, ◌||◌, List, [], ◌∷◌, ◌++◌, String, ltb, leb, if◌then◌else◌,
}
use relay.Prelude.Int.{ℤ}
use relay.Scheduling.Slots.{minute, overlaps}

pub record CandidateSlot : Type 0 where
  pub index : ℕ
  pub task_id : String
  pub start : ℕ
  pub finish : ℕ
  pub fragment_id : ℕ
  pub duration_minutes : ℤ
  pub score : ℤ

-- `sorted(..., key=lambda index: candidates[index].start)`, which is stable.
unfoldable pub insert_by_start : CandidateSlot → List CandidateSlot → List CandidateSlot
insert_by_start c [] = c ∷ []
insert_by_start c (d ∷ ds) =
    let later = insert_by_start c ds in if ltb d.start c.start then d ∷ later else c ∷ d ∷ ds

unfoldable pub sort_by_start : List CandidateSlot → List CandidateSlot
unfolding insert_by_start
sort_by_start [] = []
sort_by_start (c ∷ cs) = insert_by_start c (sort_by_start cs)

-- The test of the inner loop: with the break after either one, the two overlap.
abbrev pub conflicts : ℕ → CandidateSlot → CandidateSlot → Bool
conflicts pause left right =
    overlaps left.start (left.finish + pause) right.start right.finish
    || overlaps right.start (right.finish + pause) left.start left.finish

-- The inner loop, which stops at the first candidate that starts after the break.
unfoldable pub sweep_right : ℕ → CandidateSlot → List CandidateSlot → List (ℕ × ℕ)
sweep_right pause left [] = []
sweep_right pause left (right ∷ rest) =
    let more = sweep_right pause left rest in
    if leb (left.finish + pause) right.start
    then []
    else if conflicts pause left right
    then (left.index, right.index) ∷ more
    else more

unfoldable pub sweep : ℕ → List CandidateSlot → List (ℕ × ℕ)
unfolding sweep_right
sweep pause [] = []
sweep pause (left ∷ rest) = sweep_right pause left rest ++ sweep pause rest

unfoldable pub overlap_constraints : ℕ → List CandidateSlot → List (ℕ × ℕ)
unfolding sort_by_start sweep
overlap_constraints break_minutes candidates =
    sweep (break_minutes * minute) (sort_by_start candidates)
