-- ===== src/Scheduling/Overlap/Selection.antt =====
-- What the overlap constraints of backend/app/scheduling/solver.py mean for a selection.
use relay.Prelude.{
  ℕ, ◌+◌, ◌*◌, ◌≤◌, ◌<◌, ◌≡◌, ◌↔◌, Bool, true, false, ◌&&◌, List, [], ◌∷◌, keep, All, All-append,
  All-of_append, Bool-cases, inl, inr, arith,
}
use relay.Scheduling.Slots.{minute}
use relay.Scheduling.Overlap.{CandidateSlot, sort_by_start, conflicts, overlap_constraints}
use relay.Scheduling.Overlap.Sweep.{
  pairs_right, all_pairs, IsSorted, sort_by_start-IsSorted, insert_by_start-All,
  overlap_constraints-eq-all_pairs,
}

-- `selected[left] + selected[right] <= 1` for each pair
abbrev pub Obeys : (ℕ → Bool) → List (ℕ × ℕ) → Type 0
Obeys selected pairs = All (λ p. (selected p.0 && selected p.1) ≡ false) pairs

-- Each session ends at least a break before every later one starts.
abbrev pub Spaced : ℕ → List CandidateSlot → Type 0
Spaced pause [] = Unit
Spaced pause (c ∷ cs) = All (λ d. c.finish + pause ≤ d.start) cs × Spaced pause cs

abbrev pub Nonempty : CandidateSlot → Type 0
Nonempty c = c.start < c.finish

module _ (selected : ℕ → Bool) where
  abbrev pub chosen : List CandidateSlot → List CandidateSlot
  chosen cs = keep (λ c. selected c.index) cs

  pairs_right-Spaced :
      (pause : ℕ) (left : CandidateSlot) (rest : List CandidateSlot)
      → selected left.index ≡ true
      → Nonempty left
      → All Nonempty rest
      → All (λ d. left.start ≤ d.start) rest
      → Obeys selected (pairs_right pause left rest)
      → All (λ d. left.finish + pause ≤ d.start) (chosen rest)
  pairs_right-Spaced pause left [] on h k sorted obeys = tt
  pairs_right-Spaced pause left (r ∷ rest) on h k sorted obeys =
      elim (Bool-cases (conflicts pause left r)) [
        | inl conflict ↦
            let both : ((selected left.index && selected r.index) ≡ false)
                × Obeys selected (pairs_right pause left rest) =
              rw conflict at obeys in
            let more = pairs_right-Spaced pause left rest on h k.1 sorted.1 both.1 in
            ground (arith, both.0)
        | inr apart ↦
            let alone : Obeys selected (pairs_right pause left rest) = rw apart at obeys in
            let more = pairs_right-Spaced pause left rest on h k.1 sorted.1 alone in
            ground (arith, k.0, sorted.0)
      ]

  -- The converse.
  Spaced-pairs_right :
      (pause : ℕ) (left : CandidateSlot) (rest : List CandidateSlot)
      → Nonempty left
      → All Nonempty rest
      → All (λ d. left.start ≤ d.start) rest
      → All (λ d. left.finish + pause ≤ d.start) (chosen rest)
      → Obeys selected (pairs_right pause left rest)
  Spaced-pairs_right pause left [] h k sorted spaced = tt
  Spaced-pairs_right pause left (r ∷ rest) h k sorted spaced =
      elim (Bool-cases (selected r.index)) [
        | inl on ↦
            let both : (left.finish + pause ≤ r.start)
                × All (λ d. left.finish + pause ≤ d.start) (chosen rest) =
              rw on at spaced in
            let more = Spaced-pairs_right pause left rest h k.1 sorted.1 both.1 in
            ground (arith, both.0, k.0)
        | inr off ↦
            let alone : All (λ d. left.finish + pause ≤ d.start) (chosen rest) = rw off at spaced in
            let more = Spaced-pairs_right pause left rest h k.1 sorted.1 alone in ground arith
      ]

  pairs_right-off :
      (pause : ℕ) (left : CandidateSlot) (rest : List CandidateSlot)
      → selected left.index ≡ false
      → Obeys selected (pairs_right pause left rest)
  pairs_right-off pause left [] off = tt
  pairs_right-off pause left (r ∷ rest) off =
      let more = pairs_right-off pause left rest off in ground arith

  all_pairs-Spaced :
      (pause : ℕ) (cs : List CandidateSlot)
      → All Nonempty cs
      → IsSorted cs
      → Obeys selected (all_pairs pause cs)
      → Spaced pause (chosen cs)
  all_pairs-Spaced pause [] h sorted obeys = tt
  all_pairs-Spaced pause (c ∷ cs) h sorted obeys =
      let split =
        All-of_append (λ p. (selected p.0 && selected p.1) ≡ false) (pairs_right pause c cs)
          (all_pairs pause cs) obeys in
      let later = all_pairs-Spaced pause cs h.1 sorted.1 split.1 in
      elim (Bool-cases (selected c.index)) [
        | inl on ↦ rw on (pairs_right-Spaced pause c cs on h.0 h.1 sorted.0 split.0, later)
        | inr off ↦ rw off later
      ]

  Spaced-all_pairs :
      (pause : ℕ) (cs : List CandidateSlot)
      → All Nonempty cs
      → IsSorted cs
      → Spaced pause (chosen cs)
      → Obeys selected (all_pairs pause cs)
  Spaced-all_pairs pause [] h sorted spaced = tt
  Spaced-all_pairs pause (c ∷ cs) h sorted spaced = elim (Bool-cases (selected c.index)) [
    | inl on ↦
        let both : All (λ d. c.finish + pause ≤ d.start) (chosen cs) × Spaced pause (chosen cs) =
          rw on at spaced in
        All-append _ (pairs_right pause c cs) (all_pairs pause cs)
          (Spaced-pairs_right pause c cs h.0 h.1 sorted.0 both.0)
          (Spaced-all_pairs pause cs h.1 sorted.1 both.1)
    | inr off ↦
        let later : Spaced pause (chosen cs) = rw off at spaced in
        All-append _ (pairs_right pause c cs) (all_pairs pause cs) (pairs_right-off pause c cs off)
          (Spaced-all_pairs pause cs h.1 sorted.1 later)
  ]

sort_by_start-Nonempty :
    (cs : List CandidateSlot) → All Nonempty cs → All Nonempty (sort_by_start cs)
unfolding sort_by_start
sort_by_start-Nonempty [] h = tt
sort_by_start-Nonempty (c ∷ cs) h =
    insert_by_start-All Nonempty c (sort_by_start cs) h.0 (sort_by_start-Nonempty cs h.1)

-- A selection of candidates of positive length satisfies the overlap constraints exactly when, in
-- the order of their starts, each selected session and the break after it are over before any later
-- selected session starts.
pub overlap_constraints-Spaced :
    (selected : ℕ → Bool) (break_minutes : ℕ) (candidates : List CandidateSlot)
    → All Nonempty candidates
    → Obeys selected (overlap_constraints break_minutes candidates)
      ↔ Spaced (break_minutes * minute) (chosen selected (sort_by_start candidates))
overlap_constraints-Spaced selected break_minutes candidates h =
    let sorted = sort_by_start-IsSorted candidates in
    let long = sort_by_start-Nonempty candidates h in
    rw (overlap_constraints-eq-all_pairs break_minutes candidates) (
      all_pairs-Spaced selected (break_minutes * minute) (sort_by_start candidates) long sorted,
      Spaced-all_pairs selected (break_minutes * minute) (sort_by_start candidates) long sorted,
    )
