-- ===== src/Services/Collaborate/Conclusion.antt =====
-- The status in which a COLLABORATE run is concluded
-- (backend/app/workflows/project_meeting/execution.py).
use relay.Prelude.{
  ℕ, ◌≡◌, refl, false, List, [], ◌∷◌, any, all, length, ltb, ◌==◌, arith, if◌then◌else◌,
}
use relay.Domain.Enums.{WorkflowStatus as S}
use relay.Domain.Errors.{ok}
use relay.Store.{ActionResult, WorkflowRun}
use relay.Session.{Session}
use relay.Services.Execution.Ends.{Ends, Ends-bind, Ends-if, IsSettled, ends_rules}
use relay.Services.Collaborate.{
  is_succeeded, is_pending, succeeded_count, conclude, conclude_completed, conclude_partial,
  conclude_failed,
}

-- The status that the results of actions at rest stand for.
abbrev pub concluded_as : List ActionResult → S
concluded_as results =
    if all is_succeeded results
    then S.completed
    else if any is_succeeded results
    then S.partially_completed
    else S.failed

succeeded_count_le :
    (xs : List ActionResult)
    → (ltb (length xs) (succeeded_count xs) ≡ false)
      × ((succeeded_count xs == length xs) ≡ all is_succeeded xs)
      × (ltb 0 (succeeded_count xs) ≡ any is_succeeded xs)
succeeded_count_le [] = (refl, refl, refl)
succeeded_count_le (x ∷ xs) = let more = succeeded_count_le xs in ground arith

conclude_partial-IsSettled :
    (run_id owner succeeded failed : ℕ)
    → Ends (IsSettled run_id S.partially_completed) (conclude_partial run_id owner succeeded failed)
unfolding conclude_partial
conclude_partial-IsSettled run_id owner succeeded failed = search ends_rules depth 30

conclude_failed-IsSettled :
    (run_id owner : ℕ) → Ends (IsSettled run_id S.failed) (conclude_failed run_id owner)
unfolding conclude_failed
conclude_failed-IsSettled run_id owner = search ends_rules depth 30

conclude_completed-IsSettled :
    (run_id owner : ℕ) → Ends (IsSettled run_id S.completed) (conclude_completed run_id owner)
unfolding conclude_completed
conclude_completed-IsSettled run_id owner = search ends_rules depth 30

conclude-Ends :
    (run_id owner : ℕ) (results : List ActionResult)
    → any is_pending results ≡ false
    → Ends (IsSettled run_id (concluded_as results)) (conclude run_id owner results)
unfolding conclude
conclude-Ends run_id owner results quiet =
    let (low, same, any_one) = succeeded_count_le results in
    Ends-bind _ _ λ locked. Ends-bind _ _ λ _.
      rw (quiet, same, any_one)
        (Ends-if (all is_succeeded results) _ _
          (λ every. rw every (conclude_completed-IsSettled run_id owner))
          (λ other.
            Ends-if (any is_succeeded results) _ _
              (λ one. rw (other, one) (conclude_partial-IsSettled run_id owner _ _))
              (λ no. rw (other, no) (conclude_failed-IsSettled run_id owner))))

-- A run none of whose actions is pending is concluded, in the committed row that is returned, as
-- COMPLETED if every action succeeded, as PARTIALLY_COMPLETED if only some did, else as FAILED.
pub conclude-IsSettled :
    (run_id owner : ℕ) (results : List ActionResult) (s s' : Session) (r : WorkflowRun)
    → any is_pending results ≡ false
    → conclude run_id owner results s ≡ (ok r, s')
    → IsSettled run_id (concluded_as results) r s'
conclude-IsSettled run_id owner results s s' r quiet h =
    (conclude-Ends run_id owner results quiet).at s s' r h
