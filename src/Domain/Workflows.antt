-- ===== src/Domain/Workflows.antt =====
-- backend/app/domain/workflows.py: the table of transitions and `transition`.
-- An instant is a number of microseconds; `now` is passed in, as callers may do.
pub mod Lifecycle
use relay.Prelude.{ℕ, Bool, Option, none, some, List, [], ◌∷◌, any, if◌then◌else◌}
use relay.Domain.Enums.{WorkflowStatus as S, is_workflow}
use relay.Domain.Errors.{Result, ok, err, invalid_workflow_transition}

-- `TRANSITIONS.get(current, frozenset())`
unfoldable pub transitions : S → List S
transitions S.draft = S.analyzing ∷ S.cancelled ∷ []
transitions S.analyzing = S.plan_ready ∷ S.failed ∷ S.cancelled ∷ []
transitions S.plan_ready = S.awaiting_approval ∷ S.cancelled ∷ []
transitions S.awaiting_approval = S.approved ∷ S.rejected ∷ S.cancelled ∷ []
transitions S.approved = S.queued ∷ S.cancelled ∷ []
transitions S.queued = S.executing ∷ S.cancelled ∷ S.failed ∷ []
transitions S.executing = S.completed ∷ S.partially_completed ∷ S.failed ∷ S.cancelled ∷ []
transitions _ = []

unfoldable pub terminal_states : List S
terminal_states = S.completed ∷ S.partially_completed ∷ S.failed ∷ S.rejected ∷ S.cancelled ∷ []

abbrev pub one_of : S → List S → Bool
one_of s members = any (is_workflow s) members

pub record Transition : Type 0 where
  pub previous : S
  pub current : S
  pub updated_at : ℕ
  pub started_at : Option ℕ
  pub completed_at : Option ℕ

unfoldable pub transition : S → S → Option ℕ → ℕ → Result Transition
unfolding transitions terminal_states
transition current target started_at instant =
    if one_of target (transitions current)
    then ok (record {
      previous = current;
      current = target;
      updated_at = instant;
      started_at = if is_workflow target S.analyzing then some instant else started_at;
      completed_at = if one_of target terminal_states then some instant else none;
    })
    else err invalid_workflow_transition
