-- ===== src/Repository.antt =====
-- backend/app/repositories/relay.py: what the services read, and the row updates and inserts that
-- they make through the session's objects. `with_for_update` locks, which one transaction does not
-- notice. An update of an approval passes the listener of backend/app/models/guards.py.
pub mod Rows
pub mod Content
use relay.Prelude.{
  ℕ, Bool, true, false, Option, none, some, List, [], ◌∷◌, ◌++◌, map, any, keep, find, ◌==◌, ◌&&◌,
  not, if◌then◌else◌,
}
use relay.Domain.Enums.{ApprovalStatus, is_approval}
use relay.Domain.Errors.{
  Result, ok, workflow_not_found, approval_not_found, approval_already_resolved, other_exception,
}
use relay.Store.{Database, WorkflowRun, ProposedAction, ApprovalRequest}
use relay.Session.{Session, Exec, gets, or_raise, raise_if, modify, ◌>>=◌, ◌>>◌}

abbrev pub owns : ℕ → ℕ → WorkflowRun → Bool
owns run_id owner r = (r.id == run_id) && (r.user_id == owner)

-- `RelayRepository.run`
unfoldable pub run : ℕ → ℕ → Exec WorkflowRun
unfolding ◌>>=◌
run run_id owner = do
  found ← gets (λ db. find (owns run_id owner) db.runs)
  or_raise found workflow_not_found

-- The object that the identity map holds for the row.
unfoldable pub load_run : ℕ → Exec WorkflowRun
unfolding ◌>>=◌
load_run run_id = do
  found ← gets (λ db. find (λ r. r.id == run_id) db.runs)
  or_raise found other_exception

abbrev pub find_approval : ℕ → ℕ → Database → Option ApprovalRequest
find_approval approval_id owner db =
    find (λ a. (a.id == approval_id) && any (owns a.workflow_run_id owner) db.runs) db.approvals

-- `RelayRepository.approval`
unfoldable pub approval : ℕ → ℕ → Exec ApprovalRequest
unfolding ◌>>=◌
approval approval_id owner = do
  found ← gets (find_approval approval_id owner)
  or_raise found approval_not_found

abbrev pub actions_of : ℕ → Database → List ProposedAction
actions_of run_id db = keep (λ a. a.workflow_run_id == run_id) db.actions

-- `RelayRepository.actions`
unfoldable pub actions : ℕ → Exec (List ProposedAction)
unfolding ◌>>=◌
actions run_id = gets (actions_of run_id)

abbrev pub approvals_of : ℕ → Database → List ApprovalRequest
approvals_of run_id db = keep (λ a. a.workflow_run_id == run_id) db.approvals

-- `RelayRepository.run_approvals`
unfoldable pub run_approvals : ℕ → Exec (List ApprovalRequest)
unfolding ◌>>=◌
run_approvals run_id = gets (approvals_of run_id)

abbrev pub update_run : ℕ → (WorkflowRun → WorkflowRun) → List WorkflowRun → List WorkflowRun
update_run run_id f rows = map (λ r. if r.id == run_id then f r else r) rows

abbrev pub update_action :
    ℕ → (ProposedAction → ProposedAction) → List ProposedAction → List ProposedAction
update_action action_id f rows = map (λ a. if a.id == action_id then f a else a) rows

abbrev pub update_approval :
    ℕ → (ApprovalRequest → ApprovalRequest) → List ApprovalRequest → List ApprovalRequest
update_approval approval_id f rows = map (λ a. if a.id == approval_id then f a else a) rows

unfoldable pub set_run : ℕ → (WorkflowRun → WorkflowRun) → Exec Unit
unfolding ◌>>=◌
set_run run_id f = modify (λ db. record db { runs = update_run run_id f db.runs })

unfoldable pub set_action : ℕ → (ProposedAction → ProposedAction) → Exec Unit
unfolding ◌>>=◌
set_action action_id f = modify (λ db. record db { actions = update_action action_id f db.actions })

-- `immutable_resolution` of guards.py: a resolved approval is not updated.
abbrev pub is_resolved : ℕ → Database → Bool
is_resolved approval_id db =
    any (λ a. (a.id == approval_id) && not (is_approval a.status ApprovalStatus.pending))
      db.approvals

unfoldable pub set_approval : ℕ → (ApprovalRequest → ApprovalRequest) → Exec Unit
unfolding ◌>>=◌
set_approval approval_id f = do
  resolved ← gets (is_resolved approval_id)
  raise_if resolved approval_already_resolved
  modify (λ db. record db { approvals = update_approval approval_id f db.approvals })

unfoldable pub add_action : ProposedAction → Exec Unit
unfolding ◌>>=◌
add_action a = modify (λ db. record db { actions = db.actions ++ a ∷ [] })

unfoldable pub add_approval : ApprovalRequest → Exec Unit
unfolding ◌>>=◌
add_approval a = modify (λ db. record db { approvals = db.approvals ++ a ∷ [] })
