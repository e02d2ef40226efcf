-- ===== src/Sources/Proposals.antt =====
-- `TaskProposalService` of backend/app/sources/service.py. Pydantic's `model_validate` and
-- `model_dump` of a proposal are parameters.
pub mod Rows
pub mod Edited
pub mod Saved
use relay.Prelude.{
  ℕ, Bool, true, false, Option, none, some, List, [], ◌∷◌, ◌++◌, find, not, ltb, ◌==◌, ◌&&◌, ◌||◌,
  str_eq, if◌then◌else◌,
}
use relay.Domain.Enums.{ActionStatus, ApprovalStatus, is_approval}
use relay.Domain.Errors.{
  Result, approval_already_resolved, approval_payload_mismatch, task_proposal_not_found,
  task_proposal_needs_confirmation, other_exception,
}
use relay.Json.{Json}
use relay.Store.{
  WorkflowRun, ProposedAction, ApprovalRequest, ProjectTask, ProjectSource, ProjectWorkspace,
  Database, uuid,
}
use relay.Session.{
  Exec, pure, raise, lift, gets, or_raise, raise_if, commit, uuid4, record_event, ◌>>=◌, ◌>>◌,
}
use relay.Repository.{run, approval, owns, set_action, set_approval}
use relay.Repository.Content.{project, source, task, add_task, set_task, delete_task}
use relay.Runtime.Client.{RuntimeClient}
use relay.Services.Workflows.{is_empty}
use relay.Services.Approvals.{is_pending, resolve}
use relay.Sources.Schemas.{TaskProposalEdit, TaskProposalRead, TaskInput, TaskExecutionResult}
use relay.Sources.Execution.{operation, execute}

-- A row of the join of requests, actions and runs.
pub record Proposal : Type 0 where
  pub approval : ApprovalRequest
  pub action : ProposedAction
  pub r : WorkflowRun

-- `.order_by(ApprovalRequest.requested_at.desc())`
unfoldable pub insert_request : ApprovalRequest → List ApprovalRequest → List ApprovalRequest
insert_request a [] = a ∷ []
insert_request a (b ∷ rest) =
    let later = insert_request a rest in
    if ltb a.requested_at b.requested_at then b ∷ later else a ∷ b ∷ rest

unfoldable pub latest_first : List ApprovalRequest → List ApprovalRequest
unfolding insert_request
latest_first [] = []
latest_first (a ∷ rest) = insert_request a (latest_first rest)

-- The owner's row of a request, through the primary keys of its action and its run.
abbrev pub joined : ApprovalRequest → Option ProposedAction → Option WorkflowRun → List Proposal
joined a none found = []
joined a (some action) none = []
joined a (some action) (some r) = record { approval = a; action = action; r = r } ∷ []

abbrev pub is_proposed_by : ApprovalRequest → ProposedAction → Bool
is_proposed_by a x = (x.id == a.proposed_action_id) && str_eq x.action_type operation

unfoldable pub join_one : ℕ → Database → ApprovalRequest → List Proposal
join_one owner db a =
    joined a (find (is_proposed_by a) db.actions) (find (owns a.workflow_run_id owner) db.runs)

unfoldable pub join_all : ℕ → Database → List ApprovalRequest → List Proposal
unfolding join_one
join_all owner db [] = []
join_all owner db (a ∷ rest) = join_one owner db a ++ join_all owner db rest

-- `_owned`
unfoldable pub owned : ℕ → ℕ → Exec Proposal
owned approval_id owner = do
  a ← approval approval_id owner
  found ← gets (λ db. find (λ (x : ProposedAction). x.id == a.proposed_action_id) db.actions)
  r ← run a.workflow_run_id owner
  action ← or_raise found task_proposal_not_found
  raise_if (not (str_eq action.action_type operation)) task_proposal_not_found
  pure (record { approval = a; action = action; r = r })

-- `reject`
unfoldable pub reject : ℕ → ℕ → Exec ApprovalRequest
unfolding owned
reject approval_id owner = do owned approval_id owner; resolve approval_id owner none false

-- A proposal with its project and its source.
unfoldable pub show_one : ℕ → Proposal → TaskProposalEdit → Exec TaskProposalRead
show_one owner row payload = do
  p ← project payload.project_id owner
  origin ← source payload.source_id owner
  pure (record {
    approval_id = row.approval.id;
    run_id = row.r.id;
    action_id = row.action.id;
    status = row.approval.status;
    project_id = p.id;
    project_name = p.name;
    project_space = p.space;
    source_id = origin.id;
    source_title = origin.title;
    source_type = origin.source_type;
    proposal = payload;
    requested_at = row.approval.requested_at;
  })

module _ (validate : Json → Result TaskProposalEdit) where
  -- The body of the loop of `list`.
  unfoldable pub read_one : ℕ → Proposal → Exec TaskProposalRead
  unfolding show_one
  read_one owner row = lift (validate row.action.payload) >>= show_one owner row

  unfoldable pub read_all : ℕ → List Proposal → Exec (List TaskProposalRead)
  unfolding read_one
  read_all owner [] = pure []
  read_all owner (row ∷ rows) = do
    item ← read_one owner row
    items ← read_all owner rows
    pure (item ∷ items)

  -- `list`
  unfoldable pub list : ℕ → Exec (List TaskProposalRead)
  unfolding read_all join_all latest_first
  list owner = do
    rows ← gets (λ db. join_all owner db (latest_first db.approvals))
    read_all owner rows

  module _ (dump : TaskProposalEdit → Json) where
    -- The writes of `edit`, and the proposal as `list` then reads it.
    unfoldable pub save : ℕ → ℕ → TaskProposalEdit → Proposal → Exec TaskProposalRead
    unfolding list
    save approval_id owner change row = do
      set_action row.action.id
          (λ a. record a { payload = dump change; status = ActionStatus.edited })
      set_approval row.approval.id (λ _. record row.approval { original_payload = dump change })
      record_event owner "TASK_PROPOSAL_EDITED" row.r.id
          (("approval_id", uuid row.approval.id) ∷ [])
      commit
      items ← list owner
      or_raise (find (λ (i : TaskProposalRead). i.approval_id == approval_id) items) other_exception

    -- `edit`
    unfoldable pub edit : ℕ → ℕ → TaskProposalEdit → Exec TaskProposalRead
    unfolding owned save
    edit approval_id owner change = do
      row ← owned approval_id owner
      raise_if (not (is_pending row.approval)) approval_already_resolved
      current ← lift (validate row.action.payload)
      raise_if
          (not (change.source_id == current.source_id)
            || not (change.project_id == current.project_id))
          approval_payload_mismatch
      project change.project_id owner
      source change.source_id owner
      save approval_id owner change row

    -- `accept`
    unfoldable pub accept : RuntimeClient → ℕ → ℕ → ℕ → TaskProposalEdit → Exec TaskExecutionResult
    unfolding edit
    accept runtime poll_attempts approval_id owner change = do
      raise_if (not (is_empty change.needs_confirmation)) task_proposal_needs_confirmation
      edited ← edit approval_id owner change
      resolve approval_id owner (some (dump edited.proposal)) true
      execute validate runtime poll_attempts edited.run_id owner

-- `create_manual`, which answers with the task that it stores.
unfoldable pub create_manual : ℕ → ℕ → TaskInput → Exec ProjectTask
create_manual project_id owner input = do
  project project_id owner
  id ← uuid4
  let t : ProjectTask = record {
    id = id;
    user_id = owner;
    project_workspace_id = project_id;
    title = input.title;
    description = input.description;
    due_date = input.due_date;
    estimate_minutes = input.estimate_minutes;
    priority = input.priority;
    status = input.status;
    source_id = none;
    source_reference = none;
    proposed_action_id = none;
  } in
      do add_task t; commit; pure t

abbrev pub with_input : TaskInput → ProjectTask → ProjectTask
with_input input t = record t {
  title = input.title;
  description = input.description;
  due_date = input.due_date;
  estimate_minutes = input.estimate_minutes;
  priority = input.priority;
  status = input.status;
}

-- `update_task`
unfoldable pub update_task : ℕ → ℕ → ℕ → TaskInput → Exec ProjectTask
update_task project_id task_id owner input = do
  t ← task project_id task_id owner
  set_task t.id (λ _. with_input input t)
  commit
  pure (with_input input t)

-- `delete_task`
unfoldable pub remove_task : ℕ → ℕ → ℕ → Exec Unit
remove_task project_id task_id owner = do
  t ← task project_id task_id owner
  delete_task t.id
  commit
