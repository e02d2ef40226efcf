-- ===== src/Sources/Proposals/Rows.antt =====
-- The rows that `TaskProposalService.edit` of backend/app/sources/service.py writes and joins.
use relay.Prelude.{
  ℕ, ◌≡◌, refl, true, Option, none, some, List, [], ◌∷◌, find, find-holds, find-All, All,
  All-append, ltb, ◌==◌, Bool-cases, inl, inr, arith, String,
}
use relay.Domain.Enums.{ActionStatus}
use relay.Json.{Json}
use relay.Store.{WorkflowRun, ProposedAction, ApprovalRequest, Database, Metadata}
use relay.Session.{Session, record_event}
use relay.Session.Keeps.{Keeps}
use relay.Repository.{update_action, update_approval}
use relay.Sources.Proposals.{
  Proposal, joined, is_proposed_by, insert_request, latest_first, join_one, join_all,
}

insert_request-All :
    (P : ApprovalRequest → Type 0) (a : ApprovalRequest) (rows : List ApprovalRequest)
    → P a
    → All P rows
    → All P (insert_request a rows)
unfolding insert_request
insert_request-All P a [] h k = (h, tt)
insert_request-All P a (b ∷ rest) h k = elim (Bool-cases (ltb a.requested_at b.requested_at)) [
  | inl later ↦ rw later (k.0, insert_request-All P a rest h k.1)
  | inr here ↦ rw here (h, k)
]

pub latest_first-All :
    (P : ApprovalRequest → Type 0) (rows : List ApprovalRequest)
    → All P rows
    → All P (latest_first rows)
unfolding latest_first
latest_first-All P [] h = tt
latest_first-All P (a ∷ rows) h =
    insert_request-All P a (latest_first rows) h.0 (latest_first-All P rows h.1)

-- Statements about the rows of one id.
abbrev pub PayloadOf : ℕ → Json → ProposedAction → Type 0
PayloadOf id payload a = (a.id == id) ≡ true → a.payload ≡ payload

abbrev pub ActionOf : ℕ → ℕ → ApprovalRequest → Type 0
ActionOf id action_id a = (a.id == id) ≡ true → a.proposed_action_id ≡ action_id

abbrev pub OriginalOf : ℕ → Json → ApprovalRequest → Type 0
OriginalOf id payload a = (a.id == id) ≡ true → a.original_payload ≡ payload

pub update_approval-OriginalOf :
    (row : ApprovalRequest) (rows : List ApprovalRequest)
    → All (OriginalOf row.id row.original_payload) (update_approval row.id (λ _. row) rows)
update_approval-OriginalOf row [] = tt
update_approval-OriginalOf row (a ∷ rows) =
    let more = update_approval-OriginalOf row rows in
    elim (Bool-cases (a.id == row.id)) [
      | inl same ↦ rw same ((λ e. refl), more)
      | inr other ↦ rw other ((λ e. absurd (ground arith)), more)
    ]

pub update_action-PayloadOf :
    (id : ℕ) (payload : Json) (status : ActionStatus) (rows : List ProposedAction)
    → All
        (PayloadOf id payload)
        (update_action id (λ a. record a { payload = payload; status = status }) rows)
update_action-PayloadOf id payload status [] = tt
update_action-PayloadOf id payload status (a ∷ rows) =
    let more = update_action-PayloadOf id payload status rows in
    elim (Bool-cases (a.id == id)) [
      | inl same ↦ rw same ((λ e. refl), more)
      | inr other ↦ rw other ((λ e. absurd (ground arith)), more)
    ]

pub update_approval-ActionOf :
    (row : ApprovalRequest) (rows : List ApprovalRequest)
    → All (ActionOf row.id row.proposed_action_id) (update_approval row.id (λ _. row) rows)
update_approval-ActionOf row [] = tt
update_approval-ActionOf row (a ∷ rows) =
    let more = update_approval-ActionOf row rows in
    elim (Bool-cases (a.id == row.id)) [
      | inl same ↦ rw same ((λ e. refl), more)
      | inr other ↦ rw other ((λ e. absurd (ground arith)), more)
    ]

module _ (approval_id action_id : ℕ) (payload : Json) where
  -- The request and its action as they were written.
  abbrev pub StoredIn : Database → Type 0
  StoredIn db =
      All (PayloadOf action_id payload) db.actions
      × All (ActionOf approval_id action_id) db.approvals
      × All (OriginalOf approval_id payload) db.approvals

  abbrev pub Stored : Session → Type 0
  Stored s = StoredIn s.working

  pub record_event-Stored :
      (owner : ℕ) (event_type : String) (run_id : ℕ) (metadata : List (String × Metadata))
      → Keeps Stored (record_event owner event_type run_id metadata)
  unfolding record_event
  record_event-Stored owner event_type run_id metadata = record { at = λ s h. h }

  -- The joined rows of the request hold the payload.
  abbrev pub RowOf : Proposal → Type 0
  RowOf row = (row.approval.id == approval_id) ≡ true → row.action.payload ≡ payload

  joined-RowOf :
      (a : ApprovalRequest) (found : Option ProposedAction) (r : Option WorkflowRun)
      → ((action : ProposedAction)
          → found ≡ some action
          → (a.id == approval_id) ≡ true
          → action.payload ≡ payload)
      → All RowOf (joined a found r)
  joined-RowOf a none r h = tt
  joined-RowOf a (some action) none h = tt
  joined-RowOf a (some action) (some r) h = (h action refl, tt)

  join_one-RowOf :
      (owner : ℕ) (db : Database) (a : ApprovalRequest)
      → All (PayloadOf action_id payload) db.actions
      → ActionOf approval_id action_id a
      → All RowOf (join_one owner db a)
  unfolding join_one
  join_one-RowOf owner db a actions h =
      joined-RowOf a (find (is_proposed_by a) db.actions) _ (λ action found same.
        let is : a.proposed_action_id ≡ action_id = h same in
        let passes = find-holds (is_proposed_by a) db.actions found in
        let by_request : (action.id == a.proposed_action_id) ≡ true = ground (arith, passes) in
        let there : (action.id == action_id) ≡ true = rw is at by_request in
        find-All (PayloadOf action_id payload) (is_proposed_by a) db.actions actions found there)

  pub join_all-RowOf :
      (owner : ℕ) (db : Database) (rows : List ApprovalRequest)
      → All (PayloadOf action_id payload) db.actions
      → All (ActionOf approval_id action_id) rows
      → All RowOf (join_all owner db rows)
  unfolding join_all
  join_all-RowOf owner db [] actions h = tt
  join_all-RowOf owner db (a ∷ rows) actions h =
      All-append RowOf (join_one owner db a) _ (join_one-RowOf owner db a actions h.0)
        (join_all-RowOf owner db rows actions h.1)
