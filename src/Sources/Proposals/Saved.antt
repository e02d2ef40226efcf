-- ===== src/Sources/Proposals/Saved.antt =====
-- What `TaskProposalService.edit` of backend/app/sources/service.py saves is what it reads back.
use relay.Prelude.{
  ℕ, ◌≡◌, subst, Bool, find, find-holds, All, ◌==◌, Bool-cases, Option-cases, inl, inr, arith, any,
  ◌&&◌, str_eq,
}
use relay.Domain.Enums.{ActionStatus}
use relay.Domain.Errors.{Result, ok}
use relay.Json.{Json}
use relay.Store.{ProposedAction, ApprovalRequest}
use relay.Session.{Session, ◌>>=◌}
use relay.Session.Runs.{same_value, >>=-Halves}
use relay.Session.Leads.{Leads-bind}
use relay.Repository.{run, owns, approval, set_action, set_approval, is_resolved, find_approval}
use relay.Services.Execution.Ends.{Ends, Ends-bind}
use relay.Sources.Schemas.{TaskProposalEdit, TaskProposalRead}
use relay.Sources.Execution.{operation}
use relay.Sources.Proposals.{Proposal, owned, save, edit}
use relay.Sources.Proposals.Rows.{
  PayloadOf, Stored, StoredIn, update_action-PayloadOf, update_approval-ActionOf,
  update_approval-OriginalOf, record_event-Stored,
}
use relay.Sources.Proposals.Edited.{committed-found}

-- What `owned` answers with belongs together.
record IsOwned (approval_id : ℕ) (row : Proposal) : Type 0 where
  request : row.approval.id ≡ approval_id
  proposed : row.action.id ≡ row.approval.proposed_action_id

abbrev is_proposed : ApprovalRequest → ProposedAction → Bool
is_proposed a x = x.id == a.proposed_action_id

owned-IsOwned :
    (approval_id owner : ℕ) → Ends (λ row s'. IsOwned approval_id row) (owned approval_id owner)
unfolding owned approval run ◌>>=◌
owned-IsOwned approval_id owner = record {
  at = λ s s' row e. elim (Option-cases (find_approval approval_id owner s.working)) [
    | inl missing ↦ absurd (ground arith)
    | inr (a, found) ↦ elim (Option-cases (find (owns a.workflow_run_id owner) s.working.runs)) [
      | inl missing ↦ absurd (ground arith)
      | inr (r, mine) ↦ elim (Option-cases (find (is_proposed a) s.working.actions)) [
        | inl missing ↦ absurd (ground arith)
        | inr (action, known) ↦ elim (Bool-cases (str_eq action.action_type operation)) [
          | inr other ↦ absurd (ground arith)
          | inl named ↦
              let this : Proposal = record { approval = a; action = action; r = r } in
              let got : (ok this, s) ≡ (ok row, s') = rw (found, mine, known, named) at e in
              let same = same_value this row s s' got in
              let by_id =
                find-holds
                  (λ (x : ApprovalRequest).
                    (x.id == approval_id) && any (owns x.workflow_run_id owner) s.working.runs)
                  s.working.approvals found in
              let by_action = find-holds (is_proposed a) s.working.actions known in
              let facts : IsOwned approval_id this = record {
                request = ground arith;
                proposed = ground arith;
              } in
              subst (IsOwned approval_id) same facts
        ]
      ]
    ]
  ];
}

-- The item shows the change, and the committed rows of the request and of its action hold its dump.
pub record IsSaved (dump : TaskProposalEdit → Json) (change : TaskProposalEdit) (approval_id : ℕ)
    (item : TaskProposalRead) (s' : Session) : Type 0 where
  pub shown : item.proposal ≡ change
  pub action_id : ℕ
  pub stored : StoredIn approval_id action_id (dump change) s'.committed

module _ (validate : Json → Result TaskProposalEdit) (dump : TaskProposalEdit → Json)
    (change : TaskProposalEdit) (valid : validate (dump change) ≡ ok change)
    (approval_id owner : ℕ) where
  -- What the first two writes leave.
  save-Stored :
      (row : Proposal) (s acted asked : Session)
      → set_action row.action.id
          (λ a. record a { payload = dump change; status = ActionStatus.edited })
          s
        ≡ (ok tt, acted)
      → set_approval row.approval.id
          (λ _. record row.approval { original_payload = dump change })
          acted
        ≡ (ok tt, asked)
      → row.action.id ≡ row.approval.proposed_action_id
      → Stored row.approval.id row.action.id (dump change) asked
  unfolding set_action set_approval ◌>>=◌
  save-Stored row s acted asked first second proposed =
      let on_action =
        update_action-PayloadOf row.action.id (dump change) ActionStatus.edited s.working.actions in
      let payloads =
        subst
          (λ (x : Result Unit × Session).
            All (PayloadOf row.action.id (dump change)) x.1.working.actions)
          first on_action in
      let request : ApprovalRequest = record row.approval { original_payload = dump change } in
      let on_request = update_approval-ActionOf request acted.working.approvals in
      let original = update_approval-OriginalOf request acted.working.approvals in
      elim (Bool-cases (is_resolved row.approval.id acted.working)) [
        | inl resolved ↦ absurd (ground arith)
        | inr unresolved ↦
            subst
              (λ (x : Result Unit × Session).
                Stored row.approval.id row.action.id (dump change) x.1)
              (rw unresolved at second) (payloads, rw proposed on_request, original)
      ]

  save-reads :
      (row : Proposal)
      → IsOwned approval_id row
      → Ends (IsSaved dump change approval_id) (save validate dump approval_id owner change row)
  unfolding save
  save-reads row h = record {
    at = λ s s' item e.
        let acted = >>=-Halves (set_action row.action.id _) _ s e in
        let asked = >>=-Halves (set_approval row.approval.id _) _ acted.between acted.second in
        let stored =
          save-Stored row s acted.between asked.between acted.first asked.first h.proposed in
        let tail =
          committed-found validate approval_id row.action.id (dump change) change valid owner in
        let whole =
          Leads-bind _ _ (record_event-Stored approval_id row.action.id (dump change) owner _ _ _)
            (λ recorded. tail) in
        let (shown, committed) =
          whole.at asked.between s' item (rw h.request at stored) asked.second in
        record { shown = shown; action_id = row.action.id; stored = committed };
  }

  edit-reads : Ends (IsSaved dump change approval_id) (edit validate dump approval_id owner change)
  unfolding edit
  edit-reads = record {
    at = λ s s' item e.
        let asked = >>=-Halves (owned approval_id owner) _ s e in
        let facts = (owned-IsOwned approval_id owner).at s asked.between asked.value asked.first in
        let rest = Ends-bind _ _ λ open_request. Ends-bind _ _ λ current.
          Ends-bind _ _
            λ same_ids. Ends-bind _ _ λ p. Ends-bind _ _ λ origin. save-reads asked.value facts in
        rest.at asked.between s' item asked.second;
  }

-- Where pydantic reads back what it dumped of a change, an edit that returns has committed the dump
-- of the change, as the original payload of the request and as the payload of the action that the
-- request names, and what it shows, read back through `list`, is the change that was sent.
pub edit_roundtrip :
    (validate : Json → Result TaskProposalEdit) (dump : TaskProposalEdit → Json)
    (change : TaskProposalEdit)
    → validate (dump change) ≡ ok change
    → (approval_id owner : ℕ) (s s' : Session) (item : TaskProposalRead)
    → edit validate dump approval_id owner change s ≡ (ok item, s')
    → IsSaved dump change approval_id item s'
edit_roundtrip validate dump change valid approval_id owner s s' item e =
    (edit-reads validate dump change valid approval_id owner).at s s' item e
