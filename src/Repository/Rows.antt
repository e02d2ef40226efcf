-- ===== src/Repository/Rows.antt =====
-- Laws of the tables of requests and of the actions that write other tables.
use relay.Prelude.{
  ℕ, ◌≡◌, false, List, [], ◌∷◌, String, All, All-append, ◌==◌, arith, inl, inr, Bool-cases, ◌&&◌,
}
use relay.Domain.Enums.{ApprovalStatus, is_approval}
use relay.Store.{Database, WorkflowRun, ProposedAction, ApprovalRequest, Metadata}
use relay.Session.{Session, now, uuid4, record_event}
use relay.Session.Keeps.{Keeps, keeps_rules}
use relay.Repository.{update_approval, set_run, set_action, set_approval, add_approval, is_resolved}

-- A replaced request satisfies what all of them do if the new row does.
pub All-update_approval :
    (P : ApprovalRequest → Type 0) (id : ℕ) (row : ApprovalRequest) (rows : List ApprovalRequest)
    → P row
    → All P rows
    → All P (update_approval id (λ _. row) rows)
All-update_approval P id row [] new h = tt
All-update_approval P id row (a ∷ rows) new h = elim (Bool-cases (a.id == id)) [
  | inl same ↦ rw same (new, All-update_approval P id row rows new h.1)
  | inr other ↦ rw other (h.0, All-update_approval P id row rows new h.1)
]

-- A statement about the table of requests that the transaction sees and about what is committed,
-- and the actions that leave both alone.
module _ (Q : List ApprovalRequest → Database → Type 0) where
  abbrev pub Requests : Session → Type 0
  Requests s = Q s.working.approvals s.committed

  pub Keeps-now : Keeps Requests now
  unfolding now
  Keeps-now = record { at = λ s h. h }

  pub Keeps-uuid4 : Keeps Requests uuid4
  unfolding uuid4
  Keeps-uuid4 = record { at = λ s h. h }

  pub Keeps-set_run : (id : ℕ) (f : WorkflowRun → WorkflowRun) → Keeps Requests (set_run id f)
  unfolding set_run
  Keeps-set_run id f = record { at = λ s h. h }

  pub Keeps-set_action :
      (id : ℕ) (f : ProposedAction → ProposedAction) → Keeps Requests (set_action id f)
  unfolding set_action
  Keeps-set_action id f = record { at = λ s h. h }

  pub Keeps-record_event :
      (owner : ℕ) (event_type : String) (run_id : ℕ) (metadata : List (String × Metadata))
      → Keeps Requests (record_event owner event_type run_id metadata)
  unfolding record_event
  Keeps-record_event owner event_type run_id metadata = record { at = λ s h. h }

module _ (P : ApprovalRequest → Type 0) (R : Database → Type 0) where
  abbrev pub Each : List ApprovalRequest → Database → Type 0
  Each rows committed = All P rows × R committed

  -- A replacement of a request, also where the listener refuses it.
  pub Keeps-set_approval :
      (id : ℕ) (row : ApprovalRequest) → P row → Keeps (Requests Each) (set_approval id (λ _. row))
  unfolding set_approval
  Keeps-set_approval id row new = record {
    at = λ s h. elim (Bool-cases (is_resolved id s.working)) [
      | inl resolved ↦ rw resolved h
      | inr unresolved ↦
          rw unresolved (All-update_approval P id row s.working.approvals new h.0, h.1)
    ];
  }

  pub Keeps-add_approval :
      (row : ApprovalRequest) → P row → Keeps (Requests Each) (add_approval row)
  unfolding add_approval
  Keeps-add_approval row new = record {
    at = λ s h. (All-append P s.working.approvals (row ∷ []) h.0 (new, tt), h.1);
  }

module _ (R : Database → Type 0) where
  -- Writes of the transaction leave what is committed alone.
  pub Keeps-set_approval_committed :
      (id : ℕ) (f : ApprovalRequest → ApprovalRequest)
      → Keeps (Requests (λ _ committed. R committed)) (set_approval id f)
  unfolding set_approval
  Keeps-set_approval_committed id f = record {
    at = λ s h. elim (Bool-cases (is_resolved id s.working)) [
      | inl resolved ↦ rw resolved h
      | inr unresolved ↦ rw unresolved h
    ];
  }

  pub Keeps-add_approval_committed :
      (row : ApprovalRequest) → Keeps (Requests (λ _ committed. R committed)) (add_approval row)
  unfolding add_approval
  Keeps-add_approval_committed row = record { at = λ s h. h }

-- A row that is no longer pending closes its request.
pub All-update_approval_self :
    (id : ℕ) (row : ApprovalRequest) (rows : List ApprovalRequest)
    → is_approval row.status ApprovalStatus.pending ≡ false
    → All
        (λ a. ((a.id == id) && is_approval a.status ApprovalStatus.pending) ≡ false)
        (update_approval id (λ _. row) rows)
All-update_approval_self id row [] closed = tt
All-update_approval_self id row (a ∷ rows) closed =
    (ground arith, All-update_approval_self id row rows closed)

pub ruleset requests_rules =
    (keeps_rules, Keeps-now, Keeps-uuid4, Keeps-set_run, Keeps-set_action, Keeps-record_event)
