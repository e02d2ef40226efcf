-- ===== src/Services/Approvals/Outcome.antt =====
-- What a resolution that returns has decided (backend/app/services/approvals.py).
use relay.Prelude.{
  ℕ, ◌≡◌, refl, true, Option, some, List, [], ◌∷◌, ◌==◌, All, find-holds, find-All, Bool-cases, inl,
  inr, arith,
}
use relay.Domain.Enums.{ApprovalStatus}
use relay.Domain.Errors.{ok}
use relay.Json.{Json}
use relay.Store.{Database, ProposedAction, ApprovalRequest}
use relay.Session.{Session, ◌>>=◌, record_event}
use relay.Session.Keeps.{Keeps}
use relay.Session.Runs.{>>=-Halves}
use relay.Repository.{run_approvals, set_action, set_approval, find_approval, update_approval}
use relay.Repository.Rows.{Requests, requests_rules}
use relay.Services.Approvals.{decide_request, decide_run, decide, resolve}
use relay.Services.Approvals.Consistency.{apply_transition-Keeps, IsSnapshot, snapshot}
use relay.Services.Approvals.Once.{resolve-ok, open_request-id}

-- The rows of `id` are the one that was written.
abbrev Written : ℕ → ApprovalRequest → ApprovalRequest → Type 0
Written id row a = (a.id == id) ≡ true → a ≡ row

update_approval-Written :
    (id : ℕ) (row : ApprovalRequest) (rows : List ApprovalRequest)
    → All (Written id row) (update_approval id (λ _. row) rows)
update_approval-Written id row [] = tt
update_approval-Written id row (a ∷ rows) = elim (Bool-cases (a.id == id)) [
  | inl same ↦ rw same ((λ _. refl), update_approval-Written id row rows)
  | inr other ↦ rw other ((λ e. cc (e, other)), update_approval-Written id row rows)
]

-- The approved row.
abbrev approved_row : ApprovalRequest → ℕ → Option Json → ℕ → ApprovalRequest
approved_row a owner payload at = record a {
  approved_payload = payload;
  status = ApprovalStatus.approved;
  resolved_at = some at;
  resolved_by = some owner;
}

decide_request-approved :
    (a : ApprovalRequest) (action : ProposedAction) (owner : ℕ) (payload : Option Json)
    (s s' : Session)
    → decide_request a action owner payload true s ≡ (ok tt, s')
    → IsSnapshot payload a.original_payload
      × (s'.working.approvals
          ≡ update_approval a.id
              (λ _. approved_row a owner payload (s.times s.ticks))
              s.working.approvals)
unfolding decide_request set_approval set_action record_event ◌>>=◌
decide_request-approved a action owner payload s s' h =
    (snapshot payload a action (ground arith), ground arith)

-- What an approval decides for the run leaves the requests alone.
decide_run-approvals :
    (Q : List ApprovalRequest → Database → Type 0) (run_id owner : ℕ)
    → Keeps (Requests Q) (decide_run run_id owner true)
unfolding decide_run run_approvals
decide_run-approvals Q run_id owner = search (requests_rules, apply_transition-Keeps) depth 30

-- What the caller of a granted approval reads back.
record HasDecision (owner : ℕ) (payload : Option Json) (a : ApprovalRequest) : Type 0 where
  pub status : a.status ≡ ApprovalStatus.approved
  pub resolver : a.resolved_by ≡ some owner
  pub payload_kept : a.approved_payload ≡ payload
  pub exact : IsSnapshot payload a.original_payload

-- The caller's row is the committed one.
pub record IsGranted (approval_id owner : ℕ) (payload : Option Json) (a : ApprovalRequest)
    (s' : Session) : Type 0 where
  pub stored : find_approval approval_id owner s'.committed ≡ some a
  pub status : a.status ≡ ApprovalStatus.approved
  pub resolver : a.resolved_by ≡ some owner
  pub payload_kept : a.approved_payload ≡ payload
  pub exact : IsSnapshot payload a.original_payload

HasDecision-row :
    (a b : ApprovalRequest) (owner : ℕ) (payload : Option Json) (at : ℕ)
    → IsSnapshot payload a.original_payload
    → b ≡ approved_row a owner payload at
    → HasDecision owner payload b
HasDecision-row a b owner payload at exact e =
    rw e (record { status = refl; resolver = refl; payload_kept = refl; exact = exact })

approval-HasDecision :
    (a : ApprovalRequest) (action : ProposedAction) (approval_id owner : ℕ) (payload : Option Json)
    (s₀ s₁ s₂ : Session) {b : ApprovalRequest}
    → a.id ≡ approval_id
    → decide_request a action owner payload true s₀ ≡ (ok tt, s₁)
    → decide_run a.workflow_run_id owner true s₁ ≡ (ok tt, s₂)
    → find_approval approval_id owner s₂.working ≡ some b
    → HasDecision owner payload b
approval-HasDecision a action approval_id owner payload s₀ s₁ s₂ {b} same first second found =
    let (exact, rows) = decide_request-approved a action owner payload s₀ s₁ first in
    let row : ApprovalRequest = approved_row a owner payload (s₀.times s₀.ticks) in
    let now_written : All (Written a.id row) s₁.working.approvals =
      rw rows (update_approval-Written a.id row s₀.working.approvals) in
    let kept =
      (decide_run-approvals (λ now _. All (Written a.id row) now) a.workflow_run_id owner).at s₁
        now_written in
    let final : All (Written a.id row) s₂.working.approvals = rw second at kept in
    let holds = find-holds _ s₂.working.approvals found in
    HasDecision-row a b owner payload (s₀.times s₀.ticks) exact
      (find-All (Written a.id row) _ s₂.working.approvals final found (ground arith))

-- An approval that returns has committed the request, found again under its id by its owner, as the
-- row it returns: APPROVED, resolved by the owner, with the payload it was given, whose exact JSON
-- is that of the request's original.
pub resolve-IsGranted :
    (approval_id owner : ℕ) (payload : Option Json) (s s' : Session) {a : ApprovalRequest}
    → resolve approval_id owner payload true s ≡ (ok a, s')
    → IsGranted approval_id owner payload a s'
unfolding decide
resolve-IsGranted approval_id owner payload s s' {a} h =
    let done = resolve-ok approval_id owner payload true s s' h in
    let opened = >>=-Halves _ _ s done.decided in
    let first = >>=-Halves _ _ opened.between opened.second in
    let row =
      approval-HasDecision opened.value.0 opened.value.1 approval_id owner payload opened.between
        first.between done.between (open_request-id approval_id owner s opened.between opened.first)
        first.first first.second done.found in
    record {
      stored = rw done.committed done.found;
      status = row.status;
      resolver = row.resolver;
      payload_kept = row.payload_kept;
      exact = row.exact;
    }
