-- ===== src/Services/Approvals/Rejection.antt =====
-- What `resolve` of backend/app/services/approvals.py leaves behind when it returns and when it
-- raises.
use relay.Prelude.{ℕ, ◌≡◌, refl, Bool, true, false, Option, List, [], ◌∷◌, arith}
use relay.Domain.Errors.{DomainError, err}
use relay.Json.{Json}
use relay.Store.{Database, ProposedAction, ApprovalRequest}
use relay.Session.{Session, request, ◌>>=◌}
use relay.Session.Keeps.{Keeps, Keeps-if}
use relay.Repository.{run, approval, run_approvals}
use relay.Repository.Rows.{Requests, Keeps-set_approval_committed, requests_rules}
use relay.Services.Approvals.{
  is_pending, decide_request, expire_one, expire_all, decide_run, open_request, decide, resolve,
}
use relay.Services.Approvals.Consistency.{apply_transition-Keeps}

module _ (R : Database → Type 0) where
  abbrev Committed : Session → Type 0
  Committed = Requests (λ _ committed. R committed)

  decide_request-Committed :
      (a : ApprovalRequest) (action : ProposedAction) (owner : ℕ) (payload : Option Json)
      (approve : Bool)
      → Keeps Committed (decide_request a action owner payload approve)
  unfolding decide_request
  decide_request-Committed a action owner payload true =
      search (requests_rules, Keeps-set_approval_committed) depth 30
  decide_request-Committed a action owner payload false =
      search (requests_rules, Keeps-set_approval_committed) depth 30

  expire_one-Committed :
      (owner : ℕ) (other : ApprovalRequest) → Keeps Committed (expire_one owner other)
  unfolding expire_one
  expire_one-Committed owner other =
      Keeps-if (is_pending other) _ _
        (search (requests_rules, Keeps-set_approval_committed) depth 30) (search requests_rules)

  expire_all-Committed :
      (owner : ℕ) (others : List ApprovalRequest) → Keeps Committed (expire_all owner others)
  unfolding expire_all
  expire_all-Committed owner [] = search requests_rules
  expire_all-Committed owner (other ∷ rest) =
      search (requests_rules, expire_one-Committed owner other, expire_all-Committed owner rest)

  decide_run-Committed :
      (run_id owner : ℕ) (approve : Bool) → Keeps Committed (decide_run run_id owner approve)
  unfolding decide_run run_approvals
  decide_run-Committed run_id owner true = search (requests_rules, apply_transition-Keeps) depth 30
  decide_run-Committed run_id owner false =
      search (requests_rules, expire_all-Committed, apply_transition-Keeps) depth 30

  decide-Committed :
      (approval_id owner : ℕ) (payload : Option Json) (approve : Bool)
      → Keeps Committed (decide approval_id owner payload approve)
  unfolding decide open_request approval run
  decide-Committed approval_id owner payload approve =
      search (requests_rules, decide_request-Committed, decide_run-Committed) depth 40

-- A resolution that raises, whatever it had written before, has committed nothing.
pub resolve-err :
    (approval_id owner : ℕ) (payload : Option Json) (approve : Bool) (s : Session) (e : DomainError)
    → (resolve approval_id owner payload approve s).0 ≡ err e
    → (request (resolve approval_id owner payload approve) s).1.working ≡ s.committed
unfolding resolve request approval ◌>>=◌
resolve-err approval_id owner payload approve s e h =
    ground (
      arith,
      (decide-Committed (λ db. db ≡ s.committed) approval_id owner payload approve).at s refl,
    )
