-- ===== src/Services/Approvals/Consistency.antt =====
-- The CHECK constraints of `approval_request` (backend/app/models/entities.py), with the snapshot
-- that an approval must carry, over the services that write the table.
use relay.Prelude.{
  some≢none, ℕ, ◌≡◌, ◌≢◌, Bool, true, false, Option, none, some, List, [], ◌∷◌, not, All, arith,
}
use relay.Domain.Enums.{WorkflowStatus as S, ApprovalStatus}
use relay.Json.{Json, exact_json, same_codes}
use relay.Store.{Database, ProposedAction, ApprovalRequest}
use relay.Session.{Session, commit}
use relay.Session.Keeps.{Keeps, Keeps-if, Keeps-guard}
use relay.Repository.{run, load_run, approval, actions, run_approvals}
use relay.Repository.Rows.{Requests, Each, Keeps-set_approval, Keeps-add_approval, requests_rules}
use relay.Services.Workflows.{apply_transition, request_one, request_all, request_approvals}
use relay.Services.Approvals.{
  is_pending, payload_matches, decide_request, expire_one, expire_all, decide_run, open_request,
  decide, resolve,
}

-- An approved request holds a payload whose exact JSON is that of the original.
abbrev pub IsSnapshot : Option Json → Json → Type 0
IsSnapshot none original = ⊥
IsSnapshot (some payload) original = same_codes (exact_json payload) (exact_json original) ≡ true

abbrev pub ConsistentAs : ApprovalStatus → ApprovalRequest → Type 0
ConsistentAs ApprovalStatus.pending a = (a.resolved_at ≡ none) × (a.resolved_by ≡ none)
ConsistentAs ApprovalStatus.approved a =
    (a.resolved_at ≢ none)
    × (a.resolved_by ≢ none)
    × IsSnapshot a.approved_payload a.original_payload
ConsistentAs _ a = a.resolved_at ≢ none

-- PENDING exactly while there is no resolution; APPROVED only with a resolver and a snapshot.
abbrev pub IsConsistent : ApprovalRequest → Type 0
IsConsistent a = ConsistentAs a.status a

abbrev pub AllConsistent : Session → Type 0
AllConsistent = Requests (Each IsConsistent (λ db. All IsConsistent db.approvals))

commit-Consistent : Keeps AllConsistent commit
unfolding commit
commit-Consistent = record { at = λ s h. (h.0, h.0) }

pub apply_transition-Keeps :
    (Q : List ApprovalRequest → Database → Type 0) (run_id : ℕ) (target : S) (owner : ℕ)
    → Keeps (Requests Q) (apply_transition run_id target owner)
unfolding apply_transition load_run actions run_approvals
apply_transition-Keeps Q run_id target owner = search requests_rules depth 30

ruleset consistency_rules = (
  requests_rules, Keeps-set_approval, Keeps-add_approval, apply_transition-Keeps, commit-Consistent,
  some≢none,
)

request_one-Consistent :
    (run_id owner : ℕ) (action : ProposedAction)
    → Keeps AllConsistent (request_one run_id owner action)
unfolding request_one
request_one-Consistent run_id owner action = search consistency_rules depth 30

request_all-Consistent :
    (run_id owner : ℕ) (acts : List ProposedAction)
    → Keeps AllConsistent (request_all run_id owner acts)
unfolding request_all
request_all-Consistent run_id owner [] = search consistency_rules
request_all-Consistent run_id owner (a ∷ acts) = search (
  consistency_rules,
  request_one-Consistent run_id owner a,
  request_all-Consistent run_id owner acts,
)

-- Requesting the approvals of a plan, also where it raises, leaves every request consistent.
pub request_approvals-Consistent :
    (run_id owner : ℕ) → Keeps AllConsistent (request_approvals run_id owner)
unfolding request_approvals run actions run_approvals
request_approvals-Consistent run_id owner =
    search (consistency_rules, request_all-Consistent) depth 30

pub snapshot :
    (payload : Option Json) (a : ApprovalRequest) (action : ProposedAction)
    → not (payload_matches payload a action) ≡ false
    → IsSnapshot payload a.original_payload
unfolding payload_matches
snapshot none a action h = cc
snapshot (some p) a action h = ground arith

granted :
    (a : ApprovalRequest) (payload : Option Json) (owner : ℕ)
    → IsSnapshot payload a.original_payload
    → (at : ℕ)
    → IsConsistent (record a {
      approved_payload = payload;
      status = ApprovalStatus.approved;
      resolved_at = some at;
      resolved_by = some owner;
    })
granted a payload owner h at = (some≢none at, some≢none owner, h)

decide_request-Consistent :
    (a : ApprovalRequest) (action : ProposedAction) (owner : ℕ) (payload : Option Json)
    (approve : Bool)
    → Keeps AllConsistent (decide_request a action owner payload approve)
unfolding decide_request
decide_request-Consistent a action owner payload true =
    Keeps-guard (not (payload_matches payload a action)) _ _ (λ passes.
      search (consistency_rules, granted a payload owner (snapshot payload a action passes)) depth
        30)
decide_request-Consistent a action owner payload false = search consistency_rules depth 30

expire_one-Consistent :
    (owner : ℕ) (other : ApprovalRequest) → Keeps AllConsistent (expire_one owner other)
unfolding expire_one
expire_one-Consistent owner other =
    Keeps-if (is_pending other) _ _ (search consistency_rules depth 30) (search consistency_rules)

expire_all-Consistent :
    (owner : ℕ) (others : List ApprovalRequest) → Keeps AllConsistent (expire_all owner others)
unfolding expire_all
expire_all-Consistent owner [] = search consistency_rules
expire_all-Consistent owner (other ∷ rest) =
    search (consistency_rules, expire_one-Consistent owner other, expire_all-Consistent owner rest)

decide_run-Consistent :
    (run_id owner : ℕ) (approve : Bool) → Keeps AllConsistent (decide_run run_id owner approve)
unfolding decide_run run_approvals
decide_run-Consistent run_id owner true = search consistency_rules depth 30
decide_run-Consistent run_id owner false =
    search (consistency_rules, expire_all-Consistent) depth 30

-- Every resolution, granted, refused or raising, leaves every request of the session and of the
-- database consistent: no request is APPROVED without a resolver and the payload it was made for.
pub resolve-Consistent :
    (approval_id owner : ℕ) (payload : Option Json) (approve : Bool)
    → Keeps AllConsistent (resolve approval_id owner payload approve)
unfolding resolve decide open_request approval run
resolve-Consistent approval_id owner payload approve =
    search (consistency_rules, decide_request-Consistent, decide_run-Consistent) depth 40
