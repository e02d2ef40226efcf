-- ===== src/Services/Approvals/Once.antt =====
-- A request is resolved once (backend/app/services/approvals.py).
use relay.Prelude.{
  ℕ, ◌≡◌, refl, Bool, true, false, Option, some, List, [], ◌∷◌, ◌==◌, ◌&&◌, find-holds, find-All,
  Option-cases, inl, inr, any→find, arith,
}
use relay.Domain.Enums.{ApprovalStatus}
use relay.Domain.Errors.{ok, err, approval_already_resolved}
use relay.Json.{Json}
use relay.Store.{ProposedAction, ApprovalRequest}
use relay.Session.{Session, ◌>>=◌, ◌>>◌, pure, commit, record_event}
use relay.Session.Keeps.{Keeps, Keeps-if}
use relay.Session.Runs.{>>=-Halves}
use relay.Repository.{
  run, approval, run_approvals, set_action, set_approval, find_approval, owns, update_approval,
}
use relay.Repository.Rows.{
  Requests, Each, Keeps-set_approval, All-update_approval_self, requests_rules,
}
use relay.Services.Approvals.{
  is_pending, decide_request, expire_one, expire_all, decide_run, open_request, decide, resolve,
}
use relay.Services.Approvals.Consistency.{apply_transition-Keeps}

-- The request `id` is no longer pending, whatever row answers to it.
abbrev IsClosed : ℕ → ApprovalRequest → Type 0
IsClosed id a = ((a.id == id) && is_pending a) ≡ false

abbrev Closed : ℕ → Session → Type 0
Closed id = Requests (Each (IsClosed id) (λ _. Unit))

decide_request-Closed :
    (a : ApprovalRequest) (action : ProposedAction) (owner : ℕ) (payload : Option Json)
    (approve : Bool) (s s' : Session)
    → decide_request a action owner payload approve s ≡ (ok tt, s')
    → Closed a.id s'
unfolding decide_request set_approval set_action record_event ◌>>=◌
decide_request-Closed a action owner payload true s s' h =
    let row : ApprovalRequest = record a {
      approved_payload = payload;
      status = ApprovalStatus.approved;
      resolved_at = some (s.times s.ticks);
      resolved_by = some owner;
    } in
    let e : s'.working.approvals ≡ update_approval a.id (λ _. row) s.working.approvals =
      ground arith in
    rw e (All-update_approval_self a.id row s.working.approvals refl, tt)
decide_request-Closed a action owner payload false s s' h =
    let row : ApprovalRequest = record a {
      status = ApprovalStatus.rejected;
      resolved_at = some (s.times s.ticks);
      resolved_by = some owner;
    } in
    let e : s'.working.approvals ≡ update_approval a.id (λ _. row) s.working.approvals =
      ground arith in
    rw e (All-update_approval_self a.id row s.working.approvals refl, tt)

module _ (id : ℕ) where
  IsClosed-expired :
      (other : ApprovalRequest) (at : ℕ)
      → IsClosed id (record other { status = ApprovalStatus.expired; resolved_at = some at })
  IsClosed-expired other at = ground arith

  expire_one-Closed :
      (owner : ℕ) (other : ApprovalRequest) → Keeps (Closed id) (expire_one owner other)
  unfolding expire_one
  expire_one-Closed owner other =
      Keeps-if (is_pending other) _ _
        (search (requests_rules, Keeps-set_approval, IsClosed-expired other) depth 30)
        (search requests_rules)

  expire_all-Closed :
      (owner : ℕ) (others : List ApprovalRequest) → Keeps (Closed id) (expire_all owner others)
  unfolding expire_all
  expire_all-Closed owner [] = search requests_rules
  expire_all-Closed owner (other ∷ rest) =
      search (requests_rules, expire_one-Closed owner other, expire_all-Closed owner rest)

  decide_run-Closed :
      (run_id owner : ℕ) (approve : Bool) → Keeps (Closed id) (decide_run run_id owner approve)
  unfolding decide_run run_approvals
  decide_run-Closed run_id owner true = search (requests_rules, apply_transition-Keeps) depth 30
  decide_run-Closed run_id owner false =
      search (requests_rules, expire_all-Closed, apply_transition-Keeps) depth 30

-- The request that the guards let through is the one asked for.
pub open_request-id :
    (approval_id owner : ℕ) (s s' : Session) {request : ApprovalRequest × ProposedAction}
    → open_request approval_id owner s ≡ (ok request, s')
    → request.0.id ≡ approval_id
unfolding open_request approval run ◌>>=◌
open_request-id approval_id owner s s' {request} h =
    elim (Option-cases (find_approval approval_id owner s.working)) [
      | inl missing ↦ absurd (ground arith)
      | inr (a, found) ↦ let holds = find-holds _ s.working.approvals found in ground arith
    ]

-- After the decision the request is closed, in whatever way it was decided.
decide-Closed :
    (approval_id owner : ℕ) (payload : Option Json) (approve : Bool) (s s' : Session)
    → decide approval_id owner payload approve s ≡ (ok tt, s')
    → Closed approval_id s'
unfolding decide
decide-Closed approval_id owner payload approve s s' h =
    let opened = >>=-Halves _ _ s h in
    let decided = >>=-Halves _ _ opened.between opened.second in
    let same = open_request-id approval_id owner s opened.between opened.first in
    let closed_at =
      decide_request-Closed opened.value.0 opened.value.1 owner payload approve opened.between
        decided.between decided.first in
    let final =
      (decide_run-Closed opened.value.0.id opened.value.0.workflow_run_id owner approve).at
        decided.between closed_at in
    rw (decided.second, same) at final

no_longer_pending :
    (id : ℕ) (a : ApprovalRequest) (b : Bool)
    → ((a.id == id) && b) ≡ true
    → IsClosed id a
    → is_pending a ≡ false
no_longer_pending id a b holds h = ground arith

-- A closed request is turned away by the first guard.
resolve-closed :
    (approval_id owner : ℕ) (payload : Option Json) (approve : Bool) (s : Session)
    (a : ApprovalRequest)
    → find_approval approval_id owner s.working ≡ some a
    → is_pending a ≡ false
    → resolve approval_id owner payload approve s ≡ (err approval_already_resolved, s)
unfolding resolve decide open_request approval run ◌>>=◌
resolve-closed approval_id owner payload approve s a found resolved =
    let holds = find-holds _ s.working.approvals found in
    let (r, owned) = any→find (owns a.workflow_run_id owner) s.working.runs (ground arith) in
    ground arith

-- What a successful resolution has done: decided, committed, and returned the row.
pub record Resolved (approval_id owner : ℕ) (payload : Option Json) (approve : Bool) (s : Session)
    (a : ApprovalRequest) (s' : Session) : Type 0 where
  pub between : Session
  pub decided : decide approval_id owner payload approve s ≡ (ok tt, between)
  pub found : find_approval approval_id owner between.working ≡ some a
  pub committed : s' ≡ record between { committed = between.working }

reread :
    (approval_id owner : ℕ) (s s' : Session) {a : ApprovalRequest}
    → (approval approval_id owner >>= λ resolved. commit >> pure resolved) s ≡ (ok a, s')
    → (find_approval approval_id owner s.working ≡ some a)
      × (s' ≡ record s { committed = s.working })
unfolding approval ◌>>=◌
reread approval_id owner s s' {a} h = (ground arith, ground arith)

pub resolve-ok :
    (approval_id owner : ℕ) (payload : Option Json) (approve : Bool) (s s' : Session)
    {a : ApprovalRequest}
    → resolve approval_id owner payload approve s ≡ (ok a, s')
    → Resolved approval_id owner payload approve s a s'
unfolding resolve
resolve-ok approval_id owner payload approve s s' {a} h =
    let halves = >>=-Halves _ _ s h in
    let (found, committed) = reread approval_id owner halves.between s' halves.second in
    record {
      between = halves.between;
      decided = halves.first;
      found = found;
      committed = committed;
    }

-- Once a resolution has returned, every further one of the same request by the same owner, to
-- approve or to reject, raises ApprovalAlreadyResolved and changes nothing.
pub resolve_twice :
    (approval_id owner : ℕ) (payload payload' : Option Json) (approve approve' : Bool)
    (s s' : Session) {a : ApprovalRequest}
    → resolve approval_id owner payload approve s ≡ (ok a, s')
    → resolve approval_id owner payload' approve' s' ≡ (err approval_already_resolved, s')
resolve_twice approval_id owner payload payload' approve approve' s s' {a} h =
    let done = resolve-ok approval_id owner payload approve s s' h in
    let shut = decide-Closed approval_id owner payload approve s done.between done.decided in
    let holds = find-holds _ done.between.working.approvals done.found in
    let closed_a =
      find-All (IsClosed approval_id) _ done.between.working.approvals shut.0 done.found in
    rw done.committed (
      resolve-closed approval_id owner payload' approve' _ a done.found
        (no_longer_pending approval_id a _ holds closed_a))
