-- ===== src/Services/Approvals/Expiry.antt =====
-- A rejected plan has no open request left (backend/app/services/approvals.py).
use relay.Prelude.{
  ℕ, ◌≡◌, ap, subst, All-map, true, false, some, List, [], ◌∷◌, keep, ◌==◌, ◌&&◌, All, any,
  Pairwise, Pairwise-refl, Pairwise-with, refl, ◌⊎◌, Bool-cases, inl, inr, arith,
}
use relay.Domain.Enums.{WorkflowStatus as S, ApprovalStatus}
use relay.Domain.Errors.{Result, ok}
use relay.Domain.Workflows.{Transition}
use relay.Domain.Workflows.Lifecycle.{transition-current}
use relay.Store.{Database, WorkflowRun, ApprovalRequest}
use relay.Session.{Session, ◌>>=◌, record_event}
use relay.Session.Runs.{>>=-Halves}
use relay.Repository.{approvals_of, run_approvals, set_approval, update_approval, update_run}
use relay.Services.Workflows.{moved, apply_transition}
use relay.Services.Workflows.Moves.{apply_transition-ok}
use relay.Services.Approvals.{is_pending, expire_one, expire_all, decide_run}
use relay.Services.Approvals.Expired.{
  IsExpired, all_pending, Expires, SinceThen, expire_all-SinceThen,
}

-- Every request of the run that is still pending is among `others`.
abbrev Among : ℕ → List ApprovalRequest → ApprovalRequest → Type 0
Among run_id others a =
    ((a.workflow_run_id == run_id) && is_pending a) ≡ true
    → any (λ o. (o.id == a.id) && is_pending o) others ≡ true

Among-expired :
    (run_id : ℕ) (other : ApprovalRequest) (rest rows : List ApprovalRequest) (at : ℕ)
    → All (Among run_id (other ∷ rest)) rows
    → All (Among run_id rest) (
        update_approval other.id
          (λ _. record other { status = ApprovalStatus.expired; resolved_at = some at })
          rows)
Among-expired run_id other rest [] at h = tt
Among-expired run_id other rest (a ∷ rows) at h = elim (Bool-cases (a.id == other.id)) [
  | inl same ↦ rw same ((λ e. ground arith), Among-expired run_id other rest rows at h.1)
  | inr differ ↦
      rw differ ((λ e. ground (arith, h.0 e)), Among-expired run_id other rest rows at h.1)
]

Among-skipped :
    (run_id : ℕ) (other : ApprovalRequest) (rest rows : List ApprovalRequest)
    → is_pending other ≡ false
    → All (Among run_id (other ∷ rest)) rows
    → All (Among run_id rest) rows
Among-skipped run_id other rest [] skip h = tt
Among-skipped run_id other rest (a ∷ rows) skip h =
    ((λ e. ground (arith, h.0 e)), Among-skipped run_id other rest rows skip h.1)

expire_one-Among :
    (run_id owner : ℕ) (other : ApprovalRequest) (rest : List ApprovalRequest) (s s' : Session)
    → All (Among run_id (other ∷ rest)) s.working.approvals
    → expire_one owner other s ≡ (ok tt, s')
    → All (Among run_id rest) s'.working.approvals
unfolding expire_one set_approval record_event ◌>>=◌
expire_one-Among run_id owner other rest s s' h e = elim (Bool-cases (is_pending other)) [
  | inl pending ↦
      let rows : s'.working.approvals
          ≡ update_approval other.id
              (λ _. record other {
                status = ApprovalStatus.expired;
                resolved_at = some (s.times s.ticks);
              })
              s.working.approvals =
        ground arith in
      rw rows (Among-expired run_id other rest s.working.approvals (s.times s.ticks) h)
  | inr skip ↦
      let rows : s'.working.approvals ≡ s.working.approvals = ground arith in
      rw rows (Among-skipped run_id other rest s.working.approvals skip h)
]

expire_all-Among :
    (run_id owner : ℕ) (others : List ApprovalRequest) (s s' : Session)
    → All (Among run_id others) s.working.approvals
    → expire_all owner others s ≡ (ok tt, s')
    → All (Among run_id []) s'.working.approvals
unfolding expire_all ◌>>=◌
expire_all-Among run_id owner [] s s' h e =
    subst (λ (t : Session). All (Among run_id []) t.working.approvals)
      (ap (λ (p : Result Unit × Session). p.1) e) h
expire_all-Among run_id owner (other ∷ rest) s s' h e =
    let halves = >>=-Halves (expire_one owner other) (λ _. expire_all owner rest) s e in
    expire_all-Among run_id owner rest halves.between s'
      (expire_one-Among run_id owner other rest s halves.between h halves.first) halves.second

Among-kept :
    (run_id : ℕ) (a : ApprovalRequest) (rows : List ApprovalRequest) (b : ApprovalRequest)
    → Among run_id (keep (λ o. o.workflow_run_id == run_id) rows) b
    → Among run_id (keep (λ o. o.workflow_run_id == run_id) (a ∷ rows)) b
Among-kept run_id a rows b h e = ground (arith, h e)

Among-self :
    (run_id : ℕ) (rows : List ApprovalRequest)
    → All (Among run_id (keep (λ o. o.workflow_run_id == run_id) rows)) rows
Among-self run_id [] = tt
Among-self run_id (a ∷ rows) =
    ((λ e. ground arith), All-map (Among-kept run_id a rows) rows (Among-self run_id rows))

-- No request of the run is pending any more.
abbrev Settled : ℕ → ApprovalRequest → Type 0
Settled run_id a = ((a.workflow_run_id == run_id) && is_pending a) ≡ false

Settled-Among : (run_id : ℕ) (a : ApprovalRequest) → Among run_id [] a → Settled run_id a
Settled-Among run_id a h = elim (Bool-cases ((a.workflow_run_id == run_id) && is_pending a)) [
  | inl pending ↦ cc (h pending)
  | inr done ↦ done
]

-- What a rejection makes of a row: a pending request of the run is EXPIRED, with the time, and
-- stands under its id; any other one is as it was, unless it has the id of such a pending one.
abbrev pub Outcome : ℕ → List ApprovalRequest → ApprovalRequest → ApprovalRequest → Type 0
Outcome run_id before a b =
    (((a.workflow_run_id == run_id) && is_pending a) ≡ true) × IsExpired a b
    ⊎ (((a.workflow_run_id == run_id) && is_pending a) ≡ false) × Expires run_id before a b

Outcome-Settled :
    (run_id : ℕ) (before : List ApprovalRequest) (a b : ApprovalRequest)
    → Expires run_id before a b
    → Settled run_id b
    → Outcome run_id before a b
Outcome-Settled run_id before a b change done =
    elim (Bool-cases ((a.workflow_run_id == run_id) && is_pending a)) [
      | inr other ↦ inr (other, change)
      | inl pending ↦ elim change [
        | inr expired ↦ inl (pending, expired.0)
        | inl same ↦ absurd (cc (pending, same, done))
      ]
    ]

-- The run's rows after a transition to `target`.
abbrev StandsAt : ℕ → S → WorkflowRun → Type 0
StandsAt run_id target r = (r.id == run_id) ≡ true → r.status ≡ target

StandsAt-moved :
    (run_id : ℕ) (target : S) (change : Transition) (rows : List WorkflowRun)
    → change.current ≡ target
    → All (StandsAt run_id target) (update_run run_id (moved change) rows)
StandsAt-moved run_id target change [] e = tt
StandsAt-moved run_id target change (r ∷ rows) e =
    ((λ h. ground (arith, e)), StandsAt-moved run_id target change rows e)

-- The requests before and after the rejection of a plan, and its run.
pub record IsRejected (run_id : ℕ) (before db : Database) : Type 0 where
  pub requests : Pairwise (Outcome run_id before.approvals) before.approvals db.approvals
  pub run : All (StandsAt run_id S.rejected) db.runs

rejected_by :
    (run_id owner : ℕ) (s s₁ s₂ : Session)
    → expire_all owner (approvals_of run_id s.working) s ≡ (ok tt, s₁)
    → apply_transition run_id S.rejected owner s₁ ≡ (ok tt, s₂)
    → IsRejected run_id s.working s₂.working
rejected_by run_id owner s s₁ s₂ first second =
    let expired =
      expire_all-Among run_id owner (approvals_of run_id s.working) s s₁
        (Among-self run_id s.working.approvals) first in
    let kept =
      (expire_all-SinceThen run_id s.working.approvals owner (approvals_of run_id s.working)
          (all_pending run_id s.working.approvals)).at
        s
        (Pairwise-refl (Expires run_id s.working.approvals) (λ a. inl refl) s.working.approvals) in
    let changes =
      subst (λ (x : Result Unit × Session). SinceThen run_id s.working.approvals x.1) first kept in
    let moved = apply_transition-ok run_id S.rejected owner s₁ second in
    let now = transition-current moved.r.status S.rejected moved.r.started_at _ moved.listed in
    rw moved.final (record {
      requests =
          Pairwise-with (Settled run_id) (Outcome-Settled run_id s.working.approvals)
            s.working.approvals s₁.working.approvals changes
            (All-map (Settled-Among run_id) s₁.working.approvals expired);
      run = StandsAt-moved run_id S.rejected moved.change s₁.working.runs now;
    })

-- When the rejection of a run's plan returns, the run is REJECTED, and the requests stand in the
-- same places: each pending one of the run has become EXPIRED, with the time in `resolved_at`, and
-- each other one is as it was, unless it has the id of such a pending one.
pub decide_run-IsRejected :
    (run_id owner : ℕ) (s s' : Session)
    → decide_run run_id owner false s ≡ (ok tt, s')
    → IsRejected run_id s.working s'.working
unfolding decide_run run_approvals ◌>>=◌
decide_run-IsRejected run_id owner s s' h =
    let halves =
      >>=-Halves (expire_all owner (approvals_of run_id s.working))
        (λ _. apply_transition run_id S.rejected owner) s h in
    rejected_by run_id owner s halves.between s' halves.first halves.second
