-- ===== src/Services/Workflows/Gate.antt =====
-- The approval gate of `apply_transition` (backend/app/services/workflows.py).
use relay.Prelude.{
  ℕ, ◌≡◌, ◌≢◌, ap, true, false, List, [], ◌⊎◌, inl, inr, any, all, map, not, All, All-map,
  All-of_map, not_any→All, all→All, arith,
}
use relay.Domain.Enums.{WorkflowStatus as S, ApprovalStatus, is_approval}
use relay.Domain.Errors.{ok}
use relay.Store.{ProposedAction, ApprovalRequest}
use relay.Session.{Session}
use relay.Repository.{actions_of, approvals_of}
use relay.Services.Workflows.{gate_fails, contains, same_set, is_empty, apply_transition}
use relay.Services.Workflows.Moves.{apply_transition-ok}

-- The run has actions, each action has a request, each request is for an action of the run, and
-- every request has status `wanted`.
pub record IsGated (wanted : ApprovalStatus) (acts : List ProposedAction)
    (apps : List ApprovalRequest) : Type 0 where
  pub some_action : acts ≢ []
  pub covered : All (λ a. contains (map (λ p. p.proposed_action_id) apps) a.id ≡ true) acts
  pub known : All (λ p. contains (map (λ a. a.id) acts) p.proposed_action_id ≡ true) apps
  pub resolved : All (λ p. p.status ≡ wanted) apps

abbrev action_ids : List ProposedAction → List ℕ
action_ids acts = map (λ a. a.id) acts

abbrev requested_ids : List ApprovalRequest → List ℕ
requested_ids apps = map (λ p. p.proposed_action_id) apps

gate_parts :
    (target : S) (acts : List ProposedAction) (apps : List ApprovalRequest)
    → (target ≡ S.approved) ⊎ (target ≡ S.queued)
    → gate_fails target acts apps ≡ false
    → (is_empty acts ≡ false)
      × (same_set (action_ids acts) (requested_ids apps) ≡ true)
      × (any (λ a. not (is_approval a.status ApprovalStatus.approved)) apps ≡ false)
unfolding gate_fails
gate_parts target acts apps (inl e) passes = ground arith
gate_parts target acts apps (inr e) passes = ground arith

same_set-parts :
    (acts : List ProposedAction) (apps : List ApprovalRequest)
    → same_set (action_ids acts) (requested_ids apps) ≡ true
    → (all (contains (requested_ids apps)) (action_ids acts) ≡ true)
      × (all (contains (action_ids acts)) (requested_ids apps) ≡ true)
same_set-parts acts apps h = ground arith

is_approved :
    (p : ApprovalRequest)
    → not (is_approval p.status ApprovalStatus.approved) ≡ false
    → p.status ≡ ApprovalStatus.approved
is_approved p h = ground arith

pub gate_fails-IsGated :
    (target : S) (acts : List ProposedAction) (apps : List ApprovalRequest)
    → (target ≡ S.approved) ⊎ (target ≡ S.queued)
    → gate_fails target acts apps ≡ false
    → IsGated ApprovalStatus.approved acts apps
gate_fails-IsGated target acts apps which passes =
    let (busy, same, resolved) = gate_parts target acts apps which passes in
    let (covers, knows) = same_set-parts acts apps same in
    record {
      some_action = λ e. cc (ap is_empty e, busy);
      covered = All-of_map _ _ acts (all→All _ _ covers);
      known = All-of_map _ _ apps (all→All _ _ knows);
      resolved = All-map is_approved apps (not_any→All _ apps resolved);
    }

-- A run enters APPROVED or QUEUED only if it has actions, exactly its actions have requests, and
-- every request is APPROVED.
pub apply_transition-IsGated :
    (run_id : ℕ) (target : S) (owner : ℕ) (s s' : Session)
    → (target ≡ S.approved) ⊎ (target ≡ S.queued)
    → apply_transition run_id target owner s ≡ (ok tt, s')
    → IsGated ApprovalStatus.approved
        (actions_of run_id s'.working)
        (approvals_of run_id s'.working)
apply_transition-IsGated run_id target owner s s' which h =
    let moved = apply_transition-ok run_id target owner s h in
    rw moved.final (gate_fails-IsGated target _ _ which moved.gate)
