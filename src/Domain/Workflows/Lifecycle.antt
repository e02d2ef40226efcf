-- ===== src/Domain/Workflows/Lifecycle.antt =====
-- What the table of transitions of backend/app/domain/workflows.py guarantees of whole histories.
use relay.Prelude.{
  ℕ, ◌+◌, ◌≤◌, ◌<◌, ◌≡◌, refl, true, false, Option, none, some, List, [], ◌∷◌, ◌++◌, ◌⊎◌, inl, inr,
  length, if◌then◌else◌, arith,
}
use relay.Domain.Enums.{WorkflowStatus as S}
use relay.Domain.Errors.{ok, err, invalid_workflow_transition}
use relay.Domain.Workflows.{transitions, terminal_states, one_of, Transition, transition}

-- How far a status is in the life of a run.
abbrev rank : S → ℕ
rank S.draft = 0
rank S.analyzing = 1
rank S.plan_ready = 2
rank S.awaiting_approval = 3
rank S.approved = 4
rank S.queued = 5
rank S.executing = 6
rank _ = 7

-- A run that goes through `targets` one transition after another.
pub data History : S → List S → Type 0 where
  rest : (s : S) → History s []
  step :
      {s t : S} {later : List S} (started_at : Option ℕ) (instant : ℕ) {change : Transition}
      → transition s t started_at instant ≡ ok change
      → History t later
      → History s (t ∷ later)

rank-transition :
    (s t : S) (started_at : Option ℕ) (instant : ℕ) {change : Transition}
    → transition s t started_at instant ≡ ok change
    → rank s < rank t
unfolding transition
rank-transition S.draft t started_at instant h = ground arith
rank-transition s t started_at instant h = ground arith

-- However the calls are chosen, a run makes at most seven transitions, and no more than its
-- status leaves.
pub length-History : {s : S} {targets : List S} → History s targets → length targets + rank s ≤ 7
length-History (rest S.draft) = omega arith
length-History (rest _) = omega arith
length-History (step {s} {t} started_at instant e later) =
    omega (arith, rank-transition s t started_at instant e, length-History later)

-- The statuses between `s` and EXECUTING.
abbrev route : S → List S
route S.draft = S.analyzing ∷ S.plan_ready ∷ S.awaiting_approval ∷ S.approved ∷ S.queued ∷ []
route S.analyzing = S.plan_ready ∷ S.awaiting_approval ∷ S.approved ∷ S.queued ∷ []
route S.plan_ready = S.awaiting_approval ∷ S.approved ∷ S.queued ∷ []
route S.awaiting_approval = S.approved ∷ S.queued ∷ []
route S.approved = S.queued ∷ []
route _ = []

-- One transition leaves the table, follows the route, or is the last one of the route.
route-step :
    (s t : S) (started_at : Option ℕ) (instant : ℕ) {change : Transition}
    → transition s t started_at instant ≡ ok change
    → (transitions t ≡ []) ⊎ (route s ≡ t ∷ route t) ⊎ ((t ≡ S.executing) × (route s ≡ []))
unfolding transition
route-step S.draft t started_at instant h = ground arith
route-step s t started_at instant h = ground arith

cons-append :
    (x t : S) (earlier later tail : List S)
    → t ∷ tail ≡ (x ∷ earlier) ++ S.executing ∷ later
    → (t ≡ x) × (tail ≡ earlier ++ S.executing ∷ later)
cons-append x t earlier later tail e = (cc, cc)

-- Only a status before EXECUTING has it ahead.
rank-History :
    {s : S} {targets : List S} (earlier later : List S)
    → History s targets
    → targets ≡ earlier ++ S.executing ∷ later
    → rank s < 6
rank-History [] later (rest s) e = cc
rank-History (x ∷ earlier) later (rest s) e = cc
rank-History [] later (step {s} {t} started_at instant h more) e =
    ground (arith, rank-transition s t started_at instant h)
rank-History (x ∷ earlier) later (step {s} {t} {later = tail} started_at instant h more) e =
    let (_, split) = cons-append x t earlier later tail e in
    omega (arith, rank-transition s t started_at instant h, rank-History earlier later more split)

rank-end : (s : S) → transitions s ≡ [] → rank s ≡ 7
unfolding transitions
rank-end S.draft e = cc
rank-end s e = ground arith

route-History :
    {s : S} {targets : List S} (earlier later : List S)
    → History s targets
    → targets ≡ earlier ++ S.executing ∷ later
    → earlier ≡ route s
unfolding transitions
route-History [] later (rest s) e = cc
route-History (x ∷ earlier) later (rest s) e = cc
route-History [] later (step {s} {t} started_at instant h more) e =
    ground (arith, route-step s t started_at instant h)
route-History (x ∷ earlier) later (step {s} {t} {later = tail} started_at instant h more) e =
    let (same, split) = cons-append x t earlier later tail e in
    let before = rank-History earlier later more split in
    elim (route-step s t started_at instant h) [
      | inl over ↦ absurd (omega (arith, rank-end t over))
      | inr (inl on) ↦ cc (same, on, route-History earlier later more split)
      | inr (inr (last, _)) ↦ absurd (ground (arith, last))
    ]

-- A run that reaches EXECUTING has passed ANALYZING, PLAN_READY, AWAITING_APPROVAL, APPROVED and
-- QUEUED, in this order and no other status: there is no way round the approval.
pub History-executing :
    (earlier later : List S)
    → History S.draft (earlier ++ S.executing ∷ later)
    → earlier ≡ S.analyzing ∷ S.plan_ready ∷ S.awaiting_approval ∷ S.approved ∷ S.queued ∷ []
History-executing earlier later h = route-History earlier later h refl

-- No transition leaves the status, at whatever time.
abbrev pub IsFinal : S → Type 0
IsFinal s =
    (t : S) (started_at : Option ℕ) (instant : ℕ)
    → transition s t started_at instant ≡ err invalid_workflow_transition

-- A run in the status can be cancelled, at whatever time.
abbrev pub CanCancel : S → Type 0
CanCancel s =
    (started_at : Option ℕ) (instant : ℕ)
    → (change : Transition) × (transition s S.cancelled started_at instant ≡ ok change)

-- The terminal statuses are the ones without a way on; every other one can be cancelled.
terminal-cases :
    (s : S)
    → (one_of s terminal_states ≡ true) × IsFinal s
      ⊎ (one_of s terminal_states ≡ false) × CanCancel s
unfolding transition transitions terminal_states
terminal-cases S.completed = inl (refl, λ t started_at instant. refl)
terminal-cases S.partially_completed = inl (refl, λ t started_at instant. refl)
terminal-cases S.failed = inl (refl, λ t started_at instant. refl)
terminal-cases S.rejected = inl (refl, λ t started_at instant. refl)
terminal-cases S.cancelled = inl (refl, λ t started_at instant. refl)
terminal-cases _ = inr (refl, λ started_at instant. (_, refl))

pub transition-current :
    (s t : S) (started_at : Option ℕ) (instant : ℕ) {change : Transition}
    → transition s t started_at instant ≡ ok change
    → change.current ≡ t
unfolding transition
transition-current s t started_at instant h = ground arith

transition-stamp :
    (s t : S) (started_at : Option ℕ) (instant : ℕ) {change : Transition}
    → transition s t started_at instant ≡ ok change
    → change.completed_at ≡ (if one_of t terminal_states then some instant else none)
unfolding transition
transition-stamp s t started_at instant h = ground arith

-- An accepted transition stamps the run as completed exactly when its life is over: either
-- `completed_at` is the instant of the transition and every further transition, whenever and to
-- whatever status, raises InvalidWorkflowTransition, or `completed_at` is empty and the run can
-- still be cancelled.
pub transition-completed :
    (s t : S) (started_at : Option ℕ) (instant : ℕ) {change : Transition}
    → transition s t started_at instant ≡ ok change
    → (change.completed_at ≡ some instant) × IsFinal change.current
      ⊎ (change.completed_at ≡ none) × CanCancel change.current
transition-completed s t started_at instant h =
    let now = transition-current s t started_at instant h in
    let stamp = transition-stamp s t started_at instant h in
    elim (terminal-cases t) [
      | inl (ended, final) ↦ inl (rw ended at stamp, rw now final)
      | inr (more, can) ↦ inr (rw more at stamp, rw now can)
    ]
