-- ===== src/Services/Approvals/Expired.antt =====
-- What the loop over the other requests of a rejected plan (backend/app/services/approvals.py)
-- changes in each row.
use relay.Prelude.{
  ℕ, ◌≡◌, subst, All-map, true, some, List, [], ◌∷◌, keep, ◌==◌, ◌&&◌, All, any, String, Pairwise,
  Pairwise-trans, refl, sym, ◌∙◌, ◌⊎◌, Bool-cases, inl, inr, arith,
}
use relay.Domain.Enums.{ApprovalStatus}
use relay.Store.{Metadata, ApprovalRequest}
use relay.Session.{Session, ◌>>=◌, record_event, now}
use relay.Session.Keeps.{Keeps, Keeps-bind, keeps_rules}
use relay.Repository.{is_resolved, set_approval, update_approval}
use relay.Services.Approvals.{is_pending, expire_one, expire_all}

-- A request that was expired, under the id of the one before.
abbrev pub IsExpired : ApprovalRequest → ApprovalRequest → Type 0
IsExpired a b =
    (b.id ≡ a.id) × (b.status ≡ ApprovalStatus.expired) × ((at : ℕ) × (b.resolved_at ≡ some at))

-- A pending request of the run has the id.
abbrev pub HasPending : ℕ → List ApprovalRequest → ℕ → Type 0
HasPending run_id rows id =
    any (λ x. ((x.workflow_run_id == run_id) && is_pending x) && (x.id == id)) rows ≡ true

abbrev pub IsListed : ℕ → List ApprovalRequest → ApprovalRequest → Type 0
IsListed run_id rows o = is_pending o ≡ true → HasPending run_id rows o.id

pub all_pending :
    (run_id : ℕ) (rows : List ApprovalRequest)
    → All (IsListed run_id rows) (keep (λ o. o.workflow_run_id == run_id) rows)
all_pending run_id [] = tt
all_pending run_id (a ∷ rows) =
    let own = keep (λ (o : ApprovalRequest). o.workflow_run_id == run_id) rows in
    let rest =
      All-map {P = IsListed run_id rows} {Q = IsListed run_id (a ∷ rows)}
        (λ o h pending. ground (arith, h pending)) own (all_pending run_id rows) in
    elim (Bool-cases (a.workflow_run_id == run_id)) [
      | inl its ↦ rw its ((λ pending. ground arith), rest)
      | inr other ↦ rw other rest
    ]

module _ (run_id : ℕ) (before : List ApprovalRequest) where
  -- What expiring may do to a row.
  abbrev pub Expires : ApprovalRequest → ApprovalRequest → Type 0
  Expires a b = (b ≡ a) ⊎ IsExpired a b × HasPending run_id before a.id

  Expires-trans : (a b c : ApprovalRequest) → Expires a b → Expires b c → Expires a c
  Expires-trans a b c (inl same) (inl again) = inl (again ∙ same)
  Expires-trans a b c (inl same) (inr x) =
      inr (subst (λ r. IsExpired r c × HasPending run_id before r.id) same x)
  Expires-trans a b c (inr x) (inl again) = inr (subst (IsExpired a) (sym again) x.0, x.1)
  Expires-trans a b c (inr x) (inr y) = inr ((y.0.0 ∙ x.0.0, y.0.1, y.0.2), x.1)

  update_approval-Expires :
      (other : ApprovalRequest) (at : ℕ) (rows : List ApprovalRequest)
      → HasPending run_id before other.id
      → Pairwise Expires rows (
          update_approval other.id
            (λ _. record other { status = ApprovalStatus.expired; resolved_at = some at })
            rows)
  update_approval-Expires other at [] h = tt
  update_approval-Expires other at (a ∷ rows) h = elim (Bool-cases (a.id == other.id)) [
    | inl same ↦
        let equal : other.id ≡ a.id = ground (arith, same) in
        let own : HasPending run_id before a.id = subst (HasPending run_id before) equal h in
        rw same (inr ((equal, refl, (at, refl)), own), update_approval-Expires other at rows h)
    | inr differ ↦ rw differ (inl refl, update_approval-Expires other at rows h)
  ]

  -- The requests differ from those at the start as expiring may make them.
  abbrev pub SinceThen : Session → Type 0
  SinceThen s = Pairwise Expires before s.working.approvals

  Keeps-expired :
      (other : ApprovalRequest)
      → HasPending run_id before other.id
      → (at : ℕ)
      → Keeps SinceThen (
          set_approval other.id
            (λ _. record other { status = ApprovalStatus.expired; resolved_at = some at }))
  unfolding set_approval ◌>>=◌
  Keeps-expired other own at = record {
    at = λ s h. elim (Bool-cases (is_resolved other.id s.working)) [
      | inl resolved ↦ rw resolved h
      | inr unresolved ↦ rw unresolved (
          Pairwise-trans Expires Expires-trans before s.working.approvals _ h
            (update_approval-Expires other at s.working.approvals own))
    ];
  }

  Keeps-now : Keeps SinceThen now
  unfolding now
  Keeps-now = record { at = λ s h. h }

  Keeps-record_event :
      (owner : ℕ) (event_type : String) (run_id : ℕ) (metadata : List (String × Metadata))
      → Keeps SinceThen (record_event owner event_type run_id metadata)
  unfolding record_event
  Keeps-record_event owner event_type run_id metadata = record { at = λ s h. h }

  expire_one-SinceThen :
      (owner : ℕ) (other : ApprovalRequest)
      → (is_pending other ≡ true → HasPending run_id before other.id)
      → Keeps SinceThen (expire_one owner other)
  unfolding expire_one
  expire_one-SinceThen owner other own = elim (Bool-cases (is_pending other)) [
    | inl pending ↦ rw pending (
        search (keeps_rules, Keeps-expired other (own pending), Keeps-now, Keeps-record_event) depth
          30)
    | inr done ↦ rw done (search keeps_rules)
  ]

  pub expire_all-SinceThen :
      (owner : ℕ) (others : List ApprovalRequest)
      → All (IsListed run_id before) others
      → Keeps SinceThen (expire_all owner others)
  unfolding expire_all
  expire_all-SinceThen owner [] own = search keeps_rules
  expire_all-SinceThen owner (other ∷ rest) own =
      Keeps-bind (expire_one owner other) _ (expire_one-SinceThen owner other own.0)
        (λ _. expire_all-SinceThen owner rest own.1)
