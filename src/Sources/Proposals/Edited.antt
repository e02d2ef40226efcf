-- ===== src/Sources/Proposals/Edited.antt =====
-- What `TaskProposalService.list` of backend/app/sources/service.py shows of an edited proposal.
use relay.Prelude.{
  ℕ, ◌≡◌, refl, sym, ap, subst, ◌∙◌, Bool, true, List, [], ◌∷◌, find, find-holds, find-All, All,
  ◌==◌, Option-cases, inl, inr, arith,
}
use relay.Domain.Errors.{Result, ok, err, other_exception}
use relay.Json.{Json}
use relay.Repository.Content.{project, source}
use relay.Session.{Session, commit, pure, lift, or_raise, ◌>>=◌}
use relay.Session.Runs.{same_value, >>=-Halves}
use relay.Session.Leads.{Leads}
use relay.Session.Keeps.{Keeps, Keeps-bind, Keeps-or_raise, keeps_rules}
use relay.Services.Execution.Ends.{Ends, Ends-bind}
use relay.Sources.Schemas.{TaskProposalEdit, TaskProposalRead}
use relay.Sources.Proposals.{Proposal, latest_first, join_all, show_one, read_one, read_all, list}
use relay.Sources.Proposals.Rows.{
  ActionOf, Stored, StoredIn, RowOf, latest_first-All, join_all-RowOf,
}

-- A pair of a value and a session that are both there.
abbrev Holds : {A : Type 0} → (A → Session → Type 0) → Result A → Session → Type 0
Holds P (ok a) s = P a s
Holds P (err e) s = Unit

Ends-pure :
    {A : Type 0} {P : A → Session → Type 0} (a : A) → ((s : Session) → P a s) → Ends P (pure a)
unfolding ◌>>=◌
Ends-pure {P = P} a h = record { at = λ s s' b e. subst (λ r. Holds P r.0 r.1) e (h s) }

abbrev IsShown : Proposal → TaskProposalEdit → TaskProposalRead → Session → Type 0
IsShown row payload item s = (item.approval_id ≡ row.approval.id) × (item.proposal ≡ payload)

show_one-IsShown :
    (owner : ℕ) (row : Proposal) (payload : TaskProposalEdit)
    → Ends (IsShown row payload) (show_one owner row payload)
unfolding show_one
show_one-IsShown owner row payload =
    Ends-bind _ _ λ p. Ends-bind _ _ λ origin. Ends-pure _ (λ s. (refl, refl))

lift-ok : {A : Type 0} (r : Result A) (s s' : Session) (a : A) → lift r s ≡ (ok a, s') → r ≡ ok a
unfolding ◌>>=◌
lift-ok r s s' a h = ap (λ x. x.0) h

project-Keeps : (P : Session → Type 0) (project_id owner : ℕ) → Keeps P (project project_id owner)
unfolding project
project-Keeps P project_id owner = search keeps_rules

source-Keeps : (P : Session → Type 0) (source_id owner : ℕ) → Keeps P (source source_id owner)
unfolding source
source-Keeps P source_id owner = search keeps_rules

show_one-Keeps :
    (P : Session → Type 0) (owner : ℕ) (row : Proposal) (payload : TaskProposalEdit)
    → Keeps P (show_one owner row payload)
unfolding show_one
show_one-Keeps P owner row payload = search (keeps_rules, project-Keeps, source-Keeps)

module _ (validate : Json → Result TaskProposalEdit) (approval_id action_id : ℕ) (payload : Json)
    (change : TaskProposalEdit) (valid : validate payload ≡ ok change) where
  -- The items of the request show the change.
  abbrev ItemOf : TaskProposalRead → Type 0
  ItemOf item = (item.approval_id == approval_id) ≡ true → item.proposal ≡ change

  read_one-ItemOf :
      (owner : ℕ) (row : Proposal)
      → RowOf approval_id action_id payload row
      → Ends (λ item s'. ItemOf item) (read_one validate owner row)
  unfolding read_one
  read_one-ItemOf owner row h = record {
    at = λ s s' item e same.
        let halves = >>=-Halves (lift (validate row.action.payload)) (show_one owner row) s e in
        let read =
          lift-ok (validate row.action.payload) s halves.between halves.value halves.first in
        let shown =
          (show_one-IsShown owner row halves.value).at halves.between s' item halves.second in
        let of_row : (row.approval.id == approval_id) ≡ true = rw shown.0 at same in
        let written : validate payload ≡ ok halves.value = rw (h of_row) at read in
        let both : ok halves.value ≡ ok change = sym written ∙ valid in
        let known : halves.value ≡ change = cc in shown.1 ∙ known;
  }

  read_all-ItemOf :
      (owner : ℕ) (rows : List Proposal)
      → All (RowOf approval_id action_id payload) rows
      → Ends (λ items s'. All ItemOf items) (read_all validate owner rows)
  unfolding read_all
  read_all-ItemOf owner [] h = Ends-pure [] (λ s. tt)
  read_all-ItemOf owner (row ∷ rows) h = record {
    at = λ s s' items e.
        let first = >>=-Halves (read_one validate owner row) _ s e in
        let here = (read_one-ItemOf owner row h.0).at s first.between first.value first.first in
        let rest = >>=-Halves (read_all validate owner rows) _ first.between first.second in
        let there =
          (read_all-ItemOf owner rows h.1).at first.between rest.between rest.value rest.first in
        let ends : Ends (λ found s'. All ItemOf found) (pure (first.value ∷ rest.value)) =
          Ends-pure (first.value ∷ rest.value) (λ s. (here, there)) in
        ends.at rest.between s' items rest.second;
  }

  list-ItemOf :
      (owner : ℕ)
      → Leads
          (Stored approval_id action_id payload)
          (λ items s'. All ItemOf items)
          (list validate owner)
  unfolding list ◌>>=◌
  list-ItemOf owner = record {
    at = λ s s' items stored e.
        let rows = join_all owner s.working (latest_first s.working.approvals) in
        let of_rows =
          join_all-RowOf approval_id action_id payload owner s.working _ stored.0
            (latest_first-All (ActionOf approval_id action_id) _ stored.1) in
        (read_all-ItemOf owner rows of_rows).at s s' items e;
  }

  found_item :
      (items : List TaskProposalRead) (s s' : Session) (item : TaskProposalRead)
      → All ItemOf items
      → or_raise
          (find (λ (i : TaskProposalRead). i.approval_id == approval_id) items)
          other_exception
          s
        ≡ (ok item, s')
      → item.proposal ≡ change
  unfolding ◌>>=◌
  found_item items s s' item h e =
      let test : TaskProposalRead → Bool = λ i. i.approval_id == approval_id in
      elim (Option-cases (find test items)) [
        | inl missing ↦ absurd (ground arith)
        | inr (i, found) ↦
            let got : (ok i, s) ≡ (ok item, s') = rw found at e in
            let same = same_value i item s s' got in
            let held : ItemOf i = find-All ItemOf test items h found in
            ap (λ x. x.proposal) (sym same) ∙ held (find-holds test items found)
      ]

  -- Reading leaves the session as it is.
  read_one-Keeps :
      (P : Session → Type 0) (owner : ℕ) (row : Proposal) → Keeps P (read_one validate owner row)
  unfolding read_one
  read_one-Keeps P owner row = search (keeps_rules, show_one-Keeps)

  read_all-Keeps :
      (P : Session → Type 0) (owner : ℕ) (rows : List Proposal)
      → Keeps P (read_all validate owner rows)
  unfolding read_all
  read_all-Keeps P owner [] = search keeps_rules
  read_all-Keeps P owner (row ∷ rows) =
      Keeps-bind (read_one validate owner row) _ (read_one-Keeps P owner row) (λ item.
        Keeps-bind (read_all validate owner rows) (λ items. pure (item ∷ items))
          (read_all-Keeps P owner rows) (search keeps_rules))

  list-Keeps : (P : Session → Type 0) (owner : ℕ) → Keeps P (list validate owner)
  unfolding list
  list-Keeps P owner = search (keeps_rules, read_all-Keeps)

  list-found :
      (owner : ℕ)
      → Leads
          (Stored approval_id action_id payload)
          (λ item s'. item.proposal ≡ change)
          (list validate owner >>= λ items.
            or_raise
              (find (λ (i : TaskProposalRead). i.approval_id == approval_id) items)
              other_exception)
  list-found owner = record {
    at = λ s s' item stored e.
        let halves = >>=-Halves (list validate owner) _ s e in
        let items = (list-ItemOf owner).at s halves.between halves.value stored halves.first in
        found_item halves.value halves.between s' item items halves.second;
  }

  -- The commit and the reading that follow the writes.
  pub committed-found :
      (owner : ℕ)
      → Leads
          (Stored approval_id action_id payload)
          (λ item s'.
            (item.proposal ≡ change) × StoredIn approval_id action_id payload s'.committed)
          (commit >>= λ _. list validate owner >>= λ items.
            or_raise
              (find (λ (i : TaskProposalRead). i.approval_id == approval_id) items)
              other_exception)
  unfolding commit ◌>>=◌
  committed-found owner = record {
    at = λ s s' item stored e.
        let P = StoredIn approval_id action_id payload in
        let done : Session = record s { committed = s.working } in
        let kept : Keeps (λ s. P s.committed)
            (list validate owner >>= λ items.
              or_raise (find (λ (i : TaskProposalRead). i.approval_id == approval_id) items)
                other_exception) =
          Keeps-bind _ _ (list-Keeps (λ s. P s.committed) owner) (λ items. Keeps-or_raise _ _) in
        (
          (list-found owner).at done s' item stored e,
          subst (λ (x : Result TaskProposalRead × Session). P x.1.committed) e
              (kept.at done stored),
        );
  }
