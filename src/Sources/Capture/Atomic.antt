-- ===== src/Sources/Capture/Atomic.antt =====
-- A capture that fails (backend/app/sources/service.py) leaves nothing but the failed source.
use relay.Prelude.{
  ℕ, suc, ◌≡◌, refl, subst, Bool, ◌&&◌, Option, none, some, List, [], ◌∷◌, ◌++◌, String, any, find,
  find-holds, ◌==◌, str_eq, ◌⊎◌, inl, inr, Bool-cases, Option-cases, arith,
}
use relay.Domain.Errors.{DomainError, Result, ok, err}
use relay.Json.{Json}
use relay.Store.{Database, Metadata, WorkflowRun, ProposedAction, ProjectSource, ProjectWorkspace}
use relay.Session.{Session, record_own_event, commit, rollback, attempt, uuid4, ◌>>=◌}
use relay.Session.Keeps.{Keeps, Keeps-bind, Keeps-lift, Keeps-pure}
use relay.Repository.{add_action}
use relay.Repository.Content.{project, tasks}
use relay.Repository.Rows.{Requests, Keeps-add_approval_committed, requests_rules}
use relay.Services.Approvals.Consistency.{apply_transition-Keeps}
use relay.Sources.Schemas.{SourceCaptureInput, TaskProposal, TaskProposalEdit}
use relay.Sources.Dedupe.{DuplicateCandidate}
use relay.Sources.Proposals.{Proposal}
use relay.Sources.Capture.{
  allowed_types, source_of, add_source, set_source, add_run, of_proposals, duplicate_candidates,
  propose_one, propose_all, process, conclude_capture, capture,
}

-- The failed source alone is added to what was committed.
abbrev pub Failed : Database → ℕ → ℕ → ℕ → SourceCaptureInput → Session → Type 0
Failed db source_id owner project_id input s = s.committed ≡ record db {
  sources =
      db.sources
      ++ source_of source_id owner project_id input "FAILED"
          (some "Relay couldn't process this source.")
        ∷ [];
}

-- What is committed is this.
abbrev Holding : Database → Session → Type 0
Holding db = Requests (λ _ committed. committed ≡ db)

module _ (db : Database) where
  Keeps-add_run : (r : WorkflowRun) → Keeps (Holding db) (add_run r)
  unfolding add_run
  Keeps-add_run r = record { at = λ s h. h }

  Keeps-add_action : (a : ProposedAction) → Keeps (Holding db) (add_action a)
  unfolding add_action
  Keeps-add_action a = record { at = λ s h. h }

  Keeps-set_source :
      (id : ℕ) (f : ProjectSource → ProjectSource) → Keeps (Holding db) (set_source id f)
  unfolding set_source
  Keeps-set_source id f = record { at = λ s h. h }

  Keeps-record_own_event :
      (owner : ℕ) (event_type : String) (metadata : List (String × Metadata))
      → Keeps (Holding db) (record_own_event owner event_type metadata)
  unfolding record_own_event
  Keeps-record_own_event owner event_type metadata = record { at = λ s h. h }

ruleset holding_rules = (
  requests_rules, Keeps-add_approval_committed, apply_transition-Keeps, Keeps-add_run,
  Keeps-add_action, Keeps-set_source, Keeps-record_own_event,
)

module _ (validate : Json → Result TaskProposalEdit) (db : Database) where
  of_proposals-Holding : (rows : List Proposal) → Keeps (Holding db) (of_proposals validate rows)
  unfolding of_proposals
  of_proposals-Holding [] = search holding_rules
  of_proposals-Holding (row ∷ rows) =
      Keeps-bind _ _ (Keeps-lift _)
        (λ edit. Keeps-bind _ _ (of_proposals-Holding rows) (λ more. Keeps-pure _))

  duplicate_candidates-Holding :
      (project_id owner : ℕ) → Keeps (Holding db) (duplicate_candidates validate project_id owner)
  unfolding duplicate_candidates tasks project
  duplicate_candidates-Holding project_id owner =
      search (holding_rules, of_proposals-Holding) depth 30

  module _ (dump : TaskProposalEdit → Json)
      (find_duplicate : String
        → Option String
        → List DuplicateCandidate
        → Option DuplicateCandidate) where
    propose_one-Holding :
        (definition_id project_id source_id owner : ℕ) (candidates : List DuplicateCandidate)
        (p : TaskProposal)
        → Keeps (Holding db) (
            propose_one validate dump find_duplicate definition_id project_id source_id owner
              candidates p)
    unfolding propose_one
    propose_one-Holding definition_id project_id source_id owner candidates p =
        search holding_rules depth 40

    propose_all-Holding :
        (definition_id project_id source_id owner : ℕ) (candidates : List DuplicateCandidate)
        (ps : List TaskProposal)
        → Keeps (Holding db) (
            propose_all validate dump find_duplicate definition_id project_id source_id owner
              candidates ps)
    unfolding propose_all
    propose_all-Holding definition_id project_id source_id owner candidates [] =
        search holding_rules
    propose_all-Holding definition_id project_id source_id owner candidates (p ∷ ps) =
        Keeps-bind _ _ (propose_one-Holding definition_id project_id source_id owner candidates p)
          (λ c.
            propose_all-Holding definition_id project_id source_id owner (candidates ++ c ∷ []) ps)

    process-Holding :
        (generate : SourceCaptureInput → String → Result (List TaskProposal))
        (project_id source_id owner : ℕ) (user_name : String) (input : SourceCaptureInput)
        → Keeps (Holding db) (
            process validate dump find_duplicate generate project_id source_id owner user_name
              input)
    unfolding process
    process-Holding generate project_id source_id owner user_name input =
        search (holding_rules, duplicate_candidates-Holding, propose_all-Holding) depth 30

    module _ (generate : SourceCaptureInput → String → Result (List TaskProposal)) where
      conclude_capture-Failed :
          (project_id source_id owner : ℕ) (input : SourceCaptureInput)
          (outcome : Result (Unit {0})) (s s' : Session) (e : DomainError)
          → s.committed ≡ db
          → conclude_capture validate dump find_duplicate generate project_id source_id owner input
              outcome s
            ≡ (err e, s')
          → Failed db source_id owner project_id input s'
      unfolding conclude_capture add_source rollback commit ◌>>=◌
      conclude_capture-Failed project_id source_id owner input (ok done) s s' e h k = absurd (cc)
      conclude_capture-Failed project_id source_id owner input (err x) s s' e h k =
          subst
            (λ (r : Result ProjectSource × Session). Failed db source_id owner project_id input r.1)
            k (rw h refl)

abbrev is_project : ℕ → ℕ → ProjectWorkspace → Bool
is_project id owner p = (p.id == id) && (p.user_id == owner)

module _ (validate : Json → Result TaskProposalEdit) (dump : TaskProposalEdit → Json)
    (find_duplicate : String → Option String → List DuplicateCandidate → Option DuplicateCandidate)
    (generate : SourceCaptureInput → String → Result (List TaskProposal)) where
  -- A capture that raises has committed nothing, or, where the processing of the source failed
  -- midway, the source alone, marked FAILED: no run, action, request or event of it is left.
  pub capture-err :
      (project_id owner : ℕ) (user_name : String) (input : SourceCaptureInput) (s s' : Session)
      (e : DomainError)
      → capture validate dump find_duplicate generate project_id owner user_name input s
        ≡ (err e, s')
      → (s'.committed ≡ s.committed) ⊎ Failed s.committed s.uuids owner project_id input s'
  unfolding capture project add_source uuid4 attempt ◌>>=◌
  capture-err project_id owner user_name input s s' e k =
      elim (Option-cases (find (is_project project_id owner) s.working.projects)) [
        | inl missing ↦ inl (ground arith)
        | inr (p, found) ↦
            elim (Bool-cases (any (str_eq input.source_type) (allowed_types p.space))) [
              | inr refused ↦ inl (ground arith)
              | inl allowed ↦
                  let s2 : Session = record s {
                    uuids = suc s.uuids;
                    working = record s.working {
                      sources =
                          s.working.sources
                          ++ source_of s.uuids owner p.id input "PROCESSING" none ∷ [];
                    };
                  } in
                  let body =
                    process validate dump find_duplicate generate p.id s.uuids owner user_name
                      input in
                  let held =
                    (process-Holding validate s.committed dump find_duplicate generate p.id s.uuids
                        owner user_name input).at
                      s2 refl in
                  let run : conclude_capture validate dump find_duplicate generate p.id s.uuids
                        owner input (body s2).0 (body s2).1
                      ≡ (err e, s') =
                    rw (found, allowed) at k in
                  let failed =
                    conclude_capture-Failed validate s.committed dump find_duplicate generate p.id
                      s.uuids owner input (body s2).0 (body s2).1 s' e held run in
                  let its = find-holds (is_project project_id owner) s.working.projects found in
                  let same : p.id ≡ project_id = ground arith in inr (rw same at failed)
            ]
      ]
