-- ===== src/Services/Projects/Integrity.antt =====
-- References between the rows of backend/app/models/entities.py, and rows that are removed.
use relay.Prelude.{
  ℕ, ◌≡◌, refl, Bool, true, false, not, all, ◌&&◌, ◌||◌, Option, none, some, List, [], ◌∷◌, keep,
  any, All, ◌==◌, ==_iff, Bool-cases, inl, inr, arith,
}
use relay.Store.{
  AuditEvent, WorkflowRun, ProposedAction, ApprovalRequest, ExternalArtifact, SourceDocument,
  ProjectWorkspace, ProjectMember, ProjectSource, ProjectTask, Database,
}
use relay.Repository.Content.{is_some_of}
use relay.Services.Workflows.{contains}

abbrev pub HasRun : List WorkflowRun → ℕ → Type 0
HasRun runs id = any (λ r. r.id == id) runs ≡ true

abbrev pub HasProject : List ProjectWorkspace → ℕ → Type 0
HasProject projects id = any (λ p. p.id == id) projects ≡ true

abbrev HasProjectIf : List ProjectWorkspace → Option ℕ → Type 0
HasProjectIf projects none = Unit
HasProjectIf projects (some id) = HasProject projects id

abbrev pub HasRunIf : List WorkflowRun → Option ℕ → Type 0
HasRunIf runs none = Unit
HasRunIf runs (some id) = HasRun runs id

-- The composite foreign key (proposed_action_id, workflow_run_id).
abbrev pub is_action : ℕ → ℕ → ProposedAction → Bool
is_action id run_id a = (a.id == id) && (a.workflow_run_id == run_id)

abbrev pub HasAction : List ProposedAction → ℕ → ℕ → Type 0
HasAction actions id run_id = any (is_action id run_id) actions ≡ true

-- A source of the project.
abbrev pub is_source : ℕ → ℕ → ProjectSource → Bool
is_source project_id id x = (x.id == id) && (x.project_workspace_id == project_id)

abbrev pub HasSourceIf : List ProjectSource → ℕ → Option ℕ → Type 0
HasSourceIf sources project_id none = Unit
HasSourceIf sources project_id (some id) = any (is_source project_id id) sources ≡ true

-- Whoever has the id among the runs is a run of the project.
abbrev pub is_run_of : List WorkflowRun → ℕ → ℕ → Bool
is_run_of runs project_id id =
    all (λ r. not (r.id == id) || is_some_of project_id r.project_workspace_id) runs

-- An action of a run of the project.
abbrev pub is_origin : List WorkflowRun → ℕ → ℕ → ProposedAction → Bool
is_origin runs project_id id a = (a.id == id) && is_run_of runs project_id a.workflow_run_id

abbrev pub HasOriginIf : List WorkflowRun → List ProposedAction → ℕ → Option ℕ → Type 0
HasOriginIf runs actions project_id none = Unit
HasOriginIf runs actions project_id (some id) = any (is_origin runs project_id id) actions ≡ true

-- The references between the tables: every request and every artifact names an action of its run,
-- which is there, as is the run; every action, document and event names a run that is there, every
-- member, source and task a project that is there, every run such a project or none, and every task
-- a source of its project and an action of a run of its project, or none.
pub record IsIntact (db : Database) : Type 0 where
  pub approvals : All (λ (a : ApprovalRequest). HasRun db.runs a.workflow_run_id) db.approvals
  pub requested :
      All
        (λ (a : ApprovalRequest). HasAction db.actions a.proposed_action_id a.workflow_run_id)
        db.approvals
  pub actions : All (λ (a : ProposedAction). HasRun db.runs a.workflow_run_id) db.actions
  pub artifacts : All (λ (a : ExternalArtifact). HasRun db.runs a.workflow_run_id) db.artifacts
  pub made :
      All
        (λ (a : ExternalArtifact). HasAction db.actions a.proposed_action_id a.workflow_run_id)
        db.artifacts
  pub documents : All (λ (d : SourceDocument). HasRun db.runs d.workflow_run_id) db.documents
  pub audit : All (λ (e : AuditEvent). HasRunIf db.runs e.workflow_run_id) db.audit
  pub members :
      All (λ (m : ProjectMember). HasProject db.projects m.project_workspace_id) db.members
  pub sources :
      All (λ (x : ProjectSource). HasProject db.projects x.project_workspace_id) db.sources
  pub tasks : All (λ (t : ProjectTask). HasProject db.projects t.project_workspace_id) db.tasks
  pub task_sources :
      All (λ (t : ProjectTask). HasSourceIf db.sources t.project_workspace_id t.source_id) db.tasks
  pub task_actions :
      All
        (λ (t : ProjectTask).
          HasOriginIf db.runs db.actions t.project_workspace_id t.proposed_action_id)
        db.tasks
  pub runs : All (λ (r : WorkflowRun). HasProjectIf db.projects r.project_workspace_id) db.runs

-- The rows that are kept, and what is found among them.
module _ {A : Type 0} (gone : A → Bool) where
  pub kept_any :
      (test test' : A → Bool)
      → ((a : A) → test a ≡ true → (gone a ≡ false) × (test' a ≡ true))
      → (rows : List A) → any test rows ≡ true
      → any test' (keep (λ a. not (gone a)) rows) ≡ true
  kept_any test test' stays [] h = h
  kept_any test test' stays (a ∷ rows) h = elim (Bool-cases (test a)) [
    | inl passes ↦ let (here, now) = stays a passes in rw here (ground (arith, now))
    | inr fails ↦
        let rest = kept_any test test' stays rows (ground (arith, fails)) in
        elim (Bool-cases (gone a)) [
          | inl leaves ↦ rw leaves rest
          | inr remains ↦ rw remains (ground (arith, rest))
        ]
  ]

  pub kept_rows :
      (P Q : A → Type 0)
      → ((a : A) → gone a ≡ false → P a → Q a)
      → (rows : List A) → All P rows
      → All Q (keep (λ a. not (gone a)) rows)
  kept_rows P Q f [] h = tt
  kept_rows P Q f (a ∷ rows) h = elim (Bool-cases (gone a)) [
    | inl leaves ↦ rw leaves (kept_rows P Q f rows h.1)
    | inr stays ↦ rw stays (f a stays h.0, kept_rows P Q f rows h.1)
  ]

  pub kept_all :
      (test : A → Bool) (rows : List A)
      → all test rows ≡ true
      → all test (keep (λ a. not (gone a)) rows) ≡ true
  kept_all test [] h = h
  kept_all test (a ∷ rows) h =
      let rest = kept_all test rows (ground (arith, h)) in
      elim (Bool-cases (gone a)) [
        | inl leaves ↦ rw leaves rest
        | inr stays ↦ rw stays (ground (arith, rest, h))
      ]

-- References to a row by its id, of which those that go are told by the id.
module _ {B : Type 0} (id_of : B → ℕ) (gone : ℕ → Bool) where
  pub kept_id :
      (id : ℕ) (rows : List B)
      → gone id ≡ false
      → any (λ b. id_of b == id) rows ≡ true
      → any (λ b. id_of b == id) (keep (λ b. not (gone (id_of b))) rows) ≡ true
  kept_id id rows stays =
      kept_any (λ b. gone (id_of b)) (λ b. id_of b == id) (λ b. id_of b == id)
        (λ b same.
          let equal : id_of b ≡ id = (==_iff (id_of b) id).0 same in ((rw equal stays), same))
        rows

abbrev pub without : ℕ → List ProjectWorkspace → List ProjectWorkspace
without id projects = keep (λ p. not (p.id == id)) projects

-- A run of the project is among the ids.
abbrev pub Listed : ℕ → List ℕ → WorkflowRun → Type 0
Listed id ids r = is_some_of id r.project_workspace_id ≡ true → contains ids r.id ≡ true

module _ (id : ℕ) (projects : List ProjectWorkspace) where
  other_project :
      (ref : Option ℕ)
      → is_some_of id ref ≡ false
      → HasProjectIf projects ref
      → HasProjectIf (without id projects) ref
  other_project none elsewhere h = tt
  other_project (some other) elsewhere h =
      kept_id (λ (p : ProjectWorkspace). p.id) (λ x. x == id) other projects elsewhere h

  unlisted :
      (ids : List ℕ) (r : WorkflowRun)
      → contains ids r.id ≡ false
      → Listed id ids r
      → HasProjectIf projects r.project_workspace_id
      → HasProjectIf (without id projects) r.project_workspace_id
  unlisted ids r absent listed h = elim (Bool-cases (is_some_of id r.project_workspace_id)) [
    | inl its ↦ let present = listed its in absurd (cc)
    | inr elsewhere ↦ other_project r.project_workspace_id elsewhere h
  ]

  pub keep_unlisted :
      (ids : List ℕ) (runs : List WorkflowRun)
      → All (Listed id ids) runs
      → All (λ r. HasProjectIf projects r.project_workspace_id) runs
      → All
          (λ r. HasProjectIf (without id projects) r.project_workspace_id)
          (keep (λ r. not (contains ids r.id)) runs)
  keep_unlisted ids [] listed h = tt
  keep_unlisted ids (r ∷ runs) listed h =
      let rest = keep_unlisted ids runs listed.1 h.1 in
      elim (Bool-cases (contains ids r.id)) [
        | inl present ↦ rw present rest
        | inr absent ↦ rw absent (unlisted ids r absent listed.0 h.0, rest)
      ]

  pub all_unlisted :
      (runs : List WorkflowRun)
      → All (Listed id []) runs
      → All (λ r. HasProjectIf projects r.project_workspace_id) runs
      → All (λ r. HasProjectIf (without id projects) r.project_workspace_id) runs
  all_unlisted [] listed h = tt
  all_unlisted (r ∷ runs) listed h =
      (unlisted [] r refl listed.0 h.0, all_unlisted runs listed.1 h.1)
