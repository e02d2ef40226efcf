-- ===== src/Services/Projects/Kept.antt =====
-- The references of the rows that the deletion of a project (backend/app/services/projects.py)
-- leaves.
use relay.Prelude.{
  ℕ, ◌≡◌, refl, true, false, not, Option, none, some, ◌||◌, List, [], ◌∷◌, map, keep, All, ◌==◌,
  Bool-cases, inl, inr, arith,
}
use relay.Store.{
  WorkflowRun, ProposedAction, ProjectWorkspace, ProjectMember, ProjectSource, ProjectTask,
  Database,
}
use relay.Repository.Content.{is_some_of}
use relay.Services.Workflows.{contains, is_empty}
use relay.Services.Projects.{runs_of, has_run_of}
use relay.Services.Projects.Integrity.{
  IsIntact, HasProject, HasRun, HasRunIf, HasAction, HasSourceIf, HasOriginIf, without, is_action,
  is_source, is_run_of, is_origin, kept_any, kept_rows, kept_all, kept_id, Listed,
}

pub runs-Listed :
    (id : ℕ) (rows : List WorkflowRun) (ids : List ℕ)
    → ((i : ℕ)
        → contains
            (map
              (λ r. r.id)
              (keep (λ (r : WorkflowRun). is_some_of id r.project_workspace_id) rows))
            i
          ≡ true
        → contains ids i ≡ true)
    → All (Listed id ids) rows
runs-Listed id [] ids into = tt
runs-Listed id (r ∷ rows) ids into = (
  (λ its. into r.id (rw its (ground arith))),
  runs-Listed id rows ids (λ i h. into i (elim (Bool-cases (is_some_of id r.project_workspace_id)) [
    | inl its ↦ rw its (ground (arith, h))
    | inr other ↦ rw other h
  ])),
)

pub nothing : (ids : List ℕ) → is_empty ids ≡ true → ids ≡ []
nothing [] h = refl
nothing (i ∷ ids) h = cc

one_project :
    (id project_id : ℕ) (ref : Option ℕ)
    → (project_id == id) ≡ false
    → is_some_of id ref ≡ true
    → is_some_of project_id ref ≡ false
one_project id project_id none other h = refl
one_project id project_id (some x) other h = ground arith

-- A run of another project is not among the project's ones.
other_run :
    (id project_id run_id : ℕ) (rows : List WorkflowRun)
    → (project_id == id) ≡ false
    → is_run_of rows project_id run_id ≡ true
    → contains
        (map (λ r. r.id) (keep (λ (r : WorkflowRun). is_some_of id r.project_workspace_id) rows))
        run_id
      ≡ false
other_run id project_id run_id [] other h = refl
other_run id project_id run_id (r ∷ rows) other h =
    let rest = other_run id project_id run_id rows other (ground (arith, h)) in
    elim (Bool-cases (is_some_of id r.project_workspace_id)) [
      | inr elsewhere ↦ rw elsewhere rest
      | inl its ↦
          let apart = one_project id project_id r.project_workspace_id other its in
          rw its (ground (arith, rest, apart, h))
    ]

-- What the removal of the rows of the runs `ids` leaves, and then that of the project's rows.
module _ (id : ℕ) (db : Database) (h : IsIntact db) where
  pub tasks_kept :
      All
        (λ (t : ProjectTask). HasProject (without id db.projects) t.project_workspace_id)
        (keep (λ t. not (t.project_workspace_id == id)) db.tasks)
  tasks_kept =
      kept_rows (λ t. t.project_workspace_id == id) _ _
        (λ t stays there.
          kept_id (λ (p : ProjectWorkspace). p.id) (λ x. x == id) t.project_workspace_id db.projects
            stays there)
        db.tasks h.tasks

  pub members_kept :
      All
        (λ (m : ProjectMember). HasProject (without id db.projects) m.project_workspace_id)
        (keep (λ m. not (m.project_workspace_id == id)) db.members)
  members_kept =
      kept_rows (λ m. m.project_workspace_id == id) _ _
        (λ m stays there.
          kept_id (λ (p : ProjectWorkspace). p.id) (λ x. x == id) m.project_workspace_id db.projects
            stays there)
        db.members h.members

  pub sources_kept :
      All
        (λ (x : ProjectSource). HasProject (without id db.projects) x.project_workspace_id)
        (keep (λ x. not (x.project_workspace_id == id)) db.sources)
  sources_kept =
      kept_rows (λ x. x.project_workspace_id == id) _ _
        (λ x stays there.
          kept_id (λ (p : ProjectWorkspace). p.id) (λ y. y == id) x.project_workspace_id db.projects
            stays there)
        db.sources h.sources

  source_stays :
      (project_id : ℕ) (ref : Option ℕ)
      → (project_id == id) ≡ false
      → HasSourceIf db.sources project_id ref
      → HasSourceIf (keep (λ x. not (x.project_workspace_id == id)) db.sources) project_id ref
  source_stays project_id none stays there = tt
  source_stays project_id (some source_id) stays there =
      kept_any (λ x. x.project_workspace_id == id) (is_source project_id source_id)
        (is_source project_id source_id) (λ x same. (ground (arith, stays), same)) db.sources there

  pub task_sources_kept :
      All
        (λ (t : ProjectTask).
          HasSourceIf
            (keep (λ x. not (x.project_workspace_id == id)) db.sources)
            t.project_workspace_id
            t.source_id)
        (keep (λ t. not (t.project_workspace_id == id)) db.tasks)
  task_sources_kept =
      kept_rows (λ t. t.project_workspace_id == id) _ _
        (λ t stays there. source_stays t.project_workspace_id t.source_id stays there) db.tasks
        h.task_sources

  abbrev pub ids : List ℕ
  ids = runs_of id db

  abbrev pub left_runs : List WorkflowRun
  left_runs = keep (λ r. not (contains ids r.id)) db.runs

  abbrev pub left_actions : List ProposedAction
  left_actions = keep (λ a. not (contains ids a.workflow_run_id)) db.actions

  pub run_stays :
      (run_id : ℕ) → contains ids run_id ≡ false → HasRun db.runs run_id → HasRun left_runs run_id
  run_stays run_id stays there =
      kept_id (λ (r : WorkflowRun). r.id) (contains ids) run_id db.runs stays there

  pub run_stays_if :
      (ref : Option ℕ) → has_run_of ids ref ≡ false → HasRunIf db.runs ref → HasRunIf left_runs ref
  run_stays_if none stays there = tt
  run_stays_if (some run_id) stays there = run_stays run_id stays there

  pub action_stays :
      (action_id run_id : ℕ)
      → contains ids run_id ≡ false
      → HasAction db.actions action_id run_id
      → HasAction left_actions action_id run_id
  action_stays action_id run_id stays there =
      kept_any (λ a. contains ids a.workflow_run_id) (is_action action_id run_id)
        (is_action action_id run_id)
        (λ a same.
          let of_run : a.workflow_run_id ≡ run_id = ground (arith, same) in
          ((rw of_run stays), same))
        db.actions there

  pub origin_stays :
      (project_id : ℕ) (ref : Option ℕ)
      → (project_id == id) ≡ false
      → HasOriginIf db.runs db.actions project_id ref
      → HasOriginIf left_runs left_actions project_id ref
  origin_stays project_id none stays there = tt
  origin_stays project_id (some action_id) stays there =
      kept_any (λ a. contains ids a.workflow_run_id) (is_origin db.runs project_id action_id)
        (is_origin left_runs project_id action_id)
        (λ a same.
          let of_project : is_run_of db.runs project_id a.workflow_run_id ≡ true =
            ground (arith, same) in
          let now =
            kept_all (λ r. contains ids r.id)
              (λ r. not (r.id == a.workflow_run_id) || is_some_of project_id r.project_workspace_id)
              db.runs of_project in
          (
            other_run id project_id a.workflow_run_id db.runs stays of_project,
            ground (arith, same, now),
          ))
        db.actions there
