-- ===== src/Services/Projects/Deletion.antt =====
-- The deletion of a project (backend/app/services/projects.py) leaves no dangling reference.
use relay.Prelude.{
  ℕ, ◌≡◌, refl, sym, subst, Bool, none, ◌++◌, All-append, All-keep, ◌&&◌, [], ◌∷◌, find, ◌==◌,
  Bool-cases, Option-cases, inl, inr,
}
use relay.Store.{AuditEvent, ProjectWorkspace, Database}
use relay.Session.{Session, modify, commit, record_own_event, ◌>>=◌}
use relay.Session.Keeps.{Keeps}
use relay.Repository.Content.{project}
use relay.Services.Workflows.{contains, is_empty}
use relay.Services.Projects.{has_run_of, delete_runs, delete_project, delete}
use relay.Services.Projects.Integrity.{IsIntact, HasRunIf, kept_rows, keep_unlisted, all_unlisted}
use relay.Services.Projects.Kept.{
  runs-Listed, nothing, tasks_kept, members_kept, sources_kept, task_sources_kept, ids, run_stays,
  run_stays_if, action_stays, origin_stays,
}

module _ (id : ℕ) (db : Database) (h : IsIntact db) where
  delete_project-IsIntact : IsIntact (delete_project id db)
  unfolding delete_project delete_runs
  delete_project-IsIntact =
      let listed = runs-Listed id db.runs (ids id db h) (λ i there. there) in
      let gone : ℕ → Bool = contains (ids id db h) in
      elim (Bool-cases (is_empty (ids id db h))) [
        | inl no_runs ↦
            let empty : (ids id db h) ≡ [] = nothing (ids id db h) no_runs in
            rw no_runs (record {
              approvals = h.approvals;
              requested = h.requested;
              actions = h.actions;
              artifacts = h.artifacts;
              made = h.made;
              documents = h.documents;
              audit = h.audit;
              members = members_kept id db h;
              sources = sources_kept id db h;
              tasks = tasks_kept id db h;
              task_sources = task_sources_kept id db h;
              task_actions = All-keep _ _ db.tasks h.task_actions;
              runs = all_unlisted id db.projects db.runs (rw empty at listed) h.runs;
            })
        | inr some_runs ↦ rw some_runs (record {
          approvals =
              kept_rows (λ a. gone a.workflow_run_id) _ _ (λ a. run_stays id db h a.workflow_run_id)
                db.approvals h.approvals;
          requested =
              kept_rows (λ a. gone a.workflow_run_id) _ _
                (λ a. action_stays id db h a.proposed_action_id a.workflow_run_id) db.approvals
                h.requested;
          actions =
              kept_rows (λ a. gone a.workflow_run_id) _ _ (λ a. run_stays id db h a.workflow_run_id)
                db.actions h.actions;
          artifacts =
              kept_rows (λ a. gone a.workflow_run_id) _ _ (λ a. run_stays id db h a.workflow_run_id)
                db.artifacts h.artifacts;
          made =
              kept_rows (λ a. gone a.workflow_run_id) _ _
                (λ a. action_stays id db h a.proposed_action_id a.workflow_run_id) db.artifacts
                h.made;
          documents =
              kept_rows (λ d. gone d.workflow_run_id) _ _ (λ d. run_stays id db h d.workflow_run_id)
                db.documents h.documents;
          audit =
              kept_rows (λ e. has_run_of (ids id db h) e.workflow_run_id) _ _
                (λ e. run_stays_if id db h e.workflow_run_id) db.audit h.audit;
          members = members_kept id db h;
          sources = sources_kept id db h;
          tasks = tasks_kept id db h;
          task_sources = task_sources_kept id db h;
          task_actions =
              kept_rows (λ t. t.project_workspace_id == id) _ _
                (λ t. origin_stays id db h t.project_workspace_id t.proposed_action_id) db.tasks
                h.task_actions;
          runs = keep_unlisted id db.projects (ids id db h) db.runs listed h.runs;
        })
      ]

-- A further event, which names no run.
with_event :
    (db : Database) (e : AuditEvent)
    → e.workflow_run_id ≡ none
    → IsIntact db
    → IsIntact (record db { audit = db.audit ++ e ∷ [] })
with_event db e no_run h = record {
  approvals = h.approvals;
  requested = h.requested;
  actions = h.actions;
  artifacts = h.artifacts;
  made = h.made;
  documents = h.documents;
  audit =
      All-append (λ (e : AuditEvent). HasRunIf db.runs e.workflow_run_id) db.audit (e ∷ []) h.audit
        (subst (HasRunIf db.runs) (sym no_run) tt, tt);
  members = h.members;
  sources = h.sources;
  tasks = h.tasks;
  task_sources = h.task_sources;
  task_actions = h.task_actions;
  runs = h.runs;
}

-- Of what the transaction sees and of what is committed.
abbrev pub AreIntact : Session → Type 0
AreIntact s = IsIntact s.working × IsIntact s.committed

-- Where no reference between the tables dangles, and each task's source and action belong to its
-- project, deleting a project, whoever asks for whatever id and whether it returns or raises, keeps
-- it so, in what is committed and in what the transaction sees: no request or artifact is left
-- without its run and its action, no action, document or event without its run, no member, source,
-- task or run without the project it names, and no task without the source and the action it names.
pub delete-AreIntact : (owner project_id : ℕ) → Keeps AreIntact (delete owner project_id)
unfolding delete project ◌>>=◌ modify commit record_own_event
delete-AreIntact owner project_id = record {
  at = λ s h.
      elim (Option-cases (
        find (λ (p : ProjectWorkspace). (p.id == project_id) && (p.user_id == owner))
          s.working.projects)) [
            | inl missing ↦ rw missing h
            | inr (p, found) ↦ rw found (
              with_event _ _ refl (delete_project-IsIntact p.id s.working h.0),
              with_event _ _ refl (delete_project-IsIntact p.id s.working h.0),
            )
          ];
}
