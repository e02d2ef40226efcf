-- ===== src/Sources/Execution/Created.antt =====
-- The task that a successful execution stores (backend/app/sources/service.py).
use relay.Prelude.{
  ℕ, suc, ◌≡◌, refl, sym, ap, ◌∙◌, Bool, true, false, ◌&&◌, some, List, [], ◌∷◌, ◌++◌, String, any,
  find, find-holds, ◌==◌, Bool-cases, Option-cases, inl, inr, arith,
}
use relay.Domain.Enums.{WorkflowStatus as S}
use relay.Domain.Errors.{ok}
use relay.Store.{
  Metadata, WorkflowRun, ProposedAction, ProjectTask, ProjectSource, ProjectWorkspace,
}
use relay.Session.{Session, pure, commit, uuid4, now, record_event, ◌>>=◌}
use relay.Session.Keeps.{Keeps, keeps_rules}
use relay.Session.Leads.{Leads, Leads-bind}
use relay.Repository.{set_run, set_action, load_run, actions, run_approvals}
use relay.Repository.Content.{project, source, clashes, add_task}
use relay.Services.Workflows.{apply_transition}
use relay.Sources.Schemas.{TaskProposalEdit, TaskExecutionResult}
use relay.Sources.Execution.{task_of, conclude_task, create_task}

-- The tasks that the transaction sees.
abbrev TasksAre : List ProjectTask → Session → Type 0
TasksAre tasks s = s.working.tasks ≡ tasks

module _ (tasks : List ProjectTask) where
  Keeps-now : Keeps (TasksAre tasks) now
  unfolding now
  Keeps-now = record { at = λ s h. h }

  Keeps-set_run : (id : ℕ) (f : WorkflowRun → WorkflowRun) → Keeps (TasksAre tasks) (set_run id f)
  unfolding set_run
  Keeps-set_run id f = record { at = λ s h. h }

  Keeps-set_action :
      (id : ℕ) (f : ProposedAction → ProposedAction) → Keeps (TasksAre tasks) (set_action id f)
  unfolding set_action
  Keeps-set_action id f = record { at = λ s h. h }

  Keeps-record_event :
      (owner : ℕ) (event_type : String) (run_id : ℕ) (metadata : List (String × Metadata))
      → Keeps (TasksAre tasks) (record_event owner event_type run_id metadata)
  unfolding record_event
  Keeps-record_event owner event_type run_id metadata = record { at = λ s h. h }

ruleset tasks_rules = (keeps_rules, Keeps-now, Keeps-set_run, Keeps-set_action, Keeps-record_event)

apply_transition-Tasks :
    (tasks : List ProjectTask) (run_id : ℕ) (target : S) (owner : ℕ)
    → Keeps (TasksAre tasks) (apply_transition run_id target owner)
unfolding apply_transition load_run actions run_approvals
apply_transition-Tasks tasks run_id target owner = search tasks_rules depth 30

-- The tasks are committed, and the result is this one.
abbrev Committed : List ProjectTask → ℕ → TaskExecutionResult → Session → Type 0
Committed tasks id r s =
    (s.committed.tasks ≡ tasks) × (r ≡ record { task_id = id; duplicate = false })

commit-Committed :
    (tasks : List ProjectTask) (id : ℕ)
    → Leads
        (TasksAre tasks)
        (Committed tasks id)
        (commit >>= λ _. pure (record { task_id = id; duplicate = false }))
unfolding commit ◌>>=◌
commit-Committed tasks id = record { at = λ s s' r h e. ground (arith, h) }

conclude_task-Committed :
    (tasks : List ProjectTask) (run_id owner : ℕ) (action : ProposedAction) (id source_id : ℕ)
    → Leads (TasksAre tasks) (Committed tasks id) (conclude_task run_id owner action id source_id)
unfolding conclude_task
conclude_task-Committed tasks run_id owner action id source_id =
    search (tasks_rules, apply_transition-Tasks, Leads-bind, commit-Committed) depth 30

abbrev is_project : ℕ → ℕ → ProjectWorkspace → Bool
is_project id owner p = (p.id == id) && (p.user_id == owner)

abbrev is_source : ℕ → ℕ → ProjectSource → Bool
is_source id owner p = (p.id == id) && (p.user_id == owner)

-- A task with the fields of the accepted proposal, open, that keeps where it comes from.
pub record IsTaskOf (owner : ℕ) (action : ProposedAction) (edit : TaskProposalEdit)
    (t : ProjectTask) : Type 0 where
  pub user : t.user_id ≡ owner
  pub project : t.project_workspace_id ≡ edit.project_id
  pub title : t.title ≡ edit.title
  pub description : t.description ≡ edit.description
  pub due_date : t.due_date ≡ edit.due_date
  pub estimate : t.estimate_minutes ≡ edit.estimate_minutes
  pub priority : t.priority ≡ edit.priority
  pub status : t.status ≡ "TODO"
  pub source : t.source_id ≡ some edit.source_id
  pub reference : t.source_reference ≡ edit.source_reference
  pub proposal : t.proposed_action_id ≡ some action.id

task_of-IsTaskOf :
    (id owner : ℕ) (action : ProposedAction) (edit : TaskProposalEdit)
    → IsTaskOf owner action edit (task_of id owner action edit edit.project_id edit.source_id)
task_of-IsTaskOf id owner action edit = record {
  user = refl;
  project = refl;
  title = refl;
  description = refl;
  due_date = refl;
  estimate = refl;
  priority = refl;
  status = refl;
  source = refl;
  reference = refl;
  proposal = refl;
}

-- One new task, made of the accepted proposal, whose project and source are the owner's and belong
-- together.
pub record IsCreated (owner : ℕ) (action : ProposedAction) (edit : TaskProposalEdit) (s : Session)
    (r : TaskExecutionResult) (s' : Session) : Type 0 where
  pub in_project : any (is_project edit.project_id owner) s.working.projects ≡ true
  pub origin : ProjectSource
  pub known : find (is_source edit.source_id owner) s.working.sources ≡ some origin
  pub same_project : origin.project_workspace_id ≡ edit.project_id
  pub task : ProjectTask
  pub made_of : IsTaskOf owner action edit task
  pub returned : task.id ≡ r.task_id
  pub stored : s'.committed.tasks ≡ s.working.tasks ++ task ∷ []
  pub new : r.duplicate ≡ false

find-any :
    {A : Type 0} (test : A → Bool) (xs : List A) (a : A)
    → find test xs ≡ some a
    → any test xs ≡ true
find-any test [] a h = cc
find-any test (x ∷ xs) a h = ground (arith, find-any test xs a)

-- A successful creation commits one new task at the end of the tasks and returns its id. The task
-- has the accepted proposal's title, description, due date, estimate, priority and reference, is
-- "TODO", names the proposed action, and lies in the owner's project, from the owner's source in
-- that project.
pub create_task-IsCreated :
    (run_id owner : ℕ) (action : ProposedAction) (edit : TaskProposalEdit) (s s' : Session)
    (r : TaskExecutionResult)
    → create_task run_id owner action edit s ≡ (ok r, s')
    → IsCreated owner action edit s r s'
unfolding create_task project source uuid4 add_task ◌>>=◌
create_task-IsCreated run_id owner action edit s s' r h =
    elim (Option-cases (find (is_project edit.project_id owner) s.working.projects)) [
      | inl missing ↦ absurd (ground arith)
      | inr (p, found) ↦
          elim (Option-cases (find (is_source edit.source_id owner) s.working.sources)) [
            | inl missing ↦ absurd (ground arith)
            | inr (origin, known) ↦ elim (Bool-cases (origin.project_workspace_id == p.id)) [
              | inr elsewhere ↦ absurd (ground arith)
              | inl here ↦
                  let t = task_of s.uuids owner action edit p.id origin.id in
                  elim (Bool-cases (any (clashes t) s.working.tasks)) [
                    | inl taken ↦ absurd (ground arith)
                    | inr fresh ↦
                        let with_new : List ProjectTask = s.working.tasks ++ t ∷ [] in
                        let s4 : Session = record s {
                          uuids = suc s.uuids;
                          working = record s.working { tasks = with_new };
                        } in
                        let run : conclude_task run_id owner action s.uuids origin.id s4
                            ≡ (ok r, s') =
                          rw (found, known, here, fresh) at h in
                        let done =
                          (conclude_task-Committed with_new run_id owner action s.uuids
                              origin.id).at
                            s4 s' r refl run in
                        let p_holds =
                          find-holds (is_project edit.project_id owner) s.working.projects found in
                        let o_holds =
                          find-holds (is_source edit.source_id owner) s.working.sources known in
                        let p_id : p.id ≡ edit.project_id = ground arith in
                        let o_id : origin.id ≡ edit.source_id = ground arith in
                        let in_p : origin.project_workspace_id ≡ p.id = ground arith in
                        record {
                          in_project =
                              find-any (is_project edit.project_id owner) s.working.projects p
                                found;
                          origin = origin;
                          known = known;
                          same_project = in_p ∙ p_id;
                          task = task_of r.task_id owner action edit edit.project_id edit.source_id;
                          made_of = task_of-IsTaskOf r.task_id owner action edit;
                          returned = refl;
                          stored = rw (ap (λ x. x.task_id) done.1, sym p_id, sym o_id) done.0;
                          new = ap (λ x. x.duplicate) done.1;
                        }
                  ]
            ]
          ]
    ]
