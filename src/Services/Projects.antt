-- ===== src/Services/Projects.antt =====
-- backend/app/services/projects.py: a user's projects. The deletions of `delete`
-- are composed in its order; the answers are the rows themselves.
pub mod Members
pub mod Integrity
mod Kept
pub mod Deletion
use relay.Prelude.{
  ℕ, Bool, true, false, Option, none, some, List, [], ◌∷◌, ◌++◌, String, map, keep, find, any, not,
  ◌==◌, ◌&&◌, ◌||◌, str_eq, if◌then◌else◌,
}
use relay.Domain.Errors.{project_not_found}
use relay.Json.{Json}
use relay.Store.{
  Key, same_key, WorkflowRun, ProposedAction, AuditEvent, LocalExecution, Space, ProjectWorkspace,
  ProjectMember, Database, uuid,
}
use relay.Session.{
  Exec, pure, gets, or_raise, raise_if, modify, commit, uuid4, record_own_event, ◌>>=◌, ◌>>◌,
}
use relay.Repository.Content.{project, is_some_of}
use relay.Services.Workflows.{contains, is_empty}

pub record ProjectInput : Type 0 where
  pub name : String
  pub space : Space
  pub description : Option String
  pub deadline : Option ℕ
  pub course : Option String
  pub notion_database_id : Option String
  pub notion_property_mapping : Option Json
  pub github_repository_owner : Option String
  pub github_repository_name : Option String

abbrev pub project_of : ℕ → ℕ → ProjectInput → ProjectWorkspace
project_of id owner input = record {
  id = id;
  user_id = owner;
  name = input.name;
  space = input.space;
  description = input.description;
  deadline = input.deadline;
  course = input.course;
  notion_database_id = input.notion_database_id;
  notion_property_mapping = input.notion_property_mapping;
  github_repository_owner = input.github_repository_owner;
  github_repository_name = input.github_repository_name;
}

abbrev pub newest_first : List ProjectWorkspace → List ProjectWorkspace
newest_first [] = []
newest_first (p ∷ ps) = newest_first ps ++ p ∷ []

-- `list_projects`
unfoldable pub list_projects : ℕ → Exec (List ProjectWorkspace)
list_projects owner =
    gets (λ db. newest_first (keep (λ (p : ProjectWorkspace). p.user_id == owner) db.projects))

-- `create`
unfoldable pub create : ℕ → ProjectInput → Exec ProjectWorkspace
create owner input = do
  id ← uuid4
  modify (λ db. record db { projects = db.projects ++ project_of id owner input ∷ [] })
  record_own_event owner "PROJECT_CREATED" (("project_id", uuid id) ∷ [])
  commit
  pure (project_of id owner input)

-- `update`
unfoldable pub update : ℕ → ℕ → ProjectInput → Exec ProjectWorkspace
update owner project_id input = do
  p ← project project_id owner
  modify (λ db. record db {
    projects = map (λ q. if q.id == p.id then project_of p.id p.user_id input else q) db.projects;
  })
  record_own_event owner "PROJECT_UPDATED" (("project_id", uuid p.id) ∷ [])
  commit
  pure (project_of p.id p.user_id input)

-- `LIKE '%:run_id:%'`: an id that is followed by another part of the key.
abbrev pub mentions : ℕ → List ℕ → String → Bool
mentions id [] suffix = false
mentions id (part ∷ []) suffix = (part == id) && not (str_eq suffix "")
mentions id (part ∷ next ∷ rest) suffix = (part == id) || mentions id (next ∷ rest) suffix

abbrev pub key_of : String → ℕ → Key
key_of prefix id = record { prefix = prefix; parts = id ∷ []; suffix = "" }

-- `or_(*execution_keys)`
abbrev pub is_execution_of : List ℕ → List ℕ → LocalExecution → Bool
is_execution_of run_ids action_ids e =
    any (λ id. mentions id e.idempotency_key.parts e.idempotency_key.suffix) run_ids
    || any (λ id. same_key e.idempotency_key (key_of "plan" id)) run_ids
    || any (λ id. same_key e.idempotency_key (key_of "source-task" id)) action_ids

abbrev pub has_run_of : List ℕ → Option ℕ → Bool
has_run_of run_ids none = false
has_run_of run_ids (some id) = contains run_ids id

-- The branch `if run_ids:`.
unfoldable pub delete_runs : List ℕ → List ℕ → Database → Database
delete_runs run_ids action_ids db = record db {
  approvals = keep (λ a. not (contains run_ids a.workflow_run_id)) db.approvals;
  artifacts = keep (λ a. not (contains run_ids a.workflow_run_id)) db.artifacts;
  actions = keep (λ a. not (contains run_ids a.workflow_run_id)) db.actions;
  documents = keep (λ d. not (contains run_ids d.workflow_run_id)) db.documents;
  audit = keep (λ e. not (has_run_of run_ids e.workflow_run_id)) db.audit;
  executions = keep (λ e. not (is_execution_of run_ids action_ids e)) db.executions;
  runs = keep (λ r. not (contains run_ids r.id)) db.runs;
}

abbrev pub runs_of : ℕ → Database → List ℕ
runs_of project_id db =
    map (λ r. r.id)
      (keep (λ (r : WorkflowRun). is_some_of project_id r.project_workspace_id) db.runs)

abbrev pub actions_of_runs : List ℕ → Database → List ℕ
actions_of_runs run_ids db =
    map (λ a. a.id) (keep (λ (a : ProposedAction). contains run_ids a.workflow_run_id) db.actions)

abbrev pub delete_tasks : ℕ → Database → Database
delete_tasks id db = record db { tasks = keep (λ t. not (t.project_workspace_id == id)) db.tasks }

-- The sources, the members and the project itself.
abbrev pub delete_rest : ℕ → Database → Database
delete_rest id db = record db {
  sources = keep (λ x. not (x.project_workspace_id == id)) db.sources;
  members = keep (λ x. not (x.project_workspace_id == id)) db.members;
  projects = keep (λ p. not (p.id == id)) db.projects;
}

unfoldable pub delete_project : ℕ → Database → Database
unfolding delete_runs
delete_project id db =
    let run_ids = runs_of id db in
    let action_ids = actions_of_runs run_ids db in
    let cleared = delete_tasks id db in
    delete_rest id (if is_empty run_ids then cleared else delete_runs run_ids action_ids cleared)

-- `delete`
unfoldable pub delete : ℕ → ℕ → Exec Unit
unfolding delete_project
delete owner project_id = do
  p ← project project_id owner
  modify (delete_project p.id)
  record_own_event owner "PROJECT_DELETED" (("project_id", uuid project_id) ∷ [])
  commit
