-- ===== src/Repository/Content.antt =====
-- backend/app/repositories/relay.py: the queries on projects, their members, sources and tasks.
use relay.Prelude.{
  ℕ, Bool, Option, none, some, List, [], ◌∷◌, ◌++◌, map, keep, find, any, not, ◌==◌, ◌&&◌,
  if◌then◌else◌,
}
use relay.Domain.Errors.{project_not_found, source_not_found, other_exception}
use relay.Store.{ProjectWorkspace, ProjectSource, ProjectTask, Database}
use relay.Session.{Exec, gets, or_raise, raise_if, modify, ◌>>=◌, ◌>>◌}

-- `RelayRepository.project`
unfoldable pub project : ℕ → ℕ → Exec ProjectWorkspace
unfolding ◌>>=◌
project project_id owner = do
  found ← gets (λ db. find (λ p. (p.id == project_id) && (p.user_id == owner)) db.projects)
  or_raise found project_not_found

-- `RelayRepository.source`
unfoldable pub source : ℕ → ℕ → Exec ProjectSource
unfolding ◌>>=◌
source source_id owner = do
  found ← gets (λ db. find (λ p. (p.id == source_id) && (p.user_id == owner)) db.sources)
  or_raise found source_not_found

abbrev pub owns_task : ℕ → ℕ → ProjectTask → Bool
owns_task project_id owner t = (t.project_workspace_id == project_id) && (t.user_id == owner)

-- `RelayRepository.tasks`, in the order of creation.
unfoldable pub tasks : ℕ → ℕ → Exec (List ProjectTask)
unfolding ◌>>=◌
tasks project_id owner = do
  project project_id owner
  gets (λ db. keep (owns_task project_id owner) db.tasks)

-- `RelayRepository.task`
unfoldable pub task : ℕ → ℕ → ℕ → Exec ProjectTask
unfolding ◌>>=◌
task project_id task_id owner = do
  project project_id owner
  found ← gets (λ db. find (λ t. (t.id == task_id) && owns_task project_id owner t) db.tasks)
  or_raise found project_not_found

abbrev pub is_some_of : ℕ → Option ℕ → Bool
is_some_of id none = Bool.false
is_some_of id (some other) = other == id

-- The task that an action has created.
abbrev pub created_by : ℕ → Database → Option ProjectTask
created_by action_id db = find (λ t. is_some_of action_id t.proposed_action_id) db.tasks

abbrev pub clashes : ProjectTask → ProjectTask → Bool
clashes a b = elim a.proposed_action_id [
  | none ↦ Bool.false
  | some action_id ↦ is_some_of action_id b.proposed_action_id
]

-- `session.add(task)` and `flush`, with the unique constraint of the table.
unfoldable pub add_task : ProjectTask → Exec Unit
unfolding ◌>>=◌
add_task t = do
  taken ← gets (λ db. any (clashes t) db.tasks)
  raise_if taken other_exception
  modify (λ db. record db { tasks = db.tasks ++ t ∷ [] })

unfoldable pub set_task : ℕ → (ProjectTask → ProjectTask) → Exec Unit
unfolding ◌>>=◌
set_task id f =
    modify (λ db. record db { tasks = map (λ t. if t.id == id then f t else t) db.tasks })

-- `session.delete(task)`
unfoldable pub delete_task : ℕ → Exec Unit
unfolding ◌>>=◌
delete_task id = modify (λ db. record db { tasks = keep (λ t. not (t.id == id)) db.tasks })
