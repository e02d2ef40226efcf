-- ===== src/Runtime/Local.antt =====
-- `LocalRuntimeClient` of backend/app/runtime/local.py: synchronous execution inside the request's
-- transaction. The connectors (calls of Notion, Google Calendar and GitHub) and the validations of
-- pydantic that precede the calls are parameters; a connector may be missing.
pub mod Replay
use relay.Prelude.{
  ℕ, suc, Bool, true, false, Option, none, some, List, [], ◌∷◌, ◌++◌, String, find, any, not, ◌&&◌,
  ◌||◌, str_eq, ◌==◌, if◌then◌else◌,
}
use relay.Domain.Enums.{ExecutionStatus}
use relay.Domain.Errors.{
  Result, ok, err, code, approval_payload_mismatch, unauthorized_resource_access, other_exception,
}
use relay.Json.{Json, Items, Fields, equal_values}
use relay.Store.{Key, same_key, ExecutionSnapshot, LocalExecution}
use relay.Session.{
  Exec, pure, raise, lift, gets, or_raise, raise_if, modify, uuid4, attempt, ◌>>=◌, ◌>>◌,
}
use relay.Runtime.Client.{ExecutionRequest}

-- An event of a validated study plan.
pub record PlannedEvent : Type 0 where
  pub task_id : String
  pub event : Json

pub record Connectors : Type 0 where
  pub notion : Option (String → Json → Key → Exec Json)
  pub calendar : Option (Json → Key → Exec Json)
  pub github : Option (String → Json → Key → Exec Json)
  pub validate_plan : Json → Result (List PlannedEvent)
  -- the ids of the project and of the source of a validated task
  pub validate_task : Json → Result (String × String)

-- What the execution puts in the snapshot.
pub record Performed : Type 0 where
  pub status : ExecutionStatus
  pub result : Option Json
  pub error_code : Option String

abbrev pub succeeded : Json → Performed
succeeded value = record {
  status = ExecutionStatus.succeeded;
  result = some value;
  error_code = none;
}

-- The blocks of a plan, created one by one: what was created, what failed, the first error.
pub record Blocks : Type 0 where
  pub created : Items
  pub failed : Items
  pub first_error_code : Option String

unfoldable pub add_block : ℕ → String → Result Json → Blocks → Blocks
add_block index task_id (ok event) rest = record rest {
  created =
      Items.cons
        (Json.obj (
          Fields.field "index" (Json.num index)
            (Fields.field "task_id" (Json.str task_id) (Fields.field "event" event Fields.end))))
        rest.created;
}
add_block index task_id (err e) rest = record rest {
  failed =
      Items.cons
        (Json.obj (
          Fields.field "index" (Json.num index) (
            Fields.field "task_id" (Json.str task_id)
              (Fields.field "error_code" (Json.str (code e)) Fields.end))))
        rest.failed;
  first_error_code = some (code e);
}

unfoldable pub create_blocks : (Json → Key → Exec Json) → Key → ℕ → List PlannedEvent → Exec Blocks
unfolding add_block
create_blocks create k index [] =
    pure (record { created = Items.nil; failed = Items.nil; first_error_code = none })
create_blocks create k index (event ∷ events) = do
  outcome ← attempt (create event.event (record k { parts = k.parts ++ index ∷ [] }))
  rest ← create_blocks create k (suc index) events
  pure (add_block index event.task_id outcome rest)

abbrev pub is_nil : Items → Bool
is_nil Items.nil = true
is_nil (Items.cons item items) = false

unfoldable pub plan_outcome : Blocks → Performed
plan_outcome blocks = record {
  status =
      if is_nil blocks.failed
      then ExecutionStatus.succeeded
      else if not (is_nil blocks.created)
      then ExecutionStatus.partial
      else ExecutionStatus.failed;
  result = some (
      Json.obj (
        Fields.field "created" (Json.arr blocks.created)
          (Fields.field "failed" (Json.arr blocks.failed) Fields.end)));
  error_code = if is_nil blocks.failed then none else blocks.first_error_code;
}

abbrev pub task_outcome : String × String → Json
task_outcome ids = Json.obj (
    Fields.field "accepted" (Json.bool true) (
      Fields.field "project_id" (Json.str ids.0)
        (Fields.field "source_id" (Json.str ids.1) Fields.end)))

-- `except Exception`, after which the execution is FAILED with the error's code.
unfoldable pub caught : ℕ → Result Performed → ExecutionSnapshot
caught id (ok p) = record {
  execution_id = id;
  status = p.status;
  result = p.result;
  error_code = p.error_code;
}
caught id (err e) = record {
  execution_id = id;
  status = ExecutionStatus.failed;
  result = none;
  error_code = some (code e);
}

abbrev pub executed_as : Key → LocalExecution → Bool
executed_as k execution = same_key execution.idempotency_key k

-- `session.add` and `flush`, with the constraint that the key is unique.
unfoldable pub add_execution : LocalExecution → Exec Unit
add_execution execution = do
  taken ← gets (λ db. any (executed_as execution.idempotency_key) db.executions)
  raise_if taken other_exception
  modify (λ db. record db { executions = db.executions ++ execution ∷ [] })

-- The payloads are compared as exact JSON.
unfoldable pub replay : ExecutionRequest → LocalExecution → Exec ExecutionSnapshot
replay request existing = do
  raise_if
      (not (equal_values existing.request_payload request.approved_payload)
        || not (str_eq existing.operation request.action_type))
      approval_payload_mismatch
  pure existing.snapshot

module _ (connectors : Connectors) where
  -- The body of the `try`, which dispatches on the operation.
  unfoldable pub perform : ExecutionRequest → Exec Performed
  unfolding create_blocks plan_outcome
  perform request =
      if str_eq request.action_type "create_notion_study_page"
        || str_eq request.action_type "create_notion_task"
        || str_eq request.action_type "publish_notion_project"
      then (do
        connector ← or_raise connectors.notion other_exception
        value ← connector request.action_type request.approved_payload request.idempotency_key
        pure (succeeded value))
      else if str_eq request.action_type "create_google_calendar_study_blocks"
      then (do
        connector ← or_raise connectors.calendar other_exception
        events ← lift (connectors.validate_plan request.approved_payload)
        blocks ← create_blocks connector request.idempotency_key 0 events
        pure (plan_outcome blocks))
      else if str_eq request.action_type "create_github_issue"
          || str_eq request.action_type "request_github_pr_review"
      then (do
        connector ← or_raise connectors.github other_exception
        value ← connector request.action_type request.approved_payload request.idempotency_key
        pure (succeeded value))
      else if str_eq request.action_type "create_relay_task"
      then (do
        ids ← lift (connectors.validate_task request.approved_payload)
        pure (succeeded (task_outcome ids)))
      else raise other_exception

  unfoldable pub run_once : ExecutionRequest → Exec ExecutionSnapshot
  unfolding perform
  run_once request = do
    id ← uuid4
    outcome ← attempt (perform request)
    add_execution (record {
      id = id;
      idempotency_key = request.idempotency_key;
      operation = request.action_type;
      request_payload = request.approved_payload;
      snapshot = caught id outcome;
    })
    pure (caught id outcome)

  unfoldable pub submit_found : ExecutionRequest → Option LocalExecution → Exec ExecutionSnapshot
  unfolding run_once
  submit_found request none = run_once request
  submit_found request (some existing) = replay request existing

  -- `LocalRuntimeClient.submit_execution`
  unfoldable pub submit_execution : ExecutionRequest → Exec ExecutionSnapshot
  unfolding submit_found
  submit_execution request = do
    existing ← gets (λ db. find (executed_as request.idempotency_key) db.executions)
    submit_found request existing

  -- `LocalRuntimeClient.get_execution`, which `cancel_execution` calls
  unfoldable pub get_execution : ℕ → Exec ExecutionSnapshot
  get_execution execution_id = do
    found ← gets (λ db. find (λ (x : LocalExecution). x.id == execution_id) db.executions)
    execution ← or_raise found unauthorized_resource_access
    pure execution.snapshot
