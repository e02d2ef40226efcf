-- ===== src/Lib.antt =====
-- Relay's backend (backend/app): workflow runs whose actions wait for an approval, are executed by
-- a runtime and end in a committed status, the projects, sources and tasks of a user, and the
-- scheduler of study plans.
--
-- The parts and their files:
-- - Prelude: names of the libraries and helpers on lists, tests and integers.
-- - Domain: domain/enums.py, domain/errors.py and domain/workflows.py; `transition` is the table of
--   transitions, and Domain/Workflows/Lifecycle speaks of whole histories.
-- - Json: payloads and `exact_json` of services/approvals.py; Json/Canonical.
-- - Store, Session, Repository: the rows of models/entities.py, the transaction of db/session.py
--   with the audit log of services/audit.py, and repositories/relay.py with models/guards.py. A
--   service method is an action `Exec A`: from a session to a result or an error, and a session.
--   Session/Keeps, Session/Runs and Session/Leads reason about actions.
-- - Services/Workflows and Services/Approvals: services/workflows.py and services/approvals.py.
--   `resolve` calls `apply_transition`, whose gate reads the actions and the requests.
-- - Runtime: runtime/client.py, state.py, recovery.py and sync.py (Client), http.py (Http) and
--   local.py (Local). The services take a `RuntimeClient` as a parameter.
-- - Services/Execution (services/execution.py), Services/StudyPlan
--   (workflows/study_plan/execution.py), Services/Collaborate (the conclusion in
--   workflows/project_meeting/execution.py), Services/Cancellation (services/runtime_execution.py).
-- - Services/Connections and Services/Projects: services/connections.py and services/projects.py.
-- - Sources: sources/service.py with sources/dedupe.py. Capture turns a source into proposals, each
--   a run with one action and one request; Proposals edits and accepts them; Execution makes a task
--   of an accepted one. Analysis (sources/analysis.py and sources/dates.py) is what the service
--   calls, with the model that it is given; Capture takes it as a parameter.
-- - Scheduling: scheduling/solver.py, a module for each step of `solve`: Windows (study hours),
--   Slots (free time), Sessions (cutting), Candidates, Overlap, and Solver, which builds the model
--   as data, passes it to CP-SAT, a parameter, and reads the answer (Solver/Report). Problem holds
--   the records of models.py and objectives.py, Constraints is constraints.py.
-- - Projects/Identity: workflows/project_meeting/identity.py.
-- - Examples: sample sessions and values, at which the theorems are applied.
--
-- Bounds and fuel: the loop of `decompose_minutes` has one step more than there are minutes, which
-- is enough when a session has at least a minute; where it has none the result is `none`, for the
-- loop of the source does not end. The loop over the starts in a window has fuel above the
-- window's end, for a step is not 0 and a start outside the window ends it. Printing a number has
-- fuel above its digits. Polling counts down the attempts of the settings. Instants are natural
-- numbers of microseconds, and Python's integers have no width. Chunks of minutes are integers,
-- for the source may make them negative.
--
-- Not modelled: transactions that interleave (the row lock orders them; the commit inside an
-- execution is one step of the same session); columns that no modelled code reads, the connected
-- accounts of artifacts among them, with what storing a calendar event's artifact may raise (an
-- index past the plan's events, a malformed id of an account, the second unique constraint);
-- numbers in payloads that are negative or no integers; messages
-- of errors; zones whose offset is no multiple of a slot, and windows in which it changes; the
-- solver CP-SAT, the connectors, the encryption of tokens, the similarity of texts, the matches of
-- regular expressions and pydantic,
-- which are parameters; the loop that submits the actions of a COLLABORATE run; the reset of a
-- profile; routes, authentication, documents and language models.
pub mod Prelude
pub mod Json
pub mod Store
pub mod Session
pub mod Repository
pub mod Runtime
pub mod Services
pub mod Sources
pub mod Scheduling
pub mod Projects
pub mod Domain
pub mod Examples
