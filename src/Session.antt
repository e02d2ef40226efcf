-- ===== src/Session.antt =====
-- A request's `AsyncSession` (backend/app/db/session.py): what is committed, what this transaction
-- sees, the process-wide watermark of backend/app/services/audit.py, the clock and the supply of
-- UUIDs. A service method is an action that returns or raises; what it wrote before raising stays
-- in the session, and is lost when the session is closed.
pub mod Keeps
pub mod Runs
pub mod Leads
use relay.Prelude.{
  ℕ, suc, ◌+◌, Bool, true, false, Option, none, some, List, [], ◌∷◌, ◌++◌, String, map, keep, find,
  leb, ◌==◌, ◌&&◌, if◌then◌else◌,
}
use relay.Domain.Enums.{ActionStatus, ApprovalStatus, is_approval}
use relay.Domain.Errors.{
  DomainError, Result, ok, err, workflow_not_found, approval_not_found, approval_already_resolved,
  other_exception,
}
use relay.Store.{Database, WorkflowRun, ProposedAction, ApprovalRequest, AuditEvent, Metadata}

pub record Session : Type 0 where
  pub committed : Database
  pub working : Database
  pub last_recorded_at : Option ℕ
  pub times : ℕ → ℕ
  pub ticks : ℕ
  pub uuids : ℕ

abbrev pub Exec : Type 0 → Type 0
Exec A = Session → Result A × Session

module _ {A : Type 0} where
  pub pure : A → Exec A
  pure a s = (ok a, s)

  pub raise : DomainError → Exec A
  raise e s = (err e, s)

  pub lift : Result A → Exec A
  lift r s = (r, s)

  -- A query, which sees what the transaction has written.
  pub gets : (Database → A) → Exec A
  gets f s = (ok (f s.working), s)

  -- `if item is None: raise e`
  pub or_raise : Option A → DomainError → Exec A
  or_raise none e s = (err e, s)
  or_raise (some a) e s = (ok a, s)

-- `if bad: raise e`
unfoldable pub raise_if : Bool → DomainError → Exec Unit
raise_if true e s = (err e, s)
raise_if false e s = (ok tt, s)

unfoldable pub modify : (Database → Database) → Exec Unit
modify f s = (ok tt, record s { working = f s.working })

-- `session.commit()`
unfoldable pub commit : Exec Unit
commit s = (ok tt, record s { committed = s.working })

-- `session.rollback()`
unfoldable pub rollback : Exec Unit
rollback s = (ok tt, record s { working = s.committed })

-- `datetime.now(UTC)`
unfoldable pub now : Exec ℕ
now s = (ok (s.times s.ticks), record s { ticks = suc s.ticks })

-- `uuid4()`
unfoldable pub uuid4 : Exec ℕ
uuid4 s = (ok s.uuids, record s { uuids = suc s.uuids })

module _ {A B : Type 0} where
  abbrev pub continue : Result A → (A → Exec B) → Exec B
  continue (ok a) f s = f a s
  continue (err e) f s = (err e, s)

  infixl 10 ◌>>=◌ ◌>>◌
  unfoldable pub ◌>>=◌ : Exec A → (A → Exec B) → Exec B
  unfolding pure raise lift gets or_raise raise_if modify commit rollback now uuid4
  ◌>>=◌ start next before = let (outcome, after) = start before in continue outcome next after

  abbrev pub ◌>>◌ : Exec A → Exec B → Exec B
  m >> n = m >>= λ _. n

-- `try: m except`: the body's result, for the handler to look at.
unfoldable pub attempt : {A : Type 0} → Exec A → Exec (Result A)
attempt m s = let (r, s') = m s in (ok r, s')

-- `async with factory() as session`: the request's method runs, and what it did not commit is gone.
unfoldable pub request : {A : Type 0} → Exec A → Exec A
request m s = let (r, s') = m s in (r, record s' { working = s'.committed })

-- backend/app/services/audit.py: the instant of an event is later than that of the one before.
abbrev pub next_instant : Option ℕ → ℕ → ℕ
next_instant none instant = instant
next_instant (some last) instant = if leb instant last then last + 1 else instant

unfoldable pub append_event : ℕ → String → Option ℕ → List (String × Metadata) → ℕ → Exec Unit
append_event owner event_type run_id metadata instant s =
    let at = next_instant s.last_recorded_at instant in
    (
      ok tt,
      record s {
        last_recorded_at = some at;
        working = record s.working {
          audit =
              s.working.audit
              ++ record {
                user_id = owner;
                workflow_run_id = run_id;
                event_type = event_type;
                event_metadata = metadata;
                created_at = at;
              }
                ∷ [];
        };
      },
    )

-- `record` of audit.py
unfoldable pub record_event : ℕ → String → ℕ → List (String × Metadata) → Exec Unit
unfolding append_event ◌>>=◌
record_event owner event_type run_id metadata = do
  instant ← now
  append_event owner event_type (some run_id) metadata instant

-- `record` where the event belongs to no run.
unfoldable pub record_own_event : ℕ → String → List (String × Metadata) → Exec Unit
unfolding append_event ◌>>=◌
record_own_event owner event_type metadata = do
  instant ← now
  append_event owner event_type none metadata instant
