-- ===== src/Runtime/Client/Polling.antt =====
-- What polling (backend/app/runtime/sync.py) ends with.
use relay.Prelude.{ℕ, zero, suc, ◌≡◌, refl, true, false, inl, inr, Bool-cases}
use relay.Domain.Errors.{
  DomainError, Result, ok, err, runtime_request_timeout, runtime_unavailable,
  runtime_execution_not_found,
}
use relay.Store.{ExecutionSnapshot}
use relay.Session.{Session, attempt, ◌>>=◌}
use relay.Runtime.Client.{
  RuntimeClient, runtime_status_is_terminal, stops_polling, poll_next, poll_until_terminal,
}

-- The errors that stand for a runtime that does not answer for the execution.
pub data IsOutOfReach : DomainError → Type 0 where
  timeout : IsOutOfReach runtime_request_timeout
  unavailable : IsOutOfReach runtime_unavailable
  not_found : IsOutOfReach runtime_execution_not_found

module _ (runtime : RuntimeClient) where
  -- `Polled n current s result s'`: after at most `n` requests from `current` on, each of which
  -- answers with the snapshot that is asked for next, polling stops with `result`.
  pub data Polled
      : ℕ → ExecutionSnapshot → Session → Result ExecutionSnapshot → Session → Type 0 where
    exhausted : (current : ExecutionSnapshot) (s : Session) → Polled 0 current s (ok current) s
    terminal :
        (n : ℕ) (current : ExecutionSnapshot) (s : Session)
        → runtime_status_is_terminal current.status ≡ true
        → Polled n current s (ok current) s
    out_of_reach :
        (n : ℕ) (current : ExecutionSnapshot) (s s' : Session) (e : DomainError)
        → runtime_status_is_terminal current.status ≡ false
        → runtime.get_execution current.execution_id s ≡ (err e, s')
        → IsOutOfReach e
        → Polled (suc n) current s (ok current) s'
    refused :
        (n : ℕ) (current : ExecutionSnapshot) (s s' : Session) (e : DomainError)
        → runtime_status_is_terminal current.status ≡ false
        → runtime.get_execution current.execution_id s ≡ (err e, s')
        → (IsOutOfReach e → ⊥)
        → Polled (suc n) current s (err e) s'
    answered :
        (n : ℕ) (current fetched : ExecutionSnapshot) (s s₁ s' : Session)
        (result : Result ExecutionSnapshot)
        → runtime_status_is_terminal current.status ≡ false
        → runtime.get_execution current.execution_id s ≡ (ok fetched, s₁)
        → Polled n fetched s₁ result s'
        → Polled (suc n) current s result s'

stops-IsOutOfReach : (e : DomainError) → stops_polling e ≡ true → IsOutOfReach e
unfolding stops_polling
stops-IsOutOfReach runtime_request_timeout h = timeout
stops-IsOutOfReach runtime_unavailable h = unavailable
stops-IsOutOfReach runtime_execution_not_found h = not_found
stops-IsOutOfReach _ h = absurd (cc)

IsOutOfReach-stops : (e : DomainError) → IsOutOfReach e → stops_polling e ≡ true
unfolding stops_polling
IsOutOfReach-stops e timeout = refl
IsOutOfReach-stops e unavailable = refl
IsOutOfReach-stops e not_found = refl

module _ (runtime : RuntimeClient) where
  -- One request and what follows its answer.
  asked :
      (n : ℕ) (current : ExecutionSnapshot) (s s₁ : Session) (answer : Result ExecutionSnapshot)
      → runtime_status_is_terminal current.status ≡ false
      → runtime.get_execution current.execution_id s ≡ (answer, s₁)
      → ((fetched : ExecutionSnapshot)
          → Polled runtime n fetched s₁
              (poll_until_terminal runtime n fetched s₁).0
              (poll_until_terminal runtime n fetched s₁).1)
      → Polled runtime
          (suc n)
          current
          s
          (poll_next (poll_until_terminal runtime n) current answer s₁).0
          (poll_next (poll_until_terminal runtime n) current answer s₁).1
  unfolding poll_next ◌>>=◌
  asked n current s s₁ (ok fetched) more e again =
      answered n current fetched s s₁ _ _ more e (again fetched)
  asked n current s s₁ (err x) more e again = elim (Bool-cases (stops_polling x)) [
    | inl stops ↦ rw stops (out_of_reach n current s s₁ x more e (stops-IsOutOfReach x stops))
    | inr raises ↦ rw raises (
        refused n current s s₁ x more e
          (λ far. let stops = IsOutOfReach-stops x far in absurd (cc)))
  ]

  -- Polling always ends, and as follows. Whatever the runtime answers, it is asked for one snapshot
  -- after another, at most `attempts` times. The last snapshot that came back is returned if it is
  -- terminal, if the attempts are used up, or if the next request raises one of the three errors of
  -- a runtime out of reach (RuntimeRequestTimeout, RuntimeUnavailable, RuntimeExecutionNotFound);
  -- any other error of a request is raised.
  pub poll_until_terminal-Polled :
      (attempts : ℕ) (current : ExecutionSnapshot) (s : Session)
      → Polled runtime attempts current s
          (poll_until_terminal runtime attempts current s).0
          (poll_until_terminal runtime attempts current s).1
  unfolding poll_until_terminal attempt ◌>>=◌
  poll_until_terminal-Polled zero current s = exhausted current s
  poll_until_terminal-Polled (suc n) current s =
      elim (Bool-cases (runtime_status_is_terminal current.status)) [
        | inl done ↦ rw done (terminal (suc n) current s done)
        | inr more ↦
            let asked_now = runtime.get_execution current.execution_id s in
            rw more (
              asked n current s asked_now.1 asked_now.0 more refl
                (λ fetched. poll_until_terminal-Polled n fetched asked_now.1))
      ]
