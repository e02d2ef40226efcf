-- ===== src/Runtime/Http.antt =====
-- `AgentRuntimeHttpClient._request` of backend/app/runtime/http.py: what Relay makes of the outcome
-- of an HTTP call. The call itself (httpx) and the decoding of the body (its JSON, read as the
-- fields of an `ExecutionSnapshot`) are an outcome that is given.
use relay.Prelude.{
  ℕ, ◌≡◌, refl, Bool, true, false, ◌||◌, ◌&&◌, Option, none, some, String, ◌==◌, leb, str_eq,
  if◌then◌else◌, arith,
}
use relay.Domain.Enums.{ExecutionStatus, is_execution}
use relay.Domain.Errors.{
  Result, ok, err, runtime_request_timeout, runtime_unavailable, runtime_unauthorized,
  runtime_execution_not_found, runtime_rate_limited, runtime_cancellation_failed,
  runtime_execution_failed, runtime_malformed_response,
}
use relay.Store.{ExecutionSnapshot}
use relay.Runtime.Client.{is_recoverable}

-- What the call of httpx ends in.
pub data Outcome : Type 0 where
  timeout transport_error : Outcome
  response : (status_code : ℕ) (body : Option ExecutionSnapshot) → Outcome

-- `not self.error_code`
unfoldable pub lacks_error : Option String → Bool
lacks_error none = true
lacks_error (some c) = str_eq c ""

-- `failed_status_has_error` of client.py, which runs when a snapshot is validated.
unfoldable pub failed_status_has_error : ExecutionSnapshot → ExecutionSnapshot
failed_status_has_error snapshot =
    if is_execution snapshot.status ExecutionStatus.failed && lacks_error snapshot.error_code
    then record snapshot { error_code = some "RUNTIME_EXECUTION_FAILED" }
    else snapshot

unfoldable pub decode : Option ExecutionSnapshot → Result ExecutionSnapshot
decode none = err runtime_malformed_response
decode (some body) =
    let snapshot = failed_status_has_error body in
    if is_execution snapshot.status ExecutionStatus.failed && lacks_error snapshot.error_code
    then err runtime_malformed_response
    else ok snapshot

unfoldable pub interpret : Bool → Outcome → Result ExecutionSnapshot
interpret cancelling timeout = err runtime_request_timeout
interpret cancelling transport_error = err runtime_unavailable
interpret cancelling (response status_code body) =
    if (status_code == 401) || (status_code == 403)
    then err runtime_unauthorized
    else if status_code == 404
    then err runtime_execution_not_found
    else if status_code == 429
    then err runtime_rate_limited
    else if leb 500 status_code
    then err runtime_unavailable
    else if leb 400 status_code
    then (if cancelling then err runtime_cancellation_failed else err runtime_execution_failed)
    else decode body

-- A snapshot of a failed execution that is handed on names an error.
interpret-failed :
    (cancelling : Bool) (outcome : Outcome) (snapshot : ExecutionSnapshot)
    → interpret cancelling outcome ≡ ok snapshot
    → snapshot.status ≡ ExecutionStatus.failed
    → lacks_error snapshot.error_code ≡ false
unfolding interpret decode
interpret-failed cancelling timeout snapshot h failed = cc
interpret-failed cancelling transport_error snapshot h failed = cc
interpret-failed cancelling (response status_code none) snapshot h failed = ground arith
interpret-failed cancelling (response status_code (some body)) snapshot h failed = ground arith

-- The outcomes after which nobody knows whether the runtime has executed: no answer, an answer that
-- came too fast after another, and an error of the server.
abbrev pub is_uncertain : Outcome → Bool
is_uncertain timeout = true
is_uncertain transport_error = true
is_uncertain (response status_code body) = (status_code == 429) || leb 500 status_code

abbrev pub is_retried : Result ExecutionSnapshot → Bool
is_retried (ok snapshot) = false
is_retried (err e) = is_recoverable e

-- An HTTP call ends in an error that Relay recovers from exactly when its outcome is uncertain.
pub interpret-is_uncertain :
    (cancelling : Bool) (outcome : Outcome)
    → is_retried (interpret cancelling outcome) ≡ is_uncertain outcome
unfolding interpret decode is_recoverable
interpret-is_uncertain cancelling timeout = refl
interpret-is_uncertain cancelling transport_error = refl
interpret-is_uncertain cancelling (response status_code none) = ground arith
interpret-is_uncertain cancelling (response status_code (some body)) = ground arith
