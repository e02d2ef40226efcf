-- ===== src/Runtime/Local/Replay.antt =====
-- The idempotency of backend/app/runtime/local.py.
use relay.Prelude.{
  ℕ, ◌≡◌, refl, Bool, true, false, some, List, [], ◌∷◌, ◌++◌, String, find, any, str_eq, eq_iff,
  Bool-cases, Option-cases, inl, inr, arith,
}
use relay.Domain.Errors.{ok}
use relay.Json.{exact_json, numbered, same_codes, equal_values}
use relay.Store.{Key, same_key, same_parts, ExecutionSnapshot, LocalExecution}
use relay.Session.{Session, pure, ◌>>=◌, attempt, uuid4}
use relay.Session.Runs.{>>=-Halves}
use relay.Runtime.Client.{ExecutionRequest}
use relay.Runtime.Local.{
  Connectors, executed_as, add_execution, replay, run_once, submit_found, submit_execution, perform,
  caught,
}

same_codes_refl : (xs : List ℕ) → same_codes xs xs ≡ true
same_codes_refl [] = refl
same_codes_refl (x ∷ xs) = let more = same_codes_refl xs in ground arith

str_eq_refl : (a : String) → str_eq a a ≡ true
str_eq_refl a = (eq_iff a a).1 refl

same_parts_refl : (xs : List ℕ) → same_parts xs xs ≡ true
same_parts_refl [] = refl
same_parts_refl (x ∷ xs) = let more = same_parts_refl xs in ground arith

same_key_refl : (k : Key) → same_key k k ≡ true
same_key_refl k =
    let p = str_eq_refl k.prefix in
    let q = same_parts_refl k.parts in let r = str_eq_refl k.suffix in ground (arith, p, q, r)

find-append :
    (p : LocalExecution → Bool) (xs : List LocalExecution) (x : LocalExecution)
    → any p xs ≡ false
    → p x ≡ true
    → find p (xs ++ x ∷ []) ≡ some x
find-append p [] x h e = ground arith
find-append p (y ∷ ys) x h e = let more = find-append p ys x in ground (arith, more)

-- The execution of the request is recorded with the snapshot.
record IsStored (request : ExecutionRequest) (snapshot : ExecutionSnapshot) (s : Session)
    : Type 0 where
  row : LocalExecution
  found : find (executed_as request.idempotency_key) s.working.executions ≡ some row
  operation : row.operation ≡ request.action_type
  payload : equal_values row.request_payload request.approved_payload ≡ true
  answer : row.snapshot ≡ snapshot

add_execution-IsStored :
    (row : LocalExecution) (s s' : Session)
    → add_execution row s ≡ (ok tt, s')
    → find (executed_as row.idempotency_key) s'.working.executions ≡ some row
unfolding add_execution ◌>>=◌
add_execution-IsStored row s s' h =
    let own = same_key_refl row.idempotency_key in
    elim (Bool-cases (any (executed_as row.idempotency_key) s.working.executions)) [
      | inl taken ↦ absurd (ground arith)
      | inr free ↦
          let last =
            find-append (executed_as row.idempotency_key) s.working.executions row free own in
          ground (arith, last)
    ]

replay-stored :
    (request : ExecutionRequest) (snapshot : ExecutionSnapshot) (s : Session) (row : LocalExecution)
    → row.operation ≡ request.action_type
    → equal_values row.request_payload request.approved_payload ≡ true
    → row.snapshot ≡ snapshot
    → replay request row s ≡ (ok snapshot, s)
unfolding replay ◌>>=◌
replay-stored request snapshot s row o p a =
    let names = str_eq_refl request.action_type in ground (arith, names)

returned : (a b : ExecutionSnapshot) (s s' : Session) → pure a s ≡ (ok b, s') → (a ≡ b) × (s' ≡ s)
unfolding ◌>>=◌
returned a b s s' h = (ground arith, ground arith)

module _ (connectors : Connectors) (request : ExecutionRequest) where
  run_once-IsStored :
      (s s' : Session) (snapshot : ExecutionSnapshot)
      → run_once connectors request s ≡ (ok snapshot, s')
      → IsStored request snapshot s'
  unfolding run_once
  run_once-IsStored s s' snapshot h =
      let named = >>=-Halves uuid4 _ s h in
      let tried = >>=-Halves (attempt (perform connectors request)) _ named.between named.second in
      let row : LocalExecution = record {
        id = named.value;
        idempotency_key = request.idempotency_key;
        operation = request.action_type;
        request_payload = request.approved_payload;
        snapshot = caught named.value tried.value;
      } in
      let added = >>=-Halves (add_execution row) _ tried.between tried.second in
      let stored = add_execution-IsStored row tried.between added.between added.first in
      let final =
        returned (caught named.value tried.value) snapshot added.between s' added.second in
      record {
        row = row;
        found = rw final.1 stored;
        operation = refl;
        payload = same_codes_refl (exact_json (numbered request.approved_payload));
        answer = final.0;
      }

  submit_execution-IsStored :
      (s s' : Session) (snapshot : ExecutionSnapshot)
      → submit_execution connectors request s ≡ (ok snapshot, s')
      → IsStored request snapshot s'
  unfolding submit_execution submit_found replay ◌>>=◌
  submit_execution-IsStored s s' snapshot h =
      elim (Option-cases (find (executed_as request.idempotency_key) s.working.executions)) [
        | inl fresh ↦
            let once : run_once connectors request s ≡ (ok snapshot, s') = ground arith in
            run_once-IsStored s s' snapshot once
        | inr (row, found) ↦
            let same : s' ≡ s = ground arith in
            record {
              row = row;
              found = rw same found;
              operation = ground (arith, eq_iff row.operation request.action_type);
              payload = ground arith;
              answer = ground arith;
            }
      ]

-- Submitting a request again, with whatever connectors, answers with the snapshot of the first
-- submission and changes nothing: no connector is called.
pub submit_execution_twice :
    (first second : Connectors) (request : ExecutionRequest) (s s' : Session)
    (snapshot : ExecutionSnapshot)
    → submit_execution first request s ≡ (ok snapshot, s')
    → submit_execution second request s' ≡ (ok snapshot, s')
unfolding submit_execution submit_found ◌>>=◌
submit_execution_twice first second request s s' snapshot h =
    let stored = submit_execution-IsStored first request s s' snapshot h in
    let again =
      replay-stored request snapshot s' stored.row stored.operation stored.payload stored.answer in
    rw stored.found again
