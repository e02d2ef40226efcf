-- ===== src/Examples/Sessions.antt =====
-- Examples of the services of approvals and transitions.
use relay.Prelude.{◌≡◌, refl, true, false, none, some, inr}
use relay.Domain.Enums.{WorkflowStatus as S, ApprovalStatus}
use relay.Domain.Errors.{err, approval_already_resolved, approval_payload_mismatch}
use relay.Domain.Workflows.{transition, transitions, terminal_states}
use relay.Json.{Json, exact_json}
use relay.Store.{ApprovalRequest}
use relay.Session.{request, ◌>>=◌, record_event, commit}
use relay.Session.Keeps.{Keeps}
use relay.Repository.{
  run, load_run, approval, actions, run_approvals, set_run, set_action, set_approval, actions_of,
  approvals_of,
}
use relay.Services.Workflows.{gate_fails, apply_transition, request_approvals}
use relay.Services.Workflows.Gate.{IsGated, apply_transition-IsGated}
use relay.Services.Approvals.{
  payload_matches, decide_request, expire_one, expire_all, decide_run, open_request, decide,
  resolve,
}
use relay.Services.Approvals.Consistency.{
  AllConsistent, request_approvals-Consistent, resolve-Consistent,
}
use relay.Services.Approvals.Outcome.{IsGranted, resolve-IsGranted}
use relay.Services.Approvals.Once.{resolve_twice}
use relay.Services.Approvals.Expiry.{IsRejected, decide_run-IsRejected}
use relay.Services.Approvals.Rejection.{resolve-err}
use relay.Examples.Samples.{payload, waiting, approved, request_in}

apply_transition-IsGated_example :
    IsGated ApprovalStatus.approved
      (actions_of 1 (apply_transition 1 S.queued 7 approved).1.working)
      (approvals_of 1 (apply_transition 1 S.queued 7 approved).1.working)
unfolding apply_transition load_run transition transitions terminal_states actions run_approvals
    gate_fails set_run record_event ◌>>=◌
apply_transition-IsGated_example =
    apply_transition-IsGated 1 S.queued 7 approved (apply_transition 1 S.queued 7 approved).1
      (inr refl) refl

abbrev granted : ApprovalRequest
granted = request_in ApprovalStatus.approved (some payload) (some 7)

resolve-IsGranted_example :
    IsGranted 20 7
      (some payload)
      (record granted { resolved_at = some 0 })
      (resolve 20 7 (some payload) true waiting).1
unfolding resolve decide open_request approval run decide_request payload_matches exact_json
    set_approval set_action record_event decide_run run_approvals apply_transition load_run actions
    transition transitions terminal_states gate_fails set_run commit ◌>>=◌
resolve-IsGranted_example =
    resolve-IsGranted 20 7 (some payload) waiting (resolve 20 7 (some payload) true waiting).1 refl

resolve_twice_example :
    resolve 20 7 none false (resolve 20 7 (some payload) true waiting).1
    ≡ (err approval_already_resolved, (resolve 20 7 (some payload) true waiting).1)
unfolding resolve decide open_request approval run decide_request payload_matches exact_json
    set_approval set_action record_event decide_run run_approvals apply_transition load_run actions
    transition transitions terminal_states gate_fails set_run commit ◌>>=◌
resolve_twice_example =
    resolve_twice 20 7 (some payload) none true false waiting
      (resolve 20 7 (some payload) true waiting).1 {a = record granted { resolved_at = some 0 }}
      refl

decide_run-IsRejected_example :
    IsRejected 1 waiting.working (decide_run 1 7 false waiting).1.working
unfolding decide_run expire_all expire_one set_approval record_event run_approvals apply_transition
    load_run actions transition transitions terminal_states gate_fails set_run ◌>>=◌
decide_run-IsRejected_example =
    decide_run-IsRejected 1 7 waiting (decide_run 1 7 false waiting).1 refl

resolve-err_example :
    (request (resolve 20 7 (some Json.null) true) waiting).1.working ≡ waiting.committed
unfolding resolve decide open_request approval run decide_request payload_matches exact_json ◌>>=◌
resolve-err_example = resolve-err 20 7 (some Json.null) true waiting approval_payload_mismatch refl

request_approvals-Consistent_example : Keeps AllConsistent (request_approvals 1 7)
request_approvals-Consistent_example = request_approvals-Consistent 1 7

resolve-Consistent_example : Keeps AllConsistent (resolve 20 7 (some payload) true)
resolve-Consistent_example = resolve-Consistent 20 7 (some payload) true
