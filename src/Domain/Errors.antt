-- ===== src/Domain/Errors.antt =====
-- The exceptions that the modelled code raises (backend/app/domain/errors.py,
-- backend/app/runtime/errors.py and backend/app/workflows/*/errors.py), and a computation that
-- may raise one.
use relay.Prelude.{String, ◌≡◌, refl, ◌⊎◌, inl, inr}

pub data DomainError : Type 0 where
  invalid_workflow_transition workflow_not_found workflow_definition_disabled : DomainError
  approval_required approval_already_resolved approval_not_found : DomainError
  approval_payload_mismatch unauthorized_resource_access : DomainError
  task_proposal_not_found task_proposal_needs_confirmation task_creation_failed : DomainError
  runtime_unavailable runtime_rate_limited runtime_request_timeout : DomainError
  runtime_execution_not_found runtime_malformed_response runtime_unauthorized : DomainError
  runtime_execution_failed runtime_cancellation_failed : DomainError
  learn_workflow_invalid_state plan_workflow_invalid_state : DomainError
  collaborate_workflow_invalid_state : DomainError
  connected_account_already_exists connected_account_not_found oauth_not_configured : DomainError
  project_not_found source_not_found source_type_not_supported source_processing_failed :
      DomainError
  malformed_model_output : DomainError
  -- an exception that is no `DomainError`
  other_exception : DomainError

pub data Result {ℓ} (A : Type ℓ) : Type ℓ where
  ok : A → Result A
  err : DomainError → Result A

-- The class attribute `code`.
unfoldable pub code : DomainError → String
code invalid_workflow_transition = "INVALID_WORKFLOW_TRANSITION"
code workflow_not_found = "WORKFLOW_NOT_FOUND"
code workflow_definition_disabled = "WORKFLOW_DEFINITION_DISABLED"
code approval_required = "APPROVAL_REQUIRED"
code approval_already_resolved = "APPROVAL_ALREADY_RESOLVED"
code approval_not_found = "APPROVAL_NOT_FOUND"
code approval_payload_mismatch = "APPROVAL_PAYLOAD_MISMATCH"
code unauthorized_resource_access = "RESOURCE_NOT_FOUND"
code task_proposal_not_found = "TASK_PROPOSAL_NOT_FOUND"
code task_proposal_needs_confirmation = "TASK_PROPOSAL_NEEDS_CONFIRMATION"
code task_creation_failed = "TASK_CREATION_FAILED"
code runtime_unavailable = "RUNTIME_UNAVAILABLE"
code runtime_rate_limited = "RUNTIME_RATE_LIMITED"
code runtime_request_timeout = "RUNTIME_REQUEST_TIMEOUT"
code runtime_execution_not_found = "RUNTIME_EXECUTION_NOT_FOUND"
code runtime_malformed_response = "RUNTIME_MALFORMED_RESPONSE"
code runtime_unauthorized = "RUNTIME_UNAUTHORIZED"
code runtime_execution_failed = "RUNTIME_EXECUTION_FAILED"
code runtime_cancellation_failed = "RUNTIME_CANCELLATION_FAILED"
code learn_workflow_invalid_state = "LEARN_WORKFLOW_INVALID_STATE"
code plan_workflow_invalid_state = "PLAN_WORKFLOW_INVALID_STATE"
code collaborate_workflow_invalid_state = "COLLABORATE_WORKFLOW_INVALID_STATE"
code connected_account_already_exists = "CONNECTION_ALREADY_EXISTS"
code connected_account_not_found = "CONNECTION_NOT_FOUND"
code oauth_not_configured = "OAUTH_NOT_CONFIGURED"
code project_not_found = "PROJECT_NOT_FOUND"
code source_not_found = "SOURCE_NOT_FOUND"
code source_type_not_supported = "SOURCE_TYPE_NOT_SUPPORTED"
code source_processing_failed = "SOURCE_PROCESSING_FAILED"
code malformed_model_output = "MALFORMED_MODEL_OUTPUT"
code other_exception = "EXECUTION_FAILED"

pub Result-cases {ℓ} :
    {A : Type ℓ} (r : Result A) → ((a : A) × (r ≡ ok a)) ⊎ ((e : DomainError) × (r ≡ err e))
Result-cases (ok a) = inl (a, refl)
Result-cases (err e) = inr (e, refl)
