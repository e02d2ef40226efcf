-- ===== src/Sources/Capture.antt =====
-- `SourceCaptureService.capture` of backend/app/sources/service.py. The analyzer, pydantic's
-- validation and dump of a proposal, and the search for duplicates are parameters. A UUID in a
-- payload is its number.
pub mod Atomic
use relay.Prelude.{
  ℕ, Bool, true, false, Option, none, some, List, [], ◌∷◌, ◌++◌, String, map, keep, find, any,
  length, not, ◌==◌, ◌&&◌, str_eq, if◌then◌else◌,
}
use relay.Domain.Enums.{WorkflowStatus as S, ActionStatus, ApprovalStatus}
use relay.Domain.Errors.{
  DomainError, Result, ok, err, source_type_not_supported, source_processing_failed,
  other_exception,
}
use relay.Json.{Json, Fields}
use relay.Store.{
  Key, WorkflowDefinition, WorkflowRun, ApprovalRequest, ProposedAction, ProjectSource, ProjectTask,
  ProjectWorkspace, Space, Database, Metadata, uuid, count, key,
}
use relay.Session.{
  Exec, pure, raise, lift, gets, or_raise, raise_if, modify, commit, rollback, now, uuid4, attempt,
  record_event, record_own_event, ◌>>=◌, ◌>>◌,
}
use relay.Repository.{add_action, add_approval}
use relay.Repository.Content.{project, source, tasks, is_some_of}
use relay.Services.Approvals.{is_pending}
use relay.Services.Workflows.{apply_transition}
use relay.Sources.Schemas.{SourceCaptureInput, TaskProposal, TaskProposalEdit}
use relay.Sources.Dedupe.{DuplicateCandidate}
use relay.Sources.Execution.{operation}
use relay.Sources.Proposals.{Proposal, join_all}

-- `ALLOWED_TYPES`
abbrev pub allowed_types : Space → List String
allowed_types Space.school = "ASSIGNMENT_BRIEF" ∷ "COURSE_OUTLINE" ∷ "STUDY_GOAL" ∷ []
allowed_types Space.work = "MEETING_TRANSCRIPT" ∷ "DOCUMENT_BRIEF" ∷ []
allowed_types Space.personal = "PERSONAL_GOAL" ∷ "NOTES_CHECKLIST" ∷ []

abbrev pub source_of : ℕ → ℕ → ℕ → SourceCaptureInput → String → Option String → ProjectSource
source_of id owner project_id input status error_message = record {
  id = id;
  user_id = owner;
  project_workspace_id = project_id;
  source_type = input.source_type;
  title = input.title;
  original_filename = input.original_filename;
  content = input.content;
  status = status;
  error_message = error_message;
}

unfoldable pub add_source : ProjectSource → Exec Unit
unfolding ◌>>=◌
add_source x = modify (λ db. record db { sources = db.sources ++ x ∷ [] })

unfoldable pub set_source : ℕ → (ProjectSource → ProjectSource) → Exec Unit
unfolding ◌>>=◌
set_source id f =
    modify (λ db. record db { sources = map (λ x. if x.id == id then f x else x) db.sources })

unfoldable pub add_run : WorkflowRun → Exec Unit
unfolding ◌>>=◌
add_run r = modify (λ db. record db { runs = db.runs ++ r ∷ [] })

abbrev pub reference : String → ℕ → Key
reference prefix id = record { prefix = prefix; parts = id ∷ []; suffix = "" }

abbrev pub of_task : ProjectTask → DuplicateCandidate
of_task t = record {
  reference = reference "task" t.id;
  title = t.title;
  description = t.description;
}

-- `TaskProposalEdit(**proposal.model_dump(), ...)`
abbrev pub edit_of : TaskProposal → ℕ → ℕ → Option DuplicateCandidate → TaskProposalEdit
edit_of p source_id project_id match = record {
  title = p.title;
  description = p.description;
  due_date = p.due_date;
  estimate_minutes = p.estimate_minutes;
  priority = p.priority;
  owner = p.owner;
  source_reference = p.source_reference;
  reason = p.reason;
  needs_confirmation = p.needs_confirmation;
  source_id = source_id;
  project_id = project_id;
  possible_duplicate = elim match [ none ↦ false | some c ↦ true ];
  duplicate_of_title = elim match [ none ↦ none | some c ↦ some c.title ];
}

abbrev pub match_metadata : Option DuplicateCandidate → List (String × Metadata)
match_metadata none = []
match_metadata (some c) = ("possible_duplicate_of", key c.reference) ∷ []

abbrev pub is_definition : WorkflowDefinition → Bool
is_definition d = str_eq d.key "source_to_tasks" && (d.version == 1) && d.enabled

-- The pending proposals of the project.
abbrev pub is_open_in : ℕ → Proposal → Bool
is_open_in project_id row =
    is_some_of project_id row.r.project_workspace_id && is_pending row.approval

module _ (validate : Json → Result TaskProposalEdit) where
  unfoldable pub of_proposals : List Proposal → Exec (List DuplicateCandidate)
  of_proposals [] = pure []
  of_proposals (row ∷ rows) = do
    edit ← lift (validate row.action.payload)
    more ← of_proposals rows
    pure (
        record {
          reference = reference "proposal" row.approval.id;
          title = edit.title;
          description = edit.description;
        }
        ∷ more)

  -- `_duplicate_candidates`
  unfoldable pub duplicate_candidates : ℕ → ℕ → Exec (List DuplicateCandidate)
  unfolding of_proposals
  duplicate_candidates project_id owner = do
    known ← tasks project_id owner
    rows ← gets (λ db. keep (is_open_in project_id) (join_all owner db db.approvals))
    proposals ← of_proposals rows
    pure (map of_task known ++ proposals)

  module _ (dump : TaskProposalEdit → Json)
      (find_duplicate : String
        → Option String
        → List DuplicateCandidate
        → Option DuplicateCandidate) where
    -- The body of the loop over the proposals.
    unfoldable pub propose_one :
        ℕ → ℕ → ℕ → ℕ → List DuplicateCandidate → TaskProposal → Exec DuplicateCandidate
    propose_one definition_id project_id source_id owner candidates p = do
      run_id ← uuid4
      at ← now
      add_run (record {
        id = run_id;
        user_id = owner;
        workflow_definition_id = definition_id;
        project_workspace_id = some project_id;
        status = S.draft;
        input_payload = Json.obj (Fields.field "source_id" (Json.num source_id) Fields.end);
        runtime_execution_id = none;
        result_payload = none;
        error_code = none;
        updated_at = at;
        started_at = none;
        completed_at = none;
      })
      apply_transition run_id S.analyzing owner
      apply_transition run_id S.plan_ready owner
      action_id ← uuid4
      add_action (record {
        id = action_id;
        workflow_run_id = run_id;
        action_type = operation;
        payload =
            dump (edit_of p source_id project_id (find_duplicate p.title p.description candidates));
        status = ActionStatus.proposed;
      })
      approval_id ← uuid4
      requested_at ← now
      add_approval (record {
        id = approval_id;
        workflow_run_id = run_id;
        proposed_action_id = action_id;
        status = ApprovalStatus.pending;
        original_payload =
            dump (edit_of p source_id project_id (find_duplicate p.title p.description candidates));
        approved_payload = none;
        requested_at = requested_at;
        resolved_at = none;
        resolved_by = none;
      })
      record_event owner "TASK_PROPOSAL_CREATED" run_id (
          ("source_id", uuid source_id)
          ∷ ("approval_id", uuid approval_id)
          ∷ match_metadata (find_duplicate p.title p.description candidates))
      apply_transition run_id S.awaiting_approval owner
      pure (record {
        reference = reference "proposal" approval_id;
        title = p.title;
        description = p.description;
      })

    unfoldable pub propose_all :
        ℕ → ℕ → ℕ → ℕ → List DuplicateCandidate → List TaskProposal → Exec Unit
    unfolding propose_one
    propose_all definition_id project_id source_id owner candidates [] = pure tt
    propose_all definition_id project_id source_id owner candidates (p ∷ ps) = do
      c ← propose_one definition_id project_id source_id owner candidates p
      propose_all definition_id project_id source_id owner (candidates ++ c ∷ []) ps

    module _ (generate : SourceCaptureInput → String → Result (List TaskProposal)) where
      -- The body of the `try`, up to the commit.
      unfoldable pub process : ℕ → ℕ → ℕ → String → SourceCaptureInput → Exec Unit
      unfolding propose_all duplicate_candidates
      process project_id source_id owner user_name input = do
        batch ← lift (generate input user_name)
        found ← gets (λ db. find is_definition db.definitions)
        definition ← or_raise found source_processing_failed
        candidates ← duplicate_candidates project_id owner
        propose_all definition.id project_id source_id owner candidates batch
        set_source source_id (λ x. record x { status = "READY" })
        record_own_event owner "SOURCE_PROCESSED"
            (("source_id", uuid source_id) ∷ ("proposal_count", count (length batch)) ∷ [])

      -- `isinstance(error, (SourceTypeNotSupported, SourceProcessingFailed))`
      abbrev pub raised_as : DomainError → DomainError
      raised_as source_type_not_supported = source_type_not_supported
      raised_as _ = source_processing_failed

      unfoldable pub conclude_capture :
          ℕ → ℕ → ℕ → SourceCaptureInput → Result (Unit {0}) → Exec ProjectSource
      conclude_capture project_id source_id owner input (ok done) = do
        commit
        pure (source_of source_id owner project_id input "READY" none)
      conclude_capture project_id source_id owner input (err e) = do
        rollback
        add_source (
            source_of source_id owner project_id input "FAILED"
              (some "Relay couldn't process this source."))
        commit
        raise (raised_as e)

      -- `capture`
      unfoldable pub capture : ℕ → ℕ → String → SourceCaptureInput → Exec ProjectSource
      unfolding conclude_capture process
      capture project_id owner user_name input = do
        p ← project project_id owner
        raise_if (not (any (str_eq input.source_type) (allowed_types p.space)))
            source_type_not_supported
        source_id ← uuid4
        add_source (source_of source_id owner p.id input "PROCESSING" none)
        outcome ← attempt (process p.id source_id owner user_name input)
        conclude_capture p.id source_id owner input outcome
