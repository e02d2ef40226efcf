-- ===== src/Domain/Enums.antt =====
-- backend/app/domain/enums.py and the execution statuses of backend/app/runtime/client.py.
-- Two members of an enumeration are compared by their position.
use relay.Prelude.{ℕ, Bool, ◌==◌}

pub data WorkflowStatus : Type 0 where
  draft analyzing plan_ready awaiting_approval approved queued executing : WorkflowStatus
  completed partially_completed failed rejected cancelled : WorkflowStatus

pub data ActionStatus : Type 0 where
  proposed edited approved rejected queued executing completed failed : ActionStatus

pub data ApprovalStatus : Type 0 where
  pending approved rejected expired : ApprovalStatus

pub data ExecutionStatus : Type 0 where
  queued running succeeded partial failed cancelled : ExecutionStatus

abbrev workflow_position : WorkflowStatus → ℕ
workflow_position WorkflowStatus.draft = 0
workflow_position WorkflowStatus.analyzing = 1
workflow_position WorkflowStatus.plan_ready = 2
workflow_position WorkflowStatus.awaiting_approval = 3
workflow_position WorkflowStatus.approved = 4
workflow_position WorkflowStatus.queued = 5
workflow_position WorkflowStatus.executing = 6
workflow_position WorkflowStatus.completed = 7
workflow_position WorkflowStatus.partially_completed = 8
workflow_position WorkflowStatus.failed = 9
workflow_position WorkflowStatus.rejected = 10
workflow_position WorkflowStatus.cancelled = 11

abbrev action_position : ActionStatus → ℕ
action_position ActionStatus.proposed = 0
action_position ActionStatus.edited = 1
action_position ActionStatus.approved = 2
action_position ActionStatus.rejected = 3
action_position ActionStatus.queued = 4
action_position ActionStatus.executing = 5
action_position ActionStatus.completed = 6
action_position ActionStatus.failed = 7

abbrev approval_position : ApprovalStatus → ℕ
approval_position ApprovalStatus.pending = 0
approval_position ApprovalStatus.approved = 1
approval_position ApprovalStatus.rejected = 2
approval_position ApprovalStatus.expired = 3

abbrev execution_position : ExecutionStatus → ℕ
execution_position ExecutionStatus.queued = 0
execution_position ExecutionStatus.running = 1
execution_position ExecutionStatus.succeeded = 2
execution_position ExecutionStatus.partial = 3
execution_position ExecutionStatus.failed = 4
execution_position ExecutionStatus.cancelled = 5

abbrev pub is_workflow : WorkflowStatus → WorkflowStatus → Bool
is_workflow a b = workflow_position a == workflow_position b

abbrev pub is_action : ActionStatus → ActionStatus → Bool
is_action a b = action_position a == action_position b

abbrev pub is_approval : ApprovalStatus → ApprovalStatus → Bool
is_approval a b = approval_position a == approval_position b

abbrev pub is_execution : ExecutionStatus → ExecutionStatus → Bool
is_execution a b = execution_position a == execution_position b
