-- ===== src/Core/Values.antt =====
-- backend/app/core/enums.py: the text that is the `.value` of each member.
use Prim.Native.String.{String}
use bug_free_enigma.Core.Enums.{
  PermissionLevel, RiskLevel, ApprovalStatus, TaskStatus, GoalStatus, ActionDecision,
  ProposalStatus, SandboxStatus, ToolRunStatus, SkillRunStatus, WorkflowRunStatus,
  WorkflowStepStatus, IncidentStatus, ScheduleAction, ScheduleStatus, ScheduleExecutionStatus,
}

unfoldable pub permission_level_value : PermissionLevel → String
permission_level_value PermissionLevel.l0_read = "L0_READ"
permission_level_value PermissionLevel.l1_draft = "L1_DRAFT"
permission_level_value PermissionLevel.l2_internal_write = "L2_INTERNAL_WRITE"
permission_level_value PermissionLevel.l3_external_prepare = "L3_EXTERNAL_PREPARE"
permission_level_value PermissionLevel.l4_high_risk = "L4_HIGH_RISK"
permission_level_value PermissionLevel.l5_root = "L5_ROOT"

unfoldable pub risk_level_value : RiskLevel → String
risk_level_value RiskLevel.low = "low"
risk_level_value RiskLevel.medium = "medium"
risk_level_value RiskLevel.high = "high"
risk_level_value RiskLevel.forbidden = "forbidden"

unfoldable pub approval_status_value : ApprovalStatus → String
approval_status_value ApprovalStatus.not_required = "not_required"
approval_status_value ApprovalStatus.pending = "pending"
approval_status_value ApprovalStatus.approved = "approved"
approval_status_value ApprovalStatus.rejected = "rejected"
approval_status_value ApprovalStatus.modified = "modified"
approval_status_value ApprovalStatus.need_more_info = "need_more_info"
approval_status_value ApprovalStatus.blocked = "blocked"

unfoldable pub task_status_value : TaskStatus → String
task_status_value TaskStatus.created = "created"
task_status_value TaskStatus.planned = "planned"
task_status_value TaskStatus.assigned = "assigned"
task_status_value TaskStatus.in_progress = "in_progress"
task_status_value TaskStatus.waiting_skill = "waiting_skill"
task_status_value TaskStatus.waiting_agent = "waiting_agent"
task_status_value TaskStatus.waiting_tool = "waiting_tool"
task_status_value TaskStatus.needs_review = "needs_review"
task_status_value TaskStatus.needs_approval = "needs_approval"
task_status_value TaskStatus.approved = "approved"
task_status_value TaskStatus.executing = "executing"
task_status_value TaskStatus.quality_checking = "quality_checking"
task_status_value TaskStatus.completed = "completed"
task_status_value TaskStatus.reviewed = "reviewed"
task_status_value TaskStatus.blocked = "blocked"
task_status_value TaskStatus.failed = "failed"
task_status_value TaskStatus.paused = "paused"
task_status_value TaskStatus.cancelled = "cancelled"
task_status_value TaskStatus.rollback = "rollback"
task_status_value TaskStatus.escalated = "escalated"

unfoldable pub goal_status_value : GoalStatus → String
goal_status_value GoalStatus.active = "active"
goal_status_value GoalStatus.at_risk = "at_risk"
goal_status_value GoalStatus.completed = "completed"
goal_status_value GoalStatus.paused = "paused"
goal_status_value GoalStatus.cancelled = "cancelled"

unfoldable pub action_decision_value : ActionDecision → String
action_decision_value ActionDecision.allow = "allow"
action_decision_value ActionDecision.require_approval = "require_approval"
action_decision_value ActionDecision.block = "block"

unfoldable pub proposal_status_value : ProposalStatus → String
proposal_status_value ProposalStatus.proposed = "proposed"
proposal_status_value ProposalStatus.pending_approval = "pending_approval"
proposal_status_value ProposalStatus.approved = "approved"
proposal_status_value ProposalStatus.rejected = "rejected"
proposal_status_value ProposalStatus.blocked = "blocked"
proposal_status_value ProposalStatus.registered = "registered"

unfoldable pub sandbox_status_value : SandboxStatus → String
sandbox_status_value SandboxStatus.not_run = "not_run"
sandbox_status_value SandboxStatus.passed = "passed"
sandbox_status_value SandboxStatus.failed = "failed"

unfoldable pub tool_run_status_value : ToolRunStatus → String
tool_run_status_value ToolRunStatus.requested = "requested"
tool_run_status_value ToolRunStatus.waiting_approval = "waiting_approval"
tool_run_status_value ToolRunStatus.completed = "completed"
tool_run_status_value ToolRunStatus.blocked = "blocked"
tool_run_status_value ToolRunStatus.failed = "failed"

unfoldable pub skill_run_status_value : SkillRunStatus → String
skill_run_status_value SkillRunStatus.requested = "requested"
skill_run_status_value SkillRunStatus.waiting_approval = "waiting_approval"
skill_run_status_value SkillRunStatus.completed = "completed"
skill_run_status_value SkillRunStatus.blocked = "blocked"
skill_run_status_value SkillRunStatus.failed = "failed"

unfoldable pub workflow_run_status_value : WorkflowRunStatus → String
workflow_run_status_value WorkflowRunStatus.running = "running"
workflow_run_status_value WorkflowRunStatus.waiting_approval = "waiting_approval"
workflow_run_status_value WorkflowRunStatus.completed = "completed"
workflow_run_status_value WorkflowRunStatus.blocked = "blocked"
workflow_run_status_value WorkflowRunStatus.failed = "failed"

unfoldable pub workflow_step_status_value : WorkflowStepStatus → String
workflow_step_status_value WorkflowStepStatus.started = "started"
workflow_step_status_value WorkflowStepStatus.completed = "completed"
workflow_step_status_value WorkflowStepStatus.skipped = "skipped"
workflow_step_status_value WorkflowStepStatus.waiting_approval = "waiting_approval"
workflow_step_status_value WorkflowStepStatus.blocked = "blocked"
workflow_step_status_value WorkflowStepStatus.failed = "failed"

unfoldable pub incident_status_value : IncidentStatus → String
incident_status_value IncidentStatus.opened = "open"
incident_status_value IncidentStatus.acknowledged = "acknowledged"
incident_status_value IncidentStatus.resolved = "resolved"

unfoldable pub schedule_action_value : ScheduleAction → String
schedule_action_value ScheduleAction.create_task = "create_task"
schedule_action_value ScheduleAction.run_task = "run_task"

unfoldable pub schedule_status_value : ScheduleStatus → String
schedule_status_value ScheduleStatus.active = "active"
schedule_status_value ScheduleStatus.paused = "paused"
schedule_status_value ScheduleStatus.completed = "completed"
schedule_status_value ScheduleStatus.failed = "failed"
schedule_status_value ScheduleStatus.cancelled = "cancelled"

unfoldable pub schedule_execution_status_value : ScheduleExecutionStatus → String
schedule_execution_status_value ScheduleExecutionStatus.completed = "completed"
schedule_execution_status_value ScheduleExecutionStatus.failed = "failed"
