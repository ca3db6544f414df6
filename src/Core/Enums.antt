-- ===== src/Core/Enums.antt =====
-- backend/app/core/enums.py: the enumerations, and the text that is the `.value` of each member.

pub data PermissionLevel : Type 0 where
  l0_read l1_draft l2_internal_write l3_external_prepare l4_high_risk l5_root : PermissionLevel

pub data RiskLevel : Type 0 where
  low medium high forbidden : RiskLevel

pub data ApprovalStatus : Type 0 where
  not_required pending approved rejected modified need_more_info blocked : ApprovalStatus

pub data TaskStatus : Type 0 where
  created planned assigned in_progress waiting_skill waiting_agent waiting_tool needs_review
        needs_approval approved executing quality_checking completed reviewed blocked failed paused
        cancelled rollback escalated :
      TaskStatus

pub data GoalStatus : Type 0 where
  active at_risk completed paused cancelled : GoalStatus

pub data ActionDecision : Type 0 where
  allow require_approval block : ActionDecision

pub data ProposalStatus : Type 0 where
  proposed pending_approval approved rejected blocked registered : ProposalStatus

pub data SandboxStatus : Type 0 where
  not_run passed failed : SandboxStatus

pub data ToolRunStatus : Type 0 where
  requested waiting_approval completed blocked failed : ToolRunStatus

pub data SkillRunStatus : Type 0 where
  requested waiting_approval completed blocked failed : SkillRunStatus

pub data WorkflowRunStatus : Type 0 where
  running waiting_approval completed blocked failed : WorkflowRunStatus

pub data WorkflowStepStatus : Type 0 where
  started completed skipped waiting_approval blocked failed : WorkflowStepStatus

pub data IncidentStatus : Type 0 where
  opened acknowledged resolved : IncidentStatus

pub data ScheduleAction : Type 0 where
  create_task run_task : ScheduleAction

pub data ScheduleStatus : Type 0 where
  active paused completed failed cancelled : ScheduleStatus

pub data ScheduleExecutionStatus : Type 0 where
  completed failed : ScheduleExecutionStatus
