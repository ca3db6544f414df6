-- ===== src/Core/Models/Work.antt =====
-- backend/app/core/models.py: tasks, runs and the records that they leave.
use bug_free_enigma.Base.{ℕ, String, Option, List}
use bug_free_enigma.Core.Enums.{
  RiskLevel, ApprovalStatus, TaskStatus, ToolRunStatus, SkillRunStatus, WorkflowRunStatus,
  WorkflowStepStatus,
}
use bug_free_enigma.Core.Time.{Instant}
use bug_free_enigma.Core.Json.{Fields}

pub record Task : Type 0 where
  pub title : String
  pub description : String
  pub user_id : String
  pub task_id : String
  pub status : TaskStatus
  pub result : Option String
  pub risk_level : RiskLevel
  pub approval_id : Option String
  pub history : List TaskStatus

pub record ToolRun : Type 0 where
  pub tool_id : String
  pub actor_id : String
  pub action : String
  pub input : Fields
  pub reason : String
  pub task_id : Option String
  pub status : ToolRunStatus
  pub result : Option String
  pub risk_level : RiskLevel
  pub approval_id : Option String
  pub error : Option String
  pub run_id : String
  pub created_at : Instant
  pub completed_at : Option Instant

pub record SkillRun : Type 0 where
  pub skill_id : String
  pub actor_id : String
  pub input : Fields
  pub reason : String
  pub task_id : Option String
  pub status : SkillRunStatus
  pub result : Option String
  pub risk_level : RiskLevel
  pub approval_id : Option String
  pub error : Option String
  pub run_id : String
  pub created_at : Instant
  pub completed_at : Option Instant

pub record WorkflowRun : Type 0 where
  pub workflow_id : String
  pub task_id : String
  pub status : WorkflowRunStatus
  pub result : Option String
  pub run_id : String
  pub started_at : Instant
  pub completed_at : Option Instant

pub record WorkflowStep : Type 0 where
  pub run_id : String
  pub task_id : String
  pub sequence : ℕ
  pub step_name : String
  pub actor_id : String
  pub action : String
  pub status : WorkflowStepStatus
  pub risk_level : RiskLevel
  pub approval_status : ApprovalStatus
  pub result : String
  pub error : Option String
  pub step_id : String
  pub created_at : Instant
  pub completed_at : Option Instant

pub record MemoryRecord : Type 0 where
  pub task_id : String
  pub content : String
  pub memory_type : String
  pub record_id : String
  pub created_at : Instant

pub record KnowledgeDoc : Type 0 where
  pub title : String
  pub content : String
  pub source_task_id : Option String
  pub doc_id : String
  pub created_at : Instant

pub record EvaluationRecord : Type 0 where
  pub subject_type : String
  pub subject_id : String
  pub task_id : Option String
  pub score : ℕ
  pub metric : String
  pub notes : String
  pub risk_level : RiskLevel
  pub record_id : String
  pub created_at : Instant

pub record TaskReview : Type 0 where
  pub task_id : String
  pub reviewer_agent : String
  pub outcome : String
  pub summary : String
  pub what_went_well : String
  pub what_went_wrong : String
  pub lessons : List String
  pub follow_up_actions : List String
  pub quality_score : ℕ
  pub risk_level : RiskLevel
  pub review_id : String
  pub created_at : Instant

pub record BackupRecord : Type 0 where
  pub reason : String
  pub actor_id : String
  pub snapshot : Fields
  pub rollback_plan : String
  pub backup_checksum : Option String
  pub backup_id : String
  pub created_at : Instant
