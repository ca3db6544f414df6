-- ===== src/Core/Models/Schedule.antt =====
-- backend/app/core/models.py: domain events and schedules.
use bug_free_enigma.Base.{ℕ, String, Option}
use bug_free_enigma.Core.Enums.{ScheduleAction, ScheduleStatus, ScheduleExecutionStatus}
use bug_free_enigma.Core.Time.{Instant}
use bug_free_enigma.Core.Json.{Fields}

pub record DomainEvent : Type 0 where
  pub event_type : String
  pub source_type : String
  pub source_id : String
  pub actor_id : String
  pub payload : Fields
  pub task_id : Option String
  pub event_id : String
  pub created_at : Instant

pub record ScheduledJob : Type 0 where
  pub name : String
  pub action : ScheduleAction
  pub payload : Fields
  pub created_by : String
  pub next_run_at : Instant
  pub interval_seconds : Option ℕ
  pub max_runs : Option ℕ
  pub schedule_id : String
  pub status : ScheduleStatus
  pub run_count : ℕ
  pub failure_count : ℕ
  pub last_run_at : Option Instant
  pub last_error : Option String
  pub created_at : Instant
  pub updated_at : Instant

pub record ScheduledExecution : Type 0 where
  pub schedule_id : String
  pub action : ScheduleAction
  pub status : ScheduleExecutionStatus
  pub actor_id : String
  pub output_ref : Option String
  pub error : Option String
  pub execution_id : String
  pub started_at : Instant
  pub completed_at : Instant
