-- ===== src/Core/Models/Messages.antt =====
-- backend/app/core/models.py: what Agents send one another.
use bug_free_enigma.Base.{String, Bool, Option, List}
use bug_free_enigma.Base.Dict.{Dict}
use bug_free_enigma.Core.Enums.{TaskStatus}
use bug_free_enigma.Core.Time.{Instant}

pub record AgentMessage : Type 0 where
  pub from_agent : String
  pub to_agent : String
  pub message_type : String
  pub content : String
  pub priority : String
  pub requires_response : Bool
  pub task_id : Option String
  pub message_id : String
  pub created_at : Instant

pub record AgentMeeting : Type 0 where
  pub title : String
  pub organizer_agent : String
  pub participant_agents : List String
  pub agenda : String
  pub meeting_type : String
  pub task_id : Option String
  pub minutes : Option String
  pub meeting_id : String
  pub created_at : Instant

pub record TaskHandoff : Type 0 where
  pub task_id : String
  pub from_agent : String
  pub to_agent : String
  pub reason : String
  pub task_status : TaskStatus
  pub instructions : Option String
  pub message_id : Option String
  pub handoff_id : String
  pub created_at : Instant

pub record AgentBroadcast : Type 0 where
  pub from_agent : String
  pub audience_agents : List String
  pub event_type : String
  pub title : String
  pub content : String
  pub priority : String
  pub task_id : Option String
  pub broadcast_id : String
  pub created_at : Instant

pub record AgentConflict : Type 0 where
  pub raised_by_agent : String
  pub opposing_agents : List String
  pub issue : String
  pub positions : Dict String
  pub priority_area : String
  pub task_id : Option String
  pub status : String
  pub resolution : Option String
  pub resolved_by : Option String
  pub selected_position_agent : Option String
  pub conflict_id : String
  pub created_at : Instant
  pub resolved_at : Option Instant
