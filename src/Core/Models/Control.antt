-- ===== src/Core/Models/Control.antt =====
-- backend/app/core/models.py: requests, risk assessments, approvals, audit events and incidents.
use bug_free_enigma.Base.{String, Bool, Option, List}
use bug_free_enigma.Core.Enums.{PermissionLevel, RiskLevel, ApprovalStatus, IncidentStatus}
use bug_free_enigma.Core.Time.{Instant}
use bug_free_enigma.Core.Json.{Fields}

pub record ActionRequest : Type 0 where
  pub action : String
  pub actor_id : String
  pub task_id : Option String
  pub permission_level : PermissionLevel
  pub reason : String
  pub target : Option String
  pub reversible : Bool
  pub metadata : Fields

pub record RiskAssessment : Type 0 where
  pub request : ActionRequest
  pub level : RiskLevel
  pub reasons : List String
  pub requires_approval : Bool
  pub blocked : Bool

pub record ApprovalRequest : Type 0 where
  pub request : ActionRequest
  pub risk : RiskAssessment
  pub possible_benefit : String
  pub possible_loss : String
  pub recommendation : String
  pub approval_id : String
  pub status : ApprovalStatus
  pub created_at : Instant
  pub decided_at : Option Instant
  pub decided_by : Option String
  pub decision_note : Option String

pub record AuditEvent : Type 0 where
  pub event_type : String
  pub actor_id : String
  pub action : String
  pub task_id : Option String
  pub risk_level : RiskLevel
  pub approval_status : ApprovalStatus
  pub result : String
  pub input_ref : Option String
  pub output_ref : Option String
  pub error : Option String
  pub model_name : Option String
  pub version : String
  pub event_id : String
  pub created_at : Instant

pub record Incident : Type 0 where
  pub title : String
  pub description : String
  pub source_type : String
  pub source_id : String
  pub risk_level : RiskLevel
  pub status : IncidentStatus
  pub task_id : Option String
  pub actor_id : Option String
  pub recommendation : String
  pub incident_id : String
  pub created_at : Instant
  pub acknowledged_at : Option Instant
  pub acknowledged_by : Option String
  pub resolved_at : Option Instant
  pub resolved_by : Option String
  pub resolution_note : Option String
