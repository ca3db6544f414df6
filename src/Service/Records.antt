-- ===== src/Service/Records.antt =====
-- The records that the methods of backend/app/services/company.py leave: audit events, incidents
-- and domain events.
pub mod Frame
use bug_free_enigma.Base.{
  String, Bool, not, Option, none, some, List, [], ◌∷◌, ◌++◌, ◌==◌, if◌then◌else◌,
}
use bug_free_enigma.Base.Dict.{put}
use bug_free_enigma.Core.Enums.{ApprovalStatus, IncidentStatus, RiskLevel}
use bug_free_enigma.Core.Time.{Instant}
use bug_free_enigma.Core.Json.{Fields}
use bug_free_enigma.Core.Models.Control.{AuditEvent, Incident}
use bug_free_enigma.Core.Models.Schedule.{DomainEvent}
use bug_free_enigma.Service.State.{Env, Company}
use bug_free_enigma.Service.Actions.{Action, pure, modify, ◌>>=◌, ◌>>◌, new_id, utc_now}
use bug_free_enigma.Service.Alerts.{AlertDeliveryResult, send_incident}

-- `actor_id or "system"`
abbrev pub or_system : Option String → String
or_system none = "system"
or_system (some s) = if s == "" then "system" else s

abbrev pub new_incident :
    String
    → String
    → String
    → String
    → RiskLevel
    → Option String
    → Option String
    → String
    → String
    → Instant
    → Incident
new_incident title description source_type source_id risk_level task_id actor_id recommendation
      incident_id created_at =
    record {
      title = title;
      description = description;
      source_type = source_type;
      source_id = source_id;
      risk_level = risk_level;
      status = IncidentStatus.opened;
      task_id = task_id;
      actor_id = actor_id;
      recommendation = recommendation;
      incident_id = incident_id;
      created_at = created_at;
      acknowledged_at = none;
      acknowledged_by = none;
      resolved_at = none;
      resolved_by = none;
      resolution_note = none;
    }

module _ (env : Env) where
  -- `self.company_os.audit.append(AuditEvent(...))`
  unfoldable pub log_event :
      String
      → String
      → String
      → Option String
      → RiskLevel
      → ApprovalStatus
      → String
      → Option String
      → Option String
      → Option String
      → Action Unit
  unfolding new_id utc_now
  log_event event_type actor_id action task_id risk_level approval_status result input_ref
        output_ref error =
      do
        event_id ← new_id env "audit"
        created_at ← utc_now env
        modify (λ c. record c {
          audit =
              c.audit
              ++ record {
                event_type = event_type;
                actor_id = actor_id;
                action = action;
                task_id = task_id;
                risk_level = risk_level;
                approval_status = approval_status;
                result = result;
                input_ref = input_ref;
                output_ref = output_ref;
                error = error;
                model_name = none;
                version = "1.0.0";
                event_id = event_id;
                created_at = created_at;
              }
                ∷ [];
        })

  unfoldable pub log_delivery :
      AlertDeliveryResult → String → Option String → Option String → RiskLevel → Action Unit
  log_delivery delivery incident_id task_id actor_id risk_level =
      if delivery.status == "disabled"
      then pure tt
      else log_event
          (if delivery.status == "sent" then "alert_delivery_sent" else "alert_delivery_failed")
          (or_system actor_id) "send_incident_alert" task_id risk_level ApprovalStatus.not_required
          delivery.status (some incident_id) delivery.destination delivery.error

  -- `_report_incident`
  unfoldable pub report_incident :
      String
      → String
      → String
      → String
      → RiskLevel
      → Option String
      → Option String
      → String
      → Action Incident
  unfolding new_id utc_now send_incident log_delivery
  report_incident title description source_type source_id risk_level task_id actor_id
        recommendation =
      do
        incident_id ← new_id env "incident"
        created_at ← utc_now env
        let incident =
            new_incident title description source_type source_id risk_level task_id actor_id
              recommendation incident_id created_at
        modify (λ c. record c { incidents = put incident_id incident c.incidents })
        log_delivery (send_incident env incident) incident_id task_id actor_id risk_level
        pure incident

  -- `_publish_domain_event`
  unfoldable pub publish_domain_event :
      String → String → String → String → Fields → Option String → Action Unit
  unfolding new_id utc_now
  publish_domain_event event_type source_type source_id actor_id payload task_id = do
    event_id ← new_id env "event"
    created_at ← utc_now env
    modify (λ c. record c {
      events =
          put event_id
            (record {
              event_type = event_type;
              source_type = source_type;
              source_id = source_id;
              actor_id = actor_id;
              payload = payload;
              task_id = task_id;
              event_id = event_id;
              created_at = created_at;
            })
            c.events;
    })
