-- ===== src/Service/Incidents.antt =====
-- backend/app/incidents/store.py, and the methods of backend/app/services/company.py on it.
pub mod Lifecycle
mod Tests
use bug_free_enigma.Base.{
  String, Bool, true, false, Option, none, some, [], ◌==◌, Outcome, ok, err, value_error,
  if◌then◌else◌,
}
use bug_free_enigma.Base.Dict.{Dict, lookup, get, put}
use bug_free_enigma.Core.Enums.{IncidentStatus, ApprovalStatus}
use bug_free_enigma.Core.Values.{incident_status_value}
use bug_free_enigma.Core.Time.{Instant}
use bug_free_enigma.Core.Models.Control.{Incident}
use bug_free_enigma.Service.State.{Env, Company}
use bug_free_enigma.Service.Actions.{Action, pure, asks, modify, ◌>>=◌, ◌>>◌, utc_now}
use bug_free_enigma.Service.Records.{log_event}

abbrev pub IncidentStore : Type 0
IncidentStore = Dict Incident

-- `IncidentStore.report`
unfoldable pub report : Incident → IncidentStore → IncidentStore
report incident incidents = put incident.incident_id incident incidents

abbrev pub is_resolved : IncidentStatus → Bool
is_resolved IncidentStatus.resolved = true
is_resolved _ = false

-- `if note: incident.resolution_note = note`
abbrev noted : Option String → Option String → Option String
noted none old = old
noted (some remark) old = if remark == "" then old else some remark

abbrev pub acknowledged : String → Option String → Instant → Incident → Incident
acknowledged actor_id remark now incident = record incident {
  status = IncidentStatus.acknowledged;
  acknowledged_at = some now;
  acknowledged_by = some actor_id;
  resolution_note = noted remark incident.resolution_note;
}

-- `IncidentStore.acknowledge`, up to the write
unfoldable pub acknowledge :
    String → String → Option String → Instant → IncidentStore → Outcome Incident
acknowledge incident_id actor_id remark now incidents = elim (get incident_id incidents) [
  | err e ↦ err e
  | ok incident ↦
      if is_resolved incident.status
      then err (value_error "resolved incident cannot be acknowledged" [])
      else ok (acknowledged actor_id remark now incident)
]

abbrev pub resolved : String → String → Instant → Incident → Incident
resolved actor_id remark now incident = record incident {
  status = IncidentStatus.resolved;
  resolved_at = some now;
  resolved_by = some actor_id;
  resolution_note = some remark;
}

-- `IncidentStore.resolve`, up to the write
unfoldable pub resolve : String → String → String → Instant → IncidentStore → Outcome Incident
resolve incident_id actor_id remark now incidents = elim (get incident_id incidents) [
  | err e ↦ err e
  | ok incident ↦ ok (resolved actor_id remark now incident)
]

module _ (env : Env) where
  -- what both methods do with the changed incident
  abbrev file_incident :
      String → String → String → String → Option String → Incident → Action Incident
  file_incident event_type action incident_id actor_id remark incident = do
    modify (λ c. record c { incidents = put incident_id incident c.incidents })
    log_event env event_type actor_id action incident.task_id incident.risk_level
        ApprovalStatus.not_required (incident_status_value incident.status) remark
        (some incident.incident_id) none
    pure incident

  -- The clock is read first, which a raise cannot show.
  unfoldable pub acknowledge_incident : String → String → Option String → Action Incident
  unfolding utc_now
  acknowledge_incident incident_id actor_id remark = do
    now ← utc_now env
    incident ← asks (λ c. acknowledge incident_id actor_id remark now c.incidents)
    file_incident "incident_acknowledged" "acknowledge_incident" incident_id actor_id remark
        incident

  unfoldable pub resolve_incident : String → String → String → Action Incident
  unfolding utc_now
  resolve_incident incident_id actor_id remark = do
    now ← utc_now env
    incident ← asks (λ c. resolve incident_id actor_id remark now c.incidents)
    file_incident "incident_resolved" "resolve_incident" incident_id actor_id (some remark) incident
