-- ===== src/Service/Incidents/Tests.antt =====
-- Calls on incidents (backend/app/services/company.py) in a small company.
use bug_free_enigma.Base.{none, some, [], ◌∷◌, refl, All}
use bug_free_enigma.Base.Dict.{lookup, values}
use bug_free_enigma.Core.Enums.{IncidentStatus, RiskLevel}
use bug_free_enigma.Core.Models.Control.{Incident}
use bug_free_enigma.Service.State.{Company}
use bug_free_enigma.Service.Sample.{env, company}
use bug_free_enigma.Service.Incidents.{acknowledge_incident, resolve_incident}
use bug_free_enigma.Service.Incidents.Lifecycle.{
  Step, Reach, IsSigned, IsResolved, Reach-IsSigned, Reach-IsResolved,
}

abbrev outage : Incident
outage = record {
  title = "Outage";
  description = "A provider is down.";
  source_type = "model_usage";
  source_id = "usage_1";
  risk_level = RiskLevel.medium;
  status = IncidentStatus.resolved;
  task_id = none;
  actor_id = none;
  recommendation = "Wait";
  incident_id = "incident_1";
  created_at = 0;
  acknowledged_at = none;
  acknowledged_by = none;
  resolved_at = some 1;
  resolved_by = some "human_root";
  resolution_note = some "It is back.";
}

abbrev troubled : Company
troubled = record company { incidents = ("incident_1", outage) ∷ [] }

abbrev afterwards : Company
afterwards =
    (resolve_incident env "incident_1" "human_root" "Again."
      (acknowledge_incident env "incident_1" "clerk" none troubled).1).1

calls : Reach env troubled afterwards
calls =
    Reach.next (Reach.next Reach.here (Step.acknowledging "incident_1" "clerk" none))
      (Step.resolving "incident_1" "human_root" "Again.")

outage-IsSigned : IsSigned outage
outage-IsSigned = record {
  fresh = λ e. absurd (cc);
  seen = λ e. absurd (cc);
  pending = λ e. absurd (e refl);
  closed = λ e. (λ f. cc, λ f. cc, λ f. cc);
}

outage-IsResolved : IsResolved "incident_1" troubled
unfolding lookup
outage-IsResolved = (outage, refl, refl)

Reach-IsSigned_example : All IsSigned (values afterwards.incidents)
Reach-IsSigned_example = Reach-IsSigned env (outage-IsSigned, tt) calls

Reach-IsResolved_example : IsResolved "incident_1" afterwards
Reach-IsResolved_example = Reach-IsResolved env "incident_1" outage-IsResolved calls
