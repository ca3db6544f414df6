-- ===== src/Service/Records/Frame.antt =====
-- What leaving a record changes: the audit log grows, incidents and events may be added, and no other
-- store is touched (backend/app/services/company.py).
use bug_free_enigma.Base.{
  String, Bool, true, false, Option, List, [], ◌++◌, ◌≡◌, refl, sym, Outcome, ok, err, ◌+◌, some,
  ◌==◌, ◌∙◌, if◌then◌else◌,
}
use mathlib.Core.List.{append-nil, append_assoc}
use bug_free_enigma.Base.Dict.{put}
use bug_free_enigma.Base.Text.{◌<>◌}
use bug_free_enigma.Core.Enums.{ApprovalStatus, RiskLevel}
use bug_free_enigma.Core.Json.{Fields}
use bug_free_enigma.Core.Models.Control.{Incident}
use bug_free_enigma.Service.State.{Env, Company}
use bug_free_enigma.Service.Actions.{Action, pure, continue, ◌>>=◌}
use bug_free_enigma.Service.Alerts.{AlertDeliveryResult, send_incident}
use bug_free_enigma.Service.Records.{
  or_system, new_incident, log_event, log_delivery, report_incident, publish_domain_event,
}

-- The second log continues the first.
abbrev pub Grows {ℓ} : {A : Type ℓ} → List A → List A → Type ℓ
Grows {A} xs ys = (zs : List A) × (ys ≡ xs ++ zs)

pub Grows-refl {ℓ} : {A : Type ℓ} (xs : List A) → Grows xs xs
Grows-refl xs = ([], sym (append-nil xs))

pub Grows-trans {ℓ} : {A : Type ℓ} (xs ys zs : List A) → Grows xs ys → Grows ys zs → Grows xs zs
Grows-trans xs ys zs (a, e) (b, f) = (a ++ b, rw f (rw e (append_assoc xs a b)))

-- The second state differs from the first in records alone.
pub record Recorded (c d : Company) : Type 0 where
  pub same_agents : d.agents ≡ c.agents
  pub same_skills : d.skills ≡ c.skills
  pub same_tools : d.tools ≡ c.tools
  pub same_approvals : d.approvals ≡ c.approvals
  pub same_memory : d.memory ≡ c.memory
  pub same_knowledge : d.knowledge ≡ c.knowledge
  pub same_evaluations : d.evaluations ≡ c.evaluations
  pub same_budget : d.budget ≡ c.budget
  pub same_usage : d.usage ≡ c.usage
  pub same_jobs : d.jobs ≡ c.jobs
  pub same_executions : d.executions ≡ c.executions
  pub same_tasks : d.tasks ≡ c.tasks
  pub same_tool_runs : d.tool_runs ≡ c.tool_runs
  pub same_skill_runs : d.skill_runs ≡ c.skill_runs
  pub audit_grows : Grows c.audit d.audit

pub Recorded-refl : (c : Company) → Recorded c c
Recorded-refl c = record {
  same_agents = refl;
  same_skills = refl;
  same_tools = refl;
  same_approvals = refl;
  same_memory = refl;
  same_knowledge = refl;
  same_evaluations = refl;
  same_budget = refl;
  same_usage = refl;
  same_jobs = refl;
  same_executions = refl;
  same_tasks = refl;
  same_tool_runs = refl;
  same_skill_runs = refl;
  audit_grows = Grows-refl c.audit;
}

pub Recorded-trans : {c d e : Company} → Recorded c d → Recorded d e → Recorded c e
Recorded-trans {c} {d} {e} p q = record {
  same_agents = q.same_agents ∙ p.same_agents;
  same_skills = q.same_skills ∙ p.same_skills;
  same_tools = q.same_tools ∙ p.same_tools;
  same_approvals = q.same_approvals ∙ p.same_approvals;
  same_memory = q.same_memory ∙ p.same_memory;
  same_knowledge = q.same_knowledge ∙ p.same_knowledge;
  same_evaluations = q.same_evaluations ∙ p.same_evaluations;
  same_budget = q.same_budget ∙ p.same_budget;
  same_usage = q.same_usage ∙ p.same_usage;
  same_jobs = q.same_jobs ∙ p.same_jobs;
  same_executions = q.same_executions ∙ p.same_executions;
  same_tasks = q.same_tasks ∙ p.same_tasks;
  same_tool_runs = q.same_tool_runs ∙ p.same_tool_runs;
  same_skill_runs = q.same_skill_runs ∙ p.same_skill_runs;
  audit_grows = Grows-trans c.audit d.audit e.audit p.audit_grows q.audit_grows;
}

pub Recorded-if :
    {A : Type 0} (b : Bool) (m n : Action A) {c : Company}
    → Recorded c (m c).1
    → Recorded c (n c).1
    → Recorded c ((if b then m else n) c).1
Recorded-if true m n p q = p
Recorded-if false m n p q = q

pub Recorded-bind :
    {A B : Type 0} (m : Action A) (f : A → Action B) {c : Company}
    → Recorded c (m c).1
    → ((a : A) (d : Company) → Recorded d (f a d).1)
    → Recorded c ((m >>= f) c).1
Recorded-bind {A} {B} m f {c} p q = go (m c).0 (m c).1 p
  where
    go : (r : Outcome A) (d : Company) → Recorded c d → Recorded c (continue r f d).1
    go (ok a) d h = Recorded-trans h (q a d)
    go (err e) d h = h

module _ (env : Env) where
  pub log_event-Recorded :
      (event_type actor_id action : String) (task_id : Option String) (risk : RiskLevel)
      (status : ApprovalStatus) (result : String) (input_ref output_ref error : Option String)
      (c : Company)
      → Recorded c
          (log_event env event_type actor_id action task_id risk status result input_ref output_ref
            error c).1
  unfolding log_event
  log_event-Recorded event_type actor_id action task_id risk status result input_ref output_ref
        error c =
      record {
        same_agents = refl;
        same_skills = refl;
        same_tools = refl;
        same_approvals = refl;
        same_memory = refl;
        same_knowledge = refl;
        same_evaluations = refl;
        same_budget = refl;
        same_usage = refl;
        same_jobs = refl;
        same_executions = refl;
        same_tasks = refl;
        same_tool_runs = refl;
        same_skill_runs = refl;
        audit_grows = (_, refl);
      }

  log_delivery-Recorded :
      (d : AlertDeliveryResult) (i : String) (task_id actor_id : Option String) (risk : RiskLevel)
      (c : Company)
      → Recorded c (log_delivery env d i task_id actor_id risk c).1
  unfolding log_delivery
  log_delivery-Recorded d i task_id actor_id risk c =
      Recorded-if (d.status == "disabled") (pure tt)
        (log_event env
          (if d.status == "sent" then "alert_delivery_sent" else "alert_delivery_failed")
          (or_system actor_id) "send_incident_alert" task_id risk ApprovalStatus.not_required
          d.status (some i) d.destination d.error)
        (Recorded-refl c) (log_event-Recorded _ _ _ _ _ _ _ _ _ _ c)

  -- the state in which the incident is stored and not yet delivered
  abbrev with_incident : Company → Incident → Company
  with_incident c incident = record c {
    incidents = put incident.incident_id incident c.incidents;
    ids_drawn = c.ids_drawn + 1;
    clock_reads = c.clock_reads + 1;
  }

  stored : (c : Company) (incident : Incident) → Recorded c (with_incident c incident)
  stored c incident = record {
    same_agents = refl;
    same_skills = refl;
    same_tools = refl;
    same_approvals = refl;
    same_memory = refl;
    same_knowledge = refl;
    same_evaluations = refl;
    same_budget = refl;
    same_usage = refl;
    same_jobs = refl;
    same_executions = refl;
    same_tasks = refl;
    same_tool_runs = refl;
    same_skill_runs = refl;
    audit_grows = Grows-refl c.audit;
  }

  pub report_incident-Recorded :
      (title description source_type source_id : String) (risk : RiskLevel)
      (task_id actor_id : Option String) (recommendation : String) (c : Company)
      → Recorded c
          (report_incident env title description source_type source_id risk task_id actor_id
            recommendation c).1
  unfolding report_incident
  report_incident-Recorded title description source_type source_id risk task_id actor_id
        recommendation c =
      let incident =
        new_incident title description source_type source_id risk task_id actor_id recommendation
          ("incident_" <> env.uuid_hex c.ids_drawn) (env.clock c.clock_reads) in
      Recorded-trans (stored c incident) (
        Recorded-bind
          (log_delivery env (send_incident env incident) incident.incident_id task_id actor_id risk)
          (λ _. pure incident)
          (log_delivery-Recorded (send_incident env incident) incident.incident_id task_id actor_id
            risk (with_incident c incident))
          (λ _ d. Recorded-refl d))

  pub publish_domain_event-Recorded :
      (event_type source_type source_id actor_id : String) (payload : Fields)
      (task_id : Option String) (c : Company)
      → Recorded c
          (publish_domain_event env event_type source_type source_id actor_id payload task_id c).1
  unfolding publish_domain_event
  publish_domain_event-Recorded event_type source_type source_id actor_id payload task_id c =
      record {
        same_agents = refl;
        same_skills = refl;
        same_tools = refl;
        same_approvals = refl;
        same_memory = refl;
        same_knowledge = refl;
        same_evaluations = refl;
        same_budget = refl;
        same_usage = refl;
        same_jobs = refl;
        same_executions = refl;
        same_tasks = refl;
        same_tool_runs = refl;
        same_skill_runs = refl;
        audit_grows = Grows-refl c.audit;
      }
