-- ===== src/Service/SkillRuns/Admission.antt =====
-- The tests of a requested Skill run, and what they say (backend/app/services/company.py).
use bug_free_enigma.Base.{
  String, true, false, ◌||◌, Option, none, some, ◌≡◌, ◌≢◌, ◌⊎◌, refl, Bool-cases, inl, inr, arith,
  ok, contains, Option-cases,
}
use bug_free_enigma.Base.Dict.{lookup}
use bug_free_enigma.Core.Enums.{ActionDecision, ApprovalStatus, RiskLevel}
use bug_free_enigma.Core.Models.Catalog.{Agent, Skill}
use bug_free_enigma.Core.Models.Control.{ActionRequest, RiskAssessment, ApprovalRequest}
use bug_free_enigma.Core.Models.Work.{SkillRun}
use bug_free_enigma.Safety.Permissions.{PermissionResult, evaluate}
use bug_free_enigma.Service.State.{Env, Company}
use bug_free_enigma.Service.Actions.{utc_now}
use bug_free_enigma.Service.ToolRuns.Execution.{is_block, is_require_approval}
use bug_free_enigma.Service.SkillRuns.Execution.{is_executed, stop_run}
use bug_free_enigma.Service.SkillRuns.Request.{
  assess_skill_request, check_authorization, find_authorization, are_matched, authorize_run,
  admit_skill_run, file_skill_run,
}
use bug_free_enigma.Service.SkillRuns.Blind.{Adapter, with_adapter, authorize_run-blind}

-- What lets a run of a Skill through.
pub record Admits (skill : Skill) (agent : Agent) (risk : RiskAssessment) (p : PermissionResult)
    (authorization : Option ApprovalRequest) : Type 0 where
  pub enabled : skill.enabled ≡ true
  pub matched : are_matched skill agent ≡ true
  pub unblocked : risk.blocked ≡ false
  pub permitted : p.decision ≢ ActionDecision.block
  pub covered :
      (risk.requires_approval || is_require_approval p.decision) ≡ true → authorization ≢ none

module _ (env : Env) where
  pub admit_skill_run-Admits :
      (skill : Skill) (agent : Agent) (request : ActionRequest) (risk : RiskAssessment)
      (p : PermissionResult) (authorization : Option ApprovalRequest) (run : SkillRun) (c : Company)
      {r : SkillRun} {s : ApprovalStatus}
      → (admit_skill_run env skill agent request risk p authorization run c).0 ≡ ok (r, s)
      → is_executed r.status ≡ true
      → Admits skill agent risk p authorization
  unfolding admit_skill_run stop_run authorize_run
  admit_skill_run-Admits skill agent request risk p none run c h e = ground arith
  admit_skill_run-Admits skill agent request risk p (some a) run c h e = ground arith

  -- A request that the tests do not let through calls no adapter.
  pub admit_skill_run-blind :
      (other : Adapter) (skill : Skill) (agent : Agent) (request : ActionRequest)
      (risk : RiskAssessment) (p : PermissionResult) (authorization : Option ApprovalRequest)
      (run : SkillRun) (c : Company)
      → Admits skill agent risk p authorization
        ⊎ (admit_skill_run (with_adapter other env) skill agent request risk p authorization run c
            ≡ admit_skill_run env skill agent request risk p authorization run c)
  unfolding admit_skill_run stop_run utc_now authorize_run
  admit_skill_run-blind other skill agent request risk p authorization run c =
      elim (Bool-cases skill.enabled) [
        | inr off ↦ inr (rw off refl)
        | inl enabled ↦ elim (Bool-cases (are_matched skill agent)) [
          | inr off ↦ inr (rw (enabled, off) refl)
          | inl matched ↦ elim (Bool-cases (risk.blocked || is_block p.decision)) [
            | inl stop ↦ inr (rw (enabled, matched, stop) refl)
            | inr free ↦
                let admits : ((risk.requires_approval || is_require_approval p.decision) ≡ true
                      → authorization ≢ none)
                    → Admits skill agent risk p authorization =
                  λ covered. record {
                    enabled = enabled;
                    matched = matched;
                    unblocked = ground arith;
                    permitted = λ e. ground arith;
                    covered = covered;
                  } in
                elim (Bool-cases (risk.requires_approval || is_require_approval p.decision)) [
                  | inr through ↦ inl (admits (λ e. ground arith))
                  | inl held ↦ elim (Option-cases authorization) [
                    | inr (a, e) ↦ inl (admits (λ h n. ground arith))
                    | inl missing ↦ inr (
                        rw (enabled, matched, free, held, missing)
                          (authorize_run-blind other env skill request risk run c))
                  ]
                ]
          ]
        ]
      ]

  pub file_skill_run-returns :
      (request : ActionRequest) (risk : RiskAssessment) (d : SkillRun × ApprovalStatus)
      (c : Company) {r : SkillRun}
      → (file_skill_run env request risk d c).0 ≡ ok r
      → r ≡ d.0
  unfolding file_skill_run
  file_skill_run-returns request risk d c h = ground arith

-- An authorization that was found is approved, and for the task of the call.
find_authorization-some :
    (skill : Skill) (task_id : Option String) (i : Option String) (c : Company)
    {a : ApprovalRequest}
    → find_authorization skill task_id i c ≡ ok (some a)
    → (j : String) × (i ≡ some j)
      × (lookup j c.approvals ≡ some a)
      × (a.status ≡ ApprovalStatus.approved)
unfolding find_authorization check_authorization
find_authorization-some skill task_id none c h = absurd (ground arith)
find_authorization-some skill task_id (some j) c h = elim (Option-cases (lookup j c.approvals)) [
  | inl missing ↦ absurd (ground arith)
  | inr (b, e) ↦ (j, refl, ground arith, ground arith)
]

evaluate-enabled :
    (agent : Agent) (r : ActionRequest) {p : PermissionResult}
    → evaluate agent r ≡ ok p
    → p.decision ≢ ActionDecision.block
    → agent.enabled ≡ true
unfolding evaluate
evaluate-enabled agent r h e = ground arith

assess_skill_request-forbidden :
    (skill : Skill) (r : ActionRequest)
    → (assess_skill_request skill r).blocked ≡ false
    → skill.risk_level ≢ RiskLevel.forbidden
unfolding assess_skill_request
assess_skill_request-forbidden skill r h e = ground arith

assess_skill_request-approval :
    (skill : Skill) (r : ActionRequest)
    → skill.requires_approval ≡ true
    → (assess_skill_request skill r).requires_approval ≡ true
unfolding assess_skill_request
assess_skill_request-approval skill r h = ground arith

-- What holds of a Skill, an Agent and the authorization of a call whose run was executed.
pub record IsPermitted (skill : Skill) (agent : Agent) (authorization : Option String) (c : Company)
    : Type 0 where
  pub enabled : skill.enabled ≡ true
  pub agent_enabled : agent.enabled ≡ true
  pub has_skill : contains skill.skill_id agent.allowed_skills ≡ true
  pub admits_agent : contains agent.agent_id skill.allowed_agents ≡ true
  pub not_forbidden : skill.risk_level ≢ RiskLevel.forbidden
  pub approved :
      skill.requires_approval ≡ true
      → (j : String) × (a : ApprovalRequest) × (authorization ≡ some j)
        × (lookup j c.approvals ≡ some a)
        × (a.status ≡ ApprovalStatus.approved)

pub Admits-IsPermitted :
    (skill : Skill) (agent : Agent) (request : ActionRequest) (p : PermissionResult)
    (task_id authorization : Option String) (found : Option ApprovalRequest) (c : Company)
    → evaluate agent request ≡ ok p
    → find_authorization skill task_id authorization c ≡ ok found
    → Admits skill agent (assess_skill_request skill request) p found
    → IsPermitted skill agent authorization c
Admits-IsPermitted skill agent request p task_id authorization found c ep ef h = record {
  enabled = h.enabled;
  agent_enabled = evaluate-enabled agent request ep h.permitted;
  has_skill = ground (arith, h.matched);
  admits_agent = ground (arith, h.matched);
  not_forbidden = assess_skill_request-forbidden skill request h.unblocked;
  approved = λ needs. elim (Option-cases found) [
    | inl missing ↦
        absurd
          (h.covered (ground (arith, assess_skill_request-approval skill request needs)) missing)
    | inr (a, e) ↦
        let (j, named, stored, approved) =
          find_authorization-some skill task_id authorization c {a = a} (ground arith) in
        (j, a, named, stored, approved)
  ];
}
