-- ===== src/Service/SkillRuns/Waiting.antt =====
-- What `complete_skill_run` (backend/app/services/company.py) reads before it changes anything.
use bug_free_enigma.Base.{
  some, String, false, not, [], ◌≡◌, inl, inr, arith, Option-cases, Outcome, ok, err, value_error,
  raise_if, ◌>>=◌, ◌>>◌,
}
use bug_free_enigma.Base.Text.{text_or}
use bug_free_enigma.Base.Dict.{lookup, get}
use bug_free_enigma.Core.Enums.{ApprovalStatus, SkillRunStatus}
use bug_free_enigma.Core.Models.Catalog.{Agent, Skill}
use bug_free_enigma.Core.Models.Control.{ApprovalRequest}
use bug_free_enigma.Core.Models.Work.{SkillRun}
use bug_free_enigma.Service.State.{Company}
use bug_free_enigma.Service.ToolRuns.Execution.{is_approved, missing}
use bug_free_enigma.Service.SkillRuns.Execution.{is_waiting}

-- the run that waits, and its approval
unfoldable pub approved_run : String → Company → Outcome (SkillRun × ApprovalRequest)
approved_run run_id c = do
  run ← get run_id c.skill_runs
  raise_if (not (is_waiting run.status)) (value_error "skill run is not waiting for approval" [])
  raise_if (missing run.approval_id) (value_error "skill run has no approval" [])
  approval ← get (text_or "" run.approval_id) c.approvals
  raise_if (not (is_approved approval.status)) (value_error "skill run approval is not approved" [])
  ok (run, approval)

-- the Skill and the Agent of a run
unfoldable pub parties : SkillRun → Company → Outcome (Skill × Agent)
parties run c = do
  skill ← get run.skill_id c.skills
  agent ← get run.actor_id c.agents
  ok (skill, agent)

pub approved_run-eq-ok :
    (i : String) (c : Company) {run : SkillRun} {a : ApprovalRequest}
    → approved_run i c ≡ ok (run, a)
    → (lookup i c.skill_runs ≡ some run)
      × (run.status ≡ SkillRunStatus.waiting_approval)
      × (lookup (text_or "" run.approval_id) c.approvals ≡ some a)
      × (a.status ≡ ApprovalStatus.approved)
unfolding approved_run
approved_run-eq-ok i c h = elim (Option-cases (lookup i c.skill_runs)) [
  | inl no_run ↦ absurd (ground arith)
  | inr (run, e) ↦ elim (Option-cases (lookup (text_or "" run.approval_id) c.approvals)) [
    | inl no_approval ↦ absurd (ground arith)
    | inr (a, f) ↦ (ground arith, ground arith, ground arith, ground arith)
  ]
]

-- a run that is stored and not waiting is turned away
pub approved_run-settled :
    (i : String) (c : Company) {run : SkillRun}
    → lookup i c.skill_runs ≡ some run
    → is_waiting run.status ≡ false
    → approved_run i c ≡ err (value_error "skill run is not waiting for approval" [])
unfolding approved_run
approved_run-settled i c found h = ground arith

pub parties-eq-ok :
    (run : SkillRun) (c : Company) {skill : Skill} {agent : Agent}
    → parties run c ≡ ok (skill, agent)
    → (lookup run.skill_id c.skills ≡ some skill) × (lookup run.actor_id c.agents ≡ some agent)
unfolding parties
parties-eq-ok run c h = elim (Option-cases (lookup run.skill_id c.skills)) [
  | inl no_skill ↦ absurd (ground arith)
  | inr (skill, e) ↦ (ground arith, ground arith)
]
