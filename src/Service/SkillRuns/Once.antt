-- ===== src/Service/SkillRuns/Once.antt =====
-- What `complete_skill_run` executes, and how often (backend/app/services/company.py).
use bug_free_enigma.Base.{
  String, true, false, Option, some, [], ◌≡◌, ◌≢◌, ◌⊎◌, ◌&&◌, Bool-cases, refl, sym, ap, ◌∙◌, inl,
  inr, arith, ok, err, Error, value_error, contains, eq_iff, Outcome-cases,
}
use bug_free_enigma.Base.Text.{text_or}
use bug_free_enigma.Base.Dict.{lookup, put, lookup-put}
use bug_free_enigma.Core.Enums.{ApprovalStatus, SkillRunStatus}
use bug_free_enigma.Core.Models.Work.{SkillRun}
use bug_free_enigma.Service.State.{Env, Company}
use bug_free_enigma.Service.Actions.{bind-eq-ok, bind-cong, bind-after-ok, new_id, utc_now}
use bug_free_enigma.Service.Records.{log_event}
use bug_free_enigma.Service.SkillRuns.Execution.{
  is_waiting, is_executed, stop_run, complete_run, after_adapter, call_adapter, execute_skill_run,
}
use bug_free_enigma.Service.SkillRuns.Waiting.{
  approved_run, parties, approved_run-eq-ok, approved_run-settled, parties-eq-ok,
}
use bug_free_enigma.Service.SkillRuns.Completion.{
  SkillDecision, settle_skill_run, file_skill_completion, conclude_skill_run, complete_skill_run,
}
use bug_free_enigma.Service.SkillRuns.Blind.{Adapter, with_adapter, file_skill_completion-blind}

-- What stands when an approved run is executed.
pub record IsDecided (i : String) (c : Company) (d : SkillDecision) : Type 0 where
  pub run_found : lookup i c.skill_runs ≡ some d.run
  pub waiting : d.run.status ≡ SkillRunStatus.waiting_approval
  pub approval_found : lookup (text_or "" d.run.approval_id) c.approvals ≡ some d.approval
  pub approved : d.approval.status ≡ ApprovalStatus.approved
  pub skill_found : lookup d.run.skill_id c.skills ≡ some d.skill
  pub enabled : d.skill.enabled ≡ true
  pub agent_found : lookup d.run.actor_id c.agents ≡ some d.agent
  pub has_skill : contains d.run.skill_id d.agent.allowed_skills ≡ true
  pub admits_agent : contains d.agent.agent_id d.skill.allowed_agents ≡ true

module _ (env : Env) where
  -- What `complete_skill_run` found before it gave back a run.
  record Found (i : String) (c : Company) : Type 0 where
    decision : SkillDecision
    waited : approved_run i c ≡ ok (decision.run, decision.approval)
    named : parties decision.run c ≡ ok (decision.skill, decision.agent)

  complete_skill_run-Found :
      (i by : String) (remark : Option String) (c : Company) {r : SkillRun}
      → (complete_skill_run env i by remark c).0 ≡ ok r
      → (f : Found i c) × (complete_skill_run env i by remark c
          ≡ conclude_skill_run env i by remark f.decision c)
  unfolding complete_skill_run
  complete_skill_run-Found i by remark c h = elim (Outcome-cases (approved_run i c)) [
    | inr (x, e) ↦ absurd (ground arith)
    | inl ((run, approval), ew) ↦ elim (Outcome-cases (parties run c)) [
      | inr (x, e) ↦ absurd (ground arith)
      | inl ((skill, agent), ep) ↦ (
        record {
          decision = record { run = run; approval = approval; skill = skill; agent = agent };
          waited = ew;
          named = ep;
        },
        ground arith,
      )
    ]
  ]

  complete_skill_run-refused :
      (i by : String) (remark : Option String) (c : Company) {x : Error}
      → approved_run i c ≡ err x
      → (complete_skill_run env i by remark c).0 ≡ err x
  unfolding complete_skill_run
  complete_skill_run-refused i by remark c h = ground arith

  settle_skill_run-settles :
      (d : SkillDecision) (c : Company) {r : SkillRun}
      → (settle_skill_run env d c).0 ≡ ok r
      → is_waiting r.status ≡ false
  unfolding settle_skill_run stop_run execute_skill_run call_adapter after_adapter complete_run
  settle_skill_run-settles d c h = ground arith

  file_skill_completion-stored :
      (i by : String) (remark : Option String) (d : SkillDecision) (r : SkillRun) (c : Company)
      → ((file_skill_completion env i by remark d r c).0 ≡ ok r)
        × ((file_skill_completion env i by remark d r c).1.skill_runs ≡ put i r c.skill_runs)
  unfolding file_skill_completion log_event new_id utc_now
  file_skill_completion-stored i by remark d r c = (refl, refl)

  -- A Skill run is completed at most once: after `complete_skill_run` has given a run back, whatever
  -- its status, every further completion of the same run is refused.
  pub complete_skill_run_once :
      (i by by' : String) (remark remark' : Option String) (c : Company) {r : SkillRun}
      → (complete_skill_run env i by remark c).0 ≡ ok r
      → (complete_skill_run env i by' remark' (complete_skill_run env i by remark c).1).0
        ≡ err (value_error "skill run is not waiting for approval" [])
  unfolding conclude_skill_run
  complete_skill_run_once i by by' remark remark' c {r} h =
      let (f, shape) = complete_skill_run-Found i by remark c h in
      let settle = settle_skill_run env f.decision in
      let file = file_skill_completion env i by remark f.decision in
      let (run', settled, filed) =
        bind-eq-ok settle file c {b = r} (sym (ap (λ x. x.0) shape) ∙ h) in
      let d = (settle c).1 in
      let e = (complete_skill_run env i by remark c).1 in
      let (back, stored) = file_skill_completion-stored i by remark f.decision run' d in
      let last : e ≡ (file run' d).1 =
        ap (λ x. x.1) (shape ∙ bind-after-ok settle file c settled) in
      let found : lookup i e.skill_runs ≡ some run' =
        ground (arith, last, stored, eq_iff i i, lookup-put i i run' d.skill_runs) in
      complete_skill_run-refused i by' remark' e
        (approved_run-settled i e found (settle_skill_run-settles f.decision c settled))

  settle_skill_run-executed :
      (d : SkillDecision) (c : Company) {r : SkillRun}
      → (settle_skill_run env d c).0 ≡ ok r
      → is_executed r.status ≡ true
      → (d.skill.enabled ≡ true)
        × (contains d.run.skill_id d.agent.allowed_skills ≡ true)
        × (contains d.agent.agent_id d.skill.allowed_agents ≡ true)
  unfolding settle_skill_run stop_run
  settle_skill_run-executed d c h e = (ground arith, ground arith, ground arith)

  -- Skill and Agent, at the moment of the execution
  record Cleared (d : SkillDecision) : Type 0 where
    enabled : d.skill.enabled ≡ true
    has_skill : contains d.run.skill_id d.agent.allowed_skills ≡ true
    admits_agent : contains d.agent.agent_id d.skill.allowed_agents ≡ true

  Cleared-IsDecided :
      {i : String} {c : Company} (f : Found i c) → Cleared f.decision → IsDecided i c f.decision
  Cleared-IsDecided {i} {c} f cleared =
      let (er, w, ea, approved) = approved_run-eq-ok i c f.waited in
      let (es, eg) = parties-eq-ok f.decision.run c f.named in
      record {
        run_found = er;
        waiting = w;
        approval_found = ea;
        approved = approved;
        skill_found = es;
        enabled = cleared.enabled;
        agent_found = eg;
        has_skill = cleared.has_skill;
        admits_agent = cleared.admits_agent;
      }

  executed-IsDecided :
      (i by : String) (remark : Option String) (c : Company) {r : SkillRun}
      → (complete_skill_run env i by remark c).0 ≡ ok r
      → is_executed r.status ≡ true
      → (d : SkillDecision) × IsDecided i c d
  unfolding conclude_skill_run
  executed-IsDecided i by remark c {r} h e =
      let (f, shape) = complete_skill_run-Found i by remark c h in
      let settle = settle_skill_run env f.decision in
      let file = file_skill_completion env i by remark f.decision in
      let (run', settled, filed) =
        bind-eq-ok settle file c {b = r} (sym (ap (λ x. x.0) shape) ∙ h) in
      let (back, stored) = file_skill_completion-stored i by remark f.decision run' (settle c).1 in
      let same : run' ≡ r = ground (arith, back, filed) in
      let (enabled, has_skill, admits_agent) =
        settle_skill_run-executed f.decision c {r = r} (settled ∙ ap (λ x. ok x) same) e in
      (
        f.decision,
        Cleared-IsDecided f
            (record { enabled = enabled; has_skill = has_skill; admits_agent = admits_agent }),
      )

  -- A settlement that does not let the run through calls no adapter.
  settle_skill_run-blind :
      (other : Adapter) (d : SkillDecision) (c : Company)
      → Cleared d ⊎ (settle_skill_run (with_adapter other env) d c ≡ settle_skill_run env d c)
  unfolding settle_skill_run stop_run utc_now
  settle_skill_run-blind other d c = elim (Bool-cases d.skill.enabled) [
    | inr off ↦ inr (rw off refl)
    | inl enabled ↦
        elim (Bool-cases (
          contains d.run.skill_id d.agent.allowed_skills
          && contains d.agent.agent_id d.skill.allowed_agents)) [
            | inr off ↦ inr (rw (enabled, off) refl)
            | inl matched ↦ inl (record {
              enabled = enabled;
              has_skill = ground arith;
              admits_agent = ground arith;
            })
          ]
  ]

  -- A call that does not let the run through calls no adapter.
  complete_skill_run-blind :
      (other : Adapter) (i by : String) (remark : Option String) (c : Company)
      → ((d : SkillDecision) × IsDecided i c d)
        ⊎ (complete_skill_run (with_adapter other env) i by remark c
            ≡ complete_skill_run env i by remark c)
  unfolding complete_skill_run conclude_skill_run
  complete_skill_run-blind other i by remark c = elim (Outcome-cases (approved_run i c)) [
    | inr (x, ew) ↦ inr (rw ew refl)
    | inl ((run, approval), ew) ↦ elim (Outcome-cases (parties run c)) [
      | inr (x, ep) ↦ inr (rw (ew, ep) refl)
      | inl ((skill, agent), ep) ↦
          let d : SkillDecision = record {
            run = run;
            approval = approval;
            skill = skill;
            agent = agent;
          } in
          elim (settle_skill_run-blind other d c) [
            | inl cleared ↦
                inl
                  (d, Cleared-IsDecided (record { decision = d; waited = ew; named = ep }) cleared)
            | inr same ↦ inr (
                rw (ew, ep)
                  (bind-cong (settle_skill_run (with_adapter other env) d) (settle_skill_run env d)
                    (file_skill_completion (with_adapter other env) i by remark d)
                    (file_skill_completion env i by remark d) c same
                    (file_skill_completion-blind other env i by remark d)))
          ]
    ]
  ]

  -- A call of `complete_skill_run` that depends on the Skill adapters in anything, what it gives
  -- back, what it raises or what it leaves in the stores, or that gives back a run that is completed
  -- or failed, finds this: the stored run was waiting and its approval was approved, and at that
  -- moment the Skill was enabled and the Skill and the Agent still named each other.
  pub complete_skill_run-IsDecided :
      (other : Adapter) (i by : String) (remark : Option String) (c : Company)
      → (complete_skill_run (with_adapter other env) i by remark c
          ≢ complete_skill_run env i by remark c)
        ⊎ ((r : SkillRun) × ((complete_skill_run env i by remark c).0 ≡ ok r)
            × (is_executed r.status ≡ true))
      → (d : SkillDecision) × IsDecided i c d
  complete_skill_run-IsDecided other i by remark c (inr (r, h, e)) =
      executed-IsDecided i by remark c h e
  complete_skill_run-IsDecided other i by remark c (inl differs) =
      elim (complete_skill_run-blind other i by remark c) [
        | inl decided ↦ decided
        | inr same ↦ absurd (differs same)
      ]
