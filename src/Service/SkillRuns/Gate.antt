-- ===== src/Service/SkillRuns/Gate.antt =====
-- When a requested Skill run is executed (backend/app/services/company.py).
use bug_free_enigma.Base.{
  String, true, Option, none, some, ◌≡◌, ◌≢◌, ◌⊎◌, refl, sym, ◌∙◌, inl, inr, arith, ok,
  Option-cases, Outcome-cases,
}
use bug_free_enigma.Base.Dict.{lookup}
use bug_free_enigma.Base.Text.{◌<>◌}
use bug_free_enigma.Core.Json.{Fields}
use bug_free_enigma.Core.Models.Catalog.{Agent, Skill}
use bug_free_enigma.Core.Models.Control.{ApprovalRequest}
use bug_free_enigma.Core.Models.Work.{SkillRun}
use bug_free_enigma.Safety.Permissions.{PermissionResult, evaluate}
use bug_free_enigma.Service.State.{Env, Company}
use bug_free_enigma.Service.Actions.{◌>>=◌, bind-eq-ok, bind-cong, new_id, utc_now}
use bug_free_enigma.Service.SkillRuns.Execution.{is_executed}
use bug_free_enigma.Service.SkillRuns.Request.{
  skill_request, assess_skill_request, find_authorization, new_skill_run, admit_skill_run,
  file_skill_run, request_skill_run,
}
use bug_free_enigma.Service.SkillRuns.Blind.{Adapter, with_adapter, file_skill_run-blind}
use bug_free_enigma.Service.SkillRuns.Admission.{
  Admits, IsPermitted, admit_skill_run-Admits, admit_skill_run-blind, file_skill_run-returns,
  Admits-IsPermitted,
}

module _ (env : Env) where
  -- the draw of an identifier and a reading of the clock change no approval
  authorization_later :
      (skill : Skill) (task_id authorization : Option String) (c : Company)
      → find_authorization skill task_id authorization (utc_now env (new_id env "skill_run" c).1).1
        ≡ find_authorization skill task_id authorization c
  unfolding find_authorization new_id utc_now
  authorization_later skill task_id none c = refl
  authorization_later skill task_id (some i) c = refl

  -- What `request_skill_run` found before it executed the Skill.
  record Admitted (skill_id actor_id reason : String) (task_id authorization : Option String)
      (c : Company) : Type 0 where
    skill : Skill
    agent : Agent
    permission : PermissionResult
    found : Option ApprovalRequest
    skill_found : lookup skill_id c.skills ≡ some skill
    agent_found : lookup actor_id c.agents ≡ some agent
    evaluated : evaluate agent (skill_request skill actor_id task_id reason) ≡ ok permission
    searched :
        find_authorization skill task_id authorization (utc_now env (new_id env "skill_run" c).1).1
        ≡ ok found
    admits :
        Admits skill agent
          (assess_skill_request skill (skill_request skill actor_id task_id reason))
          permission
          found

  Admitted-IsPermitted :
      {skill_id actor_id reason : String} {task_id authorization : Option String} {c : Company}
      → Admitted skill_id actor_id reason task_id authorization c
      → (skill : Skill) × (agent : Agent) × (lookup skill_id c.skills ≡ some skill)
        × (lookup actor_id c.agents ≡ some agent)
        × IsPermitted skill agent authorization c
  Admitted-IsPermitted {skill_id} {actor_id} {reason} {task_id} {authorization} {c} a = (
    a.skill,
    a.agent,
    a.skill_found,
    a.agent_found,
    Admits-IsPermitted a.skill a.agent (skill_request a.skill actor_id task_id reason) a.permission
        task_id authorization a.found c a.evaluated
        (sym (authorization_later a.skill task_id authorization c) ∙ a.searched) a.admits,
  )

  -- What a request that passes its look-ups goes on to do.
  request_skill_run-shape :
      (skill_id actor_id : String) (input : Fields) (reason : String)
      (task_id authorization : Option String) (c : Company) {skill : Skill} {agent : Agent}
      {p : PermissionResult} {found : Option ApprovalRequest}
      → lookup skill_id c.skills ≡ some skill
      → lookup actor_id c.agents ≡ some agent
      → evaluate agent (skill_request skill actor_id task_id reason) ≡ ok p
      → find_authorization skill task_id authorization (utc_now env (new_id env "skill_run" c).1).1
        ≡ ok found
      → let request = skill_request skill actor_id task_id reason in
        let risk = assess_skill_request skill request in
        request_skill_run env skill_id actor_id input reason task_id authorization c
        ≡ (admit_skill_run env skill agent request risk p found (
                new_skill_run skill actor_id input reason task_id risk
                  ("skill_run" <> "_" <> env.uuid_hex c.ids_drawn)
                  (env.clock c.clock_reads))
              >>= file_skill_run env request risk)
            (utc_now env (new_id env "skill_run" c).1).1
  unfolding request_skill_run
  request_skill_run-shape skill_id actor_id input reason task_id authorization c es ea ep ef =
      ground arith

  -- Either the request was refused by a look-up, or it went on.
  request_skill_run-executed :
      (skill_id actor_id : String) (input : Fields) (reason : String)
      (task_id authorization : Option String) (c : Company) {r : SkillRun}
      → (request_skill_run env skill_id actor_id input reason task_id authorization c).0 ≡ ok r
      → is_executed r.status ≡ true
      → Admitted skill_id actor_id reason task_id authorization c
  unfolding request_skill_run
  request_skill_run-executed skill_id actor_id input reason task_id authorization c {r} h e =
      elim (Option-cases (lookup skill_id c.skills)) [
        | inl no_skill ↦ absurd (ground arith)
        | inr (skill, es) ↦ elim (Option-cases (lookup actor_id c.agents)) [
          | inl no_agent ↦ absurd (ground arith)
          | inr (agent, ea) ↦
              let request = skill_request skill actor_id task_id reason in
              let risk = assess_skill_request skill request in
              let c2 = (utc_now env (new_id env "skill_run" c).1).1 in
              elim (Outcome-cases (evaluate agent request)) [
                | inr (x, ex) ↦ absurd (ground arith)
                | inl (p, ep) ↦
                    elim (Outcome-cases (find_authorization skill task_id authorization c2)) [
                      | inr (x, ex) ↦ absurd (ground arith)
                      | inl (found, ef) ↦
                          let run =
                            new_skill_run skill actor_id input reason task_id risk
                              ("skill_run" <> "_" <> env.uuid_hex c.ids_drawn)
                              (env.clock c.clock_reads) in
                          let (d, ed, er) =
                            bind-eq-ok (admit_skill_run env skill agent request risk p found run)
                              (file_skill_run env request risk) c2 {b = r} (ground arith) in
                          let same =
                            file_skill_run-returns env request risk d
                              (admit_skill_run env skill agent request risk p found run c2).1 er in
                          let admits =
                            admit_skill_run-Admits env skill agent request risk p found run c2
                              {r = d.0} {s = d.1} ed (ground arith) in
                          record {
                            skill = skill;
                            agent = agent;
                            permission = p;
                            found = found;
                            skill_found = es;
                            agent_found = ea;
                            evaluated = ep;
                            searched = ef;
                            admits = admits;
                          }
                    ]
              ]
        ]
      ]

-- A request that is not let through calls no adapter.
request_skill_run-blind :
    (env : Env) (other : Adapter) (skill_id actor_id : String) (input : Fields) (reason : String)
    (task_id authorization : Option String) (c : Company)
    → Admitted env skill_id actor_id reason task_id authorization c
      ⊎ (request_skill_run
            (with_adapter other env)
            skill_id
            actor_id
            input
            reason
            task_id
            authorization
            c
          ≡ request_skill_run env skill_id actor_id input reason task_id authorization c)
unfolding request_skill_run new_id utc_now
request_skill_run-blind env other skill_id actor_id input reason task_id authorization c =
    let new = with_adapter other env in
    elim (Option-cases (lookup skill_id c.skills)) [
      | inl es ↦ inr (ground arith)
      | inr (skill, es) ↦ elim (Option-cases (lookup actor_id c.agents)) [
        | inl ea ↦ inr (ground arith)
        | inr (agent, ea) ↦
            let request = skill_request skill actor_id task_id reason in
            let risk = assess_skill_request skill request in
            let c2 = (utc_now env (new_id env "skill_run" c).1).1 in
            elim (Outcome-cases (evaluate agent request)) [
              | inr (x, ep) ↦ inr (ground arith)
              | inl (p, ep) ↦
                  elim (Outcome-cases (find_authorization skill task_id authorization c2)) [
                    | inr (x, ef) ↦ inr (ground arith)
                    | inl (found, ef) ↦
                        let run =
                          new_skill_run skill actor_id input reason task_id risk
                            ("skill_run" <> "_" <> env.uuid_hex c.ids_drawn)
                            (env.clock c.clock_reads) in
                        elim (admit_skill_run-blind env other skill agent request risk p found run
                          c2) [
                            | inl admits ↦ inl (record {
                              skill = skill;
                              agent = agent;
                              permission = p;
                              found = found;
                              skill_found = es;
                              agent_found = ea;
                              evaluated = ep;
                              searched = ef;
                              admits = admits;
                            })
                            | inr alike ↦ inr (
                                request_skill_run-shape new skill_id actor_id input reason task_id
                                  authorization c es ea ep ef
                                ∙ bind-cong
                                    (admit_skill_run new skill agent request risk p found run)
                                    (admit_skill_run env skill agent request risk p found run)
                                    (file_skill_run new request risk)
                                    (file_skill_run env request risk) c2 alike
                                    (file_skill_run-blind other env request risk)
                                ∙ sym (
                                    request_skill_run-shape env skill_id actor_id input reason
                                      task_id authorization c es ea ep ef))
                          ]
                  ]
            ]
      ]
    ]

-- A call of `request_skill_run` that depends on the Skill adapters in anything, what it gives back,
-- what it raises or what it leaves in the stores, or that gives back a run that is completed or
-- failed, finds this: the Skill and the Agent were registered and enabled, each named the other, the
-- Skill's risk was not forbidden, and if the Skill asks for approval, then the call named an
-- approval that was stored and approved.
pub request_skill_run-IsPermitted :
    (env : Env) (other : Adapter) (skill_id actor_id : String) (input : Fields) (reason : String)
    (task_id authorization : Option String) (c : Company)
    → (request_skill_run
          (with_adapter other env)
          skill_id
          actor_id
          input
          reason
          task_id
          authorization
          c
        ≢ request_skill_run env skill_id actor_id input reason task_id authorization c)
      ⊎ ((r : SkillRun) × ((request_skill_run env skill_id actor_id input reason task_id
              authorization c).0
            ≡ ok r)
          × (is_executed r.status ≡ true))
    → (skill : Skill) × (agent : Agent) × (lookup skill_id c.skills ≡ some skill)
      × (lookup actor_id c.agents ≡ some agent)
      × IsPermitted skill agent authorization c
request_skill_run-IsPermitted env other skill_id actor_id input reason task_id authorization c
      (inr (r, h, e)) =
    Admitted-IsPermitted env
      (request_skill_run-executed env skill_id actor_id input reason task_id authorization c h e)
request_skill_run-IsPermitted env other skill_id actor_id input reason task_id authorization c
      (inl differs) =
    elim (request_skill_run-blind env other skill_id actor_id input reason task_id authorization
      c) [ inl admitted ↦ Admitted-IsPermitted env admitted | inr same ↦ absurd (differs same) ]
