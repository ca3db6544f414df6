-- ===== src/Service/ToolRuns/Gate.antt =====
-- When a requested Tool run reaches its adapter (backend/app/services/company.py).
use bug_free_enigma.Base.{
  String, Bool, true, false, Option, some, ◌||◌, ◌≡◌, ◌≢◌, ◌⊎◌, ap, ◌∙◌, refl, sym, inl, inr,
  Bool-cases, arith, ok, contains, Option-cases, Outcome-cases,
}
use bug_free_enigma.Base.Dict.{lookup}
use bug_free_enigma.Base.Text.{◌<>◌}
use bug_free_enigma.Core.Enums.{ActionDecision, ApprovalStatus, ToolRunStatus}
use bug_free_enigma.Core.Json.{Fields}
use bug_free_enigma.Core.Models.Catalog.{Agent, Tool}
use bug_free_enigma.Core.Models.Control.{ActionRequest, RiskAssessment}
use bug_free_enigma.Core.Models.Work.{ToolRun}
use bug_free_enigma.Safety.Permissions.{PermissionResult, evaluate}
use bug_free_enigma.Service.State.{Env, Company}
use bug_free_enigma.Service.Actions.{new_id, utc_now, ◌>>=◌, bind-eq-ok, bind-cong}
use bug_free_enigma.Service.ToolApproval.{assess_tool_request}
use bug_free_enigma.Safety.Risk.{IsUnlisted}
use bug_free_enigma.Safety.Permissions.{IsAllowed, evaluate-IsAllowed}
use bug_free_enigma.Core.Enums.{RiskLevel}
use bug_free_enigma.Service.ToolRuns.Risk.{assess_tool_request_exact}
use bug_free_enigma.Service.ToolRuns.Execution.{
  stop_run, ask_approval, is_block, is_require_approval,
}
use bug_free_enigma.Service.ToolRuns.Request.{
  tool_request, wait_for_approval, admit_run, file_run, new_tool_run, request_tool_run,
}
use bug_free_enigma.Service.ToolRuns.Blind.{
  Adapter, with_adapter, tool_request-blind, file_run-blind,
}

-- The adapter has run: the run is completed or failed.
abbrev pub is_executed : ToolRunStatus → Bool
is_executed ToolRunStatus.completed = true
is_executed ToolRunStatus.failed = true
is_executed _ = false

-- What lets a run through to its adapter without an approval.
pub record Admits (tool : Tool) (agent : Agent) (risk : RiskAssessment) (p : PermissionResult)
    : Type 0 where
  pub enabled : tool.enabled ≡ true
  pub allowed : contains tool.tool_id agent.allowed_tools ≡ true
  pub unblocked : risk.blocked ≡ false
  pub no_approval : risk.requires_approval ≡ false
  pub permitted : p.decision ≡ ActionDecision.allow

-- What holds of a Tool and an Agent whose request needs nobody's approval.
pub record IsUnattended (tool : Tool) (agent : Agent) (request : ActionRequest) : Type 0 where
  pub enabled : tool.enabled ≡ true
  pub allowed_tool : contains tool.tool_id agent.allowed_tools ≡ true
  pub low_risk : tool.risk_level ≡ RiskLevel.low
  pub no_approval : tool.requires_approval ≡ false
  pub unlisted : IsUnlisted request
  pub permitted : IsAllowed agent request

-- what is neither blocked nor held is allowed
allowed_decision :
    (d : ActionDecision)
    → is_block d ≡ false
    → is_require_approval d ≡ false
    → d ≡ ActionDecision.allow
allowed_decision d h e = ground arith

-- What a request that finds its Tool, its Agent and a permission goes on to do.
request_tool_run-shape :
    (env : Env) (tool_id actor_id : String) (input : Fields) (reason : String)
    (task_id : Option String) (c : Company) {tool : Tool} {agent : Agent} {p : PermissionResult}
    {request : ActionRequest}
    → lookup tool_id c.tools ≡ some tool
    → lookup actor_id c.agents ≡ some agent
    → tool_request env tool actor_id task_id reason input ≡ request
    → evaluate agent request ≡ ok p
    → let risk = assess_tool_request tool request in
      request_tool_run env tool_id actor_id input reason task_id c
      ≡ (admit_run env tool agent request risk p (
              new_tool_run env tool actor_id input reason task_id risk
                ("tool_run" <> "_" <> env.uuid_hex c.ids_drawn)
                (env.clock c.clock_reads))
            >>= file_run env tool risk)
          (utc_now env (new_id env "tool_run" c).1).1
unfolding request_tool_run
request_tool_run-shape env tool_id actor_id input reason task_id c et ea er ep = ground arith

module _ (env : Env) where
  pub admit_run-Admits :
      (tool : Tool) (agent : Agent) (request : ActionRequest) (risk : RiskAssessment)
      (p : PermissionResult) (run : ToolRun) (c : Company) {r : ToolRun} {s : ApprovalStatus}
      → (admit_run env tool agent request risk p run c).0 ≡ ok (r, s)
      → is_executed r.status ≡ true
      → Admits tool agent risk p
  unfolding admit_run stop_run wait_for_approval
  admit_run-Admits tool agent request risk p run c h e = ground arith

  -- A request that the tests do not let through calls no adapter.
  admit_run-blind :
      (other : Adapter) (tool : Tool) (agent : Agent) (request : ActionRequest)
      (risk : RiskAssessment) (p : PermissionResult) (run : ToolRun) (c : Company)
      → Admits tool agent risk p
        ⊎ (admit_run (with_adapter other env) tool agent request risk p run c
            ≡ admit_run env tool agent request risk p run c)
  unfolding admit_run stop_run utc_now wait_for_approval ask_approval new_id
  admit_run-blind other tool agent request risk p run c = elim (Bool-cases tool.enabled) [
    | inr off ↦ inr (rw off refl)
    | inl enabled ↦ elim (Bool-cases (contains tool.tool_id agent.allowed_tools)) [
      | inr off ↦ inr (rw (enabled, off) refl)
      | inl allowed ↦ elim (Bool-cases (risk.blocked || is_block p.decision)) [
        | inl stop ↦ inr (rw (enabled, allowed, stop) refl)
        | inr free ↦
            elim (Bool-cases (
              risk.requires_approval || is_require_approval p.decision || tool.requires_approval)) [
                | inl held ↦ inr (rw (enabled, allowed, free, held) refl)
                | inr through ↦ inl (record {
                  enabled = enabled;
                  allowed = allowed;
                  unblocked = ground arith;
                  no_approval = ground arith;
                  permitted = allowed_decision p.decision (ground arith) (ground arith);
                })
              ]
      ]
    ]
  ]

  file_run-returns :
      (tool : Tool) (risk : RiskAssessment) (d : ToolRun × ApprovalStatus) (c : Company)
      {r : ToolRun}
      → (file_run env tool risk d c).0 ≡ ok r
      → r ≡ d.0
  unfolding file_run
  file_run-returns tool risk d c h = ground arith

  -- What `request_tool_run` found before it ran the adapter.
  pub record Admitted (tool_id actor_id : String) (input : Fields) (reason : String)
      (task_id : Option String) (c : Company) : Type 0 where
    pub tool : Tool
    pub agent : Agent
    pub permission : PermissionResult
    pub tool_found : lookup tool_id c.tools ≡ some tool
    pub agent_found : lookup actor_id c.agents ≡ some agent
    pub evaluated :
        evaluate agent (tool_request env tool actor_id task_id reason input) ≡ ok permission
    pub admits :
        Admits tool agent
          (assess_tool_request tool (tool_request env tool actor_id task_id reason input))
          permission

  pub request_tool_run-Admitted :
      (tool_id actor_id : String) (input : Fields) (reason : String) (task_id : Option String)
      (c : Company) {r : ToolRun}
      → (request_tool_run env tool_id actor_id input reason task_id c).0 ≡ ok r
      → is_executed r.status ≡ true
      → Admitted tool_id actor_id input reason task_id c
  unfolding request_tool_run
  request_tool_run-Admitted tool_id actor_id input reason task_id c {r} h e =
      elim (Option-cases (lookup tool_id c.tools)) [
        | inl none_t ↦ absurd (ground arith)
        | inr (tool, et) ↦ elim (Option-cases (lookup actor_id c.agents)) [
          | inl none_a ↦ absurd (ground arith)
          | inr (agent, ea) ↦
              let request = tool_request env tool actor_id task_id reason input in
              let risk = assess_tool_request tool request in
              elim (Outcome-cases (evaluate agent request)) [
                | inr (x, ex) ↦ absurd (ground arith)
                | inl (p, ep) ↦
                    let run =
                      new_tool_run env tool actor_id input reason task_id risk
                        ("tool_run" <> "_" <> env.uuid_hex c.ids_drawn) (env.clock c.clock_reads) in
                    let c2 = (utc_now env (new_id env "tool_run" c).1).1 in
                    let (d, ed, ef) =
                      bind-eq-ok (admit_run env tool agent request risk p run)
                        (file_run env tool risk) c2 {b = r} (ground arith) in
                    let same =
                      file_run-returns tool risk d
                        (admit_run env tool agent request risk p run c2).1 ef in
                    record {
                      tool = tool;
                      agent = agent;
                      permission = p;
                      tool_found = et;
                      agent_found = ea;
                      evaluated = ep;
                      admits = admit_run-Admits tool agent request risk p run c2 ed (ground arith);
                    }
              ]
        ]
      ]

  -- the guards, from what the request found
  Admitted-IsUnattended :
      {tool_id actor_id : String} {input : Fields} {reason : String} {task_id : Option String}
      {c : Company}
      → Admitted tool_id actor_id input reason task_id c
      → (tool : Tool) × (agent : Agent) × (lookup tool_id c.tools ≡ some tool)
        × (lookup actor_id c.agents ≡ some agent)
        × IsUnattended tool agent (tool_request env tool actor_id task_id reason input)
  Admitted-IsUnattended {tool_id} {actor_id} {input} {reason} {task_id} found =
      let request = tool_request env found.tool actor_id task_id reason input in
      let (unlisted, low, unmarked) =
        (assess_tool_request_exact found.tool request).0.0 found.admits.no_approval in
      (
        found.tool,
        found.agent,
        found.tool_found,
        found.agent_found,
        record {
          enabled = found.admits.enabled;
          allowed_tool = found.admits.allowed;
          low_risk = low;
          no_approval = unmarked;
          unlisted = unlisted;
          permitted = evaluate-IsAllowed found.agent request found.evaluated found.admits.permitted;
        },
      )

  -- A request that is not let through calls no adapter.
  request_tool_run-blind :
      (other : Adapter) (tool_id actor_id : String) (input : Fields) (reason : String)
      (task_id : Option String) (c : Company)
      → Admitted tool_id actor_id input reason task_id c
        ⊎ (request_tool_run (with_adapter other env) tool_id actor_id input reason task_id c
            ≡ request_tool_run env tool_id actor_id input reason task_id c)
  unfolding request_tool_run new_id utc_now
  request_tool_run-blind other tool_id actor_id input reason task_id c =
      elim (Option-cases (lookup tool_id c.tools)) [
        | inl et ↦ inr (ground arith)
        | inr (tool, et) ↦ elim (Option-cases (lookup actor_id c.agents)) [
          | inl ea ↦ inr (ground arith)
          | inr (agent, ea) ↦
              let request = tool_request env tool actor_id task_id reason input in
              let same = tool_request-blind other env tool actor_id task_id reason input in
              elim (Outcome-cases (evaluate agent request)) [
                | inr (x, ep) ↦ inr (ground (arith, ap (evaluate agent) same ∙ ep))
                | inl (p, ep) ↦
                    let risk = assess_tool_request tool request in
                    let run =
                      new_tool_run env tool actor_id input reason task_id risk
                        ("tool_run" <> "_" <> env.uuid_hex c.ids_drawn) (env.clock c.clock_reads) in
                    let c2 = (utc_now env (new_id env "tool_run" c).1).1 in
                    elim (admit_run-blind other tool agent request risk p run c2) [
                      | inl admits ↦ inl (record {
                        tool = tool;
                        agent = agent;
                        permission = p;
                        tool_found = et;
                        agent_found = ea;
                        evaluated = ep;
                        admits = admits;
                      })
                      | inr alike ↦ inr (
                          request_tool_run-shape (with_adapter other env) tool_id actor_id input
                            reason task_id c et ea same ep
                          ∙ bind-cong
                              (admit_run (with_adapter other env) tool agent request risk p run)
                              (admit_run env tool agent request risk p run)
                              (file_run (with_adapter other env) tool risk) (file_run env tool risk)
                              c2 alike (file_run-blind other env tool risk)
                          ∙ sym (
                              request_tool_run-shape env tool_id actor_id input reason task_id c et
                                ea refl ep))
                    ]
              ]
        ]
      ]

  -- A call of `request_tool_run` that depends on the Tool adapters in anything, what it gives back,
  -- what it raises or what it leaves in the stores, or that gives back a run that is completed or
  -- failed, without anybody's approval, finds this: the Tool and the Agent were registered, the Tool
  -- was enabled, of low risk, not marked for approval and among the Agent's Tools, no policy list
  -- named the action, its level was neither L3 nor L4, and the permission engine allowed it to the
  -- Agent.
  pub request_tool_run-IsUnattended :
      (other : Adapter) (tool_id actor_id : String) (input : Fields) (reason : String)
      (task_id : Option String) (c : Company)
      → (request_tool_run (with_adapter other env) tool_id actor_id input reason task_id c
          ≢ request_tool_run env tool_id actor_id input reason task_id c)
        ⊎ ((r : ToolRun) × ((request_tool_run env tool_id actor_id input reason task_id c).0 ≡ ok r)
            × (is_executed r.status ≡ true))
      → (tool : Tool) × (agent : Agent) × (lookup tool_id c.tools ≡ some tool)
        × (lookup actor_id c.agents ≡ some agent)
        × IsUnattended tool agent (tool_request env tool actor_id task_id reason input)
  request_tool_run-IsUnattended other tool_id actor_id input reason task_id c (inr (r, h, e)) =
      Admitted-IsUnattended (request_tool_run-Admitted tool_id actor_id input reason task_id c h e)
  request_tool_run-IsUnattended other tool_id actor_id input reason task_id c (inl differs) =
      elim (request_tool_run-blind other tool_id actor_id input reason task_id c) [
        | inl admitted ↦ Admitted-IsUnattended admitted
        | inr same ↦ absurd (differs same)
      ]
