-- ===== src/Service/ToolRuns/Completion.antt =====
-- What `complete_tool_run` executes, and how often (backend/app/services/company.py).
use bug_free_enigma.Base.{
  Error, String, true, false, Option, some, ◌≡◌, ◌≢◌, ◌⊎◌, refl, inl, inr, arith, Outcome, ok, err,
  value_error, [], contains, Bool-cases, Option-cases, Outcome-cases, sym, ap, ◌∙◌, eq_iff,
}
use bug_free_enigma.Base.Text.{text_or}
use bug_free_enigma.Base.Dict.{lookup, put, lookup-put}
use bug_free_enigma.Core.Enums.{ApprovalStatus, ToolRunStatus}
use bug_free_enigma.Core.Models.Catalog.{Agent, Tool}
use bug_free_enigma.Core.Models.Control.{ApprovalRequest}
use bug_free_enigma.Core.Models.Work.{ToolRun}
use bug_free_enigma.Safety.Permissions.{PermissionResult, evaluate}
use bug_free_enigma.Service.State.{Env, Company}
use bug_free_enigma.Service.Actions.{continue, bind-eq-ok, bind-cong}
use bug_free_enigma.Service.ToolApproval.{assess_tool_request}
use bug_free_enigma.Service.ToolRuns.Execution.{is_waiting, is_approved}
use bug_free_enigma.Service.ToolRuns.Request.{tool_request}
use bug_free_enigma.Service.ToolRuns.Waiting.{waiting_run, live_controls}
use bug_free_enigma.Service.ToolRuns.Decision.{revalidate_run, file_completion, complete_tool_run}
use bug_free_enigma.Service.ToolRuns.Gate.{is_executed}
use bug_free_enigma.Service.ToolRuns.Revalidation.{
  Authorizes, Revalidated, file_completion-stored, file_completion-returns, revalidate_run-settles,
  revalidate_run-Revalidated, tool_approval_matches_run-Authorizes,
}
use bug_free_enigma.Service.ToolRuns.Blind.{
  Adapter, with_adapter, live_controls-blind, tool_request-blind, file_completion-blind,
}
use bug_free_enigma.Service.ToolRuns.Reach.{revalidate_run-blind}

module _ (env : Env) where
  -- What `complete_tool_run` found before it gave back a run.
  record Found (i : String) (c : Company) : Type 0 where
    run : ToolRun
    approval : ApprovalRequest
    tool : Tool
    agent : Agent
    permission : PermissionResult
    waited : waiting_run i c ≡ ok (run, approval)
    approved : approval.status ≡ ApprovalStatus.approved
    controls : live_controls env run c ≡ ok (tool, agent, permission)

  -- the last part of the method, from what it found
  abbrev settles : {i : String} {c : Company} → Found i c → Company → Outcome ToolRun × Company
  settles f =
      revalidate_run env f.tool f.agent f.approval
        (assess_tool_request f.tool
          (tool_request env f.tool f.run.actor_id f.run.task_id f.run.reason f.run.input))
        f.permission f.run

  complete_tool_run-Found :
      (i by : String) (remark : Option String) (c : Company) {r : ToolRun}
      → (complete_tool_run env i by remark c).0 ≡ ok r
      → (f : Found i c) × (complete_tool_run env i by remark c
          ≡ continue (settles f c).0 (file_completion env i by remark f.approval) (settles f c).1)
  unfolding complete_tool_run
  complete_tool_run-Found i by remark c {r} h = elim (Outcome-cases (waiting_run i c)) [
    | inr (x, e) ↦ absurd (ground arith)
    | inl ((run, approval), ew) ↦ elim (Outcome-cases (live_controls env run c)) [
      | inr (x, e) ↦ absurd (ground arith)
      | inl ((tool, agent, p), el) ↦ (
        record {
          run = run;
          approval = approval;
          tool = tool;
          agent = agent;
          permission = p;
          waited = ew;
          approved = ground arith;
          controls = el;
        },
        ground arith,
      )
    ]
  ]

complete_tool_run-refused :
    (env : Env) (i by : String) (remark : Option String) (c : Company) {x : Error}
    → waiting_run i c ≡ err x
    → (complete_tool_run env i by remark c).0 ≡ err x
unfolding complete_tool_run
complete_tool_run-refused env i by remark c h = ground arith

waiting_run-eq-ok :
    (i : String) (c : Company) {run : ToolRun} {a : ApprovalRequest}
    → waiting_run i c ≡ ok (run, a)
    → (lookup i c.tool_runs ≡ some run)
      × (run.status ≡ ToolRunStatus.waiting_approval)
      × (lookup (text_or "" run.approval_id) c.approvals ≡ some a)
unfolding waiting_run
waiting_run-eq-ok i c h = elim (Option-cases (lookup i c.tool_runs)) [
  | inl no_run ↦ absurd (ground arith)
  | inr (run, er) ↦ (ground arith, ground arith, ground arith)
]

-- a run that is stored and not waiting is turned away
waiting_run-settled :
    (i : String) (c : Company) {run : ToolRun}
    → lookup i c.tool_runs ≡ some run
    → is_waiting run.status ≡ false
    → waiting_run i c ≡ err (value_error "tool run is not waiting for approval" [])
unfolding waiting_run
waiting_run-settled i c found h = ground arith

live_controls-eq-ok :
    (env : Env) (run : ToolRun) (c : Company) {tool : Tool} {agent : Agent} {p : PermissionResult}
    → live_controls env run c ≡ ok (tool, agent, p)
    → (lookup run.tool_id c.tools ≡ some tool)
      × (lookup run.actor_id c.agents ≡ some agent)
      × (evaluate agent (tool_request env tool run.actor_id run.task_id run.reason run.input)
          ≡ ok p)
unfolding live_controls
live_controls-eq-ok env run c h = elim (Option-cases (lookup run.tool_id c.tools)) [
  | inl no_tool ↦ absurd (ground arith)
  | inr (tool, et) ↦ elim (Option-cases (lookup run.actor_id c.agents)) [
    | inl no_agent ↦ absurd (ground arith)
    | inr (agent, ea) ↦
        elim (Outcome-cases
          (evaluate agent (tool_request env tool run.actor_id run.task_id run.reason run.input))) [
            | inl (p, ep) ↦ (ground arith, ground arith, ground arith)
            | inr (x, ex) ↦ absurd (ground arith)
          ]
  ]
]

-- Everything that stands when an approved run is executed.
pub record IsApproved (env : Env) (i : String) (c : Company) : Type 0 where
  pub run : ToolRun
  pub approval : ApprovalRequest
  pub tool : Tool
  pub agent : Agent
  pub run_found : lookup i c.tool_runs ≡ some run
  pub waiting : run.status ≡ ToolRunStatus.waiting_approval
  pub approval_found : lookup (text_or "" run.approval_id) c.approvals ≡ some approval
  pub approved : approval.status ≡ ApprovalStatus.approved
  pub authorizes : Authorizes env approval run tool
  pub tool_found : lookup run.tool_id c.tools ≡ some tool
  pub enabled : tool.enabled ≡ true
  pub agent_found : lookup run.actor_id c.agents ≡ some agent
  pub allowed : contains tool.tool_id agent.allowed_tools ≡ true
  pub unblocked :
      (assess_tool_request tool
        (tool_request env tool run.actor_id run.task_id run.reason run.input)).blocked
      ≡ false

Revalidated-IsApproved :
    (env : Env) {i : String} {c : Company} (f : Found env i c)
    → Revalidated env f.tool f.agent f.approval
        (assess_tool_request f.tool
          (tool_request env f.tool f.run.actor_id f.run.task_id f.run.reason f.run.input))
        f.permission
        f.run
    → IsApproved env i c
Revalidated-IsApproved env {i} {c} f v =
    let (er, w, ea) = waiting_run-eq-ok i c f.waited in
    let (et, eg, ep) = live_controls-eq-ok env f.run c f.controls in
    record {
      run = f.run;
      approval = f.approval;
      tool = f.tool;
      agent = f.agent;
      run_found = er;
      waiting = w;
      approval_found = ea;
      approved = f.approved;
      authorizes = tool_approval_matches_run-Authorizes env f.approval f.run f.tool v.authorized;
      tool_found = et;
      enabled = v.enabled;
      agent_found = eg;
      allowed = v.allowed;
      unblocked = v.unblocked;
    }

executed-IsApproved :
    (env : Env) (i by : String) (remark : Option String) (c : Company) {r : ToolRun}
    → (complete_tool_run env i by remark c).0 ≡ ok r
    → is_executed r.status ≡ true
    → IsApproved env i c
executed-IsApproved env i by remark c {r} h e =
    let (f, shape) = complete_tool_run-Found env i by remark c h in
    let (run', settled, filed) =
      bind-eq-ok (settles env f) (file_completion env i by remark f.approval) c {b = r}
        (sym (ap (λ x. x.0) shape) ∙ h) in
    let same = file_completion-returns env i by remark f.approval run' (settles env f c).1 filed in
    Revalidated-IsApproved env f (
      revalidate_run-Revalidated env f.tool f.agent f.approval _ f.permission f.run c settled
        (ground arith))

-- A call that does not let the run through calls no adapter.
complete_tool_run-blind :
    (env : Env) (other : Adapter) (i by : String) (remark : Option String) (c : Company)
    → IsApproved env i c
      ⊎ (complete_tool_run (with_adapter other env) i by remark c
          ≡ complete_tool_run env i by remark c)
unfolding complete_tool_run
complete_tool_run-blind env other i by remark c = elim (Outcome-cases (waiting_run i c)) [
  | inr (x, ew) ↦ inr (rw ew refl)
  | inl ((run, approval), ew) ↦ elim (Bool-cases (is_approved approval.status)) [
    | inr off ↦ inr (rw (ew, off) refl)
    | inl approved ↦ elim (Outcome-cases (live_controls env run c)) [
      | inr (x, el) ↦ inr (rw (ew, approved, live_controls-blind other env run c, el) refl)
      | inl ((tool, agent, p), el) ↦
          let found : Found env i c = record {
            run = run;
            approval = approval;
            tool = tool;
            agent = agent;
            permission = p;
            waited = ew;
            approved = ground arith;
            controls = el;
          } in
          elim (revalidate_run-blind other env tool agent approval _ p run c) [
            | inl v ↦ inl (Revalidated-IsApproved env found v)
            | inr same ↦
                let request =
                  tool_request-blind other env tool run.actor_id run.task_id run.reason run.input in
                let settled =
                  ap
                    (λ r.
                      revalidate_run (with_adapter other env) tool agent approval
                        (assess_tool_request tool r) p run c)
                    request
                  ∙ same in
                inr (
                  rw (ew, approved, live_controls-blind other env run c, el)
                    (bind-cong (revalidate_run (with_adapter other env) tool agent approval _ p run)
                      (revalidate_run env tool agent approval _ p run)
                      (file_completion (with_adapter other env) i by remark approval)
                      (file_completion env i by remark approval) c settled
                      (file_completion-blind other env i by remark approval)))
          ]
    ]
  ]
]

-- A call of `complete_tool_run` that depends on the Tool adapters in anything, what it gives back,
-- what it raises or what it leaves in the stores, or that gives back a run that is completed or
-- failed, finds this: the stored run was waiting, its approval was approved, by the Human Root, for
-- that very action, Agent and Tool, and at that moment the Tool was still enabled and among the
-- Agent's Tools, and its risk was not forbidden.
pub complete_tool_run-IsApproved :
    (env : Env) (other : Adapter) (i by : String) (remark : Option String) (c : Company)
    → (complete_tool_run (with_adapter other env) i by remark c
        ≢ complete_tool_run env i by remark c)
      ⊎ ((r : ToolRun) × ((complete_tool_run env i by remark c).0 ≡ ok r)
          × (is_executed r.status ≡ true))
    → IsApproved env i c
complete_tool_run-IsApproved env other i by remark c (inr (r, h, e)) =
    executed-IsApproved env i by remark c h e
complete_tool_run-IsApproved env other i by remark c (inl differs) =
    elim (complete_tool_run-blind env other i by remark c) [
      | inl approved ↦ approved
      | inr same ↦ absurd (differs same)
    ]

-- A run is completed at most once: after `complete_tool_run` has given a run back, whatever its
-- status, every further completion of the same run is refused.
pub complete_tool_run_once :
    (env : Env) (i by by' : String) (remark remark' : Option String) (c : Company) {r : ToolRun}
    → (complete_tool_run env i by remark c).0 ≡ ok r
    → (complete_tool_run env i by' remark' (complete_tool_run env i by remark c).1).0
      ≡ err (value_error "tool run is not waiting for approval" [])
complete_tool_run_once env i by by' remark remark' c {r} h =
    let (f, shape) = complete_tool_run-Found env i by remark c h in
    let (run', settled, filed) =
      bind-eq-ok (settles env f) (file_completion env i by remark f.approval) c {b = r}
        (sym (ap (λ x. x.0) shape) ∙ h) in
    let d = (settles env f c).1 in
    let e = (complete_tool_run env i by remark c).1 in
    let stored : e.tool_runs ≡ put i run' d.tool_runs =
      ground (arith, shape, file_completion-stored env i by remark f.approval run' d) in
    let found : lookup i e.tool_runs ≡ some run' =
      ground (arith, stored, eq_iff i i, lookup-put i i run' d.tool_runs) in
    complete_tool_run-refused env i by' remark' e (
      waiting_run-settled i e found
        (revalidate_run-settles env f.tool f.agent f.approval _ f.permission f.run c settled))
