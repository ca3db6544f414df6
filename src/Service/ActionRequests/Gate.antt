-- ===== src/Service/ActionRequests/Gate.antt =====
-- What a request for an action comes to (backend/app/services/company.py:
-- `request_action_approval`).
use mathlib.Core.Path.{subst}
use bug_free_enigma.Base.Text.{◌<>◌}
use bug_free_enigma.Base.{
  ok-eq, sym, ap, ◌∙◌, String, Bool, true, false, ◌&&◌, ◌||◌, none, some, ◌≡◌, refl, arith, inl,
  inr, if◌then◌else◌, ok, Option-cases, Bool-cases,
}
use bug_free_enigma.Base.Dict.{lookup}
use bug_free_enigma.Core.Enums.{ActionDecision, ApprovalStatus}
use bug_free_enigma.Core.Models.Catalog.{Agent}
use bug_free_enigma.Core.Models.Control.{ActionRequest, RiskAssessment, ApprovalRequest}
use bug_free_enigma.Safety.Risk.{assess, assess_exact, IsUnlisted}
use bug_free_enigma.Safety.Permissions.{PermissionResult, IsAllowed, evaluate-IsAllowed}
use bug_free_enigma.Service.Records.{log_event}
use bug_free_enigma.Approvals.{request_approval}
use bug_free_enigma.Service.State.{Env, Company}
use bug_free_enigma.Service.Actions.{Action, bind-eq-ok, pure, asks}
use bug_free_enigma.Service.ToolRuns.Execution.{is_block, ask_approval}
use bug_free_enigma.Service.ActionRequests.{
  ActionReply, Filed, filed_as, permission_of, should_block, should_approve, is_pending,
  block_by_permission, file_approval, file_request, report_blocked_request, answer_request,
  request_action_approval,
}

-- A registered Agent that the engine allows a request which no policy lists.
abbrev pub LetThrough : ActionRequest → Company → Type 0
LetThrough request c =
    (agent : Agent) × (lookup request.actor_id c.agents ≡ some agent)
    × IsAllowed agent request
    × IsUnlisted request

then_ok :
    {A : Type 0} (b : Bool) (m n : Action A) (c : Company) {x : A}
    → b ≡ true
    → ((if b then m else n) c).0 ≡ ok x
    → (m c).0 ≡ ok x
then_ok true m n c e h = h
then_ok false m n c e h = absurd (cc)

else_ok :
    {A : Type 0} (b : Bool) (m n : Action A) (c : Company) {x : A}
    → b ≡ false
    → ((if b then m else n) c).0 ≡ ok x
    → (n c).0 ≡ ok x
else_ok true m n c e h = absurd (cc)
else_ok false m n c e h = h

-- what is filed for a request
data Verdict (blocks approves : Bool) (filed : Filed) : Type 0 where
  passed :
      blocks ≡ false
      → approves ≡ false
      → filed.approval ≡ none
      → filed.result ≡ "allowed"
      → Verdict blocks approves filed
  asked :
      (a : ApprovalRequest)
      → blocks ≡ false
      → filed.approval ≡ some a
      → a.status ≡ ApprovalStatus.pending
      → filed.result ≡ "approval_required"
      → Verdict blocks approves filed
  stopped :
      (a : ApprovalRequest)
      → blocks ≡ true
      → filed.approval ≡ some a
      → a.status ≡ ApprovalStatus.blocked
      → filed.result ≡ "blocked"
      → Verdict blocks approves filed

module _ (env : Env) where
  ask_approval-status :
      (request : ActionRequest) (risk : RiskAssessment) (benefit loss : String) (c : Company)
      → (a : ApprovalRequest) × ((ask_approval env request risk benefit loss c).0 ≡ ok a)
        × (a.status ≡ (if risk.blocked then ApprovalStatus.blocked else ApprovalStatus.pending))
  unfolding ask_approval request_approval
  ask_approval-status request risk benefit loss c = elim (Bool-cases risk.blocked) [
    | inl e ↦ rw e (_, refl, refl)
    | inr e ↦ rw e (_, refl, refl)
  ]

  block_by_permission-status :
      (reason : String) (a b : ApprovalRequest) (c : Company)
      → (block_by_permission env reason a c).0 ≡ ok b
      → b.status ≡ ApprovalStatus.blocked
  unfolding block_by_permission
  block_by_permission-status reason a b c h = ground arith

  -- the status after the permission engine's block, if there is one
  settled :
      (forbidden denied : Bool) (reason : String) (first a : ApprovalRequest) (d : Company)
      → first.status ≡ (if forbidden then ApprovalStatus.blocked else ApprovalStatus.pending)
      → ((if (forbidden || denied) && is_pending first.status
            then block_by_permission env reason first
            else pure first)
          d).0
        ≡ ok a
      → a.status ≡ (if forbidden || denied then ApprovalStatus.blocked else ApprovalStatus.pending)
  settled true denied reason first a d s h =
      let kept =
        subst
          (λ st.
            ((if is_pending st then block_by_permission env reason first else pure first) d).0
            ≡ ok a)
          s h in
      ap (λ (x : ApprovalRequest). x.status) (sym (ok-eq kept)) ∙ s
  settled false true reason first a d s h = block_by_permission-status reason first a d (
      subst
        (λ st.
          ((if is_pending st then block_by_permission env reason first else pure first) d).0 ≡ ok a)
        s h)
  settled false false reason first a d s h =
      ap (λ (x : ApprovalRequest). x.status) (sym (ok-eq h)) ∙ s

  -- the status of what is filed
  file_approval-status :
      (request : ActionRequest) (risk : RiskAssessment) (p : PermissionResult)
      (benefit loss : String) (c : Company) {a : ApprovalRequest}
      → (file_approval env request risk p benefit loss c).0 ≡ ok a
      → a.status ≡ (if should_block risk p then ApprovalStatus.blocked else ApprovalStatus.pending)
  unfolding file_approval
  file_approval-status request risk p benefit loss c {a} h =
      let text = (if should_block risk p then loss <> (" Permission: " <> p.reason) else loss) in
      let (first, e1, e2) = bind-eq-ok (ask_approval env request risk benefit text) _ c {b = a} h in
      let (other, e3, s) = ask_approval-status request risk benefit text c in
      settled risk.blocked (is_block p.decision) p.reason first a
        (ask_approval env request risk benefit text c).1
        (ap (λ (x : ApprovalRequest). x.status) (ok-eq (sym e1 ∙ e3)) ∙ s) e2

  filed_as-Verdict :
      (blocks approves : Bool) (a : ApprovalRequest) (filed : Filed)
      → (blocks || approves) ≡ true
      → a.status ≡ (if blocks then ApprovalStatus.blocked else ApprovalStatus.pending)
      → filed_as a ≡ filed
      → Verdict blocks approves filed
  filed_as-Verdict true approves a filed some_gate s e =
      subst (Verdict true approves) e (Verdict.stopped a refl refl s (ground (arith, s)))
  filed_as-Verdict false approves a filed some_gate s e =
      subst (Verdict false approves) e (Verdict.asked a refl refl s (ground (arith, s)))

  file_request-Verdict :
      (request : ActionRequest) (risk : RiskAssessment) (p : PermissionResult)
      (benefit loss : String) (c : Company) {filed : Filed}
      → (file_request env request risk p benefit loss c).0 ≡ ok filed
      → Verdict (should_block risk p) (should_approve risk p) filed
  unfolding file_request
  file_request-Verdict request risk p benefit loss c {filed} h =
      elim (Bool-cases (should_block risk p || should_approve risk p)) [
        | inl gate ↦
            let (a, e1, e2) =
              bind-eq-ok (file_approval env request risk p benefit loss) _ c {b = filed}
                (then_ok _ _ _ c gate h) in
            filed_as-Verdict (should_block risk p) (should_approve risk p) a filed gate
              (file_approval-status request risk p benefit loss c e1) (ok-eq e2)
        | inr free ↦
            let same = ok-eq (else_ok _ _ _ c free h) in
            Verdict.passed (ground arith) (ground arith) (ap (λ (x : Filed). x.approval) (sym same))
              (ap (λ (x : Filed). x.result) (sym same))
      ]

-- A reply that says "allowed" has a registered Agent that the engine allows the request, which no
-- policy lists, and no approval. Any other has an approval: a blocked one where the risk engine or
-- the permission engine blocks the request, and else one that waits for a decision.
pub data IsGated (request : ActionRequest) (c : Company) (reply : ActionReply) : Type 0 where
  allowed :
      LetThrough request c
      → reply.result ≡ "allowed"
      → reply.approval ≡ none
      → IsGated request c reply
  waits :
      (a : ApprovalRequest) (p : PermissionResult)
      → permission_of request c ≡ ok p
      → should_block (assess request) p ≡ false
      → reply.approval ≡ some a
      → a.status ≡ ApprovalStatus.pending
      → reply.result ≡ "approval_required"
      → IsGated request c reply
  refused :
      (a : ApprovalRequest) (p : PermissionResult)
      → permission_of request c ≡ ok p
      → should_block (assess request) p ≡ true
      → reply.approval ≡ some a
      → a.status ≡ ApprovalStatus.blocked
      → reply.result ≡ "blocked"
      → IsGated request c reply

let_through :
    (request : ActionRequest) (c : Company) (p : PermissionResult)
    → permission_of request c ≡ ok p
    → should_block (assess request) p ≡ false
    → should_approve (assess request) p ≡ false
    → LetThrough request c
let_through request c p evaluated blocks approves =
    let allowed : p.decision ≡ ActionDecision.allow = ground arith in
    let unlisted = (assess_exact request).1.0 (ground arith) in
    elim (Option-cases (lookup request.actor_id c.agents)) [
      | inl missing ↦ absurd (ground arith)
      | inr (agent, found) ↦
          (agent, found, evaluate-IsAllowed agent request {p = p} (ground arith) allowed, unlisted)
    ]

module _ (env : Env) where
  answer_request-same :
      (request : ActionRequest) (risk : RiskAssessment) (p : PermissionResult) (filed : Filed)
      (c : Company) {reply : ActionReply}
      → (answer_request env request risk p filed c).0 ≡ ok reply
      → (reply.approval ≡ filed.approval) × (reply.result ≡ filed.result)
  unfolding answer_request log_event
  answer_request-same request risk p filed c {reply} h =
      let (incident, e1, e2) =
        bind-eq-ok (report_blocked_request env request risk p filed) _ c {b = reply} h in
      let same = ok-eq e2 in
      (
        ap (λ (x : ActionReply). x.approval) (sym same),
        ap (λ (x : ActionReply). x.result) (sym same),
      )

  -- Every reply to a request for an action is gated: only a registered Agent whom the permission
  -- engine allows a request that no policy lists is told that it is allowed; every other request
  -- leaves an approval, which is blocked where one of the engines blocks and waits otherwise.
  pub request_action_approval-IsGated :
      (request : ActionRequest) (benefit loss : String) (c : Company) {reply : ActionReply}
      → (request_action_approval env request benefit loss c).0 ≡ ok reply
      → IsGated request c reply
  unfolding request_action_approval
  request_action_approval-IsGated request benefit loss c {reply} h =
      let risk = assess request in
      let (p, evaluated, rest) = bind-eq-ok (asks (permission_of request)) _ c {b = reply} h in
      let (filed, e1, e2) =
        bind-eq-ok (file_request env request risk p benefit loss) _ c {b = reply} rest in
      let (approval, result) = answer_request-same request risk p filed _ e2 in
      elim (file_request-Verdict env request risk p benefit loss c e1) [
        | Verdict.passed blocks approves unfiled said ↦
            IsGated.allowed (let_through request c p evaluated blocks approves) (result ∙ said)
              (approval ∙ unfiled)
        | Verdict.asked a blocks filed_a pending said ↦
            IsGated.waits a p evaluated blocks (approval ∙ filed_a) pending (result ∙ said)
        | Verdict.stopped a blocks filed_a blocked said ↦
            IsGated.refused a p evaluated blocks (approval ∙ filed_a) blocked (result ∙ said)
      ]
