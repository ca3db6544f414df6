-- ===== src/Approvals/Lifecycle.antt =====
-- The life of an approval over any sequence of requests and decisions
-- (backend/app/approvals/service.py).
use bug_free_enigma.Base.{
  String, true, false, none, some, ◌≡◌, ◌≢◌, arith, ok, Option-cases, eq_iff, All, inl, inr,
}
use bug_free_enigma.Base.Dict.{lookup, put, values, lookup-put, All-put, All-lookup}
use bug_free_enigma.Core.Enums.{ApprovalStatus}
use bug_free_enigma.Core.Models.Control.{ActionRequest, RiskAssessment, ApprovalRequest}
use bug_free_enigma.Core.Time.{Instant}
use bug_free_enigma.Approvals.{
  ApprovalCenter, request_approval, new_approval, decide, decided, is_open, is_decision,
}

-- One call on the center. A request comes with an identifier that is not in use.
pub data Step (c : ApprovalCenter) : ApprovalCenter → Type 0 where
  requested :
      (approval_id : String) (created now : Instant) (request : ActionRequest)
      (risk : RiskAssessment) (benefit loss : String)
      → lookup approval_id c ≡ none
      → {c' : ApprovalCenter}
      → c' ≡ (request_approval approval_id created now request risk benefit loss c).1
      → Step c c'
  decision :
      (approval_id : String) (status : ApprovalStatus) (by note : String) (now : Instant)
      (a : ApprovalRequest) {c' : ApprovalCenter}
      → decide approval_id status by note now c ≡ ok (a, c')
      → Step c c'

pub data Reach (c : ApprovalCenter) : ApprovalCenter → Type 0 where
  here : Reach c c
  next : {d e : ApprovalCenter} → Reach c d → Step d e → Reach c e

approval_id-new_approval :
    (j : String) (created now : Instant) (r : ActionRequest) (risk : RiskAssessment) (b l : String)
    → (new_approval j created now r risk b l).approval_id ≡ j
unfolding new_approval
approval_id-new_approval j created now r risk b l = ground arith

-- What a successful decision found and did.
pub decide-eq-ok :
    (i : String) (s : ApprovalStatus) (by note : String) (now : Instant) (c : ApprovalCenter)
    {a : ApprovalRequest} {c' : ApprovalCenter}
    → decide i s by note now c ≡ ok (a, c')
    → (old : ApprovalRequest) × (lookup i c ≡ some old)
      × (is_open old.status ≡ true)
      × (is_decision s ≡ true)
      × (a ≡ decided s by note now old)
      × (c' ≡ put i (decided s by note now old) c)
unfolding decide
decide-eq-ok i s by note now c h = elim (Option-cases (lookup i c)) [
  | inl missing ↦ absurd (ground arith)
  | inr (old, e) ↦ (old, e, ground arith, ground arith, ground arith, ground arith)
]

-- An approval that is no longer open stays as it is, under whatever identifier the call is made.
Step-final :
    (i : String) {c d : ApprovalCenter} {a : ApprovalRequest}
    → Step c d
    → lookup i c ≡ some a
    → is_open a.status ≡ false
    → lookup i d ≡ some a
unfolding request_approval
Step-final i {c} (requested j created now r risk b l fresh e) h final =
    let made = new_approval j created now r risk b l in
    ground
      (arith, approval_id-new_approval j created now r risk b l, lookup-put j i made c, eq_iff j i)
Step-final i {c} (decision j s by note now a' e) h final =
    let (old, found, opened, _, _, written) = decide-eq-ok j s by note now c e in
    ground (arith, lookup-put j i (decided s by note now old) c, eq_iff j i)

-- Once an approval has a final status, no sequence of later requests and decisions changes any of
-- its fields.
pub Reach-final :
    (i : String) {c d : ApprovalCenter} {a : ApprovalRequest}
    → lookup i c ≡ some a
    → is_open a.status ≡ false
    → Reach c d
    → lookup i d ≡ some a
Reach-final i h final here = h
Reach-final i h final (next r s) = Step-final i s (Reach-final i h final r) final

-- What holds of each approval of the center.
pub record IsSound (a : ApprovalRequest) : Type 0 where
  -- what the risk engine blocked is blocked for good
  pub blocked_stays : a.risk.blocked ≡ true → a.status ≡ ApprovalStatus.blocked
  -- nobody has decided a pending approval, and somebody has decided every other
  pub undecided : a.status ≡ ApprovalStatus.pending → a.decided_by ≡ none
  pub signed : a.status ≢ ApprovalStatus.pending → (a.decided_by ≢ none) × (a.decided_at ≢ none)
  pub possible : a.status ≢ ApprovalStatus.not_required

new_approval-IsSound :
    (j : String) (created now : Instant) (r : ActionRequest) (risk : RiskAssessment) (b l : String)
    → IsSound (new_approval j created now r risk b l)
unfolding new_approval
new_approval-IsSound j created now r risk b l = ground arith

decided-IsSound :
    (s : ApprovalStatus) (by note : String) (now : Instant) (old : ApprovalRequest)
    → IsSound old
    → is_open old.status ≡ true
    → is_decision s ≡ true
    → IsSound (decided s by note now old)
decided-IsSound s by note now old h opened fits = ground arith

Step-IsSound : {c d : ApprovalCenter} → Step c d → All IsSound (values c) → All IsSound (values d)
unfolding request_approval
Step-IsSound {c} (requested j created now r risk b l fresh e) h = rw e (
    rw (approval_id-new_approval j created now r risk b l)
      (All-put IsSound j _ c (new_approval-IsSound j created now r risk b l) h))
Step-IsSound {c} (decision j s by note now a' e) h =
    let (old, found, opened, fits, _, written) = decide-eq-ok j s by note now c e in
    rw written (
      All-put IsSound j _ c
        (decided-IsSound s by note now old (All-lookup IsSound j c h found) opened fits) h)

-- In every center that requests and decisions reach from a sound one, an approval of a blocked
-- request has the status `blocked`, only a pending approval is undecided, and every other carries
-- who decided it and when.
pub Reach-IsSound :
    {c d : ApprovalCenter} → All IsSound (values c) → Reach c d → All IsSound (values d)
Reach-IsSound h here = h
Reach-IsSound h (next r s) = Step-IsSound s (Reach-IsSound h r)
