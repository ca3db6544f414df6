-- ===== src/Safety/Permissions.antt =====
-- backend/app/permissions/engine.py: `PermissionEngine`.
use Prim.Native.Nat.{max}
use bug_free_enigma.Base.{
  ℕ, ◌≤◌, String, true, false, not, ◌||◌, List, [], ◌∷◌, ◌≡◌, ◌↔◌, ◌≢◌, ◌⊎◌, inl, inr, arith, Error,
  Outcome, ok, err, value_error, ◌>>=◌, Outcome-cases, ltb, contains, if◌then◌else◌,
}
use bug_free_enigma.Core.Enums.{PermissionLevel, ActionDecision}
use bug_free_enigma.Core.Models.Catalog.{Agent}
use bug_free_enigma.Core.Models.Control.{ActionRequest}
use bug_free_enigma.Safety.Policy.{root_only_actions, permission_order}
use bug_free_enigma.Safety.Risk.{is_l3, is_l4}

pub record PermissionResult : Type 0 where
  pub decision : ActionDecision
  pub reason : String

abbrev pub block : String → PermissionResult
block reason = record { decision = ActionDecision.block; reason = reason }

-- the greatest order of a grant, from `acc` on
abbrev pub max_from : ℕ → List PermissionLevel → ℕ
max_from acc [] = acc
max_from acc (level ∷ levels) = max_from (max acc (permission_order level)) levels

-- `max(PERMISSION_ORDER[level] for level in agent.permissions)`, which raises on no permission
unfoldable pub max_order : List PermissionLevel → Outcome ℕ
max_order [] = err (value_error "max() iterable argument is empty" [])
max_order (level ∷ levels) = ok (max_from (permission_order level) levels)

-- the part of `evaluate` below the agent's own boundary
abbrev evaluate_level : PermissionLevel → ℕ → PermissionResult
evaluate_level level agent_max_level =
    if ltb agent_max_level (permission_order level)
    then block "permission level exceeds agent boundary"
    else if is_l3 level || is_l4 level
    then record { decision = ActionDecision.require_approval; reason = "action requires approval" }
    else record { decision = ActionDecision.allow; reason = "permission allowed" }

unfoldable pub evaluate : Agent → ActionRequest → Outcome PermissionResult
evaluate agent request =
    if not agent.enabled
    then ok (block "agent is disabled")
    else if contains request.action root_only_actions
    then ok (block "action is Human Root only")
    else if contains request.action agent.forbidden
    then ok (block "action is forbidden for this agent")
    else (do
      agent_max_level ← max_order agent.permissions
      ok (evaluate_level request.permission_level agent_max_level))

-- Some grant is of order `n` or more.
abbrev pub Covers : List PermissionLevel → ℕ → Type 0
Covers [] n = ⊥
Covers (l ∷ ls) n = (n ≤ permission_order l) ⊎ Covers ls n

-- What the engine lets through with no approval.
pub record IsAllowed (agent : Agent) (r : ActionRequest) : Type 0 where
  pub enabled : agent.enabled ≡ true
  pub not_root_only : contains r.action root_only_actions ≡ false
  pub not_forbidden : contains r.action agent.forbidden ≡ false
  pub covered : Covers agent.permissions (permission_order r.permission_level)
  pub not_l3 : r.permission_level ≢ PermissionLevel.l3_external_prepare
  pub not_l4 : r.permission_level ≢ PermissionLevel.l4_high_risk

le-max_from :
    (n acc : ℕ) (ls : List PermissionLevel) → (n ≤ max_from acc ls) ↔ ((n ≤ acc) ⊎ Covers ls n)
le-max_from n acc [] = (λ h. inl h, λ h. ground arith)
le-max_from n acc (l ∷ ls) =
    let rest = le-max_from n (max acc (permission_order l)) ls in
    (λ h. ground (arith, rest.0 h), λ h. rest.1 (ground arith))

-- The test against the greatest grant is the search for a grant that is high enough.
pub Covers-le-max_order :
    (n m : ℕ) (ls : List PermissionLevel) → max_order ls ≡ ok m → (n ≤ m) ↔ Covers ls n
unfolding max_order
Covers-le-max_order n m [] h = absurd (cc)
Covers-le-max_order n m (l ∷ ls) h =
    let e = le-max_from n (permission_order l) ls in
    (λ le. ground (arith, e.0), λ c. ground (arith, e.1 c))

Covers-max_order :
    (n : ℕ) (x : Error) (ls : List PermissionLevel) → max_order ls ≡ err x → Covers ls n → ⊥
unfolding max_order
Covers-max_order n x [] h c = c
Covers-max_order n x (l ∷ ls) h c = cc

-- The engine allows a request with no approval exactly when the Agent is enabled, neither the
-- Root-only list nor the Agent's own list names the action, one of the Agent's permissions is at
-- least the requested level, and that level is neither L3 nor L4.
pub evaluate_exact :
    (agent : Agent) (r : ActionRequest)
    → (evaluate agent r
        ≡ ok (record { decision = ActionDecision.allow; reason = "permission allowed" }))
      ↔ IsAllowed agent r
unfolding evaluate
evaluate_exact agent r =
    let level = permission_order r.permission_level in
    elim (Outcome-cases (max_order agent.permissions)) [
      | inl (m, e) ↦
          let c = Covers-le-max_order level m agent.permissions e in
          (λ h. ground (arith, c.0), λ h. ground (arith, c.1 h.covered))
      | inr (x, e) ↦ (
        λ h. absurd (ground arith),
        λ h. absurd (Covers-max_order level x agent.permissions e h.covered),
      )
    ]

-- A result that allows is the one of the last branch.
pub evaluate-IsAllowed :
    (agent : Agent) (r : ActionRequest) {p : PermissionResult}
    → evaluate agent r ≡ ok p
    → p.decision ≡ ActionDecision.allow
    → IsAllowed agent r
unfolding evaluate
evaluate-IsAllowed agent r h e =
    (evaluate_exact agent r).0 (ground (arith, Outcome-cases (max_order agent.permissions)))
