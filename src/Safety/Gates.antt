-- ===== src/Safety/Gates.antt =====
-- What the two engines say together. `max_order` over an Agent that the registry accepted.
use bug_free_enigma.Base.{List, [], ◌∷◌, ◌≡◌, ◌≢◌, arith, ok, All, Outcome-cases, inl, inr}
use bug_free_enigma.Core.Enums.{PermissionLevel, ActionDecision}
use bug_free_enigma.Core.Models.Catalog.{Agent}
use bug_free_enigma.Core.Models.Control.{ActionRequest}
use bug_free_enigma.Safety.Permissions.{
  Covers, PermissionResult, evaluate, max_order, Covers-le-max_order,
}

-- No permission of the list is the Human Root's.
abbrev pub HasNoRoot : List PermissionLevel → Type 0
HasNoRoot = All (λ level. level ≢ PermissionLevel.l5_root)

Covers-HasNoRoot : (ls : List PermissionLevel) → HasNoRoot ls → Covers ls 5 → ⊥
Covers-HasNoRoot [] h c = c
Covers-HasNoRoot (PermissionLevel.l5_root ∷ ls) h c = ground (arith, Covers-HasNoRoot ls h.1)
Covers-HasNoRoot (_ ∷ ls) h c = ground (arith, Covers-HasNoRoot ls h.1)

-- An Agent without the Root permission is blocked from every request at the Root level, whatever
-- its action: whenever the engine answers, the answer is a block.
pub evaluate_root_level :
    (agent : Agent) (r : ActionRequest) {p : PermissionResult}
    → HasNoRoot agent.permissions
    → r.permission_level ≡ PermissionLevel.l5_root
    → evaluate agent r ≡ ok p
    → p.decision ≡ ActionDecision.block
unfolding evaluate
evaluate_root_level agent r none_root root h = elim (Outcome-cases (max_order agent.permissions)) [
  | inl (m, e) ↦ ground (
    arith,
    (Covers-le-max_order 5 m agent.permissions e).0,
    Covers-HasNoRoot agent.permissions none_root,
  )
  | inr (x, e) ↦ ground arith
]
