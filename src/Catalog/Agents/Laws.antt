-- ===== src/Catalog/Agents/Laws.antt =====
-- What every registered Agent satisfies (backend/app/agents/registry.py).
use bug_free_enigma.Base.{
  String, none, some, with_item, false, List, [], ◌∷◌, ◌≡◌, inl, inr, arith, ok, All, Option-cases,
}
use bug_free_enigma.Base.Dict.{lookup, put, values, All-put, All-lookup}
use bug_free_enigma.Core.Enums.{PermissionLevel, ActionDecision}
use bug_free_enigma.Core.Models.Catalog.{Agent}
use bug_free_enigma.Core.Models.Control.{ActionRequest}
use bug_free_enigma.Safety.Permissions.{PermissionResult, evaluate}
use bug_free_enigma.Safety.Gates.{HasNoRoot, evaluate_root_level}
use bug_free_enigma.Catalog.Agents.{AgentRegistry, has_root, register, restore, grant_skill}

-- One call that changes the registry.
pub data Step (agents : AgentRegistry) : AgentRegistry → Type 0 where
  registered :
      (a : Agent) {agents' : AgentRegistry} → register a agents ≡ ok agents' → Step agents agents'
  restored :
      (a : Agent) {agents' : AgentRegistry} → restore a agents ≡ ok agents' → Step agents agents'
  granted :
      (i j : String) {agents' : AgentRegistry}
      → grant_skill i j agents ≡ ok agents'
      → Step agents agents'

pub data Reach (agents : AgentRegistry) : AgentRegistry → Type 0 where
  here : Reach agents agents
  next : {b c : AgentRegistry} → Reach agents b → Step b c → Reach agents c

abbrev pub IsRootless : AgentRegistry → Type 0
IsRootless agents = All (λ (a : Agent). HasNoRoot a.permissions) (values agents)

has_root→HasNoRoot : (ls : List PermissionLevel) → has_root ls ≡ false → HasNoRoot ls
has_root→HasNoRoot [] h = tt
has_root→HasNoRoot (l ∷ ls) h = (λ e. ground arith, has_root→HasNoRoot ls (ground arith))

-- What a registration that went through had found, and what it did.
pub register-eq-ok :
    (a : Agent) (b : AgentRegistry) {c : AgentRegistry}
    → register a b ≡ ok c
    → (lookup a.agent_id b ≡ none) × HasNoRoot a.permissions × (c ≡ put a.agent_id a b)
unfolding register
register-eq-ok a b h = (ground arith, has_root→HasNoRoot a.permissions (ground arith), ground arith)

pub restore-eq-ok :
    (a : Agent) (b : AgentRegistry) {c : AgentRegistry}
    → restore a b ≡ ok c
    → HasNoRoot a.permissions × (c ≡ put a.agent_id a b)
unfolding restore
restore-eq-ok a b h = (has_root→HasNoRoot a.permissions (ground arith), ground arith)

pub grant_skill-eq-ok :
    (i j : String) (b : AgentRegistry) {c : AgentRegistry}
    → grant_skill i j b ≡ ok c
    → (a : Agent) × (lookup i b ≡ some a)
      × (c ≡ put i (record a { allowed_skills = with_item j a.allowed_skills }) b)
unfolding grant_skill
grant_skill-eq-ok i j b h = elim (Option-cases (lookup i b)) [
  | inl missing ↦ absurd (ground arith)
  | inr (a, e) ↦ (a, e, ground arith)
]

pub Step-IsRootless : {b c : AgentRegistry} → Step b c → IsRootless b → IsRootless c
Step-IsRootless {b} (registered a e) h =
    let (_, safe, written) = register-eq-ok a b e in rw written (All-put _ a.agent_id a b safe h)
Step-IsRootless {b} (restored a e) h =
    let (safe, written) = restore-eq-ok a b e in rw written (All-put _ a.agent_id a b safe h)
Step-IsRootless {b} (granted i j e) h =
    let (a, found, written) = grant_skill-eq-ok i j b e in
    rw written (All-put _ i _ b (All-lookup _ i b h found) h)

pub Reach-IsRootless : {b c : AgentRegistry} → Reach b c → IsRootless b → IsRootless c
Reach-IsRootless here h = h
Reach-IsRootless (next r s) h = Step-IsRootless s (Reach-IsRootless r h)

-- From an empty registry, whatever Agents are registered and restored and whatever Skills are
-- granted, no Agent that the registry returns gets anything but a block for a request at the Root
-- level.
pub evaluate-registered_root :
    {agents : AgentRegistry} (i : String) {a : Agent} (r : ActionRequest) {p : PermissionResult}
    → Reach [] agents
    → lookup i agents ≡ some a
    → r.permission_level ≡ PermissionLevel.l5_root
    → evaluate a r ≡ ok p
    → p.decision ≡ ActionDecision.block
evaluate-registered_root {agents} i {a} r steps found root h =
    evaluate_root_level a r
      (All-lookup (λ (x : Agent). HasNoRoot x.permissions) i agents (Reach-IsRootless steps tt)
        found)
      root h
