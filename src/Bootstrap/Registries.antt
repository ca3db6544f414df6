-- ===== src/Bootstrap/Registries.antt =====
-- What holds of the registries that a boot loads (backend/app/bootstrap.py), whatever was stored.
use bug_free_enigma.Base.{
  Bool, List, [], ◌∷◌, ◌≡◌, arith, Outcome, ok, All, >>=-eq-ok, Bool-cases, contains, map, inl, inr,
}
use bug_free_enigma.Base.Dict.{values, IsKeyed, IsKeyed-put}
use bug_free_enigma.Core.Models.Catalog.{Agent, Skill, Tool}
use bug_free_enigma.Catalog.Agents
use bug_free_enigma.Catalog.Agents.Laws as AgentLaws
use bug_free_enigma.Catalog.Agents.{AgentRegistry, default_agents}
use bug_free_enigma.Catalog.Skills
use bug_free_enigma.Catalog.Skills.Laws as SkillLaws
use bug_free_enigma.Catalog.Skills.{SkillRegistry, default_skills}
use bug_free_enigma.Catalog.Tools
use bug_free_enigma.Catalog.Tools.Laws as ToolLaws
use bug_free_enigma.Catalog.Tools.{ToolRegistry, default_tools}
use bug_free_enigma.Bootstrap.{load, register_if_absent, load_agents, load_skills, load_tools}

-- What every step keeps, the loop keeps.
pub load_inv :
    {A R : Type 0} (P : R → Type 0) (step : A → R → Outcome R)
    → ((x : A) (r r' : R) → step x r ≡ ok r' → P r → P r')
    → (xs : List A) (r : R) {r' : R} → load step xs r ≡ ok r'
    → P r
    → P r'
unfolding load
load_inv P step keep [] r h p = ground arith
load_inv P step keep (x ∷ xs) r h p =
    let (r', first, rest) = >>=-eq-ok (step x r) (load step xs) h in
    load_inv P step keep xs r' rest (keep x r r' first p)

abbrev pub AgentsOk : AgentRegistry → Type 0
AgentsOk r = IsKeyed (λ (a : Agent). a.agent_id) r × AgentLaws.IsRootless r

abbrev pub SkillsOk : SkillRegistry → Type 0
SkillsOk r = IsKeyed (λ (s : Skill). s.skill_id) r × All SkillLaws.IsGuarded (values r)

abbrev pub ToolsOk : ToolRegistry → Type 0
ToolsOk r = IsKeyed (λ (t : Tool). t.tool_id) r × All ToolLaws.IsGuarded (values r)

pub register-AgentsOk :
    (a : Agent) (b c : AgentRegistry) → Agents.register a b ≡ ok c → AgentsOk b → AgentsOk c
register-AgentsOk a b c e h =
    let (_, _, written) = AgentLaws.register-eq-ok a b e in
    (
      rw written (IsKeyed-put (λ (x : Agent). x.agent_id) a b h.0),
      AgentLaws.Step-IsRootless (AgentLaws.Step.registered a e) h.1,
    )

restore-AgentsOk :
    (a : Agent) (b c : AgentRegistry) → Agents.restore a b ≡ ok c → AgentsOk b → AgentsOk c
restore-AgentsOk a b c e h =
    let (_, written) = AgentLaws.restore-eq-ok a b e in
    (
      rw written (IsKeyed-put (λ (x : Agent). x.agent_id) a b h.0),
      AgentLaws.Step-IsRootless (AgentLaws.Step.restored a e) h.1,
    )

pub register-SkillsOk :
    (s : Skill) (b c : SkillRegistry) → Skills.register s b ≡ ok c → SkillsOk b → SkillsOk c
register-SkillsOk s b c e h =
    let (_, _, written) = SkillLaws.register-eq-ok s b e in
    (
      rw written (IsKeyed-put (λ (x : Skill). x.skill_id) s b h.0),
      SkillLaws.Step-IsGuarded (SkillLaws.Step.registered s e) h.1,
    )

restore-SkillsOk :
    (s : Skill) (b c : SkillRegistry) → Skills.restore s b ≡ ok c → SkillsOk b → SkillsOk c
restore-SkillsOk s b c e h =
    let (_, written) = SkillLaws.restore-eq-ok s b e in
    (
      rw written (IsKeyed-put (λ (x : Skill). x.skill_id) s b h.0),
      SkillLaws.Step-IsGuarded (SkillLaws.Step.restored s e) h.1,
    )

pub register-ToolsOk :
    (t : Tool) (b c : ToolRegistry) → Tools.register t b ≡ ok c → ToolsOk b → ToolsOk c
register-ToolsOk t b c e h =
    let (_, _, written) = ToolLaws.register-eq-ok t b e in
    (
      rw written (IsKeyed-put (λ (x : Tool). x.tool_id) t b h.0),
      ToolLaws.register-IsGuarded t b e h.1,
    )

register_if_absent-ToolsOk :
    (t : Tool) (b c : ToolRegistry) → register_if_absent t b ≡ ok c → ToolsOk b → ToolsOk c
unfolding register_if_absent
register_if_absent-ToolsOk t b c e h =
    let listed = contains t.tool_id (map (λ (x : Tool). x.tool_id) (values b)) in
    elim (Bool-cases listed) [
      | inl old ↦ let same : ok b ≡ ok c = ground arith in ground arith
      | inr new ↦ register-ToolsOk t b c (ground arith) h
    ]

pub load_agents-AgentsOk :
    (registered : List Agent) {r : AgentRegistry} → load_agents registered ≡ ok r → AgentsOk r
unfolding load_agents
load_agents-AgentsOk registered h =
    let (d, first, rest) =
      >>=-eq-ok (load Agents.register default_agents []) (load Agents.restore registered) h in
    load_inv AgentsOk Agents.restore restore-AgentsOk registered d rest
      (load_inv AgentsOk Agents.register register-AgentsOk default_agents [] first (tt, tt))

pub load_skills-SkillsOk :
    (registered : List Skill) {r : SkillRegistry} → load_skills registered ≡ ok r → SkillsOk r
unfolding load_skills
load_skills-SkillsOk registered h =
    let (d, first, rest) =
      >>=-eq-ok (load Skills.register default_skills []) (load Skills.restore registered) h in
    load_inv SkillsOk Skills.restore restore-SkillsOk registered d rest
      (load_inv SkillsOk Skills.register register-SkillsOk default_skills [] first (tt, tt))

pub load_tools-ToolsOk :
    (control : Bool) (stored : List Tool) {r : ToolRegistry}
    → load_tools control stored ≡ ok r
    → ToolsOk r
unfolding load_tools
load_tools-ToolsOk control stored h =
    let (d, first, rest) =
      >>=-eq-ok (load Tools.register (default_tools control) []) (load register_if_absent stored)
        h in
    load_inv ToolsOk register_if_absent register_if_absent-ToolsOk stored d rest
      (load_inv ToolsOk Tools.register register-ToolsOk (default_tools control) [] first (tt, tt))
