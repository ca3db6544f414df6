-- ===== src/Catalog/Skills/Laws.antt =====
-- What every registered Skill satisfies (backend/app/skills/registry.py).
use bug_free_enigma.Base.{
  String, true, none, some, [], ◌≡◌, inl, inr, arith, ok, All, Option-cases, with_item,
}
use bug_free_enigma.Base.Dict.{lookup, put, values, All-put, All-lookup}
use bug_free_enigma.Core.Models.Catalog.{Skill}
use bug_free_enigma.Catalog.Skills.{SkillRegistry, is_high, register, restore, allow_agent}

-- One call that changes the registry.
pub data Step (skills : SkillRegistry) : SkillRegistry → Type 0 where
  registered :
      (s : Skill) {skills' : SkillRegistry} → register s skills ≡ ok skills' → Step skills skills'
  restored :
      (s : Skill) {skills' : SkillRegistry} → restore s skills ≡ ok skills' → Step skills skills'
  allowed :
      (i j : String) {skills' : SkillRegistry}
      → allow_agent i j skills ≡ ok skills'
      → Step skills skills'

pub data Reach (skills : SkillRegistry) : SkillRegistry → Type 0 where
  here : Reach skills skills
  next : {b c : SkillRegistry} → Reach skills b → Step b c → Reach skills c

-- A Skill of high or forbidden risk asks for approval.
abbrev pub IsGuarded : Skill → Type 0
IsGuarded s = is_high s.risk_level ≡ true → s.requires_approval ≡ true

pub register-eq-ok :
    (s : Skill) (b : SkillRegistry) {c : SkillRegistry}
    → register s b ≡ ok c
    → (lookup s.skill_id b ≡ none) × IsGuarded s × (c ≡ put s.skill_id s b)
unfolding register
register-eq-ok s b h = (ground arith, ground arith, ground arith)

pub restore-eq-ok :
    (s : Skill) (b : SkillRegistry) {c : SkillRegistry}
    → restore s b ≡ ok c
    → IsGuarded s × (c ≡ put s.skill_id s b)
unfolding restore
restore-eq-ok s b h = (ground arith, ground arith)

pub allow_agent-eq-ok :
    (i j : String) (b : SkillRegistry) {c : SkillRegistry}
    → allow_agent i j b ≡ ok c
    → (s : Skill) × (lookup i b ≡ some s)
      × (c ≡ put i (record s { allowed_agents = with_item j s.allowed_agents }) b)
unfolding allow_agent
allow_agent-eq-ok i j b h = elim (Option-cases (lookup i b)) [
  | inl missing ↦ absurd (ground arith)
  | inr (s, e) ↦ (s, e, ground arith)
]

pub Step-IsGuarded :
    {b c : SkillRegistry} → Step b c → All IsGuarded (values b) → All IsGuarded (values c)
Step-IsGuarded {b} (registered s e) h =
    let (_, safe, written) = register-eq-ok s b e in
    rw written (All-put IsGuarded s.skill_id s b safe h)
Step-IsGuarded {b} (restored s e) h =
    let (safe, written) = restore-eq-ok s b e in
    rw written (All-put IsGuarded s.skill_id s b safe h)
Step-IsGuarded {b} (allowed i j e) h =
    let (s, found, written) = allow_agent-eq-ok i j b e in
    rw written (All-put IsGuarded i _ b (All-lookup IsGuarded i b h found) h)

pub Reach-IsGuarded :
    {b c : SkillRegistry} → Reach b c → All IsGuarded (values b) → All IsGuarded (values c)
Reach-IsGuarded here h = h
Reach-IsGuarded (next r s) h = Step-IsGuarded s (Reach-IsGuarded r h)

-- From an empty registry, whatever Skills are registered and restored and whatever Agents are
-- allowed, a Skill that the registry returns asks for approval if its risk is high or forbidden.
pub lookup-IsGuarded :
    {skills : SkillRegistry} (i : String) {s : Skill}
    → Reach [] skills
    → lookup i skills ≡ some s
    → is_high s.risk_level ≡ true
    → s.requires_approval ≡ true
lookup-IsGuarded {skills} i {s} steps found =
    All-lookup IsGuarded i skills (Reach-IsGuarded steps tt) found
