-- ===== src/Catalog/Workflows/Laws.antt =====
-- What every registered workflow satisfies (backend/app/workflows/registry.py).
use bug_free_enigma.Base.{
  ℕ, ◌+◌, String, true, Option, none, some, List, [], ◌∷◌, map, ◌≡◌, ◌≢◌, refl, inl, inr, arith, ok,
  All, Option-cases, All-map, contains, for_each-eq-ok,
}
use bug_free_enigma.Base.Dict.{lookup, put}
use bug_free_enigma.Core.Models.Catalog.{Agent, Skill, WorkflowStepDefinition, WorkflowDefinition}
use bug_free_enigma.Catalog.Agents.{AgentRegistry}
use bug_free_enigma.Catalog.Skills.{SkillRegistry}
use bug_free_enigma.Catalog.Workflows.{
  Workflows, grants, counts_from, validate_skill, validate_step, validate, register,
}

-- `start, start + 1, ...`, of the length of the list
abbrev pub count_up {ℓ} : {A : Type ℓ} → ℕ → List A → List ℕ
count_up n [] = []
count_up n (_ ∷ xs) = n ∷ count_up (n + 1) xs

module _ (agents : AgentRegistry) (skills : SkillRegistry) where
  -- The step's Agent holds the Skill, and the Skill admits that Agent.
  abbrev pub IsAssigned : Agent → Option String → Type 0
  IsAssigned agent none = Unit {0}
  IsAssigned agent (some skill_id) =
      (skill : Skill) × (lookup skill_id skills ≡ some skill)
      × (contains skill_id agent.allowed_skills ≡ true)
      × (contains agent.agent_id skill.allowed_agents ≡ true)

  -- The step's Agent exists, has exactly the step's permission and may use its Skill.
  abbrev pub IsAuthorized : WorkflowStepDefinition → Type 0
  IsAuthorized step =
      (agent : Agent) × (lookup step.actor_id agents ≡ some agent)
      × (grants step.permission_level agent.permissions ≡ true)
      × IsAssigned agent step.skill_id

  validate_skill-IsAssigned :
      (w : WorkflowDefinition) (step : WorkflowStepDefinition) (agent : Agent) (i : Option String)
      → validate_skill agents skills w step agent i ≡ ok tt
      → IsAssigned agent i
  unfolding validate_skill
  validate_skill-IsAssigned w step agent none h = tt
  validate_skill-IsAssigned w step agent (some i) h = elim (Option-cases (lookup i skills)) [
    | inl missing ↦ absurd (ground arith)
    | inr (skill, e) ↦ (skill, e, ground arith, ground arith)
  ]

  validate_step-IsAuthorized :
      (w : WorkflowDefinition) (step : WorkflowStepDefinition)
      → validate_step agents skills w step ≡ ok tt
      → IsAuthorized step
  validate_step-IsAuthorized w step h = elim (Option-cases (lookup step.actor_id agents)) [
    | inl missing ↦ absurd (unfold validate_step in ground arith)
    | inr (agent, e) ↦ (
      agent,
      e,
      unfold validate_step in ground arith,
      validate_skill-IsAssigned w step agent step.skill_id (unfold validate_step in ground arith),
    )
  ]

  counts_from-count_up :
      (n : ℕ) (steps : List WorkflowStepDefinition)
      → counts_from n steps ≡ true
      → map (λ (s : WorkflowStepDefinition). s.sequence) steps ≡ count_up n steps
  counts_from-count_up n [] h = refl
  counts_from-count_up n (s ∷ steps) h = ground (arith, counts_from-count_up (n + 1) steps)

  -- What a registered workflow satisfies.
  pub record IsRunnable (w : WorkflowDefinition) : Type 0 where
    pub has_steps : w.steps ≢ []
    pub numbered : map (λ (s : WorkflowStepDefinition). s.sequence) w.steps ≡ count_up 1 w.steps
    pub authorized : All IsAuthorized w.steps

  -- A workflow whose registration goes through had no entry yet and is stored under its
  -- identifier. It has steps, they are numbered 1, 2, 3, ..., and of every step the Agent exists,
  -- has exactly the step's permission and is linked with the step's Skill on both sides.
  pub register-IsRunnable :
      (w : WorkflowDefinition) (b : Workflows) {c : Workflows}
      → register agents skills w b ≡ ok c
      → (lookup w.workflow_id b ≡ none) × (c ≡ put w.workflow_id w b) × IsRunnable w
  unfolding register validate
  register-IsRunnable w b h = (
    ground arith,
    ground arith,
    record {
      has_steps = ground arith;
      numbered = counts_from-count_up 1 w.steps (ground arith);
      authorized =
          All-map (validate_step-IsAuthorized w) w.steps
            ((for_each-eq-ok (validate_step agents skills w) w.steps).0 (ground arith));
    },
  )
