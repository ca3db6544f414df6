-- ===== src/Service/SkillRuns/Execution.antt =====
-- `_execute_skill_run` of backend/app/services/company.py, with `execute_skill_adapter` of
-- backend/app/skills/runtime.py. A run that ends is given back and stored by the caller.
use bug_free_enigma.Base.{
  String, Bool, true, false, none, some, [], ◌∷◌, ◌++◌, Outcome, ok, err, key_error,
}
use bug_free_enigma.Base.Dict.{lookup}
use bug_free_enigma.Base.Text.{◌<>◌}
use bug_free_enigma.Core.Enums.{SkillRunStatus}
use bug_free_enigma.Core.Json.{obj, Fields}
use bug_free_enigma.Core.Models.Catalog.{Skill}
use bug_free_enigma.Core.Models.Work.{SkillRun}
use bug_free_enigma.Service.State.{Env, Company, SkillReply}
use bug_free_enigma.Service.Actions.{Action, pure, raise, modify, ◌>>=◌, ◌>>◌, new_id, utc_now}
use bug_free_enigma.Service.SkillRuns.Input.{validate_skill_input}

abbrev pub is_waiting : SkillRunStatus → Bool
is_waiting SkillRunStatus.waiting_approval = true
is_waiting _ = false

abbrev pub is_blocked : SkillRunStatus → Bool
is_blocked SkillRunStatus.blocked = true
is_blocked _ = false

-- The adapter was reached, or its input was refused: the run is completed or failed.
abbrev pub is_executed : SkillRunStatus → Bool
is_executed SkillRunStatus.completed = true
is_executed SkillRunStatus.failed = true
is_executed _ = false

module _ (env : Env) where
  unfoldable pub stop_run : SkillRunStatus → String → SkillRun → Action SkillRun
  unfolding utc_now
  stop_run status error run = do
    now ← utc_now env
    pure (record run { status = status; error = some error; completed_at = some now })

  -- the schema is that of the registered Skill
  unfoldable pub checked_input : String → Fields → Company → Outcome (Unit {0})
  checked_input skill_id payload c = elim (lookup skill_id c.skills) [
    | none ↦ err (key_error skill_id)
    | some skill ↦ validate_skill_input skill.input_schema (obj payload)
  ]

  -- a completed run leaves an evaluation, of the score 1.0
  unfoldable pub complete_run : Skill → Fields → SkillRun → Action SkillRun
  unfolding utc_now new_id
  complete_run skill result run = do
    now ← utc_now env
    record_id ← new_id env "evaluation"
    created_at ← utc_now env
    modify (λ c. record c {
      evaluations =
          c.evaluations
          ++ record {
            subject_type = "skill";
            subject_id = skill.skill_id;
            task_id = run.task_id;
            score = 10000;
            metric = "skill_run_completed";
            notes = "Skill adapter completed run " <> run.run_id <> " with validated input.";
            risk_level = run.risk_level;
            record_id = record_id;
            created_at = created_at;
          }
            ∷ [];
    })
    pure (record run {
      status = SkillRunStatus.completed;
      result = some (env.dumps result);
      completed_at = some now;
    })

  unfoldable pub after_adapter : Skill → SkillRun → SkillReply → Action SkillRun
  after_adapter skill run (SkillReply.refused text) = stop_run SkillRunStatus.failed text run
  after_adapter skill run (SkillReply.returned result) = complete_run skill result run
  after_adapter skill run (SkillReply.crashed e) = raise e

  -- the call of the adapter, once the input is accepted
  unfoldable pub call_adapter : Skill → SkillRun → Action SkillRun
  call_adapter skill run c =
      let (reply, records) = env.skill_adapter skill.skill_id run.input c in
      after_adapter skill run reply (record c { memory = c.memory ++ records })

  -- what follows the check of the input
  abbrev pub after_check : Skill → SkillRun → Outcome (Unit {0}) → Action SkillRun
  after_check skill run (ok _) = call_adapter skill run
  after_check skill run (err e) = stop_run SkillRunStatus.failed (env.error_text e) run

  unfoldable pub execute_skill_run : SkillRun → Skill → Action SkillRun
  execute_skill_run run skill c = after_check skill run (checked_input skill.skill_id run.input c) c
