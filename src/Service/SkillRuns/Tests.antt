-- ===== src/Service/SkillRuns/Tests.antt =====
-- Runs of the Skill methods of backend/app/services/company.py on a small company.
use bug_free_enigma.Base.{
  false, String, true, none, some, [], ◌∷◌, ◌≡◌, ◌↔◌, refl, inl, arith, ◌≢◌, ok, err, value_error,
  contains, for_each,
}
use bug_free_enigma.Base.Dict.{Dict, lookup, put}
use bug_free_enigma.Core.Enums.{ApprovalStatus, RiskLevel, SkillRunStatus}
use bug_free_enigma.Core.Json.{
  real, num, obj, str, arr, nil, cons, Fields, end, field, member, value_eq,
}
use bug_free_enigma.Core.Models.Catalog.{Agent, Skill}
use bug_free_enigma.Core.Models.Control.{ApprovalRequest}
use bug_free_enigma.Core.Models.Work.{SkillRun}
use bug_free_enigma.Safety.Risk.{assess}
use bug_free_enigma.Safety.Permissions.{evaluate, max_order}
use bug_free_enigma.Service.State.{Env, Company, SkillReply}
use bug_free_enigma.Service.Sample.{writer, env, company}
use bug_free_enigma.Service.Actions.{new_id, utc_now}
use bug_free_enigma.Service.Records.{log_event}
use bug_free_enigma.Service.SkillRuns.Input.{
  validator, validate_entry, validate_skill_input, Fits, validate_skill_input-exact,
}
use bug_free_enigma.Service.SkillRuns.Execution.{
  checked_input, complete_run, after_adapter, call_adapter, execute_skill_run,
}
use bug_free_enigma.Service.SkillRuns.Request.{
  skill_request, assess_skill_request, check_authorization, find_authorization, authorize_run,
  admit_skill_run, report_blocked_skill, file_skill_run, request_skill_run,
}
use bug_free_enigma.Service.SkillRuns.Waiting.{approved_run, parties}
use bug_free_enigma.Service.SkillRuns.Completion.{
  SkillDecision, settle_skill_run, file_skill_completion, conclude_skill_run, complete_skill_run,
}
use bug_free_enigma.Service.SkillRuns.Blind.{Adapter, with_adapter}
use bug_free_enigma.Service.SkillRuns.Admission.{IsPermitted}
use bug_free_enigma.Service.SkillRuns.Gate.{request_skill_run-IsPermitted}
use bug_free_enigma.Service.SkillRuns.Once.{
  IsDecided, complete_skill_run_once, complete_skill_run-IsDecided,
}

abbrev schema : Dict String
schema = ("topic", "string") ∷ []

abbrev drafting : Skill
drafting = record {
  skill_id = "drafting";
  name = "Drafting";
  type = "work";
  description = "Drafts a text.";
  input_schema = schema;
  output_schema = [];
  allowed_agents = "writer" ∷ [];
  risk_level = RiskLevel.high;
  requires_approval = true;
  version = "1.0.0";
  enabled = true;
}

abbrev drafter : Agent
drafter = record writer { allowed_skills = "drafting" ∷ [] }

abbrev works : Env
works = record env { skill_adapter = λ i input c. (SkillReply.returned end, []) }

abbrev topic : Fields
topic = field "topic" (str "a letter") end

abbrev approval : ApprovalRequest
approval = record {
  request = record (skill_request drafting "writer" none "report") {
    metadata = field "approved_skill_ids" (arr (cons (str "drafting") nil)) end;
  };
  risk = assess_skill_request drafting (skill_request drafting "writer" none "report");
  possible_benefit = "";
  possible_loss = "";
  recommendation = "review";
  approval_id = "approval_1";
  status = ApprovalStatus.approved;
  created_at = 0;
  decided_at = some 0;
  decided_by = some "human_root";
  decision_note = some "";
}

abbrev held_run : SkillRun
held_run = record {
  skill_id = "drafting";
  actor_id = "writer";
  input = topic;
  reason = "report";
  task_id = none;
  status = SkillRunStatus.waiting_approval;
  result = none;
  risk_level = RiskLevel.high;
  approval_id = some "approval_1";
  error = none;
  run_id = "run_1";
  created_at = 0;
  completed_at = none;
}

abbrev studio : Company
studio = record company {
  agents = ("writer", drafter) ∷ [];
  skills = ("drafting", drafting) ∷ [];
  approvals = ("approval_1", approval) ∷ [];
  skill_runs = ("run_1", held_run) ∷ [];
}

abbrev finished : SkillRun
finished = record held_run {
  status = SkillRunStatus.completed;
  result = some "{}";
  completed_at = some 0;
}

drafting_completes : (complete_skill_run works "run_1" "human_root" none studio).0 ≡ ok finished
unfolding complete_skill_run approved_run parties conclude_skill_run settle_skill_run
    execute_skill_run checked_input validate_skill_input validate_entry validator for_each
    call_adapter after_adapter complete_run file_skill_completion log_event new_id utc_now lookup
    put contains member
drafting_completes = refl

abbrev requested : SkillRun
requested = record held_run {
  status = SkillRunStatus.completed;
  result = some "{}";
  run_id = "skill_run_a";
  completed_at = some 1;
}

drafting_is_authorized :
    (request_skill_run works "drafting" "writer" topic "report" none (some "approval_1") studio).0
    ≡ ok requested
unfolding request_skill_run find_authorization check_authorization evaluate assess max_order
    assess_skill_request admit_skill_run authorize_run execute_skill_run checked_input
    validate_skill_input validate_entry validator for_each call_adapter after_adapter complete_run
    file_skill_run report_blocked_skill log_event new_id utc_now lookup put contains member value_eq
drafting_is_authorized = refl

abbrev crashing : Adapter
crashing = λ i input c. (SkillReply.crashed (value_error "adapter" []), [])

request_crashes :
    (request_skill_run
      (with_adapter crashing works)
      "drafting"
      "writer"
      topic
      "report"
      none
      (some "approval_1")
      studio).0
    ≡ err (value_error "adapter" [])
unfolding request_skill_run find_authorization check_authorization evaluate assess max_order
    assess_skill_request admit_skill_run authorize_run execute_skill_run checked_input
    validate_skill_input validate_entry validator for_each call_adapter after_adapter new_id utc_now
    lookup contains member value_eq
request_crashes = refl

request_differs :
    request_skill_run
      (with_adapter crashing works)
      "drafting"
      "writer"
      topic
      "report"
      none
      (some "approval_1")
      studio
    ≢ request_skill_run works "drafting" "writer" topic "report" none (some "approval_1") studio
request_differs h = ground (arith, request_crashes, drafting_is_authorized)

drafting_crashes :
    (complete_skill_run (with_adapter crashing works) "run_1" "human_root" none studio).0
    ≡ err (value_error "adapter" [])
unfolding complete_skill_run approved_run parties conclude_skill_run settle_skill_run
    execute_skill_run checked_input validate_skill_input validate_entry validator for_each
    call_adapter after_adapter lookup contains member
drafting_crashes = refl

drafting_differs :
    complete_skill_run (with_adapter crashing works) "run_1" "human_root" none studio
    ≢ complete_skill_run works "run_1" "human_root" none studio
drafting_differs h = ground (arith, drafting_crashes, drafting_completes)

request_skill_run-IsPermitted_example :
    (skill : Skill) × (agent : Agent) × (lookup "drafting" studio.skills ≡ some skill)
    × (lookup "writer" studio.agents ≡ some agent)
    × IsPermitted skill agent (some "approval_1") studio
request_skill_run-IsPermitted_example =
    request_skill_run-IsPermitted works crashing "drafting" "writer" topic "report" none
      (some "approval_1") studio (inl request_differs)

complete_skill_run_once_example :
    (complete_skill_run works "run_1" "somebody" none
      (complete_skill_run works "run_1" "human_root" none studio).1).0
    ≡ err (value_error "skill run is not waiting for approval" [])
complete_skill_run_once_example =
    complete_skill_run_once works "run_1" "human_root" "somebody" none none studio
      drafting_completes

complete_skill_run-IsDecided_example : (d : SkillDecision) × IsDecided "run_1" studio d
complete_skill_run-IsDecided_example =
    complete_skill_run-IsDecided works crashing "run_1" "human_root" none studio
      (inl drafting_differs)

abbrev mixed : Dict String
mixed = ("topic", "string") ∷ ("size", "number") ∷ ("pages", "integer") ∷ []

abbrev mixed_input : Fields
mixed_input = field "topic" (str "a") (field "size" (real false 5) (field "pages" (num 2) end))

validate_skill_input-exact_example :
    (validate_skill_input mixed (obj mixed_input) ≡ ok tt) ↔ Fits mixed (obj mixed_input)
validate_skill_input-exact_example = validate_skill_input-exact mixed (obj mixed_input)

float_is_no_integer :
    validate_skill_input (("pages", "integer") ∷ []) (obj (field "pages" (real false 5) end))
    ≡ err (value_error "skill input must be of its type" ("pages" ∷ "integer" ∷ []))
unfolding validate_skill_input validate_entry validator for_each member
float_is_no_integer = refl
