-- ===== src/Chat/Decisions/Tests.antt =====
-- A model's answer that asks for a patch (backend/app/chat/agent_loop.py).
use bug_free_enigma.Base.{String, some, none, ◌≡◌, refl, ok, contains}
use bug_free_enigma.Base.Text.{strip}
use bug_free_enigma.Core.Json.{Fields, field, end, null, str, obj, member}
use bug_free_enigma.Chat.Decisions.Fences.{unfenced, behind, before_suffix}
use bug_free_enigma.Chat.Decisions.{
  AgentRunDecision, optional_text, clean_optional, segments, is_escaping, is_sha256, allowed_fields,
  is_refused, decide, decide_payload, parse_agent_run_decision,
}
use bug_free_enigma.Chat.Decisions.Bounded.{parse_agent_run_decision-IsBounded}
use bug_free_enigma.Chat.Decisions.Checks.{IsBounded}
use bug_free_enigma.Chat.Decisions.Tools.{
  agent_decision_tool_input, IsGoverned, parse_agent_run_decision-IsGoverned,
}

abbrev hash : String
hash = "00112233445566778899aabbccddeeff00112233445566778899aabbccddeeff"

abbrev payload : Fields
payload = field "intent" (str "patch_file") (
    field "path" (str " src/app.py ") (
      field "query" null (
        field "old_text" (str "a") (
          field "new_text" (str "")
            (field "expected_sha256" (str hash) (field "answer" null end))))))

abbrev decision : AgentRunDecision
decision = record {
  intent = "patch_file";
  path = some "src/app.py";
  query = none;
  old_text = some "a";
  new_text = some "";
  expected_sha256 = some hash;
  answer = none;
}

parse_agent_run_decision-IsBounded_example : IsBounded (λ s. s) decision
unfolding parse_agent_run_decision unfenced behind before_suffix decide_payload optional_text decide
    clean_optional is_refused is_escaping segments is_sha256 allowed_fields contains strip member
parse_agent_run_decision-IsBounded_example =
    parse_agent_run_decision-IsBounded (λ s. s) (λ raw. some (obj payload)) "```json {} ```"
      decision refl

parse_agent_run_decision-IsGoverned_example :
    (call : String × Fields) × ((agent_decision_tool_input decision ≡ ok call)
      × IsGoverned decision call)
unfolding parse_agent_run_decision unfenced behind before_suffix decide_payload optional_text decide
    clean_optional is_refused is_escaping segments is_sha256 allowed_fields contains strip member
parse_agent_run_decision-IsGoverned_example =
    parse_agent_run_decision-IsGoverned (λ s. s) (λ raw. some (obj payload)) "{}" decision refl refl
