-- ===== src/Chat/Decisions/Tools.antt =====
-- The Tool and the input that a decision stands for (backend/app/services/company.py:
-- `_agent_decision_tool_input`).
use bug_free_enigma.Base.{
  String, Bool, true, false, Option, none, some, [], ◌∷◌, ◌≡◌, refl, arith, ◌==◌, if◌then◌else◌,
  contains, Outcome, ok, err, value_error, eq_iff,
}
use bug_free_enigma.Core.Json.{Value, Fields, end, field, null, num, str, arr, to_items}
use bug_free_enigma.Chat.Decisions.Fences.{behind}
use bug_free_enigma.Chat.Decisions.{AgentRunDecision, agent_run_intents, parse_agent_run_decision}
use bug_free_enigma.Chat.Decisions.Bounded.{parse_agent_run_decision-IsBounded}

abbrev value_of : Option String → Value
value_of none = null
value_of (some s) = str s

-- `if decision.path: tool_input["path"] = decision.path`, in front of the fields that follow
abbrev with_path : Option String → Fields → Fields
with_path none rest = rest
with_path (some path) rest = if path == "" then rest else field "path" (str path) rest

-- `decision.path or "."`
abbrev path_or_root : Option String → Value
path_or_root none = str "."
path_or_root (some path) = if path == "" then str "." else str path

abbrev pub typecheck_input : Fields
typecheck_input =
    field "argv" (arr (to_items ("npm" ∷ "run" ∷ "typecheck" ∷ [])))
      (field "cwd" (str "apps/web") (field "timeout_seconds" (num 120) end))

abbrev pub tests_input : Fields
tests_input =
    field "argv"
      (arr (to_items ("python" ∷ "-m" ∷ "unittest" ∷ "discover" ∷ "-s" ∷ "backend/tests" ∷ [])))
      (field "cwd" (str ".") (field "timeout_seconds" (num 120) end))

abbrev git_input : String → Option String → Fields
git_input operation path =
    field "operation" (str operation)
      (with_path path (if operation == "log" then field "limit" (num 10) end else end))

unfoldable pub agent_decision_tool_input : AgentRunDecision → Outcome (String × Fields)
unfolding behind
agent_decision_tool_input d =
    if contains d.intent ("git_status" ∷ "git_diff" ∷ "git_log" ∷ [])
    then ok ("git_read_tool", git_input (behind "git_" d.intent) d.path)
    else if d.intent == "list_files"
    then ok (
      "filesystem_read_tool",
      field "operation" (str "list") (field "path" (value_of d.path) (field "limit" (num 100) end)),
    )
    else if d.intent == "read_file"
    then ok (
      "filesystem_read_tool",
      field "operation" (str "read") (field "path" (value_of d.path) end),
    )
    else if d.intent == "search_code"
    then ok (
      "filesystem_read_tool",
      field "operation" (str "search") (
          field "path" (path_or_root d.path)
            (field "query" (value_of d.query) (field "limit" (num 50) end))),
    )
    else if d.intent == "frontend_typecheck"
    then ok ("workspace_command_tool", typecheck_input)
    else if d.intent == "backend_tests"
    then ok ("workspace_command_tool", tests_input)
    else if d.intent == "patch_file"
    then ok (
      "workspace_patch_tool",
      field "path" (value_of d.path) (
          field "old_text" (value_of d.old_text) (
            field "new_text" (value_of d.new_text)
              (field "expected_sha256" (value_of d.expected_sha256) end))),
    )
    else err (value_error "unsupported Agent Run decision" (d.intent ∷ []))

-- The Tools that a decision may call. A command is one of two that the server owns, and a file is
-- changed only by a decision to patch.
pub data IsGoverned (d : AgentRunDecision) (call : String × Fields) : Type 0 where
  reads_git : call.0 ≡ "git_read_tool" → IsGoverned d call
  reads_files : call.0 ≡ "filesystem_read_tool" → IsGoverned d call
  runs_typecheck : call ≡ ("workspace_command_tool", typecheck_input) → IsGoverned d call
  runs_tests : call ≡ ("workspace_command_tool", tests_input) → IsGoverned d call
  patches : call.0 ≡ "workspace_patch_tool" → (d.intent == "patch_file") ≡ true → IsGoverned d call

abbrev Governed : AgentRunDecision → Outcome (String × Fields) → Type 0
Governed d o = (call : String × Fields) × ((o ≡ ok call) × IsGoverned d call)

Governed-if :
    (d : AgentRunDecision) (b : Bool) (call : String × Fields) (rest : Outcome (String × Fields))
    → (b ≡ true → IsGoverned d call)
    → (b ≡ false → Governed d rest)
    → Governed d (if b then ok call else rest)
Governed-if d true call rest here later = (call, (refl, here refl))
Governed-if d false call rest here later = later refl

eq_sym : (s t : String) → (s == t) ≡ (t == s)
eq_sym s t = ground (arith, eq_iff s t, eq_iff t s)

-- No intent is left over.
none_left :
    (i : String)
    → contains i agent_run_intents ≡ true
    → (i == "finish") ≡ false
    → contains i ("git_status" ∷ "git_diff" ∷ "git_log" ∷ []) ≡ false
    → (i == "list_files") ≡ false
    → (i == "read_file") ≡ false
    → (i == "search_code") ≡ false
    → (i == "frontend_typecheck") ≡ false
    → (i == "backend_tests") ≡ false
    → (i == "patch_file") ≡ false
    → ⊥
unfolding contains
none_left i known f g l r s t b p = ground (
  arith,
  eq_sym i "finish",
  eq_sym i "list_files",
  eq_sym i "read_file",
  eq_sym i "search_code",
  eq_sym i "frontend_typecheck",
  eq_sym i "backend_tests",
  eq_sym i "patch_file",
)

governed :
    (d : AgentRunDecision)
    → contains d.intent agent_run_intents ≡ true
    → (d.intent == "finish") ≡ false
    → Governed d (agent_decision_tool_input d)
unfolding agent_decision_tool_input
governed d known not_finish =
    Governed-if d _ _ _ (λ _. IsGoverned.reads_git refl)
      λ g.
        Governed-if d _ _ _ (λ _. IsGoverned.reads_files refl)
          λ l.
            Governed-if d _ _ _ (λ _. IsGoverned.reads_files refl)
              λ r.
                Governed-if d _ _ _ (λ _. IsGoverned.reads_files refl)
                  λ s.
                    Governed-if d _ _ _ (λ _. IsGoverned.runs_typecheck refl)
                      λ t.
                        Governed-if d _ _ _ (λ _. IsGoverned.runs_tests refl)
                          λ b.
                            Governed-if d _ _ _ (λ p. IsGoverned.patches refl p)
                              λ p. absurd (none_left d.intent known not_finish g l r s t b p)

-- Whatever the model answers, an accepted decision that does not finish the run stands for a call
-- of one of four Tools, without an error: Git and files are only read, the only commands are the
-- two that the server owns, and the patch Tool is called for a decision to patch alone.
pub parse_agent_run_decision-IsGoverned :
    (lower : String → String) (loads : String → Option Value) (output : String)
    (d : AgentRunDecision)
    → parse_agent_run_decision lower loads output ≡ some d
    → (d.intent == "finish") ≡ false
    → (call : String × Fields) × ((agent_decision_tool_input d ≡ ok call) × IsGoverned d call)
parse_agent_run_decision-IsGoverned lower loads output d e not_finish =
    governed d (parse_agent_run_decision-IsBounded lower loads output d e).known not_finish
