-- ===== src/Service/ToolApproval.antt =====
-- What an approval of a Tool run covers: `_assess_tool_request`, `_tool_approval_input` and
-- `_tool_approval_matches_run` of backend/app/services/company.py.
use Prim.Native.String.{count}
use bug_free_enigma.Base.{
  ℕ, String, Bool, true, false, not, ◌&&◌, ◌||◌, Option, none, some, List, [], ◌∷◌, ◌++◌, sorted,
  ltb, ◌=ℕ◌, ◌==◌, contains, if◌then◌else◌,
}
use bug_free_enigma.Base.Text.{◌<>◌}
use bug_free_enigma.Core.Enums.{RiskLevel}
use bug_free_enigma.Core.Values.{risk_level_value}
use bug_free_enigma.Core.Json.{
  Value, null, num, str, arr, obj, Fields, end, field, member_or, member_or_null, without, keys,
  to_items, value_eq,
}
use bug_free_enigma.Core.Models.Catalog.{Tool}
use bug_free_enigma.Core.Models.Control.{ActionRequest, RiskAssessment, ApprovalRequest}
use bug_free_enigma.Core.Models.Work.{ToolRun}
use bug_free_enigma.Safety.Policy.{permission_order}
use bug_free_enigma.Safety.Risk.{assess}
use bug_free_enigma.Service.State.{Env, Preview}
use bug_free_enigma.Service.State.Preview.{shown, unshown}

-- the dictionary `levels`
abbrev pub risk_order : RiskLevel → ℕ
risk_order RiskLevel.low = 0
risk_order RiskLevel.medium = 1
risk_order RiskLevel.high = 2
risk_order RiskLevel.forbidden = 3

-- `max((a, b), key=...)`: the first of two equal items
abbrev pub max_risk : RiskLevel → RiskLevel → RiskLevel
max_risk a b = if ltb (risk_order a) (risk_order b) then b else a

-- `tuple(dict.fromkeys(reasons))`
abbrev unique : List String → List String → List String
unique seen [] = []
unique seen (x ∷ xs) = let rest = unique (x ∷ seen) xs in if contains x seen then rest else x ∷ rest

abbrev is_low : RiskLevel → Bool
is_low RiskLevel.low = true
is_low _ = false

-- `_assess_tool_request`
unfoldable pub assess_tool_request : Tool → ActionRequest → RiskAssessment
assess_tool_request tool request =
    let assessed = assess request in
    let level = max_risk assessed.level tool.risk_level in
    let extra : List String =
      if risk_order tool.risk_level =ℕ risk_order assessed.level
      then []
      else ("registered Tool risk is " <> risk_level_value tool.risk_level) ∷ [] in
    record {
      request = request;
      level = level;
      reasons = unique [] (assessed.reasons ++ extra);
      requires_approval =
          assessed.requires_approval || tool.requires_approval || not (is_low level);
      blocked = assessed.blocked || risk_order level =ℕ 3;
    }

abbrev pub same_text : Option String → Option String → Bool
same_text none none = true
same_text (some s) (some t) = s == t
same_text _ _ = false

module _ (env : Env) where
  -- `hashlib.sha256(v.encode("utf-8")).hexdigest() if isinstance(v, str) else None`
  abbrev hash_of : Value → Value
  hash_of (str s) = str (env.sha256 s)
  hash_of _ = null

  -- `len(v) if isinstance(v, str) else None`
  abbrev length_of : Value → Value
  length_of (str s) = num (count s)
  length_of _ = null

  -- `str(v)`
  abbrev text_of : Value → String
  text_of (str s) = s
  text_of v = env.str_of v

  abbrev command_input : Fields → Fields
  command_input input = field "argv" (member_or_null "argv" input) (
      field "cwd" (member_or "cwd" (str ".") input)
        (field "timeout_seconds" (member_or "timeout_seconds" (num 30) input) end))

  abbrev computer_rest : String → Fields → Fields
  computer_rest operation input =
      if operation == "open_url"
      then field "url" (member_or_null "url" input) end
      else if operation == "launch_app"
      then field "app" (member_or_null "app" input) end
      else if operation == "send_keys"
      then field "keys" (member_or_null "keys" input) end
      else if operation == "type_text"
      then field "text_length" (length_of (member_or_null "text" input))
          (field "text_sha256" (hash_of (member_or_null "text" input)) end)
      else end

  abbrev computer_input : Fields → Fields
  computer_input input =
      let operation = text_of (member_or "operation" (str "") input) in
      field "operation" (str operation) (computer_rest operation input)

  abbrev preview_fields : Preview → Fields
  preview_fields (shown diff) = field "diff_preview" (str diff) end
  preview_fields (unshown error) = field "diff_preview" null (field "preview_error" (str error) end)

  abbrev patch_input : Fields → Fields
  patch_input input = field "path" (member_or_null "path" input) (
      field "expected_sha256" (member_or_null "expected_sha256" input) (
        field "old_text_sha256" (hash_of (member_or_null "old_text" input)) (
          field "new_text_sha256" (hash_of (member_or_null "new_text" input))
            (preview_fields (env.diff_preview (without "expected_sha256" input))))))

  -- `_tool_approval_input`
  unfoldable pub tool_approval_input : String → Fields → Fields
  tool_approval_input tool_id input =
      if tool_id == "workspace_command_tool"
      then command_input input
      else if tool_id == "computer_control_tool"
      then computer_input input
      else if tool_id == "workspace_patch_tool"
      then patch_input input
      else field "keys" (arr (to_items (sorted (keys input)))) end

  -- `{"tool_id": ..., "tool_input": ...}`
  abbrev pub tool_metadata : Tool → Fields → Fields
  tool_metadata tool input =
      field "tool_id" (str tool.tool_id)
        (field "tool_input" (obj (tool_approval_input tool.tool_id input)) end)

  -- `_tool_approval_matches_run`
  unfoldable pub tool_approval_matches_run : ApprovalRequest → ToolRun → Tool → Bool
  tool_approval_matches_run approval run tool =
      same_text approval.decided_by (some "human_root")
      && approval.request.action == tool.action
      && approval.request.actor_id == run.actor_id
      && same_text approval.request.task_id run.task_id
      && permission_order approval.request.permission_level
        =ℕ permission_order tool.permission_level
      && same_text approval.request.target (some tool.tool_id)
      && value_eq (member_or_null "tool_id" approval.request.metadata) (str tool.tool_id)
      && value_eq (member_or_null "tool_input" approval.request.metadata)
          (obj (tool_approval_input tool.tool_id run.input))
