-- ===== src/Chat/Decisions.antt =====
-- backend/app/chat/agent_loop.py: `parse_agent_run_decision`. `json.loads` and `str.lower` are given.
pub mod Fences
pub mod Checks
pub mod Bounded
pub mod Tools
pub mod Tests
use Prim.Native.Char.{code}
use Prim.Native.String.{count}
use bug_free_enigma.Base.{
  ℕ, String, Bool, true, false, not, ◌&&◌, ◌||◌, Option, none, some, List, [], ◌∷◌, ◌==◌, ◌=ℕ◌, leb,
  ltb, if◌then◌else◌, is_some, contains, all, any,
}
use bug_free_enigma.Base.Text.{strip, ◌<>◌}
use bug_free_enigma.Core.Json.{
  Value, Fields, null, bool, num, neg, real, str, arr, obj, member, keys,
}
use bug_free_enigma.Chat.Decisions.Fences.{unfenced, has_prefix}

-- a chain of steps that may give nothing
infixl 5 ◌>>=◌
abbrev pub ◌>>=◌ {ℓ κ} : {A : Type ℓ} {B : Type κ} → Option A → (A → Option B) → Option B
none >>= f = none
some a >>= f = f a

-- `AGENT_RUN_INTENTS`
abbrev pub agent_run_intents : List String
agent_run_intents =
    "finish" ∷ "git_status" ∷ "git_diff" ∷ "git_log" ∷ "list_files" ∷ "read_file" ∷ "search_code"
    ∷ "frontend_typecheck" ∷ "backend_tests" ∷ "patch_file" ∷ []

-- `_DECISION_KEYS`
abbrev pub decision_keys : List String
decision_keys =
    "intent" ∷ "path" ∷ "query" ∷ "old_text" ∷ "new_text" ∷ "expected_sha256" ∷ "answer" ∷ []

pub record AgentRunDecision : Type 0 where
  pub intent : String
  pub path : Option String
  pub query : Option String
  pub old_text : Option String
  pub new_text : Option String
  pub expected_sha256 : Option String
  pub answer : Option String

-- `set(xs) == set(ys)`
abbrev same_set : List String → List String → Bool
same_set xs ys = all (λ x. contains x ys) xs && all (λ y. contains y xs) ys

-- a value that is a text or `null`; the outer `none` is anything else
unfoldable pub optional_text : String → Fields → Option (Option String)
optional_text key payload = elim (member key payload) [
  | none ↦ none
  | some v ↦ elim v [
    | null ↦ some none
    | bool _ ↦ none
    | num _ ↦ none
    | neg _ ↦ none
    | real _ _ ↦ none
    | str s ↦ some (some s)
    | arr _ ↦ none
    | obj _ ↦ none
  ]
]

-- `_clean_optional`
unfoldable pub clean_optional : Option String → ℕ → Bool → Bool → Option String
clean_optional none maximum preserve_whitespace allow_empty = none
clean_optional (some text) maximum preserve_whitespace allow_empty =
    let cleaned = if preserve_whitespace then text else strip text in
    if ltb maximum (count cleaned)
    then none
    else if cleaned == "" && not allow_empty
    then none
    else some cleaned

-- `path.replace("\\", "/").split("/")`, where `word` has been read of the first segment
segments_after : String → String → List String
segments_after word String.[] = word ∷ []
segments_after word (String.◌∷◌ c s) =
    let next = segments_after "" s in
    let longer = segments_after (word <> String.◌∷◌ c String.[]) s in
    if code c =ℕ b'/' || code c =ℕ 92 then word ∷ next else longer

unfoldable pub segments : String → List String
unfolding segments_after
segments path = segments_after "" path

-- an absolute path, or one with a segment that leads upwards
unfoldable pub is_escaping : String → Bool
is_escaping path = has_prefix "/" path || has_prefix "\\" path || contains ".." (segments path)

abbrev is_lower_hex : ℕ → Bool
is_lower_hex c = leb b'0' c && leb c b'9' || leb b'a' c && leb c b'f'

all_lower_hex : String → Bool
all_lower_hex String.[] = true
all_lower_hex (String.◌∷◌ c s) = is_lower_hex (code c) && all_lower_hex s

-- `_SHA256_RE.fullmatch(text)`
unfoldable pub is_sha256 : String → Bool
unfolding all_lower_hex
is_sha256 text = count text =ℕ 64 && all_lower_hex text

abbrev pub is_falsy : Option String → Bool
is_falsy none = true
is_falsy (some text) = text == ""

abbrev pub holds_of : (String → Bool) → Option String → Bool
holds_of p none = false
holds_of p (some text) = p text

-- the fields that an intent may carry beside itself
unfoldable pub allowed_fields : String → List String
allowed_fields intent =
    if intent == "git_status"
    then []
    else if intent == "git_diff"
    then "path" ∷ []
    else if intent == "git_log"
    then []
    else if intent == "list_files"
    then "path" ∷ []
    else if intent == "read_file"
    then "path" ∷ []
    else if intent == "search_code"
    then "path" ∷ "query" ∷ []
    else if intent == "frontend_typecheck"
    then []
    else if intent == "backend_tests"
    then []
    else if intent == "patch_file"
    then "path" ∷ "old_text" ∷ "new_text" ∷ "expected_sha256" ∷ []
    else "answer" ∷ []

-- `value is not None and key not in allowed_fields`
abbrev pub is_excess : String → String → Option String → Bool
is_excess intent key value = is_some value && not (contains key (allowed_fields intent))

module _ (lower : String → String) where
  -- the checks of a cleaned decision, in their order: it is refused where one holds
  abbrev pub refusals : AgentRunDecision → List Bool
  refusals d =
      holds_of is_escaping d.path
      ∷ holds_of (λ sha. not (is_sha256 (lower sha))) d.expected_sha256
      ∷ (contains d.intent ("list_files" ∷ "read_file" ∷ "patch_file" ∷ []) && is_falsy d.path)
      ∷ (d.intent == "search_code" && is_falsy d.query)
      ∷ (d.intent == "patch_file"
          && (not (is_some d.old_text)
              || not (is_some d.new_text)
              || not (is_some d.expected_sha256)))
      ∷ (d.intent == "finish" && is_falsy d.answer)
      ∷ (not (d.intent == "finish") && is_some d.answer)
      ∷ is_excess d.intent "path" d.path
      ∷ is_excess d.intent "query" d.query
      ∷ is_excess d.intent "old_text" d.old_text
      ∷ is_excess d.intent "new_text" d.new_text
      ∷ is_excess d.intent "expected_sha256" d.expected_sha256
      ∷ is_excess d.intent "answer" d.answer
      ∷ []

  unfoldable pub is_refused : AgentRunDecision → Bool
  is_refused d = any (λ refused. refused) (refusals d)

  abbrev pub lowered : Option String → Option String
  lowered none = none
  lowered (some sha) = if sha == "" then none else some (lower sha)

  -- what comes of the seven values
  unfoldable pub decide :
      Option String
      → Option String
      → Option String
      → Option String
      → Option String
      → Option String
      → Option String
      → Option AgentRunDecision
  decide intent path query old_text new_text expected_sha256 answer =
      let name = strip (elim intent [ none ↦ "" | some text ↦ text ]) in
      let d : AgentRunDecision = record {
        intent = name;
        path = clean_optional path 300 false false;
        query = clean_optional query 300 false false;
        old_text = clean_optional old_text 12000 true false;
        new_text = clean_optional new_text 12000 true true;
        expected_sha256 = clean_optional expected_sha256 64 false false;
        answer = clean_optional answer 12000 false false;
      } in
      if not (contains name agent_run_intents)
      then none
      else if is_refused d
      then none
      else some (record d { expected_sha256 = lowered d.expected_sha256 })

  unfoldable pub decide_payload : Fields → Option AgentRunDecision
  decide_payload payload = if not (same_set (keys payload) decision_keys) then none else (do
    intent ← optional_text "intent" payload
    path ← optional_text "path" payload
    query ← optional_text "query" payload
    old_text ← optional_text "old_text" payload
    new_text ← optional_text "new_text" payload
    expected_sha256 ← optional_text "expected_sha256" payload
    answer ← optional_text "answer" payload
    decide intent path query old_text new_text expected_sha256 answer)

  abbrev pub decide_value : Value → Option AgentRunDecision
  decide_value null = none
  decide_value (bool _) = none
  decide_value (num _) = none
  decide_value (neg _) = none
  decide_value (real _ _) = none
  decide_value (str _) = none
  decide_value (arr _) = none
  decide_value (obj payload) = decide_payload payload

  -- `parse_agent_run_decision`; `loads` gives `none` for a `JSONDecodeError`
  unfoldable pub parse_agent_run_decision :
      (String → Option Value) → String → Option AgentRunDecision
  parse_agent_run_decision loads output = do
    raw ← unfenced (strip output)
    value ← loads raw
    decide_value value
