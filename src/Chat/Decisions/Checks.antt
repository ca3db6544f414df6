-- ===== src/Chat/Decisions/Checks.antt =====
-- What the checks of a decision leave (backend/app/chat/agent_loop.py: `_parse_decision_payload`).
use mathlib.Core.Path.{subst}
use bug_free_enigma.Base.{
  ℕ, String, Bool, true, false, not, ◌&&◌, ◌||◌, Option, none, some, List, [], ◌∷◌, ◌≡◌, refl, ◌∙◌,
  arith, ◌==◌, is_some, contains, any, All,
}
use bug_free_enigma.Chat.Decisions.Fences.{has_prefix}
use bug_free_enigma.Chat.Decisions.{
  AgentRunDecision, agent_run_intents, clean_optional, segments, is_escaping, is_sha256, is_falsy,
  allowed_fields, is_refused, refusals, is_excess, holds_of, lowered,
}

-- A path into the workspace: not absolute, and without a segment that leads upwards.
pub record IsInside (path : String) : Type 0 where
  pub not_absolute : has_prefix "/" path ≡ false
  pub not_backslash : has_prefix "\\" path ≡ false
  pub not_upwards : contains ".." (segments path) ≡ false

-- the intents that may name a path
abbrev pub takes_path : String → Bool
takes_path i =
    i == "git_diff"
    || i == "list_files"
    || i == "read_file"
    || i == "search_code"
    || i == "patch_file"

-- Which fields a decision has is settled by its intent.
pub record IsBounded (lower : String → String) (d : AgentRunDecision) : Type 0 where
  pub known : contains d.intent agent_run_intents ≡ true
  pub path_inside : (path : String) → d.path ≡ some path → IsInside path
  pub patch_old : is_some d.old_text ≡ (d.intent == "patch_file")
  pub patch_new : is_some d.new_text ≡ (d.intent == "patch_file")
  pub patch_hash : is_some d.expected_sha256 ≡ (d.intent == "patch_file")
  pub hash_is_lowered :
      (sha : String)
      → d.expected_sha256 ≡ some sha
      → (given : String) × ((sha ≡ lower given) × (is_sha256 (lower given) ≡ true))
  pub search_query : is_some d.query ≡ (d.intent == "search_code")
  pub finish_answer : is_some d.answer ≡ (d.intent == "finish")
  pub file_path :
      contains d.intent ("list_files" ∷ "read_file" ∷ "patch_file" ∷ []) ≡ true
      → is_some d.path ≡ true
  pub path_only : is_some d.path ≡ true → takes_path d.intent ≡ true

any_none : (bs : List Bool) → any (λ b. b) bs ≡ false → All (λ b. b ≡ false) bs
any_none [] h = tt
any_none (b ∷ bs) h = ground (arith, any_none bs)

old_text_allowed :
    (i : String) → contains "old_text" (allowed_fields i) ≡ true → (i == "patch_file") ≡ true
unfolding contains allowed_fields
old_text_allowed i h = ground arith

new_text_allowed :
    (i : String) → contains "new_text" (allowed_fields i) ≡ true → (i == "patch_file") ≡ true
unfolding contains allowed_fields
new_text_allowed i h = ground arith

hash_allowed :
    (i : String) → contains "expected_sha256" (allowed_fields i) ≡ true → (i == "patch_file") ≡ true
unfolding contains allowed_fields
hash_allowed i h = ground arith

query_allowed :
    (i : String) → contains "query" (allowed_fields i) ≡ true → (i == "search_code") ≡ true
unfolding contains allowed_fields
query_allowed i h = ground arith

path_allowed : (i : String) → contains "path" (allowed_fields i) ≡ true → takes_path i ≡ true
unfolding contains allowed_fields
path_allowed i h = ground arith

-- A field that is there is one that the intent may carry.
may_carry :
    (i key : String) (value : Option String)
    → is_excess i key value ≡ false
    → is_some value ≡ true
    → contains key (allowed_fields i) ≡ true
may_carry i key value h e = ground arith

-- A field that only one intent may carry, and that this intent must carry.
only_for :
    (i key : String) (value : Option String) (own : Bool)
    → is_excess i key value ≡ false
    → (contains key (allowed_fields i) ≡ true → own ≡ true)
    → (own ≡ true → is_some value ≡ true)
    → is_some value ≡ own
only_for i key value own h may must = ground arith

falsy-none : (o : Option String) → is_falsy o ≡ false → is_some o ≡ true
falsy-none none h = cc
falsy-none (some s) h = refl

inside : (path : String) → is_escaping path ≡ false → IsInside path
unfolding is_escaping
inside path h = record {
  not_absolute = ground arith;
  not_backslash = ground arith;
  not_upwards = ground arith;
}

must : (a b : Bool) → a ≡ true → (a && b) ≡ false → b ≡ false
must a b h e = ground arith

both_ways : (a b : Bool) → (b ≡ true → a ≡ true) → (not b && a) ≡ false → a ≡ b
both_ways a b h e = ground arith

not-false : {b : Bool} → not b ≡ false → b ≡ true
not-false {b} h = ground arith

parts_of :
    (a x y z : Bool)
    → a ≡ true
    → (a && (not x || not y || not z)) ≡ false
    → (x ≡ true) × (y ≡ true) × (z ≡ true)
parts_of a x y z h e = ground arith

module _ (lower : String → String) (d : AgentRunDecision) (ok : is_refused lower d ≡ false) where
  passed : All (λ b. b ≡ false) (refusals lower d)
  unfolding is_refused
  passed = any_none (refusals lower d) ok

  checked_path : (path : String) → d.path ≡ some path → IsInside path
  checked_path path e = inside path (subst (λ o. holds_of is_escaping o ≡ false) e passed.0)

  patch_parts :
      (d.intent == "patch_file") ≡ true
      → (is_some d.old_text ≡ true)
        × (is_some d.new_text ≡ true)
        × (is_some d.expected_sha256 ≡ true)
  patch_parts h = parts_of _ _ _ _ h passed.1.1.1.1.0

  old_only : is_some d.old_text ≡ (d.intent == "patch_file")
  old_only =
      only_for d.intent "old_text" d.old_text (d.intent == "patch_file") passed.1.1.1.1.1.1.1.1.1.0
        (old_text_allowed d.intent) (λ h. (patch_parts h).0)

  new_only : is_some d.new_text ≡ (d.intent == "patch_file")
  new_only =
      only_for d.intent "new_text" d.new_text (d.intent == "patch_file")
        passed.1.1.1.1.1.1.1.1.1.1.0 (new_text_allowed d.intent) (λ h. (patch_parts h).1)

  hash_only : is_some d.expected_sha256 ≡ (d.intent == "patch_file")
  hash_only =
      only_for d.intent "expected_sha256" d.expected_sha256 (d.intent == "patch_file")
        passed.1.1.1.1.1.1.1.1.1.1.1.0 (hash_allowed d.intent) (λ h. (patch_parts h).2)

  query_only : is_some d.query ≡ (d.intent == "search_code")
  query_only =
      only_for d.intent "query" d.query (d.intent == "search_code") passed.1.1.1.1.1.1.1.1.0
        (query_allowed d.intent) (λ h. falsy-none d.query (must _ _ h passed.1.1.1.0))

  answer_only : is_some d.answer ≡ (d.intent == "finish")
  answer_only =
      both_ways (is_some d.answer) (d.intent == "finish")
        (λ h. falsy-none d.answer (must _ _ h passed.1.1.1.1.1.0)) passed.1.1.1.1.1.1.0

  path_given :
      contains d.intent ("list_files" ∷ "read_file" ∷ "patch_file" ∷ []) ≡ true
      → is_some d.path ≡ true
  path_given h = falsy-none d.path (must _ _ h passed.1.1.0)

  path_carried : is_some d.path ≡ true → takes_path d.intent ≡ true
  path_carried h = path_allowed d.intent (may_carry d.intent "path" d.path passed.1.1.1.1.1.1.1.0 h)

  hash_form : (given : String) → d.expected_sha256 ≡ some given → is_sha256 (lower given) ≡ true
  hash_form given e =
      not-false (subst (λ o. holds_of (λ sha. not (is_sha256 (lower sha))) o ≡ false) e passed.1.0)

lowered-given :
    (lower : String → String) (o : Option String) (sha : String)
    → lowered lower o ≡ some sha
    → (given : String) × ((o ≡ some given) × (sha ≡ lower given))
lowered-given lower none sha e = absurd (ground arith)
lowered-given lower (some given) sha e = (given, (refl, ground arith))

lowered-is_some :
    (lower : String → String) (o : Option String)
    → is_falsy o ≡ (not (is_some o))
    → is_some (lowered lower o) ≡ is_some o
lowered-is_some lower none h = refl
lowered-is_some lower (some given) h = ground arith

-- a value that may not be empty
pub clean-falsy :
    (value : Option String) (maximum : ℕ) (preserve : Bool)
    → is_falsy (clean_optional value maximum preserve false)
      ≡ not (is_some (clean_optional value maximum preserve false))
unfolding clean_optional
clean-falsy none maximum preserve = refl
clean-falsy (some text) maximum preserve = ground arith

pub settled-IsBounded :
    (lower : String → String) (d : AgentRunDecision)
    → contains d.intent agent_run_intents ≡ true
    → is_refused lower d ≡ false
    → is_falsy d.expected_sha256 ≡ (not (is_some d.expected_sha256))
    → IsBounded lower (record d { expected_sha256 = lowered lower d.expected_sha256 })
settled-IsBounded lower d known ok clean = record {
  known = known;
  path_inside = checked_path lower d ok;
  patch_old = old_only lower d ok;
  patch_new = new_only lower d ok;
  patch_hash = lowered-is_some lower d.expected_sha256 clean ∙ hash_only lower d ok;
  hash_is_lowered = λ sha e.
      let (given, (had, same)) = lowered-given lower d.expected_sha256 sha e in
      (given, (same, hash_form lower d ok given had));
  search_query = query_only lower d ok;
  finish_answer = answer_only lower d ok;
  file_path = path_given lower d ok;
  path_only = path_carried lower d ok;
}
