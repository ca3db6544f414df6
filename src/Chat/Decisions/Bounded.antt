-- ===== src/Chat/Decisions/Bounded.antt =====
-- What a decision of the workspace agent can hold (backend/app/chat/agent_loop.py).
use mathlib.Core.Path.{subst}
use bug_free_enigma.Base.{
  String, Bool, true, false, not, Option, none, some, ◌≡◌, refl, arith, if◌then◌else◌,
}
use bug_free_enigma.Base.Text.{strip}
use bug_free_enigma.Core.Json.{Value, Fields, null, bool, num, neg, real, str, arr, obj}
use bug_free_enigma.Chat.Decisions.Fences.{unfenced}
use bug_free_enigma.Chat.Decisions.{
  AgentRunDecision, ◌>>=◌, decide_value, optional_text, decide, decide_payload,
  parse_agent_run_decision,
}
use bug_free_enigma.Chat.Decisions.Checks.{IsBounded, settled-IsBounded, clean-falsy}

some-eq : {x y : AgentRunDecision} → some x ≡ some y → x ≡ y
some-eq e = cc

-- what passes the two tests of `decide`
after_tests :
    (a b : Bool) (x d : AgentRunDecision)
    → (if not a then none else if b then none else some x) ≡ some d
    → (a ≡ true) × (b ≡ false) × (x ≡ d)
after_tests true true x d e = absurd (ground arith)
after_tests true false x d e = (refl, refl, some-eq e)
after_tests false b x d e = absurd (ground arith)

decide-IsBounded :
    (lower : String → String)
    (intent path query old_text new_text expected_sha256 answer : Option String)
    (d : AgentRunDecision)
    → decide lower intent path query old_text new_text expected_sha256 answer ≡ some d
    → IsBounded lower d
unfolding decide
decide-IsBounded lower intent path query old_text new_text expected_sha256 answer d e =
    let (known, ok, same) = after_tests _ _ _ d e in
    subst (IsBounded lower) same
      (settled-IsBounded lower _ known ok (clean-falsy expected_sha256 64 false))

-- What holds of the value that steps may give.
abbrev IfAny : (AgentRunDecision → Type 0) → Option AgentRunDecision → Type 0
IfAny P none = Unit
IfAny P (some d) = P d

IfAny-bind :
    {A : Type 0} (P : AgentRunDecision → Type 0) (m : Option A) (f : A → Option AgentRunDecision)
    → ((a : A) → IfAny P (f a))
    → IfAny P (m >>= f)
IfAny-bind P none f h = tt
IfAny-bind P (some a) f h = h a

IfAny-intro :
    (P : AgentRunDecision → Type 0) (o : Option AgentRunDecision)
    → ((d : AgentRunDecision) → o ≡ some d → P d)
    → IfAny P o
IfAny-intro P none h = tt
IfAny-intro P (some d) h = h d refl

IfAny-elim :
    (P : AgentRunDecision → Type 0) (o : Option AgentRunDecision) (d : AgentRunDecision)
    → IfAny P o
    → o ≡ some d
    → P d
IfAny-elim P none d h e = absurd (ground arith)
IfAny-elim P (some x) d h e = subst P (some-eq e) h

IfAny-unless :
    (P : AgentRunDecision → Type 0) (b : Bool) (o : Option AgentRunDecision)
    → IfAny P o
    → IfAny P (if b then none else o)
IfAny-unless P true o h = tt
IfAny-unless P false o h = h

module _ (lower : String → String) where
  decide_payload-IfAny : (payload : Fields) → IfAny (IsBounded lower) (decide_payload lower payload)
  unfolding decide_payload
  decide_payload-IfAny payload =
      let P = IsBounded lower in
      IfAny-unless P _ _ (
        IfAny-bind P (optional_text "intent" payload) _ λ intent.
          IfAny-bind P (optional_text "path" payload) _ λ path.
            IfAny-bind P (optional_text "query" payload) _ λ query.
              IfAny-bind P (optional_text "old_text" payload) _ λ old_text.
                IfAny-bind P (optional_text "new_text" payload) _ λ new_text.
                  IfAny-bind P (optional_text "expected_sha256" payload) _ λ sha.
                    IfAny-bind P (optional_text "answer" payload) _ λ answer.
                      IfAny-intro P (decide lower intent path query old_text new_text sha answer)
                        (decide-IsBounded lower intent path query old_text new_text sha answer))

  decide_value-IfAny : (v : Value) → IfAny (IsBounded lower) (decide_value lower v)
  decide_value-IfAny null = tt
  decide_value-IfAny (bool b) = tt
  decide_value-IfAny (num n) = tt
  decide_value-IfAny (neg n) = tt
  decide_value-IfAny (real s n) = tt
  decide_value-IfAny (str s) = tt
  decide_value-IfAny (arr xs) = tt
  decide_value-IfAny (obj payload) = decide_payload-IfAny payload

  -- Whatever the model answers, and however it is read as JSON, a decision that is accepted has a
  -- known intent, a path inside the workspace if any, and exactly the fields of that intent: a text
  -- to replace, its replacement and a lowered SHA-256 for a patch alone, a query for a search
  -- alone, an answer at the end alone, and a path wherever a file is read, listed or patched
  -- and, besides these three, for a search or a diff at most.
  pub parse_agent_run_decision-IsBounded :
      (loads : String → Option Value) (output : String) (d : AgentRunDecision)
      → parse_agent_run_decision lower loads output ≡ some d
      → IsBounded lower d
  unfolding parse_agent_run_decision
  parse_agent_run_decision-IsBounded loads output d e =
      let P = IsBounded lower in
      IfAny-elim P _ d
        (IfAny-bind P (unfenced (strip output)) _
          λ raw. IfAny-bind P (loads raw) _ λ v. decide_value-IfAny v)
        e
