-- ===== src/Gateway/Attempts/Fallback.antt =====
-- When `ModelGateway.generate` (backend/app/models/gateway.py) falls back to another provider.
use bug_free_enigma.Base.{
  String, Option, none, some, List, [], ◌∷◌, ◌++◌, ◌≡◌, refl, ap, ◌∙◌, inl, inr, arith, map, ok,
  All, Option-cases,
}
use mathlib.Core.List.{append_assoc}
use bug_free_enigma.Base.Dict.{lookup}
use bug_free_enigma.Gateway.{ProviderGeneration, ProviderReply, ModelGateway}
use bug_free_enigma.Gateway.Route.{Attempt}
use bug_free_enigma.Gateway.Attempts.{Call, Tried, Answer, try_provider, run_route}

-- What an attempt comes to: nothing where its provider is not configured.
abbrev pub tried_at : ModelGateway → Call → Attempt → Option Tried
tried_at g call (name, model) = elim (lookup name g.providers) [
  | none ↦ none
  | some adapter ↦ some (try_provider adapter call (name, model))
]

-- An attempt that failed before it handed anything over.
abbrev pub IsSilent : ModelGateway → Call → Attempt → Type 0
IsSilent g call attempt =
    (reason : String) × (tried_at g call attempt
      ≡ some (record { emitted = []; reply = ProviderReply.refused reason }))

-- The three ends of an attempt: an answer, a failure before any text, a failure after some.
data Ends (t : Tried) : Type 0 where
  answered : (g : ProviderGeneration) → t.reply ≡ ProviderReply.generated g → Ends t
  silent : (reason : String) → t.reply ≡ ProviderReply.refused reason → t.emitted ≡ [] → Ends t
  cut :
      (reason x : String) (xs : List String)
      → t.reply ≡ ProviderReply.refused reason
      → t.emitted ≡ x ∷ xs
      → Ends t

Tried-Ends : (t : Tried) → Ends t
Tried-Ends t = go t.emitted t.reply refl refl
  where
    go :
        (emitted : List String) (reply : ProviderReply)
        → t.emitted ≡ emitted
        → t.reply ≡ reply
        → Ends t
    go emitted (ProviderReply.generated g) p q = answered g q
    go [] (ProviderReply.refused r) p q = silent r q p
    go (x ∷ xs) (ProviderReply.refused r) p q = cut r x xs q p

-- The answer came after attempts that all failed without a word.
pub record IsFallback (g : ModelGateway) (call : Call) (attempted : List String)
    (route : List Attempt) (answer : Answer) : Type 0 where
  pub failed : List Attempt
  pub rest : List Attempt
  pub tried : Tried
  pub route_split : route ≡ failed ++ answer.by ∷ rest
  pub all_silent : All (IsSilent g call) failed
  pub was_tried : tried_at g call answer.by ≡ some tried
  pub answered_it : tried.reply ≡ ProviderReply.generated answer.generation
  pub in_order : answer.attempted_providers ≡ attempted ++ map (λ a. a.0) (failed ++ answer.by ∷ [])

module _ (g : ModelGateway) (call : Call) where
  run_route_step :
      (attempted : List String) (text : String) (a : Attempt) (route : List Attempt)
      (answer : Answer) (emitted : List String) (t : Tried)
      → tried_at g call a ≡ some t
      → Ends t
      → run_route g call attempted text (a ∷ route) ≡ (ok answer, emitted)
      → ((text' : String)
          → run_route g call (attempted ++ a.0 ∷ []) text' route ≡ (ok answer, emitted)
          → IsFallback g call (attempted ++ a.0 ∷ []) route answer)
      → IsFallback g call attempted (a ∷ route) answer
  unfolding run_route
  run_route_step attempted text a route answer emitted t tried (answered gen e) r later = record {
    failed = [];
    rest = route;
    tried = t;
    route_split = ground arith;
    all_silent = tt;
    was_tried = ground arith;
    answered_it = ground arith;
    in_order = ground arith;
  }
  run_route_step attempted text a route answer emitted t tried (silent reason e f) r later =
      let h = later reason ground arith in
      record {
        failed = a ∷ h.failed;
        rest = h.rest;
        tried = h.tried;
        route_split = ap (λ x. a ∷ x) h.route_split;
        all_silent = ((reason, ground arith), h.all_silent);
        was_tried = h.was_tried;
        answered_it = h.answered_it;
        in_order = h.in_order ∙ append_assoc attempted (a.0 ∷ []) _;
      }
  run_route_step attempted text a route answer emitted t tried (cut reason x xs e f) r later =
      absurd (ground arith)

  -- Where the loop over the route answers, it does so with the first provider that answers: each
  -- one before it on the route failed and had handed no text over, so that no answer is mixed from
  -- two providers; and the response lists exactly the providers that were tried, in their order.
  pub run_route-IsFallback :
      (attempted : List String) (text : String) (route : List Attempt) (answer : Answer)
      (emitted : List String)
      → run_route g call attempted text route ≡ (ok answer, emitted)
      → IsFallback g call attempted route answer
  unfolding run_route
  run_route-IsFallback attempted text [] answer emitted r = absurd (ground arith)
  run_route-IsFallback attempted text (a ∷ route) answer emitted r =
      elim (Option-cases (tried_at g call a)) [
        | inl missing ↦ absurd (ground arith)
        | inr (t, tried) ↦
            run_route_step attempted text a route answer emitted t tried (Tried-Ends t) r
              λ text' rest.
                run_route-IsFallback (attempted ++ a.0 ∷ []) text' route answer emitted rest
      ]

  -- The converse: where an attempt answers and each one before it failed without a word, the loop
  -- gives that answer and hands over that attempt's text alone.
  pub run_route_answers :
      (attempted : List String) (text : String) (failed rest : List Attempt) (by : Attempt)
      (t : Tried) (generation : ProviderGeneration)
      → All (IsSilent g call) failed
      → tried_at g call by ≡ some t
      → t.reply ≡ ProviderReply.generated generation
      → run_route g call attempted text (failed ++ by ∷ rest) ≡ (
        ok (record {
          generation = generation;
          by = by;
          attempted_providers = attempted ++ map (λ a. a.0) (failed ++ by ∷ []);
        }),
        t.emitted,
      )
  unfolding run_route
  run_route_answers attempted text [] rest by t generation quiet tried replied = ground arith
  run_route_answers attempted text (a ∷ failed) rest by t generation quiet tried replied =
      let reason = quiet.0.0 in
      let later =
        run_route_answers (attempted ++ a.0 ∷ []) reason failed rest by t generation quiet.1 tried
          replied in
      ground (
        arith,
        quiet.0.1,
        append_assoc attempted (a.0 ∷ []) (map (λ (a : Attempt). a.0) (failed ++ by ∷ [])),
      )
