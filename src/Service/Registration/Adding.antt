-- ===== src/Service/Registration/Adding.antt =====
-- A loop that adds one item to the sets of several entries of a catalog, as the registrations of
-- backend/app/services/company.py do on both sides of an authorization.
use bug_free_enigma.Base.{
  String, ◌||◌, ◌&&◌, none, some, List, [], ◌∷◌, ◌≡◌, refl, arith, inl, inr, ◌==◌, eq_iff, contains,
  with_item, contains-with_item, Bool-cases,
}
use bug_free_enigma.Base.Dict.{Dict, lookup, put, lookup-put}

module _ {V F : Type 0} (items : V → List String) (fixed : V → F) where
  -- The entry under `j` in `e`, beside the one that stood there before.
  abbrev pub Added : String → List String → String → V → Dict V → Type 0
  Added i js j v e =
      (w : V) × (lookup j e ≡ some w)
      × ((k : String) → contains k (items w) ≡ (contains k (items v) || (i == k && contains j js)))
      × (fixed w ≡ fixed v)

  -- The entries under `js` have gained `i`, and nothing else is new.
  pub record Adds (i : String) (js : List String) (d e : Dict V) : Type 0 where
    pub kept : (j : String) (v : V) → lookup j d ≡ some v → Added i js j v e
    pub only : (j : String) → lookup j d ≡ none → lookup j e ≡ none

  pub Adds-none : (i : String) (d : Dict V) → Adds i [] d d
  unfolding contains
  Adds-none i d = record {
    kept = λ j v found. (v, found, (λ k. ground arith), refl);
    only = λ j missing. missing;
  }

  pub Adds-next :
      (i j : String) (js : List String) (d e : Dict V) (v w : V)
      → lookup j d ≡ some v
      → items w ≡ with_item i (items v)
      → fixed w ≡ fixed v
      → Adds i js (put j w d) e
      → Adds i (j ∷ js) d e
  unfolding contains
  Adds-next i j js d e v w found has same later = record {
    kept = λ x u there. elim (Bool-cases (j == x)) [
      | inl here ↦
          let at : lookup x (put j w d) ≡ some w = rw (lookup-put j x w d, here) refl in
          let old : u ≡ v = ground (arith, eq_iff j x) in
          let (w', stands, holds, still) = later.kept x w at in
          (
            w',
            stands,
            (λ k. ground (arith, holds k, has, contains-with_item k i (items v), old, here)),
            ground (arith, still, same, old),
          )
      | inr other ↦
          let at : lookup x (put j w d) ≡ some u = rw (lookup-put j x w d, other) there in
          let (w', stands, holds, still) = later.kept x u at in
          (w', stands, (λ k. ground (arith, holds k, other)), still)
    ];
    only = λ x missing. later.only x (ground (arith, lookup-put j x w d, eq_iff j x, found));
  }
