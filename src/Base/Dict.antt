-- ===== src/Base/Dict.antt =====
-- A Python `dict` with text keys, in insertion order: an overwritten key keeps its place.
use bug_free_enigma.Base.Tests.{Bool-cases, ◌==◌, if◌then◌else◌}
use bug_free_enigma.Base.Lists.{All, contains}
use bug_free_enigma.Base.Raise.{Outcome, ok, err, key_error}
use Prim.Native.String.{String}
use mathlib.Core.Path.{◌≡◌, refl}
use mathlib.Core.Bool.{Bool, true, false}
use mathlib.Core.Option.{Option, none, some}
use mathlib.Core.List.{List, [], ◌∷◌, ◌++◌, map}
use native.Mathlib.Omega.{arith}
use text.Mathlib.TextEquality.{eq_iff}

abbrev pub Dict {ℓ} : Type ℓ → Type ℓ
Dict V = List (String × V)

module _ {ℓ} {V : Type ℓ} where
  -- `d.get(k)`
  unfoldable pub lookup : String → Dict V → Option V
  lookup k [] = none
  lookup k ((j, v) ∷ d) = if j == k then some v else lookup k d

  -- `d[k]`, which raises on a missing key
  abbrev pub get : String → Dict V → Outcome V
  get k d = elim (lookup k d) [ none ↦ err (key_error k) | some v ↦ ok v ]

  -- `k in d`
  abbrev pub has_key : String → Dict V → Bool
  has_key k d = elim (lookup k d) [ none ↦ false | some _ ↦ true ]

  -- `d[k] = v`
  unfoldable pub put : String → V → Dict V → Dict V
  put k v [] = (k, v) ∷ []
  put k v ((j, w) ∷ d) = if j == k then (j, v) ∷ d else (j, w) ∷ put k v d

  -- `d.pop(k, None)`
  unfoldable pub remove : String → Dict V → Dict V
  remove k [] = []
  remove k ((j, v) ∷ d) = let rest = remove k d in if j == k then rest else (j, v) ∷ rest

  -- `list(d.values())`
  abbrev pub values : Dict V → List V
  values [] = []
  values ((_, v) ∷ d) = v ∷ values d

  -- `{k(x): x for x in xs}`
  unfoldable pub index_by : (V → String) → List V → Dict V → Dict V
  index_by key [] d = d
  index_by key (x ∷ xs) d = index_by key xs (put (key x) x d)

  pub lookup-put :
      (k j : String) (v : V) (d : Dict V)
      → lookup j (put k v d) ≡ (if k == j then some v else lookup j d)
  unfolding lookup put
  lookup-put k j v [] = refl
  lookup-put k j v ((i, w) ∷ d) =
      ground (arith, eq_iff k j, eq_iff i k, eq_iff i j, lookup-put k j v d)

  -- the later of two writes under one key stands
  pub put-put : (k : String) (v w : V) (d : Dict V) → put k w (put k v d) ≡ put k w d
  unfolding put
  put-put k v w [] = ground (arith, eq_iff k k)
  put-put k v w ((j, u) ∷ d) = ground (arith, put-put k v w d, Bool-cases (j == k))

  pub put_fresh :
      (k : String) (v : V) (d : Dict V) → lookup k d ≡ none → put k v d ≡ d ++ (k, v) ∷ []
  unfolding lookup put
  put_fresh k v [] h = refl
  put_fresh k v ((i, w) ∷ d) h = ground (arith, put_fresh k v d)

  -- What holds of every value holds of the one that is found.
  pub All-lookup {κ} :
      (P : V → Type κ) (k : String) {v : V} (d : Dict V)
      → All P (values d)
      → lookup k d ≡ some v
      → P v
  unfolding lookup
  All-lookup P k [] h e = absurd (cc)
  All-lookup P k {v} ((j, w) ∷ d) h e = ground (arith, All-lookup P k {v = v} d h.1)

  pub All-put {κ} :
      (P : V → Type κ) (k : String) (v : V) (d : Dict V)
      → P v
      → All P (values d)
      → All P (values (put k v d))
  unfolding put
  All-put P k v [] p h = (p, tt)
  All-put P k v ((j, w) ∷ d) p h = ground (arith, All-put P k v d p h.1)

  -- a value that is written twice under one key
  pub All-overwrite {κ} :
      (P : V → Type κ) (k j : String) (v w : V) (d : Dict V)
      → j ≡ k
      → P w
      → All P (values d)
      → All P (values (put j w (put k v d)))
  All-overwrite P k j v w d e p h = rw e (rw (put-put k v w d) (All-put P k w d p h))

-- Every value stands under its own key.
abbrev pub IsKeyed {ℓ} : {V : Type ℓ} → (V → String) → Dict V → Type 0
IsKeyed key [] = Unit
IsKeyed key ((k, v) ∷ d) = (key v ≡ k) × IsKeyed key d

module _ {ℓ} {V : Type ℓ} (key : V → String) where
  pub IsKeyed-put : (v : V) (d : Dict V) → IsKeyed key d → IsKeyed key (put (key v) v d)
  unfolding put
  IsKeyed-put v [] h = (refl, tt)
  IsKeyed-put v ((j, w) ∷ d) h = ground (arith, eq_iff j (key v), IsKeyed-put v d h.1)

  pub lookup-IsKeyed :
      (k : String) {v : V} (d : Dict V) → IsKeyed key d → lookup k d ≡ some v → key v ≡ k
  unfolding lookup
  lookup-IsKeyed k [] h e = absurd (cc)
  lookup-IsKeyed k {v} ((j, w) ∷ d) h e = ground (arith, eq_iff j k, lookup-IsKeyed k {v = v} d h.1)

  -- A key of the values is a key of the dictionary.
  pub contains-keys :
      (k : String) (d : Dict V) → IsKeyed key d → contains k (map key (values d)) ≡ has_key k d
  unfolding lookup contains
  contains-keys k [] h = refl
  contains-keys k ((j, w) ∷ d) h = ground (arith, h.0, contains-keys k d h.1)

-- No key stands twice.
abbrev pub IsDistinct {ℓ} : {V : Type ℓ} → Dict V → Type 0
IsDistinct [] = Unit
IsDistinct ((k, v) ∷ d) = (has_key k d ≡ false) × IsDistinct d

module _ {ℓ} {V : Type ℓ} where
  pub lookup-remove :
      (k j : String) (d : Dict V) → lookup j (remove k d) ≡ (if k == j then none else lookup j d)
  unfolding lookup remove
  lookup-remove k j [] = ground arith
  lookup-remove k j ((i, w) ∷ d) =
      ground (arith, eq_iff k j, eq_iff i k, eq_iff i j, lookup-remove k j d)

  pub IsDistinct-remove : (k : String) (d : Dict V) → IsDistinct d → IsDistinct (remove k d)
  unfolding remove
  IsDistinct-remove k [] h = tt
  IsDistinct-remove k ((i, w) ∷ d) h =
      ground (arith, lookup-remove k i d, IsDistinct-remove k d h.1)

  pub IsDistinct-put : (k : String) (v : V) (d : Dict V) → IsDistinct d → IsDistinct (put k v d)
  unfolding put lookup
  IsDistinct-put k v [] h = (refl, tt)
  IsDistinct-put k v ((i, w) ∷ d) h =
      ground (arith, eq_iff i k, eq_iff k i, lookup-put k i v d, IsDistinct-put k v d h.1)
