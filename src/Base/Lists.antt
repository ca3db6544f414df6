-- ===== src/Base/Lists.antt =====
-- Lists over the native numbers, and the sets of texts that the program keeps: a Python set of
-- texts is a list of which only membership is read.
use Prim.Native.Nat.{ℕ, suc, ◌+◌}
use Prim.Native.String.{String}
use mathlib.Core.Path.{◌≡◌, refl}
use mathlib.Core.Bool.{Bool, true, false, not, ◌&&◌, ◌||◌}
use mathlib.Core.List.{List, [], ◌∷◌, ◌++◌}
use native.Mathlib.Omega.{arith}
use text.Mathlib.TextEquality.{eq_iff}
use bug_free_enigma.Base.Tests.{◌==◌, text_le, if◌then◌else◌, Bool-cases}

module _ {ℓ} {A : Type ℓ} where
  abbrev pub length : List A → ℕ
  length [] = 0
  length (x ∷ xs) = suc (length xs)

  -- a list comprehension with a condition
  abbrev pub filter : (A → Bool) → List A → List A
  filter p [] = []
  filter p (x ∷ xs) = let rest = filter p xs in if p x then x ∷ rest else rest

  abbrev pub any : (A → Bool) → List A → Bool
  any p [] = false
  any p (x ∷ xs) = p x || any p xs

  abbrev pub all : (A → Bool) → List A → Bool
  all p [] = true
  all p (x ∷ xs) = p x && all p xs

  -- Every item satisfies `P`.
  abbrev pub All {κ} : (A → Type κ) → List A → Type κ
  All P [] = Unit
  All P (x ∷ xs) = P x × All P xs

  pub All-map {κ μ} :
      {P : A → Type κ} {Q : A → Type μ}
      → ((a : A) → P a → Q a)
      → (xs : List A) → All P xs
      → All Q xs
  All-map f [] h = tt
  All-map f (x ∷ xs) h = (f x h.0, All-map f xs h.1)

  pub length-append : (xs ys : List A) → length (xs ++ ys) ≡ length xs + length ys
  length-append [] ys = omega arith
  length-append (x ∷ xs) ys = omega (arith, length-append xs ys)

unfoldable pub sum_of {ℓ} : {A : Type ℓ} → (A → ℕ) → List A → ℕ
sum_of f [] = 0
sum_of f (x ∷ xs) = f x + sum_of f xs

pub sum_of-append {ℓ} :
    {A : Type ℓ} (f : A → ℕ) (xs ys : List A) → sum_of f (xs ++ ys) ≡ sum_of f xs + sum_of f ys
unfolding sum_of
sum_of-append f [] ys = omega arith
sum_of-append f (x ∷ xs) ys = omega (arith, sum_of-append f xs ys)

insert_text : String → List String → List String
insert_text k [] = k ∷ []
insert_text k (x ∷ xs) = let rest = insert_text k xs in if text_le k x then k ∷ x ∷ xs else x ∷ rest

-- `sorted(texts)`
unfoldable pub sorted : List String → List String
unfolding insert_text
sorted [] = []
sorted (x ∷ xs) = insert_text x (sorted xs)

-- `k in s`
unfoldable pub contains : String → List String → Bool
contains k [] = false
contains k (x ∷ xs) = x == k || contains k xs

-- `s | {k}`
unfoldable pub with_item : String → List String → List String
with_item k xs = if contains k xs then xs else xs ++ k ∷ []

-- `s - t`
unfoldable pub difference : List String → List String → List String
difference xs ys = filter (λ x. not (contains x ys)) xs

pub contains-append :
    (k : String) (xs ys : List String) → contains k (xs ++ ys) ≡ (contains k xs || contains k ys)
unfolding contains
contains-append k [] ys = refl
contains-append k (x ∷ xs) ys = ground (arith, contains-append k xs ys)

contains_one : (j k : String) → contains j (k ∷ []) ≡ (k == j)
unfolding contains
contains_one j k = ground arith

pub contains-with_item :
    (j k : String) (xs : List String) → contains j (with_item k xs) ≡ (k == j || contains j xs)
unfolding with_item
contains-with_item j k xs =
    ground (
      arith,
      contains-append j xs (k ∷ []),
      contains_one j k,
      eq_iff k j,
      Bool-cases (contains k xs),
    )

pub All-contains {κ} :
    (P : String → Type κ) (k : String) (xs : List String) → All P xs → contains k xs ≡ true → P k
unfolding contains
All-contains P k [] h e = absurd (cc)
All-contains P k (x ∷ xs) h e = ground (arith, eq_iff x k, All-contains P k xs h.1)

-- A difference without items leaves nothing out.
pub difference-nil :
    (k : String) (xs ys : List String)
    → difference xs ys ≡ []
    → contains k xs ≡ true
    → contains k ys ≡ true
unfolding contains difference
difference-nil k [] ys h e = cc
difference-nil k (x ∷ xs) ys h e = ground (arith, eq_iff x k, difference-nil k xs ys)
