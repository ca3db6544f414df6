-- ===== src/Base/Raise.antt =====
-- The exceptions that the program raises, as values. An error carries the class of the exception,
-- its message and, where the message is an f-string, the texts put into it.
use Prim.Native.String.{String}
use mathlib.Core.Path.{◌≡◌, refl}
use mathlib.Core.Logic.{◌⊎◌, inl, inr, ◌↔◌}
use mathlib.Core.Bool.{Bool, true, false}
use mathlib.Core.List.{List, [], ◌∷◌}
use bug_free_enigma.Base.Lists.{All}

pub data Error : Type 0 where
  key_error : String → Error
  value_error : String → List String → Error
  permission_error : String → Error
  type_error : String → Error
  overflow_error : Error
  -- a `ModelProviderError`
  provider_error : String → List String → Error

pub data Outcome {ℓ} (A : Type ℓ) : Type ℓ where
  ok : A → Outcome A
  err : Error → Outcome A

-- What only raises or returns `None`.
abbrev pub Check : Type 0
Check = Outcome (Unit {0})

infixl 5 ◌>>=◌ ◌>>◌
abbrev pub ◌>>=◌ {ℓ κ} : {V : Type ℓ} {W : Type κ} → Outcome V → (V → Outcome W) → Outcome W
err e >>= rest = err e
ok v >>= rest = rest v

abbrev pub ◌>>◌ {ℓ} : {W : Type ℓ} → Check → Outcome W → Outcome W
check >> rest = check >>= λ _. rest

-- `if c: raise ValueError(...)`
abbrev pub raise_if : Bool → Error → Check
raise_if true e = err e
raise_if false e = ok tt

-- What a sequence that went through says of its two parts.
pub >>=-eq-ok {ℓ κ} :
    {V : Type ℓ} {W : Type κ} (part : Outcome V) (rest : V → Outcome W) {w : W}
    → (part >>= rest) ≡ ok w
    → (v : V) × (part ≡ ok v) × (rest v ≡ ok w)
>>=-eq-ok (err e) rest h = cc
>>=-eq-ok (ok v) rest h = (v, refl, h)

-- A guard that did not raise was false.
pub raise_if-eq-ok : (c : Bool) (e : Error) → raise_if c e ≡ ok tt → c ≡ false
raise_if-eq-ok true e h = cc
raise_if-eq-ok false e h = refl

pub Outcome-cases {ℓ} :
    {A : Type ℓ} (m : Outcome A) → ((a : A) × (m ≡ ok a)) ⊎ ((e : Error) × (m ≡ err e))
Outcome-cases (ok a) = inl (a, refl)
Outcome-cases (err e) = inr (e, refl)

-- a `for` loop whose body may raise and changes nothing
unfoldable pub for_each {ℓ} : {A : Type ℓ} → (A → Check) → List A → Check
for_each f [] = ok tt
for_each f (x ∷ xs) = f x >> for_each f xs

-- The loop raises nothing exactly when no round does.
pub for_each-eq-ok {ℓ} :
    {A : Type ℓ} (f : A → Check) (xs : List A) → (for_each f xs ≡ ok tt) ↔ All (λ x. f x ≡ ok tt) xs
unfolding for_each
for_each-eq-ok f [] = (λ h. tt, λ h. refl)
for_each-eq-ok f (x ∷ xs) =
    let rest = for_each-eq-ok f xs in
    (
      λ h.
          let (u, first, others) = >>=-eq-ok (f x) (λ _. for_each f xs) h in (first, rest.0 others),
      λ h. rw h.0 (rest.1 h.1),
    )

abbrev pub is_ok {ℓ} : {A : Type ℓ} → Outcome A → Bool
is_ok (ok _) = true
is_ok (err _) = false

pub of_is_ok {ℓ} : {A : Type ℓ} (m : Outcome A) → is_ok m ≡ true → (a : A) × (m ≡ ok a)
of_is_ok (ok a) h = (a, refl)
of_is_ok (err e) h = cc

pub ok-eq {ℓ} : {A : Type ℓ} {x y : A} → ok x ≡ ok y → x ≡ y
ok-eq e = cc
