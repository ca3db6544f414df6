-- ===== src/Service/Actions/Hoare.antt =====
-- Methods that keep an invariant of the state, on every way out.
use bug_free_enigma.Base.{Bool, true, false, if◌then◌else◌, ◌≡◌, refl, Outcome, ok, err, Error}
use bug_free_enigma.Service.State.{Company}
use bug_free_enigma.Service.Actions.{Action, continue, asks, lift, pure, guard, ◌>>=◌}

-- What holds of the result, if there is one.
abbrev pub After : {A : Type 0} → (A → Type 0) → Outcome A → Type 0
After P (ok a) = P a
After P (err e) = Unit

module _ (Inv : Company → Type 0) where
  -- From a state in which `Inv` holds, the method leaves such a state, whether it raises or not,
  -- and `P` holds of what it returns.
  pub record Keeps {A : Type 0} (m : Action A) (P : A → Type 0) : Type 0 where
    pub kept : (c : Company) → Inv c → Inv (m c).1 × After P (m c).0

  pub Keeps-bind :
      {A B : Type 0} (m : Action A) (f : A → Action B) {P : A → Type 0} {Q : B → Type 0}
      → Keeps m P
      → ((a : A) → P a → Keeps (f a) Q)
      → Keeps (m >>= f) Q
  Keeps-bind {A} {B} m f {P} {Q} hm hf = record { kept = λ c h. go (m c).0 (m c).1 (hm.kept c h) }
    where
      go :
          (r : Outcome A) (d : Company)
          → Inv d × After P r
          → Inv (continue r f d).1 × After Q (continue r f d).0
      go (ok a) d (i, p) = (hf a p).kept d i
      go (err e) d (i, p) = (i, tt)

  pub Keeps-if :
      {A : Type 0} (b : Bool) (m n : Action A) {P : A → Type 0}
      → Keeps m P
      → Keeps n P
      → Keeps (if b then m else n) P
  Keeps-if true m n p q = p
  Keeps-if false m n p q = q

  pub Keeps-guard : (b : Bool) (e : Error) → Keeps (guard b e) (λ _. b ≡ false)
  Keeps-guard true e = record { kept = λ c h. (h, tt) }
  Keeps-guard false e = record { kept = λ c h. (h, refl) }

  pub Keeps-asks :
      {A : Type 0} (f : Company → Outcome A) {P : A → Type 0}
      → ((c : Company) → Inv c → After P (f c))
      → Keeps (asks f) P
  Keeps-asks f p = record { kept = λ c h. (h, p c h) }

  pub Keeps-lift : {A : Type 0} (m : Outcome A) {P : A → Type 0} → After P m → Keeps (lift m) P
  Keeps-lift m p = record { kept = λ c h. (h, p) }

  pub Keeps-pure : {A : Type 0} (a : A) {P : A → Type 0} → P a → Keeps (pure a) P
  Keeps-pure a p = record { kept = λ c h. (h, p) }
