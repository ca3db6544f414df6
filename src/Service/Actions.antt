-- ===== src/Service/Actions.antt =====
-- A method of the service: it changes the state and may raise. What was written before a raise
-- stays written, so the state comes back with the error too.
pub mod Hoare
use bug_free_enigma.Base.{
  ◌+◌, String, Bool, ◌≡◌, refl, inl, inr, arith, Outcome, ok, err, Error, raise_if, Outcome-cases,
}
use bug_free_enigma.Base.Text.{◌<>◌}
use bug_free_enigma.Core.Time.{Instant}
use bug_free_enigma.Service.State.{Company, Env}

abbrev pub Action : Type 0 → Type 0
Action A = Company → Outcome A × Company

module _ {A : Type 0} where
  abbrev pub pure : A → Action A
  pure a c = (ok a, c)

  abbrev pub raise : Error → Action A
  raise e c = (err e, c)

  abbrev pub lift : Outcome A → Action A
  lift m c = (m, c)

  abbrev pub gets : (Company → A) → Action A
  gets f c = (ok (f c), c)

  -- a part that only reads, and may raise
  abbrev pub asks : (Company → Outcome A) → Action A
  asks f c = (f c, c)

abbrev pub modify : (Company → Company) → Action Unit
modify f c = (ok tt, f c)

-- `if c: raise e`
abbrev pub guard : Bool → Error → Action Unit
guard b e c = (raise_if b e, c)

-- the rest of a method, after what came of its first part
abbrev pub continue : {A B : Type 0} → Outcome A → (A → Action B) → Action B
continue (ok a) f c = f a c
continue (err e) f c = (err e, c)

infixl 5 ◌>>=◌ ◌>>◌
abbrev pub ◌>>=◌ : {A B : Type 0} → Action A → (A → Action B) → Action B
◌>>=◌ m f c = let (r, c') = m c in continue r f c'

abbrev pub ◌>>◌ : {A B : Type 0} → Action A → Action B → Action B
m >> k = m >>= λ _. k

module _ (env : Env) where
  -- `new_id(prefix)`
  unfoldable pub new_id : String → Action String
  new_id prefix c =
      (ok (prefix <> "_" <> env.uuid_hex c.ids_drawn), record c { ids_drawn = c.ids_drawn + 1 })

  -- `utc_now()`
  unfoldable pub utc_now : Action Instant
  utc_now c = (ok (env.clock c.clock_reads), record c { clock_reads = c.clock_reads + 1 })

-- Inversion of a bind that went through.
pub bind-eq-ok :
    {A B : Type 0} (m : Action A) (f : A → Action B) (c : Company) {b : B}
    → ((m >>= f) c).0 ≡ ok b
    → (a : A) × ((m c).0 ≡ ok a) × ((f a (m c).1).0 ≡ ok b)
bind-eq-ok m f c h = elim (Outcome-cases (m c).0) [
  | inl (a, e) ↦ (a, e, ground arith)
  | inr (x, e) ↦ absurd (ground arith)
]

-- What a bind does after a part that went through.
pub bind-after-ok :
    {A B : Type 0} (m : Action A) (f : A → Action B) (c : Company) {a : A}
    → (m c).0 ≡ ok a
    → (m >>= f) c ≡ f a (m c).1
bind-after-ok m f c e = rw e refl

-- Two binds of parts that agree.
pub bind-cong :
    {A B : Type 0} (m m' : Action A) (f f' : A → Action B) (c : Company)
    → m c ≡ m' c
    → ((a : A) (d : Company) → f a d ≡ f' a d)
    → (m >>= f) c ≡ (m' >>= f') c
bind-cong m m' f f' c same rest = elim (Outcome-cases (m' c).0) [
  | inl (a, e) ↦ rw (same, e) (rest a (m' c).1)
  | inr (x, e) ↦ rw (same, e) refl
]
