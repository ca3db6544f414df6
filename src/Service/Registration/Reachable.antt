-- ===== src/Service/Registration/Reachable.antt =====
-- What registrations keep of the catalogs (backend/app/services/company.py: `register_agent`,
-- `register_skill`, `register_tool`).
use bug_free_enigma.Base.{◌≡◌, refl, ap, inl, inr, Outcome, Error, ok, err}
use bug_free_enigma.Core.Models.Catalog.{Agent, Skill, Tool}
use bug_free_enigma.Service.State.{Env, Company}
use bug_free_enigma.Service.Actions.{Action}
use bug_free_enigma.Service.Registration.{register_agent, register_skill, register_tool}
use bug_free_enigma.Service.Registration.Ends.{
  Ends, AreSound, unchanged, ended, register_agent-Ends, register_skill-Ends, register_tool-Ends,
}

-- An entry that is to be registered, and the call of its method.
pub data Entry : Type 0 where
  agent : Agent → Entry
  skill : Skill → Entry
  tool : Tool → Entry

abbrev pub without_value : {A : Type 0} → Outcome A × Company → Outcome (Unit {0}) × Company
without_value (ok _, c) = (ok tt, c)
without_value (err e, c) = (err e, c)

abbrev pub register_entry : Env → Entry → Action Unit
register_entry env (Entry.agent a) c = without_value (register_agent env a c)
register_entry env (Entry.skill s) c = without_value (register_skill env s c)
register_entry env (Entry.tool t) c = without_value (register_tool t c)

without_value-Ends :
    {A : Type 0} (a : A) (c : Company) (result : Outcome A × Company)
    → Ends a c result
    → Ends tt c (without_value result)
without_value-Ends a c (ok _, d) (inl (e, same)) = absurd (cc)
without_value-Ends a c (err x, d) (inl (e, same)) =
    inl (x, ap (λ (p : Outcome _ × Company). (err x, p.1)) same)
without_value-Ends a c (ok _, d) (inr (went, after)) = inr (refl, after)
without_value-Ends a c (err x, d) (inr (went, after)) = absurd (cc)

register_entry-Ends :
    (env : Env) (entry : Entry) (c : Company) → AreSound c → Ends tt c (register_entry env entry c)
register_entry-Ends env (Entry.agent a) c sound =
    without_value-Ends a c _ (register_agent-Ends env c sound a)
register_entry-Ends env (Entry.skill s) c sound =
    without_value-Ends s c _ (register_skill-Ends env c sound s)
register_entry-Ends env (Entry.tool t) c sound =
    without_value-Ends t c _ (register_tool-Ends env c sound t)

-- On sound catalogs a registration is atomic: where it raises, at whatever check, the state is what
-- it was, though a new Agent is written to two catalogs and a new Skill as well.
pub register_entry_atomic :
    (env : Env) (entry : Entry) (c : Company) (e : Error)
    → AreSound c
    → (register_entry env entry c).0 ≡ err e
    → (register_entry env entry c).1 ≡ c
register_entry_atomic env entry c e sound raised =
    unchanged tt c _ e (register_entry-Ends env entry c sound) raised

-- The states that registrations lead to, whatever each gives back.
pub data Reach (env : Env) (c : Company) : Company → Type 0 where
  here : Reach env c c
  next :
      {d : Company} → Reach env c d → (entry : Entry) → Reach env c (register_entry env entry d).1

-- Whatever Agents, Skills and Tools are registered in whatever order, by calls that may be refused,
-- sound catalogs stay sound: an Agent has a Skill exactly where the Skill admits the Agent, no entry
-- names what is not registered, no Agent holds the Root permission, and Skills and Tools of high
-- risk ask for approval.
pub Reach-AreSound : (env : Env) {c d : Company} → Reach env c d → AreSound c → AreSound d
Reach-AreSound env Reach.here sound = sound
Reach-AreSound env (Reach.next {d} r entry) sound =
    let before = Reach-AreSound env r sound in
    ended tt d _ before (register_entry-Ends env entry d before)
