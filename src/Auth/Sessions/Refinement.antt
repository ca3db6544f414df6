-- ===== src/Auth/Sessions/Refinement.antt =====
-- The sessions of backend/app/auth/service.py do what their ledger says.
use mathlib.Core.Path.{subst}
use bug_free_enigma.Base.{
  ◌≤◌, String, Option, none, some, List, [], ◌∷◌, ◌≡◌, refl, sym, ◌∙◌, inl, inr, arith, leb, ◌==◌,
  Bool-cases, eq_iff, Outcome, ok, err,
}
use bug_free_enigma.Base.Dict.{
  Dict, lookup, put, remove, IsDistinct, lookup-put, lookup-remove, IsDistinct-remove,
  IsDistinct-put,
}
use bug_free_enigma.Core.Time.{Instant, add_seconds}
use bug_free_enigma.Auth.Passwords.{Hashing}
use bug_free_enigma.Auth.Sessions.{
  User, SessionRecord, AuthService, Login, register, checked_user, open_session, admit,
  authenticated_by, prune_expired_sessions,
}
use bug_free_enigma.Auth.Sessions.Pruning.{live, live-later, live-prune, IsDistinct-prune}
use bug_free_enigma.Auth.Sessions.Ledger.{
  Event, keep_user, spec_keep_user, spec_open, spec_admit, registers, logs_in, logs_out,
  authenticates, Reply, Ledger, update, user_if_any, step, spec_step, run, spec_run,
}

-- From an instant on, the program and its ledger tell the same sessions.
pub record Agrees (now : Instant) (s : AuthService) (l : Ledger) : Type 0 where
  pub same_users : s.users ≡ l.users
  pub same_ttl : s.session_ttl_seconds ≡ l.session_ttl_seconds
  pub distinct : IsDistinct s.sessions
  pub same_sessions :
      (later : Instant) (token : String)
      → now ≤ later
      → live later (lookup token s.sessions) ≡ live later (l.opened token)

Agrees-later :
    {now later : Instant} {s : AuthService} {l : Ledger}
    → now ≤ later
    → Agrees now s l
    → Agrees later s l
Agrees-later {now} {later} le a = record {
  same_users = a.same_users;
  same_ttl = a.same_ttl;
  distinct = a.distinct;
  same_sessions = λ t token h. a.same_sessions t token (omega arith);
}

-- A session that the program opens, and one that it drops, on both sides.
module _ {now : Instant} {s : AuthService} {l : Ledger} (a : Agrees now s l) where
  opened-Agrees :
      (token : String) (session : SessionRecord)
      → Agrees now
          (record s { sessions = put token session (prune_expired_sessions now s.sessions) })
          (record l { opened = update token (some session) l.opened })
  opened-Agrees token session = record {
    same_users = a.same_users;
    same_ttl = a.same_ttl;
    distinct = IsDistinct-put token session _ (IsDistinct-prune now s.sessions a.distinct);
    same_sessions = λ later j h. elim (Bool-cases (token == j)) [
      | inl e ↦ rw (lookup-put token j session (prune_expired_sessions now s.sessions), e) refl
      | inr e ↦
          rw (lookup-put token j session (prune_expired_sessions now s.sessions), e)
            (live-prune now later j s.sessions h a.distinct ∙ a.same_sessions later j h)
    ];
  }

  pruned-Agrees : Agrees now (record s { sessions = prune_expired_sessions now s.sessions }) l
  pruned-Agrees = record {
    same_users = a.same_users;
    same_ttl = a.same_ttl;
    distinct = IsDistinct-prune now s.sessions a.distinct;
    same_sessions =
        λ later j h. live-prune now later j s.sessions h a.distinct ∙ a.same_sessions later j h;
  }

  closed-Agrees :
      (token : String)
      → Agrees now
          (record s { sessions = remove token s.sessions })
          (record l { opened = update token none l.opened })
  closed-Agrees token = record {
    same_users = a.same_users;
    same_ttl = a.same_ttl;
    distinct = IsDistinct-remove token s.sessions a.distinct;
    same_sessions = λ later j h. elim (Bool-cases (token == j)) [
      | inl e ↦ rw (lookup-remove token j s.sessions, e) refl
      | inr e ↦ rw (lookup-remove token j s.sessions, e) (a.same_sessions later j h)
    ];
  }

  -- a session that has expired already may be dropped
  dropped-Agrees :
      (token : String)
      → live now (lookup token s.sessions) ≡ none
      → Agrees now (record s { sessions = remove token s.sessions }) l
  dropped-Agrees token e =
      let expired : (later : Instant) (j : String)
          → now ≤ later
          → token ≡ j
          → live later (lookup j s.sessions) ≡ none =
        λ later j h same.
          live-later now later (lookup j s.sessions) h
            (subst (λ k. live now (lookup k s.sessions) ≡ none) same e) in
      record {
        same_users = a.same_users;
        same_ttl = a.same_ttl;
        distinct = IsDistinct-remove token s.sessions a.distinct;
        same_sessions = λ later j h. elim (Bool-cases (token == j)) [
          | inl same ↦
              rw (lookup-remove token j s.sessions, same)
                (sym (expired later j h ((eq_iff token j).0 same)) ∙ a.same_sessions later j h)
          | inr other ↦ rw (lookup-remove token j s.sessions, other) (a.same_sessions later j h)
        ];
      }

-- Both sides reply alike, and stay in agreement.
abbrev Steps : Instant → Reply × AuthService → Reply × Ledger → Type 0
Steps now p q = (p.0 ≡ q.0) × Agrees now p.1 q.1

abbrev as_reply : Outcome Login × AuthService → Reply × AuthService
as_reply (reply, s') = (Reply.logged_in reply, s')

abbrev as_user : Option User × AuthService → Reply × AuthService
as_user (user, s') = (Reply.authenticated user, s')

module _ {now : Instant} {s : AuthService} {l : Ledger} (a : Agrees now s l) where
  keep_user-Steps :
      (r : Outcome (User × Dict User)) → Steps now (keep_user r s) (spec_keep_user r l)
  keep_user-Steps (err e) = (refl, a)
  keep_user-Steps (ok (user, users)) = (
    refl,
    record {
      same_users = refl;
      same_ttl = a.same_ttl;
      distinct = a.distinct;
      same_sessions = a.same_sessions;
    },
  )

  open_session-Steps :
      (token : String) (user : User) (r : Outcome Instant)
      → Steps now
          (as_reply (open_session token user (prune_expired_sessions now s.sessions) r s))
          (spec_open token user r l)
  open_session-Steps token user (err e) = (refl, pruned-Agrees a)
  open_session-Steps token user (ok expires_at) = (
    ground arith,
    opened-Agrees a token (record { user_id = user.user_id; expires_at = expires_at }),
  )

  admit-Steps :
      (token : String) (later : Instant) (r : Outcome User)
      → Steps now (as_reply (admit token now later r s)) (spec_admit token later r l)
  admit-Steps token later (err e) = (refl, a)
  admit-Steps token later (ok user) =
      subst
        (λ n.
          Steps now
            (as_reply (
              open_session token user (prune_expired_sessions now s.sessions)
                (add_seconds later s.session_ttl_seconds) s))
            (spec_open token user (add_seconds later n) l))
        a.same_ttl (open_session-Steps token user (add_seconds later s.session_ttl_seconds))

  authenticated_by-Steps :
      (token : String) (o : Option SessionRecord)
      → lookup token s.sessions ≡ o
      → Steps now
          (as_user (authenticated_by o token now s))
          (Reply.authenticated (user_if_any (live now o) s.users), l)
  authenticated_by-Steps token none e = (refl, a)
  authenticated_by-Steps token (some session) e = elim (Bool-cases (leb session.expires_at now)) [
    | inl expired ↦
        let gone : live now (lookup token s.sessions) ≡ none = rw (e, expired) refl in
        rw expired (refl, dropped-Agrees a token gone)
    | inr valid ↦ rw valid (refl, a)
  ]

module _ (lower : String → String) (hashing : Hashing) where
  -- One call replies as the ledger says, and leaves the two in agreement.
  step-Steps :
      (now : Instant) (event : Event) {s : AuthService} {l : Ledger}
      → Agrees now s l
      → Steps now (step lower hashing now event s) (spec_step lower hashing now event l)
  unfolding step spec_step
  step-Steps now (registers email password salt user_id) {s} {l} a =
      subst
        (λ us.
          Steps now (keep_user (register lower hashing email password salt user_id now s.users) s)
            (spec_keep_user (register lower hashing email password salt user_id now us) l))
        a.same_users
        (keep_user-Steps a (register lower hashing email password salt user_id now s.users))
  step-Steps now (logs_in email password token later) {s} {l} a =
      subst
        (λ us.
          Steps now
            (as_reply (admit token now later (checked_user lower hashing email password s.users) s))
            (spec_admit token later (checked_user lower hashing email password us) l))
        a.same_users (admit-Steps a token later (checked_user lower hashing email password s.users))
  step-Steps now (logs_out token) {s} {l} a = elim (Bool-cases (token == "")) [
    | inl e ↦ rw e (refl, a)
    | inr e ↦ rw e (refl, closed-Agrees a token)
  ]
  step-Steps now (authenticates token) {s} {l} a =
      let same = a.same_sessions now token (omega arith) in
      let found = authenticated_by-Steps a token (lookup token s.sessions) refl in
      (found.0 ∙ (λ i. Reply.authenticated (user_if_any (same i) (a.same_users i))), found.1)

-- The calls come in the order of their instants.
abbrev pub AreOrdered : Instant → List (Instant × Event) → Type 0
AreOrdered now [] = Unit
AreOrdered now ((later, event) ∷ events) = (now ≤ later) × AreOrdered later events

-- Whatever calls follow in the order of time, the program replies to each as the ledger does:
-- dropping expired sessions, at a login or when one is shown, is never seen from outside.
pub run-Refines :
    (lower : String → String) (hashing : Hashing) (now : Instant) (events : List (Instant × Event))
    {s : AuthService} {l : Ledger}
    → Agrees now s l
    → AreOrdered now events
    → run lower hashing events s ≡ spec_run lower hashing events l
unfolding run spec_run
run-Refines lower hashing now [] a o = refl
run-Refines lower hashing now ((later, event) ∷ events) a o =
    let one = step-Steps lower hashing later event (Agrees-later o.0 a) in
    let rest = run-Refines lower hashing later events one.1 o.1 in λ i. one.0 i ∷ rest i
