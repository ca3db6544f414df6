-- ===== src/Auth/Sessions/Ledger.antt =====
-- What the sessions of backend/app/auth/service.py promise: a ledger that forgets nothing, and in
-- which a session counts until it expires or is logged out.
use bug_free_enigma.Base.{
  ℕ, String, Option, none, some, List, [], ◌∷◌, ◌==◌, if◌then◌else◌, Outcome, ok, err,
}
use bug_free_enigma.Base.Dict.{Dict}
use bug_free_enigma.Core.Time.{Instant, add_seconds}
use bug_free_enigma.Auth.Passwords.{Hashing}
use bug_free_enigma.Auth.Sessions.{
  User, SessionRecord, AuthService, Login, register, checked_user, login, logout, session_user,
  authenticate_session_token,
}
use bug_free_enigma.Auth.Sessions.Pruning.{live}

-- A call with what is drawn for it. The clock is read again when a login sets the expiry.
pub data Event : Type 0 where
  registers : String → String → List ℕ → String → Event
  logs_in : String → String → String → Instant → Event
  logs_out : String → Event
  authenticates : String → Event

pub data Reply : Type 0 where
  registered : Outcome User → Reply
  logged_in : Outcome Login → Reply
  logged_out : Reply
  authenticated : Option User → Reply

pub record Ledger : Type 0 where
  pub users : Dict User
  pub opened : String → Option SessionRecord
  pub session_ttl_seconds : ℕ

abbrev pub update :
    String → Option SessionRecord → (String → Option SessionRecord) → String → Option SessionRecord
update k v f j = if k == j then v else f j

abbrev pub user_if_any : Option SessionRecord → Dict User → Option User
user_if_any none users = none
user_if_any (some session) users = session_user session.user_id users

-- what the program keeps of a registration, and what the ledger does
abbrev pub keep_user : Outcome (User × Dict User) → AuthService → Reply × AuthService
keep_user (err e) s = (Reply.registered (err e), s)
keep_user (ok (user, users)) s = (Reply.registered (ok user), record s { users = users })

abbrev pub spec_keep_user : Outcome (User × Dict User) → Ledger → Reply × Ledger
spec_keep_user (err e) l = (Reply.registered (err e), l)
spec_keep_user (ok (user, users)) l = (Reply.registered (ok user), record l { users = users })

-- a login in the ledger
abbrev pub spec_open : String → User → Outcome Instant → Ledger → Reply × Ledger
spec_open token user (err e) l = (Reply.logged_in (err e), l)
spec_open token user (ok expires_at) l = (
  Reply.logged_in (
      ok (record {
        access_token = token;
        expires_at = expires_at;
        expires_in_seconds = l.session_ttl_seconds;
        user = user;
      })),
  record l {
    opened =
        update token (some (record { user_id = user.user_id; expires_at = expires_at })) l.opened;
  },
)

abbrev pub spec_admit : String → Instant → Outcome User → Ledger → Reply × Ledger
spec_admit token later (err e) l = (Reply.logged_in (err e), l)
spec_admit token later (ok user) l =
    spec_open token user (add_seconds later l.session_ttl_seconds) l

module _ (lower : String → String) (hashing : Hashing) where
  -- the program's methods, one call at an instant
  unfoldable pub step : Instant → Event → AuthService → Reply × AuthService
  unfolding login logout authenticate_session_token
  step now (registers email password salt user_id) s =
      keep_user (register lower hashing email password salt user_id now s.users) s
  step now (logs_in email password token later) s =
      let (reply, s') = login lower hashing email password token now later s in
      (Reply.logged_in reply, s')
  step now (logs_out token) s = (Reply.logged_out, logout token s)
  step now (authenticates token) s =
      let (user, s') = authenticate_session_token token now s in (Reply.authenticated user, s')

  -- what the ledger says of the call
  unfoldable pub spec_step : Instant → Event → Ledger → Reply × Ledger
  spec_step now (registers email password salt user_id) l =
      spec_keep_user (register lower hashing email password salt user_id now l.users) l
  spec_step now (logs_in email password token later) l =
      spec_admit token later (checked_user lower hashing email password l.users) l
  spec_step now (logs_out token) l = (
    Reply.logged_out,
    if token == "" then l else record l { opened = update token none l.opened },
  )
  spec_step now (authenticates token) l =
      (Reply.authenticated (user_if_any (live now (l.opened token)) l.users), l)

  unfoldable pub run : List (Instant × Event) → AuthService → List Reply
  run [] s = []
  run ((now, event) ∷ events) s = let (reply, s') = step now event s in reply ∷ run events s'

  unfoldable pub spec_run : List (Instant × Event) → Ledger → List Reply
  spec_run [] l = []
  spec_run ((now, event) ∷ events) l =
      let (reply, l') = spec_step now event l in reply ∷ spec_run events l'
