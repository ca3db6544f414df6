-- ===== src/Auth/Sessions.antt =====
-- backend/app/auth/service.py: `AuthService`. `str.lower`, the hashing, the clock, the identifiers,
-- the salts and the tokens are given.
pub mod Pruning
pub mod Ledger
pub mod Refinement
pub mod Tests
use bug_free_enigma.Base.{
  ℕ, String, Bool, true, false, not, ◌&&◌, ◌||◌, Option, none, some, List, [], ◌∷◌, leb, ◌==◌,
  if◌then◌else◌, Outcome, ok, err, Error, value_error,
}
use bug_free_enigma.Base.Dict.{Dict, lookup, put, remove, has_key}
use bug_free_enigma.Base.Text.{strip}
use bug_free_enigma.Core.Time.{Instant, add_seconds}
use bug_free_enigma.Auth.Passwords.{Hashing, hash_password, verify_password}

-- `User` of backend/app/core/models.py
pub record User : Type 0 where
  pub email : String
  pub password_hash : String
  pub role : String
  pub user_id : String
  pub enabled : Bool
  pub created_at : Instant

pub record SessionRecord : Type 0 where
  pub user_id : String
  pub expires_at : Instant

pub record AuthService : Type 0 where
  pub users : Dict User
  pub sessions : Dict SessionRecord
  pub session_ttl_seconds : ℕ

-- What a login gives back, beside the user's public fields.
pub record Login : Type 0 where
  pub access_token : String
  pub expires_at : Instant
  pub expires_in_seconds : ℕ
  pub user : User

-- the tokens whose session has expired
unfoldable pub expired_tokens : Instant → Dict SessionRecord → List String
expired_tokens now [] = []
expired_tokens now ((token, session) ∷ sessions) =
    let rest = expired_tokens now sessions in
    if leb session.expires_at now then token ∷ rest else rest

unfoldable pub remove_all : List String → Dict SessionRecord → Dict SessionRecord
remove_all [] sessions = sessions
remove_all (token ∷ tokens) sessions = remove_all tokens (remove token sessions)

-- `_prune_expired_sessions`
unfoldable pub prune_expired_sessions : Instant → Dict SessionRecord → Dict SessionRecord
prune_expired_sessions now sessions = remove_all (expired_tokens now sessions) sessions

-- the enabled user of a session
unfoldable pub session_user : String → Dict User → Option User
session_user user_id [] = none
session_user user_id ((_, user) ∷ users) =
    if user.user_id == user_id && user.enabled then some user else session_user user_id users

-- the session that a login opens, if its expiry can be written
abbrev pub open_session :
    String → User → Dict SessionRecord → Outcome Instant → AuthService → Outcome Login × AuthService
open_session token user kept (err e) s = (err e, record s { sessions = kept })
open_session token user kept (ok expires_at) s = (
  ok (record {
    access_token = token;
    expires_at = expires_at;
    expires_in_seconds = s.session_ttl_seconds;
    user = user;
  }),
  record s {
    sessions = put token (record { user_id = user.user_id; expires_at = expires_at }) kept;
  },
)

-- what `login` does once the password was looked at
abbrev pub admit :
    String → Instant → Instant → Outcome User → AuthService → Outcome Login × AuthService
admit token now later (err e) s = (err e, s)
admit token now later (ok user) s =
    open_session token user (prune_expired_sessions now s.sessions)
      (add_seconds later s.session_ttl_seconds) s

module _ (lower : String → String) (hashing : Hashing) where
  abbrev pub normalized : String → String
  normalized email = lower (strip email)

  -- `AuthService.register`, with the salt, the identifier and the time that the user takes
  unfoldable pub register :
      String → String → List ℕ → String → Instant → Dict User → Outcome (User × Dict User)
  register email password salt user_id created_at users =
      if normalized email == ""
      then err (value_error "email is required" [])
      else if has_key (normalized email) users
      then err (value_error "user already exists" [])
      else elim (hash_password hashing password salt) [
        | err e ↦ err e
        | ok password_hash ↦
            let user : User = record {
              email = normalized email;
              password_hash = password_hash;
              role = "human_root";
              user_id = user_id;
              enabled = true;
              created_at = created_at;
            } in
            ok (user, put (normalized email) user users)
      ]

  -- `user is None or not user.enabled or not verify_password(...)`
  unfoldable pub checked_user : String → String → Dict User → Outcome User
  checked_user email password users = elim (lookup (normalized email) users) [
    | none ↦ err (value_error "invalid email or password" [])
    | some user ↦
        if not user.enabled
        then err (value_error "invalid email or password" [])
        else elim (verify_password hashing password user.password_hash) [
          | err e ↦ err e
          | ok verified ↦
              if verified then ok user else err (value_error "invalid email or password" [])
        ]
  ]

  -- `login`: the sessions are pruned at `now`, and the new one counts from `later`.
  unfoldable pub login :
      String → String → String → Instant → Instant → AuthService → Outcome Login × AuthService
  login email password token now later s =
      admit token now later (checked_user email password s.users) s

-- `logout`; a token that is empty counts as none
unfoldable pub logout : String → AuthService → AuthService
logout token s = if token == "" then s else record s { sessions = remove token s.sessions }

-- what `authenticate_session_token` does with the session that it finds
abbrev pub authenticated_by :
    Option SessionRecord → String → Instant → AuthService → Option User × AuthService
authenticated_by none token now s = (none, s)
authenticated_by (some session) token now s =
    if leb session.expires_at now
    then (none, record s { sessions = remove token s.sessions })
    else (session_user session.user_id s.users, s)

-- `authenticate_session_token`: a session that has expired is dropped
unfoldable pub authenticate_session_token :
    String → Instant → AuthService → Option User × AuthService
authenticate_session_token token now s = authenticated_by (lookup token s.sessions) token now s
