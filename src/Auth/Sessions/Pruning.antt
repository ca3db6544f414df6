-- ===== src/Auth/Sessions/Pruning.antt =====
-- What dropping expired sessions leaves (backend/app/auth/service.py).
use bug_free_enigma.Base.{
  ◌≤◌, String, true, Option, none, some, List, [], ◌∷◌, ◌≡◌, refl, sym, inl, inr, arith, leb,
  if◌then◌else◌, contains, Bool-cases, eq_iff,
}
use bug_free_enigma.Base.Dict.{
  Dict, lookup, remove, has_key, IsDistinct, lookup-remove, IsDistinct-remove,
}
use bug_free_enigma.Core.Time.{Instant}
use bug_free_enigma.Auth.Sessions.{
  SessionRecord, expired_tokens, remove_all, prune_expired_sessions,
}

-- A session as it counts at an instant.
abbrev pub live : Instant → Option SessionRecord → Option SessionRecord
live now none = none
live now (some session) = if leb session.expires_at now then none else some session

pub IsDistinct-remove_all :
    (tokens : List String) (d : Dict SessionRecord)
    → IsDistinct d
    → IsDistinct (remove_all tokens d)
unfolding remove_all
IsDistinct-remove_all [] d h = h
IsDistinct-remove_all (token ∷ tokens) d h =
    IsDistinct-remove_all tokens (remove token d) (IsDistinct-remove token d h)

lookup-remove_all :
    (j : String) (tokens : List String) (d : Dict SessionRecord)
    → lookup j (remove_all tokens d) ≡ (if contains j tokens then none else lookup j d)
unfolding remove_all contains
lookup-remove_all j [] d = refl
lookup-remove_all j (token ∷ tokens) d =
    ground (arith, lookup-remove_all j tokens (remove token d), lookup-remove token j d)

-- Where no key stands twice, a token is listed only if its own session has expired.
expired_tokens-lookup :
    (now : Instant) (j : String) (d : Dict SessionRecord)
    → IsDistinct d
    → contains j (expired_tokens now d) ≡ true
    → (has_key j d ≡ true) × (live now (lookup j d) ≡ none)
unfolding contains expired_tokens lookup
expired_tokens-lookup now j [] h e = absurd (cc)
expired_tokens-lookup now j ((token, session) ∷ d) h e =
    ground (arith, eq_iff token j, expired_tokens-lookup now j d h.1)

pub live-later :
    (now later : Instant) (o : Option SessionRecord)
    → now ≤ later
    → live now o ≡ none
    → live later o ≡ none
live-later now later none le h = refl
live-later now later (some session) le h = ground arith

-- Pruning changes no session as it counts then or later.
pub live-prune :
    (now later : Instant) (j : String) (d : Dict SessionRecord)
    → now ≤ later
    → IsDistinct d
    → live later (lookup j (prune_expired_sessions now d)) ≡ live later (lookup j d)
unfolding prune_expired_sessions
live-prune now later j d le h = elim (Bool-cases (contains j (expired_tokens now d))) [
  | inl e ↦
      rw (lookup-remove_all j (expired_tokens now d) d, e)
        (sym (live-later now later (lookup j d) le (expired_tokens-lookup now j d h e).1))
  | inr e ↦ rw (lookup-remove_all j (expired_tokens now d) d, e) refl
]

pub IsDistinct-prune :
    (now : Instant) (d : Dict SessionRecord)
    → IsDistinct d
    → IsDistinct (prune_expired_sessions now d)
unfolding prune_expired_sessions
IsDistinct-prune now d h = IsDistinct-remove_all (expired_tokens now d) d h
