-- ===== src/Core/Time.antt =====
-- Python's `datetime`, in microseconds since year 1. An aware value is compared by the instant that
-- it stands for, whatever its zone, so the zone is not kept.
use bug_free_enigma.Base.{
  ℕ, ◌+◌, ◌*◌, String, [], ◌∷◌, Outcome, ok, err, value_error, overflow_error, ltb, if◌then◌else◌,
}

-- an aware value in UTC
abbrev pub Instant : Type 0
Instant = ℕ

pub data DateTime : Type 0 where
  naive : ℕ → DateTime
  aware : Instant → DateTime

-- 9999-12-31T23:59:59.999999, `datetime.max`
abbrev pub max_instant : Instant
max_instant = 315537897599999999

-- 999999999 days and 86399 seconds, the seconds of `timedelta.max`
abbrev pub max_delta_seconds : ℕ
max_delta_seconds = 86399999999999

-- `now + timedelta(seconds=s)`
unfoldable pub add_seconds : Instant → ℕ → Outcome Instant
add_seconds now s =
    if ltb max_delta_seconds s
    then err overflow_error
    else if ltb max_instant (now + s * 1000000)
    then err overflow_error
    else ok (now + s * 1000000)

-- `_aware_utc` of backend/app/services/company.py
unfoldable pub aware_utc : DateTime → String → Outcome Instant
aware_utc (naive t) field_name = err (value_error "must include a timezone" (field_name ∷ []))
aware_utc (aware t) field_name = ok t
