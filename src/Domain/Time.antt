-- ===== src/Domain/Time.antt =====
-- Datetimes: an instant, in microseconds, and whether the datetime has a time zone.
use sira_seil_cockroach_aws.Base.{ℕ, Bool, not, ltb, leb, Result, raise_if, domain_validation}

pub record DateTime : Type 0 where
  pub aware : Bool
  pub instant : ℕ

-- python/domain/models.py, `require_aware`
unfoldable pub require_aware : DateTime → Result (Unit {0})
require_aware t = raise_if (not t.aware) (domain_validation "must be timezone-aware")

-- `a <= b` and `a < b`, of aware datetimes
abbrev pub time_le : DateTime → DateTime → Bool
time_le a b = leb a.instant b.instant

abbrev pub time_lt : DateTime → DateTime → Bool
time_lt a b = ltb a.instant b.instant
