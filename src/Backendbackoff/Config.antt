-- ===== src/Backendbackoff/Config.antt =====
-- backendbackoff/gate.go: `Config`, `resolveConfig` and `successCredit`.
pub mod Resolved
use traefik_middleware_utili.Prelude.{Bool, if◌then◌else◌, ◌&&◌, ◌||◌, not}
use traefik_middleware_utili.Prelude.Int.{ℤ, pos, ltb_ℤ, ◌==ℤ◌}
use traefik_middleware_utili.Prelude.Result.{Result, err, ok}
use traefik_middleware_utili.Float.{Float}

pub record Config (R : Type 0) : Type 0 where
  pub failure_ratio : R
  pub trip_failures : ℤ
  pub base_cooldown : ℤ
  pub max_cooldown : ℤ
  pub jitter : R
  pub ttl : ℤ

pub data Error : Type 0 where
  err_ratio err_trip err_base err_max err_jitter err_ttl err_closed : Error

-- Nanoseconds.
abbrev pub second : ℤ
second = pos 1000000000

abbrev pub default_trip_failures : ℤ
default_trip_failures = pos 5

abbrev pub default_base_cooldown : ℤ
default_base_cooldown = second

abbrev pub default_max_cooldown : ℤ
default_max_cooldown = pos 10000000000

abbrev pub default_ttl : ℤ
default_ttl = pos 60000000000

-- A zero field takes its default.
abbrev pub or_default : ℤ → ℤ → ℤ
or_default x d = if x ==ℤ pos 0 then d else x

module _ (fl : Float) where
  abbrev pub zero_float : fl.number
  zero_float = fl.of_int (pos 0)

  abbrev pub one_float : fl.number
  one_float = fl.of_int (pos 1)

  -- The constants 0.30 and 0.10, which Go rounds as it rounds these quotients.
  abbrev pub default_failure_ratio : fl.number
  default_failure_ratio = fl.div (fl.of_int (pos 3)) (fl.of_int (pos 10))

  abbrev pub default_jitter : fl.number
  default_jitter = fl.div one_float (fl.of_int (pos 10))

  abbrev pub float_or_default : fl.number → fl.number → fl.number
  float_or_default x d = if fl.eq x zero_float then d else x

  -- `cfg == Config{}`.
  unfoldable pub is_all_zero : Config fl.number → Bool
  is_all_zero cfg =
      fl.eq cfg.failure_ratio zero_float
      && cfg.trip_failures ==ℤ pos 0
      && cfg.base_cooldown ==ℤ pos 0
      && cfg.max_cooldown ==ℤ pos 0
      && fl.eq cfg.jitter zero_float
      && cfg.ttl ==ℤ pos 0

  unfoldable pub fill_zeros : Config fl.number → Config fl.number
  fill_zeros cfg = record {
    failure_ratio = float_or_default cfg.failure_ratio default_failure_ratio;
    trip_failures = or_default cfg.trip_failures default_trip_failures;
    base_cooldown = or_default cfg.base_cooldown default_base_cooldown;
    max_cooldown = or_default cfg.max_cooldown default_max_cooldown;
    jitter = if is_all_zero cfg then default_jitter else cfg.jitter;
    ttl = or_default cfg.ttl default_ttl;
  }

  unfoldable pub check_config : Config fl.number → Result Error (Config fl.number)
  check_config cfg =
      if fl.le cfg.failure_ratio zero_float || fl.le one_float cfg.failure_ratio
      then err err_ratio
      else if ltb_ℤ cfg.trip_failures (pos 1)
      then err err_trip
      else if not (ltb_ℤ (pos 0) cfg.base_cooldown)
      then err err_base
      else if ltb_ℤ cfg.max_cooldown cfg.base_cooldown
      then err err_max
      else if fl.lt cfg.jitter zero_float || fl.le one_float cfg.jitter
      then err err_jitter
      else if ltb_ℤ cfg.ttl second
      then err err_ttl
      else ok cfg

  unfoldable pub resolve_config : Config fl.number → Result Error (Config fl.number)
  resolve_config cfg = check_config (fill_zeros cfg)

  -- `p / (1 - p)`.
  unfoldable pub success_credit : Config fl.number → fl.number
  success_credit cfg = fl.div cfg.failure_ratio (fl.sub one_float cfg.failure_ratio)
