-- ===== src/Simpleredis/Config.antt =====
-- simpleredis/config.go: the settings that `New` freezes. Integers and durations are signed; no
-- arithmetic is done on them here. The logger has no part in what the client does.
pub mod Defaults
use traefik_middleware_utili.Prelude.{ℕ, Bytes, if◌then◌else◌, ◌*◌, ◌^◌}
use traefik_middleware_utili.Prelude.Int.{ℤ, ltb_ℤ, pos, ◌==ℤ◌}
use traefik_middleware_utili.Prelude.Result.{◌>>=◌, Result, err, ok}

pub record Config : Type 0 where
  pub host : Bytes
  pub pass : Bytes
  pub database : Bytes
  pub pool_size : ℤ
  pub max_idle_conns : ℤ
  pub pool_timeout : ℤ
  pub idle_timeout : ℤ
  pub dial_timeout : ℤ
  pub command_timeout : ℤ
  pub max_retries : ℤ
  pub min_retry_backoff : ℤ
  pub max_retry_backoff : ℤ

pub data ConfigError : Type 0 where
  max_idle_conns_above_pool_size : ConfigError

abbrev pub millisecond : ℕ
millisecond = 10 ^ 6

abbrev pub second : ℕ
second = 10 ^ 9

abbrev pub default_max_idle_conns : ℤ
default_max_idle_conns = pos 8

abbrev pub default_pool_size : ℤ
default_pool_size = pos 8

abbrev pub default_idle_timeout : ℤ
default_idle_timeout = pos (30 * second)

abbrev pub default_dial_timeout : ℤ
default_dial_timeout = pos (200 * millisecond)

abbrev pub default_command_timeout : ℤ
default_command_timeout = pos (900 * millisecond)

abbrev pub default_pool_timeout : ℤ
default_pool_timeout = pos (200 * millisecond)

abbrev pub default_max_retries : ℤ
default_max_retries = pos 1

-- `if v <= 0 { v = d }`.
abbrev pub or_default : ℤ → ℤ → ℤ
or_default v d = if ltb_ℤ (pos 0) v then v else d

-- The idle trim: a default one follows a smaller pool, an explicit one above the pool is refused.
pub idle_trim : ℤ → ℤ → Result ConfigError ℤ
idle_trim pool v =
    if ltb_ℤ (pos 0) v
    then if ltb_ℤ pool v then err max_idle_conns_above_pool_size else ok v
    else ok (if ltb_ℤ pool default_max_idle_conns then pool else default_max_idle_conns)

unfoldable pub apply_defaults : Config → Result ConfigError Config
unfolding idle_trim
apply_defaults cfg = do
  let pool = or_default cfg.pool_size default_pool_size
  trim ← idle_trim pool cfg.max_idle_conns
  ok (record cfg {
    pool_size = pool;
    max_idle_conns = trim;
    pool_timeout = or_default cfg.pool_timeout default_pool_timeout;
    idle_timeout = or_default cfg.idle_timeout default_idle_timeout;
    dial_timeout = or_default cfg.dial_timeout default_dial_timeout;
    command_timeout = or_default cfg.command_timeout default_command_timeout;
    max_retries = if cfg.max_retries ==ℤ pos 0 then default_max_retries else cfg.max_retries;
  })
