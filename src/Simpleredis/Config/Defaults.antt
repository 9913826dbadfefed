-- ===== src/Simpleredis/Config/Defaults.antt =====
-- What `New` can rely on after the defaults are filled in.
use traefik_middleware_utili.Prelude.{◌<◌, ◌↔◌, ◌≡◌, ◌≢◌, arith}
use traefik_middleware_utili.Prelude.Int.{ℤ, pos, pos_part, ◌≤ℤ◌}
use traefik_middleware_utili.Prelude.Result.{err, ok}
use traefik_middleware_utili.Simpleredis.Config.{
  Config, apply_defaults, default_pool_size, max_idle_conns_above_pool_size, or_default,
}

abbrev pub IsPositive : ℤ → Type 0
IsPositive z = 0 < pos_part z

pub record IsReady (c : Config) : Type 0 where
  pub pool : IsPositive c.pool_size
  pub trim : IsPositive c.max_idle_conns
  pub within : c.max_idle_conns ≤ℤ c.pool_size
  pub pool_wait : IsPositive c.pool_timeout
  pub idle_wait : IsPositive c.idle_timeout
  pub dial_wait : IsPositive c.dial_timeout
  pub command_wait : IsPositive c.command_timeout
  pub retries : c.max_retries ≢ pos 0

-- Every accepted configuration has a positive pool with an idle trim inside it, positive time bounds,
-- and a retry count that is not zero.
pub apply_defaults-IsReady : (c d : Config) → apply_defaults c ≡ ok d → IsReady d
unfolding apply_defaults
apply_defaults-IsReady c d e = ground arith

-- A configuration is refused exactly when the caller asks for more idle sockets than the pool holds.
pub apply_defaults_refuses :
    (c : Config)
    → (apply_defaults c ≡ err max_idle_conns_above_pool_size) ↔ (
        IsPositive c.max_idle_conns
        × ¬ (c.max_idle_conns ≤ℤ or_default c.pool_size default_pool_size))
unfolding apply_defaults
apply_defaults_refuses c = ground arith

apply_defaults-ready : (d : Config) → IsReady d → apply_defaults d ≡ ok d
unfolding apply_defaults
apply_defaults-ready d r = ground arith

-- A configuration that was accepted is not changed by applying the defaults to it again.
pub apply_defaults_idempotent : (c d : Config) → apply_defaults c ≡ ok d → apply_defaults d ≡ ok d
apply_defaults_idempotent c d e = apply_defaults-ready d (apply_defaults-IsReady c d e)
