-- ===== src/Backendbackoff/Config/Resolved.antt =====
-- What `New` accepts.
use traefik_middleware_utili.Prelude.{arith, false, ◌≡◌}
use traefik_middleware_utili.Prelude.Int.{pos, ◌≤ℤ◌}
use traefik_middleware_utili.Prelude.Result.{ok}
use traefik_middleware_utili.Float.{Float}
use traefik_middleware_utili.Backendbackoff.Config.{
  Config, resolve_config, check_config, second, one_float, zero_float,
}

-- A NaN passes both tests of the ratio, and those of the jitter.
pub record IsResolved (fl : Float) (cfg : Config fl.number) : Type 0 where
  pub above_zero : fl.le cfg.failure_ratio (zero_float fl) ≡ false
  pub below_one : fl.le (one_float fl) cfg.failure_ratio ≡ false
  pub trips : pos 1 ≤ℤ cfg.trip_failures
  pub base : pos 1 ≤ℤ cfg.base_cooldown
  pub base_le_max : cfg.base_cooldown ≤ℤ cfg.max_cooldown
  pub jitter_from_zero : fl.lt cfg.jitter (zero_float fl) ≡ false
  pub jitter_below_one : fl.le (one_float fl) cfg.jitter ≡ false
  pub ttl : second ≤ℤ cfg.ttl

check_config-IsResolved :
    (fl : Float) (c d : Config fl.number) → check_config fl c ≡ ok d → IsResolved fl d
unfolding check_config
check_config-IsResolved fl c d e = ground arith

-- An accepted configuration has a trip count and a base cooldown of at least one, a maximum of at
-- least the base, a ttl of at least a second, and a ratio and a jitter that no bound refuses.
pub resolve_config-IsResolved :
    (fl : Float) (c d : Config fl.number) → resolve_config fl c ≡ ok d → IsResolved fl d
unfolding resolve_config
resolve_config-IsResolved fl c d e = check_config-IsResolved fl _ d e
