-- ===== src/Backendbackoff/Cooldown.antt =====
-- backendbackoff/gate.go: `cooldownDuration`. The durations are positive after `New`.
pub mod Bounds
use traefik_middleware_utili.Prelude.{ℕ, zero, suc, if◌then◌else◌, ltb, ◌*◌, ◌/◌}
use traefik_middleware_utili.Prelude.Int.{ℤ, pos, pos_part, ltb_ℤ}
use traefik_middleware_utili.Float.{Float}
use traefik_middleware_utili.Backendbackoff.Config.{Config, one_float, zero_float}

-- The loop that doubles `wait`, `n` rounds to go.
unfoldable pub double_wait : ℕ → ℕ → ℕ → ℕ
double_wait max_cooldown zero wait = wait
double_wait max_cooldown (suc n) wait =
    let rest = double_wait max_cooldown n (wait * 2) in
    if ltb (max_cooldown / 2) wait then max_cooldown else rest

abbrev pub at_most : ℕ → ℕ → ℕ
at_most max_cooldown wait = if ltb max_cooldown wait then max_cooldown else wait

unfoldable pub plain_cooldown : ℕ → ℕ → ℕ → ℕ
plain_cooldown base max_cooldown n = at_most max_cooldown (double_wait max_cooldown n base)

module _ (fl : Float) where
  -- `wait * (1 + Jitter * (2 * sample - 1))`.
  unfoldable pub spread : Config fl.number → fl.number → ℕ → ℤ
  spread cfg sample wait =
      let shift = fl.sub (fl.mul (fl.of_int (pos 2)) sample) (one_float fl) in
      fl.to_int (fl.mul (fl.of_int (pos wait)) (fl.add (one_float fl) (fl.mul cfg.jitter shift)))

  abbrev pub not_negative : ℤ → ℕ
  not_negative z = if ltb_ℤ z (pos 0) then 0 else pos_part z

  -- `sample` is what the random source gives.
  unfoldable pub cooldown_duration : Config fl.number → fl.number → ℕ → ℕ
  cooldown_duration cfg sample n =
      let max_cooldown = pos_part cfg.max_cooldown in
      let wait = plain_cooldown (pos_part cfg.base_cooldown) max_cooldown n in
      if fl.le cfg.jitter (zero_float fl)
      then wait
      else at_most max_cooldown (not_negative (spread cfg sample wait))
