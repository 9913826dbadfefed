-- ===== src/Backendbackoff/Cooldown/Bounds.antt =====
-- The cooldown in closed form, and its bound.
use native.Mathlib.Nat.{pow-suc}
use traefik_middleware_utili.Prelude.{
  ℕ, Bool-cases, ap, sym, arith, inl, inr, ltb, min, suc, true, zero, ◌*◌, ◌/◌, ◌^◌, ◌∙◌, ◌≡◌, ◌≤◌,
}
use traefik_middleware_utili.Prelude.Int.{pos_part}
use traefik_middleware_utili.Float.{Float}
use traefik_middleware_utili.Backendbackoff.Config.{Config, zero_float}
use traefik_middleware_utili.Backendbackoff.Cooldown.{
  double_wait, plain_cooldown, cooldown_duration,
}

le_double : (a n : ℕ) → a ≤ a * 2 ^ n
le_double a zero = omega arith
le_double a (suc n) = grind (arith, pow-suc 2 n, le_double a n)

again : (a n : ℕ) → a * 2 ^ suc n ≡ a * 2 * 2 ^ n
again a n = grind (arith, pow-suc 2 n)

double_wait_lem :
    (most n wait : ℕ) → wait ≤ most → double_wait most n wait ≡ min most (wait * 2 ^ n)
unfolding double_wait
double_wait_lem most zero wait h = omega arith
double_wait_lem most (suc n) wait h = elim (Bool-cases (ltb (most / 2) wait)) [
  | inl big ↦ rw big (ground (arith, le_double (wait * 2) n, again wait n))
  | inr small ↦
      rw small
        (double_wait_lem most n (wait * 2) (ground arith) ∙ ap (min most) (sym (again wait n)))
]

plain_cooldown_lem :
    (base most n : ℕ) → base ≤ most → plain_cooldown base most n ≡ min most (base * 2 ^ n)
unfolding plain_cooldown
plain_cooldown_lem base most n h = rw (double_wait_lem most n base h) (ground arith)

-- With a `MaxCooldown` of at least `BaseCooldown`, a cooldown never exceeds `MaxCooldown`, whatever the
-- jitter and its sample are, and without jitter it is `BaseCooldown * 2^n`, cut at `MaxCooldown`.
pub cooldown_duration_bounds :
    (fl : Float) (cfg : Config fl.number) (sample : fl.number) (n : ℕ)
    → pos_part cfg.base_cooldown ≤ pos_part cfg.max_cooldown
    → (cooldown_duration fl cfg sample n ≤ pos_part cfg.max_cooldown)
      × (fl.le cfg.jitter (zero_float fl) ≡ true
          → cooldown_duration fl cfg sample n
            ≡ min (pos_part cfg.max_cooldown) (pos_part cfg.base_cooldown * 2 ^ n))
unfolding cooldown_duration
cooldown_duration_bounds fl cfg sample n h =
    let plain = plain_cooldown_lem (pos_part cfg.base_cooldown) (pos_part cfg.max_cooldown) n h in
    (ground (arith, plain), λ q. rw q plain)
