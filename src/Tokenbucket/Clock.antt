-- ===== src/Tokenbucket/Clock.antt =====
-- tokenbucket/clock.go. The clock is read after 1970; a `Duration` is in nanoseconds.
use traefik_middleware_utili.Prelude.{
  ℕ, Bool, if◌then◌else◌, ltb, none, not, some, Option, ◌%◌, ◌-◌, ◌/◌, ◌==◌, ◌||◌,
}
use traefik_middleware_utili.Prelude.Int.{ℤ, ltb_ℤ, pos, pos_part}
use traefik_middleware_utili.Float.{Float}
use traefik_middleware_utili.Simpleredis.Errors

-- `failed` is an error of the context or of Redis, passed on.
pub data Error : Type 0 where
  err_rate err_burst err_delay err_ttl err_redis err_eval_len err_eval_wait : Error
  failed : Errors.Error → Error

pub record ClockConfig (R : Type 0) : Type 0 where
  pub rate : R
  pub burst : ℤ
  pub max_delay : ℤ
  pub ttl : ℤ

-- Nanoseconds.
abbrev pub second : ℕ
second = 1000000000

abbrev pub ttl_seconds : {R : Type 0} → ClockConfig R → ℕ
ttl_seconds c = pos_part c.ttl / second

-- `maxDelay.Microseconds()`.
abbrev pub max_delay_micro : {R : Type 0} → ClockConfig R → ℕ
max_delay_micro c = pos_part c.max_delay / 1000

-- What one consume leaves, and how long to wait, in microseconds.
pub record Consumed (R : Type 0) (T : Type 0) : Type 0 where
  pub tokens : R
  pub last : T
  pub wait : R

module _ (fl : Float) where
  unfoldable pub validate_clock : ClockConfig fl.number → Option Error
  validate_clock c =
      if fl.le c.rate (fl.of_int (pos 0)) || fl.is_nan c.rate || fl.is_inf c.rate
      then some err_rate
      else if ltb_ℤ c.burst (pos 1)
      then some err_burst
      else if ltb_ℤ c.max_delay (pos 0)
      then some err_delay
      else if ltb_ℤ c.ttl (pos second) || not (pos_part c.ttl % second == 0)
      then some err_ttl
      else none

  unfoldable pub limit_per_micro : ClockConfig fl.number → fl.number
  limit_per_micro c = fl.div c.rate (fl.of_int (pos 1000000))

  abbrev pub capped : fl.number → fl.number → fl.number
  capped burst tokens = if fl.lt burst tokens then burst else tokens

  -- The tokens before the consumption, `elapsed` microseconds after the last.
  abbrev pub refilled : fl.number → fl.number → fl.number → fl.number → fl.number
  refilled tokens limit burst elapsed = capped burst (fl.add tokens (fl.mul limit elapsed))

  -- A wait longer than `maxDelay` gives the token back.
  abbrev pub refunded : fl.number → fl.number → fl.number → fl.number → fl.number
  refunded burst max_delay tokens wait =
      if fl.lt max_delay wait then capped burst (fl.add tokens (fl.of_int (pos 1))) else tokens

  -- The consumption of one token; `wait` is computed from the tokens left.
  abbrev pub settle :
      {T : Type 0}
      → fl.number
      → fl.number
      → (fl.number → fl.number)
      → fl.number
      → T
      → Consumed fl.number T
  settle burst max_delay wait_of tokens last =
      if fl.lt tokens (fl.of_int (pos 0))
      then record {
        tokens = refunded burst max_delay tokens (wait_of tokens);
        last = last;
        wait = wait_of tokens;
      }
      else record { tokens = tokens; last = last; wait = fl.of_int (pos 0) }

  unfoldable pub consume_one : fl.number → ℕ → fl.number → fl.number → ℕ → ℕ → Consumed fl.number ℕ
  consume_one tokens last limit burst now max_delay =
      let since = if ltb now last then now else last in
      let left =
        fl.sub (refilled tokens limit burst (fl.of_int (pos (now - since)))) (fl.of_int (pos 1)) in
      settle burst (fl.of_int (pos max_delay)) (λ t. fl.div (fl.neg t) limit) left
        (if ltb now last then last else now)

  unfoldable pub wait_duration : fl.number → ℤ
  wait_duration wait =
      if fl.le wait (fl.of_int (pos 0))
      then pos 0
      else fl.to_int (fl.mul wait (fl.of_int (pos 1000)))

abbrev pub allowed_from_wait : ℤ → ℤ → Bool
allowed_from_wait wait max_delay = not (ltb_ℤ max_delay wait)

pub record Answer : Type 0 where
  pub allowed : Bool
  pub wait : ℤ

abbrev pub answer : (fl : Float) → ClockConfig fl.number → fl.number → Answer
answer fl c wait = record {
  allowed = allowed_from_wait (wait_duration fl wait) c.max_delay;
  wait = wait_duration fl wait;
}
