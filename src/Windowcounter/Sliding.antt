-- ===== src/Windowcounter/Sliding.antt =====
-- windowcounter/limiter.go: `slidingAt`. The clock is read after 1970.
pub mod Next
use traefik_middleware_utili.Prelude.{
  ℕ, Bytes, if◌then◌else◌, not, ◌%◌, ◌*◌, ◌+◌, ◌++◌, ◌-◌, ◌/◌, ◌==◌, ◌∷◌,
}
use traefik_middleware_utili.Prelude.Decimal.{format_int}
use traefik_middleware_utili.Prelude.Int.{ℤ, ltb_ℤ, pos, pos_part, sub_ℕ}
use traefik_middleware_utili.Prelude.Result.{Result, err, ok}
use traefik_middleware_utili.Float.{Float}
use traefik_middleware_utili.Simpleredis.Errors

-- `failed` is an error of the context or of Redis, passed on.
pub data Error : Type 0 where
  no_redis negative_sync_rate window_too_short window_not_whole : Error
  eval_not_integer : Error
  failed : Errors.Error → Error

pub record SlidingWindow (R : Type 0) : Type 0 where
  pub current_key : Bytes
  pub previous_key : Bytes
  pub weight : R
  pub ttl_sec : ℕ
  pub expire_at : ℕ

-- Nanoseconds.
abbrev pub second : ℕ
second = 1000000000

abbrev pub redis_window_key : Bytes → ℤ → Bytes
redis_window_key opaque_key window_start = opaque_key ++ (b':' ∷ format_int window_start)

abbrev pub window_start : ℕ → ℕ → ℕ
window_start window_sec now = now / window_sec * window_sec

module _ (fl : Float) where
  abbrev pub weight_of : ℕ → ℕ → fl.number
  weight_of window_sec elapsed =
      let weight = fl.sub (fl.of_int (pos 1)) (
        fl.div (fl.of_int (pos (elapsed * second)))
          (fl.mul (fl.of_int (pos window_sec)) (fl.of_int (pos second)))) in
      if fl.lt weight (fl.of_int (pos 0)) then fl.of_int (pos 0) else weight

  -- `now` is in seconds. The start of the previous window may be before 1970.
  abbrev pub window_at : Bytes → ℕ → ℕ → SlidingWindow fl.number
  window_at key window_sec now = record {
    current_key = redis_window_key key (pos (window_start window_sec now));
    previous_key = redis_window_key key (sub_ℕ (window_start window_sec now) window_sec);
    weight = weight_of window_sec (now - window_start window_sec now);
    ttl_sec = 2 * window_sec;
    expire_at = window_start window_sec now + 2 * window_sec;
  }

  unfoldable pub sliding_at : Bytes → ℤ → ℕ → Result Error (SlidingWindow fl.number)
  sliding_at key window now =
      if ltb_ℤ window (pos second)
      then err window_too_short
      else if not (pos_part window % second == 0)
      then err window_not_whole
      else ok (window_at key (pos_part window / second) now)
