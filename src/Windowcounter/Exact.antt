-- ===== src/Windowcounter/Exact.antt =====
-- windowcounter/limiter.go: `takeExact` and `peekExact`, over the commands of simpleredis.
pub mod Server
pub mod Counts
use traefik_middleware_utili.Prelude.{Bool, Bytes, Option, if◌then◌else◌, none, some}
use traefik_middleware_utili.Prelude.Int.{ℤ, pos, ◌==ℤ◌}
use traefik_middleware_utili.Prelude.Result.{Result, err, ok}
use traefik_middleware_utili.Float.{Float}
use traefik_middleware_utili.Simpleredis.Commands.{Exec, expire, get, incr, or_issue, parse_int}
use traefik_middleware_utili.Simpleredis.Errors.{Error, is_miss}
use traefik_middleware_utili.Windowcounter.Sliding.{SlidingWindow}

-- A miss is zero.
unfoldable pub count_from_redis_get : Result Error Bytes → Result Error ℤ
count_from_redis_get (err e) = if is_miss e then ok (pos 0) else err e
count_from_redis_get (ok raw) = or_issue (parse_int raw)

module _ {S : Type 0} (exec : Exec S) where
  unfoldable pub get_count : Bytes → S → Result Error ℤ × S
  get_count key s = let r = get exec key s in (count_from_redis_get r.0, r.1)

  -- What follows a count: the error ends the call.
  abbrev pub with_count :
      {A : Type 0} → (ℤ → S → Result Error A × S) → Result Error ℤ × S → Result Error A × S
  with_count k (err e, s) = (err e, s)
  with_count k (ok n, s) = k n s

  abbrev pub unless_failed :
      {A : Type 0} → (S → Result Error A × S) → Option Error × S → Result Error A × S
  unless_failed k (some e, s) = (err e, s)
  unless_failed k (none, s) = k s

  module _ (fl : Float) where
    -- Whether a hit is allowed, and the estimate.
    abbrev pub Estimate : Type 0
    Estimate = Bool × fl.number

    abbrev pub estimated : ℤ → ℤ → fl.number → fl.number
    estimated current previous weight =
        fl.add (fl.of_int current) (fl.mul (fl.of_int previous) weight)

    abbrev pub judged : ℤ → fl.number → Estimate
    judged limit x = (fl.le x (fl.of_int limit), x)

    abbrev pub then_previous : SlidingWindow fl.number → ℤ → ℤ → S → Result Error Estimate × S
    then_previous w limit current s =
        with_count (λ previous s'. (ok (judged limit (estimated current previous w.weight)), s'))
          (get_count w.previous_key s)

    -- EXPIRE on the first hit.
    abbrev pub after_incr : SlidingWindow fl.number → ℤ → ℤ → S → Result Error Estimate × S
    after_incr w limit current s =
        if current ==ℤ pos 1
        then unless_failed (then_previous w limit current)
            (expire exec w.current_key (pos w.ttl_sec) s)
        else then_previous w limit current s

    unfoldable pub take_exact : SlidingWindow fl.number → ℤ → S → Result Error Estimate × S
    take_exact w limit s = with_count (after_incr w limit) (incr exec w.current_key s)

    unfoldable pub peek_exact : SlidingWindow fl.number → ℤ → S → Result Error Estimate × S
    peek_exact w limit s = with_count (then_previous w limit) (get_count w.current_key s)
