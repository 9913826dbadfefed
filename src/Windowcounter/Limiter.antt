-- ===== src/Windowcounter/Limiter.antt =====
-- windowcounter/limiter.go: `Take`, `Peek` and `Allow`, exact and buffered.
use traefik_middleware_utili.Prelude.{
  ℕ, Bool, Bytes, Option, false, if◌then◌else◌, none, some, ◌+◌, ◌==◌,
}
use traefik_middleware_utili.Prelude.Int.{ℤ, pos}
use traefik_middleware_utili.Prelude.Result.{Result, err, ok}
use traefik_middleware_utili.Float.{Float}
use traefik_middleware_utili.Simpleredis.Commands.{Exec}
use traefik_middleware_utili.Simpleredis.Errors
use traefik_middleware_utili.Windowcounter.Buffer.{
  Buffer, Gap, WindowState, buffered_count, count_of, peek_count, window, window_of, write,
}
use traefik_middleware_utili.Windowcounter.Buffer.Flush.{Outage, outage_error}
use traefik_middleware_utili.Windowcounter.Exact.{Estimate, estimated, peek_exact, take_exact}
use traefik_middleware_utili.Windowcounter.Sliding.{Error, SlidingWindow, failed, sliding_at}

-- A buffered call may return an estimate and an error.
pub record Answer (R : Type 0) : Type 0 where
  pub allowed : Bool
  pub estimate : R
  pub error : Option Error

-- What Redis and the other goroutines do during one buffered call.
pub record Around : Type 0 where
  pub current_gap : Gap (Result Errors.Error ℤ)
  pub previous_gap : Gap (Result Errors.Error ℤ)
  pub outage : Outage

abbrev pub hit : WindowState → WindowState
hit w = record w { local_delta = w.local_delta + 1 }

module _ (fl : Float) where
  abbrev pub refused : Error → Answer fl.number
  refused e = record { allowed = false; estimate = fl.of_int (pos 0); error = some e }

  module _ {S : Type 0} (exec : Exec S) where
    abbrev pub judged_with : ℤ → fl.number → Option Error × Buffer → Answer fl.number × Buffer
    judged_with limit x (e, l) =
        (record { allowed = fl.le x (fl.of_int limit); estimate = x; error = e }, l)

    abbrev pub take_at :
        ℕ
        → Around
        → SlidingWindow fl.number
        → ℤ
        → ℕ
        → Result Error ℤ × Buffer
        → Answer fl.number × Buffer
    take_at rate a w limit i (err e, l) = (refused e, l)
    take_at rate a w limit i (ok previous, l) =
        let l' = write i hit l in
        judged_with limit (estimated exec fl (count_of (window i l')) previous w.weight)
          (outage_error rate a.outage l')

    abbrev pub take_window :
        ℕ
        → Around
        → SlidingWindow fl.number
        → ℤ
        → Result Error ℕ × Buffer
        → Answer fl.number × Buffer
    take_window rate a w limit (err e, l) = (refused e, l)
    take_window rate a w limit (ok i, l) =
        take_at rate a w limit i (buffered_count a.previous_gap w.previous_key l)

    unfoldable pub take_buffered :
        ℕ → Around → SlidingWindow fl.number → ℤ → Buffer → Answer fl.number × Buffer
    take_buffered rate a w limit l =
        take_window rate a w limit (window_of a.current_gap w.current_key w.expire_at l)

    abbrev pub peek_at :
        ℕ
        → Around
        → SlidingWindow fl.number
        → ℤ
        → ℤ
        → Result Error ℤ × Buffer
        → Answer fl.number × Buffer
    peek_at rate a w limit current (err e, l) = (refused e, l)
    peek_at rate a w limit current (ok previous, l) =
        judged_with limit (estimated exec fl current previous w.weight)
          (outage_error rate a.outage l)

    abbrev pub peek_window :
        ℕ
        → Around
        → SlidingWindow fl.number
        → ℤ
        → Result Error ℤ × Buffer
        → Answer fl.number × Buffer
    peek_window rate a w limit (err e, l) = (refused e, l)
    peek_window rate a w limit (ok current, l) =
        peek_at rate a w limit current (buffered_count a.previous_gap w.previous_key l)

    unfoldable pub peek_buffered :
        ℕ → Around → SlidingWindow fl.number → ℤ → Buffer → Answer fl.number × Buffer
    peek_buffered rate a w limit l =
        peek_window rate a w limit (peek_count a.current_gap w.current_key w.expire_at l)

    abbrev pub exact_answer :
        Result Errors.Error (Estimate exec fl) × S → Buffer → Answer fl.number × (S × Buffer)
    exact_answer (err e, s) l = (refused (failed e), (s, l))
    exact_answer (ok (b, x), s) l = (record { allowed = b; estimate = x; error = none }, (s, l))

    -- A call in either mode, at a window or an error of `slidingAt`.
    abbrev pub in_mode :
        ℕ
        → (SlidingWindow fl.number → S → Result Errors.Error (Estimate exec fl) × S)
        → (SlidingWindow fl.number → Buffer → Answer fl.number × Buffer)
        → S × Buffer
        → Result Error (SlidingWindow fl.number)
        → Answer fl.number × (S × Buffer)
    in_mode rate exact buffered p (err e) = (refused e, p)
    in_mode rate exact buffered (s, l) (ok w) =
        if rate == 0 then exact_answer (exact w s) l else let r = buffered w l in (r.0, (s, r.1))

    -- The first argument is `ctx.Err()`; `now` is in seconds.
    unfoldable pub take :
        Option Errors.Error
        → ℕ
        → Around
        → Bytes
        → ℤ
        → ℤ
        → ℕ
        → S × Buffer
        → Answer fl.number × (S × Buffer)
    take (some e) rate a key limit window now p = (refused (failed e), p)
    take none rate a key limit window now p =
        in_mode rate (λ w. take_exact exec fl w limit) (λ w. take_buffered rate a w limit) p
          (sliding_at fl key window now)

    unfoldable pub peek :
        Option Errors.Error
        → ℕ
        → Around
        → Bytes
        → ℤ
        → ℤ
        → ℕ
        → S × Buffer
        → Answer fl.number × (S × Buffer)
    peek (some e) rate a key limit window now p = (refused (failed e), p)
    peek none rate a key limit window now p =
        in_mode rate (λ w. peek_exact exec fl w limit) (λ w. peek_buffered rate a w limit) p
          (sliding_at fl key window now)
