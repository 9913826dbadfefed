-- ===== src/Tokenbucket/Memory.antt =====
-- tokenbucket/memory.go. The lock makes a call one step at one reading of the clock.
use traefik_middleware_utili.Prelude.{ℕ, Bytes, List, Option, [], none, some, ◌+◌, ◌/◌}
use traefik_middleware_utili.Prelude.Int.{pos_part}
use traefik_middleware_utili.Prelude.Result.{Result, err, ok}
use traefik_middleware_utili.Float.{Float}
use traefik_middleware_utili.Simpleredis.Errors
use traefik_middleware_utili.Keys.{load, store}
use traefik_middleware_utili.Tokenbucket.Clock.{
  Answer, ClockConfig, Consumed, Error, answer, consume_one, failed, limit_per_micro,
  max_delay_micro, validate_clock,
}

pub record Entry (R : Type 0) : Type 0 where
  pub tokens : R
  pub last : ℕ
  pub expire_at : ℕ

pub record Memory (R : Type 0) : Type 0 where
  pub clock : ClockConfig R
  pub buckets : List (Bytes × Entry R)

abbrev pub expiry : {R : Type 0} → Entry R → ℕ
expiry e = e.expire_at

-- `now.UnixMicro()`.
abbrev pub unix_micro : ℕ → ℕ
unix_micro now = now / 1000

module _ (fl : Float) where
  abbrev pub burst_of : ClockConfig fl.number → fl.number
  burst_of c = fl.of_int c.burst

  abbrev pub full : ClockConfig fl.number → ℕ → Entry fl.number
  full c now = record { tokens = burst_of c; last = unix_micro now; expire_at = 0 }

  abbrev pub consume : ClockConfig fl.number → ℕ → Entry fl.number → Consumed fl.number ℕ
  consume c now e =
      consume_one fl e.tokens e.last (limit_per_micro fl c) (burst_of c) (unix_micro now)
        (max_delay_micro c)

  abbrev pub after_consume : ClockConfig fl.number → ℕ → Consumed fl.number ℕ → Entry fl.number
  after_consume c now r = record {
    tokens = r.tokens;
    last = r.last;
    expire_at = now + pos_part c.ttl;
  }

  -- An entry's call.
  abbrev pub take_one : ClockConfig fl.number → ℕ → Entry fl.number → Answer × Entry fl.number
  take_one c now e = (answer fl c (consume c now e).wait, after_consume c now (consume c now e))

  abbrev pub with_bucket :
      Memory fl.number
      → Bytes
      → List (Bytes × Entry fl.number)
      → Answer × Entry fl.number
      → Answer × Memory fl.number
  with_bucket m key buckets (a, e) = (a, record m { buckets = store key e buckets })

  abbrev pub allow_loaded :
      ℕ
      → Bytes
      → Memory fl.number
      → List (Bytes × Entry fl.number) × Entry fl.number
      → Answer × Memory fl.number
  allow_loaded now key m (buckets, e) = with_bucket m key buckets (take_one m.clock now e)

  -- `Allow`; the first argument is `ctx.Err()`.
  unfoldable pub allow :
      Option Errors.Error
      → ℕ
      → ℕ
      → Bytes
      → Memory fl.number
      → Result Error (Answer × Memory fl.number)
  allow (some e) pick now key m = err (failed e)
  allow none pick now key m =
      ok (allow_loaded now key m (load expiry (full m.clock now) pick now key m.buckets))

  abbrev pub if_valid : {A : Type 0} → Option Error → A → Result Error A
  if_valid (some e) a = err e
  if_valid none a = ok a

  unfoldable pub new_memory : ClockConfig fl.number → Result Error (Memory fl.number)
  new_memory c = if_valid (validate_clock fl c) (record { clock = c; buckets = [] })
