-- ===== src/Tokenbucket/Tests.antt =====
-- Witnesses of the properties of tokenbucket/, with whole numbers for the floats.
use traefik_middleware_utili.Tokenbucket.Agreement.Server.{IsFitting, IsReadBack, IsServer}
use traefik_middleware_utili.Float.Ints.{
  ints, ints-IsLowered, ints-IsExact, ints-IsCounting, ints-IsAdditive,
}
use traefik_middleware_utili.Simpleredis.Exec.{Values}
use traefik_middleware_utili.Prelude.Decimal.Laws.{digits_value-itoa}
use traefik_middleware_utili.Tokenbucket.Agreement.Call.{IsOneWait}
use traefik_middleware_utili.Tokenbucket.Redis.{FloatText, Eval}
use traefik_middleware_utili.Prelude.Decimal.{digits_value, format_int, itoa}
use traefik_middleware_utili.Prelude.Result.{ok, Result, err}
use traefik_middleware_utili.Tokenbucket.Memory.{new_memory}
use traefik_middleware_utili.Tokenbucket.Bounds.{Reached-IsSound}
use traefik_middleware_utili.Tokenbucket.Burst.{allow_burst, at_once, times}
use traefik_middleware_utili.Tokenbucket.Script.{Hash, Lua, Written, run_allow}
use traefik_middleware_utili.Tokenbucket.Clock.{
  ClockConfig, validate_clock, consume_one, limit_per_micro, wait_duration, second,
}
use traefik_middleware_utili.Prelude.{
  ◌∙◌, same_text, codes, [], arith, refl, ◌+◌, ◌*◌, ◌≡◌, none, true, ℕ, ◌∷◌, Bytes, List, Option,
  ap, if◌then◌else◌, ltb, map, some,
}
use traefik_middleware_utili.Prelude.Int.{ℤ, pos, negsuc, pos_part, sub_ℕ}
use traefik_middleware_utili.Keys.{find, load, store, erase, without_expired}
use traefik_middleware_utili.Tokenbucket.Agreement.Runs.{
  memory_run, Call, Each, memory_run-redis_run, redis_run,
}
use traefik_middleware_utili.Tokenbucket.Bounds.{IsSound, Reached, called, started}
use traefik_middleware_utili.Tokenbucket.Memory.{allow, Memory}
use traefik_middleware_utili.Simpleredis.Errors

abbrev two_tokens : ClockConfig ℤ
two_tokens = record {
  rate = pos 1000000;
  burst = pos 2;
  max_delay = pos 5000;
  ttl = pos 60000000000;
}

abbrev no_buckets : Memory ℤ
no_buckets = record { clock = two_tokens; buckets = [] }

abbrev alice : Bytes
alice = codes "alice"

abbrev one_left : Memory ℤ
one_left = record {
  clock = two_tokens;
  buckets = (alice, record { tokens = pos 1; last = 5; expire_at = 60000005000 }) ∷ [];
}

one_left-Reached : Reached ints two_tokens one_left
unfolding new_memory validate_clock allow load find store erase without_expired consume_one
    limit_per_micro wait_duration same_text
one_left-Reached =
    called none 0 5000 alice no_buckets (record { allowed = true; wait = pos 0 }) one_left
      (started no_buckets refl) refl

Reached-IsSound_example : IsSound ints one_left
Reached-IsSound_example = Reached-IsSound ints ints-IsLowered two_tokens one_left one_left-Reached

allow_burst_example : memory_run ints alice (times 2 (0, 5000)) no_buckets ≡ times 2 at_once
unfolding new_memory validate_clock
allow_burst_example =
    allow_burst ints ints-IsCounting ints-IsAdditive ints-IsExact two_tokens 2 refl refl
      (omega arith) alice 0 5000 2 no_buckets refl (omega arith)

abbrev negative : Option ℕ → Option ℤ
negative none = none
negative (some n) = some (sub_ℕ 0 n)

-- A text of digits, or a sign and one.
abbrev digits_or : Option ℕ → Bytes → Option ℤ
digits_or (some n) s = some (pos n)
digits_or none [] = none
digits_or none (c ∷ cs) = negative (digits_value 0 cs)

abbrev read_int : Bytes → Option ℤ
read_int s = digits_or (digits_value 0 s) s

read_int-format_int : (x : ℤ) → read_int (format_int x) ≡ some x
unfolding format_int digits_value
read_int-format_int (pos n) = ap (λ o. digits_or o (itoa n)) (digits_value-itoa n)
read_int-format_int (negsuc n) = ap negative (digits_value-itoa (n + 1)) ∙ ground arith

abbrev decimal : FloatText ints
decimal = record { format_float = format_int; parse_float = read_int }

abbrev lua_ints : Lua ints
lua_ints = record { to_number = read_int; stored_text = format_int; to_string = format_int }

decimal-IsReadBack : IsReadBack ints decimal lua_ints
decimal-IsReadBack = record {
  limit_read = read_int-format_int;
  int_read = λ n le. read_int-format_int (pos n);
  stored_read = read_int-format_int;
}

-- A server of one key: its hash, and when the hash is dropped.
abbrev Server : Type 0
Server = Option (Hash × ℕ)

abbrev held_hash : ℕ → Bytes → Server → Option Hash
held_hash now key none = none
held_hash now key (some (h, t)) = if ltb now t then some h else none

abbrev served : ℕ → Server → Option (Written ℤ) → Result Errors.Error Values × Server
served now s none = (err Errors.issue, s)
served now s (some w) = (ok (map some w.reply), some (w.hash, now + pos_part w.expire * second))

abbrev run_server : ℕ → Eval Server
run_server now keys args s = served now s (run_allow ints lua_ints args (held_hash now [] s))

run_server-held :
    (now : ℕ) (key : Bytes) (args : List Bytes) (s : Server) (w : Written ℤ)
    → run_allow ints lua_ints args (held_hash now key s) ≡ some w
    → run_server now (key ∷ []) args s ≡ served now s (some w)
run_server-held now key args none w q = ap (served now none) q
run_server-held now key args (some p) w q = ap (served now (some p)) q

run_server-IsServer : IsServer ints lua_ints run_server held_hash
run_server-IsServer = record {
  replied = λ now key args s w q. ap (λ r. r.0) (run_server-held now key args s w q);
  kept = λ now later key args s w n q e le. rw (run_server-held now key args s w q, e) refl;
}

two_tokens-IsFitting : IsFitting ints two_tokens
unfolding validate_clock
two_tokens-IsFitting = record {
  burst_n = 2;
  is_burst = refl;
  small_burst = omega arith;
  small_delay = omega arith;
  small_ttl = omega arith;
  valid = refl;
}

abbrev three_calls : List Call
three_calls = (0, 5000) ∷ (0, 5000) ∷ (0, 7000) ∷ []

memory_run-redis_run_example :
    Each
      (IsOneWait ints decimal lua_ints two_tokens)
      (memory_run ints alice three_calls no_buckets)
      (redis_run ints decimal run_server two_tokens alice three_calls none)
unfolding new_memory validate_clock
memory_run-redis_run_example =
    memory_run-redis_run ints decimal lua_ints ints-IsCounting decimal-IsReadBack two_tokens
      two_tokens-IsFitting run_server held_hash run_server-IsServer alice three_calls no_buckets
      none refl (λ later. refl)
      (omega arith, (omega arith, (omega arith, (omega arith, (omega arith, (omega arith, tt))))))
