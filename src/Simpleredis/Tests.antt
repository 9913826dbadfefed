-- ===== src/Simpleredis/Tests.antt =====
-- Runs of the client's definitions, and its theorems at concrete inputs.
use traefik_middleware_utili.Simpleredis.Pool.Accounts.Places.{Reach-IsSound, IsSound}
use traefik_middleware_utili.Simpleredis.Pool.System.{
  start, here, next, acquire, takes_idle, dial_worked, Reach, bypass_idle, releases, skips_idle,
  take_idle,
}
use traefik_middleware_utili.Simpleredis.Pool.System.{System}
use traefik_middleware_utili.Simpleredis.Retry.Bounds.{retry_backoff_bounds}
use traefik_middleware_utili.Prelude.Result.{ok, err}
use traefik_middleware_utili.Simpleredis.Conn.Reuse.{
  run_on_conn_classified, is_classified, run_on_conn_reusable, rest_of,
}
use traefik_middleware_utili.Simpleredis.Resp.RoundTrip.{read_reply-write_command}
use traefik_middleware_utili.Simpleredis.Retry.{should_retry, retry_backoff, retry_limits}
use traefik_middleware_utili.Simpleredis.Conn.{
  Socket, io_or_context, is_dirty_protocol_error, do_command, run_on_conn,
}
use traefik_middleware_utili.Simpleredis.Config.{
  Config, default_idle_timeout, default_dial_timeout, default_pool_timeout, apply_defaults,
  default_command_timeout,
}
use traefik_middleware_utili.Simpleredis.Pool.{
  new_pool, Conn, free_in_use_turn, release, take_idle_conn,
}
use traefik_middleware_utili.Simpleredis.Exec.Retries.{exec_deadline}
use traefik_middleware_utili.Prelude.{
  ℕ, Bytes, List, Option, [], arith, codes, false, if◌then◌else◌, inl, length, ltb, map, none, not,
  refl, some, true, ◌++◌, ◌∷◌, ◌≡◌, ◌≢◌, ◌⊎◌, Bool,
}
use traefik_middleware_utili.Prelude.Decimal.{itoa}
use traefik_middleware_utili.Prelude.Int.{negsuc, pos, ◌≤ℤ◌}
use traefik_middleware_utili.Simpleredis.Errors.{
  Error, eof, deadline_exceeded, issue, timeout, unexpected_eof, unreachable,
}
use traefik_middleware_utili.Simpleredis.Resp.{
  read_reply, values, dirty, Reader, read_bulk, read_elements, read_line, reply_of, write_args,
  write_command,
}
use traefik_middleware_utili.Simpleredis.Resp.Framing.{
  extend, extend_reply, is_clean, read_reply-extend,
}
use traefik_middleware_utili.Simpleredis.Exec.{
  exec, Attempt, Values, attempt_count, attempts, borrowed, first_attempts,
}
use traefik_middleware_utili.Simpleredis.Exec.Recovery.{exec_recovers, Accepts, Sticky, exec-Sticky}

abbrev ping : Bytes
ping = codes "+PONG\r\n"

abbrev stream : Bytes → Reader
stream s = record { bytes = s; ending = eof }

read_pong : read_reply (stream ping) ≡ values (some (codes "PONG") ∷ []) (stream [])
unfolding read_reply read_line reply_of
read_pong = refl

read_array_reply :
    read_reply (stream (codes "*3\r\n$2\r\nab\r\n$-1\r\n:7\r\n+x"))
    ≡ values (some (codes "ab") ∷ none ∷ some (codes "7") ∷ []) (stream (codes "+x"))
unfolding read_reply read_line reply_of read_elements read_bulk
read_array_reply = refl

-- An empty simple string is a nil slice, like a miss.
read_empty_simple : read_reply (stream (codes "+\r\n")) ≡ values (none ∷ []) (stream [])
unfolding read_reply read_line reply_of
read_empty_simple = refl

over_cap : read_reply (stream (codes "$67108865\r\n")) ≡ dirty issue
unfolding read_reply read_line reply_of read_bulk
over_cap = refl

short_bulk : read_reply (stream (codes "$5\r\nabc")) ≡ dirty unexpected_eof
unfolding read_reply read_line reply_of read_bulk
short_bulk = refl

write_get : write_command (codes "GET" ∷ codes "k" ∷ []) ≡ codes "*2\r\n$3\r\nGET\r\n$1\r\nk\r\n"
unfolding write_command write_args itoa
write_get = refl

read_reply-extend_example :
    read_reply (extend (codes ":1\r\n") (stream ping))
    ≡ extend_reply (codes ":1\r\n") (read_reply (stream ping))
unfolding read_reply read_line reply_of
read_reply-extend_example = read_reply-extend (codes ":1\r\n") (stream ping) refl

abbrev get_k : List Bytes
get_k = codes "GET" ∷ codes "k" ∷ []

read_reply-write_command_example :
    read_reply (stream (write_command get_k ++ codes ":1\r\n"))
    ≡ values (map some get_k) (stream (codes ":1\r\n"))
read_reply-write_command_example =
    read_reply-write_command eof get_k (codes ":1\r\n") (omega arith) (omega arith)

abbrev zero_config : Config
zero_config = record {
  host = codes "redis:6379";
  pass = [];
  database = [];
  pool_size = pos 4;
  max_idle_conns = pos 0;
  pool_timeout = pos 0;
  idle_timeout = pos 0;
  dial_timeout = pos 0;
  command_timeout = pos 0;
  max_retries = pos 0;
  min_retry_backoff = pos 0;
  max_retry_backoff = pos 0;
}

abbrev filled_config : Config
filled_config = record zero_config {
  max_idle_conns = pos 4;
  pool_timeout = default_pool_timeout;
  idle_timeout = default_idle_timeout;
  dial_timeout = default_dial_timeout;
  command_timeout = default_command_timeout;
  max_retries = pos 1;
}

fill_zero_config : apply_defaults zero_config ≡ ok filled_config
unfolding apply_defaults
fill_zero_config = refl

abbrev no_jitter : ℕ → ℕ
no_jitter span = 0

retry_backoff_bounds_example :
    (retry_backoff no_jitter 1 (pos 8) (pos 512) ≤ℤ pos 512)
    × ((pos 8 ≡ pos 0)
        ⊎ (retry_backoff no_jitter 1 (pos 8) (pos 512) ≡ pos 512)
        ⊎ (pos 8 ≤ℤ retry_backoff no_jitter 1 (pos 8) (pos 512)))
retry_backoff_bounds_example = retry_backoff_bounds no_jitter 1 (pos 8) (pos 512) (omega arith)

-- A peer that restarted: the idle socket is dead, a dialed one answers.
abbrev restarted : ℕ → Attempt
restarted i = record {
  stop = none;
  wait = none;
  closed = false;
  borrow = λ skip. borrowed (not skip);
  run = λ idle. if idle then err unreachable else ok (some ping ∷ []);
}

restarted-Accepts : (i : ℕ) → Accepts (restarted i)
restarted-Accepts i = record {
  in_time = refl;
  waited = refl;
  dials = refl;
  gives = (true, refl);
  answers = (some ping ∷ [], refl);
  idle_answers = inl refl;
}

restarted_run :
    exec none true (pos 1) restarted
    ≡ record { result = ok (some ping ∷ []); borrows = false ∷ true ∷ [] }
unfolding exec attempts first_attempts attempt_count retry_limits should_retry
restarted_run = refl

-- A retry count below -1 sends nothing, and reports a timeout.
negative_retries :
    exec none true (negsuc 1) restarted ≡ record { result = err timeout; borrows = [] }
unfolding exec attempts first_attempts attempt_count retry_limits
negative_retries = refl

exec_deadline_example : (exec none true (pos 1) restarted).result ≢ err deadline_exceeded
exec_deadline_example = exec_deadline (pos 1) restarted

exec-Sticky_example : Sticky false (exec none true (pos 1) restarted).borrows
exec-Sticky_example = exec-Sticky none true (pos 1) restarted

exec_recovers_example : (vs : Values) × ((exec none true (pos 1) restarted).result ≡ ok vs)
unfolding retry_limits
exec_recovers_example = exec_recovers true (pos 1) restarted (omega arith) restarted-Accepts

-- A reply with a byte too many.
abbrev talkative : Socket
talkative = record {
  stop_start = none;
  budget_left = pos 900;
  stop_budget = none;
  deadline_set = true;
  unread_before = false;
  write_error = none;
  reply = stream ping;
  stop_read = none;
  stop_io = none;
  has_deadline = true;
  read_ahead = λ s. ltb 0 (length s);
  stop_run = none;
}

run_on_conn_reusable_example :
    (false ≡ false)
    × (is_clean (read_reply (stream ping)) ≡ true)
    × (ltb 0 (length (rest_of (read_reply (stream ping)))) ≡ false)
    × (◌≡◌ {A = Option Error} none none)
    × (◌≡◌ {A = Option Error} none none)
unfolding run_on_conn do_command read_reply read_line reply_of
run_on_conn_reusable_example = run_on_conn_reusable talkative refl

abbrev hung_up : Socket
hung_up = record talkative { reply = stream [] }

run_on_conn_classified_example : is_classified unreachable ≡ true
unfolding run_on_conn do_command read_reply read_line reply_of is_dirty_protocol_error io_or_context
run_on_conn_classified_example =
    run_on_conn_classified hung_up unreachable
      (record { at_start = tt; at_budget = tt; at_read = tt; at_io = tt; at_run = tt }) refl

abbrev socket : ℕ → Conn
socket i = record { id = i; last_used = 0 }

-- One command dials; its socket is in use.
abbrev one_in_use : System
one_in_use = record {
  pool = record (new_pool 1 1 30) { turns = 0 };
  waiting = 0;
  dialing = 0;
  in_use = socket 0 ∷ [];
  dialed = 1;
}

first_command : (skipping : Bool) → Reach skipping (start 1 1 30) one_in_use
unfolding new_pool take_idle take_idle_conn
first_command skipping =
    next (next (next here (acquire (omega arith))) (takes_idle 0 (omega arith)))
      (dial_worked (socket 0) (omega arith) refl)

-- The socket is parked, and a command that bypasses the idle list dials another: with a cap of one
-- socket two are open.
abbrev above_cap : System
above_cap = record {
  pool = record (new_pool 1 1 30) { idle = socket 0 ∷ []; turns = 0 };
  waiting = 0;
  dialing = 0;
  in_use = socket 1 ∷ [];
  dialed = 2;
}

bypass_exceeds_cap : Reach true (start 1 1 30) above_cap
unfolding new_pool release free_in_use_turn bypass_idle
bypass_exceeds_cap =
    next
      (next
        (next (next (first_command true) (releases 0 (socket 0) [] [] true refl))
          (acquire (omega arith)))
        (skips_idle refl (omega arith)))
      (dial_worked (socket 1) (omega arith) refl)

-- One socket is idle, the other in use.
Reach-IsSound_example : IsSound true 1 1 above_cap
Reach-IsSound_example = Reach-IsSound true 1 1 30 above_cap bypass_exceeds_cap
