-- ===== src/Windowcounter/Tests.antt =====
-- Witnesses of the properties of windowcounter/, with whole numbers for the floats.
use traefik_middleware_utili.Windowcounter.Exact.Server.{Counter, counted, shown}
use traefik_middleware_utili.Windowcounter.Buffer.Hits.OneHit.{
  IsCountedOnce, take_buffered-IsCountedOnce, IsQuiet,
}
use traefik_middleware_utili.Windowcounter.Limiter.{take_buffered, Around}
use traefik_middleware_utili.Windowcounter.Buffer.Hits.Astray.{Counted-IsAccounted, IsAccounted}
use traefik_middleware_utili.Windowcounter.Buffer.Hits.{maps_to}
use traefik_middleware_utili.Keys.{find, store}
use traefik_middleware_utili.Windowcounter.Buffer.Hits.{
  first, Counted, Counting, by_get, by_hit, by_mark, by_sent, none_counted, nothing_counted,
  then_step,
}
use traefik_middleware_utili.Windowcounter.Buffer.Flush.{mark, settle, Job}
use traefik_middleware_utili.Windowcounter.Buffer.{change, nth, apply_get, Gap}
use traefik_middleware_utili.Windowcounter.Timers.{
  FlushSystem, fire, close, here, timer_step, by_fire, without, start_flush, new_limiter,
}
use traefik_middleware_utili.Windowcounter.Timers.Closing.{close_ends}
use traefik_middleware_utili.Windowcounter.Timers.Accounts.{new_limiter-IsSafe, IsSafe}
use traefik_middleware_utili.Windowcounter.Timers.{by_fire, new_limiter, timer_step, start_flush}
use traefik_middleware_utili.Windowcounter.Sliding.Next.{IsNext, sliding_at-IsNext}
use traefik_middleware_utili.Prelude.{
  ℕ, Bytes, [], arith, codes, if◌then◌else◌, none, refl, same_text, some, ◌+◌, ◌∷◌, false, length,
  true, ◌*◌, ◌≤◌,
}
use traefik_middleware_utili.Prelude.Decimal.{format_int, emit, itoa}
use traefik_middleware_utili.Prelude.Int.{ℤ, pos}
use traefik_middleware_utili.Prelude.Result.{Result, err, ok}
use traefik_middleware_utili.Simpleredis.Commands.{Exec}
use traefik_middleware_utili.Simpleredis.Errors.{Error, issue}
use traefik_middleware_utili.Simpleredis.Exec.{Values}
use traefik_middleware_utili.Float.Ints.{ints}
use traefik_middleware_utili.Windowcounter.Sliding.{SlidingWindow, sliding_at}

-- A minute, twenty seconds into a window.
abbrev at_twenty : SlidingWindow ℤ
at_twenty = record {
  current_key = codes "k:60";
  previous_key = codes "k:0";
  weight = pos 1;
  ttl_sec = 120;
  expire_at = 180;
}

abbrev at_next : SlidingWindow ℤ
at_next = record {
  current_key = codes "k:120";
  previous_key = codes "k:60";
  weight = pos 1;
  ttl_sec = 120;
  expire_at = 240;
}

sliding_at-IsNext_example : IsNext 60 80 at_twenty at_next
unfolding sliding_at format_int itoa emit
sliding_at-IsNext_example =
    sliding_at-IsNext ints (codes "k") (pos 60000000000) 80 at_twenty at_next refl refl

-- A server that holds a counter for each key.
abbrev Counters : Type 0
Counters = Bytes → Counter

abbrev put : Bytes → Counter → Counters → Counters
put key c s k = if same_text k key then c else s k

abbrev put_some : Bytes → ℕ → Counters → Counters
put_some key n s = put key (record { count = some n; ttl = (s key).ttl }) s

abbrev no_args : Bytes → Bytes → Counters → Result Error Values × Counters
no_args name key s =
    if same_text name (codes "INCR")
    then (
      ok (some (format_int (pos (counted (s key).count + 1))) ∷ []),
      put_some key (counted (s key).count + 1) s,
    )
    else (ok (shown (s key).count ∷ []), s)

abbrev counting : Exec Counters
counting (name ∷ key ∷ []) s = no_args name key s
counting (name ∷ key ∷ seconds ∷ []) s =
    (ok (some (codes "1") ∷ []), put key (record { count = (s key).count; ttl = some seconds }) s)
counting _ s = (err issue, s)

abbrev held : Bytes → Counters → Counter
held key s = s key

abbrev three_before : Counters
three_before =
    put (codes "k:0") (record { count = some 3; ttl = none })
      (λ k. record { count = none; ttl = none })

-- A limiter with a timer every 20 milliseconds, and the same when the timer has fired.
abbrev timed : FlushSystem
timed = record {
  flusher = record {
    sync_rate = 20000000;
    closed = false;
    stopping = false;
    flush_timer = some 0;
    flush_busy = 1;
  };
  armed = 0 ∷ [];
  ticks = 0;
  to_stop = [];
  waiting = 0;
  next = 1;
}

abbrev fired : FlushSystem → FlushSystem
fired s = record s { armed = []; ticks = 1 }

new_limiter-IsSafe_example : IsSafe (fired timed)
unfolding new_limiter start_flush fire without
new_limiter-IsSafe_example =
    new_limiter-IsSafe true (pos 5) 1 timed (fired timed) refl
      (timer_step 0 timed timed (fired timed) (here timed) (by_fire 0 timed refl))

close_ends_example : 1 ≤ 2 * length timed.armed + timed.ticks
unfolding close fire without
close_ends_example = close_ends 1 timed (fired (close timed).1) (
    timer_step 0 (close timed).1 (close timed).1 (fired (close timed).1) (here (close timed).1)
      (by_fire 0 (close timed).1 refl))

-- Redis knew 3 hits; of two more, one is sent.
abbrev key_60 : Bytes
key_60 = codes "k:60"

abbrev one_sent : Counting
one_sent = record {
  buffer = record {
    heap = record { redis_known = pos 4; local_delta = 1; expire_at = 180; flush_delta = 0 } ∷ [];
    windows = (key_60, 0) ∷ [];
    last_flush_err = none;
    flush_failed_at = none;
    last_redis_ok = some 7;
  };
  jobs = [];
  taken = 2;
  sent = 1;
  stray = λ i. 0;
}

abbrev one_job : Job
one_job = record { redis_key = key_60; delta = 1; expire_at = 180 }

one_sent-Counted : Counted one_sent
unfolding apply_get store mark settle change nth find same_text maps_to
one_sent-Counted =
    then_step _ _
      (then_step _ _
        (then_step _ _
          (then_step _ _ (then_step _ _ none_counted (by_get key_60 (pos 3) 180 nothing_counted))
            (by_hit 0 _ (omega arith)))
          (by_mark key_60 _))
        (by_hit 0 _ (omega arith)))
      (by_sent 7 one_job (pos 4) [] _ (first []))

Counted-IsAccounted_example : IsAccounted one_sent
Counted-IsAccounted_example = Counted-IsAccounted one_sent one_sent-Counted

-- Redis answers 3 for the current window and 1 for the previous one, and takes what is flushed.
abbrev answered : ℤ → Gap (Result Error ℤ)
answered n = record { reply = ok n; others = λ l. l; now = 7000000000 }

abbrev quiet : Around
quiet = record {
  current_gap = answered (pos 3);
  previous_gap = answered (pos 1);
  outage = record {
    flush_gaps =
        λ key. record { reply = ok (some (codes "4") ∷ []); others = λ l. l; now = 7000000000 };
    first_now = 8000000000;
    flush_now = 8000000000;
    later_now = 8000000000;
    second_now = 8000000000;
    probe = answered (pos 3);
    failed_now = 7000000000;
  };
}

quiet-IsQuiet : IsQuiet quiet
quiet-IsQuiet = record {
  current = record { known = pos 3; answered = refl; alone = λ l. refl };
  previous = record { known = pos 1; answered = refl; alone = λ l. refl };
  outage_alone = record { flushes = λ key l. refl; probe_alone = λ l. refl };
}

take_buffered-IsCountedOnce_example :
    IsCountedOnce 20000000 quiet at_twenty.current_key one_sent.buffer
      (take_buffered ints counting 20000000 quiet at_twenty (pos 5) one_sent.buffer).1
take_buffered-IsCountedOnce_example =
    take_buffered-IsCountedOnce ints counting 20000000 quiet at_twenty (pos 5) one_sent
      one_sent-Counted quiet-IsQuiet
