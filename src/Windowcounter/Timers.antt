-- ===== src/Windowcounter/Timers.antt =====
-- windowcounter/limiter.go: the flush timer, `New`, `Wake`, `Sleep` and `Close`. Each step is one
-- section under the lock, one call on the timer, or the runtime firing a timer.
pub mod Accounts
pub mod Closing
use traefik_middleware_utili.Prelude.{
  ℕ, Bool, List, Option, [], false, if◌then◌else◌, none, not, some, true, ltb, ◌+◌, ◌-◌, ◌==◌, ◌||◌,
  ◌∷◌, ◌≡◌, ◌<◌, suc, zero, ◌&&◌,
}
use traefik_middleware_utili.Prelude.Int.{ℤ, ltb_ℤ, pos, pos_part}
use traefik_middleware_utili.Prelude.Result.{Result, err, ok}
use traefik_middleware_utili.Windowcounter.Sliding.{Error, negative_sync_rate, no_redis}

-- What the limiter knows of its timer; `flush_busy` is the counter of the WaitGroup.
pub record Flusher : Type 0 where
  pub sync_rate : ℕ
  pub closed : Bool
  pub stopping : Bool
  pub flush_timer : Option ℕ
  pub flush_busy : ℕ

-- The limiter among its goroutines: the timers that will fire, the `flushAfterTick` that run, the
-- timers that a Sleep or a Close is about to stop, and those that wait for the counter. A timer is
-- known by a number; `next` is that of the next one.
pub record FlushSystem : Type 0 where
  pub flusher : Flusher
  pub armed : List ℕ
  pub ticks : ℕ
  pub to_stop : List ℕ
  pub waiting : ℕ
  pub next : ℕ

-- 20 milliseconds.
abbrev pub min_sync_rate : ℕ
min_sync_rate = 20000000

abbrev pub is_some {ℓ} : {A : Type ℓ} → Option A → Bool
is_some none = false
is_some (some a) = true

abbrev pub member : ℕ → List ℕ → Bool
member i [] = false
member i (j ∷ js) = i == j || member i js

unfoldable pub without : ℕ → List ℕ → List ℕ
without i [] = []
without i (j ∷ js) = if i == j then js else j ∷ without i js

-- `time.AfterFunc`.
abbrev pub after_func : FlushSystem → FlushSystem
after_func s = record s {
  flusher = record s.flusher { flush_timer = some s.next };
  armed = s.next ∷ s.armed;
  next = s.next + 1;
}

-- `flushBusy.Done`, which panics at zero.
abbrev pub done : FlushSystem → Option FlushSystem
done s =
    if s.flusher.flush_busy == 0
    then none
    else some (record s { flusher = record s.flusher { flush_busy = s.flusher.flush_busy - 1 } })

unfoldable pub start_flush : FlushSystem → FlushSystem
start_flush s =
    if is_some s.flusher.flush_timer
    then s
    else after_func
        (record s { flusher = record s.flusher { flush_busy = s.flusher.flush_busy + 1 } })

unfoldable pub wake : FlushSystem → FlushSystem
wake s =
    if s.flusher.closed
      || s.flusher.sync_rate == 0
      || is_some s.flusher.flush_timer
      || s.flusher.stopping
    then s
    else start_flush s

-- `flushAfterTick` after its flush.
unfoldable pub after_tick : FlushSystem → Option FlushSystem
after_tick s =
    let over = record s { ticks = s.ticks - 1 } in
    if s.flusher.closed || s.flusher.stopping || not (is_some s.flusher.flush_timer)
    then done over
    else some (after_func over)

-- `Close` until it flushes; a second call returns here.
unfoldable pub close : FlushSystem → Bool × FlushSystem
close s =
    if s.flusher.closed
    then (false, s)
    else (true, record s { flusher = record s.flusher { closed = true } })

abbrev pub detached : Option ℕ → FlushSystem → FlushSystem
detached none s = record s { flusher = record s.flusher { stopping = false; flush_timer = none } }
detached (some i) s = record s {
  flusher = record s.flusher { stopping = true; flush_timer = none };
  to_stop = i ∷ s.to_stop;
}

-- `stopFlushAndWait` under its first lock.
unfoldable pub stop_begin : FlushSystem → FlushSystem
stop_begin s = detached s.flusher.flush_timer s

-- `timer.Stop` and what follows it: whether the timer was still armed.
unfoldable pub stop_timer : ℕ → FlushSystem → Option FlushSystem
stop_timer i s =
    let told = record s { to_stop = without i s.to_stop; waiting = s.waiting + 1 } in
    if member i s.armed then done (record told { armed = without i s.armed }) else some told

-- `stopFlushAndWait` under its second lock, when `flushBusy.Wait` has returned.
unfoldable pub stop_end : FlushSystem → FlushSystem
stop_end s = record s { flusher = record s.flusher { stopping = false }; waiting = s.waiting - 1 }

unfoldable pub fire : ℕ → FlushSystem → FlushSystem
fire i s = record s { armed = without i s.armed; ticks = s.ticks + 1 }

abbrev idle : ℕ → FlushSystem
idle rate = record {
  flusher = record {
    sync_rate = rate;
    closed = false;
    stopping = false;
    flush_timer = none;
    flush_busy = 0;
  };
  armed = [];
  ticks = 0;
  to_stop = [];
  waiting = 0;
  next = 0;
}

abbrev pub started : ℕ → FlushSystem
started rate = if ltb 0 rate then start_flush (idle rate) else idle rate

-- `New`: whether there is a client, and the sync rate in nanoseconds.
unfoldable pub new_limiter : Bool → ℤ → Result Error FlushSystem
new_limiter has_redis sync_rate =
    if not has_redis
    then err no_redis
    else if ltb_ℤ sync_rate (pos 0)
    then err negative_sync_rate
    else if ltb_ℤ (pos 0) sync_rate && ltb_ℤ sync_rate (pos min_sync_rate)
    then ok (started min_sync_rate)
    else ok (started (pos_part sync_rate))

-- A step, and whether it is the work of a timer.
pub data Step : Bool → FlushSystem → FlushSystem → Type 0 where
  by_wake : (s : FlushSystem) → Step false s (wake s)
  by_fire : (i : ℕ) (s : FlushSystem) → member i s.armed ≡ true → Step true s (fire i s)
  by_tick : (s t : FlushSystem) → 0 < s.ticks → after_tick s ≡ some t → Step true s t
  by_close : (s : FlushSystem) → Step false s (close s).1
  by_stop_begin : (s : FlushSystem) → Step false s (stop_begin s)
  by_stop_timer :
      (i : ℕ) (s t : FlushSystem)
      → member i s.to_stop ≡ true
      → stop_timer i s ≡ some t
      → Step false s t
  by_stop_end :
      (s : FlushSystem) → 0 < s.waiting → s.flusher.flush_busy ≡ 0 → Step false s (stop_end s)

-- A run, and how many of its steps are the work of a timer.
pub data Run : ℕ → FlushSystem → FlushSystem → Type 0 where
  here : (s : FlushSystem) → Run zero s s
  step : (n : ℕ) (s t u : FlushSystem) → Run n s t → Step false t u → Run n s u
  timer_step : (n : ℕ) (s t u : FlushSystem) → Run n s t → Step true t u → Run (suc n) s u
