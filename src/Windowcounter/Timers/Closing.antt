-- ===== src/Windowcounter/Timers/Closing.antt =====
-- windowcounter/limiter.go: what the timers of a closed limiter still do.
use traefik_middleware_utili.Prelude.{
  ℕ, Bool, Bool-cases, Option, arith, false, inl, inr, length, none, refl, some, true, ◌*◌, ◌+◌,
  ◌-◌, ◌<◌, ◌≡◌, ◌≤◌, not, ◌||◌,
}
use traefik_middleware_utili.Windowcounter.Timers.{
  Run, Step, FlushSystem, after_tick, close, detached, fire, member, stop_begin, stop_end,
  stop_timer, wake, without, by_close, by_fire, by_stop_begin, by_stop_end, by_stop_timer, by_tick,
  by_wake, here, step, timer_step, is_some,
}
use traefik_middleware_utili.Windowcounter.Timers.Accounts.{done-some, length-without}

-- An armed timer has its firing and its tick before it, a running tick its end.
abbrev work_left : FlushSystem → ℕ
work_left s = 2 * length s.armed + s.ticks

abbrev worked : Bool → ℕ
worked true = 1
worked false = 0

record IsClosing (n : ℕ) (s t : FlushSystem) : Type 0 where
  still : t.flusher.closed ≡ true
  less : work_left t + n ≤ work_left s

wake-IsClosing : (s : FlushSystem) → s.flusher.closed ≡ true → IsClosing 0 s (wake s)
unfolding wake
wake-IsClosing s c = rw c (record { still = refl; less = omega arith })

after_tick-IsClosing :
    (s t : FlushSystem)
    → 0 < s.ticks
    → after_tick s ≡ some t
    → s.flusher.closed ≡ true
    → IsClosing 1 s t
unfolding after_tick
after_tick-IsClosing s t l q c =
    let over_now : (s.flusher.closed || s.flusher.stopping || not (is_some s.flusher.flush_timer))
        ≡ true =
      ground (arith, c) in
    let over = done-some (record s { ticks = s.ticks - 1 }) t (rw over_now at q) in
    rw (← over.1) (record { still = c; less = omega (arith, l) })

stop_begin-IsClosing : (s : FlushSystem) → s.flusher.closed ≡ true → IsClosing 0 s (stop_begin s)
unfolding stop_begin
stop_begin-IsClosing s c = go s.flusher.flush_timer
  where
    go : (o : Option ℕ) → IsClosing 0 s (detached o s)
    go none = record { still = c; less = omega arith }
    go (some i) = record { still = c; less = omega arith }

stop_timer-IsClosing :
    (i : ℕ) (s t : FlushSystem)
    → stop_timer i s ≡ some t
    → s.flusher.closed ≡ true
    → IsClosing 0 s t
unfolding stop_timer
stop_timer-IsClosing i s t q c =
    let told = record s { to_stop = without i s.to_stop; waiting = s.waiting + 1 } in
    elim (Bool-cases (member i s.armed)) [
      | inl r ↦
          let over = done-some (record told { armed = without i s.armed }) t (rw r at q) in
          rw (← over.1) (record { still = c; less = omega (arith, length-without i s.armed r) })
      | inr r ↦
          let works : some told ≡ some t = rw r at q in
          let same : told ≡ t = cc in rw (← same) (record { still = c; less = omega arith })
    ]

Step-IsClosing :
    (b : Bool) (s t : FlushSystem) → Step b s t → s.flusher.closed ≡ true → IsClosing (worked b) s t
unfolding fire close stop_end
Step-IsClosing _ _ _ (by_wake s) c = wake-IsClosing s c
Step-IsClosing _ _ _ (by_fire i s m) c = record {
  still = c;
  less = omega (arith, length-without i s.armed m);
}
Step-IsClosing _ _ _ (by_tick s t l q) c = after_tick-IsClosing s t l q c
Step-IsClosing _ _ _ (by_close s) c = rw c (record { still = refl; less = omega arith })
Step-IsClosing _ _ _ (by_stop_begin s) c = stop_begin-IsClosing s c
Step-IsClosing _ _ _ (by_stop_timer i s t m q) c = stop_timer-IsClosing i s t q c
Step-IsClosing _ _ _ (by_stop_end s l z) c = record { still = c; less = omega arith }

Run-IsClosing : (n : ℕ) (s t : FlushSystem) → Run n s t → s.flusher.closed ≡ true → IsClosing n s t
Run-IsClosing _ _ _ (here s) c = record { still = c; less = omega arith }
Run-IsClosing _ _ _ (step n s t u r q) c =
    let before = Run-IsClosing n s t r c in
    let last = Step-IsClosing false t u q before.still in
    record { still = last.still; less = omega (arith, before.less, last.less) }
Run-IsClosing _ _ _ (timer_step n s t u r q) c =
    let before = Run-IsClosing n s t r c in
    let last = Step-IsClosing true t u q before.still in
    record { still = last.still; less = omega (arith, before.less, last.less) }

close_closes :
    (s : FlushSystem) → ((close s).1.flusher.closed ≡ true) × (work_left (close s).1 ≡ work_left s)
unfolding close
close_closes s = elim (Bool-cases s.flusher.closed) [
  | inl q ↦ rw q (refl, refl)
  | inr q ↦ rw q (refl, refl)
]

-- After Close no run, whatever else is called, has more firings and ticks than the running ticks
-- and twice the armed timers at that time: nothing is armed again.
pub close_ends :
    (n : ℕ) (s t : FlushSystem) → Run n (close s).1 t → n ≤ 2 * length s.armed + s.ticks
close_ends n s t r =
    let closed = close_closes s in
    let all = Run-IsClosing n (close s).1 t r closed.0 in omega (arith, all.less, closed.1)
