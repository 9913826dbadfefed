-- ===== src/Windowcounter/Timers/Accounts.antt =====
-- windowcounter/limiter.go: the WaitGroup counts the timers that will fire and the ticks that run.
use traefik_middleware_utili.Windowcounter.Sliding.{negative_sync_rate}
use traefik_middleware_utili.Prelude.Int.{pos, pos_part, ltb_ℤ, ℤ}
use traefik_middleware_utili.Prelude.Result.{err, ok}
use traefik_middleware_utili.Prelude.{
  ℕ, Bool, Bool-cases, List, [], arith, inl, inr, length, true, ◌+◌, ◌==◌, ◌≡◌, ◌∷◌, Option, false,
  none, not, refl, some, ◌-◌, ◌<◌, ◌||◌, ◌&&◌,
}
use traefik_middleware_utili.Windowcounter.Timers.{
  Step, FlushSystem, after_tick, close, fire, member, start_flush, stop_begin, stop_end, stop_timer,
  wake, without, by_close, by_fire, by_stop_begin, by_stop_end, by_stop_timer, by_tick, by_wake,
  after_func, detached, done, is_some, Run, here, min_sync_rate, new_limiter, started, step,
  timer_step,
}

pub length-without : (i : ℕ) (l : List ℕ) → member i l ≡ true → length (without i l) + 1 ≡ length l
unfolding without
length-without i [] m = cc
length-without i (j ∷ js) m = elim (Bool-cases (i == j)) [
  | inl q ↦ rw q (omega arith)
  | inr q ↦ rw q (omega (arith, length-without i js (rw q at m)))
]

pub record IsBalanced (s : FlushSystem) : Type 0 where
  pub balanced : s.flusher.flush_busy ≡ length s.armed + s.ticks

start_flush-IsBalanced : (s : FlushSystem) → IsBalanced s → IsBalanced (start_flush s)
unfolding start_flush
start_flush-IsBalanced s b = record { balanced = ground (arith, b.balanced) }

-- `done` takes one from a counter that is not zero.
abbrev pub one_less : FlushSystem → FlushSystem
one_less s = record s { flusher = record s.flusher { flush_busy = s.flusher.flush_busy - 1 } }

pub done-some :
    (s t : FlushSystem) → done s ≡ some t → (0 < s.flusher.flush_busy) × (one_less s ≡ t)
done-some s t q = elim (Bool-cases (s.flusher.flush_busy == 0)) [
  | inl r ↦ let fails : none ≡ some t = rw r at q in cc
  | inr r ↦ let works : some (one_less s) ≡ some t = rw r at q in (ground (arith, r), cc)
]

done_works : (s : FlushSystem) → 0 < s.flusher.flush_busy → done s ≡ some (one_less s)
done_works s p = let q : (s.flusher.flush_busy == 0) ≡ false = ground (arith, p) in rw q refl

after_tick-IsBalanced :
    (s t : FlushSystem) → 0 < s.ticks → after_tick s ≡ some t → IsBalanced s → IsBalanced t
unfolding after_tick
after_tick-IsBalanced s t l q b =
    elim (Bool-cases
      (s.flusher.closed || s.flusher.stopping || not (is_some s.flusher.flush_timer))) [
        | inl r ↦
            let over = done-some (record s { ticks = s.ticks - 1 }) t (rw r at q) in
            rw (← over.1) (record { balanced = omega (arith, b.balanced, l) })
        | inr r ↦
            let works : some (after_func (record s { ticks = s.ticks - 1 })) ≡ some t = rw r at q in
            let same : after_func (record s { ticks = s.ticks - 1 }) ≡ t = cc in
            rw (← same) (record { balanced = omega (arith, b.balanced, l) })
      ]

stop_timer-IsBalanced :
    (i : ℕ) (s t : FlushSystem) → stop_timer i s ≡ some t → IsBalanced s → IsBalanced t
unfolding stop_timer
stop_timer-IsBalanced i s t q b =
    let told = record s { to_stop = without i s.to_stop; waiting = s.waiting + 1 } in
    elim (Bool-cases (member i s.armed)) [
      | inl r ↦
          let over = done-some (record told { armed = without i s.armed }) t (rw r at q) in
          rw (← over.1)
            (record { balanced = omega (arith, b.balanced, over.0, length-without i s.armed r) })
      | inr r ↦
          let works : some told ≡ some t = rw r at q in
          let same : told ≡ t = cc in rw (← same) (record { balanced = b.balanced })
    ]

stop_begin-IsBalanced : (s : FlushSystem) → IsBalanced s → IsBalanced (stop_begin s)
unfolding stop_begin
stop_begin-IsBalanced s b = go s.flusher.flush_timer
  where
    go : (o : Option ℕ) → IsBalanced (detached o s)
    go none = record { balanced = b.balanced }
    go (some i) = record { balanced = b.balanced }

Step-IsBalanced : (b : Bool) (s t : FlushSystem) → Step b s t → IsBalanced s → IsBalanced t
unfolding wake start_flush fire after_tick close stop_begin stop_timer stop_end
Step-IsBalanced _ _ _ (by_wake s) b = record { balanced = ground (arith, b.balanced) }
Step-IsBalanced _ _ _ (by_fire i s m) b = record {
  balanced = omega (arith, b.balanced, length-without i s.armed m);
}
Step-IsBalanced _ _ _ (by_tick s t l q) b = after_tick-IsBalanced s t l q b
Step-IsBalanced _ _ _ (by_close s) b = record { balanced = ground (arith, b.balanced) }
Step-IsBalanced _ _ _ (by_stop_begin s) b = stop_begin-IsBalanced s b
Step-IsBalanced _ _ _ (by_stop_timer i s t m q) b = stop_timer-IsBalanced i s t q b
Step-IsBalanced _ _ _ (by_stop_end s l z) b = record { balanced = b.balanced }

-- No call on the WaitGroup panics, and at zero nothing is armed and nothing runs.
pub record IsSafe (s : FlushSystem) : Type 0 where
  pub balanced : s.flusher.flush_busy ≡ length s.armed + s.ticks
  pub tick_ends : 0 < s.ticks → (t : FlushSystem) × (after_tick s ≡ some t)
  pub stop_ends : (i : ℕ) → (t : FlushSystem) × (stop_timer i s ≡ some t)
  pub quiet : s.flusher.flush_busy ≡ 0 → (s.armed ≡ []) × (s.ticks ≡ 0)

tick_works :
    (s : FlushSystem) → 0 < s.ticks → IsBalanced s → (t : FlushSystem) × (after_tick s ≡ some t)
unfolding after_tick
tick_works s l b =
    let over = record s { ticks = s.ticks - 1 } in
    elim (Bool-cases
      (s.flusher.closed || s.flusher.stopping || not (is_some s.flusher.flush_timer))) [
        | inl r ↦ (one_less over, rw r (done_works over (omega (arith, b.balanced, l))))
        | inr r ↦ (after_func over, rw r refl)
      ]

stop_works :
    (i : ℕ) (s : FlushSystem) → IsBalanced s → (t : FlushSystem) × (stop_timer i s ≡ some t)
unfolding stop_timer
stop_works i s b =
    let told = record s { to_stop = without i s.to_stop; waiting = s.waiting + 1 } in
    let taken = record told { armed = without i s.armed } in
    elim (Bool-cases (member i s.armed)) [
      | inl r ↦
          let l = length-without i s.armed r in
          (one_less taken, rw r (done_works taken (omega (arith, b.balanced, l))))
      | inr r ↦ (told, rw r refl)
    ]

length-nil : (l : List ℕ) → length l ≡ 0 → l ≡ []
length-nil [] q = refl
length-nil (i ∷ l) q = absurd (omega (arith, q))

balanced-IsSafe : (s : FlushSystem) → IsBalanced s → IsSafe s
balanced-IsSafe s b = record {
  balanced = b.balanced;
  tick_ends = λ l. tick_works s l b;
  stop_ends = λ i. stop_works i s b;
  quiet = λ z. (length-nil s.armed (omega (arith, z, b.balanced)), omega (arith, z, b.balanced));
}

started-IsBalanced : (rate : ℕ) → IsBalanced (started rate)
unfolding start_flush
started-IsBalanced rate = record { balanced = ground arith }

new-IsBalanced :
    (has_redis : Bool) (rate : ℤ) (s : FlushSystem)
    → new_limiter has_redis rate ≡ ok s
    → IsBalanced s
unfolding new_limiter
new-IsBalanced false rate s q = cc
new-IsBalanced true rate s q = elim (Bool-cases (ltb_ℤ rate (pos 0))) [
  | inl r ↦ let fails : err negative_sync_rate ≡ ok s = rw r at q in cc
  | inr r ↦ elim (Bool-cases (ltb_ℤ (pos 0) rate && ltb_ℤ rate (pos min_sync_rate))) [
    | inl e ↦
        let works : ok (started min_sync_rate) ≡ ok s = rw (r, e) at q in
        let same : started min_sync_rate ≡ s = cc in rw (← same) (started-IsBalanced min_sync_rate)
    | inr e ↦
        let works : ok (started (pos_part rate)) ≡ ok s = rw (r, e) at q in
        let same : started (pos_part rate) ≡ s = cc in
        rw (← same) (started-IsBalanced (pos_part rate))
  ]
]

Run-IsBalanced : (n : ℕ) (s t : FlushSystem) → Run n s t → IsBalanced s → IsBalanced t
Run-IsBalanced _ _ _ (here s) b = b
Run-IsBalanced _ _ _ (step n s t u r q) b = Step-IsBalanced false t u q (Run-IsBalanced n s t r b)
Run-IsBalanced _ _ _ (timer_step n s t u r q) b =
    Step-IsBalanced true t u q (Run-IsBalanced n s t r b)

-- Through every interleaving of the timer, Wake, Sleep and Close of a new limiter, the WaitGroup
-- counts the armed timers and the running ticks: no Done panics, and a Wait that returns leaves
-- none of either.
pub new_limiter-IsSafe :
    (has_redis : Bool) (rate : ℤ) (n : ℕ) (s t : FlushSystem)
    → new_limiter has_redis rate ≡ ok s
    → Run n s t
    → IsSafe t
new_limiter-IsSafe has_redis rate n s t q r =
    balanced-IsSafe t (Run-IsBalanced n s t r (new-IsBalanced has_redis rate s q))
