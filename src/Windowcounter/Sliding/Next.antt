-- ===== src/Windowcounter/Sliding/Next.antt =====
-- windowcounter/limiter.go: the windows of a time and of the time one window later.
use native.Mathlib.Nat.{add-div_right, div-mul-le_self, lt-div-mul-add}
use traefik_middleware_utili.Prelude.{
  ℕ, Bool-cases, Bytes, arith, inl, inr, ap, ◌*◌, ◌+◌, ◌/◌, ◌∙◌, ◌<◌, ◌≡◌, ◌≤◌, not, ◌==◌, ◌%◌,
}
use traefik_middleware_utili.Prelude.Int.{ℤ, ltb_ℤ, pos, pos_part}
use traefik_middleware_utili.Prelude.Result.{err, ok}
use traefik_middleware_utili.Float.{Float}
use traefik_middleware_utili.Windowcounter.Sliding.{
  SlidingWindow, redis_window_key, second, sliding_at, weight_of, window_at, window_start,
  window_not_whole, window_too_short,
}

next_start : (w now : ℕ) → 0 < w → window_start w (now + w) ≡ window_start w now + w
next_start w now p = ap (λ q. q * w) (add-div_right now p) ∙ ground arith

start_le : (w now : ℕ) → window_start w now ≤ now
start_le w now = div-mul-le_self now w

now_lt : (w now : ℕ) → 0 < w → now < window_start w now + w
now_lt w now p = lt-div-mul-add p

-- `t` is one window after `s`.
pub record IsNext {R : Type 0} (window_sec now : ℕ) (s t : SlidingWindow R) : Type 0 where
  pub same_key : t.previous_key ≡ s.current_key
  pub same_weight : t.weight ≡ s.weight
  -- The count is kept as long as it is read, and for two windows at most.
  pub still_kept : now + window_sec < s.expire_at
  pub not_longer : s.expire_at ≤ now + s.ttl_sec

window_at-IsNext :
    (fl : Float) (key : Bytes) (w now : ℕ)
    → 0 < w
    → IsNext w now (window_at fl key w now) (window_at fl key w (now + w))
window_at-IsNext fl key w now p = record {
  same_key = ap (redis_window_key key) (rw (next_start w now p) ground arith);
  same_weight = ap (weight_of fl w) (rw (next_start w now p) omega arith);
  still_kept = omega (arith, now_lt w now p);
  not_longer = omega (arith, start_le w now);
}

sliding_at_ok :
    (fl : Float) (key : Bytes) (window : ℤ) (now : ℕ) (s : SlidingWindow fl.number)
    → sliding_at fl key window now ≡ ok s
    → (0 < pos_part window / second) × (window_at fl key (pos_part window / second) now ≡ s)
unfolding sliding_at
sliding_at_ok fl key window now s e = elim (Bool-cases (ltb_ℤ window (pos second))) [
  | inl q ↦ let fails : err window_too_short ≡ ok s = rw q at e in cc
  | inr q ↦ elim (Bool-cases (not (pos_part window % second == 0))) [
    | inl r ↦ let fails : err window_not_whole ≡ ok s = rw (q, r) at e in cc
    | inr r ↦
        let given : ok (window_at fl key (pos_part window / second) now) ≡ ok s = rw (q, r) at e in
        (ground (arith, q), cc)
  ]
]

-- One window after a time, the window of that time is the previous one, with the same weight, its
-- key still kept by Redis then, and never kept longer than the ttl from the time on.
pub sliding_at-IsNext :
    (fl : Float) (key : Bytes) (window : ℤ) (now : ℕ) (s t : SlidingWindow fl.number)
    → sliding_at fl key window now ≡ ok s
    → sliding_at fl key window (now + pos_part window / second) ≡ ok t
    → IsNext (pos_part window / second) now s t
sliding_at-IsNext fl key window now s t e f =
    let at_now = sliding_at_ok fl key window now s e in
    let later = sliding_at_ok fl key window (now + pos_part window / second) t f in
    rw (← at_now.1, ← later.1) (window_at-IsNext fl key (pos_part window / second) now at_now.0)
