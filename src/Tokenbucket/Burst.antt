-- ===== src/Tokenbucket/Burst.antt =====
-- tokenbucket/memory.go: calls of `Allow` with one key at one time.
use traefik_middleware_utili.Tokenbucket.Bounds.{new_memory_empty}
use traefik_middleware_utili.Keys.{find, load}
use traefik_middleware_utili.Keys.Room.{load_live}
use traefik_middleware_utili.Tokenbucket.Agreement.Runs.{memory_run}
use traefik_middleware_utili.Keys.Laws.{find-store}
use traefik_middleware_utili.Prelude.{
  ℕ, Bytes, List, [], none, suc, true, zero, ◌∷◌, ◌≡◌, ◌≤◌, ◌^◌, ap, arith, false, ltb, refl, ◌+◌,
  ◌-◌, ◌<◌, some, ◌∙◌,
}
use traefik_middleware_utili.Prelude.Int.{pos, ltb_ℤ, pos_part}
use traefik_middleware_utili.Prelude.Result.{Result, ok}
use traefik_middleware_utili.Float.{Float, IsAdditive, IsCounting, IsExact}
use traefik_middleware_utili.Tokenbucket.Clock.{
  Answer, ClockConfig, Error, consume_one, validate_clock, wait_duration, limit_per_micro,
  max_delay_micro,
}
use traefik_middleware_utili.Tokenbucket.Memory.{
  Entry, unix_micro, take_one, consume, Memory, allow, allow_loaded, expiry, full, new_memory,
}

abbrev pub times {ℓ} : {A : Type ℓ} → ℕ → A → List A
times zero a = []
times (suc n) a = a ∷ times n a

abbrev pub at_once : Result Error Answer
at_once = ok (record { allowed = true; wait = pos 0 })

module _ (fl : Float) (counting : IsCounting fl) (additive : IsAdditive fl) (exact : IsExact fl)
    (c : ClockConfig fl.number) (b : ℕ) (valid : validate_clock fl c ≡ none)
    (is_burst : c.burst ≡ pos b) (small : b ≤ 2 ^ 53) (key : Bytes) (pick now : ℕ) where
  -- A bucket of `n` tokens, last used at the time.
  record Has (n : ℕ) (e : Entry fl.number) : Type 0 where
    tokens_n : e.tokens ≡ fl.of_int (pos n)
    last_now : e.last ≡ unix_micro now

  consume_one_whole :
      (n t max_delay : ℕ) (limit : fl.number)
      → suc n ≤ b
      → fl.mul limit (fl.of_int (pos 0)) ≡ fl.of_int (pos 0)
      → consume_one fl (fl.of_int (pos (suc n))) t limit (fl.of_int (pos b)) t max_delay
        ≡ record { tokens = fl.of_int (pos n); last = t; wait = fl.of_int (pos 0) }
  unfolding consume_one
  consume_one_whole n t max_delay limit le no_time =
      let same_time : t - t ≡ 0 = omega arith in
      let not_later : ltb t t ≡ false = ground arith in
      let not_above : ltb b (suc n) ≡ false = ground (arith, le) in
      let not_below : ltb n 0 ≡ false = ground arith in
      rw
        (
          not_later,
          same_time,
          no_time,
          additive.add_zero,
          counting.lt_int b (suc n) small (omega (arith, le, small)),
          not_above,
          exact.exact n (omega (arith, le, small)),
          counting.lt_int n 0 (omega (arith, le, small)) (omega arith),
          not_below,
        )
        refl

  limit_zero : fl.mul (limit_per_micro fl c) (fl.of_int (pos 0)) ≡ fl.of_int (pos 0)
  unfolding limit_per_micro validate_clock
  limit_zero =
      additive.rate_zero c.rate (ground (arith, valid)) (ground (arith, valid))
        (ground (arith, valid))

  consume-Has :
      (n : ℕ) (e : Entry fl.number)
      → suc n ≤ b
      → Has (suc n) e
      → consume fl c now e
        ≡ record { tokens = fl.of_int (pos n); last = unix_micro now; wait = fl.of_int (pos 0) }
  unfolding limit_per_micro
  consume-Has n e le has =
      rw (has.tokens_n, has.last_now, is_burst)
        (consume_one_whole n (unix_micro now) (max_delay_micro c) (limit_per_micro fl c) le
          limit_zero)

  wait_zero : wait_duration fl (fl.of_int (pos 0)) ≡ pos 0
  unfolding wait_duration
  wait_zero = rw (exact.le_zero 0 (omega arith)) refl

  delay_allows : ltb_ℤ c.max_delay (pos 0) ≡ false
  unfolding validate_clock
  delay_allows = ground (arith, valid)

  ttl_later : now < now + pos_part c.ttl
  unfolding validate_clock
  ttl_later = ground (arith, valid)

  take_one-Has :
      (n : ℕ) (e : Entry fl.number)
      → suc n ≤ b
      → Has (suc n) e
      → (ok (take_one fl c now e).0 ≡ at_once)
        × (Has n (take_one fl c now e).1 × (now < (take_one fl c now e).1.expire_at))
  take_one-Has n e le has = (
    rw (consume-Has n e le has, wait_zero, delay_allows) refl,
    (
      record {
        tokens_n = ap (λ r. r.tokens) (consume-Has n e le has);
        last_now = ap (λ r. r.last) (consume-Has n e le has);
      },
      ttl_later,
    ),
  )

  -- The key has a live bucket of `n` tokens.
  record IsReady (n : ℕ) (m : Memory fl.number) : Type 0 where
    clock : m.clock ≡ c
    entry : Entry fl.number
    there : find key m.buckets ≡ some entry
    has : Has n entry
    is_live : now < entry.expire_at

  record IsAdmitted (n : ℕ) (r : Result Error (Answer × Memory fl.number)) : Type 0 where
    after : Answer × Memory fl.number
    returned : r ≡ ok after
    admitted : ok after.0 ≡ at_once
    ready : IsReady n after.1

  allow_with :
      (n : ℕ) (m : Memory fl.number) (buckets : List (Bytes × Entry fl.number))
      (e : Entry fl.number)
      → suc n ≤ b
      → m.clock ≡ c
      → Has (suc n) e
      → load expiry (full fl m.clock now) pick now key m.buckets ≡ (buckets, e)
      → IsAdmitted n (allow fl none pick now key m)
  unfolding allow
  allow_with n m buckets e le clock has q =
      let taken = take_one-Has n e le has in
      record {
        after = allow_loaded fl now key m (buckets, e);
        returned = ap (λ p. ok (allow_loaded fl now key m p)) q;
        admitted = rw clock taken.0;
        ready = record {
          clock = clock;
          entry = (take_one fl c now e).1;
          there = rw clock (find-store key (take_one fl c now e).1 buckets);
          has = taken.1.0;
          is_live = taken.1.1;
        };
      }

  run_ready :
      (k n : ℕ) (m : Memory fl.number)
      → k ≤ n
      → n ≤ b
      → IsReady n m
      → memory_run fl key (times k (pick, now)) m ≡ times k at_once
  unfolding memory_run
  run_ready zero n m le within ready = refl
  run_ready (suc k) zero m le within ready = absurd (omega (arith, le))
  run_ready (suc k) (suc n) m le within ready =
      let call = allow_with n m m.buckets ready.entry within ready.clock ready.has (
        load_live expiry (full fl m.clock now) ready.entry pick now key m.buckets ready.there
          ready.is_live) in
      let rest =
        run_ready k n call.after.1 (omega (arith, le)) (omega (arith, within)) call.ready in
      rw (call.returned, rest) (ap (λ a. a ∷ times k at_once) call.admitted)

  -- A new limiter of a burst b of at most 2^53 admits up to b calls with one key at one time, each
  -- without a wait, for floats that are exact on whole numbers up to 2^53 and where a finite rate
  -- above zero, per microsecond, gives nothing in no time.
  pub allow_burst :
      (k : ℕ) (m : Memory fl.number)
      → new_memory fl c ≡ ok m
      → k ≤ b
      → memory_run fl key (times k (pick, now)) m ≡ times k at_once
  unfolding memory_run load find
  allow_burst zero m is_new le = refl
  allow_burst (suc k) m is_new le =
      let start = new_memory_empty fl c m is_new in
      let whole : b ≡ suc (b - 1) = omega (arith, le) in
      let clock : m.clock ≡ c = ap (λ m. m.clock) start in
      let full_has : Has (suc (b - 1)) (full fl m.clock now) = record {
        tokens_n =
            ap (λ c. fl.of_int c.burst) clock
            ∙ ap fl.of_int is_burst
            ∙ ap (λ n. fl.of_int (pos n)) whole;
        last_now = refl;
      } in
      let call =
        allow_with (b - 1) m _ (full fl m.clock now) (omega (arith, le)) clock full_has
          (ap (λ n. load expiry (full fl m.clock now) pick now key n.buckets) start) in
      let rest = run_ready k (b - 1) call.after.1 (omega (arith, le)) (omega arith) call.ready in
      rw (call.returned, rest) (ap (λ a. a ∷ times k at_once) call.admitted)
