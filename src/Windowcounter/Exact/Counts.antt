-- ===== src/Windowcounter/Exact/Counts.antt =====
-- windowcounter/limiter.go: `takeExact` and `peekExact` on a server that counts.
use traefik_middleware_utili.Windowcounter.Exact.Server.{Counter, IsCounter, counted, shown}
use traefik_middleware_utili.Float.{Float}
use traefik_middleware_utili.Windowcounter.Sliding.{SlidingWindow}
use traefik_middleware_utili.Simpleredis.Errors.{is_miss, Error}
use traefik_middleware_utili.Prelude.{
  ℕ, Bytes, Option, [], ap, arith, none, refl, some, ◌+◌, ◌<◌, ◌∙◌, ◌∷◌, ◌≡◌, ◌≢◌, ◌^◌,
  if◌then◌else◌, ◌==◌,
}
use traefik_middleware_utili.Prelude.Decimal.{format_int}
use traefik_middleware_utili.Prelude.Int.{ℤ, pos}
use traefik_middleware_utili.Prelude.Result.{ok, Result}
use traefik_middleware_utili.Simpleredis.Commands.{Exec, get_reply, or_issue, get}
use traefik_middleware_utili.Simpleredis.Commands.Integers.{parse_int-format_int}
use traefik_middleware_utili.Windowcounter.Exact.{
  count_from_redis_get, get_count, Estimate, estimated, judged, peek_exact, then_previous,
  with_count, take_exact,
}

module _ {S : Type 0} (exec : Exec S) (held : Bytes → S → Counter)
    (laws : IsCounter exec held) where
  get_count_lem :
      (key : Bytes) (s : S)
      → counted (held key s).count < 2 ^ 63
      → (get_count exec key s).0 ≡ ok (pos (counted (held key s).count))
  unfolding get_count get count_from_redis_get is_miss
  get_count_lem key s small = rw (laws.get_answer key s) (go (held key s).count small)
    where
      go :
          (c : Option ℕ)
          → counted c < 2 ^ 63
          → count_from_redis_get (get_reply (ok (shown c ∷ []))) ≡ ok (pos (counted c))
      go none l = refl
      go (some n) l = ap or_issue (parse_int-format_int (pos n) l (omega arith))

  with_count_ok :
      {A : Type 0} (k : ℤ → S → Result Error A × S) (r : Result Error ℤ × S) (n : ℤ)
      → r.0 ≡ ok n
      → with_count exec k r ≡ k n r.1
  with_count_ok k (r, s) n q = rw q refl

  module _ (fl : Float) (w : SlidingWindow fl.number) (limit : ℤ)
      (apart : w.previous_key ≢ w.current_key) where
    abbrev hits : S → ℕ
    hits s = counted (held w.current_key s).count

    abbrev before : S → ℕ
    before s = counted (held w.previous_key s).count

    -- The answer for a count of the current window and one of the window before.
    abbrev pub answer_for : ℕ → ℕ → Result Error (Estimate exec fl)
    answer_for current previous =
        ok (judged exec fl limit (estimated exec fl (pos current) (pos previous) w.weight))

    then_previous_lem :
        (current : ℕ) (s : S)
        → before s < 2 ^ 63
        → (then_previous exec fl w limit (pos current) s).0 ≡ answer_for current (before s)
    then_previous_lem current s small =
        ap (λ r. r.0)
          (with_count_ok _ (get_count exec w.previous_key s) (pos (before s))
            (get_count_lem w.previous_key s small))

    pub peek_exact_lem :
        (s : S)
        → hits s < 2 ^ 63
        → before s < 2 ^ 63
        → (peek_exact exec fl w limit s).0 ≡ answer_for (hits s) (before s)
    unfolding peek_exact get_count get
    peek_exact_lem s small small_before =
        let s' = (get_count exec w.current_key s).1 in
        let same : before s' ≡ before s =
          ap (λ c. counted c.count) (laws.get_at w.current_key w.previous_key s) in
        ap (λ r. r.0)
          (with_count_ok _ (get_count exec w.current_key s) (pos (hits s))
            (get_count_lem w.current_key s small))
        ∙ then_previous_lem (hits s) s' (rw same small_before)
        ∙ ap (answer_for (hits s)) same

    -- The counter of the current window after a hit: its EXPIRE comes with the first one.
    abbrev pub after_hit : Counter → Counter
    after_hit c = record {
      count = some (counted c.count + 1);
      ttl = if counted c.count == 0 then some (format_int (pos w.ttl_sec)) else c.ttl;
    }

    -- The state in which the previous window is read.
    record IsHit (s : S) : Type 0 where
      after : S
      goes_on :
          take_exact exec fl w limit s ≡ then_previous exec fl w limit (pos (hits s + 1)) after
      at_current : held w.current_key after ≡ after_hit (held w.current_key s)
      at_previous : held w.previous_key after ≡ held w.previous_key s

    -- What a hit answers and leaves, and what a peek answers then.
    pub record IsCounted (s : S) : Type 0 where
      pub answered : (take_exact exec fl w limit s).0 ≡ answer_for (hits s + 1) (before s)
      pub stored :
          held w.current_key (take_exact exec fl w limit s).1 ≡ after_hit (held w.current_key s)
      pub kept : held w.previous_key (take_exact exec fl w limit s).1 ≡ held w.previous_key s
      pub peeked :
          (peek_exact exec fl w limit (take_exact exec fl w limit s).1).0
          ≡ (take_exact exec fl w limit s).0
