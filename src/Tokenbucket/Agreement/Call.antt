-- ===== src/Tokenbucket/Agreement/Call.antt =====
-- tokenbucket: one call of memory.go and one of redis.go, with the same key at the same time.
use traefik_middleware_utili.Tokenbucket.Agreement.Server.{IsFitting, IsReadBack, IsServer}
use traefik_middleware_utili.Keys.{find, load, live, store, loaded}
use traefik_middleware_utili.Keys.Laws.{find-store}
use traefik_middleware_utili.Tokenbucket.Agreement.{script_consume_lem, on_floats}
use traefik_middleware_utili.Prelude.{
  ℕ, Bytes, List, Option, ltb, none, some, ◌*◌, ◌+◌, ◌≡◌, ◌≤◌, ◌^◌, if◌then◌else◌, ap, arith, refl,
  ◌∙◌, Bool-cases, inl, inr,
}
use traefik_middleware_utili.Prelude.Int.{pos, pos_part}
use traefik_middleware_utili.Prelude.Result.{Result, ok}
use traefik_middleware_utili.Float.{Float, IsCounting}
use traefik_middleware_utili.Tokenbucket.Clock.{
  consume_one, Answer, ClockConfig, Error, answer, max_delay_micro, second, ttl_seconds,
  validate_clock, limit_per_micro,
}
use traefik_middleware_utili.Tokenbucket.Memory.{
  after_consume, Entry, burst_of, consume, full, unix_micro, Memory, allow, allow_loaded, expiry,
}
use traefik_middleware_utili.Tokenbucket.Memory
use traefik_middleware_utili.Tokenbucket.Redis.{Eval, FloatText, read_wait, allow_args, read_reply}
use traefik_middleware_utili.Tokenbucket.Redis
use traefik_middleware_utili.Tokenbucket.Script.{Hash, Lua, Written, run_allow, run_on, write}

module _ (fl : Float) (text : FloatText fl) (lua : Lua fl) where
  -- A bucket of the process and one of the server.
  pub record IsSame (e : Entry fl.number) (h : Hash) : Type 0 where
    pub same_tokens : lua.to_number h.tokens ≡ some e.tokens
    pub same_last : lua.to_number h.last ≡ some (fl.of_int (pos e.last))
    pub small : e.last ≤ 2 ^ 53

  abbrev pub Match : Option (Entry fl.number) → Option Hash → Type 0
  Match none none = Unit {0}
  Match (some e) (some h) = IsSame e h
  Match _ _ = ⊥

  -- The two results of one call, from one wait: the process answers by it, the client by what it
  -- reads of what the script shows of it.
  pub record IsOneWait (c : ClockConfig fl.number) (a r : Result Error Answer) : Type 0 where
    pub wait : fl.number
    pub in_memory : a ≡ ok (answer fl c wait)
    pub in_redis : r ≡ read_wait fl text c (text.parse_float (lua.to_string wait))

  ttl_whole : (c : ClockConfig fl.number) → IsFitting fl c → ttl_seconds c * second ≡ pos_part c.ttl
  unfolding validate_clock
  ttl_whole c fit = ground (arith, fit.valid)

  -- What the script writes for an entry of the process.
  abbrev pub written : ClockConfig fl.number → ℕ → Entry fl.number → Written fl.number
  written c now e =
      write fl lua (fl.of_int (pos (ttl_seconds c))) (on_floats fl (consume fl c now e))

  module _ (laws : IsCounting fl) (back : IsReadBack fl text lua) (c : ClockConfig fl.number)
      (fit : IsFitting fl c) where
    run_allow-args :
        (now : ℕ) (h : Option Hash)
        → unix_micro now ≤ 2 ^ 53
        → run_allow fl lua (allow_args fl text c now) h
          ≡ run_on fl lua
              (limit_per_micro fl c)
              (burst_of fl c)
              (fl.of_int (pos (ttl_seconds c)))
              (fl.of_int (pos (unix_micro now)))
              (fl.of_int (pos (max_delay_micro c)))
              h
    unfolding run_allow allow_args
    run_allow-args now h small =
        rw
          (
            fit.is_burst,
            back.limit_read,
            back.int_read fit.burst_n fit.small_burst,
            back.int_read (ttl_seconds c) fit.small_ttl,
            back.int_read (unix_micro now) small,
            back.int_read (max_delay_micro c) fit.small_delay,
          )
          refl

    run_allow-none :
        (now : ℕ)
        → unix_micro now ≤ 2 ^ 53
        → run_allow fl lua (allow_args fl text c now) none ≡ some (written c now (full fl c now))
    run_allow-none now small =
        run_allow-args now none small
        ∙ ap (λ r. some (write fl lua (fl.of_int (pos (ttl_seconds c))) r))
            (script_consume_lem fl laws (burst_of fl c) (limit_per_micro fl c) (burst_of fl c)
              (unix_micro now) (unix_micro now) (max_delay_micro c) small small)

    run_allow-some :
        (now : ℕ) (e : Entry fl.number) (h : Hash)
        → unix_micro now ≤ 2 ^ 53
        → IsSame e h
        → run_allow fl lua (allow_args fl text c now) (some h) ≡ some (written c now e)
    run_allow-some now e h small same =
        run_allow-args now (some h) small
        ∙ rw (same.same_last, same.same_tokens)
            (ap (λ r. some (write fl lua (fl.of_int (pos (ttl_seconds c))) r))
              (script_consume_lem fl laws e.tokens (limit_per_micro fl c) (burst_of fl c) e.last
                (unix_micro now) (max_delay_micro c) same.small small))

    stored-Match :
        (now later : ℕ) (e : Entry fl.number)
        → e.last ≤ 2 ^ 53
        → unix_micro now ≤ 2 ^ 53
        → Match
            (live expiry later (some (after_consume fl c now (consume fl c now e))))
            (if ltb later (now + ttl_seconds c * second) then some (written c now e).hash else none)
    unfolding consume_one
    stored-Match now later e small_last small =
        rw (ttl_whole c fit) (elim (Bool-cases (ltb later (now + pos_part c.ttl))) [
          | inl q ↦ rw q (record {
            same_tokens = back.stored_read _;
            same_last = back.stored_read _;
            small = ground (arith, small_last, small);
          })
          | inr q ↦ rw q tt
        ])

    module _ {S : Type 0} (eval : ℕ → Eval S) (held : ℕ → Bytes → S → Option Hash)
        (server : IsServer fl lua eval held) (key : Bytes) where
      -- From a time on, the process and the server hold the same bucket of the key.
      pub record IsRelated (now : ℕ) (m : Memory fl.number) (s : S) : Type 0 where
        pub clock : m.clock ≡ c
        pub matched :
            (later : ℕ)
            → now ≤ later
            → Match (live expiry later (find key m.buckets)) (held later key s)

      -- One call on both sides, and what it leaves.
      pub record IsCall (now : ℕ) (r : Result Error (Answer × Memory fl.number))
          (q : Result Error Answer × S) : Type 0 where
        pub after : Answer × Memory fl.number
        pub returned : r ≡ ok after
        pub one_wait : IsOneWait c (ok after.0) q.0
        pub related : IsRelated now after.1 q.1

      both_with :
          (pick now : ℕ) (m : Memory fl.number) (s : S) (buckets : List (Bytes × Entry fl.number))
          (e : Entry fl.number)
          → m.clock ≡ c
          → unix_micro now ≤ 2 ^ 53
          → e.last ≤ 2 ^ 53
          → load expiry (full fl m.clock now) pick now key m.buckets ≡ (buckets, e)
          → run_allow fl lua (allow_args fl text c now) (held now key s) ≡ some (written c now e)
          → IsCall now
              (Memory.allow fl none pick now key m)
              (Redis.allow fl text (eval now) c none now key s)
      unfolding Memory.allow Redis.allow read_reply
      both_with pick now m s buckets e clock small small_last q run = record {
        after = allow_loaded fl now key m (buckets, e);
        returned = ap (λ p. ok (allow_loaded fl now key m p)) q;
        one_wait = record {
          wait = (consume fl c now e).wait;
          in_memory = rw clock refl;
          in_redis =
              ap (read_reply fl text c)
                (server.replied now key (allow_args fl text c now) s (written c now e) run);
        };
        related = record {
          clock = clock;
          matched = λ later le.
              let stored : find key
                    (store key (after_consume fl m.clock now (consume fl m.clock now e)) buckets)
                  ≡ some (after_consume fl m.clock now (consume fl m.clock now e)) =
                find-store key _ buckets in
              let expected =
                server.kept now later key (allow_args fl text c now) s (written c now e)
                  (ttl_seconds c) run refl le in
              rw (stored, expected, clock) (stored-Match now later e small_last small);
        };
      }

      pub both-IsCall :
          (pick now : ℕ) (m : Memory fl.number) (s : S)
          → unix_micro now ≤ 2 ^ 53
          → IsRelated now m s
          → IsCall now
              (Memory.allow fl none pick now key m)
              (Redis.allow fl text (eval now) c none now key s)
      unfolding load
      both-IsCall pick now m s small rel =
          go (live expiry now (find key m.buckets)) (held now key s) refl refl
            (rel.matched now (omega arith))
        where
          go :
              (o : Option (Entry fl.number)) (h : Option Hash)
              → live expiry now (find key m.buckets) ≡ o
              → held now key s ≡ h
              → Match o h
              → IsCall now
                  (Memory.allow fl none pick now key m)
                  (Redis.allow fl text (eval now) c none now key s)
          go none none q r same =
              both_with pick now m s _ (full fl m.clock now) rel.clock small small
                (ap (loaded expiry (full fl m.clock now) pick now key m.buckets) q)
                (rw (r, rel.clock) (run_allow-none now small))
          go none (some h) q r same = absurd same
          go (some e) none q r same = absurd same
          go (some e) (some h) q r same =
              both_with pick now m s m.buckets e rel.clock small same.small
                (ap (loaded expiry (full fl m.clock now) pick now key m.buckets) q)
                (rw r (run_allow-some now e h small same))
