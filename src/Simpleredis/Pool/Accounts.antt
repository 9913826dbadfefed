-- ===== src/Simpleredis/Pool/Accounts.antt =====
-- What every interleaving keeps: the turns, the idle bound and the live bound.
pub mod Places
use traefik_middleware_utili.Prelude.{
  ℕ, Bool, List, Option, [], arith, false, length, none, refl, some, ◌++◌, ◌+◌, ◌<◌, ◌∷◌, ◌≡◌, ◌≤◌,
  length-append, if_cases,
}
use traefik_middleware_utili.Simpleredis.Pool.{
  Pool, Conn, free_in_use_turn, new_pool, pop_newest, split_last, stale, young, close, release,
  take_idle_conn,
}
use traefik_middleware_utili.Simpleredis.Pool.System.{
  System, Step, after_take, hand_back, start, acquire, bypass_idle, closes, dial_failed,
  dial_worked, releases, take_idle, skips_idle, takes_idle,
}

length-young-stale :
    (p : Pool) (now : ℕ) (cs : List Conn)
    → length (young p now cs) + length (stale p now cs) ≡ length cs
unfolding young stale
length-young-stale p now [] = refl
length-young-stale p now (c ∷ cs) = ground (arith, length-young-stale p now cs)

abbrev SplitLength : ℕ → Option (List Conn × Conn) → Type 0
SplitLength n none = n ≡ 0
SplitLength n (some (rest, newest)) = n ≡ length rest + 1

split_last-length : (cs : List Conn) → SplitLength (length cs) (split_last cs)
unfolding split_last
split_last-length [] = refl
split_last-length (c ∷ cs) = ground (arith, split_last-length cs)

-- The turns add up, none is returned twice, the idle list respects its bound, and there are as many
-- sockets in use, idle and closed as were dialed.
pub record IsCounted (skipping : Bool) (cap max_idle : ℕ) (s : System) : Type 0 where
  pub same_cap : s.pool.cap ≡ cap
  pub same_trim : s.pool.max_idle ≡ max_idle
  pub turns : s.pool.turns + s.waiting + s.dialing + length s.in_use ≡ cap
  pub no_over_free : s.pool.over_frees ≡ 0
  pub idle : length s.pool.idle ≤ max_idle
  pub live : skipping ≡ false → length s.pool.idle + s.dialing + length s.in_use ≤ cap
  pub sockets : s.dialed ≡ length s.in_use + length s.pool.idle + length s.pool.shut

module _ (skipping : Bool) (cap max_idle : ℕ) where
  pub start-IsCounted :
      (idle_timeout : ℕ) → IsCounted skipping cap max_idle (start cap max_idle idle_timeout)
  unfolding new_pool
  start-IsCounted idle_timeout = omega arith

  take_idle_conn-IsCounted :
      (s : System) (now : ℕ) (o : Option (List Conn × Conn))
      → 0 < s.waiting
      → SplitLength (length (young s.pool now s.pool.idle)) o
      → IsCounted skipping cap max_idle s
      → IsCounted skipping cap max_idle (
          after_take s (
            pop_newest
              (record s.pool {
                idle = young s.pool now s.pool.idle;
                shut = stale s.pool now s.pool.idle ++ s.pool.shut;
              })
              o))
  take_idle_conn-IsCounted s now none w e v = ground (
    arith,
    length-young-stale s.pool now s.pool.idle,
    length-append (stale s.pool now s.pool.idle) s.pool.shut,
  )
  take_idle_conn-IsCounted s now (some (rest, c)) w e v = ground (
    arith,
    length-young-stale s.pool now s.pool.idle,
    length-append (stale s.pool now s.pool.idle) s.pool.shut,
  )

  hand_back-IsCounted :
      (s : System)
      → 0 < s.waiting
      → IsCounted skipping cap max_idle s
      → IsCounted skipping cap max_idle (hand_back s)
  unfolding free_in_use_turn
  hand_back-IsCounted s w v = ground arith

  take_idle-IsCounted :
      (s : System) (now : ℕ)
      → 0 < s.waiting
      → IsCounted skipping cap max_idle s
      → IsCounted skipping cap max_idle (take_idle now s)
  unfolding take_idle take_idle_conn
  take_idle-IsCounted s now w v =
      if_cases (IsCounted skipping cap max_idle) s.pool.closed _ _ (λ _. hand_back-IsCounted s w v)
        λ _. take_idle_conn-IsCounted s now _ w (split_last-length (young s.pool now s.pool.idle)) v

  release-IsCounted :
      (s : System) (now : ℕ) (c : Conn) (before after : List Conn) (reusable : Bool)
      → s.in_use ≡ before ++ c ∷ after
      → IsCounted skipping cap max_idle s
      → IsCounted skipping cap max_idle
          (record s { pool = release now c reusable s.pool; in_use = before ++ after })
  unfolding release free_in_use_turn
  release-IsCounted s now c before after reusable e v = ground (
    arith,
    length-append before after,
    length-append before (c ∷ after),
    length-append s.pool.idle (record c { last_used = now } ∷ []),
  )

  -- Every step of every command keeps the accounts.
  pub Step-IsCounted :
      (s t : System)
      → Step skipping s t
      → IsCounted skipping cap max_idle s
      → IsCounted skipping cap max_idle t
  unfolding free_in_use_turn bypass_idle close
  Step-IsCounted s t (acquire h) v = ground arith
  Step-IsCounted s t (takes_idle now h) v = take_idle-IsCounted s now h v
  Step-IsCounted s t (skips_idle allowed h) v = ground arith
  Step-IsCounted s t (dial_worked c h fresh) v = ground arith
  Step-IsCounted s t (dial_failed h) v = ground arith
  Step-IsCounted s t (releases now c before after reusable e) v =
      release-IsCounted s now c before after reusable e v
  Step-IsCounted s t closes v = ground (arith, length-append s.pool.idle s.pool.shut)
