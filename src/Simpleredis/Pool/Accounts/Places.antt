-- ===== src/Simpleredis/Pool/Accounts/Places.antt =====
-- simpleredis/pool.go: where each socket is, through every interleaving of the commands.
use traefik_middleware_utili.Prelude.{
  ℕ, Bool, List, Option, [], arith, if_cases, if◌then◌else◌, ltb, none, refl, some, ◌++◌, ◌+◌, ◌==◌,
  ◌∷◌, ◌≡◌, ◌-◌,
}
use traefik_middleware_utili.Simpleredis.Pool.{
  Conn, Pool, close, free_in_use_turn, new_pool, pop_newest, release, split_last, stale,
  take_idle_conn, young,
}
use traefik_middleware_utili.Simpleredis.Pool.Accounts.{IsCounted, Step-IsCounted, start-IsCounted}
use traefik_middleware_utili.Simpleredis.Pool.System.{
  Reach, Step, System, acquire, after_take, bypass_idle, closes, dial_failed, dial_worked, here,
  next, releases, skips_idle, start, take_idle, takes_idle,
}

-- How often a socket is in a list.
unfoldable pub times_in : ℕ → List Conn → ℕ
times_in k [] = 0
times_in k (c ∷ cs) = (if c.id == k then 1 else 0) + times_in k cs

times_in-append :
    (k : ℕ) (cs ds : List Conn) → times_in k (cs ++ ds) ≡ times_in k cs + times_in k ds
unfolding times_in
times_in-append k [] ds = omega arith
times_in-append k (c ∷ cs) ds = omega (arith, times_in-append k cs ds)

times_in-young-stale :
    (k : ℕ) (p : Pool) (now : ℕ) (cs : List Conn)
    → times_in k (young p now cs) + times_in k (stale p now cs) ≡ times_in k cs
unfolding times_in young stale
times_in-young-stale k p now [] = refl
times_in-young-stale k p now (c ∷ cs) = ground (arith, times_in-young-stale k p now cs)

abbrev SplitTimes : ℕ → ℕ → Option (List Conn × Conn) → Type 0
SplitTimes k n none = n ≡ 0
SplitTimes k n (some (rest, newest)) = n ≡ times_in k (newest ∷ rest)

split_last-times : (k : ℕ) (cs : List Conn) → SplitTimes k (times_in k cs) (split_last cs)
unfolding split_last times_in
split_last-times k [] = refl
split_last-times k (c ∷ cs) = ground (arith, split_last-times k cs)

-- How often a socket is in use, idle and closed, taken together.
abbrev pub places : ℕ → System → ℕ
places k s = times_in k s.in_use + times_in k s.pool.idle + times_in k s.pool.shut

-- A socket that was dialed is in one place, once, and no other socket is anywhere.
abbrev pub IsPlaced : ℕ → System → Type 0
IsPlaced k s = places k s ≡ (if ltb k s.dialed then 1 else 0)

module _ (k : ℕ) where
  take_idle_conn-IsPlaced :
      (s : System) (now : ℕ) (o : Option (List Conn × Conn))
      → SplitTimes k (times_in k (young s.pool now s.pool.idle)) o
      → IsPlaced k s
      → IsPlaced k (
          after_take s (
            pop_newest
              (record s.pool {
                idle = young s.pool now s.pool.idle;
                shut = stale s.pool now s.pool.idle ++ s.pool.shut;
              })
              o))
  unfolding times_in
  take_idle_conn-IsPlaced s now none e v = omega (
    arith,
    v,
    e,
    times_in-young-stale k s.pool now s.pool.idle,
    times_in-append k (stale s.pool now s.pool.idle) s.pool.shut,
  )
  take_idle_conn-IsPlaced s now (some (rest, c)) e v = omega (
    arith,
    v,
    e,
    times_in-young-stale k s.pool now s.pool.idle,
    times_in-append k (stale s.pool now s.pool.idle) s.pool.shut,
  )

  freed-IsPlaced :
      (p : Pool) (s : System)
      → IsPlaced k (record s { pool = p })
      → IsPlaced k (record s { pool = free_in_use_turn p })
  unfolding free_in_use_turn
  freed-IsPlaced p s v = ground (arith, v)

  take_idle-IsPlaced : (s : System) (now : ℕ) → IsPlaced k s → IsPlaced k (take_idle now s)
  unfolding take_idle take_idle_conn
  take_idle-IsPlaced s now v =
      if_cases (IsPlaced k) s.pool.closed _ _ (λ _. freed-IsPlaced s.pool s v)
        λ _. take_idle_conn-IsPlaced s now _ (split_last-times k (young s.pool now s.pool.idle)) v

  release-IsPlaced :
      (s : System) (now : ℕ) (c : Conn) (before after : List Conn) (reusable : Bool)
      → s.in_use ≡ before ++ c ∷ after
      → IsPlaced k s
      → IsPlaced k (record s { pool = release now c reusable s.pool; in_use = before ++ after })
  unfolding release free_in_use_turn times_in
  release-IsPlaced s now c before after reusable e v = ground (
    arith,
    v,
    e,
    times_in-append k before after,
    times_in-append k before (c ∷ after),
    times_in-append k s.pool.idle (record c { last_used = now } ∷ []),
  )

  Step-IsPlaced : {skipping : Bool} (s t : System) → Step skipping s t → IsPlaced k s → IsPlaced k t
  unfolding bypass_idle close times_in
  Step-IsPlaced s t (acquire h) v = v
  Step-IsPlaced s t (takes_idle now h) v = take_idle-IsPlaced s now v
  Step-IsPlaced s t (skips_idle allowed h) v =
      if_cases (IsPlaced k) s.pool.closed _ _ (λ _. freed-IsPlaced s.pool s v) (λ _. v)
  Step-IsPlaced s t (dial_worked c h fresh) v = ground (arith, v, fresh)
  Step-IsPlaced s t (dial_failed h) v =
      freed-IsPlaced s.pool (record s { dialing = s.dialing - 1 }) v
  Step-IsPlaced s t (releases now c before after reusable e) v =
      release-IsPlaced s now c before after reusable e v
  Step-IsPlaced s t closes v = ground (arith, v, times_in-append k s.pool.idle s.pool.shut)

-- The accounts, and the place of every socket.
pub record IsSound (skipping : Bool) (cap max_idle : ℕ) (s : System) : Type 0 where
  pub counted : IsCounted skipping cap max_idle s
  pub placed : (k : ℕ) → IsPlaced k s

-- In every interleaving of borrows, dials, releases and Close from a new pool: turns free and held
-- add up to PoolSize, no turn is returned twice, the idle list stays within MaxIdleConns, each
-- socket that was dialed is in use, idle or closed, in one of the three and once, no other socket
-- is anywhere, and without skipIdle the live sockets stay within PoolSize.
pub Reach-IsSound :
    (skipping : Bool) (cap max_idle idle_timeout : ℕ) (s : System)
    → Reach skipping (start cap max_idle idle_timeout) s
    → IsSound skipping cap max_idle s
unfolding times_in new_pool
Reach-IsSound skipping cap max_idle idle_timeout s here = record {
  counted = start-IsCounted skipping cap max_idle idle_timeout;
  placed = λ k. ground arith;
}
Reach-IsSound skipping cap max_idle idle_timeout s (next {t = t} r st) =
    let before = Reach-IsSound skipping cap max_idle idle_timeout t r in
    record {
      counted = Step-IsCounted skipping cap max_idle t s st before.counted;
      placed = λ k. Step-IsPlaced k t s st (before.placed k);
    }
