-- ===== src/Simpleredis/Pool/System.antt =====
-- Commands that share one pool: each step is one call of pool.go that the idle mutex, the semaphore
-- or the dialer orders against the others'.
use traefik_middleware_utili.Prelude.{
  ℕ, Bool, List, Option, [], if◌then◌else◌, none, some, true, ◌++◌, ◌+◌, ◌-◌, ◌<◌, ◌∷◌, ◌≡◌,
}
use traefik_middleware_utili.Simpleredis.Pool.{
  Pool, Conn, close, free_in_use_turn, new_pool, release, take_idle_conn,
}

-- How many commands hold a turn and have not looked for a socket, how many dial, and the sockets in
-- use; `dialed` counts the dials that worked. A socket is known by its number among them.
pub record System : Type 0 where
  pub pool : Pool
  pub waiting : ℕ
  pub dialing : ℕ
  pub in_use : List Conn
  pub dialed : ℕ

-- `borrowSocket` after it took a turn, without `skipIdle`.
abbrev pub after_take : System → Pool × Option Conn → System
after_take s (p, none) = record s { pool = p; waiting = s.waiting - 1; dialing = s.dialing + 1 }
after_take s (p, some c) = record s { pool = p; waiting = s.waiting - 1; in_use = c ∷ s.in_use }

abbrev pub hand_back : System → System
hand_back s = record s { pool = free_in_use_turn s.pool; waiting = s.waiting - 1 }

unfoldable pub take_idle : ℕ → System → System
take_idle now s = if s.pool.closed then hand_back s else after_take s (take_idle_conn now s.pool)

-- With `skipIdle`: dial unless the client is closed.
unfoldable pub bypass_idle : System → System
bypass_idle s =
    if s.pool.closed
    then hand_back s
    else record s { waiting = s.waiting - 1; dialing = s.dialing + 1 }

-- `skipping` says whether some command bypasses the idle list.
pub data Step (skipping : Bool) (s : System) : System → Type 0 where
  acquire :
      0 < s.pool.turns
      → Step skipping s
          (record s { pool = record s.pool { turns = s.pool.turns - 1 }; waiting = s.waiting + 1 })
  takes_idle : (now : ℕ) → 0 < s.waiting → Step skipping s (take_idle now s)
  skips_idle : skipping ≡ true → 0 < s.waiting → Step skipping s (bypass_idle s)
  dial_worked :
      (c : Conn)
      → 0 < s.dialing
      → c.id ≡ s.dialed
      → Step skipping s
          (record s { dialing = s.dialing - 1; in_use = c ∷ s.in_use; dialed = s.dialed + 1 })
  dial_failed :
      0 < s.dialing
      → Step skipping s (record s { pool = free_in_use_turn s.pool; dialing = s.dialing - 1 })
  releases :
      (now : ℕ) (c : Conn) (before after : List Conn) (reusable : Bool)
      → s.in_use ≡ before ++ c ∷ after
      → Step skipping s
          (record s { pool = release now c reusable s.pool; in_use = before ++ after })
  closes : Step skipping s (record s { pool = close s.pool })

abbrev pub start : ℕ → ℕ → ℕ → System
start cap max_idle idle_timeout = record {
  pool = new_pool cap max_idle idle_timeout;
  waiting = 0;
  dialing = 0;
  in_use = [];
  dialed = 0;
}

pub data Reach (skipping : Bool) (s : System) : System → Type 0 where
  here : Reach skipping s s
  next : {t u : System} → Reach skipping s t → Step skipping t u → Reach skipping s u
