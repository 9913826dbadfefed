-- ===== src/Simpleredis/Pool.antt =====
-- simpleredis/pool.go and `Close` of simpleredis.go: the idle list and the in-use turns. Times are
-- nanoseconds of one clock. `shut` lists the sockets that have been closed.
pub mod System
pub mod Accounts
use traefik_middleware_utili.Prelude.{
  ℕ, Bool, List, Option, [], false, if◌then◌else◌, leb, length, ltb, none, some, true, ◌++◌, ◌+◌,
  ◌-◌, ◌||◌, ◌∷◌,
}

pub record Conn : Type 0 where
  pub id : ℕ
  pub last_used : ℕ

-- The head of `idle` is the oldest socket; `turns` are the free in-use turns.
pub record Pool : Type 0 where
  pub idle : List Conn
  pub closed : Bool
  pub turns : ℕ
  pub cap : ℕ
  pub max_idle : ℕ
  pub idle_timeout : ℕ
  pub over_frees : ℕ
  pub shut : List Conn

-- A return to a full semaphore is counted and dropped.
unfoldable pub free_in_use_turn : Pool → Pool
free_in_use_turn p =
    if ltb p.turns p.cap
    then record p { turns = p.turns + 1 }
    else record p { over_frees = p.over_frees + 1 }

-- `now.Sub(conn.lastUsed) < sr.idleTimeout`.
abbrev pub is_young : Pool → ℕ → Conn → Bool
is_young p now c = ltb (now - c.last_used) p.idle_timeout

pub young : Pool → ℕ → List Conn → List Conn
young p now [] = []
young p now (c ∷ cs) = if is_young p now c then c ∷ young p now cs else young p now cs

pub stale : Pool → ℕ → List Conn → List Conn
stale p now [] = []
stale p now (c ∷ cs) = if is_young p now c then stale p now cs else c ∷ stale p now cs

-- The newest socket and the others.
pub split_last : List Conn → Option (List Conn × Conn)
split_last [] = none
split_last (c ∷ cs) = elim (split_last cs) [
  | none ↦ some ([], c)
  | some (rest, newest) ↦ some (c ∷ rest, newest)
]

-- `takeIdleConn`, with the stale sockets closed as `borrowSocket` does next.
abbrev pub pop_newest : Pool → Option (List Conn × Conn) → Pool × Option Conn
pop_newest p none = (p, none)
pop_newest p (some (rest, newest)) = (record p { idle = rest }, some newest)

unfoldable pub take_idle_conn : ℕ → Pool → Pool × Option Conn
unfolding young stale split_last
take_idle_conn now p =
    let swept = record p { idle = young p now p.idle; shut = stale p now p.idle ++ p.shut } in
    pop_newest swept (split_last (young p now p.idle))

abbrev pub shut_conn : Conn → Pool → Pool
shut_conn c p = record p { shut = c ∷ p.shut }

-- `parkIdleConn`, and the close when it refuses.
abbrev pub park_or_shut : Conn → Pool → Pool
park_or_shut c p =
    if p.closed || leb p.max_idle (length p.idle)
    then shut_conn c p
    else record p { idle = p.idle ++ c ∷ [] }

unfoldable pub release : ℕ → Conn → Bool → Pool → Pool
unfolding free_in_use_turn
release now c reusable p =
    free_in_use_turn
      (if reusable then park_or_shut (record c { last_used = now }) p else shut_conn c p)

-- `Close`: the first call drains the idle list.
unfoldable pub close : Pool → Pool
close p = if p.closed then p else record p { closed = true; idle = []; shut = p.idle ++ p.shut }

-- `New` fills the semaphore.
unfoldable pub new_pool : ℕ → ℕ → ℕ → Pool
new_pool cap max_idle idle_timeout = record {
  idle = [];
  closed = false;
  turns = cap;
  cap = cap;
  max_idle = max_idle;
  idle_timeout = idle_timeout;
  over_frees = 0;
  shut = [];
}
