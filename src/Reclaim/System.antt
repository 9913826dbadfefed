-- ===== src/Reclaim/System.antt =====
-- reclaim/table.go: the table among its goroutines. Each step is one section under the lock, with what
-- its goroutine does next; the end of a hook is the step that follows it. A context may be done at
-- any time, and a grace timer may call `expire` at any time, for any slot, also after it was stopped.
pub mod Counts
pub mod Kept
pub mod Ends
pub mod Starts
pub mod Steps
pub mod Hooked
pub mod Locked
pub mod Reached
pub mod Mapped
pub mod Keyed
pub mod Rekeyed
pub mod Channels
pub mod Behind
pub mod Claims
pub mod Enforced
use traefik_middleware_utili.Keys.{find}
use traefik_middleware_utili.Prelude.{
  ℕ, Bool, Bytes, List, false, if◌then◌else◌, true, ◌&&◌, ◌==◌, ◌∷◌, Option, some, none, [], ◌≡◌,
  suc,
}
use traefik_middleware_utili.Prelude.Int.{ℤ}
use traefik_middleware_utili.Reclaim.Values.{Any, put_at, member}
use traefik_middleware_utili.Reclaim.Aliases.{Aliases}
use traefik_middleware_utili.Reclaim.Table.{
  Table, Hooks, OpenStep, open_create, open_bind, open_wake, open_park, open_retry, lookup_open,
  new_table, end_busy_slot, install_closer, publish_put, publish_wake, release_holder, DropAction,
  drop_park, drop_stop, drop_claim, claim_drop, park_asleep, ExpireAction, expire_skip,
  expire_enforce, expire_dispose, claim_expire, unmap_locked, write_slot, close_channel, unbind,
}

-- What a goroutine is about. `swapped` is `endBusyAfterPanic` after `installCloser`, with the number
-- of the channel to close, and `closing_behind` its Close; `closing` is the Close of `endMappedClose`,
-- and `readying` has unmapped a slot and has its channel to close; `disposing` is a Close after which
-- `expire` still unbinds, or not.
pub data Work : Type 0 where
  creating : ℕ → Work
  waking : ℕ → Work
  dropping : ℕ → Work
  sleeping : ℕ → Work
  expiring : ℕ → Work
  closing : ℕ → Work
  swapped : ℕ → ℕ → ℕ → Work
  closing_behind : ℕ → ℕ → Work
  readying : ℕ → ℕ → Work
  disposing : ℕ → Bool → Work
  unbinding : ℕ → Work

-- `holders` are the slots that the Opens which have bound and are not done yet hold; `opened` is the
-- key of each slot, and `closes` counts the calls of Close for it.
pub record System : Type 0 where
  pub table : Table
  pub works : List Work
  pub holders : List ℕ
  pub opened : ℕ → Bytes
  pub closes : ℕ → ℕ

pub data Picked (w : Work) : List Work → List Work → Type 0 where
  first : (rest : List Work) → Picked w (w ∷ rest) rest
  later :
      (v : Work) (works rest : List Work) → Picked w works rest → Picked w (v ∷ works) (v ∷ rest)

-- Without one of the times that an element is there.
unfoldable pub without : ℕ → List ℕ → List ℕ
without i [] = []
without i (j ∷ js) = if i == j then js else j ∷ without i js

abbrev pub start : ℤ → System
start grace = record {
  table = new_table grace;
  works = [];
  holders = [];
  opened = λ i. [];
  closes = λ i. 0;
}

abbrev pub one_close : ℕ → System → ℕ → ℕ
one_close i s = put_at i (suc (s.closes i)) s.closes

-- `Open` once around its loop.
abbrev pub after_open : Bytes → OpenStep → Table → System → System
after_open key (open_create i) t s = record s {
  table = t;
  works = creating i ∷ s.works;
  opened = put_at i key s.opened;
}
after_open key (open_bind i) t s = record s { table = t; holders = i ∷ s.holders }
after_open key (open_wake i) t s = record s { table = t; works = waking i ∷ s.works }
after_open key (open_park i n) t s = record s { table = t }
after_open key open_retry t s = record s { table = t }

unfoldable pub open_once : Bytes → System → System
open_once key s = let o = lookup_open key s.table in after_open key o.0 o.1 s

-- `put` when `create` has returned a value, or an error or a panic.
unfoldable pub created : ℕ → Any → Hooks → List Work → System → System
created i value hooks rest s = record s {
  table = publish_put (s.opened i) i value hooks s.table;
  works = rest;
  holders = i ∷ s.holders;
}

unfoldable pub create_failed : ℕ → Bytes → List Work → System → System
create_failed i error rest s = record s {
  table = end_busy_slot (s.opened i) i (some error) s.table;
  works = rest;
}

-- `wakeAndBind` when Wake has returned.
unfoldable pub woke : ℕ → List Work → System → System
woke i rest s = record s { table = publish_wake i s.table; works = rest; holders = i ∷ s.holders }

-- `endBusyAfterPanic`.
unfoldable pub behind_closer : ℕ → Option Bytes → List Work → System → System
behind_closer i create_err rest s =
    let swap = install_closer (s.opened i) i create_err s.table in
    record s {
      table = swap.1;
      works = swapped i swap.0 (s.table.slots i).ready ∷ rest;
      opened = put_at swap.0 (s.opened i) s.opened;
      closes = one_close i s;
    }

unfoldable pub ended_first : ℕ → Option Bytes → List Work → System → System
ended_first i create_err rest s = record s {
  table = end_busy_slot (s.opened i) i create_err s.table;
  works = disposing i false ∷ rest;
  closes = one_close i s;
}

unfoldable pub end_busy_after_panic : ℕ → Option Bytes → List Work → System → System
end_busy_after_panic i create_err rest s =
    if (s.table.slots i).hooks.enforce_close_before_open
    then behind_closer i create_err rest s
    else ended_first i create_err rest s

-- `drop` until it first looks at the slot.
unfoldable pub release : ℕ → System → System
release i s = record s {
  table = release_holder i s.table;
  works = dropping i ∷ s.works;
  holders = without i s.holders;
}

-- `drop` once around its loop.
abbrev pub after_drop : ℕ → DropAction → Table → List Work → System → System
after_drop i drop_park t rest s = record s { table = t; works = dropping i ∷ rest }
after_drop i drop_stop t rest s = record s { table = t; works = rest }
after_drop i drop_claim t rest s = record s { table = t; works = sleeping i ∷ rest }

unfoldable pub drop_once : ℕ → List Work → System → System
drop_once i rest s = let d = claim_drop i s.table in after_drop i d.0 d.1 rest s

-- `drop` when Sleep has returned.
abbrev pub after_park : ℕ → Bool × Table → List Work → System → System
after_park i p rest s = record s { table = p.1; works = if p.0 then rest else expiring i ∷ rest }

unfoldable pub parked : ℕ → List Work → System → System
parked i rest s = after_park i (park_asleep (s.opened i) i s.table) rest s

unfoldable pub slept : ℕ → List Work → System → System
slept i rest s =
    if (s.table.slots i).hooks.enforce_close_before_open && s.table.grace == 0
    then record s { works = closing i ∷ rest; closes = one_close i s }
    else parked i rest s

-- `expire` until it calls Close.
abbrev pub after_expire : ℕ → ExpireAction → Table → List Work → System → System
after_expire i expire_skip t rest s = record s { table = t; works = rest }
after_expire i expire_enforce t rest s = record s {
  table = t;
  works = closing i ∷ rest;
  closes = one_close i s;
}
after_expire i expire_dispose t rest s = record s {
  table = t;
  works = disposing i true ∷ rest;
  closes = one_close i s;
}

unfoldable pub expire : ℕ → List Work → System → System
expire i rest s = let e = claim_expire (s.opened i) i s.table in after_expire i e.0 e.1 rest s

-- `unmapAfterClose` under the lock, and after it.
unfoldable pub unmapped : ℕ → List Work → System → System
unmapped i rest s = record s {
  table = unmap_locked (s.opened i) i s.table;
  works = readying i (s.table.slots i).ready ∷ rest;
}

abbrev pub shut_channel : ℕ → ℕ → Table → Table
shut_channel i n t = write_slot i (close_channel n (t.slots i)) t

unfoldable pub readied : ℕ → ℕ → List Work → System → System
readied i n next s = record s { table = shut_channel i n s.table; works = next }

unfoldable pub unbound : ℕ → List Work → System → System
unbound i rest s = record s { table = unbind i s.table; works = rest }

abbrev pub after_dispose : ℕ → Bool → List Work → List Work
after_dispose i expired rest = if expired then unbinding i ∷ rest else rest

pub data Step : System → System → Type 0 where
  by_open : (key : Bytes) (s : System) → Step s (open_once key s)
  by_created :
      (i : ℕ) (value : Any) (hooks : Hooks) (rest : List Work) (s : System)
      → Picked (creating i) s.works rest
      → Step s (created i value hooks rest s)
  by_create_failed :
      (i : ℕ) (error : Bytes) (rest : List Work) (s : System)
      → Picked (creating i) s.works rest
      → Step s (create_failed i error rest s)
  by_woke :
      (i : ℕ) (rest : List Work) (s : System)
      → Picked (waking i) s.works rest
      → Step s (woke i rest s)
  by_wake_panic :
      (i : ℕ) (error : Bytes) (rest : List Work) (s : System)
      → Picked (waking i) s.works rest
      → Step s (end_busy_after_panic i (some error) rest s)
  by_done : (i : ℕ) (s : System) → member i s.holders ≡ true → Step s (release i s)
  by_drop :
      (i : ℕ) (rest : List Work) (s : System)
      → Picked (dropping i) s.works rest
      → Step s (drop_once i rest s)
  by_slept :
      (i : ℕ) (rest : List Work) (s : System)
      → Picked (sleeping i) s.works rest
      → Step s (slept i rest s)
  by_sleep_panic :
      (i : ℕ) (rest : List Work) (s : System)
      → Picked (sleeping i) s.works rest
      → Step s (end_busy_after_panic i none rest s)
  by_expire :
      (i : ℕ) (rest : List Work) (s : System)
      → Picked (expiring i) s.works rest
      → Step s (expire i rest s)
  by_timer : (i : ℕ) (s : System) → Step s (expire i s.works s)
  by_closed :
      (i : ℕ) (rest : List Work) (s : System)
      → Picked (closing i) s.works rest
      → Step s (unmapped i rest s)
  by_swapped :
      (i c n : ℕ) (rest : List Work) (s : System)
      → Picked (swapped i c n) s.works rest
      → Step s (readied i n (closing_behind i c ∷ rest) s)
  by_closed_behind :
      (i c : ℕ) (rest : List Work) (s : System)
      → Picked (closing_behind i c) s.works rest
      → Step s (unmapped c rest s)
  by_readied :
      (i n : ℕ) (rest : List Work) (s : System)
      → Picked (readying i n) s.works rest
      → Step s (readied i n rest s)
  by_disposed :
      (i : ℕ) (expired : Bool) (rest : List Work) (s : System)
      → Picked (disposing i expired) s.works rest
      → Step s (record s { works = after_dispose i expired rest })
  by_unbound :
      (i : ℕ) (rest : List Work) (s : System)
      → Picked (unbinding i) s.works rest
      → Step s (unbound i rest s)
  -- `SetAlias`, `Watch`, `ClearPublisher` and the end of a watcher change the names alone.
  by_names :
      (aliases : Aliases) (s : System)
      → Step s (record s { table = record s.table { aliases = aliases } })

pub data Reach (grace : ℤ) : System → Type 0 where
  at_start : Reach grace (start grace)
  then_step : (s t : System) → Reach grace s → Step s t → Reach grace t
