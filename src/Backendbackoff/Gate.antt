-- ===== src/Backendbackoff/Gate.antt =====
-- backendbackoff/allow.go. The lock makes each call one step at one reading of the clock; the zero
-- of the clock is Go's zero time.
use traefik_middleware_utili.Prelude.{
  ℕ, Bool, Bytes, List, [], false, if◌then◌else◌, ltb, true, ◌+◌, ◌-◌, ◌&&◌, ◌==◌,
}
use traefik_middleware_utili.Prelude.Int.{pos_part}
use traefik_middleware_utili.Prelude.Result.{Result, err, ok}
use traefik_middleware_utili.Backendbackoff.Config.{Config, Error, err_closed}
use traefik_middleware_utili.Keys.{load, store}

pub data GateState : Type 0 where
  state_closed state_open state_half_open : GateState

pub record Entry (R : Type 0) : Type 0 where
  pub credit : R
  pub n : ℕ
  pub state : GateState
  pub open_until : ℕ
  pub closed_since : ℕ
  pub probe_until : ℕ
  pub probe_outstanding : Bool
  pub expire_at : ℕ

pub record Gate (R : Type 0) : Type 0 where
  pub cfg : Config R
  pub budget : R
  pub closed : Bool
  pub keys : List (Bytes × Entry R)

abbrev pub ttl_of : {R : Type 0} → Gate R → ℕ
ttl_of g = pos_part g.cfg.ttl

abbrev pub base_of : {R : Type 0} → Gate R → ℕ
base_of g = pos_part g.cfg.base_cooldown

abbrev pub new_entry : {R : Type 0} → R → ℕ → Entry R
new_entry budget now = record {
  credit = budget;
  n = 0;
  state = state_closed;
  open_until = 0;
  closed_since = now;
  probe_until = 0;
  probe_outstanding = false;
  expire_at = 0;
}

abbrev pub expiry : {R : Type 0} → Entry R → ℕ
expiry e = e.expire_at

-- `loadEntry`.
unfoldable pub load_entry : {R : Type 0} → ℕ → ℕ → Bytes → Gate R → List (Bytes × Entry R) × Entry R
load_entry pick now key g = load expiry (new_entry g.budget now) pick now key g.keys

abbrev pub refresh : {R : Type 0} → ℕ → Gate R → Entry R → Entry R
refresh now g e = record e { expire_at = now + ttl_of g }

-- `resetNIfClosedLongEnough`.
unfoldable pub reset_n_if_closed_long_enough : {R : Type 0} → ℕ → Gate R → Entry R → Entry R
reset_n_if_closed_long_enough now g e =
    if e.closed_since == 0
    then e
    else if ltb now (e.closed_since + pos_part g.cfg.max_cooldown)
    then e
    else record e { n = 0 }

-- What `Allow` answers: whether the attempt may proceed, and how long to wait.
pub record Answer : Type 0 where
  pub allowed : Bool
  pub wait : ℕ

abbrev pub admit : Answer
admit = record { allowed = true; wait = 0 }

abbrev pub deny : ℕ → Answer
deny wait = record { allowed = false; wait = wait }

abbrev pub start_probe : {R : Type 0} → ℕ → Gate R → Entry R → Entry R
start_probe now g e = record e {
  state = state_half_open;
  probe_outstanding = true;
  probe_until = now + base_of g;
}

abbrev pub allow_state : {R : Type 0} → GateState → ℕ → Gate R → Entry R → Answer × Entry R
allow_state state_closed now g e = (admit, reset_n_if_closed_long_enough now g e)
allow_state state_open now g e =
    if ltb now e.open_until then (deny (e.open_until - now), e) else (admit, start_probe now g e)
allow_state state_half_open now g e =
    if e.probe_outstanding && ltb now e.probe_until
    then (deny (e.probe_until - now), e)
    else (admit, start_probe now g e)

unfoldable pub allow_entry : {R : Type 0} → ℕ → Gate R → Entry R → Answer × Entry R
allow_entry now g e = allow_state e.state now g e

abbrev pub with_entry :
    {R A : Type 0} → Bytes → Gate R → List (Bytes × Entry R) → A × Entry R → A × Gate R
with_entry key g m (a, e) = (a, record g { keys = store key e m })

abbrev pub allow_loaded :
    {R : Type 0} → ℕ → Bytes → Gate R → List (Bytes × Entry R) × Entry R → Answer × Gate R
allow_loaded now key g (m, e) = with_entry key g m (allow_entry now g (refresh now g e))

unfoldable pub allow : {R : Type 0} → ℕ → ℕ → Bytes → Gate R → Result Error (Answer × Gate R)
allow pick now key g =
    if g.closed then err err_closed else ok (allow_loaded now key g (load_entry pick now key g))

unfoldable pub close : {R : Type 0} → Gate R → Gate R
close g = record g { closed = true; keys = [] }
