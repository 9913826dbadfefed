-- ===== src/Backendbackoff/Tests.antt =====
-- Witnesses of the properties of backendbackoff/, with thousandths for the floats.
use traefik_middleware_utili.Prelude.{
  same_text, ℕ, Bytes, [], arith, false, true, leb, ltb, min, some, refl, ◌+◌, ◌-◌, ◌*◌, ◌/◌, ◌==◌,
  ◌∷◌, ◌≡◌, ◌≤◌,
}
use traefik_middleware_utili.Prelude.Int.{pos, pos_part}
use traefik_middleware_utili.Prelude.Result.{ok}
use traefik_middleware_utili.Float.{Float, IsExact, IsLowered}
use traefik_middleware_utili.Backendbackoff.Config.{
  Config, check_config, fill_zeros, is_all_zero, resolve_config,
}
use traefik_middleware_utili.Backendbackoff.Cooldown.{cooldown_duration}
use traefik_middleware_utili.Backendbackoff.Cooldown.Bounds.{cooldown_duration_bounds}
use traefik_middleware_utili.Keys.{without_expired, load, erase, find, store}
use traefik_middleware_utili.Backendbackoff.Gate.{
  Entry, Gate, GateState, allow_entry, load_entry, reset_n_if_closed_long_enough, state_closed,
  state_open, allow, admit, deny,
}
use traefik_middleware_utili.Backendbackoff.Report.{new_gate, gate_of}
use traefik_middleware_utili.Backendbackoff.Invariant.{IsSound}
use traefik_middleware_utili.Backendbackoff.Invariant.Calls.{
  Calls-IsSound, none_yet, then_call, allows,
}
use traefik_middleware_utili.Backendbackoff.Probe.{IsOpen, allow_single_probe}
use traefik_middleware_utili.Backendbackoff.Tripping.{HasCredit, fail_times, report_trips}

abbrev thousandths : Float
thousandths = record {
  number = ℕ;
  add = λ a b. a + b;
  sub = λ a b. a - b;
  mul = λ a b. a * b / 1000;
  div = λ a b. a * 1000 / b;
  neg = λ a. 0;
  is_nan = λ a. false;
  is_inf = λ a. false;
  lt = ltb;
  le = leb;
  eq = λ a b. a == b;
  of_int = λ z. pos_part z * 1000;
  to_int = λ a. pos (a / 1000);
}

thousandths-IsLowered : IsLowered thousandths
thousandths-IsLowered = record { lowered = λ b x h. ground arith; irreflexive = λ b. ground arith }

thousandths-IsExact : IsExact thousandths
thousandths-IsExact = record { exact = λ n le. omega arith; le_zero = λ n le. ground arith }

abbrev zero_config : Config ℕ
zero_config = record {
  failure_ratio = 0;
  trip_failures = pos 0;
  base_cooldown = pos 0;
  max_cooldown = pos 0;
  jitter = 0;
  ttl = pos 0;
}

abbrev default_config : Config ℕ
default_config = record {
  failure_ratio = 300;
  trip_failures = pos 5;
  base_cooldown = pos 1000000000;
  max_cooldown = pos 10000000000;
  jitter = 100;
  ttl = pos 60000000000;
}

resolve_zero_config : resolve_config thousandths zero_config ≡ ok default_config
unfolding resolve_config check_config fill_zeros is_all_zero
resolve_zero_config = refl

cooldown_duration_bounds_example :
    (cooldown_duration thousandths default_config 7 3 ≤ 10000000000)
    × (leb 100 0 ≡ true
        → cooldown_duration thousandths default_config 7 3 ≡ min 10000000000 8000000000)
cooldown_duration_bounds_example =
    cooldown_duration_bounds thousandths default_config 7 3 (omega arith)

new_default_gate : new_gate thousandths zero_config ≡ ok (gate_of thousandths default_config)
unfolding new_gate resolve_config check_config fill_zeros is_all_zero
new_default_gate = refl

abbrev client : Bytes
client = 99 ∷ []

abbrev entry_at : ℕ → GateState → ℕ → Entry ℕ
entry_at credit st open_until = record {
  credit = credit;
  n = 0;
  state = st;
  open_until = open_until;
  closed_since = 10;
  probe_until = 0;
  probe_outstanding = false;
  expire_at = 60000000010;
}

abbrev gate_with : Entry ℕ → Gate ℕ
gate_with e = record (gate_of thousandths default_config) { keys = (client, e) ∷ [] }

allow_new_key :
    allow 0 10 client (gate_of thousandths default_config)
    ≡ ok (admit, gate_with (entry_at 5000 state_closed 0))
unfolding allow allow_entry store load_entry find without_expired load erase same_text
    reset_n_if_closed_long_enough
allow_new_key = refl

Calls-IsSound_example : IsSound thousandths (gate_with (entry_at 5000 state_closed 0))
Calls-IsSound_example =
    Calls-IsSound thousandths zero_config (gate_of thousandths default_config)
      (gate_with (entry_at 5000 state_closed 0)) thousandths-IsLowered new_default_gate
      (then_call none_yet (allows 0 10 client admit allow_new_key))

client-IsOpen : IsOpen client 20 (gate_with (entry_at 0 state_open 15)) (entry_at 0 state_open 15)
unfolding find same_text
client-IsOpen = record { open_gate = refl; stored = refl; not_idle = omega arith; state = refl }

allow_single_probe_example :
    (g' : Gate ℕ) × (g'' : Gate ℕ) × (allow 0 20 client (gate_with (entry_at 0 state_open 15))
      ≡ ok (admit, g'))
    × (allow 0 30 client g' ≡ ok (deny 999999990, g''))
allow_single_probe_example =
    allow_single_probe 0 0 20 30 client (gate_with (entry_at 0 state_open 15))
      (entry_at 0 state_open 15) client-IsOpen (omega arith) (omega arith) (omega arith)

client-HasCredit :
    HasCredit thousandths client 2
      (gate_with (entry_at 2000 state_closed 0))
      (entry_at 2000 state_closed 0)
unfolding find same_text
client-HasCredit = record { open_gate = refl; stored = refl; state = refl; credit = refl }

report_trips_example :
    (g' : Gate ℕ) × (e' : Entry ℕ) × (fail_times thousandths client
        ((20, 0) ∷ (30, 0) ∷ [])
        (gate_with (entry_at 2000 state_closed 0))
      ≡ ok g')
    × (find client g'.keys ≡ some e')
    × (e'.credit ≡ 0)
    × (e'.state ≡ state_open)
report_trips_example =
    report_trips thousandths client ((20, 0) ∷ (30, 0) ∷ []) 2
      (gate_with (entry_at 2000 state_closed 0)) (entry_at 2000 state_closed 0) thousandths-IsExact
      client-HasCredit (omega arith) (omega arith) (omega arith)
