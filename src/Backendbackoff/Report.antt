-- ===== src/Backendbackoff/Report.antt =====
-- backendbackoff/allow.go `Report` and backendbackoff/gate.go `New`.
use traefik_middleware_utili.Prelude.{
  ℕ, Bool, Bytes, Option, [], false, if◌then◌else◌, none, some, true, not, ◌+◌,
}
use traefik_middleware_utili.Prelude.Result.{Result, err, ok, ◌>>=◌}
use traefik_middleware_utili.Float.{Float}
use traefik_middleware_utili.Backendbackoff.Config.{
  Config, Error, err_closed, one_float, zero_float, success_credit, resolve_config,
}
use traefik_middleware_utili.Backendbackoff.Cooldown.{cooldown_duration}
use traefik_middleware_utili.Keys.{find, store}
use traefik_middleware_utili.Backendbackoff.Gate.{
  Entry, Gate, GateState, state_closed, state_open, state_half_open, refresh,
  reset_n_if_closed_long_enough,
}

module _ (fl : Float) where
  -- A success in the closed state.
  abbrev pub gain : Gate fl.number → Entry fl.number → Entry fl.number
  gain g e =
      let credit' = fl.add e.credit (success_credit fl g.cfg) in
      record e { credit = if fl.lt g.budget credit' then g.budget else credit' }

  abbrev pub trip : ℕ → fl.number → Gate fl.number → Entry fl.number → Entry fl.number
  trip now sample g e = record e {
    state = state_open;
    open_until = now + cooldown_duration fl g.cfg sample e.n;
  }

  abbrev pub pay : Entry fl.number → Entry fl.number
  pay e = record e { credit = fl.sub e.credit (one_float fl) }

  abbrev pub trip_if_spent : ℕ → fl.number → Gate fl.number → Entry fl.number → Entry fl.number
  trip_if_spent now sample g e =
      if fl.le e.credit (zero_float fl)
      then record (trip now sample g e) { closed_since = 0 }
      else e

  -- A failure in the closed state.
  abbrev pub lose : ℕ → fl.number → Gate fl.number → Entry fl.number → Entry fl.number
  lose now sample g e = trip_if_spent now sample g (pay (reset_n_if_closed_long_enough now g e))

  abbrev pub recover : ℕ → Gate fl.number → Entry fl.number → Entry fl.number
  recover now g e = record e {
    credit = g.budget;
    state = state_closed;
    closed_since = now;
    probe_outstanding = false;
  }

  abbrev pub fail_probe : ℕ → fl.number → Gate fl.number → Entry fl.number → Entry fl.number
  fail_probe now sample g e =
      trip now sample g (record e { probe_outstanding = false; n = e.n + 1 })

  abbrev pub report_state :
      GateState → Bool → ℕ → fl.number → Gate fl.number → Entry fl.number → Entry fl.number
  report_state state_open success now sample g e = e
  report_state state_half_open success now sample g e =
      if not e.probe_outstanding
      then e
      else if success
      then recover now g e
      else fail_probe now sample g e
  report_state state_closed true now sample g e = gain g e
  report_state state_closed false now sample g e = lose now sample g e

  unfoldable pub report_entry :
      Bool → ℕ → fl.number → Gate fl.number → Entry fl.number → Entry fl.number
  report_entry success now sample g e = report_state e.state success now sample g e

  abbrev pub report_found :
      Bytes → Bool → ℕ → fl.number → Gate fl.number → Option (Entry fl.number) → Gate fl.number
  report_found key success now sample g none = g
  report_found key success now sample g (some e) = record g {
    keys = store key (report_entry success now sample g (refresh now g e)) g.keys;
  }

  -- `Report`; `sample` is what the random source gives.
  unfoldable pub report :
      Bytes → Bool → ℕ → fl.number → Gate fl.number → Result Error (Gate fl.number)
  report key success now sample g =
      if g.closed
      then err err_closed
      else ok (report_found key success now sample g (find key g.keys))

  abbrev pub gate_of : Config fl.number → Gate fl.number
  gate_of cfg = record {
    cfg = cfg;
    budget = fl.of_int cfg.trip_failures;
    closed = false;
    keys = [];
  }

  unfoldable pub new_gate : Config fl.number → Result Error (Gate fl.number)
  new_gate cfg = do resolved ← resolve_config fl cfg; ok (gate_of resolved)
