-- ===== src/Backendbackoff/Invariant.antt =====
-- What every call of the gate keeps: no credit above the budget, a probe outstanding exactly in the
-- half-open state, and no more keys than the cap.
pub mod Calls
use traefik_middleware_utili.Prelude.{
  ℕ, Bool, Bytes, List, Option, arith, false, true, length, none, some, refl, ◌≡◌, ◌≤◌,
}
use traefik_middleware_utili.Float.{Float, IsLowered}
use traefik_middleware_utili.Keys.{find, store}
use traefik_middleware_utili.Keys.{max_memory_sources}
use traefik_middleware_utili.Keys.Room.{IsLoaded, load-IsLoaded}
use traefik_middleware_utili.Keys.Laws.{All, All-store, length-store_found, All-find}
use traefik_middleware_utili.Backendbackoff.Gate.{
  Entry, Gate, GateState, state_half_open, load_entry, allow_entry, new_entry,
  reset_n_if_closed_long_enough, allow_loaded, allow_state, refresh, state_closed, state_open,
  expiry,
}
use traefik_middleware_utili.Backendbackoff.Report.{
  report_entry, gain, lose, report_found, report_state,
}

abbrev pub is_half_open : GateState → Bool
is_half_open state_half_open = true
is_half_open _ = false

pub record IsKept (fl : Float) (budget : fl.number) (e : Entry fl.number) : Type 0 where
  pub within : fl.lt budget e.credit ≡ false
  pub probing : e.probe_outstanding ≡ is_half_open e.state

pub record IsSound (fl : Float) (g : Gate fl.number) : Type 0 where
  pub entries : All (IsKept fl g.budget) g.keys
  pub capped : length g.keys ≤ max_memory_sources

new_entry-IsKept :
    (fl : Float) (budget : fl.number) (now : ℕ)
    → IsLowered fl
    → IsKept fl budget (new_entry budget now)
new_entry-IsKept fl budget now laws = record { within = laws.irreflexive budget; probing = refl }

pub load_entry-IsLoaded :
    (fl : Float) (pick now : ℕ) (key : Bytes) (g : Gate fl.number)
    → IsLowered fl
    → IsSound fl g
    → IsLoaded (IsKept fl g.budget) key (load_entry pick now key g)
unfolding load_entry
load_entry-IsLoaded fl pick now key g laws s =
    load-IsLoaded expiry (IsKept fl g.budget) (new_entry g.budget now) pick now key g.keys
      (new_entry-IsKept fl g.budget now laws) s.entries s.capped

allow_state-IsKept :
    (fl : Float) (st : GateState) (now : ℕ) (g : Gate fl.number) (e : Entry fl.number)
    → e.state ≡ st
    → IsKept fl g.budget e
    → IsKept fl g.budget (allow_state st now g e).1
unfolding reset_n_if_closed_long_enough
allow_state-IsKept fl state_closed now g e q k = record {
  within = ground (arith, k.within);
  probing = ground (arith, k.probing);
}
allow_state-IsKept fl state_open now g e q k = record {
  within = ground (arith, k.within);
  probing = ground (arith, k.probing);
}
allow_state-IsKept fl state_half_open now g e q k = record {
  within = ground (arith, k.within);
  probing = ground (arith, k.probing);
}

-- An entry that replaces that of a stored key.
store-IsSound :
    (fl : Float) (key : Bytes) (g : Gate fl.number) (m : List (Bytes × Entry fl.number))
    (e e' : Entry fl.number)
    → find key m ≡ some e
    → All (IsKept fl g.budget) m
    → length m ≤ max_memory_sources
    → IsKept fl g.budget e'
    → IsSound fl (record g { keys = store key e' m })
store-IsSound fl key g m e e' q h le k = record {
  entries = All-store (IsKept fl g.budget) key e' m k h;
  capped = omega (arith, le, length-store_found key e' e m q);
}

lose-IsKept :
    (fl : Float) (now : ℕ) (sample : fl.number) (g : Gate fl.number) (e : Entry fl.number)
    → IsLowered fl
    → e.state ≡ state_closed
    → IsKept fl g.budget e
    → IsKept fl g.budget (lose fl now sample g e)
unfolding reset_n_if_closed_long_enough
lose-IsKept fl now sample g e laws q k = record {
  within = ground (arith, laws.lowered g.budget e.credit k.within);
  probing = ground (arith, k.probing);
}

gain-IsKept :
    (fl : Float) (g : Gate fl.number) (e : Entry fl.number)
    → IsLowered fl
    → IsKept fl g.budget e
    → IsKept fl g.budget (gain fl g e)
gain-IsKept fl g e laws k = record {
  within = ground (arith, laws.irreflexive g.budget);
  probing = k.probing;
}

report_state-IsKept :
    (fl : Float) (st : GateState) (success : Bool) (now : ℕ) (sample : fl.number)
    (g : Gate fl.number) (e : Entry fl.number)
    → IsLowered fl
    → e.state ≡ st
    → IsKept fl g.budget e
    → IsKept fl g.budget (report_state fl st success now sample g e)
report_state-IsKept fl state_open success now sample g e laws q k = k
report_state-IsKept fl state_closed true now sample g e laws q k = gain-IsKept fl g e laws k
report_state-IsKept fl state_closed false now sample g e laws q k =
    lose-IsKept fl now sample g e laws q k
report_state-IsKept fl state_half_open success now sample g e laws q k = record {
  within = ground (arith, k.within, laws.irreflexive g.budget);
  probing = ground (arith, k.probing);
}

refresh-IsKept :
    (fl : Float) (now : ℕ) (g : Gate fl.number) (e : Entry fl.number)
    → IsKept fl g.budget e
    → IsKept fl g.budget (refresh now g e)
refresh-IsKept fl now g e k = record { within = k.within; probing = k.probing }

pub allow_loaded-IsSound :
    (fl : Float) (now : ℕ) (key : Bytes) (g : Gate fl.number)
    (p : List (Bytes × Entry fl.number) × Entry fl.number)
    → IsLoaded (IsKept fl g.budget) key p
    → IsSound fl (allow_loaded now key g p).1
unfolding allow_entry
allow_loaded-IsSound fl now key g (m, e) l =
    let k : IsKept fl g.budget e = All-find (IsKept fl g.budget) key e m l.there l.entries in
    store-IsSound fl key g m e _ l.there l.entries l.capped
      (allow_state-IsKept fl e.state now g (refresh now g e) refl (refresh-IsKept fl now g e k))

pub report_found-IsSound :
    (fl : Float) (key : Bytes) (success : Bool) (now : ℕ) (sample : fl.number) (g : Gate fl.number)
    → IsLowered fl
    → IsSound fl g
    → (o : Option (Entry fl.number)) → find key g.keys ≡ o
    → IsSound fl (report_found fl key success now sample g o)
unfolding report_entry
report_found-IsSound fl key success now sample g laws s none q = s
report_found-IsSound fl key success now sample g laws s (some e) q =
    let k : IsKept fl g.budget e = All-find (IsKept fl g.budget) key e g.keys q s.entries in
    store-IsSound fl key g g.keys e _ q s.entries s.capped (
      report_state-IsKept fl e.state success now sample g (refresh now g e) laws refl
        (refresh-IsKept fl now g e k))
