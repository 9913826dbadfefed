-- ===== src/Backendbackoff/Invariant/Calls.antt =====
-- The invariant of the gate through every sequence of calls.
use traefik_middleware_utili.Prelude.Result.{ok, ◌>>=◌}
use traefik_middleware_utili.Prelude.{
  ℕ, Bool, Bytes, arith, false, true, refl, ◌≡◌, ap, if◌then◌else◌,
}
use traefik_middleware_utili.Prelude.Result.{Result, err, ok}
use traefik_middleware_utili.Backendbackoff.Config.{Config, Error, resolve_config, err_closed}
use traefik_middleware_utili.Float.{Float, IsLowered}
use traefik_middleware_utili.Keys.{find}
use traefik_middleware_utili.Backendbackoff.Gate.{
  Gate, load_entry, Answer, allow, allow_loaded, close,
}
use traefik_middleware_utili.Backendbackoff.Report.{gate_of, new_gate, report, report_found}
use traefik_middleware_utili.Backendbackoff.Invariant.{
  IsSound, allow_loaded-IsSound, load_entry-IsLoaded, report_found-IsSound,
}

-- One call of the gate, that succeeded.
pub data Call (fl : Float) (g : Gate fl.number) : Gate fl.number → Type 0 where
  allows :
      (pick now : ℕ) (key : Bytes) (a : Answer) {g' : Gate fl.number}
      → allow pick now key g ≡ ok (a, g')
      → Call fl g g'
  reports :
      (key : Bytes) (success : Bool) (now : ℕ) (sample : fl.number) {g' : Gate fl.number}
      → report fl key success now sample g ≡ ok g'
      → Call fl g g'
  closes : Call fl g (close g)

pub data Calls (fl : Float) (g : Gate fl.number) : Gate fl.number → Type 0 where
  none_yet : Calls fl g g
  then_call : {h i : Gate fl.number} → Calls fl g h → Call fl h i → Calls fl g i

ok_injective : {A : Type 0} {x y : A} → ◌≡◌ {A = Result Error A} (ok x) (ok y) → x ≡ y
ok_injective q = cc

-- What a call returned, that was not refused.
not_refused :
    {A : Type 0} (c : Bool) (x : A) {y : A}
    → ◌≡◌ {A = Result Error A} (if c then err err_closed else ok x) (ok y)
    → x ≡ y
not_refused true x q = cc
not_refused false x q = ok_injective q

allow-IsSound :
    (fl : Float) (pick now : ℕ) (key : Bytes) (g : Gate fl.number) (a : Answer)
    (g' : Gate fl.number)
    → IsLowered fl
    → IsSound fl g
    → allow pick now key g ≡ ok (a, g')
    → IsSound fl g'
unfolding allow
allow-IsSound fl pick now key g a g' laws s q =
    let p = load_entry pick now key g in
    let same : (allow_loaded now key g p).1 ≡ g' =
      ap (λ r. r.1) (not_refused g.closed (allow_loaded now key g p) q) in
    rw (← same) (allow_loaded-IsSound fl now key g p (load_entry-IsLoaded fl pick now key g laws s))

report-IsSound :
    (fl : Float) (key : Bytes) (success : Bool) (now : ℕ) (sample : fl.number)
    (g g' : Gate fl.number)
    → IsLowered fl
    → IsSound fl g
    → report fl key success now sample g ≡ ok g'
    → IsSound fl g'
unfolding report
report-IsSound fl key success now sample g g' laws s q =
    let found = find key g.keys in
    let same : report_found fl key success now sample g found ≡ g' =
      not_refused g.closed (report_found fl key success now sample g found) q in
    rw (← same) (report_found-IsSound fl key success now sample g laws s found refl)

Call-IsSound :
    (fl : Float) (g g' : Gate fl.number)
    → IsLowered fl
    → IsSound fl g
    → Call fl g g'
    → IsSound fl g'
unfolding close
Call-IsSound fl g g' laws s (allows pick now key a q) =
    allow-IsSound fl pick now key g a g' laws s q
Call-IsSound fl g g' laws s (reports key success now sample q) =
    report-IsSound fl key success now sample g g' laws s q
Call-IsSound fl g _ laws s closes = record { entries = tt; capped = omega arith }

fresh_gate-IsSound :
    (fl : Float) (g : Gate fl.number) (r : Result Error (Config fl.number))
    → (r >>= λ c. ok (gate_of fl c)) ≡ ok g
    → IsSound fl g
fresh_gate-IsSound fl g (err e) q = cc
fresh_gate-IsSound fl g (ok c) q =
    let same : gate_of fl c ≡ g = ok_injective q in
    rw (← same) (record { entries = tt; capped = omega arith })

-- Through every sequence of calls on a new gate no key has more credit than the budget, a probe is
-- outstanding exactly in the half-open state, and at most 65536 keys are stored, for a float whose
-- order is irreflexive and whose subtraction of one does not raise a number above a bound.
pub Calls-IsSound :
    (fl : Float) (cfg : Config fl.number) (g g' : Gate fl.number)
    → IsLowered fl
    → new_gate fl cfg ≡ ok g
    → Calls fl g g'
    → IsSound fl g'
unfolding new_gate
Calls-IsSound fl cfg g g' laws q none_yet = fresh_gate-IsSound fl g (resolve_config fl cfg) q
Calls-IsSound fl cfg g g' laws q (then_call {h = h} c k) =
    Call-IsSound fl h g' laws (Calls-IsSound fl cfg g h laws q c) k
