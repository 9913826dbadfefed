-- ===== src/Backendbackoff/Probe.antt =====
-- The half-open state lets one attempt through.
use traefik_middleware_utili.Keys.Room.{load_live}
use traefik_middleware_utili.Keys.Laws.{find-store}
use traefik_middleware_utili.Prelude.{
  ℕ, Bytes, false, some, refl, ◌+◌, ◌≡◌, ◌≤◌, ◌<◌, ◌-◌, lt→ltb, Bool, ap, if◌then◌else◌, le→ltb,
  true, ◌∙◌,
}
use traefik_middleware_utili.Prelude.Result.{ok}
use traefik_middleware_utili.Keys.{find, store}
use traefik_middleware_utili.Backendbackoff.Gate.{
  allow_entry, allow_state, base_of, ttl_of, with_entry, Entry, Gate, state_open, allow, load_entry,
  deny, admit, refresh, GateState, allow_loaded, start_probe, state_closed, state_half_open, expiry,
  new_entry,
}

-- An open key that has not been idle for the ttl.
pub record IsOpen {R : Type 0} (key : Bytes) (now : ℕ) (g : Gate R) (e : Entry R) : Type 0 where
  pub open_gate : g.closed ≡ false
  pub stored : find key g.keys ≡ some e
  pub not_idle : now < e.expire_at
  pub state : e.state ≡ state_open

pub not_refused : {A : Type 0} (c : Bool) (x y : A) → c ≡ false → (if c then y else x) ≡ x
not_refused false x y q = refl
not_refused true x y q = cc

-- `Allow` of a stored key that has not expired changes its entry alone.
pub allow_live :
    {R : Type 0} (pick now : ℕ) (key : Bytes) (g : Gate R) (e : Entry R)
    → g.closed ≡ false
    → find key g.keys ≡ some e
    → now < e.expire_at
    → allow pick now key g ≡ ok (with_entry key g g.keys (allow_entry now g (refresh now g e)))
unfolding allow load_entry
allow_live pick now key g e c q l =
    not_refused g.closed _ _ c
    ∙ ap (λ p. ok (allow_loaded now key g p))
        (load_live expiry (new_entry g.budget now) e pick now key g.keys q l)

-- A cooldown that is over starts a probe.
allow_cooled :
    {R : Type 0} (st : GateState) (now : ℕ) (g : Gate R) (e : Entry R)
    → st ≡ state_open
    → e.open_until ≤ now
    → allow_state st now g e ≡ (admit, start_probe now g e)
allow_cooled state_open now g e q h = rw (le→ltb now e.open_until h) refl
allow_cooled state_closed now g e q h = cc
allow_cooled state_half_open now g e q h = cc

-- Of an open key whose cooldown is over, and that is not idle for the ttl, `Allow` admits one attempt
-- as a probe. Until the probe's deadline, and within the ttl, it denies the next one, and says how
-- long the deadline is away.
pub allow_single_probe :
    {R : Type 0} (pick pick' now later : ℕ) (key : Bytes) (g : Gate R) (e : Entry R)
    → IsOpen key now g e
    → e.open_until ≤ now
    → later < now + base_of g
    → later < now + ttl_of g
    → (g' : Gate R) × (g'' : Gate R) × (allow pick now key g ≡ ok (admit, g'))
      × (allow pick' later key g' ≡ ok (deny (now + base_of g - later), g''))
unfolding allow_entry
allow_single_probe {R = R} pick pick' now later key g e o w b t =
    let e' : Entry R = start_probe now g (refresh now g e) in
    let g' : Gate R = record g { keys = store key e' g.keys } in
    let denied : allow_entry later g' (refresh later g' e')
        ≡ (deny (now + base_of g - later), refresh later g' e') =
      rw (lt→ltb later (now + base_of g) b) refl in
    (
      g',
      record g' { keys = store key (refresh later g' e') g'.keys },
      allow_live pick now key g e o.open_gate o.stored o.not_idle
          ∙ ap (λ a. ok (with_entry key g g.keys a))
              (allow_cooled e.state now g (refresh now g e) o.state w),
      allow_live pick' later key g' e' o.open_gate (find-store key e' g.keys) t
          ∙ ap (λ a. ok (with_entry key g' g'.keys a)) denied,
    )
