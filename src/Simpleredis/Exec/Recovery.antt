-- ===== src/Simpleredis/Exec/Recovery.antt =====
-- A vintage of dead idle sockets costs one attempt: `skipIdle` never goes back, and one retry is
-- enough to reach a peer that accepts connections.
use native.Mathlib.Numerals.{add-one}
use traefik_middleware_utili.Prelude.{
  ℕ, Bool, Bool-cases, List, Option, [], false, inl, inr, none, not, refl, some, true, ◌&&◌, ◌<◌,
  ◌||◌, ◌∷◌, ◌≡◌, ◌⊎◌, arith, suc, zero,
}
use traefik_middleware_utili.Prelude.Int.{ℤ, pos, pos_part, negsuc}
use traefik_middleware_utili.Prelude.Result.{Result, err, ok}
use traefik_middleware_utili.Simpleredis.Errors.{Error, unreachable}
use traefik_middleware_utili.Simpleredis.Retry.{retry_limits, should_retry, is_unreachable}
use traefik_middleware_utili.Simpleredis.Exec.{
  exec, Attempt, Borrowed, Outcome, Values, after_borrow, after_run, after_stops, attempt_count,
  attempts, borrowed, first_attempts, not_borrowed, pause,
}

-- From the first borrow that skips the idle list on, all do.
abbrev pub Sticky : Bool → List Bool → Type 0
Sticky seen [] = Unit {0}
Sticky false (b ∷ bs) = Sticky b bs
Sticky true (b ∷ bs) = (b ≡ true) × Sticky true bs

Sticky-false : (bs : List Bool) → Sticky true bs → Sticky false bs
Sticky-false [] h = tt
Sticky-false (true ∷ bs) h = h.1
Sticky-false (false ∷ bs) h = cc

Sticky-or : (skip b : Bool) (bs : List Bool) → Sticky (skip || b) bs → Sticky skip bs
Sticky-or true b bs h = h
Sticky-or false true bs h = Sticky-false bs h
Sticky-or false false bs h = h

Sticky-noting : (skip : Bool) (bs : List Bool) → Sticky skip bs → Sticky skip (skip ∷ bs)
Sticky-noting true bs h = (refl, h)
Sticky-noting false bs h = h

after_run-Sticky :
    (owns skip idle : Bool) (r : Result Error Values) (again : Bool → Error → Outcome)
    → ((s : Bool) (e : Error) → Sticky s (again s e).borrows)
    → Sticky skip (after_run owns skip idle r again).borrows
after_run-Sticky owns skip idle (ok vs) again next = tt
after_run-Sticky owns skip idle (err e) again next = elim (Bool-cases (should_retry e false)) [
  | inl more ↦ rw more (Sticky-or skip (idle && is_unreachable e) _ (next _ e))
  | inr final ↦ rw final tt
]

after_borrow-Sticky :
    (owns skip : Bool) (a : Attempt) (b : Borrowed) (again : Bool → Error → Outcome)
    → ((s : Bool) (e : Error) → Sticky s (again s e).borrows)
    → Sticky skip (after_borrow owns skip a b again).borrows
after_borrow-Sticky owns skip a (borrowed idle) again next =
    after_run-Sticky owns skip idle (a.run idle) again next
after_borrow-Sticky owns skip a (not_borrowed e h) again next =
    elim (Bool-cases (a.closed || not (should_retry e h))) [
      | inl final ↦ rw final tt
      | inr more ↦ rw more (next skip e)
    ]

after_stops-Sticky :
    (owns skip : Bool) (s w : Option Error) (go : Outcome)
    → Sticky skip go.borrows
    → Sticky skip (after_stops owns s w go).borrows
after_stops-Sticky owns skip (some e) w go h = tt
after_stops-Sticky owns skip none (some e) go h = tt
after_stops-Sticky owns skip none none go h = h

attempts-Sticky :
    (owns : Bool) (as' : List Attempt) (first skip : Bool) (last : Option Error)
    → Sticky skip (attempts owns as' first skip last).borrows
unfolding attempts
attempts-Sticky owns [] first skip none = tt
attempts-Sticky owns [] first skip (some e) = tt
attempts-Sticky owns (a ∷ as') first skip last =
    after_stops-Sticky owns skip a.stop (pause first a) _ (
      Sticky-noting skip _ (
        after_borrow-Sticky owns skip a (a.borrow skip) _
          (λ s e. attempts-Sticky owns as' false s (some e))))

-- Once a command has bypassed the idle list it never goes back to it.
pub exec-Sticky :
    (c : Option Error) (owns : Bool) (max_retries : ℤ) (env : ℕ → Attempt)
    → Sticky false (exec c owns max_retries env).borrows
unfolding exec
exec-Sticky (some e) owns m env = tt
exec-Sticky none owns m env =
    attempts-Sticky owns
      (first_attempts (attempt_count (retry_limits m (pos 0) (pos 0)).retries) env 0) true false
      none

-- The peer accepts connections and answers on a new socket; a socket from the idle list may be dead.
pub record Accepts (a : Attempt) : Type 0 where
  pub in_time : a.stop ≡ none
  pub waited : a.wait ≡ none
  pub dials : a.borrow true ≡ borrowed false
  pub gives : (idle : Bool) × (a.borrow false ≡ borrowed idle)
  pub answers : (vs : Values) × (a.run false ≡ ok vs)
  pub idle_answers : (a.run true ≡ err unreachable) ⊎ ((vs : Values) × (a.run true ≡ ok vs))

Ends : Outcome → Type 0
Ends o = (vs : Values) × (o.result ≡ ok vs)

-- With `skipIdle` one attempt is enough.
attempts_skipping :
    (owns : Bool) (a : Attempt) (as' : List Attempt) (last : Option Error)
    → Accepts a
    → Ends (attempts owns (a ∷ as') false true last)
unfolding attempts Ends
attempts_skipping owns a as' last h = (h.answers.0, rw (h.in_time, h.waited, h.dials, h.answers.1))

-- Without it, two are.
recover_from :
    (owns : Bool) (a b : Attempt) (as' : List Attempt) (idle : Bool)
    → Accepts a
    → Accepts b
    → a.borrow false ≡ borrowed idle
    → (a.run true ≡ err unreachable) ⊎ ((vs : Values) × (a.run true ≡ ok vs))
    → Ends (attempts owns (a ∷ b ∷ as') true false none)
unfolding attempts Ends
recover_from owns a b as' false h k dialed idle = (h.answers.0, rw (h.in_time, dialed, h.answers.1))
recover_from owns a b as' true h k popped (inr (vs, alive)) = (vs, rw (h.in_time, popped, alive))
recover_from owns a b as' true h k popped (inl dead) =
    let again : Ends (attempts owns (b ∷ as') false true (some unreachable)) =
      attempts_skipping owns b as' (some unreachable) k in
    (again.0, rw (h.in_time, popped, dead) (unfold should_retry in again.1))

recovers_within :
    (owns : Bool) (z : ℤ) (env : ℕ → Attempt)
    → 0 < pos_part z
    → ((i : ℕ) → Accepts (env i))
    → Ends (attempts owns (first_attempts (attempt_count z) env 0) true false none)
unfolding attempt_count first_attempts
recovers_within owns (pos zero) env h peer = absurd (omega arith)
recovers_within owns (pos (suc k)) env h peer = rw (add-one (suc k)) (
    recover_from owns (env 0) (env 1) _ (peer 0).gives.0 (peer 0) (peer 1) (peer 0).gives.1
      (peer 0).idle_answers)
recovers_within owns (negsuc n) env h peer = absurd (omega arith)

-- With at least one retry, no context that fires, and a peer that accepts connections and answers on a
-- dialed socket, a command returns a reply, even if every socket from the idle list is dead.
pub exec_recovers :
    (owns : Bool) (max_retries : ℤ) (env : ℕ → Attempt)
    → 0 < pos_part (retry_limits max_retries (pos 0) (pos 0)).retries
    → ((i : ℕ) → Accepts (env i))
    → (vs : Values) × ((exec none owns max_retries env).result ≡ ok vs)
unfolding exec Ends
exec_recovers owns m env h peer = recovers_within owns _ env h peer
