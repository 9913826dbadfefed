-- ===== src/Simpleredis/Dial.antt =====
-- simpleredis/pool.go: `dial`, and what `exec` makes of its failures.
mod Tests
use native.Mathlib.Numerals.{add-one}
use traefik_middleware_utili.Prelude.{Bool-cases, inl, inr, List, ap, arith, ◌∙◌}
use traefik_middleware_utili.Prelude.{
  ℕ, Bool, Bytes, Option, [], false, if◌then◌else◌, none, not, some, true, ◌∷◌, ◌≡◌, ◌≢◌, ◌↔◌, refl,
}
use traefik_middleware_utili.Prelude.Int.{ℤ, pos, ◌≤ℤ◌, negsuc}
use traefik_middleware_utili.Prelude.Result.{err}
use traefik_middleware_utili.Simpleredis.Errors.{Error, unreachable}
use traefik_middleware_utili.Simpleredis.Retry.{retry_limits, should_retry}
use traefik_middleware_utili.Simpleredis.Exec.{
  exec, Attempt, Borrowed, borrowed, library_timeout, not_borrowed, attempt_count, attempts,
  first_attempts,
}
use traefik_middleware_utili.Simpleredis.Conn.{Socket, do_command}

-- What `dial` meets: the context before and after the connection attempt, whether it worked, and what
-- AUTH and SELECT meet on the new socket.
pub record Network : Type 0 where
  pub stop_start : Option Error
  pub connects : Bool
  pub stop_dial : Option Error
  pub auth : Socket
  pub select : Socket

-- The error with `handshakeFailed`; after a failed handshake the socket is closed.
pub data Dialed : Type 0 where
  connected : Dialed
  not_connected : Error → Bool → Dialed

abbrev pub is_empty : Bytes → Bool
is_empty [] = true
is_empty (c ∷ cs) = false

abbrev pub after_step : Option Error → Dialed → Dialed
after_step (some e) go = not_connected e true
after_step none go = go

-- One step of the handshake, if it is wanted.
abbrev pub handshake : Bool → Socket → Dialed → Dialed
handshake wanted s go = if wanted then after_step (do_command s).error go else go

abbrev pub refused_by : Option Error → Dialed
refused_by (some stop) = not_connected stop false
refused_by none = not_connected unreachable false

abbrev pub after_stop : Option Error → Dialed → Dialed
after_stop (some stop) go = not_connected stop false
after_stop none go = go

unfoldable pub dial : Bytes → Bytes → Network → Dialed
dial pass database n = after_stop n.stop_start (
    if n.connects
    then handshake (not (is_empty pass)) n.auth
        (handshake (not (is_empty database)) n.select connected)
    else refused_by n.stop_dial)

-- What `borrowSocket` returns after `dial`.
abbrev pub dial_borrow : Dialed → Borrowed
dial_borrow connected = borrowed false
dial_borrow (not_connected e handshake_failed) = not_borrowed e handshake_failed

some_not_none : {e : Error} → ◌≢◌ {A = Option Error} (some e) none
some_not_none q = cc

false_not_true : false ≢ true
false_not_true q = cc

step_iff :
    (e : Option Error) (go : Dialed)
    → (after_step e go ≡ connected) ↔ ((e ≡ none) × (go ≡ connected))
step_iff none go = (λ q. (refl, q), λ h. h.1)
step_iff (some e) go = (λ q. cc, λ h. absurd (some_not_none h.0))

handshake_iff :
    (text : Bytes) (s : Socket) (go : Dialed)
    → (handshake (not (is_empty text)) s go ≡ connected)
      ↔ ((text ≢ [] → (do_command s).error ≡ none) × (go ≡ connected))
handshake_iff [] s go = (λ q. (λ d. absurd (d refl), q), λ h. h.1)
handshake_iff (c ∷ cs) s go =
    let step = step_iff (do_command s).error go in
    (λ q. (λ d. (step.0 q).0, (step.0 q).1), λ h. step.1 (h.0 (λ e. cc), h.1))

refused_by_fails : (stop : Option Error) → refused_by stop ≢ connected
refused_by_fails none q = cc
refused_by_fails (some e) q = cc

opened_iff :
    (stop : Option Error) (connects : Bool) (stop_dial : Option Error) (go : Dialed)
    → (after_stop stop (if connects then go else refused_by stop_dial) ≡ connected)
      ↔ ((stop ≡ none) × (connects ≡ true) × (go ≡ connected))
opened_iff (some e) connects stop_dial go = (λ q. cc, λ h. absurd (some_not_none h.0))
opened_iff none true stop_dial go = (λ q. (refl, refl, q), λ h. h.2)
opened_iff none false stop_dial go =
    (λ q. absurd (refused_by_fails stop_dial q), λ h. absurd (false_not_true h.1))

-- A dialed socket is used only after the context was live, the connection worked, and AUTH with a
-- password and SELECT with a database, where they are configured, returned no error; and then it is
-- used.
pub dial_connected_iff :
    (pass database : Bytes) (n : Network)
    → (dial pass database n ≡ connected) ↔ (
        (n.stop_start ≡ none)
        × (n.connects ≡ true)
        × (pass ≢ [] → (do_command n.auth).error ≡ none)
        × (database ≢ [] → (do_command n.select).error ≡ none))
unfolding dial
dial_connected_iff pass database n =
    let rest = handshake (not (is_empty database)) n.select connected in
    let opened =
      opened_iff n.stop_start n.connects n.stop_dial
        (handshake (not (is_empty pass)) n.auth rest) in
    let auth = handshake_iff pass n.auth rest in
    let select = handshake_iff database n.select connected in
    (
      λ q. let o = opened.0 q in let a = auth.0 o.2 in (o.0, o.1, a.0, (select.0 a.1).0),
      λ h. opened.1 (h.0, h.1, auth.1 (h.2, select.1 (h.3, refl))),
    )

never_retried : (e : Error) → should_retry e true ≡ false
unfolding should_retry
never_retried e = ground arith

-- A borrow whose handshake failed is the last one.
one_borrow :
    (owns : Bool) (a : Attempt) (as' : List Attempt) (e : Error)
    → a.stop ≡ none
    → a.borrow false ≡ not_borrowed e true
    → attempts owns (a ∷ as') true false none
      ≡ record { result = err (library_timeout e owns); borrows = false ∷ [] }
unfolding attempts
one_borrow owns a as' e live b = elim (Bool-cases a.closed) [
  | inl c ↦ rw (live, b, never_retried e, c) refl
  | inr c ↦ rw (live, b, never_retried e, c) refl
]

auth_refused :
    (pass database : Bytes) (n : Network) (e : Error)
    → pass ≢ []
    → n.stop_start ≡ none
    → n.connects ≡ true
    → (do_command n.auth).error ≡ some e
    → dial pass database n ≡ not_connected e true
unfolding dial
auth_refused [] database n e p s c a = absurd (p refl)
auth_refused (x ∷ xs) database n e p s c a = rw (s, c, a) refl

first_borrow :
    (owns : Bool) (r : ℤ) (env : ℕ → Attempt) (e : Error)
    → pos 0 ≤ℤ r
    → (env 0).stop ≡ none
    → (env 0).borrow false ≡ not_borrowed e true
    → attempts owns (first_attempts (attempt_count r) env 0) true false none
      ≡ record { result = err (library_timeout e owns); borrows = false ∷ [] }
unfolding attempt_count first_attempts
first_borrow owns (pos k) env e h live b =
    rw (add-one k) (one_borrow owns (env 0) (first_attempts k env 1) e live b)
first_borrow owns (negsuc k) env e h live b = absurd (omega arith)

-- When AUTH fails in the first dial of a command, on a live context, the command fails with that error,
-- through `library_timeout`, and borrows no more, for a retry limit of at least zero.
pub exec_auth_refused :
    (pass database : Bytes) (n : Network) (owns : Bool) (max_retries : ℤ) (env : ℕ → Attempt)
    (e : Error)
    → pos 0 ≤ℤ (retry_limits max_retries (pos 0) (pos 0)).retries
    → pass ≢ []
    → n.stop_start ≡ none
    → n.connects ≡ true
    → (do_command n.auth).error ≡ some e
    → (env 0).stop ≡ none
    → (env 0).borrow false ≡ dial_borrow (dial pass database n)
    → exec none owns max_retries env
      ≡ record { result = err (library_timeout e owns); borrows = false ∷ [] }
unfolding exec
exec_auth_refused pass database n owns max_retries env e m p s c a live b =
    first_borrow owns (retry_limits max_retries (pos 0) (pos 0)).retries env e m live
      (b ∙ ap dial_borrow (auth_refused pass database n e p s c a))
