-- ===== src/Simpleredis/Exec/Retries.antt =====
-- How often a command is sent, and what the caller sees of a deadline.
use traefik_middleware_utili.Prelude.Result.{Result, err, ok}
use traefik_middleware_utili.Prelude.{
  ℕ, Bool, List, Option, [], ap, arith, false, length, none, refl, some, suc, true, zero, ◌+◌, ◌∷◌,
  ◌≡◌, ◌≤◌, Bool-cases, inl, inr, not, ◌&&◌, ◌||◌, ◌≢◌,
}
use traefik_middleware_utili.Prelude.Int.{ℤ, pos}
use traefik_middleware_utili.Simpleredis.Errors.{Error, deadline_exceeded, timeout}
use traefik_middleware_utili.Simpleredis.Retry.{retry_limits, is_unreachable, should_retry}
use traefik_middleware_utili.Simpleredis.Exec.{
  exec, Attempt, Borrowed, Outcome, after_borrow, attempt_count, attempts, borrowed, first_attempts,
  not_borrowed, Values, after_run, after_stops, library_timeout, pause,
}

after_run-borrows :
    (owns skip idle : Bool) (r : Result Error Values) (again : Bool → Error → Outcome) (n : ℕ)
    → ((s : Bool) (e : Error) → length (again s e).borrows ≤ n)
    → length (after_run owns skip idle r again).borrows ≤ n
after_run-borrows owns skip idle (ok vs) again n few = omega arith
after_run-borrows owns skip idle (err e) again n few =
    ground (arith, few (skip || (idle && is_unreachable e)) e)

after_borrow-borrows :
    (owns skip : Bool) (a : Attempt) (b : Borrowed) (again : Bool → Error → Outcome) (n : ℕ)
    → ((s : Bool) (e : Error) → length (again s e).borrows ≤ n)
    → length (after_borrow owns skip a b again).borrows ≤ n
after_borrow-borrows owns skip a (not_borrowed e h) again n few = ground (arith, few skip e)
after_borrow-borrows owns skip a (borrowed idle) again n few =
    after_run-borrows owns skip idle (a.run idle) again n few

after_stops-borrows :
    (owns : Bool) (s w : Option Error) (go : Outcome) (n : ℕ)
    → length go.borrows ≤ n
    → length (after_stops owns s w go).borrows ≤ n
after_stops-borrows owns (some e) w go n h = omega arith
after_stops-borrows owns none (some e) go n h = omega arith
after_stops-borrows owns none none go n h = h

attempts-borrows :
    (owns : Bool) (as' : List Attempt) (first skip : Bool) (last : Option Error)
    → length (attempts owns as' first skip last).borrows ≤ length as'
unfolding attempts
attempts-borrows owns [] first skip none = omega arith
attempts-borrows owns [] first skip (some e) = omega arith
attempts-borrows owns (a ∷ as') first skip last =
    let again : Bool → Error → Outcome = λ s e. attempts owns as' false s (some e) in
    let few : length (after_borrow owns skip a (a.borrow skip) again).borrows ≤ length as' =
      after_borrow-borrows owns skip a (a.borrow skip) again (length as')
        (λ s e. attempts-borrows owns as' false s (some e)) in
    after_stops-borrows owns a.stop (pause first a) _ (suc (length as')) (omega arith)

length-first_attempts : (n : ℕ) (env : ℕ → Attempt) (i : ℕ) → length (first_attempts n env i) ≡ n
unfolding first_attempts
length-first_attempts zero env i = refl
length-first_attempts (suc n) env i = ap suc (length-first_attempts n env (i + 1))

-- A command borrows at most `maxRetries + 1` sockets: once with -1, four times with 0.
pub exec_borrows :
    (c : Option Error) (owns : Bool) (max_retries : ℤ) (env : ℕ → Attempt)
    → length (exec c owns max_retries env).borrows
      ≤ attempt_count (retry_limits max_retries (pos 0) (pos 0)).retries
unfolding exec
exec_borrows (some e) owns m env = omega arith
exec_borrows none owns m env = omega (
  arith,
  attempts-borrows owns (first_attempts _ env 0) true false none,
  length-first_attempts (attempt_count (retry_limits m (pos 0) (pos 0)).retries) env 0,
)

-- `P` of every result that the loop can return.
module _ {ℓ} (P : Result Error Values → Type ℓ) (owns : Bool) (keep : (vs : Values) → P (ok vs))
    (fail : (e : Error) → P (err (library_timeout e owns)))
    (out_of_attempts : P (err timeout)) where
  attempts_result :
      (as' : List Attempt) (first skip : Bool) (last : Option Error)
      → P (attempts owns as' first skip last).result
  unfolding attempts
  attempts_result [] first skip none = out_of_attempts
  attempts_result [] first skip (some e) = fail e
  attempts_result (a ∷ as') first skip last =
      stops a.stop (pause first a) _
        (borrow (a.borrow skip) _ (λ s e. attempts_result as' false s (some e)))
    where
      run :
          (idle : Bool) (r : Result Error Values) (again : Bool → Error → Outcome)
          → ((s : Bool) (e : Error) → P (again s e).result)
          → P (after_run owns skip idle r again).result
      run idle (ok vs) again next = keep vs
      run idle (err e) again next = elim (Bool-cases (should_retry e false)) [
        | inl more ↦ rw more (next _ e)
        | inr final ↦ rw final (fail e)
      ]

      borrow :
          (b : Borrowed) (again : Bool → Error → Outcome)
          → ((s : Bool) (e : Error) → P (again s e).result)
          → P (after_borrow owns skip a b again).result
      borrow (borrowed idle) again next = run idle (a.run idle) again next
      borrow (not_borrowed e h) again next =
          elim (Bool-cases (a.closed || not (should_retry e h))) [
            | inl final ↦ rw final (fail e)
            | inr more ↦ rw more (next skip e)
          ]

      stops : (s w : Option Error) (go : Outcome) → P go.result → P (after_stops owns s w go).result
      stops (some e) w go h = fail e
      stops none (some e) go h = fail e
      stops none none go h = h

library_timeout-owned : (e : Error) → library_timeout e true ≢ deadline_exceeded
unfolding library_timeout
library_timeout-owned deadline_exceeded = λ q. cc
library_timeout-owned e = λ q. cc

-- While the deadline is the library's own, and had not passed at the call, the caller never sees the context's error for it.
pub exec_deadline :
    (max_retries : ℤ) (env : ℕ → Attempt)
    → (exec none true max_retries env).result ≢ err deadline_exceeded
unfolding exec
exec_deadline m env =
    attempts_result (λ r. r ≢ err deadline_exceeded) true (λ vs q. cc)
      (λ e q. library_timeout-owned e (ground arith)) (λ q. cc)
      (first_attempts (attempt_count (retry_limits m (pos 0) (pos 0)).retries) env 0) true false
      none
