-- ===== src/Simpleredis/Exec.antt =====
-- simpleredis/commands_exec.go: `exec` and its deadline. What a socket, a clock or the pool answers
-- during one attempt is an `Attempt`; the loop over the attempts is the code's.
pub mod Retries
pub mod Recovery
use traefik_middleware_utili.Prelude.{
  ℕ, Bool, Bytes, List, Option, [], false, if◌then◌else◌, leb, none, not, some, suc, true, zero,
  ◌&&◌, ◌+◌, ◌||◌, ◌∷◌,
}
use traefik_middleware_utili.Prelude.Int.{ℤ, negsuc, pos}
use traefik_middleware_utili.Prelude.Result.{Result, err, ok}
use traefik_middleware_utili.Simpleredis.Errors.{Error, deadline_exceeded, timeout}
use traefik_middleware_utili.Simpleredis.Retry.{retry_limits, should_retry, is_unreachable}

-- What `borrowSocket` returns: a socket, from the idle list or dialed, or an error with its
-- `handshakeFailed`.
pub data Borrowed : Type 0 where
  borrowed : Bool → Borrowed
  not_borrowed : Error → Bool → Borrowed

abbrev pub Values : Type 0
Values = List (Option Bytes)

-- One attempt: `contextStop` at its start, what `waitUntil` returned, whether the client is closed
-- after a failed borrow, the answer to a borrow with or without `skipIdle`, and of `runOnConn` on a
-- socket from the idle list or a dialed one.
pub record Attempt : Type 0 where
  pub stop : Option Error
  pub wait : Option Error
  pub closed : Bool
  pub borrow : Bool → Borrowed
  pub run : Bool → Result Error Values

-- `libraryTimeout`: a deadline that the library set is its timeout.
unfoldable pub library_timeout : Error → Bool → Error
library_timeout deadline_exceeded true = timeout
library_timeout e owns = e

-- `bindCommandDeadline`: the deadline that holds, and whether the library owns it.
unfoldable pub bind_command_deadline : ℕ → ℕ → Option ℕ → ℕ × Bool
bind_command_deadline now command_timeout none = (now + command_timeout, true)
bind_command_deadline now command_timeout (some parent) =
    if leb parent (now + command_timeout) then (parent, false) else (now + command_timeout, true)

-- What `exec` returns, with the borrows that it made: `skipIdle` of each, in order.
pub record Outcome : Type 0 where
  pub result : Result Error Values
  pub borrows : List Bool

abbrev pub stopped : Bool → Error → Outcome
stopped owns e = record { result = err (library_timeout e owns); borrows = [] }

abbrev pub noting : Bool → Outcome → Outcome
noting skip o = record o { borrows = skip ∷ o.borrows }

-- After the last attempt.
abbrev pub give_up : Bool → Option Error → Outcome
give_up owns none = record { result = err timeout; borrows = [] }
give_up owns (some e) = stopped owns e

-- After a failed run on a socket that came from the idle list or not.
abbrev pub after_run : Bool → Bool → Bool → Result Error Values → (Bool → Error → Outcome) → Outcome
after_run owns skip from_idle (ok vs) again = record { result = ok vs; borrows = [] }
after_run owns skip from_idle (err e) again =
    let next = again (skip || (from_idle && is_unreachable e)) e in
    if should_retry e false then next else stopped owns e

abbrev pub after_borrow : Bool → Bool → Attempt → Borrowed → (Bool → Error → Outcome) → Outcome
after_borrow owns skip a (not_borrowed e handshake_failed) again =
    let next = again skip e in
    if a.closed || not (should_retry e handshake_failed) then stopped owns e else next
after_borrow owns skip a (borrowed from_idle) again =
    after_run owns skip from_idle (a.run from_idle) again

-- The wait before every attempt but the first.
abbrev pub pause : Bool → Attempt → Option Error
pause first a = if first then none else a.wait

abbrev pub after_stops : Bool → Option Error → Option Error → Outcome → Outcome
after_stops owns (some e) w go = stopped owns e
after_stops owns none (some e) go = stopped owns e
after_stops owns none none go = go

-- The loop over the attempts that are left: whether it is the first, `skipIdle` and `last`.
unfoldable pub attempts : Bool → List Attempt → Bool → Bool → Option Error → Outcome
attempts owns [] first skip last = give_up owns last
attempts owns (a ∷ as') first skip last = after_stops owns a.stop (pause first a) (
    noting skip (
      after_borrow owns skip a (a.borrow skip) (λ skip' e. attempts owns as' false skip' (some e))))

-- `for attempt := 0; attempt <= maxRetries; attempt++`.
unfoldable pub attempt_count : ℤ → ℕ
attempt_count (pos n) = n + 1
attempt_count (negsuc n) = 0

-- The attempts in turn, as far as the loop's bound goes.
unfoldable pub first_attempts : ℕ → (ℕ → Attempt) → ℕ → List Attempt
first_attempts zero env i = []
first_attempts (suc n) env i = env i ∷ first_attempts n env (i + 1)

-- `canceled` is what `ctx.Err()` is at the call; `owns` comes from `bind_command_deadline`.
unfoldable pub exec : Option Error → Bool → ℤ → (ℕ → Attempt) → Outcome
exec (some e) owns max_retries env = record { result = err e; borrows = [] }
exec none owns max_retries env =
    attempts owns
      (first_attempts (attempt_count (retry_limits max_retries (pos 0) (pos 0)).retries) env 0) true
      false none
