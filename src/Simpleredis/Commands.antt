-- ===== src/Simpleredis/Commands.antt =====
-- simpleredis/commands.go. `exec` is an argument: what a command answers, and the state of the server
-- behind it.
pub mod Group
pub mod Integers
pub mod Wire
pub mod Engines
mod Tests
use traefik_middleware_utili.Prelude.{
  ℕ, Bool, Bytes, List, Option, [], codes, false, if◌then◌else◌, leb, length, ltb, none, some, true,
  ◌^◌, ◌==◌, ◌∷◌, ◌-◌,
}
use traefik_middleware_utili.Prelude.Decimal.{digits_value, format_int}
use traefik_middleware_utili.Prelude.Int.{ℤ, pos, negsuc}
use traefik_middleware_utili.Prelude.Result.{Result, err, ok}
use traefik_middleware_utili.Simpleredis.Errors.{Error, issue, miss}
use traefik_middleware_utili.Simpleredis.Exec.{Values, exec}

abbrev pub Exec : Type 0 → Type 0
Exec S = List Bytes → S → Result Error Values × S

-- `strconv.ParseInt(s, 10, 64)`: a sign, then at least one digit, in the range of int64.
abbrev pub parse_digits : Bytes → Option ℕ
parse_digits [] = none
parse_digits (c ∷ cs) = digits_value 0 (c ∷ cs)

abbrev pub negated : ℕ → ℤ
negated n = if n == 0 then pos 0 else negsuc (n - 1)

abbrev pub with_sign : Bool → Option ℕ → Option ℤ
with_sign minus none = none
with_sign true (some n) = if leb n (2 ^ 63) then some (negated n) else none
with_sign false (some n) = if ltb n (2 ^ 63) then some (pos n) else none

unfoldable pub parse_int : Bytes → Option ℤ
parse_int [] = none
parse_int (c ∷ cs) =
    if c == b'-'
    then with_sign true (parse_digits cs)
    else if c == b'+'
    then with_sign false (parse_digits cs)
    else with_sign false (parse_digits (c ∷ cs))

abbrev pub or_issue {ℓ} : {A : Type ℓ} → Option A → Result Error A
or_issue none = err issue
or_issue (some a) = ok a

-- The text of a slot; a nil slice is the empty string.
abbrev pub slot_text : Option Bytes → Bytes
slot_text none = []
slot_text (some s) = s

unfoldable pub parse_integer_reply : Result Error Values → Result Error ℤ
parse_integer_reply (err e) = err e
parse_integer_reply (ok []) = err issue
parse_integer_reply (ok (v ∷ [])) = or_issue (parse_int (slot_text v))
parse_integer_reply (ok (v ∷ w ∷ vs)) = err issue

-- `Get` of what `exec` returned.
abbrev pub get_reply : Result Error Values → Result Error Bytes
get_reply (err e) = err e
get_reply (ok []) = err issue
get_reply (ok (none ∷ [])) = err miss
get_reply (ok (some s ∷ [])) = ok s
get_reply (ok (v ∷ w ∷ vs)) = err issue

abbrev pub mget_reply : List Bytes → Result Error Values → Result Error Values
mget_reply names (err e) = err e
mget_reply names (ok vs) = if length vs == length names then ok vs else err issue

-- The error of a command whose values are dropped.
abbrev pub error_of {ℓ} : {A : Type ℓ} → Result Error A → Option Error
error_of (ok a) = none
error_of (err e) = some e

module _ {S : Type 0} (exec : Exec S) where
  unfoldable pub get : Bytes → S → Result Error Bytes × S
  get name s = let r = exec (codes "GET" ∷ name ∷ []) s in (get_reply r.0, r.1)

  unfoldable pub mget : List Bytes → S → Result Error Values × S
  mget [] s = (ok [], s)
  mget (n ∷ ns) s = let r = exec (codes "MGET" ∷ n ∷ ns) s in (mget_reply (n ∷ ns) r.0, r.1)

  unfoldable pub set : Bytes → Bytes → ℤ → S → Option Error × S
  set name value duration s =
      let r = exec (codes "SET" ∷ name ∷ value ∷ codes "EX" ∷ format_int duration ∷ []) s in
      (error_of r.0, r.1)

  unfoldable pub del : Bytes → S → Option Error × S
  del name s = let r = exec (codes "DEL" ∷ name ∷ []) s in (error_of r.0, r.1)

  unfoldable pub incr : Bytes → S → Result Error ℤ × S
  incr name s = let r = exec (codes "INCR" ∷ name ∷ []) s in (parse_integer_reply r.0, r.1)

  unfoldable pub incr_by : Bytes → ℤ → S → Result Error ℤ × S
  incr_by name delta s =
      let r = exec (codes "INCRBY" ∷ name ∷ format_int delta ∷ []) s in
      (parse_integer_reply r.0, r.1)

  unfoldable pub expire : Bytes → ℤ → S → Option Error × S
  expire name seconds s =
      let r = exec (codes "EXPIRE" ∷ name ∷ format_int seconds ∷ []) s in (error_of r.0, r.1)

  unfoldable pub expire_at : Bytes → ℤ → S → Option Error × S
  expire_at name unix_seconds s =
      let r = exec (codes "EXPIREAT" ∷ name ∷ format_int unix_seconds ∷ []) s in (error_of r.0, r.1)
