-- ===== src/Simpleredis/Resp/ParseLen.antt =====
-- `parseLen` of simpleredis/resp.go.
pub mod Laws
use traefik_middleware_utili.Prelude.{
  ℕ, zero, suc, ◌+◌, ◌-◌, ◌*◌, ◌/◌, ◌^◌, [], ◌∷◌, Option, none, some, ltb, ◌==◌, if◌then◌else◌,
  length, Bytes,
}
use traefik_middleware_utili.Prelude.Decimal.{is_digit}
use traefik_middleware_utili.Prelude.Int.{ℤ, pos, negsuc}

-- The largest `int`.
abbrev pub max_parse_len : ℕ
max_parse_len = 2 ^ 63 - 1

-- The loop over the digits. `length*10 + digit` is computed in an `int`, so the guard comes first.
unfoldable pub scan : ℕ → Bytes → Option ℕ
scan length [] = some length
scan length (c ∷ cs) =
    let rest = scan (length * 10 + (c - b'0')) cs in
    if is_digit c
    then if ltb ((max_parse_len - (c - b'0')) / 10) length then none else rest
    else none

abbrev pub negate : ℕ → ℤ
negate zero = pos zero
negate (suc n) = negsuc n

abbrev pub map_len : (ℕ → ℤ) → Option ℕ → Option ℤ
map_len f none = none
map_len f (some n) = some (f n)

-- After a leading minus.
abbrev pub parse_negative : Bytes → Option ℤ
parse_negative [] = none
parse_negative (c ∷ cs) = map_len negate (scan 0 (c ∷ cs))

unfoldable pub parse_len : Bytes → Option ℤ
unfolding scan
parse_len [] = none
parse_len (c ∷ cs) = if c == b'-' then parse_negative cs else map_len pos (scan 0 (c ∷ cs))
