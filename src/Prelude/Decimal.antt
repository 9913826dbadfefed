-- ===== src/Prelude/Decimal.antt =====
-- Decimal text: strconv's Itoa, FormatInt and ParseInt in base 10.
pub mod Laws
use traefik_middleware_utili.Prelude.{
  ℕ, zero, suc, ◌+◌, ◌-◌, ◌*◌, ◌/◌, ◌%◌, Bool, ◌&&◌, [], ◌∷◌, Option, none, some, ltb, leb,
  if◌then◌else◌, Bytes,
}
use traefik_middleware_utili.Prelude.Int.{ℤ, pos, negsuc}

-- The digits of `n` in front of `out`; `f` bounds the number of digits.
unfoldable pub emit : ℕ → ℕ → Bytes → Bytes
emit zero n out = out
emit (suc f) n out =
    let rest = emit f (n / 10) ((b'0' + n % 10) ∷ out) in
    if ltb n 10 then (b'0' + n) ∷ out else rest

-- A number has fewer digits than its value plus one.
unfoldable pub itoa : ℕ → Bytes
unfolding emit
itoa n = emit (n + 1) n []

unfoldable pub format_int : ℤ → Bytes
unfolding itoa
format_int (pos n) = itoa n
format_int (negsuc n) = b'-' ∷ itoa (n + 1)

abbrev pub is_digit : ℕ → Bool
is_digit c = leb b'0' c && leb c b'9'

-- The value of a run of digits after `acc`.
unfoldable pub digits_value : ℕ → Bytes → Option ℕ
digits_value acc [] = some acc
digits_value acc (c ∷ cs) =
    let rest = digits_value (acc * 10 + (c - b'0')) cs in if is_digit c then rest else none
