-- ===== src/Simpleredis/Commands/Integers.antt =====
-- Integer replies: what the server prints is read back.
use traefik_middleware_utili.Prelude.{
  ℕ, Bytes, [], ap, arith, length, refl, some, false, ◌+◌, ◌<◌, ◌∷◌, ◌≡◌, ◌≤◌, ◌^◌, ◌∙◌, lt→ltb,
}
use traefik_middleware_utili.Prelude.Decimal.{digits_value, format_int, itoa}
use traefik_middleware_utili.Prelude.Decimal.Laws.{
  IsDigits, digits_value-itoa, itoa-IsDigits, length-itoa-pos,
}
use traefik_middleware_utili.Prelude.Int.{ℤ, pos, negsuc, pos_part, neg_part}
use traefik_middleware_utili.Prelude.Result.{ok}
use traefik_middleware_utili.Simpleredis.Commands.{
  parse_int, parse_digits, parse_integer_reply, with_sign, or_issue,
}

parse_digits_lem : (s : Bytes) → 0 < length s → parse_digits s ≡ digits_value 0 s
parse_digits_lem [] p = absurd (omega arith)
parse_digits_lem (c ∷ cs) p = refl

parse_digits-itoa : (n : ℕ) → parse_digits (itoa n) ≡ some n
parse_digits-itoa n = parse_digits_lem (itoa n) (length-itoa-pos n) ∙ digits_value-itoa n

parse_int_digits :
    (s : Bytes) → IsDigits s → 0 < length s → parse_int s ≡ with_sign false (parse_digits s)
unfolding parse_int
parse_int_digits [] d p = absurd (omega arith)
parse_int_digits (c ∷ cs) d p = ground arith

pub parse_int-format_int :
    (z : ℤ) → pos_part z < 2 ^ 63 → neg_part z ≤ 2 ^ 63 → parse_int (format_int z) ≡ some z
unfolding parse_int format_int
parse_int-format_int (pos n) p q =
    rw
      (
        parse_int_digits (itoa n) (itoa-IsDigits n) (length-itoa-pos n),
        parse_digits-itoa n,
        lt→ltb n (2 ^ 63) p,
      )
      refl
parse_int-format_int (negsuc n) p q = rw (parse_digits-itoa (n + 1)) (ground arith)

-- An integer that the server prints, in the range of int64, is what `Incr` and `IncrBy` return.
pub parse_integer_reply-format_int :
    (z : ℤ)
    → pos_part z < 2 ^ 63
    → neg_part z ≤ 2 ^ 63
    → parse_integer_reply (ok (some (format_int z) ∷ [])) ≡ ok z
unfolding parse_integer_reply
parse_integer_reply-format_int z p q = ap or_issue (parse_int-format_int z p q)
