-- ===== src/Simpleredis/Resp/ParseLen/Laws.antt =====
-- `parseLen` never overflows, and reads back what `strconv.AppendInt` writes.
use native.Mathlib.Numerals.{add-one}
use traefik_middleware_utili.Prelude.{
  ℕ, zero, suc, ◌+◌, ◌-◌, ◌*◌, ◌/◌, ◌%◌, ◌≤◌, ◌<◌, [], ◌∷◌, inl, inr, some, ◌≡◌, refl, arith, ◌==◌,
  Bool-cases, Option-cases, length, Bytes, ap,
}
use traefik_middleware_utili.Prelude.Decimal.{emit, itoa, format_int}
use traefik_middleware_utili.Prelude.Decimal.Laws.{IsDigits, itoa-IsDigits, length-itoa-pos}
use traefik_middleware_utili.Prelude.Int.{ℤ, pos, negsuc, pos_part, neg_part}
use traefik_middleware_utili.Simpleredis.Resp.ParseLen.{
  max_parse_len, scan, negate, map_len, parse_negative, parse_len,
}

scan_le :
    (acc : ℕ) (s : Bytes) {n : ℕ} → acc ≤ max_parse_len → scan acc s ≡ some n → n ≤ max_parse_len
unfolding scan
scan_le acc [] h e = ground arith
scan_le acc (c ∷ cs) {n} h e = ground (arith, scan_le (acc * 10 + (c - b'0')) cs {n = n})

abbrev pub InRange : ℤ → Type 0
InRange z = (pos_part z ≤ max_parse_len) × (neg_part z ≤ max_parse_len)

map_len-InRange :
    (f : ℕ → ℤ) (s : Bytes) {z : ℤ}
    → ((n : ℕ) → n ≤ max_parse_len → InRange (f n))
    → map_len f (scan 0 s) ≡ some z
    → InRange z
map_len-InRange f s {z} keep e = elim (Option-cases (scan 0 s)) [
  | inl none_found ↦ absurd (cc (rw none_found at e))
  | inr (n, found) ↦ ground (arith, keep n (scan_le 0 s (omega arith) found))
]

negate-InRange : (n : ℕ) → n ≤ max_parse_len → InRange (negate n)
negate-InRange zero h = omega arith
negate-InRange (suc n) h = omega arith

parse_negative-InRange : (s : Bytes) {z : ℤ} → parse_negative s ≡ some z → InRange z
parse_negative-InRange [] e = cc
parse_negative-InRange (c ∷ cs) e = map_len-InRange negate (c ∷ cs) negate-InRange e

-- The length is an `int`: the guard of the loop fires before the product wraps around.
pub parse_len_bounds : (s : Bytes) {z : ℤ} → parse_len s ≡ some z → InRange z
unfolding parse_len
parse_len_bounds [] e = cc
parse_len_bounds (c ∷ cs) e = elim (Bool-cases (c == b'-')) [
  | inl minus ↦ parse_negative-InRange cs (rw minus at e)
  | inr digit ↦ map_len-InRange pos (c ∷ cs) (λ n h. (omega arith, omega arith)) (rw digit at e)
]

-- One more round stays in range while the value does.
scan-emit : (f n : ℕ) (out : Bytes) → n < f → n ≤ max_parse_len → scan 0 (emit f n out) ≡ scan n out
unfolding emit scan
scan-emit zero n out h m = absurd (omega arith)
scan-emit (suc f) n out h m = ground (arith, scan-emit f (n / 10) ((b'0' + n % 10) ∷ out))

pub scan-itoa : (n : ℕ) → n ≤ max_parse_len → scan 0 (itoa n) ≡ some n
unfolding itoa scan
scan-itoa n m = scan-emit (n + 1) n [] (omega arith) m

parse_len_digits : (s : Bytes) → IsDigits s → 0 < length s → parse_len s ≡ map_len pos (scan 0 s)
unfolding parse_len
parse_len_digits [] d p = absurd (omega arith)
parse_len_digits (c ∷ cs) d p = ground arith

pub parse_len-itoa : (n : ℕ) → n ≤ max_parse_len → parse_len (itoa n) ≡ some (pos n)
parse_len-itoa n m =
    rw (parse_len_digits (itoa n) (itoa-IsDigits n) (length-itoa-pos n), scan-itoa n m)

parse_negative_digits : (s : Bytes) → 0 < length s → parse_negative s ≡ map_len negate (scan 0 s)
parse_negative_digits [] p = absurd (omega arith)
parse_negative_digits (c ∷ cs) p = refl

-- A length written by `strconv` in the range of `int` is read back, the sign included.
pub parse_len-format_int :
    (z : ℤ)
    → pos_part z ≤ max_parse_len
    → neg_part z ≤ max_parse_len
    → parse_len (format_int z) ≡ some z
unfolding parse_len format_int
parse_len-format_int (pos n) p q = parse_len-itoa n p
parse_len-format_int (negsuc n) p q =
    rw
      (
        parse_negative_digits (itoa (n + 1)) (length-itoa-pos (n + 1)),
        scan-itoa (n + 1) (omega arith),
      )
      (ap (λ k. some (negate k)) (add-one n))
