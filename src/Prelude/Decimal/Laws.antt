-- ===== src/Prelude/Decimal/Laws.antt =====
-- What `itoa` writes: digits, not too many, that read back as the number.
use native.Mathlib.Nat.{pow-suc}
use native.Mathlib.Numerals.{add-one}
use traefik_middleware_utili.Prelude.{
  ℕ, zero, suc, ◌+◌, ◌*◌, ◌/◌, ◌%◌, ◌^◌, ◌≤◌, ◌<◌, true, [], ◌∷◌, inl, inr, some, ◌≡◌, arith, ltb,
  Bool-cases, length, Bytes,
}
use traefik_middleware_utili.Prelude.Decimal.{emit, itoa, is_digit, digits_value}

abbrev pub IsDigits : Bytes → Type 0
IsDigits [] = Unit {0}
IsDigits (c ∷ cs) = (is_digit c ≡ true) × IsDigits cs

emit-IsDigits : (f n : ℕ) (out : Bytes) → IsDigits out → IsDigits (emit f n out)
unfolding emit
emit-IsDigits zero n out h = h
emit-IsDigits (suc f) n out h = elim (Bool-cases (ltb n 10)) [
  | inl small ↦ rw small (ground arith, h)
  | inr big ↦ rw big (emit-IsDigits f (n / 10) ((b'0' + n % 10) ∷ out) (ground arith, h))
]

pub itoa-IsDigits : (n : ℕ) → IsDigits (itoa n)
unfolding itoa
itoa-IsDigits n = emit-IsDigits (n + 1) n [] tt

length-emit-pos : (f n : ℕ) (out : Bytes) → length out < length (emit (suc f) n out)
unfolding emit
length-emit-pos zero n out = ground arith
length-emit-pos (suc f) n out = ground (arith, length-emit-pos f (n / 10) ((b'0' + n % 10) ∷ out))

pub length-itoa-pos : (n : ℕ) → 0 < length (itoa n)
unfolding itoa
length-itoa-pos n = rw add-one (length-emit-pos n n [])

length-emit-le :
    (d f n : ℕ) (out : Bytes) → n < 10 ^ d → 0 < d → length (emit f n out) ≤ length out + d
unfolding emit
length-emit-le zero f n out h p = absurd (omega arith)
length-emit-le (suc d) zero n out h p = omega arith
length-emit-le (suc zero) (suc f) n out h p = ground arith
length-emit-le (suc (suc d)) (suc f) n out h p =
    let h' : n < 10 ^ suc d * 10 = rw pow-suc at h in
    let next : Bytes = (b'0' + n % 10) ∷ out in
    ground (arith, length-emit-le (suc d) f (n / 10) next (omega arith) (omega arith))

-- A number below a power of ten has at most as many digits.
pub length-itoa-le : (d n : ℕ) → n < 10 ^ d → 0 < d → length (itoa n) ≤ d
unfolding itoa
length-itoa-le d n h p = omega (arith, length-emit-le d (n + 1) n [] h p)

digits_value-emit :
    (f n : ℕ) (out : Bytes) → n < f → digits_value 0 (emit f n out) ≡ digits_value n out
unfolding emit digits_value
digits_value-emit zero n out h = absurd (omega arith)
digits_value-emit (suc f) n out h =
    ground (arith, digits_value-emit f (n / 10) ((b'0' + n % 10) ∷ out))

pub digits_value-itoa : (n : ℕ) → digits_value 0 (itoa n) ≡ some n
unfolding itoa digits_value
digits_value-itoa n = digits_value-emit (n + 1) n [] (omega arith)
