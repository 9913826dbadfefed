-- ===== src/Float.antt =====
-- What the packages use of Go's float64: `number` is its values, a NaN among them, so that an
-- order may hold neither way.
pub mod Ints
use traefik_middleware_utili.Prelude.{ltb, ◌-◌, ℕ, suc, Bool, false, ◌+◌, ◌≡◌, ◌≤◌, ◌==◌, ◌^◌}
use traefik_middleware_utili.Prelude.Int.{ℤ, minus_one, pos}

pub record Float : Type 1 where
  pub number : Type 0
  pub add : number → number → number
  pub sub : number → number → number
  pub mul : number → number → number
  pub div : number → number → number
  pub neg : number → number
  pub is_nan : number → Bool
  pub is_inf : number → Bool
  pub lt : number → number → Bool
  pub le : number → number → Bool
  pub eq : number → number → Bool
  -- The conversions `float64(int)` and `time.Duration(float64)`.
  pub of_int : ℤ → number
  pub to_int : number → ℤ

-- `x - 1` is never above a bound of `x`.
pub record IsLowered (fl : Float) : Type 0 where
  pub lowered :
      (b x : fl.number) → fl.lt b x ≡ false → fl.lt b (fl.sub x (fl.of_int (pos 1))) ≡ false
  pub irreflexive : (b : fl.number) → fl.lt b b ≡ false

-- Integers up to 2^53 are exact.
pub record IsExact (fl : Float) : Type 0 where
  pub exact :
      (n : ℕ)
      → n + 1 ≤ 2 ^ 53
      → fl.sub (fl.of_int (pos (suc n))) (fl.of_int (pos 1)) ≡ fl.of_int (pos n)
  pub le_zero : (n : ℕ) → n ≤ 2 ^ 53 → fl.le (fl.of_int (pos n)) (fl.of_int (pos 0)) ≡ (n == 0)

-- Whole numbers up to 2^53 are compared and subtracted exactly, and a multiplication by -1 negates.
pub record IsCounting (fl : Float) : Type 0 where
  pub lt_int :
      (a b : ℕ) → a ≤ 2 ^ 53 → b ≤ 2 ^ 53 → fl.lt (fl.of_int (pos a)) (fl.of_int (pos b)) ≡ ltb a b
  pub sub_int :
      (a b : ℕ)
      → a ≤ 2 ^ 53
      → b ≤ a
      → fl.sub (fl.of_int (pos a)) (fl.of_int (pos b)) ≡ fl.of_int (pos (a - b))
  pub negated : (x : fl.number) → fl.mul x (fl.of_int minus_one) ≡ fl.neg x

-- Adding nothing to a whole number changes nothing, and a finite rate above zero, per microsecond,
-- gives nothing in no time: the quotient is finite and not negative.
pub record IsAdditive (fl : Float) : Type 0 where
  pub rate_zero :
      (rate : fl.number)
      → fl.le rate (fl.of_int (pos 0)) ≡ false
      → fl.is_nan rate ≡ false
      → fl.is_inf rate ≡ false
      → fl.mul (fl.div rate (fl.of_int (pos 1000000))) (fl.of_int (pos 0)) ≡ fl.of_int (pos 0)
  pub add_zero : (n : ℕ) → fl.add (fl.of_int (pos n)) (fl.of_int (pos 0)) ≡ fl.of_int (pos n)
