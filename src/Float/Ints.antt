-- ===== src/Float/Ints.antt =====
-- Whole numbers, which have the laws that are asked of a float.
use traefik_middleware_utili.Prelude.{ℕ, arith, false, not, ◌+◌, ◌*◌, ◌/◌, ◌≡◌}
use traefik_middleware_utili.Prelude.Int.{ℤ, neg_part, pos_part, sub_ℕ, ltb_ℤ, ◌==ℤ◌}
use traefik_middleware_utili.Float.{Float, IsAdditive, IsCounting, IsExact, IsLowered}

abbrev pub ints : Float
ints = record {
  number = ℤ;
  add = λ a b. sub_ℕ (pos_part a + pos_part b) (neg_part a + neg_part b);
  sub = λ a b. sub_ℕ (pos_part a + neg_part b) (neg_part a + pos_part b);
  mul = λ a b.
      sub_ℕ (pos_part a * pos_part b + neg_part a * neg_part b)
        (pos_part a * neg_part b + neg_part a * pos_part b);
  div = λ a b. sub_ℕ (pos_part a / pos_part b) (neg_part a / pos_part b);
  neg = λ a. sub_ℕ (neg_part a) (pos_part a);
  is_nan = λ a. false;
  is_inf = λ a. false;
  lt = ltb_ℤ;
  le = λ a b. not (ltb_ℤ b a);
  eq = ◌==ℤ◌;
  of_int = λ z. z;
  to_int = λ z. z;
}

pub ints-IsLowered : IsLowered ints
ints-IsLowered = record { lowered = λ b x h. ground arith; irreflexive = λ b. ground arith }

pub ints-IsExact : IsExact ints
ints-IsExact = record { exact = λ n le. ground arith; le_zero = λ n le. ground arith }

minus : (a b : ℕ) → sub_ℕ (a * 0 + b * 1) (a * 1 + b * 0) ≡ sub_ℕ b a
minus a b = ground arith

pub ints-IsCounting : IsCounting ints
ints-IsCounting = record {
  lt_int = λ a b s t. ground arith;
  sub_int = λ a b s t. ground arith;
  negated = λ x. minus (pos_part x) (neg_part x);
}

pub ints-IsAdditive : IsAdditive ints
ints-IsAdditive = record {
  rate_zero = λ rate above number finite. ground arith;
  add_zero = λ n. ground arith;
}
