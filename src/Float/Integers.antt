-- ===== src/Float/Integers.antt =====
-- `int(a / b)` for integers `a` and `b`, as the rewards compute it (app/ethereum/rewards.py).
use native.Mathlib.Nat.{
  le-div_iff_mul-le, div-mul-le_self, le_of_mul-le-mul_right, mul-le-mul_right, le_antisymm,
  zero-div, zero-mul, div-le_self, mul_assoc,
}
use validation_node.Prelude.{
  ℕ, zero, suc, ◌+◌, ◌-◌, ◌*◌, ◌/◌, ◌^◌, ◌≤◌, ◌<◌, ◌≡◌, refl, sym, ap, subst, arith,
}
use validation_node.Float.{ulp, round_div, scale, int_div, trunc}
use validation_node.Float.Ulp.{ulp_divides}
use validation_node.Float.Accuracy.{
  spacing, round_div_error, round_div-le, le-round_div, multiple_le-round_div,
}

pub scale_large : 2 ^ 105 ≤ scale
unfolding scale
scale_large = omega arith

pub scale_exponent : (e : ℕ) × (scale ≡ 2 ^ e)
unfolding scale
scale_exponent = (1074, refl)

pub int_div-eq-round_div : (a b : ℕ) → int_div a b ≡ round_div (a * scale) b
unfolding int_div
int_div-eq-round_div a b = refl

ulp-zero : ulp 0 ≡ 1
unfolding ulp
ulp-zero = refl

pub round_div-zero : (b : ℕ) → 0 < b → round_div 0 b ≡ 0
round_div-zero b h = let e = round_div_error 0 b h in grind (arith, (rw (zero-div, ulp-zero) at e))

pub trunc-mul-scale : (a : ℕ) → trunc a * scale ≤ a
unfolding trunc
trunc-mul-scale a = div-mul-le_self a scale

pub le-trunc : (k a : ℕ) → k * scale ≤ a → k ≤ trunc a
unfolding trunc
le-trunc k a h = (le-div_iff_mul-le (omega (arith, scale_large))).1 h

module _ (a b : ℕ) (b_pos : 0 < b) (b_small : b < 2 ^ 53) where
  -- The double exceeds the true quotient by at most its relative error.
  pub int_div-le : 2 ^ 53 * (int_div a b * b) ≤ (2 ^ 53 + 1) * (a * scale)
  int_div-le = rw int_div-eq-round_div (by_size a)
    where
      by_size : (n : ℕ) → 2 ^ 53 * (round_div (n * scale) b * b) ≤ (2 ^ 53 + 1) * (n * scale)
      by_size zero = rw (zero-mul, round_div-zero b b_pos) (omega arith)
      by_size (suc n) = round_div-le (suc n * scale) b b_pos (grind (arith, scale_large))

  -- And it falls short of it by at most as much.
  pub le-int_div : (2 ^ 53 - 1) * (a * scale) ≤ 2 ^ 53 * (int_div a b * b)
  le-int_div = rw int_div-eq-round_div (by_size a)
    where
      by_size : (n : ℕ) → (2 ^ 53 - 1) * (n * scale) ≤ 2 ^ 53 * (round_div (n * scale) b * b)
      by_size zero = rw zero-mul (omega arith)
      by_size (suc n) = le-round_div (suc n * scale) b b_pos (grind (arith, scale_large))

  -- The truncated quotient exceeds the true one by at most the relative error of a double.
  pub trunc-int_div-le : 2 ^ 53 * (trunc (int_div a b) * b) ≤ (2 ^ 53 + 1) * a
  trunc-int_div-le =
      le_of_mul-le-mul_right {k = scale}
        (scaled (mul-le-mul_right b (trunc-mul-scale (int_div a b)))) (omega (arith, scale_large))
    where
      scaled :
          trunc (int_div a b) * scale * b ≤ int_div a b * b
          → 2 ^ 53 * (trunc (int_div a b) * b) * scale ≤ (2 ^ 53 + 1) * a * scale
      scaled h = omega (arith, int_div-le)

  quotient_le : a < 2 ^ 53 → a / b ≤ trunc (int_div a b)
  quotient_le h = le-trunc (a / b) (int_div a b) (rw int_div-eq-round_div (aligned scale_exponent))
    where
      -- Whole numbers below 2^53 are multiples of the spacing round the quotient.
      aligned : (e : ℕ) × (scale ≡ 2 ^ e) → a / b * scale ≤ round_div (a * scale) b
      aligned (e, se) =
          let small : a * scale / b < 2 ^ 53 * 2 ^ e =
            omega (arith, scale_large, se, div-le_self (a * scale) b, mul-le-mul_right scale h) in
          let (c, ce) = ulp_divides e (spacing (a * scale) b b_pos) small in
          let u = ulp (a * scale / b) in
          let whole : a / b * c * u ≡ a / b * scale =
            rw (mul_assoc, ce) (ap (◌*◌ (a / b)) (sym se)) in
          subst (λ t. t ≤ round_div (a * scale) b) whole
            (multiple_le-round_div (a * scale) b b_pos (a / b * c) (
              subst (λ t. t * b ≤ a * scale) (sym whole)
                (omega (arith, mul-le-mul_right scale (div-mul-le_self a b)))))

  -- Below 2^53 the result is the whole quotient, as with `//`.
  pub trunc-int_div-eq-div : a < 2 ^ 53 → trunc (int_div a b) ≡ a / b
  trunc-int_div-eq-div h =
      le_antisymm ((le-div_iff_mul-le b_pos).1 (omega (arith, trunc-int_div-le))) (quotient_le h)
