-- ===== src/Float/Accuracy.antt =====
-- How far `round_div` is from the exact quotient.
use native.Mathlib.Nat.{
  div-add-mod, mod-lt, le-div_iff_mul-le, mul-pos, mul-le-mul_left, div-mul-le_self,
}
use validation_node.Prelude.{
  ℕ, ◌+◌, ◌-◌, ◌*◌, ◌/◌, ◌%◌, ◌^◌, ◌≤◌, ◌<◌, ◌≡◌, refl, ◌⊎◌, inl, inr, arith, true, false,
  Bool-cases, if◌then◌else◌,
}
use validation_node.Float.{ulp, rounds_up, round_div}
use validation_node.Float.Ulp.{IsUlp, ulp-IsUlp, pow-pos}

ulp_pos : {x u : ℕ} → IsUlp x u → 0 < u
ulp_pos w = omega (arith, pow-pos w.exponent, w.power)

-- A quotient `m` with its remainder, rounded to the nearer of `m` and `m + 1`.
rounded : ℕ → ℕ → ℕ → ℕ
rounded m r d = if rounds_up m r d then m + 1 else m

rounds_up_half : (m r d : ℕ) → rounds_up m r d ≡ true → d ≤ r + r
unfolding rounds_up
rounds_up_half m r d h = ground arith

rounds_down_half : (m r d : ℕ) → rounds_up m r d ≡ false → r + r ≤ d
unfolding rounds_up
rounds_down_half m r d h = ground arith

rounded_bounds :
    (m r d : ℕ)
    → r < d
    → (2 * (rounded m r d * d) ≤ 2 * (d * m + r) + d)
      × (2 * (d * m + r) ≤ 2 * (rounded m r d * d) + d)
unfolding rounded
rounded_bounds m r d h = elim (Bool-cases (rounds_up m r d)) [
  | inl up ↦ rw up (omega (arith, rounds_up_half m r d up), omega (arith, h))
  | inr down ↦ rw down (omega arith, omega (arith, rounds_down_half m r d down))
]

le-rounded : (m r d : ℕ) → m ≤ rounded m r d
unfolding rounded
le-rounded m r d = ground arith

module _ (p q : ℕ) (q_pos : 0 < q) where
  -- The spacing round the quotient.
  pub spacing : IsUlp (p / q) (ulp (p / q))
  spacing = ulp-IsUlp (p / q)

  round_div-rounded :
      (u : ℕ) → ulp (p / q) ≡ u → round_div p q ≡ rounded (p / (q * u)) (p % (q * u)) (q * u) * u
  unfolding round_div rounded
  round_div-rounded u e = rw e

  -- At most half the spacing above the quotient, and at most half below.
  pub round_div_error :
      (2 * (round_div p q * q) ≤ 2 * p + q * ulp (p / q))
      × (2 * p ≤ 2 * (round_div p q * q) + q * ulp (p / q))
  round_div_error =
      let u = ulp (p / q) in
      let d = q * u in
      let d_pos : 0 < d = mul-pos q_pos (ulp_pos spacing) in
      let b = rounded_bounds (p / d) (p % d) d (mod-lt p d_pos) in
      rw (round_div-rounded u refl) (grind (arith, div-add-mod p d, b))

  -- In the normal range the spacing is at most 2^-52 of the quotient.
  spacing_le : 2 ^ 52 * q ≤ p → 2 ^ 52 * (q * ulp (p / q)) ≤ p
  spacing_le h = spaced spacing.tight
    where
      spaced : (ulp (p / q) ≡ 1) ⊎ (2 ^ 52 * ulp (p / q) ≤ p / q) → 2 ^ 52 * (q * ulp (p / q)) ≤ p
      spaced (inl one) = rw one (omega arith)
      spaced (inr fits) = grind (arith, mul-le-mul_left q fits, div-mul-le_self p q)

  -- The relative error is at most 2^-53, both ways.
  pub round_div-le : 2 ^ 52 * q ≤ p → 2 ^ 53 * (round_div p q * q) ≤ (2 ^ 53 + 1) * p
  round_div-le h = omega (arith, round_div_error.0, spacing_le h)

  pub le-round_div : 2 ^ 52 * q ≤ p → (2 ^ 53 - 1) * p ≤ 2 ^ 53 * (round_div p q * q)
  le-round_div h = omega (arith, round_div_error.1, spacing_le h)

  -- A multiple `n` of the spacing that is at most the quotient is at most the result.
  pub multiple_le-round_div : (k : ℕ) → k * ulp (p / q) * q ≤ p → k * ulp (p / q) ≤ round_div p q
  multiple_le-round_div k h =
      let u = ulp (p / q) in
      let below : k ≤ p / (q * u) =
        (le-div_iff_mul-le (mul-pos q_pos (ulp_pos spacing))).1 (omega arith) in
      rw (round_div-rounded u refl)
        (grind (arith, below, le-rounded (p / (q * u)) (p % (q * u)) (q * u)))
