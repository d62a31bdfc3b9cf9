-- ===== src/Consensus/Rules/Bounds.antt =====
-- The rounding in `calculate_consensus_rules` decides nothing but an exact tie.
use native.Mathlib.Nat.{le_of_mul-le-mul_right, mul-le-mul_right, mul-le-mul_left, zero-mul}
use validation_node.Prelude.{
  ℕ, zero, suc, ◌+◌, ◌-◌, ◌*◌, ◌^◌, ◌≤◌, ◌<◌, true, false, ◌≡◌, refl, arith, dec_lt,
}
use validation_node.Float
use validation_node.Float.{of_int, int_div, scale, round_div, ulp}
use validation_node.Float.Accuracy.{round_div-le, le-round_div}
use validation_node.Float.Integers.{
  scale_large, int_div-eq-round_div, int_div-le, le-int_div, round_div-zero,
}
use validation_node.Consensus.Rules.{calculate_consensus_rules, percentage}

of_int-hundred : of_int 100 ≡ 100 * scale
unfolding of_int round_div scale ulp
of_int-hundred = refl

of_int-zero : of_int 0 ≡ 0
unfolding of_int
of_int-zero = rw zero-mul (round_div-zero 1 (omega arith))

of_int-eq : (n : ℕ) → of_int n ≡ round_div (n * scale) 1
unfolding of_int
of_int-eq n = refl

of_int-le : (n : ℕ) → 2 ^ 53 * of_int n ≤ (2 ^ 53 + 1) * (n * scale)
of_int-le zero = rw of_int-zero (omega arith)
of_int-le (suc n) =
    rw of_int-eq
      (omega (arith, round_div-le (suc n * scale) 1 (omega arith) (omega (arith, scale_large))))

le-of_int : (n : ℕ) → (2 ^ 53 - 1) * (n * scale) ≤ 2 ^ 53 * of_int n
le-of_int zero = omega arith
le-of_int (suc n) =
    rw of_int-eq
      (omega (arith, le-round_div (suc n * scale) 1 (omega arith) (omega (arith, scale_large))))

percentage-eq : (a b : ℕ) → percentage a b ≡ round_div (int_div a b * (100 * scale)) scale
unfolding percentage Float.mul
percentage-eq a b = rw of_int-hundred refl

scale_pos : 0 < scale
scale_pos = omega (arith, scale_large)

lt_of_products : {x y : ℕ} (b : ℕ) → x * b < y * b → x < y
lt_of_products {x} {y} b h = elim (dec_lt x y) [
  | yes lt ↦ lt
  | no not_lt ↦ let le : y ≤ x = omega arith in absurd (omega (arith, mul-le-mul_right b le))
]

percentage-zero : (b : ℕ) → 0 < b → percentage 0 b ≡ 0
percentage-zero b h =
    rw (percentage-eq, int_div-eq-round_div, zero-mul, round_div-zero b h, zero-mul)
      (round_div-zero scale scale_pos)

-- A positive share is large enough for the relative error of a double to bound its rounding.
module _ (a b : ℕ) (b_pos : 0 < b) (b_small : b < 2 ^ 53) where
  share_large : 0 < a → 2 ^ 52 * scale ≤ int_div a b * (100 * scale)
  share_large h =
      let spread : int_div a b * b ≤ int_div a b * 2 ^ 53 =
        mul-le-mul_left (int_div a b) (omega arith) in
      let whole : 1 * scale ≤ a * scale = mul-le-mul_right scale h in
      let big : 2 ^ 52 ≤ int_div a b * 100 =
        omega (arith, spread, whole, scale_large, le-int_div a b b_pos b_small) in
      omega (arith, mul-le-mul_right scale big)

  percentage-le : 0 < a → 2 ^ 53 * percentage a b ≤ (2 ^ 53 + 1) * (int_div a b * 100)
  percentage-le h =
      le_of_mul-le-mul_right {k = scale}
        (rw percentage-eq (
          omega
            (arith, round_div-le (int_div a b * (100 * scale)) scale scale_pos (share_large h))))
        scale_pos

  le-percentage : 0 < a → (2 ^ 53 - 1) * (int_div a b * 100) ≤ 2 ^ 53 * percentage a b
  le-percentage h =
      le_of_mul-le-mul_right {k = scale}
        (rw percentage-eq (
          omega
            (arith, le-round_div (int_div a b * (100 * scale)) scale scale_pos (share_large h))))
        scale_pos

  -- Two roundings from the true percentage.
  percentage-upper :
      0 < a
      → 2 ^ 53 * 2 ^ 53 * (percentage a b * b) ≤ (2 ^ 53 + 1) * (2 ^ 53 + 1) * (100 * a * scale)
  percentage-upper h =
      omega (arith, mul-le-mul_right b (percentage-le h), int_div-le a b b_pos b_small)

  percentage-lower :
      0 < a
      → (2 ^ 53 - 1) * (2 ^ 53 - 1) * (100 * a * scale) ≤ 2 ^ 53 * 2 ^ 53 * (percentage a b * b)
  percentage-lower h =
      omega (arith, mul-le-mul_right b (le-percentage h), le-int_div a b b_pos b_small)

  -- A percentage below the limit is below it as a double, if the limit is not too fine.
  below : (r : ℕ) → r * b < 2 ^ 50 → 0 < a → 100 * a < r * b → percentage a b < of_int r
  below r fine h lt =
      lt_of_products b (omega (arith, percentage-upper h, mul-le-mul_right b (le-of_int r), scaled))
    where
      gap :
          2 ^ 53 * ((2 ^ 53 + 1) * (2 ^ 53 + 1)) * (100 * a) + 1
          ≤ 2 ^ 53 * 2 ^ 53 * (2 ^ 53 - 1) * (r * b)
      gap = omega (arith, fine, lt)

      scaled :
          2 ^ 53 * ((2 ^ 53 + 1) * (2 ^ 53 + 1)) * (100 * a * scale)
          < 2 ^ 53 * 2 ^ 53 * (2 ^ 53 - 1) * (r * b * scale)
      scaled = omega (arith, mul-le-mul_right scale gap, scale_pos)

  -- And one above it is not below it.
  above : (r : ℕ) → r * b < 2 ^ 50 → 0 < a → r * b < 100 * a → of_int r < percentage a b
  above r fine h lt =
      lt_of_products b (omega (arith, percentage-lower h, mul-le-mul_right b (of_int-le r), scaled))
    where
      gap :
          2 ^ 53 * 2 ^ 53 * (2 ^ 53 + 1) * (r * b) + 1
          ≤ 2 ^ 53 * ((2 ^ 53 - 1) * (2 ^ 53 - 1)) * (100 * a)
      gap = omega (arith, fine, lt)

      scaled :
          2 ^ 53 * 2 ^ 53 * (2 ^ 53 + 1) * (r * b * scale)
          < 2 ^ 53 * ((2 ^ 53 - 1) * (2 ^ 53 - 1)) * (100 * a * scale)
      scaled = omega (arith, mul-le-mul_right scale gap, scale_pos)

of_int-pos : (r : ℕ) → 0 < r → 0 < of_int r
of_int-pos r h =
    let whole : 1 * scale ≤ r * scale = mul-le-mul_right scale h in
    omega (arith, whole, le-of_int r, scale_pos)

below_of : (a b r : ℕ) → b < 2 ^ 53 → r * b < 2 ^ 50 → 100 * a < r * b → percentage a b < of_int r
below_of a zero r small fine lt = absurd (omega arith)
below_of a (suc b) zero small fine lt = absurd (omega arith)
below_of zero (suc b) (suc r) small fine lt =
    rw (percentage-zero (suc b) (omega arith)) (of_int-pos (suc r) (omega arith))
below_of (suc a) (suc b) (suc r) small fine lt =
    below (suc a) (suc b) (omega arith) small (suc r) fine (omega arith) lt

-- For a number of participants and a ratio whose product is below 2^50, votes that are enough, and a
-- share of the participants above the ratio, pass the rules.
pub consensus_rules-pass :
    (min_total_votes ratio votes n : ℕ)
    → 0 < n
    → n < 2 ^ 53
    → ratio * n < 2 ^ 50
    → min_total_votes ≤ votes
    → ratio * n < 100 * votes
    → calculate_consensus_rules min_total_votes ratio votes n ≡ true
unfolding calculate_consensus_rules
consensus_rules-pass min_total_votes ratio votes n h small fine enough over =
    passes (above votes n h small ratio fine (omega arith) over)
  where
    passes :
        of_int ratio < percentage votes n
        → calculate_consensus_rules min_total_votes ratio votes n ≡ true
    passes more = ground arith

-- With the same bound, a share of the participants below the ratio never passes.
pub consensus_rules-fail :
    (min_total_votes ratio votes n : ℕ)
    → n < 2 ^ 53
    → ratio * n < 2 ^ 50
    → 100 * votes < ratio * n
    → calculate_consensus_rules min_total_votes ratio votes n ≡ false
unfolding calculate_consensus_rules
consensus_rules-fail min_total_votes ratio votes n small fine under =
    fails (below_of votes n ratio small fine under)
  where
    fails :
        percentage votes n < of_int ratio
        → calculate_consensus_rules min_total_votes ratio votes n ≡ false
    fails less = ground arith
