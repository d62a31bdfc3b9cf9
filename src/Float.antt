-- ===== src/Float.antt =====
-- Python's `float` as the rewards and the consensus rules use it (app/ethereum/rewards.py,
-- app/events/consensus.py): IEEE 754 binary64, round half to even, finite and not negative.
-- A number is held as 2^1074 times its value, so that every finite one is a natural number, and the
-- spacing of the subnormal numbers is 1. Overflow to infinity (from 2^1024 on) is not modelled.
pub mod Ulp
pub mod Accuracy
pub mod Integers
use validation_node.Prelude.{
  ℕ, zero, suc, ◌+◌, ◌-◌, ◌*◌, ◌/◌, ◌%◌, ◌^◌, Bool, ◌&&◌, ◌||◌, ltb, eqb, if◌then◌else◌,
}

-- The spacing of the doubles round `x`: the least power of two `u` from the given one on with
-- `x < 2^53 * u`.
ulp_from : ℕ → ℕ → ℕ → ℕ
ulp_from zero u x = u
ulp_from (suc fuel) u x =
    let wider = ulp_from fuel (u + u) x in if ltb x (2 ^ 53 * u) then u else wider

unfoldable pub ulp : ℕ → ℕ
unfolding ulp_from
ulp x = ulp_from x 1 x

-- Whether the remainder `r` of a division by `d` with quotient `m` is rounded up.
unfoldable pub rounds_up : ℕ → ℕ → ℕ → Bool
rounds_up m r d = ltb d (r + r) || (eqb d (r + r) && eqb (m % 2) 1)

-- The double nearest to `p / q`.
unfoldable pub round_div : ℕ → ℕ → ℕ
unfolding ulp rounds_up
round_div p q =
    let u = ulp (p / q) in
    let m = p / (q * u) in (if rounds_up m (p % (q * u)) (q * u) then m + 1 else m) * u

unfoldable pub scale : ℕ
scale = 2 ^ 1074

-- A number that is a double already: `n < 2^53`, or the result of an operation.
abbrev pub Float : Type 0
Float = ℕ

-- `float(n)`
unfoldable pub of_int : ℕ → Float
unfolding round_div scale
of_int n = round_div (n * scale) 1

-- `a / b` of two integers: Python rounds the exact quotient once.
unfoldable pub int_div : ℕ → ℕ → Float
unfolding round_div scale
int_div a b = round_div (a * scale) b

unfoldable pub add : Float → Float → Float
unfolding round_div
add a b = round_div (a + b) 1

-- `a - b` where `b <= a`
unfoldable pub sub : Float → Float → Float
unfolding round_div
sub a b = round_div (a - b) 1

unfoldable pub mul : Float → Float → Float
unfolding round_div scale
mul a b = round_div (a * b) scale

unfoldable pub div : Float → Float → Float
unfolding round_div scale
div a b = round_div (a * scale) b

-- `int(a)`
unfoldable pub trunc : Float → ℕ
unfolding scale
trunc a = a / scale
