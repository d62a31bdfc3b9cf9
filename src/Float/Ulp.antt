-- ===== src/Float/Ulp.antt =====
-- The spacing that `ulp` finds: a power of two, as small as 53 bits allow.
use native.Mathlib.Nat.{pow-suc, pow-zero, zero-add, suc-add, mul_comm, pow-le-pow_right}
use native.Mathlib.Decide.{dec_le}
use validation_node.Prelude.{
  ℕ, zero, suc, ◌+◌, ◌-◌, ◌*◌, ◌^◌, ◌≤◌, ◌<◌, ◌≡◌, ◌⊎◌, inl, inr, arith, ap, ltb, Bool-cases, tests,
  refl,
}
use validation_node.Float.{ulp_from, ulp}

-- What is known of the spacing `u` round `x`.
pub record IsUlp (x u : ℕ) : Type 0 where
  pub exponent : ℕ
  pub power : u ≡ 2 ^ exponent
  pub fits : x < 2 ^ 53 * u
  pub tight : (u ≡ 1) ⊎ (2 ^ 52 * u ≤ x)

pub pow-pos : (j : ℕ) → 0 < 2 ^ j
pow-pos zero = omega arith
pow-pos (suc j) = rw pow-suc (omega (arith, pow-pos j))

ulp_from-IsUlp :
    (fuel u x j : ℕ)
    → u ≡ 2 ^ j
    → ((u ≡ 1) ⊎ (2 ^ 52 * u ≤ x))
    → x < u + fuel
    → IsUlp x (ulp_from fuel u x)
unfolding ulp_from
ulp_from-IsUlp zero u x j e t h = record {
  exponent = j;
  power = e;
  fits = omega (arith, pow-pos j);
  tight = t;
}
ulp_from-IsUlp (suc fuel) u x j e t h = elim (Bool-cases (ltb x (2 ^ 53 * u))) [
  | inl done ↦ rw done (record { exponent = j; power = e; fits = omega tests; tight = t })
  | inr more ↦ rw more (
      ulp_from-IsUlp fuel (u + u) x (suc j) (rw pow-suc (omega arith)) (inr (omega tests))
        (omega (arith, pow-pos j)))
]

pub ulp-IsUlp : (x : ℕ) → IsUlp x (ulp x)
unfolding ulp
ulp-IsUlp x = ulp_from-IsUlp x 1 x 0 refl (inl refl) (omega arith)

pub pow-add : (i j : ℕ) → 2 ^ (i + j) ≡ 2 ^ i * 2 ^ j
pow-add zero j = rw (zero-add, pow-zero) (omega arith)
pow-add (suc i) j = rw (suc-add, pow-suc, pow-suc, pow-add i j) (omega arith)

-- A wider power of two is a multiple of the spacing.
pub ulp_divides : {x u : ℕ} (e : ℕ) → IsUlp x u → x < 2 ^ 53 * 2 ^ e → (c : ℕ) × (c * u ≡ 2 ^ e)
ulp_divides {x} {u} e w h = elim (dec_le w.exponent e) [
  | yes below ↦
      let gap : w.exponent + (e - w.exponent) ≡ e = omega arith in
      let split = pow-add w.exponent (e - w.exponent) in
      (
        2 ^ (e - w.exponent),
        cc (
          w.power,
          split,
          ap (◌^◌ 2) gap,
          mul_comm (2 ^ (e - w.exponent)) (2 ^ w.exponent),
          ap (λ (t : ℕ). 2 ^ (e - w.exponent) * t) w.power,
        ),
      )
  | no above ↦
      let double =
        pow-le-pow_right {n = 2} (omega arith) {i = suc e} {j = w.exponent} (omega arith) in
      absurd (too_wide w.tight (rw pow-suc at double))
]
  where
    too_wide : ((u ≡ 1) ⊎ (2 ^ 52 * u ≤ x)) → 2 ^ e * 2 ≤ 2 ^ w.exponent → ⊥
    too_wide t d = omega (arith, w.power, pow-pos e)
