-- ===== src/Rewards/Bounds.antt =====
-- How far the linear rewards are from equal whole shares of the balance.
use native.Mathlib.Nat.{div-mul-le_self, lt-div-mul-add}
use validation_node.Prelude.{
  ℕ, zero, suc, ◌+◌, ◌*◌, ◌/◌, ◌^◌, ◌≤◌, ◌<◌, List, [], ◌∷◌, ◌≡◌, ap, arith, length, replicate,
  length-replicate, ◌∙◌,
}
use validation_node.Prelude.Dict.{Dict, keys}
use validation_node.Prelude.Int.{ℤ, pos, pos_part}
use validation_node.Float.{int_div, trunc}
use validation_node.Float.Integers.{trunc-int_div-le, trunc-int_div-eq-div}
use validation_node.Database.Schema.{Ident, Vote, ok}
use validation_node.Rewards.Distribution.{int_quotient, calculate_linear_rewards}

-- What is paid out in all, of rewards that are not negative.
abbrev pub paid : List ℤ → ℕ
paid [] = 0
paid (r ∷ rs) = pos_part r + paid rs

paid-replicate : (n q : ℕ) → paid (replicate n (pos q)) ≡ n * q
paid-replicate zero q = omega arith
paid-replicate (suc n) q = omega (arith, paid-replicate n q)

-- An accepted result has one user or more, and these parts.
linear_parts :
    (eth token : ℕ) (d : Dict Ident (List Vote)) (us : List Ident) (es ts : List ℤ)
    → calculate_linear_rewards (pos eth) (pos token) d ≡ ok (us, es, ts)
    → (0 < length d)
      × (us ≡ keys d)
      × (es ≡ replicate (length d) (pos (trunc (int_div eth (length d)))))
      × (ts ≡ replicate (length d) (pos (trunc (int_div token (length d)))))
unfolding calculate_linear_rewards int_quotient
linear_parts eth token [] us es ts e = absurd (ground arith)
linear_parts eth token (x ∷ d) us es ts e = ground arith

paid_bound :
    (balance n : ℕ) (rs : List ℤ)
    → 0 < n
    → n < 2 ^ 53
    → rs ≡ replicate n (pos (trunc (int_div balance n)))
    → (length rs ≡ n) × (2 ^ 53 * paid rs ≤ (2 ^ 53 + 1) * balance)
paid_bound balance n rs h few e = (
  ap length e ∙ length-replicate n _,
  rw (e, paid-replicate) (omega (arith, trunc-int_div-le balance n h few)),
)

-- The users are those of the votes, each gets one reward of either kind, and all together they get
-- at most a relative 2^-53 more than the balance.
pub linear_rewards-bounds :
    (eth token : ℕ) (d : Dict Ident (List Vote)) {us : List Ident} {es ts : List ℤ}
    → length d < 2 ^ 53
    → calculate_linear_rewards (pos eth) (pos token) d ≡ ok (us, es, ts)
    → (us ≡ keys d)
      × (length es ≡ length d)
      × (length ts ≡ length d)
      × (2 ^ 53 * paid es ≤ (2 ^ 53 + 1) * eth)
      × (2 ^ 53 * paid ts ≤ (2 ^ 53 + 1) * token)
linear_rewards-bounds eth token d {us} {es} {ts} few e =
    let (some_user, users, eths, tokens) = linear_parts eth token d us es ts e in
    let (le, be) = paid_bound eth (length d) es some_user few eths in
    let (lt, bt) = paid_bound token (length d) ts some_user few tokens in (users, le, lt, be, bt)

paid_exact :
    (balance n : ℕ) (rs : List ℤ)
    → 0 < n
    → n < 2 ^ 53
    → balance < 2 ^ 53
    → rs ≡ replicate n (pos (trunc (int_div balance n)))
    → (rs ≡ replicate n (pos (balance / n))) × (paid rs ≤ balance) × (balance < paid rs + n)
paid_exact balance n rs h few small e =
    let q = trunc-int_div-eq-div balance n h few small in
    let e' : rs ≡ replicate n (pos (balance / n)) = e ∙ ap (λ k. replicate n (pos k)) q in
    (
      e',
      rw (e', paid-replicate) (omega (arith, div-mul-le_self balance n)),
      rw (e', paid-replicate) (omega (arith, lt-div-mul-add {a = balance} h)),
    )

-- Balances below 2^53 are shared as whole numbers: each user gets the quotient, what is paid does not
-- exceed the balance, and less than one unit for each user stays.
pub linear_rewards-exact :
    (eth token : ℕ) (d : Dict Ident (List Vote)) {us : List Ident} {es ts : List ℤ}
    → length d < 2 ^ 53
    → eth < 2 ^ 53
    → token < 2 ^ 53
    → calculate_linear_rewards (pos eth) (pos token) d ≡ ok (us, es, ts)
    → ((es ≡ replicate (length d) (pos (eth / length d)))
        × (paid es ≤ eth)
        × (eth < paid es + length d))
      × ((ts ≡ replicate (length d) (pos (token / length d)))
          × (paid ts ≤ token)
          × (token < paid ts + length d))
linear_rewards-exact eth token d {us} {es} {ts} few small small' e =
    let (some_user, users, eths, tokens) = linear_parts eth token d us es ts e in
    (
      paid_exact eth (length d) es some_user few small eths,
      paid_exact token (length d) ts some_user few small' tokens,
    )
