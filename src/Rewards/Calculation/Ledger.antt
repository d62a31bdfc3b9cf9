-- ===== src/Rewards/Calculation/Ledger.antt =====
-- The tokens of the rewards: the shares and the stakes that are returned.
use validation_node.Prelude.{
  ℕ, ◌+◌, ◌*◌, List, [], ◌∷◌, ◌≡◌, refl, ap, ◌∙◌, sym, arith, length, if◌then◌else◌, Bool-cases,
  inl, inr,
}
use validation_node.Prelude.Eq.{nat_eq, ◌==◌}
use validation_node.Prelude.Dict.{Dict, insert}
use validation_node.Prelude.Int.{
  ℤ, pos, ◌+ℤ◌, ◌-ℤ◌, -ℤ_parts, pos_part, neg_part, +ℤ_parts, eq_of_parts,
}
use validation_node.Database.Schema.{Ident, Vote, Reward, VerityEvent, Db}
use validation_node.Database.Rewards.{reward_dict}
use validation_node.Rewards.Calculation.{
  RewardsDict, reward_at, add_tokens, add_tokens_to_all, StakePlan, plan_stakes, add_stakes,
}

-- The tokens of all users, as what is paid and what is owed.
abbrev pub paid_tokens : RewardsDict → ℤ
paid_tokens [] = pos 0
paid_tokens ((u, r) ∷ d) = r.token +ℤ paid_tokens d

add_left : (a b c : ℤ) → a +ℤ b +ℤ c ≡ a +ℤ (b +ℤ c)
add_left a b c =
    eq_of_parts _ _
      (omega (arith, +ℤ_parts (a +ℤ b) c, +ℤ_parts a b, +ℤ_parts a (b +ℤ c), +ℤ_parts b c))

swap_ends : (a b c : ℤ) → a +ℤ b +ℤ c ≡ c +ℤ b +ℤ a
swap_ends a b c =
    eq_of_parts _ _
      (omega (arith, +ℤ_parts (a +ℤ b) c, +ℤ_parts a b, +ℤ_parts (c +ℤ b) a, +ℤ_parts c b))

zero_last : (a b : ℤ) → a +ℤ b +ℤ pos 0 ≡ b +ℤ a
zero_last a b =
    eq_of_parts _ _ (omega (arith, +ℤ_parts (a +ℤ b) (pos 0), +ℤ_parts a b, +ℤ_parts b a))

-- To set the reward of a user replaces the tokens that it had.
insert-tokens :
    (u : Ident) (r : Reward) (d : RewardsDict)
    → paid_tokens (insert u r d) +ℤ (reward_at u d).token ≡ paid_tokens d +ℤ r.token
unfolding reward_at reward_dict
insert-tokens u r [] = zero_last r.token (pos 0)
insert-tokens u r ((v, q) ∷ d) = elim (Bool-cases (u == v)) [
  | inl same ↦ rw (same, reward_at) (swap_ends r.token (paid_tokens d) q.token)
  | inr other ↦
      rw (other, reward_at)
        (add_left q.token (paid_tokens (insert u r d)) (reward_at u d).token
          ∙ ap (λ x. q.token +ℤ x) (insert-tokens u r d)
          ∙ sym (add_left q.token (paid_tokens d) r.token))
]

-- `a + b` more on both sides of the replacement.
cancel : (x y t a : ℤ) → x +ℤ t ≡ y +ℤ (t +ℤ a) → x ≡ y +ℤ a
cancel x y t a h = eq_of_parts _ _ (
    omega (
      arith,
      +ℤ_parts x t,
      +ℤ_parts y (t +ℤ a),
      +ℤ_parts t a,
      +ℤ_parts y a,
      ap pos_part h,
      ap neg_part h,
    ))

tokens-add_tokens :
    (u : Ident) (amount : ℕ) (d : RewardsDict)
    → paid_tokens (add_tokens u amount d) ≡ paid_tokens d +ℤ pos amount
unfolding add_tokens
tokens-add_tokens u amount d =
    let old = reward_at u d in
    cancel _ _ old.token (pos amount)
      (insert-tokens u (record old { token = old.token +ℤ pos amount }) d)

add_nothing : (a : ℤ) (n : ℕ) → n ≡ 0 → a ≡ a +ℤ pos n
add_nothing a n h = eq_of_parts _ _ (omega (arith, +ℤ_parts a (pos n)))

merge : (a : ℤ) (n m : ℕ) → a +ℤ pos n +ℤ pos m ≡ a +ℤ pos (n + m)
merge a n m =
    eq_of_parts _ _
      (omega (arith, +ℤ_parts (a +ℤ pos n) (pos m), +ℤ_parts a (pos n), +ℤ_parts a (pos (n + m))))

tokens-add_tokens_to_all :
    (us : List Ident) (amount : ℕ) (d : RewardsDict)
    → paid_tokens (add_tokens_to_all us amount d) ≡ paid_tokens d +ℤ pos (length us * amount)
unfolding add_tokens_to_all
tokens-add_tokens_to_all [] amount d = add_nothing (paid_tokens d) (0 * amount) (omega arith)
tokens-add_tokens_to_all (u ∷ us) amount d =
    tokens-add_tokens_to_all us amount (add_tokens u amount d)
    ∙ ap (λ x. x +ℤ pos (length us * amount)) (tokens-add_tokens u amount d)
    ∙ merge (paid_tokens d) amount (length us * amount)
    ∙ ap (λ n. paid_tokens d +ℤ pos n) (omega arith)

-- What the stakes of a plan come to.
abbrev pub staked : VerityEvent → StakePlan → ℕ
staked event plan =
    (if plan.return_dispute_stake then event.dispute_amount else 0)
    + length plan.to_return * event.staking_amount

tokens-add_stakes :
    (event : VerityEvent) (plan : StakePlan) (d : RewardsDict)
    → paid_tokens (add_stakes event plan d) ≡ paid_tokens d +ℤ pos (staked event plan)
unfolding add_stakes
tokens-add_stakes event plan d = elim (Bool-cases plan.return_dispute_stake) [
  | inl returned ↦ rw returned (
      tokens-add_tokens_to_all plan.to_return event.staking_amount
        (add_tokens event.disputer event.dispute_amount d)
      ∙ ap (λ x. x +ℤ pos (length plan.to_return * event.staking_amount))
          (tokens-add_tokens event.disputer event.dispute_amount d)
      ∙ merge (paid_tokens d) event.dispute_amount _)
  | inr not_returned ↦ rw not_returned (
      tokens-add_tokens_to_all plan.to_return event.staking_amount d
      ∙ ap (λ n. paid_tokens d +ℤ pos n) (omega arith))
]

split_balance :
    (b : ℤ) (dispute stakes : ℕ) (n m : ℕ)
    → stakes ≡ m * n
    → (b -ℤ pos dispute -ℤ pos (n * m)) +ℤ pos (dispute + stakes) ≡ b
split_balance b dispute stakes n m h = eq_of_parts _ _ (
    omega (
      arith,
      h,
      -ℤ_parts b (pos dispute),
      -ℤ_parts (b -ℤ pos dispute) (pos (n * m)),
      +ℤ_parts (b -ℤ pos dispute -ℤ pos (n * m)) (pos (dispute + stakes)),
    ))

keep_balance :
    (b : ℤ) (stakes n m : ℕ) → stakes ≡ m * n → (b -ℤ pos (n * m)) +ℤ pos (0 + stakes) ≡ b
keep_balance b stakes n m h =
    eq_of_parts _ _
      (omega (arith, h, -ℤ_parts b (pos (n * m)), +ℤ_parts (b -ℤ pos (n * m)) (pos (0 + stakes))))

plan-balance :
    (event : VerityEvent) (v : Vote) (c : Dict Ident (List Vote)) (balance : ℤ) (db : Db)
    → (plan_stakes event v c balance db).token_balance
        +ℤ pos (staked event (plan_stakes event v c balance db))
      ≡ balance
unfolding plan_stakes
plan-balance event v c balance db =
    elim (Bool-cases (plan_stakes event v c balance db).return_dispute_stake) [
      | inl returned ↦
          rw returned (split_balance balance event.dispute_amount _ event.staking_amount _ refl)
      | inr not_returned ↦ rw not_returned (keep_balance balance _ event.staking_amount _ refl)
    ]

-- What is shared and the stakes together are the balance of tokens. And the stakes that are returned
-- add to the tokens of the rewards just what they come to: none is lost or paid twice, also when one
-- user gets several.
pub stakes-conserve :
    (event : VerityEvent) (v : Vote) (c : Dict Ident (List Vote)) (balance : ℤ) (db : Db)
    (d : RewardsDict)
    → ((plan_stakes event v c balance db).token_balance
          +ℤ pos (staked event (plan_stakes event v c balance db))
        ≡ balance)
      × (paid_tokens (add_stakes event (plan_stakes event v c balance db) d)
          ≡ paid_tokens d +ℤ pos (staked event (plan_stakes event v c balance db)))
stakes-conserve event v c balance db d = (
  plan-balance event v c balance db,
  tokens-add_stakes event (plan_stakes event v c balance db) d,
)
