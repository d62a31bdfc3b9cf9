-- ===== src/Rewards/Distribution.antt =====
-- How a balance is shared (`calculate_linear_rewards`, `calculate_exponential_rewards` and their
-- helpers), in the binary64 arithmetic of Float.
use validation_node.Prelude.{
  ℕ, zero, suc, ◌+◌, ◌-◌, ◌*◌, ◌/◌, ◌%◌, List, [], ◌∷◌, map, length, sum, replicate, ltb, leb, eqb,
  if◌then◌else◌,
}
use validation_node.Prelude.Dict.{Dict, keys}
use validation_node.Prelude.Int.{ℤ, pos, negsuc}
use validation_node.Prelude.Sort.{sorted}
use validation_node.Float
use validation_node.Float.{Float, of_int, int_div, trunc, scale}
use validation_node.Database.Schema.{Ident, Vote, Result, ok, raise, zero_division}

-- The users, and the reward of each in Ether and in tokens.
abbrev pub Shares : Type 0
Shares = List Ident × List ℤ × List ℤ

abbrev pub neg : ℕ → ℤ
neg zero = pos 0
neg (suc n) = negsuc n

-- `int` and the float operations are symmetric in the sign.
abbrev pub with_sign : (ℕ → ℕ) → ℤ → ℤ
with_sign f (pos n) = pos (f n)
with_sign f (negsuc n) = neg (f (suc n))

-- `int(balance / votes_count)`
unfoldable pub int_quotient : ℤ → ℕ → ℤ
int_quotient balance votes_count = with_sign (λ n. trunc (int_div n votes_count)) balance

unfoldable pub calculate_linear_rewards : ℤ → ℤ → Dict Ident (List Vote) → Result Shares
unfolding int_quotient
calculate_linear_rewards ether_balance token_balance consensus_votes_by_users =
    let votes_count = length consensus_votes_by_users in
    if eqb votes_count 0
    then raise zero_division
    else ok (
      keys consensus_votes_by_users,
      replicate votes_count (int_quotient ether_balance votes_count),
      replicate votes_count (int_quotient token_balance votes_count),
    )

unfoldable pub exponential_factor : Float → Float → ℕ → Float
exponential_factor min_reward factor i =
    Float.add min_reward (Float.div (of_int 1) (Float.add (Float.mul factor (of_int i)) (of_int 1)))

last_or : ℕ → List ℕ → ℕ
last_or d [] = d
last_or d (x ∷ xs) = last_or x xs

-- The last factor, and the multiplier. The list is not empty where this is called.
unfoldable pub determine_params : List Float → Float × Float
unfolding last_or
determine_params [] = (0, 0)
determine_params (r ∷ rewards_list) =
    let last = last_or r rewards_list in
    let first = Float.sub r last in
    let first' = if ltb first (of_int 1) then of_int 1 else first in
    (last, Float.div (of_int 29) first')

unfoldable pub rescale : Float → Float → Float → Float
rescale reward last multi = Float.add (Float.mul (Float.sub reward last) multi) (of_int 1)

pub data VoteTimestampsMetric : Type 0 where
  mean median : VoteTimestampsMetric

-- `statistics.mean` of integers is an integer if it is whole, and a float otherwise. A score is held
-- as a `Float` is, and an integer exactly.
unfoldable pub mean_score : List ℕ → ℕ
mean_score ts =
    if eqb (sum ts % length ts) 0 then sum ts / length ts * scale else int_div (sum ts) (length ts)

-- `data[i]`; the index is in range where this is called
at : ℕ → List ℕ → ℕ
at i [] = 0
at zero (x ∷ xs) = x
at (suc i) (x ∷ xs) = at i xs

abbrev number : ℕ → ℕ
number t = t

unfoldable pub median_score : List ℕ → ℕ
unfolding at sorted
median_score ts =
    let data_ = sorted leb number ts in
    let n = length ts in
    if eqb (n % 2) 1
    then at (n / 2) data_ * scale
    else int_div (at (n / 2 - 1) data_ + at (n / 2) data_) 2

unfoldable pub score : VoteTimestampsMetric → List ℕ → ℕ
unfolding mean_score median_score
score mean ts = mean_score ts
score median ts = median_score ts

timestamp_of : Vote → ℕ
timestamp_of v = v.timestamp

-- Users without a timestamp are skipped.
scores : VoteTimestampsMetric → Dict Ident (List Vote) → List (Ident × ℕ)
unfolding score timestamp_of
scores metric [] = []
scores metric ((u, []) ∷ d) = scores metric d
scores metric ((u, v ∷ votes) ∷ d) =
    (u, score metric (map timestamp_of (v ∷ votes))) ∷ scores metric d

abbrev score_of : Ident × ℕ → ℕ
score_of e = e.1

unfoldable pub order_users_by_vote_timestamps :
    Dict Ident (List Vote) → VoteTimestampsMetric → List Ident
unfolding scores sorted
order_users_by_vote_timestamps consensus_votes_by_users metric =
    keys (sorted leb score_of (scores metric consensus_votes_by_users))

-- `[f(i) for i in range(n)]`, from `i` on
range_map : (ℕ → ℕ) → ℕ → ℕ → List ℕ
range_map f zero i = []
range_map f (suc n) i = f i ∷ range_map f n (suc i)

add_all : Float → List Float → Float
add_all acc [] = acc
add_all acc (x ∷ xs) = add_all (Float.add acc x) xs

-- The rescaled factors of the users, the first to vote first.
unfoldable pub exponential_factors : ℕ → List Float
unfolding exponential_factor determine_params rescale range_map
exponential_factors num_users =
    let min_reward = of_int 1 in
    let factor = int_div 8 num_users in
    let factors = range_map (exponential_factor min_reward factor) num_users 0 in
    let (last, multi) = determine_params factors in map (λ r. rescale r last multi) factors

unfoldable pub calculate_exponential_rewards : ℤ → ℤ → Dict Ident (List Vote) → Shares
unfolding order_users_by_vote_timestamps exponential_factors add_all
calculate_exponential_rewards ether_balance token_balance consensus_votes_by_users =
    let user_ids = order_users_by_vote_timestamps consensus_votes_by_users mean in
    let factors = exponential_factors (length consensus_votes_by_users) in
    let rewards_sum = add_all 0 factors in
    let reward = λ (balance : ℤ) (factor : Float).
      with_sign (λ n. trunc (Float.mul (Float.div factor rewards_sum) (of_int n))) balance in
    elim user_ids [
      | [] ↦ ([], [], [])
      | u ∷ us ↦ (u ∷ us, map (reward ether_balance) factors, map (reward token_balance) factors)
    ]
