-- ===== src/Rewards/Calculation.antt =====
-- `calculate_consensus_rewards` and `calculate_non_consensus_rewards`.
pub mod Ledger
use validation_node.Prelude.{
  ℕ, zero, suc, ◌*◌, Bool, true, false, Option, none, some, List, [], ◌∷◌, length, eqb,
  if◌then◌else◌,
}
use validation_node.Prelude.Eq.{contains, nat_eq}
use validation_node.Prelude.Dict.{Dict, keys, values, has_key, lookup, insert, erase}
use validation_node.Prelude.Int.{ℤ, pos, ◌+ℤ◌, ◌-ℤ◌}
use validation_node.Database.Schema.{
  Ident, Vote, VerityEvent, Reward, Db, Result, ok, raise, key_error, index_error, type_error,
  ◌>>=◌,
}
use validation_node.Database.Votes.{answers_from_vote}
use validation_node.Database.Grouping.{votes}
use validation_node.Database.Events.{metadata, participants, user_ids_without_vote}
use validation_node.Database.Rewards.{reward_dict}
use validation_node.Rewards.Stakes.{
  default_eth_address, should_return_dispute_stake, user_ids_to_return_join_stakes,
}
use validation_node.Rewards.Distribution.{
  Shares, calculate_linear_rewards, calculate_exponential_rewards,
}

abbrev pub RewardsDict : Type 0
RewardsDict = Dict Ident Reward

-- The dict comprehension over `enumerate(user_ids_rewards)`.
compose_onto : RewardsDict → List Ident → List ℤ → List ℤ → Result RewardsDict
unfolding reward_dict
compose_onto d [] es ts = ok d
compose_onto d (u ∷ us) (e ∷ es) (t ∷ ts) = compose_onto (insert u (reward_dict e t) d) us es ts
compose_onto d (u ∷ us) _ _ = raise index_error

unfoldable pub compose_rewards : Shares → Result RewardsDict
unfolding compose_onto
compose_rewards (us, es, ts) = compose_onto [] us es ts

-- The entry of a user, or the default of `reward_dict`.
unfoldable pub reward_at : Ident → RewardsDict → Reward
unfolding reward_dict
reward_at u d = elim (lookup u d) [ none ↦ reward_dict (pos 0) (pos 0) | some r ↦ r ]

-- `rewards_dict[user_id]['token'] += amount`, with the entry added first if there is none.
unfoldable pub add_tokens : Ident → ℕ → RewardsDict → RewardsDict
unfolding reward_at
add_tokens u amount d =
    let old = reward_at u d in insert u (record old { token = old.token +ℤ pos amount }) d

add_tokens_to_all : List Ident → ℕ → RewardsDict → RewardsDict
unfolding add_tokens
add_tokens_to_all [] amount d = d
add_tokens_to_all (u ∷ us) amount d = add_tokens_to_all us amount (add_tokens u amount d)

-- `list(d.values())[0][0]`
unfoldable pub first_vote : Dict Ident (List Vote) → Result Vote
first_vote [] = raise index_error
first_vote ((u, []) ∷ d) = raise index_error
first_vote ((u, v ∷ votes) ∷ d) = ok v

-- The distribution that the event's rules name. Without one the function returns `None`, which its
-- caller cannot unpack.
unfoldable pub distribute : ℕ → ℤ → ℤ → Dict Ident (List Vote) → Result Shares
distribute zero eth token d = calculate_linear_rewards eth token d
distribute (suc zero) eth token d = ok (calculate_exponential_rewards eth token d)
distribute (suc (suc n)) eth token d = raise type_error

-- What the stakes leave of the tokens, who takes part in the distribution, and who gets a stake.
pub record StakePlan : Type 0 where
  pub return_dispute_stake : Bool
  pub users : Dict Ident (List Vote)
  pub to_return : List Ident
  pub token_balance : ℤ

unfoldable pub plan_stakes : VerityEvent → Vote → Dict Ident (List Vote) → ℤ → Db → StakePlan
plan_stakes event consensus_vote consensus_votes_by_users token_balance db =
    let without_vote = user_ids_without_vote event db in
    let filtered = votes event (some 1) none (some consensus_vote) true db in
    let returns =
      should_return_dispute_stake event.disputer (lookup event.disputer filtered) without_vote
        (answers_from_vote (some consensus_vote))
        (metadata event db).0.previous_consensus_answers in
    let to_return =
      user_ids_to_return_join_stakes event.staking_amount (keys filtered) without_vote returns
        event.disputer in
    record {
      return_dispute_stake = returns;
      users =
          if returns
          then consensus_votes_by_users
          else if has_key event.disputer consensus_votes_by_users
          then erase event.disputer consensus_votes_by_users
          else consensus_votes_by_users;
      to_return = to_return;
      token_balance =
          (if returns then token_balance -ℤ pos event.dispute_amount else token_balance)
          -ℤ pos (event.staking_amount * length to_return);
    }

-- The dispute stake, then the join stakes.
unfoldable pub add_stakes : VerityEvent → StakePlan → RewardsDict → RewardsDict
unfolding add_tokens_to_all
add_stakes event plan d =
    add_tokens_to_all plan.to_return event.staking_amount
      (if plan.return_dispute_stake then add_tokens event.disputer event.dispute_amount d else d)

-- The new database is that of `event.metadata()`.
unfoldable pub calculate_consensus_rewards :
    VerityEvent → Dict Ident (List Vote) → ℤ → ℤ → Db → Result (List Ident × RewardsDict) × Db
calculate_consensus_rewards event consensus_votes_by_users ether_balance token_balance db =
    elim (first_vote consensus_votes_by_users) [
      | raise e ↦ (raise e, db)
      | ok consensus_vote ↦
          let plan = plan_stakes event consensus_vote consensus_votes_by_users token_balance db in
          (
            distribute event.rewards_distribution_function ether_balance plan.token_balance
                  plan.users
                >>= λ shares.
                    compose_rewards shares >>= λ d. ok (shares.0, add_stakes event plan d),
            (metadata event db).1,
          )
    ]

return_to_participants : List Ident → ℕ → RewardsDict → RewardsDict
unfolding reward_dict
return_to_participants [] amount d = d
return_to_participants (u ∷ us) amount d =
    return_to_participants us amount (insert u (reward_dict (pos 0) (pos amount)) d)

-- Every participant gets the join stake; the disputer, who has to be one, the dispute stake too.
unfoldable pub calculate_non_consensus_rewards :
    VerityEvent → Db → Result (List Ident × RewardsDict)
unfolding return_to_participants
calculate_non_consensus_rewards event db =
    let d = return_to_participants (participants event db) event.staking_amount [] in
    if eqb event.disputer default_eth_address
    then ok ([], d)
    else if has_key event.disputer d
    then ok ([], add_tokens event.disputer event.dispute_amount d)
    else raise key_error
