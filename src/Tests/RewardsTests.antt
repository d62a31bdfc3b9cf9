-- ===== src/Tests/RewardsTests.antt =====
-- Tests of the rewards, of their way to the contract, and of the deletion of an event.
use validation_node.Prelude.{
  Bool, true, ◌↔◌, none, some, List, [], ◌∷◌, ◌++◌, ◌≡◌, ◌≤◌, ◌<◌, ◌*◌, ◌/◌, ◌+◌, ◌^◌, refl, arith,
  length, map, replicate, All, if◌then◌else◌,
}
use validation_node.Prelude.Eq.{contains, nat_eq, pair_eq}
use validation_node.Prelude.Dict.{Dict, keys, update}
use validation_node.Prelude.Int.{ℤ, pos, ◌+ℤ◌}
use validation_node.Float
use validation_node.Database.Schema.{Ident, Text, Reward, lrem, ok}
use validation_node.Database.Votes.{get_consensus_answers}
use validation_node.Database.Events.{delete_all_event_data}
use validation_node.Database.Events.Deletion.{IsGone, IsKept, delete_all-IsGone}
use validation_node.Database.Rewards
use validation_node.Database.Rewards.{Lists3, transform_dict_to_lists, transform_lists_to_dict}
use validation_node.Database.Rewards.Lists.{transform_lists-transform_dict}
use validation_node.Node.{Node, queue_transaction}
use validation_node.Rewards.Distribution.{calculate_linear_rewards, int_quotient}
use validation_node.Rewards.Bounds.{paid, linear_rewards-bounds, linear_rewards-exact}
use validation_node.Rewards.Calculation.{plan_stakes, add_stakes}
use validation_node.Rewards.Calculation.Ledger.{paid_tokens, staked, stakes-conserve}
use validation_node.Rewards.Chain.{
  Contract, set_rewards_on_blockchain, validate_event_data_on_blockchain,
}
use validation_node.Rewards.Chain.Chunks.{concat3, IsCall, call_of, set_rewards_complete}
use validation_node.Rewards.Chain.Agreement.{IsAgreed, verdict, hash_of, validate-approves_iff}
use validation_node.Tests.{sample_event, sample_db, sample_node, sample_votes, voted_db, vote_of}

linear :
    calculate_linear_rewards (pos 7) (pos 9) sample_votes
    ≡ ok (7 ∷ 8 ∷ [], pos 3 ∷ pos 3 ∷ [], pos 4 ∷ pos 4 ∷ [])
unfolding calculate_linear_rewards int_quotient Float.int_div Float.trunc
linear = refl

abbrev sample_rewards : Dict Ident Reward
sample_rewards =
    (7, record { eth = pos 3; token = pos 4 }) ∷ (8, record { eth = pos 3; token = pos 4 }) ∷ []

abbrev sample_contract : Contract
sample_contract = record {
  rewards_index = 8 ∷ 7 ∷ [];
  get_rewards = λ us. (map (λ u. pos 3) us, map (λ u. pos 4) us);
  consensus_answers = some [];
}

abbrev rewarded_node : Node
rewarded_node = record sample_node {
  db = record sample_db { rewards = update 1 (some sample_rewards) (λ i. none) };
}

abbrev sample_hash : List Ident → List ℤ → List ℤ → Text
sample_hash us es ts = us

stored_rewards : Rewards.get 1 rewarded_node.db ≡ some sample_rewards
unfolding Rewards.get
stored_rewards = refl

linear_rewards-bounds_example :
    (7 ∷ 8 ∷ [] ≡ keys sample_votes)
    × (2 ≡ length sample_votes)
    × (2 ≡ length sample_votes)
    × (2 ^ 53 * paid (pos 3 ∷ pos 3 ∷ []) ≤ (2 ^ 53 + 1) * 7)
    × (2 ^ 53 * paid (pos 4 ∷ pos 4 ∷ []) ≤ (2 ^ 53 + 1) * 9)
linear_rewards-bounds_example = linear_rewards-bounds 7 9 sample_votes (omega arith) linear

linear_rewards-exact_example :
    ((pos 3 ∷ pos 3 ∷ [] ≡ replicate 2 (pos (7 / 2)))
      × (paid (pos 3 ∷ pos 3 ∷ []) ≤ 7)
      × (7 < paid (pos 3 ∷ pos 3 ∷ []) + 2))
    × ((pos 4 ∷ pos 4 ∷ [] ≡ replicate 2 (pos (9 / 2)))
        × (paid (pos 4 ∷ pos 4 ∷ []) ≤ 9)
        × (9 < paid (pos 4 ∷ pos 4 ∷ []) + 2))
linear_rewards-exact_example =
    linear_rewards-exact 7 9 sample_votes (omega arith) (omega arith) (omega arith) linear

validate-approves_iff_example :
    (approved : Bool) × ((approved ≡ true)
      ↔ IsAgreed sample_contract
          (λ u. pos 3)
          (λ u. pos 4)
          (get_consensus_answers 1 rewarded_node.db)
          sample_rewards)
    × (validate_event_data_on_blockchain sample_hash sample_contract 1 1 rewarded_node
        ≡ ok (
            queue_transaction 1
              (verdict approved 1 (hash_of sample_hash sample_rewards))
              rewarded_node))
validate-approves_iff_example =
    validate-approves_iff sample_hash sample_contract 1 1 rewarded_node sample_rewards (λ u. pos 3)
      (λ u. pos 4) stored_rewards (refl, (refl, tt)) (refl, (refl, tt)) (λ us. refl)

set_rewards_complete_example :
    (calls : List Lists3) × (set_rewards_on_blockchain 1
        (7 ∷ 8 ∷ [])
        (pos 3 ∷ pos 3 ∷ [])
        (pos 4 ∷ pos 4 ∷ [])
        sample_node
      ≡ ok (record sample_node { submitted = sample_node.submitted ++ map (call_of 1) calls }))
    × (concat3 calls ≡ (7 ∷ 8 ∷ [], pos 3 ∷ pos 3 ∷ [], pos 4 ∷ pos 4 ∷ []))
    × All IsCall calls
set_rewards_complete_example =
    set_rewards_complete 1 (7 ∷ 8 ∷ []) (pos 3 ∷ pos 3 ∷ []) (pos 4 ∷ pos 4 ∷ []) sample_node refl
      refl

abbrev long_list : List Ident
long_list = replicate 45 7

stakes-conserve_example :
    ((plan_stakes sample_event (vote_of 7 10) sample_votes (pos 100) voted_db).token_balance
        +ℤ pos (
            staked sample_event
              (plan_stakes sample_event (vote_of 7 10) sample_votes (pos 100) voted_db))
      ≡ pos 100)
    × (paid_tokens (
          add_stakes sample_event
            (plan_stakes sample_event (vote_of 7 10) sample_votes (pos 100) voted_db)
            sample_rewards)
        ≡ paid_tokens sample_rewards
          +ℤ pos (
              staked sample_event
                (plan_stakes sample_event (vote_of 7 10) sample_votes (pos 100) voted_db)))
stakes-conserve_example =
    stakes-conserve sample_event (vote_of 7 10) sample_votes (pos 100) voted_db sample_rewards

delete_all-IsGone_example :
    IsGone sample_event (delete_all_event_data 1 voted_db).0
    × IsKept 2 voted_db (delete_all_event_data 1 voted_db).0
    × ((delete_all_event_data 1 voted_db).0.event_ids ≡ lrem 1 voted_db.event_ids)
    × ((delete_all_event_data 1 voted_db).0.votes (1, 11)
        ≡ (if contains sample_event.node_addresses 11 then [] else voted_db.votes (1, 11)))
    × ((delete_all_event_data 1 voted_db).0.rewards_user_ids ≡ voted_db.rewards_user_ids)
delete_all-IsGone_example = delete_all-IsGone sample_event 2 11 voted_db refl (omega arith)

transform_lists-transform_dict_example :
    (us : List Ident) × (es : List ℤ) × (ts : List ℤ) × (transform_dict_to_lists
        (some sample_rewards)
      ≡ ok (us, es, ts))
    × (us ≡ keys sample_rewards)
    × (transform_lists_to_dict us es ts ≡ sample_rewards)
transform_lists-transform_dict_example =
    transform_lists-transform_dict sample_rewards (refl, (refl, tt))
