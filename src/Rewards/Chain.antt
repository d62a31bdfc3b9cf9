-- ===== src/Rewards/Chain.antt =====
-- The rewards on the contract: `event_data_to_blockchain` of the master node and
-- `validate_event_data_on_blockchain` of every node (app/ethereum/rewards.py), with the chunks of
-- app/common.py. The calls of the contract, the encoding of an answer and the hash of the rewards are
-- parameters.
pub mod Chunks
pub mod Comparison
pub mod Agreement
use validation_node.Prelude.{
  ℕ, zero, suc, ◌+◌, Bool, true, false, ◌&&◌, Option, none, some, List, [], ◌∷◌, ◌++◌, map, length,
  take, drop, eqb, if◌then◌else◌,
}
use validation_node.Prelude.Eq.{Eq, ◌==◌, nat_eq, list_eq, option_eq}
use validation_node.Prelude.Dict.{Dict}
use validation_node.Prelude.Int.{ℤ}
use validation_node.Database.Schema.{Ident, Text, Reward, Result, ok, raise, assertion_error, ◌>>=◌}
use validation_node.Database.Votes.{get_consensus_answers}
use validation_node.Database.Rewards
use validation_node.Database.Rewards.{
  Lists3, get_lists, transform_lists_to_dict, transform_dict_to_lists, dict_eq,
}
use validation_node.Node.{
  Node, Transaction, set_rewards, set_results, mark_rewards_set, approve_rewards, reject_rewards,
  queue_transaction,
}

-- `common.CHUNK_SIZE`
abbrev pub chunk_size : ℕ
chunk_size = 20

-- The slices from every start in `range(0, len(list_), size)`, one unit of fuel for each.
chunks_from : {A : Type 0} → ℕ → ℕ → List A → List (List A)
chunks_from zero size xs = []
chunks_from (suc fuel) size [] = []
chunks_from (suc fuel) size (x ∷ xs) =
    take size (x ∷ xs) ∷ chunks_from fuel size (drop size (x ∷ xs))

-- There are not more slices than elements.
unfoldable pub list_to_chunks : {A : Type 0} → List A → List (List A)
unfolding chunks_from
list_to_chunks xs = chunks_from (length xs) chunk_size xs

-- `zip`
zip3 : {A B C : Type 0} → List A → List B → List C → List (A × B × C)
zip3 (x ∷ xs) (y ∷ ys) (z ∷ zs) = (x, y, z) ∷ zip3 xs ys zs
zip3 _ _ _ = []

-- `lists_to_chunks` of three lists
unfoldable pub lists_to_chunks :
    {A B C : Type 0} → List A → List B → List C → Result (List (List A × List B × List C))
unfolding list_to_chunks zip3
lists_to_chunks xs ys zs =
    if eqb (length xs) (length ys) && eqb (length xs) (length zs)
    then ok (zip3 (list_to_chunks xs) (list_to_chunks ys) (list_to_chunks zs))
    else raise assertion_error

unfoldable pub queue_chunks : Ident → List Lists3 → Node → Node
unfolding queue_transaction
queue_chunks event_id [] node = node
queue_chunks event_id ((us, es, ts) ∷ chunks) node =
    queue_chunks event_id chunks (queue_transaction event_id (set_rewards us es ts) node)

unfoldable pub set_rewards_on_blockchain : Ident → List Ident → List ℤ → List ℤ → Node → Result Node
unfolding lists_to_chunks queue_chunks
set_rewards_on_blockchain event_id user_ids eth_rewards token_rewards node =
    lists_to_chunks user_ids eth_rewards token_rewards >>= λ chunks.
    ok (queue_chunks event_id chunks node)

module _ (to_bytes : Text → Text) where
  unfoldable pub set_result_on_blockchain : Ident → Node → Node
  set_result_on_blockchain event_id node =
      queue_transaction event_id
        (set_results (map to_bytes (get_consensus_answers event_id node.db))) node

-- `Rewards.hash`, whose arguments are the lists as texts.
module _ (hash : List Ident → List ℤ → List ℤ → Text) where
  unfoldable pub mark_rewards_on_blockchain : Ident → List Ident → List ℤ → List ℤ → Node → Node
  mark_rewards_on_blockchain event_id user_ids eth_rewards token_rewards node =
      queue_transaction event_id (mark_rewards_set (hash user_ids eth_rewards token_rewards)) node

module _ (to_bytes : Text → Text) (hash : List Ident → List ℤ → List ℤ → Text) where
  unfoldable pub event_data_to_blockchain : Ident → Node → Result Node
  event_data_to_blockchain event_id node = get_lists event_id node.db >>= λ (us, es, ts).
      set_rewards_on_blockchain event_id us es ts node >>= λ node'. ok (
        mark_rewards_on_blockchain hash event_id us es ts
          (set_result_on_blockchain to_bytes event_id node'))

-- What the event's contract answers: `getRewardsIndex`, `getRewards`, and
-- `common.consensus_answers_from_contract`.
pub record Contract : Type 0 where
  pub rewards_index : List Ident
  pub get_rewards : List Ident → List ℤ × List ℤ
  pub consensus_answers : Option (List Text)

-- The loop over the chunks of the users.
fetch : (List Ident → List ℤ × List ℤ) → List (List Ident) → List ℤ → List ℤ → List ℤ × List ℤ
fetch get_rewards [] ether token = (ether, token)
fetch get_rewards (c ∷ chunks) ether token =
    let (es, ts) = get_rewards c in fetch get_rewards chunks (ether ++ es) (token ++ ts)

-- `contract_rewards_dict`
unfoldable pub contract_rewards : Contract → Dict Ident Reward
unfolding fetch list_to_chunks
contract_rewards contract =
    let (es, ts) = fetch contract.get_rewards (list_to_chunks contract.rewards_index) [] [] in
    transform_lists_to_dict contract.rewards_index es ts

-- `==`, where the node's rewards can be `None`
unfoldable pub do_rewards_match : Option (Dict Ident Reward) → Dict Ident Reward → Bool
do_rewards_match none contract_rewards_dict = false
do_rewards_match (some d) contract_rewards_dict = dict_eq d contract_rewards_dict

module _ (hash : List Ident → List ℤ → List ℤ → Text) where
  unfoldable pub validate_event_data_on_blockchain : Contract → Ident → ℕ → Node → Result Node
  validate_event_data_on_blockchain contract event_id validation_round node =
      let node_rewards_dict = Rewards.get event_id node.db in
      let rewards_match = do_rewards_match node_rewards_dict (contract_rewards contract) in
      let consensus_match =
        contract.consensus_answers == some (get_consensus_answers event_id node.db) in
      if rewards_match && consensus_match
      then ok (queue_transaction event_id (approve_rewards validation_round) node)
      else transform_dict_to_lists node_rewards_dict >>= λ (us, es, ts).
          ok (queue_transaction event_id (reject_rewards validation_round (hash us es ts)) node)
