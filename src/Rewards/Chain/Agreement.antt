-- ===== src/Rewards/Chain/Agreement.antt =====
-- When a node approves the rewards on the contract, and when it rejects them.
use mathlib.Core.List.{append_assoc, map-append}
use validation_node.Prelude.{
  ℕ, Bool, true, false, ◌&&◌, some, List, [], ◌∷◌, ◌++◌, ◌≡◌, ◌↔◌, refl, sym, ap, ap₂, subst, ◌∙◌,
  arith, map, append-nil, Bool-cases, inl, inr,
}
use validation_node.Prelude.Eq.{◌==◌, nat_eq, list_eq, option_eq, HasNoRepeats, ==_iff}
use validation_node.Prelude.Dict.{Dict, keys, values}
use validation_node.Prelude.Int.{ℤ}
use validation_node.Database.Schema.{Ident, Text, Reward, ok}
use validation_node.Database.Votes.{get_consensus_answers}
use validation_node.Database.Rewards
use validation_node.Database.Rewards.{transform_lists_to_dict, dict_eq}
use validation_node.Database.Rewards.Lists.{eth_of, token_of, transform_lists-eq, transform_dict-eq}
use validation_node.Node.{Node, Transaction, approve_rewards, reject_rewards, queue_transaction}
use validation_node.Rewards.Chain.{
  Contract, fetch, list_to_chunks, contract_rewards, do_rewards_match,
  validate_event_data_on_blockchain,
}
use validation_node.Rewards.Chain.Chunks.{concat, concat-list_to_chunks}
use validation_node.Rewards.Chain.Comparison.{
  IsSame, table, keys-table, values-table, dict_eq-table,
}

-- The contract gives an amount for each user that it is asked for.
abbrev IsPointwise : Contract → (Ident → ℤ) → (Ident → ℤ) → Type 0
IsPointwise contract eth token =
    (us : List Ident) → contract.get_rewards us ≡ (map eth us, map token us)

spread :
    (f : Ident → ℤ) (xs : List ℤ) (c rest : List Ident)
    → xs ++ map f c ++ map f rest ≡ xs ++ map f (c ++ rest)
spread f xs c rest =
    append_assoc xs (map f c) (map f rest) ∙ ap (λ ys. xs ++ ys) (sym (map-append f c rest))

fetch-eq :
    (contract : Contract) (eth token : Ident → ℤ)
    → IsPointwise contract eth token
    → (chunks : List (List Ident)) (es ts : List ℤ)
    → fetch contract.get_rewards chunks es ts
      ≡ (es ++ map eth (concat chunks), ts ++ map token (concat chunks))
unfolding fetch
fetch-eq contract eth token p [] es ts = cc (append-nil es, append-nil ts)
fetch-eq contract eth token p (c ∷ chunks) es ts = rw (p c) (
    fetch-eq contract eth token p chunks (es ++ map eth c) (ts ++ map token c)
    ∙ ap₂ (λ u v. (u, v)) (spread eth es c (concat chunks)) (spread token ts c (concat chunks)))

-- What the node reads, in chunks, is what the contract has for the whole index.
contract_rewards-eq :
    (contract : Contract) (eth token : Ident → ℤ)
    → IsPointwise contract eth token
    → contract_rewards contract
      ≡ transform_lists_to_dict contract.rewards_index
          (map eth contract.rewards_index)
          (map token contract.rewards_index)
unfolding contract_rewards
contract_rewards-eq contract eth token p =
    rw
      (
        fetch-eq contract eth token p (list_to_chunks contract.rewards_index) [] [],
        (concat-list_to_chunks contract.rewards_index).0,
      )
      refl

contract_rewards-table :
    (contract : Contract) (eth token : Ident → ℤ)
    → IsPointwise contract eth token
    → HasNoRepeats contract.rewards_index
    → contract_rewards contract ≡ table eth token contract.rewards_index
contract_rewards-table contract eth token p n =
    let index = contract.rewards_index in
    let k = keys-table eth token index in
    cc (
      contract_rewards-eq contract eth token p,
      transform_lists-eq (table eth token index) (subst HasNoRepeats (sym k) n),
      k,
      (values-table eth token index).0,
      (values-table eth token index).1,
    )

-- The consensus answers and the rewards of the contract are those of the node.
pub record IsAgreed (contract : Contract) (eth token : Ident → ℤ) (answers : List Text)
    (d : Dict Ident Reward) : Type 0 where
  pub same_rewards : IsSame contract.rewards_index eth token d
  pub same_answers : contract.consensus_answers ≡ some answers

decided :
    (contract : Contract) (eth token : Ident → ℤ) (answers : List Text) (d : Dict Ident Reward)
    → HasNoRepeats (keys d)
    → HasNoRepeats contract.rewards_index
    → ((dict_eq d (table eth token contract.rewards_index)
          && contract.consensus_answers == some answers)
        ≡ true)
      ↔ IsAgreed contract eth token answers d
decided contract eth token answers d n m =
    let rewards = dict_eq-table eth token contract.rewards_index d n m in
    let texts = ==_iff contract.consensus_answers (some answers) in
    (
      λ h. record {
        same_rewards = rewards.0 (ground (arith, h));
        same_answers = texts.0 (ground (arith, h));
      },
      λ h. ground (arith, rewards.1 h.same_rewards, texts.1 h.same_answers),
    )

-- What is sent for the round.
abbrev pub verdict : Bool → ℕ → Text → Transaction
verdict true round rewards_hash = approve_rewards round
verdict false round rewards_hash = reject_rewards round rewards_hash

module _ (hash : List Ident → List ℤ → List ℤ → Text) where
  abbrev pub hash_of : Dict Ident Reward → Text
  hash_of d = hash (keys d) (map eth_of (values d)) (map token_of (values d))

  -- A node with stored rewards sends one transaction and changes nothing else, when neither its rewards nor the
  -- contract's index has a user twice and the contract gives amounts user by user: an approval of the
  -- round exactly when the contract has the same consensus answers and the same rewards for the same users, in any order,
  -- and otherwise a rejection with the hash of the node's own rewards.
  pub validate-approves_iff :
      (contract : Contract) (event_id : Ident) (round : ℕ) (node : Node) (d : Dict Ident Reward)
      (eth token : Ident → ℤ)
      → Rewards.get event_id node.db ≡ some d
      → HasNoRepeats (keys d)
      → HasNoRepeats contract.rewards_index
      → ((us : List Ident) → contract.get_rewards us ≡ (map eth us, map token us))
      → (approved : Bool) × ((approved ≡ true)
          ↔ IsAgreed contract eth token (get_consensus_answers event_id node.db) d)
        × (validate_event_data_on_blockchain hash contract event_id round node
            ≡ ok (queue_transaction event_id (verdict approved round (hash_of d)) node))
  unfolding validate_event_data_on_blockchain do_rewards_match
  validate-approves_iff contract event_id round node d eth token stored n m p =
      let answers = get_consensus_answers event_id node.db in
      let found = dict_eq d (table eth token contract.rewards_index) in
      let same = contract.consensus_answers == some answers in
      (
        found && same,
        decided contract eth token answers d n m,
        rw (stored, contract_rewards-table contract eth token p m)
            (elim (Bool-cases (found && same)) [
              | inl agreed ↦ rw agreed refl
              | inr differ ↦ rw (differ, transform_dict-eq d n) refl
            ]),
      )
