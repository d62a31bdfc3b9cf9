-- ===== src/Rewards/Stakes.antt =====
-- Who gets a stake back (`should_return_dispute_stake`, `user_ids_to_return_join_stakes`).
use validation_node.Prelude.{
  ℕ, Bool, true, false, not, Option, none, some, List, [], ◌++◌, ◌&&◌, eqb, if◌then◌else◌,
}
use validation_node.Prelude.Eq.{◌==◌, contains, nat_eq, list_eq, option_eq}
use validation_node.Database.Schema.{Ident, Text, Vote, lrem}

-- `common.default_eth_address`
abbrev pub default_eth_address : Ident
default_eth_address = 0

abbrev is_absent : Option (List Vote) → Bool
is_absent none = true
is_absent (some votes) = false

unfoldable pub should_return_dispute_stake :
    Ident → Option (List Vote) → List Ident → List Text → Option (List Text) → Bool
should_return_dispute_stake disputer_id disputer_votes_in_consensus user_ids_without_vote
      consensus_answers previous_answers =
    if eqb disputer_id default_eth_address
    then false
    else if is_absent disputer_votes_in_consensus
        && not (contains user_ids_without_vote disputer_id)
    then false
    else not (previous_answers == some consensus_answers)

unfoldable pub user_ids_to_return_join_stakes :
    ℕ → List Ident → List Ident → Bool → Ident → List Ident
user_ids_to_return_join_stakes staking_amount user_ids_consensus user_ids_without_vote
      return_dispute_stake disputer_id =
    let user_ids = user_ids_consensus ++ user_ids_without_vote in
    if eqb staking_amount 0
    then []
    else if not return_dispute_stake && contains user_ids disputer_id
    then lrem disputer_id user_ids
    else user_ids
