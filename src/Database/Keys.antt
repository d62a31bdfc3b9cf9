-- ===== src/Database/Keys.antt =====
-- The keys of Redis (the `key` methods and the prefixes of app/database/database.py), over texts.
pub mod Reading
use validation_node.Prelude.{Option, none, some, List, [], ◌∷◌}
use validation_node.Prelude.Texts.{codes, underscored}
use validation_node.Database.Schema.{Ident, Text}

-- What is stored under a key of its own.
pub data Place {ℓ} (A : Type ℓ) : Type ℓ where
  event metadata participants filters rewards rewards_user_ids voters votes_exists votes_consensus :
      A → Place A
  votes : A → A → Place A
  event_ids last_run event_registry node_registry : Place A

-- `BaseEvent.key`, for a `PREFIX`
unfoldable pub key : Text → Text → Text
key prefix event_id = underscored prefix event_id

unfoldable pub key_rewards_user_ids : Text → Text
key_rewards_user_ids event_id = underscored (codes "rewards_user_ids") event_id

-- `Vote.key`
unfoldable pub key_votes : Text → Text → Text
key_votes event_id node_id = underscored (codes "votes") (underscored event_id node_id)

unfoldable pub key_exists : Text → Text
key_exists event_id = underscored (codes "votes_exists") event_id

unfoldable pub key_common : Text → Text
key_common event_id = underscored (codes "votes_common") event_id

-- An element of the set under `key_exists`.
unfoldable pub key_user_node : Text → Text → Text
key_user_node node_id user_id = underscored node_id user_id

unfoldable pub key_consensus : Text → Text
key_consensus event_id = underscored (codes "votes_consensus") event_id

abbrev pub last_run_key : Text
last_run_key = codes "event_registry_last_run"

abbrev pub ids_key : Text
ids_key = codes "event_ids"

unfoldable pub key_event_registry : Text
key_event_registry = codes "event_registry_address"

unfoldable pub key_node_registry : Text
key_node_registry = codes "node_registry_address"

-- The key of each place.
unfoldable pub key_of : Place Text → Text
unfolding key key_rewards_user_ids key_votes key_exists key_common key_consensus key_event_registry
    key_node_registry
key_of (event e) = key (codes "event") e
key_of (metadata e) = key (codes "metadata") e
key_of (participants e) = key (codes "join_event") e
key_of (filters e) = key (codes "filters") e
key_of (rewards e) = key (codes "rewards") e
key_of (rewards_user_ids e) = key_rewards_user_ids e
key_of (voters e) = key_common e
key_of (votes_exists e) = key_exists e
key_of (votes_consensus e) = key_consensus e
key_of (votes e n) = key_votes e n
key_of event_ids = ids_key
key_of last_run = last_run_key
key_of event_registry = key_event_registry
key_of node_registry = key_node_registry

-- The text of an Ethereum address, whose digits `hex` renders.
abbrev pub address : (Ident → Text) → Ident → Text
address hex id = b'0' ∷ b'x' ∷ hex id

module _ (hex : Ident → Text) where
  -- The place with its identifiers as texts.
  abbrev pub rendered : Place Ident → Place Text
  rendered (event e) = event (address hex e)
  rendered (metadata e) = metadata (address hex e)
  rendered (participants e) = participants (address hex e)
  rendered (filters e) = filters (address hex e)
  rendered (rewards e) = rewards (address hex e)
  rendered (rewards_user_ids e) = rewards_user_ids (address hex e)
  rendered (voters e) = voters (address hex e)
  rendered (votes_exists e) = votes_exists (address hex e)
  rendered (votes_consensus e) = votes_consensus (address hex e)
  rendered (votes e n) = votes (address hex e) (address hex n)
  rendered event_ids = event_ids
  rendered last_run = last_run
  rendered event_registry = event_registry
  rendered node_registry = node_registry

  -- The key under which the program stores it.
  unfoldable pub redis_key : Place Ident → Text
  unfolding key_of
  redis_key p = key_of (rendered p)
