-- ===== src/Database/Schema.antt =====
-- The stored classes of app/database/database.py and the contents of Redis. Identifiers (event,
-- user, node and contract addresses, filter ids, signatures) are only compared by the program, so
-- they are numbers; texts are lists of code points. A family of keys '%s_%s' is a table.
use validation_node.Prelude.{ℕ, Bool, Option, none, List, ◌++◌, [], ◌∷◌, if◌then◌else◌}
use validation_node.Prelude.Eq.{Eq, ◌==◌, contains}
use validation_node.Prelude.Dict.{Dict, Table}
use validation_node.Prelude.Int.{ℤ}

abbrev pub Ident : Type 0
Ident = ℕ

abbrev pub Text : Type 0
Text = List ℕ

-- One answer of a vote: a JSON object, whose values are texts.
abbrev pub Answer : Type 0
Answer = Dict Text Text

pub record Vote : Type 0 where
  pub user_id : Ident
  pub event_id : Ident
  pub node_id : Ident
  pub timestamp : ℕ
  pub answers : List Answer
  pub signature : Ident
  pub in_consensus : Bool

pub record VerityEvent : Type 0 where
  pub event_id : Ident
  pub owner : Ident
  pub token_address : Ident
  pub node_addresses : List Ident
  pub leftovers_recoverable_after : ℕ
  pub application_start_time : ℕ
  pub application_end_time : ℕ
  pub event_start_time : ℕ
  pub event_end_time : ℕ
  pub event_name : Text
  pub data_feed_hash : Text
  pub state : ℕ
  pub is_master_node : Bool
  pub min_total_votes : ℕ
  pub min_consensus_votes : ℕ
  pub min_consensus_ratio : ℕ
  pub min_participant_ratio : ℕ
  pub max_participants : ℕ
  pub rewards_distribution_function : ℕ
  pub rewards_validation_round : ℕ
  pub dispute_amount : ℕ
  pub dispute_timeout : ℕ
  pub dispute_multiplier : ℕ
  pub dispute_round : ℕ
  pub disputer : Ident
  pub staking_amount : ℕ

pub record VerityEventMetadata : Type 0 where
  pub event_id : Ident
  pub is_consensus_reached : Bool
  pub node_ips : List Text
  pub node_websocket_ips : List Text
  pub contract_block_number : ℕ
  pub previous_consensus_answers : Option (List Text)
  pub processing_end_time : Option ℕ
  pub should_run_filters : Bool
  pub filters_exception_reported : Bool

-- The contract events that the node has filters for: those of `EVENT_FILTERS`
-- (app/events/verity_event_filters.py), and `NEW_VERITY_EVENT` (app/events/event_registry_filter.py).
pub data FilterName : Type 0 where
  join_event state_transition error_event validation_started validation_restart dispute_triggered
        event_failed new_verity_event :
      FilterName

-- `Filters.filter_dict`
pub record FilterEntry : Type 0 where
  pub filter_id : Ident
  pub filter_name : FilterName

-- `Rewards.reward_dict`
pub record Reward : Type 0 where
  pub eth : ℤ
  pub token : ℤ

-- What Redis holds. A list or a set that was never written is empty.
pub record Db : Type 0 where
  pub last_run : Option ℕ
  pub event_ids : List Ident
  pub events : Table Ident (Option VerityEvent)
  pub metadata : Table Ident (Option VerityEventMetadata)
  pub participants : Table Ident (List Ident)
  pub filters : Table Ident (List FilterEntry)
  pub rewards : Table Ident (Option (Dict Ident Reward))
  pub rewards_user_ids : Table Ident (List Ident)
  pub votes : Table (Ident × Ident) (List Vote)
  pub votes_common : Table Ident (List Ident)
  pub votes_exists : Table Ident (List (Ident × Ident))
  pub votes_consensus : Table Ident (Option Vote)
  pub event_registry : Option Ident
  pub node_registry : Option Ident

-- `flush_database`
unfoldable pub flushed : Db
flushed = record {
  last_run = none;
  event_ids = [];
  events = λ id. none;
  metadata = λ id. none;
  participants = λ id. [];
  filters = λ id. [];
  rewards = λ id. none;
  rewards_user_ids = λ id. [];
  votes = λ key. [];
  votes_common = λ id. [];
  votes_exists = λ id. [];
  votes_consensus = λ id. none;
  event_registry = none;
  node_registry = none;
}

-- What an operation of the program can raise.
pub data Error : Type 0 where
  key_error value_error index_error type_error zero_division attribute_error assertion_error
        padding_error connection_error other_error :
      Error

pub data Result {ℓ} (A : Type ℓ) : Type ℓ where
  ok : A → Result A
  raise : Error → Result A

infixl 5 ◌>>=◌
abbrev pub ◌>>=◌ {ℓ κ} : {A : Type ℓ} {B : Type κ} → Result A → (A → Result B) → Result B
ok a >>= f = f a
raise e >>= f = raise e

module _ {ℓ} {A : Type ℓ} ⦃e : Eq A⦄ where
  -- Redis: add to a set.
  abbrev pub sadd : A → List A → List A
  sadd x xs = if contains xs x then xs else xs ++ x ∷ []

  -- Redis: remove the first occurrence from a list (`LREM key 1 x`).
  abbrev pub lrem : A → List A → List A
  lrem x [] = []
  lrem x (y ∷ ys) = if x == y then ys else y ∷ lrem x ys

  -- The set of the elements of a list.
  abbrev pub distinct_onto : List A → List A → List A
  distinct_onto acc [] = acc
  distinct_onto acc (x ∷ xs) = distinct_onto (sadd x acc) xs

  abbrev pub distinct : List A → List A
  distinct xs = distinct_onto [] xs

  -- `s.difference(t)`
  abbrev pub difference : List A → List A → List A
  difference [] t = []
  difference (x ∷ xs) t = if contains t x then difference xs t else x ∷ difference xs t
