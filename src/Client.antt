-- ===== src/Client.antt =====
-- What the node asks of the Ethereum client (web3) and of the clock. Each call takes the number of
-- calls made before, so that the answers may change from call to call, and may raise.
use validation_node.Prelude.{ℕ, Bool, Option, List}
use validation_node.Database.Schema.{Ident, Text, FilterName, Result, ok, raise, key_error}
use validation_node.Node.{Transaction, queue_transaction}
use validation_node.Effects.{M, RawTransaction, ◌>>◌, ask, change_node}

-- An entry of a filter: the arguments of the contract event.
pub data Entry : Type 0 where
  joined : Ident → Entry
  moved : ℕ → Entry
  failed : Text → Entry
  error : Text → Entry
  started : ℕ → Entry
  restarted : ℕ → Ident → Entry
  disputed : Ident → Entry
  new_event : ℕ → Ident → Entry

pub record EventTimes : Type 0 where
  pub application_start_time : ℕ
  pub application_end_time : ℕ
  pub event_start_time : ℕ
  pub event_end_time : ℕ
  pub leftovers_recoverable_after : ℕ

pub record ConsensusRules : Type 0 where
  pub min_total_votes : ℕ
  pub min_consensus_votes : ℕ
  pub min_consensus_ratio : ℕ
  pub min_participant_ratio : ℕ
  pub max_participants : ℕ
  pub rewards_distribution_function : ℕ

pub record DisputeData : Type 0 where
  pub dispute_amount : ℕ
  pub dispute_timeout : ℕ
  pub dispute_multiplier : ℕ
  pub dispute_round : ℕ
  pub disputer : Ident

pub record Client : Type 0 where
  pub node_id : Ident
  pub default_account : Ident
  pub now : ℕ → ℕ
  pub get_event_resolvers : Ident → ℕ → Result (List Ident)
  pub node_can_claim_reward : Ident → ℕ → Result Bool
  pub get_state : Ident → ℕ → Result ℕ
  pub get_event_times : Ident → ℕ → Result EventTimes
  pub owner : Ident → ℕ → Result Ident
  pub token_address : Ident → ℕ → Result Ident
  pub event_name : Ident → ℕ → Result Text
  pub data_feed_hash : Ident → ℕ → Result Text
  pub is_master_node : Ident → ℕ → Result Bool
  pub get_consensus_rules : Ident → ℕ → Result ConsensusRules
  pub rewards_validation_round : Ident → ℕ → Result ℕ
  pub get_dispute_data : Ident → ℕ → Result DisputeData
  pub staking_amount : Ident → ℕ → Result ℕ
  pub get_results : Ident → ℕ → Result (Option (List (List ℕ)))
  pub validation_state : Ident → ℕ → Result ℕ
  -- The addresses that the contract registry holds.
  pub node_registry : ℕ → Result Ident
  pub event_registry : ℕ → Result Ident
  pub creation_block : Ident → ℕ → Result ℕ
  pub create_filter : Ident → FilterName → ℕ → ℕ → Result Ident
  pub get_all_entries : Ident → ℕ → Result (List Entry)
  pub get_new_entries : Ident → ℕ → Result (List Entry)
  pub node_ip : Ident → ℕ → Result Text
  pub node_ws : Ident → ℕ → Result Text
  -- The transaction's hash, when the queue service has sent it.
  pub execute : Ident → Transaction → ℕ → Option Ident
  -- What sending a transaction asks for: the account's transaction count, the price of gas by
  -- web3's strategy, the estimate of the gas, the signed transaction, its hash once it is sent, and
  -- the hash of the receipt.
  pub transaction_count : ℕ → Result ℕ
  pub generate_gas_price : ℕ → Result ℕ
  pub estimate_gas : Ident → Transaction → ℕ → Result ℕ
  pub sign_transaction : RawTransaction → Result Ident
  pub send_raw_transaction : Ident → ℕ → Result Ident
  pub wait_for_receipt : Ident → ℕ → Result Ident
  pub decode_utf8 : List ℕ → Result Text

module _ (client : Client) where
  -- `int(time.time())`
  unfoldable pub current_time : M ℕ
  current_time = ask (λ i. ok (client.now i))

  -- `transactions.queue_transaction`, which waits for the result.
  unfoldable pub send_transaction : Ident → Transaction → M (Option Ident)
  send_transaction event_id t =
      change_node (queue_transaction event_id t) >> ask (λ i. ok (client.execute event_id t i))

-- `entry['args'][...]`
abbrev pub wallet : Entry → Result Ident
wallet (joined u) = ok u
wallet _ = raise key_error

abbrev pub new_state : Entry → Result ℕ
new_state (moved s) = ok s
new_state _ = raise key_error

abbrev pub description : Entry → Result Text
description (failed t) = ok t
description _ = raise key_error

abbrev pub validation_round : Entry → Result ℕ
validation_round (started r) = ok r
validation_round (restarted r a) = ok r
validation_round _ = raise key_error

abbrev pub new_master : Entry → Result Ident
new_master (restarted r a) = ok a
new_master _ = raise key_error

abbrev pub by_address : Entry → Result Ident
by_address (disputed a) = ok a
by_address _ = raise key_error

-- The block and the address of a new event.
abbrev pub event_address : Entry → Result (ℕ × Ident)
event_address (new_event block a) = ok (block, a)
event_address _ = raise key_error
