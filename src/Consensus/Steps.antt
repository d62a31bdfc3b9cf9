-- ===== src/Consensus/Steps.antt =====
-- The jobs of the scheduler that settle an event: `check_consensus`, `process_consensus_not_reached`
-- and `schedule_event_data_to_blockchain_job` of app/events/consensus.py. A job that raises keeps what
-- it has stored until then. The wait between the two halves of `check_consensus` is left out.
pub mod Flag
pub mod Once
use validation_node.Prelude.{
  ℕ, Bool, true, false, not, Option, none, some, List, [], ◌∷◌, ◌++◌, if◌then◌else◌,
}
use validation_node.Prelude.Dict.{Dict}
use validation_node.Prelude.Int.{ℤ, pos, ◌-ℤ◌}
use validation_node.Database.Schema.{
  Ident, Vote, VerityEvent, VerityEventMetadata, Reward, Db, Result, ok, raise,
}
use validation_node.Database.Grouping.{votes_consensus}
use validation_node.Database.Events.{get, metadata, update_metadata}
use validation_node.Database.Rewards
use validation_node.Node.{Node, Outcome, Job, add_job, remove_consensus_not_reached_job}
use validation_node.Rewards.Calculation.{
  RewardsDict, calculate_consensus_rewards, calculate_non_consensus_rewards,
}
use validation_node.Consensus.Rules.{should_calculate_consensus}
use validation_node.Consensus.Choice.{calculate_consensus}
use validation_node.Consensus.Explorer.{send_data_to_explorer}

-- What the node learns from outside: its address, the time, what `getBalance` and
-- `nodeRewardsBalance` of the event's contract return, the explorer's responses, and the element
-- that comes first in a set.
pub record Surroundings : Type 0 where
  pub node_id : Ident
  pub now : ℕ
  pub ether_balance : ℕ
  pub token_balance : ℕ
  pub node_rewards_balance : ℕ
  pub respond : ℕ → Option ℕ
  pub first_of : List Ident → Option Ident

-- The metadata that `schedule_event_data_to_blockchain_job` stores first.
unfoldable pub stamp : Surroundings → VerityEvent → Db → Db
stamp s event db =
    let (event_metadata, db') = metadata event db in
    update_metadata (record event_metadata { processing_end_time = some s.now }) db'

-- The rewards, by whether there is a consensus.
unfoldable pub settle_rewards :
    Surroundings
    → VerityEvent
    → Dict Ident (List Vote)
    → Db
    → Result (List Ident × RewardsDict) × Db
settle_rewards s event [] db = (calculate_non_consensus_rewards event db, db)
settle_rewards s event (x ∷ consensus_votes_by_users) db =
    calculate_consensus_rewards event (x ∷ consensus_votes_by_users)
      (pos s.ether_balance -ℤ pos s.node_rewards_balance) (pos s.token_balance) db

-- From the stored rewards on.
unfoldable pub publish : Surroundings → VerityEvent → Node → Outcome
publish s event node =
    let (sent, node') = send_data_to_explorer s.respond s.node_id event.event_id node in
    elim sent [
      | raise e ↦ (raise e, node')
      | ok done ↦ (
        ok tt,
        if event.is_master_node
            then add_job (Job.event_data_to_blockchain event.event_id) node'
            else node',
      )
    ]

unfoldable pub schedule_event_data_to_blockchain_job :
    Surroundings → VerityEvent → Dict Ident (List Vote) → Node → Outcome
schedule_event_data_to_blockchain_job s event consensus_votes_by_users node =
    let (settled, db) = settle_rewards s event consensus_votes_by_users (stamp s event node.db) in
    elim settled [
      | raise e ↦ (raise e, record node { db = db })
      | ok (user_ids_rewards, rewards_dict) ↦
          publish s event
            (record node { db = Rewards.create event.event_id user_ids_rewards rewards_dict db })
    ]

-- From a consensus on. `event_metadata` is the object that the job was scheduled with.
unfoldable pub conclude :
    Surroundings → VerityEvent → VerityEventMetadata → Dict Ident (List Vote) → Node → Outcome
conclude s event event_metadata consensus_votes_by_users node =
    let (current, db) = metadata event node.db in
    if current.is_consensus_reached
    then (ok tt, record node { db = db })
    else schedule_event_data_to_blockchain_job s event consensus_votes_by_users (
        remove_consensus_not_reached_job event.event_id (record node {
          db = update_metadata (record event_metadata { is_consensus_reached = true }) db;
        }))

unfoldable pub check_consensus : Surroundings → VerityEvent → VerityEventMetadata → Node → Outcome
check_consensus s event event_metadata node =
    let votes_by_users = votes_consensus event none node.db in
    let (chosen, db) = calculate_consensus s.first_of event votes_by_users node.db in
    if not (should_calculate_consensus event node.db) then (ok tt, node) else elim chosen [
      | raise e ↦ (raise e, record node { db = db })
      | ok [] ↦ (ok tt, record node { db = db })
      | ok (x ∷ consensus_votes_by_users) ↦
          conclude s event event_metadata (x ∷ consensus_votes_by_users) (record node { db = db })
    ]

unfoldable pub process_consensus_not_reached : Surroundings → Ident → Node → Outcome
process_consensus_not_reached s event_id node = elim (get event_id node.db) [
  | none ↦ (ok tt, node)
  | some event ↦
      let (event_metadata, db) = metadata event node.db in
      if event_metadata.is_consensus_reached
      then (ok tt, record node { db = db })
      else schedule_event_data_to_blockchain_job s event [] (record node { db = db })
]
