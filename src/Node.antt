-- ===== src/Node.antt =====
-- The state of a node: its database, the jobs that its scheduler holds (app/scheduler.py), the queue
-- of votes to propagate (app/websocket.py), the transactions handed to the queue service
-- (app/queue_service/transactions.py), and what was posted to the explorer.
use validation_node.Prelude.{ℕ, Bool, Option, List, [], ◌∷◌, ◌++◌, eqb, if◌then◌else◌}
use validation_node.Prelude.Dict.{Dict}
use validation_node.Prelude.Int.{ℤ}
use validation_node.Database.Schema.{
  Ident, Text, Answer, Vote, VerityEvent, VerityEventMetadata, Reward, FilterEntry, Db, Result,
}

-- The JSON of a vote. A field that is missing or null is `none`.
pub record VoteData : Type 0 where
  pub user_id : Option Ident
  pub task_id : Option Ident
  pub answers : Option (List Answer)

pub record VoteJson : Type 0 where
  pub vote_data : Option VoteData
  pub signed_data : Option Ident

-- A vote on its way to the other nodes.
pub record Message : Type 0 where
  pub event_id : Option Ident
  pub node_id : Option Ident
  pub current_timestamp : Option ℕ
  pub json_data : Option VoteJson

-- The function and the arguments of a scheduled job; a job at a date has the date and an id.
pub data Job : Type 0 where
  check_consensus : VerityEvent → VerityEventMetadata → Job
  event_data_to_blockchain : Ident → Job
  validate_event_data_on_blockchain : Ident → ℕ → Job
  process_consensus_not_reached : Ident → ℕ → Job
  post_application_end_time : Ident → ℕ → Job
  post_unexpected_exception : Ident → Option (List FilterEntry) → ℕ → Job

-- A call of the event's contract or of the node registry that is sent as a transaction.
pub data Transaction : Type 0 where
  set_rewards : List Ident → List ℤ → List ℤ → Transaction
  set_results : List Text → Transaction
  mark_rewards_set : Text → Transaction
  approve_rewards : ℕ → Transaction
  reject_rewards : ℕ → Text → Transaction
  node_claim_reward : Transaction
  trigger_state_change : Transaction
  register_node_ip : Text → Transaction
  register_node_ws : Text → Transaction

-- `compose_event_payload`, before it is signed.
pub record Payload : Type 0 where
  pub event_id : Ident
  pub node_id : Ident
  pub processing_end_time : Option ℕ
  pub voting_round : ℕ
  pub votes_by_users : Dict Ident (List Vote)
  pub rewards_dict : Option (Dict Ident Reward)
  pub vote_position_user_ids : List Ident
  pub correct_vote_user_ids : List Ident
  pub incorrect_vote_user_ids : List Ident
  pub without_vote_user_ids : List Ident

pub record Node : Type 0 where
  pub db : Db
  pub jobs : List Job
  pub outbox : List Message
  pub submitted : List (Ident × Transaction)
  pub posted : List Payload

-- How a job ends, and what it leaves.
abbrev pub Outcome : Type 0
Outcome = Result {0} Unit × Node

-- `scheduler.add_job`
unfoldable pub add_job : Job → Node → Node
add_job j n = record n { jobs = n.jobs ++ j ∷ [] }

abbrev pub is_not_reached_job : Ident → Job → Bool
is_not_reached_job event_id (process_consensus_not_reached e _) = eqb event_id e
is_not_reached_job event_id _ = Bool.false

abbrev pub is_application_job : Ident → Job → Bool
is_application_job event_id (post_application_end_time e _) = eqb event_id e
is_application_job event_id _ = Bool.false

unfoldable pub remove_jobs : (Job → Bool) → List Job → List Job
remove_jobs p [] = []
remove_jobs p (j ∷ js) = if p j then remove_jobs p js else j ∷ remove_jobs p js

-- `remove_consensus_not_reached_job`, which ignores that there is no such job. The scheduler holds
-- one job of an id at most.
unfoldable pub remove_consensus_not_reached_job : Ident → Node → Node
unfolding remove_jobs
remove_consensus_not_reached_job event_id n = record n {
  jobs = remove_jobs (is_not_reached_job event_id) n.jobs;
}

-- `scheduler.add_job` with an id, and `replace_existing`
unfoldable pub put_not_reached_job : Ident → ℕ → Node → Node
unfolding add_job remove_consensus_not_reached_job
put_not_reached_job event_id date n =
    add_job (process_consensus_not_reached event_id date)
      (remove_consensus_not_reached_job event_id n)

unfoldable pub put_application_job : Ident → ℕ → Node → Node
unfolding add_job remove_jobs
put_application_job event_id date n =
    add_job (post_application_end_time event_id date)
      (record n { jobs = remove_jobs (is_application_job event_id) n.jobs })

-- `transactions.queue_transaction`, whose result the callers here do not use.
unfoldable pub queue_transaction : Ident → Transaction → Node → Node
queue_transaction event_id t n = record n { submitted = n.submitted ++ (event_id, t) ∷ [] }
