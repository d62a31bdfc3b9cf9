-- ===== src/Voting/Consumer.antt =====
-- `Consumer.consumer` of app/websocket.py: a vote that another node passes on.
pub mod Duplicates
use validation_node.Prelude.{
  ℕ, Bool, true, false, not, ◌&&◌, Option, none, some, List, [], ◌∷◌, ◌++◌, if◌then◌else◌,
}
use validation_node.Prelude.Eq.{contains, nat_eq}
use validation_node.Database.Schema.{Ident, Vote, VerityEvent, VerityEventMetadata, Db}
use validation_node.Database.Votes
use validation_node.Database.Votes.{user_ids_with_vote}
use validation_node.Database.Events.{get, metadata}
use validation_node.Consensus.Rules.{should_calculate_consensus}
use validation_node.Node.{VoteData, VoteJson, Message, Job, Node, add_job}
use validation_node.Voting.Payload.{
  VoteFields, parse_fields_from_json_data, is_vote_payload_valid, is_voting_active,
  is_user_registered, is_vote_signed,
}

-- `node_id` and `timestamp` come with the message.
module _ (node_id : Ident) (timestamp : ℕ) where
  abbrev pub received_vote : VoteFields → Vote
  received_vote f = record {
    user_id = f.user_id;
    event_id = f.event_id;
    node_id = node_id;
    timestamp = timestamp;
    answers = f.answers;
    signature = f.signature;
    in_consensus = false;
  }

  -- The vote is stored; a job follows if a consensus is possible and not reached yet.
  unfoldable pub store_received : VoteFields → VerityEvent → VerityEventMetadata → Node → Node
  store_received f event event_metadata n =
      let stored = record n { db = Votes.create (received_vote f) n.db } in
      if not event_metadata.is_consensus_reached && should_calculate_consensus event stored.db
      then add_job (Job.check_consensus event event_metadata) stored
      else stored

-- `recover` is web3's recovery of the signer.
module _ (recover : VoteData → Ident → Option Ident) (node_id : Ident) (timestamp : ℕ) where
  -- From the lookup of the event on. The arguments of `Vote.exists` are those of the source.
  unfoldable pub consume_for : VoteFields → VerityEvent → Node → Node
  consume_for f event n =
      let (event_metadata, db) = metadata event n.db in
      let n' = record n { db = db } in
      if event_metadata.is_consensus_reached
        && contains (user_ids_with_vote f.event_id db) f.user_id
      then n'
      else if not (is_voting_active timestamp event.event_start_time event.event_end_time)
      then n'
      else if not (is_user_registered f.user_id event.event_id db)
      then n'
      else if not (is_vote_signed recover f)
      then n'
      else if Votes.exists f.event_id f.user_id node_id db
      then n'
      else store_received node_id timestamp f event event_metadata n'

  unfoldable pub consume_fields : Option VoteFields → Node → Node
  consume_fields none n = n
  consume_fields (some f) n = elim (get f.event_id n.db) [
    | none ↦ n
    | some event ↦ consume_for f event n
  ]

  unfoldable pub consumer : Option VoteJson → Node → Node
  consumer none n = n
  consumer (some j) n =
      if not (is_vote_payload_valid (some j))
      then n
      else consume_fields (parse_fields_from_json_data j) n
