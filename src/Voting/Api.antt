-- ===== src/Voting/Api.antt =====
-- `vote` of app/events/events.py.
pub mod Acceptance
pub mod Effects
pub mod Once
use validation_node.Prelude.{
  ℕ, Bool, true, false, not, Option, none, some, List, [], ◌∷◌, ◌++◌, if◌then◌else◌,
}
use validation_node.Database.Schema.{Ident, Vote, VerityEvent, VerityEventMetadata, Db}
use validation_node.Database.Votes
use validation_node.Database.Events.{get, metadata}
use validation_node.Consensus.Rules.{should_calculate_consensus}
use validation_node.Node.{VoteData, VoteJson, Message, Job, Node, add_job}
use validation_node.Voting.Payload.{
  VoteFields, parse_fields_from_json_data, is_vote_payload_valid, is_voting_active,
  is_user_registered, is_vote_signed,
}

-- The texts of the responses.
pub data Reply : Type 0 where
  invalid_payload event_not_found consensus_reached not_active not_registered not_signed
        already_received vote_accepted :
      Reply

pub record Response : Type 0 where
  pub message : Reply
  pub status : ℕ

abbrev pub response : Reply → ℕ → Response
response m s = record { message = m; status = s }

-- `node_id` is this node's address, and `now` the time of the request.
module _ (node_id : Ident) (now : ℕ) where
  abbrev pub new_vote : VoteFields → Vote
  new_vote f = record {
    user_id = f.user_id;
    event_id = f.event_id;
    node_id = node_id;
    timestamp = now;
    answers = f.answers;
    signature = f.signature;
    in_consensus = false;
  }

  abbrev pub vote_message : VoteJson → VoteFields → Message
  vote_message j f = record {
    event_id = some f.event_id;
    node_id = some node_id;
    current_timestamp = some now;
    json_data = some j;
  }

  -- Storing the vote, handing it to the websockets, and the job if a consensus is possible.
  unfoldable pub accept : VoteJson → VoteFields → VerityEvent → VerityEventMetadata → Node → Node
  accept j f event event_metadata n =
      let stored = record n {
        db = Votes.create (new_vote f) n.db;
        outbox = n.outbox ++ vote_message j f ∷ [];
      } in
      if should_calculate_consensus event stored.db
      then add_job (Job.check_consensus event event_metadata) stored
      else stored

-- `recover` is web3's recovery of the signer.
module _ (recover : VoteData → Ident → Option Ident) (node_id : Ident) (now : ℕ) where
  -- From the lookup of the event on.
  unfoldable pub vote_on : VoteJson → VoteFields → VerityEvent → Node → Response × Node
  vote_on j f event n =
      let (event_metadata, db) = metadata event n.db in
      let n' = record n { db = db } in
      if event_metadata.is_consensus_reached
      then (response consensus_reached 403, n')
      else if not (is_voting_active now event.event_start_time event.event_end_time)
      then (response not_active 422, n')
      else if not (is_user_registered f.user_id event.event_id db)
      then (response not_registered 403, n')
      else if not (is_vote_signed recover f)
      then (response not_signed 400, n')
      else if Votes.exists f.event_id node_id f.user_id db
      then (response already_received 406, n')
      else (response vote_accepted 200, accept node_id now j f event event_metadata n')

  unfoldable pub vote_for : VoteJson → Option VoteFields → Node → Response × Node
  vote_for j none n = (response invalid_payload 400, n)
  vote_for j (some f) n = elim (get f.event_id n.db) [
    | none ↦ (response event_not_found 404, n)
    | some event ↦ vote_on j f event n
  ]

  unfoldable pub vote : Option VoteJson → Node → Response × Node
  vote none n = (response invalid_payload 400, n)
  vote (some j) n =
      if not (is_vote_payload_valid (some j))
      then (response invalid_payload 400, n)
      else vote_for j (parse_fields_from_json_data j) n
