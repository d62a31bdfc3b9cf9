-- ===== src/Consensus/Explorer.antt =====
-- What is posted to the explorer: `compose_event_payload` and `send_data_to_explorer` of
-- app/events/consensus.py. The signature of the payload and the waiting time are left out.
use validation_node.Prelude.{
  ℕ, zero, suc, Bool, false, Option, none, some, [], ◌∷◌, ◌++◌, eqb, if◌then◌else◌,
}
use validation_node.Database.Schema.{Ident, VerityEvent, Db, ok, raise, attribute_error}
use validation_node.Database.Votes.{user_ids_with_incorrect_vote}
use validation_node.Database.Grouping.{consensus_vote_user_ids, votes_for_explorer}
use validation_node.Database.Events.{get, metadata, user_ids_without_vote}
use validation_node.Database.Rewards
use validation_node.Database.Rewards.{get_rewards_user_ids}
use validation_node.Node.{Node, Payload, Outcome}

-- The new database is that of `event.metadata()`.
unfoldable pub compose_event_payload : Ident → VerityEvent → Db → Payload × Db
compose_event_payload node_id event db =
    let (event_metadata, db') = metadata event db in
    let correct_vote_user_ids = consensus_vote_user_ids event db' in
    (
      record {
        event_id = event.event_id;
        node_id = node_id;
        processing_end_time = event_metadata.processing_end_time;
        voting_round = event.dispute_round;
        votes_by_users = votes_for_explorer event db';
        rewards_dict = Rewards.get event.event_id db';
        vote_position_user_ids = get_rewards_user_ids event.event_id db';
        correct_vote_user_ids = correct_vote_user_ids;
        incorrect_vote_user_ids =
            user_ids_with_incorrect_vote event.event_id correct_vote_user_ids db';
        without_vote_user_ids = user_ids_without_vote event db';
      },
      db',
    )

is_success : Option ℕ → Bool
is_success none = false
is_success (some status) = eqb status 200

-- `respond retry` is the status of the response to the try of that number, or `none` for an
-- exception. The loop ends with a success, or when there are no tries left.
unfoldable pub post_from : (ℕ → Option ℕ) → ℕ → ℕ → Payload → Node → Node
unfolding is_success
post_from respond zero retry payload node = node
post_from respond (suc tries) retry payload node =
    let sent = record node { posted = node.posted ++ payload ∷ [] } in
    let rest = post_from respond tries (suc retry) payload sent in
    if is_success (respond retry) then sent else rest

-- `max_retries`
abbrev pub max_retries : ℕ
max_retries = 2

unfoldable pub send_data_to_explorer : (ℕ → Option ℕ) → Ident → Ident → Node → Outcome
unfolding post_from
send_data_to_explorer respond node_id event_id node = elim (get event_id node.db) [
  | none ↦ (raise attribute_error, node)
  | some event ↦
      let (payload, db) = compose_event_payload node_id event node.db in
      (ok tt, post_from respond max_retries 1 payload (record node { db = db }))
]
