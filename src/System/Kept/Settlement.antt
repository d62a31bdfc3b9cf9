-- ===== src/System/Kept/Settlement.antt =====
-- The consensus and the rewards, against the laws of Database.Kept: what is seen of the database.
use validation_node.Prelude.{
  ℕ, true, none, List, [], ◌∷◌, ◌≡◌, refl, ◌∙◌, arith, Option-cases, inl, inr,
}
use validation_node.Prelude.Dict.{Dict}
use validation_node.Prelude.Int.{ℤ}
use validation_node.Database.Schema.{Ident, Text, Vote, VerityEvent, VerityEventMetadata, Db, ok}
use validation_node.Database.Events.{get, metadata, update_metadata, create_metadata}
use validation_node.Database.Kept.{seen, seen-metadata}
use validation_node.Database.Rewards
use validation_node.Database.Rewards.{get_lists, transform_dict_to_lists}
use validation_node.Database.Grouping.{votes_consensus}
use validation_node.Database.Votes.{set_consensus_vote}
use validation_node.Node.{Node, add_job, remove_consensus_not_reached_job, queue_transaction}
use validation_node.Consensus.Choice.{settle, calculate_consensus, winners, pick_vote}
use validation_node.Consensus.Choice.Soundness.{Result-cases}
use validation_node.Consensus.Explorer.{compose_event_payload, send_data_to_explorer}
use validation_node.Consensus.Steps.{
  Surroundings, stamp, settle_rewards, publish, schedule_event_data_to_blockchain_job, conclude,
  check_consensus, process_consensus_not_reached,
}
use validation_node.Consensus.Steps.Flag.{db-post_from}
use validation_node.Rewards.Calculation.{calculate_consensus_rewards, first_vote}
use validation_node.Rewards.Chain.{
  Contract, lists_to_chunks, queue_chunks, set_rewards_on_blockchain, set_result_on_blockchain,
  mark_rewards_on_blockchain, event_data_to_blockchain, validate_event_data_on_blockchain,
}
use validation_node.System.{kept}

module _ (id voter : Ident) where
  module _ (s : Surroundings) where
    seen-settle :
        (event : VerityEvent) (votes : Dict Ident (List Vote)) (us : List Ident) (db : Db)
        → seen id voter (settle s.first_of event votes us db).1 ≡ seen id voter db
    unfolding settle set_consensus_vote
    seen-settle event votes us db = ground (arith, Result-cases (pick_vote (s.first_of us) votes))

    seen-calculate :
        (event : VerityEvent) (votes : Dict Ident (List Vote)) (db : Db)
        → seen id voter (calculate_consensus s.first_of event votes db).1 ≡ seen id voter db
    unfolding calculate_consensus
    seen-calculate event votes db = elim (Result-cases (winners s.first_of votes)) [
      | inl (e, failed) ↦ ground arith
      | inr ((r, us), found) ↦ ground (arith, seen-settle event votes us db)
    ]

    seen-stamp :
        (event : VerityEvent) (db : Db) → seen id voter (stamp s event db) ≡ seen id voter db
    unfolding stamp update_metadata create_metadata
    seen-stamp event db = seen-metadata event db id voter

    seen-settle_rewards :
        (event : VerityEvent) (c : Dict Ident (List Vote)) (db : Db)
        → seen id voter (settle_rewards s event c db).1 ≡ seen id voter db
    unfolding settle_rewards calculate_consensus_rewards
    seen-settle_rewards event [] db = refl
    seen-settle_rewards event (x ∷ c) db = elim (Result-cases (first_vote (x ∷ c))) [
      | inl (e, failed) ↦ ground arith
      | inr (v, found) ↦ ground (arith, seen-metadata event db id voter)
    ]

    seen-send :
        (event_id : Ident) (node : Node)
        → seen id voter (send_data_to_explorer s.respond s.node_id event_id node).1.db
          ≡ seen id voter node.db
    unfolding send_data_to_explorer compose_event_payload
    seen-send event_id node = elim (Option-cases (get event_id node.db)) [
      | inl missing ↦ ground arith
      | inr (event, found) ↦
          let db = (metadata event node.db).1 in
          let payload = (compose_event_payload s.node_id event node.db).0 in
          ground (
            arith,
            db-post_from s.respond 2 1 payload (record node { db = db }),
            seen-metadata event node.db id voter,
          )
    ]

    seen-publish :
        (event : VerityEvent) (node : Node)
        → seen id voter (publish s event node).1.db ≡ seen id voter node.db
    unfolding publish add_job
    seen-publish event node = ground (
      arith,
      seen-send event.event_id node,
      Result-cases (send_data_to_explorer s.respond s.node_id event.event_id node).0,
    )

    seen-schedule :
        (event : VerityEvent) (c : Dict Ident (List Vote)) (node : Node)
        → seen id voter (schedule_event_data_to_blockchain_job s event c node).1.db
          ≡ seen id voter node.db
    unfolding schedule_event_data_to_blockchain_job Rewards.create
    seen-schedule event c node =
        let db = stamp s event node.db in
        let same = seen-settle_rewards event c db ∙ seen-stamp event node.db in
        elim (Result-cases (settle_rewards s event c db).0) [
          | inl (e, failed) ↦ ground (arith, same)
          | inr ((us, d), settled) ↦ ground (
            arith,
            same,
            seen-publish event (record node {
              db = Rewards.create event.event_id us d (settle_rewards s event c db).1;
            }),
          )
        ]

    seen-conclude :
        (event : VerityEvent) (m : VerityEventMetadata) (c : Dict Ident (List Vote)) (node : Node)
        → seen id voter (conclude s event m c node).1.db ≡ seen id voter node.db
    unfolding conclude remove_consensus_not_reached_job update_metadata create_metadata
    seen-conclude event m c node =
        let db = (metadata event node.db).1 in
        ground (
          arith,
          seen-metadata event node.db id voter,
          seen-schedule event c (
              remove_consensus_not_reached_job event.event_id (record node {
                db = update_metadata (record m { is_consensus_reached = true }) db;
              })),
        )

    pub seen-check_consensus :
        (event : VerityEvent) (m : VerityEventMetadata) (node : Node)
        → seen id voter (check_consensus s event m node).1.db ≡ seen id voter node.db
    unfolding check_consensus
    seen-check_consensus event m node =
        elim (Result-cases (calculate_consensus s.first_of event votes node.db).0) [
          | inl (e, failed) ↦ ground (arith, same)
          | inr (c, chosen) ↦ branch c chosen
        ]
      where
        votes : Dict Ident (List Vote)
        votes = votes_consensus event none node.db

        same :
            seen id voter (calculate_consensus s.first_of event votes node.db).1
            ≡ seen id voter node.db
        same = seen-calculate event votes node.db

        branch :
            (c : Dict Ident (List Vote))
            → (calculate_consensus s.first_of event votes node.db).0 ≡ ok c
            → seen id voter (check_consensus s event m node).1.db ≡ seen id voter node.db
        branch [] e = ground (arith, same)
        branch (x ∷ c) e = ground (
          arith,
          same,
          seen-conclude event m (x ∷ c)
              (record node { db = (calculate_consensus s.first_of event votes node.db).1 }),
        )

    pub seen-not_reached :
        (event_id : Ident) (node : Node)
        → seen id voter (process_consensus_not_reached s event_id node).1.db ≡ seen id voter node.db
    unfolding process_consensus_not_reached
    seen-not_reached event_id node = elim (Option-cases (get event_id node.db)) [
      | inl missing ↦ ground arith
      | inr (event, found) ↦
          let db = (metadata event node.db).1 in
          ground (
            arith,
            seen-metadata event node.db id voter,
            seen-schedule event [] (record node { db = db }),
          )
    ]

db-queue_chunks :
    (event_id : Ident) (chunks : List _) (node : Node)
    → (queue_chunks event_id chunks node).db ≡ node.db
unfolding queue_chunks queue_transaction
db-queue_chunks event_id [] node = refl
db-queue_chunks event_id ((us, es, ts) ∷ chunks) node = db-queue_chunks event_id chunks _

module _ (hash : List Ident → List ℤ → List ℤ → Text) where
  pub db-event_data :
      (to_bytes : Text → Text) (event_id : Ident) (node : Node)
      → (kept (event_data_to_blockchain to_bytes hash event_id node) node).db ≡ node.db
  unfolding event_data_to_blockchain set_rewards_on_blockchain set_result_on_blockchain
      mark_rewards_on_blockchain queue_transaction
  db-event_data to_bytes event_id node = elim (Result-cases (get_lists event_id node.db)) [
    | inl (e, failed) ↦ rw failed refl
    | inr ((us, es, ts), found) ↦ elim (Result-cases (lists_to_chunks us es ts)) [
      | inl (e, failed) ↦ rw (found, failed) refl
      | inr (chunks, cut) ↦ rw (found, cut) (db-queue_chunks event_id chunks node)
    ]
  ]

  pub db-validate :
      (contract : Contract) (event_id : Ident) (round : ℕ) (node : Node)
      → (kept (validate_event_data_on_blockchain hash contract event_id round node) node).db
        ≡ node.db
  unfolding validate_event_data_on_blockchain queue_transaction
  db-validate contract event_id round node =
      ground (arith, Result-cases (transform_dict_to_lists (Rewards.get event_id node.db)))
