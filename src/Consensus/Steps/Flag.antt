-- ===== src/Consensus/Steps/Flag.antt =====
-- The flag in the metadata that the consensus on an event is reached, through the steps that settle it.
use validation_node.Prelude.{
  ℕ, zero, suc, Bool, true, false, Option, none, some, List, [], ◌∷◌, ◌++◌, ◌≡◌, refl, sym, ◌∙◌,
  arith, Bool-cases, Option-cases, inl, inr,
}
use validation_node.Prelude.Eq.{nat_eq, ==_iff, ◌==◌}
use validation_node.Prelude.Dict.{Dict}
use validation_node.Database.Schema.{Ident, Vote, VerityEvent, VerityEventMetadata, Db}
use validation_node.Database.Events.{
  get, metadata, get_or_create, new_metadata, create_metadata, update_metadata,
}
use validation_node.Database.Rewards
use validation_node.Node.{Node, Payload, add_job, remove_consensus_not_reached_job}
use validation_node.Rewards.Calculation.{calculate_consensus_rewards, first_vote}
use validation_node.Consensus.Choice.Soundness.{Result-cases}
use validation_node.Consensus.Explorer.{compose_event_payload, post_from, send_data_to_explorer}
use validation_node.Consensus.Steps.{
  Surroundings, stamp, settle_rewards, publish, schedule_event_data_to_blockchain_job, conclude,
}

-- Whether the stored metadata of an event say that a consensus is reached.
abbrev flag_of : Option VerityEventMetadata → Bool
flag_of none = false
flag_of (some m) = m.is_consensus_reached

abbrev pub is_reached : Ident → Db → Bool
is_reached event_id db = flag_of (db.metadata event_id)

pub flag-metadata :
    (event : VerityEvent) (db : Db)
    → (metadata event db).0.is_consensus_reached ≡ is_reached event.event_id db
unfolding metadata get_or_create new_metadata
flag-metadata event db = ground (arith, Option-cases (db.metadata event.event_id))

reached-metadata_at :
    (event : VerityEvent) (db : Db) (event_id : Ident)
    → is_reached event_id (metadata event db).1 ≡ is_reached event_id db
unfolding metadata get_or_create new_metadata create_metadata
reached-metadata_at event db event_id = elim (Bool-cases (event_id == event.event_id)) [
  | inl same ↦
      ground (arith, Option-cases (db.metadata event.event_id), ==_iff event_id event.event_id)
  | inr other ↦ ground (arith, Option-cases (db.metadata event.event_id))
]

pub reached-metadata :
    (event : VerityEvent) (db : Db)
    → is_reached event.event_id (metadata event db).1 ≡ is_reached event.event_id db
reached-metadata event db = reached-metadata_at event db event.event_id

reached-update :
    (m : VerityEventMetadata) (db : Db) (event_id : Ident)
    → m.event_id ≡ event_id
    → is_reached event_id (update_metadata m db) ≡ m.is_consensus_reached
unfolding update_metadata create_metadata
reached-update m db event_id e = ground (arith, ==_iff event_id m.event_id)

-- To store metadata with the flag that is stored already does not change the flag.
reached-update_same :
    (m : VerityEventMetadata) (db : Db) (event_id : Ident)
    → m.is_consensus_reached ≡ is_reached event_id db
    → is_reached event_id (update_metadata m db) ≡ is_reached event_id db
unfolding update_metadata create_metadata
reached-update_same m db event_id e = elim (Bool-cases (event_id == m.event_id)) [
  | inl here ↦ ground arith
  | inr there ↦ ground arith
]

reached-stamp :
    (s : Surroundings) (event : VerityEvent) (db : Db)
    → is_reached event.event_id (stamp s event db) ≡ is_reached event.event_id db
unfolding stamp
reached-stamp s event db =
    reached-update_same _ (metadata event db).1 event.event_id
      (flag-metadata event db ∙ sym (reached-metadata event db))
    ∙ reached-metadata event db

reached-settle_rewards :
    (s : Surroundings) (event : VerityEvent) (c : Dict Ident (List Vote)) (db : Db)
    → is_reached event.event_id (settle_rewards s event c db).1 ≡ is_reached event.event_id db
unfolding settle_rewards calculate_consensus_rewards
reached-settle_rewards s event [] db = refl
reached-settle_rewards s event (x ∷ c) db = elim (Result-cases (first_vote (x ∷ c))) [
  | inl (e, failed) ↦ ground arith
  | inr (v, found) ↦ ground (arith, reached-metadata event db)
]

pub db-post_from :
    (respond : ℕ → Option ℕ) (tries retry : ℕ) (payload : Payload) (node : Node)
    → (post_from respond tries retry payload node).db ≡ node.db
unfolding post_from
db-post_from respond zero retry payload node = refl
db-post_from respond (suc tries) retry payload node = ground (
  arith,
  db-post_from respond tries (suc retry) payload
      (record node { posted = node.posted ++ payload ∷ [] }),
)

reached-send :
    (respond : ℕ → Option ℕ) (node_id event_id : Ident) (node : Node)
    → is_reached event_id (send_data_to_explorer respond node_id event_id node).1.db
      ≡ is_reached event_id node.db
unfolding send_data_to_explorer compose_event_payload
reached-send respond node_id event_id node = elim (Option-cases (get event_id node.db)) [
  | inl missing ↦ ground arith
  | inr (event, found) ↦
      let db = (metadata event node.db).1 in
      let payload = (compose_event_payload node_id event node.db).0 in
      ground (
        arith,
        db-post_from respond 2 1 payload (record node { db = db }),
        reached-metadata_at event node.db event_id,
      )
]

publish-reached :
    (s : Surroundings) (event : VerityEvent) (node : Node)
    → is_reached event.event_id (publish s event node).1.db ≡ is_reached event.event_id node.db
unfolding publish add_job
publish-reached s event node = ground (
  arith,
  reached-send s.respond s.node_id event.event_id node,
  Result-cases (send_data_to_explorer s.respond s.node_id event.event_id node).0,
)

schedule-reached :
    (s : Surroundings) (event : VerityEvent) (c : Dict Ident (List Vote)) (node : Node)
    → is_reached event.event_id (schedule_event_data_to_blockchain_job s event c node).1.db
      ≡ is_reached event.event_id node.db
unfolding schedule_event_data_to_blockchain_job Rewards.create
schedule-reached s event c node =
    let db = stamp s event node.db in
    let same = reached-settle_rewards s event c db ∙ reached-stamp s event node.db in
    elim (Result-cases (settle_rewards s event c db).0) [
      | inl (e, failed) ↦ ground (arith, same)
      | inr ((us, d), settled) ↦ ground (
        arith,
        same,
        publish-reached s event (record node {
          db = Rewards.create event.event_id us d (settle_rewards s event c db).1;
        }),
      )
    ]

-- After the second half of `check_consensus` the event is settled.
pub conclude-reached :
    (s : Surroundings) (event : VerityEvent) (m : VerityEventMetadata) (c : Dict Ident (List Vote))
    (node : Node)
    → m.event_id ≡ event.event_id
    → is_reached event.event_id (conclude s event m c node).1.db ≡ true
unfolding conclude remove_consensus_not_reached_job
conclude-reached s event m c node own =
    let db = (metadata event node.db).1 in
    let marked : VerityEventMetadata = record m { is_consensus_reached = true } in
    elim (Bool-cases (metadata event node.db).0.is_consensus_reached) [
      | inl yes_ ↦ ground (arith, flag-metadata event node.db, reached-metadata event node.db)
      | inr no_ ↦ ground (
        arith,
        reached-update marked db event.event_id own,
        schedule-reached s event c (
            remove_consensus_not_reached_job event.event_id
              (record node { db = update_metadata marked db })),
      )
    ]

pub conclude-still :
    (s : Surroundings) (event : VerityEvent) (m : VerityEventMetadata) (c : Dict Ident (List Vote))
    (node : Node)
    → is_reached event.event_id node.db ≡ true
    → is_reached event.event_id (conclude s event m c node).1.db ≡ true
unfolding conclude
conclude-still s event m c node h =
    ground (arith, flag-metadata event node.db, reached-metadata event node.db)
