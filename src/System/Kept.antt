-- ===== src/System/Kept.antt =====
-- The votes that the node takes over HTTP and from other nodes, against the laws of Database.Kept.
pub mod Settlement
pub mod Addresses
pub mod Steps
use validation_node.Prelude.{
  ℕ, Bool, true, false, not, ◌&&◌, Option, none, some, ◌≡◌, refl, sym, ◌∙◌, ap, subst, arith,
  Bool-cases, Option-cases, inl, inr, if◌then◌else◌,
}
use validation_node.Prelude.Eq.{contains, nat_eq}
use validation_node.Database.Schema.{Ident, Vote, VerityEvent, VerityEventMetadata, Db}
use validation_node.Database.Kept.{seen-metadata, IsKept, IsVoteKept}
use validation_node.Database.Events.{get, metadata}
use validation_node.Database.Votes
use validation_node.Node.{VoteData, VoteJson, Node, add_job}
use validation_node.Voting.Payload.{
  VoteFields, parse_fields_from_json_data, is_vote_payload_valid, is_voting_active,
  is_user_registered, is_vote_signed,
}
use validation_node.Voting.Api.{new_vote, accept, vote_on, vote_for, vote}
use validation_node.Voting.Consumer.{
  received_vote, store_received, consume_for, consume_fields, consumer,
}

module _ (recover : VoteData → Ident → Option Ident) (node_id : Ident) (now : ℕ) where
  db-accept :
      (j : VoteJson) (f : VoteFields) (event : VerityEvent) (m : VerityEventMetadata) (n : Node)
      → (accept node_id now j f event m n).db ≡ Votes.create (new_vote node_id now f) n.db
  unfolding accept add_job
  db-accept j f event m n = ground arith

  db-store_received :
      (f : VoteFields) (event : VerityEvent) (m : VerityEventMetadata) (n : Node)
      → (store_received node_id now f event m n).db
        ≡ Votes.create (received_vote node_id now f) n.db
  unfolding store_received add_job
  db-store_received f event m n = ground arith

  module _ (j : VoteJson) (f : VoteFields) (event : VerityEvent) (n : Node) where
    abbrev read : Db
    read = (metadata event n.db).1

    abbrev vote_passes : Bool
    vote_passes =
        is_user_registered f.user_id event.event_id read
        && (not (metadata event n.db).0.is_consensus_reached
            && is_voting_active now event.event_start_time event.event_end_time
            && is_vote_signed recover f
            && not (Votes.exists f.event_id node_id f.user_id read))

    db-vote_on :
        (vote_on recover node_id now j f event n).1.db
        ≡ (if vote_passes then Votes.create (new_vote node_id now f) read else read)
    unfolding vote_on
    db-vote_on =
        ground (arith, db-accept j f event (metadata event n.db).0 (record n { db = read }))

  module _ (f : VoteFields) (event : VerityEvent) (n : Node) where
    abbrev known : Db
    known = (metadata event n.db).1

    abbrev consume_passes : Bool
    consume_passes =
        is_user_registered f.user_id event.event_id known
        && (not (
              (metadata event n.db).0.is_consensus_reached
              && contains (Votes.user_ids_with_vote f.event_id known) f.user_id)
            && is_voting_active now event.event_start_time event.event_end_time
            && is_vote_signed recover f
            && not (Votes.exists f.event_id f.user_id node_id known))

    db-consume_for :
        (consume_for recover node_id now f event n).db
        ≡ (if consume_passes then Votes.create (received_vote node_id now f) known else known)
    unfolding consume_for
    db-consume_for =
        ground (arith, db-store_received f event (metadata event n.db).0 (record n { db = known }))

module _ (I : Db → Type 0) ⦃k : IsKept I⦄ ⦃t : IsVoteKept I⦄ where
  -- A vote of a participant of the event is stored, or nothing is.
  kept-create :
      (rest : Bool) (v : Vote) (event : VerityEvent) (db : Db)
      → db.events v.event_id ≡ some event
      → I db
      → I (if is_user_registered v.user_id event.event_id db && rest then Votes.create v db else db)
  unfolding is_user_registered
  kept-create rest v event db e p =
      elim (Bool-cases (contains (db.participants event.event_id) v.user_id && rest)) [
        | inl passes ↦
            rw passes (t.cast v event db e (ground (arith, k.named v.event_id event db e p)) p)
        | inr fails ↦ rw fails p
      ]

  -- The same after the metadata were read, which may write them.
  kept-create_with :
      (rest : Bool) (v : Vote) (event : VerityEvent) (db : Db)
      → db.events v.event_id ≡ some event
      → I db
      → let db' = (metadata event db).1 in
        I (
          if is_user_registered v.user_id event.event_id db' && rest
          then Votes.create v db'
          else db')
  kept-create_with rest v event db e p =
      kept-create rest v event (metadata event db).1
        (ap (λ s. s.0) (seen-metadata event db v.event_id 0) ∙ e)
        (k.frame db (metadata event db).1 (seen-metadata event db) p)

  module _ (recover : VoteData → Ident → Option Ident) (node_id : Ident) (now : ℕ) where
    kept-vote_for :
        (j : VoteJson) (f : Option VoteFields) (n : Node)
        → I n.db
        → I (vote_for recover node_id now j f n).1.db
    unfolding vote_for get
    kept-vote_for j none n p = p
    kept-vote_for j (some f) n p = elim (Option-cases (n.db.events f.event_id)) [
      | inl missing ↦ rw (missing, vote_for) p
      | inr (event, found) ↦
          rw (found, vote_for)
            (subst I (sym (db-vote_on recover node_id now j f event n))
              (kept-create_with _ (new_vote node_id now f) event n.db found p))
    ]

    pub kept-vote :
        (j : Option VoteJson) (n : Node) → I n.db → I (vote recover node_id now j n).1.db
    unfolding vote
    kept-vote none n p = p
    kept-vote (some j) n p = elim (Bool-cases (is_vote_payload_valid (some j))) [
      | inl valid ↦ rw valid (kept-vote_for j (parse_fields_from_json_data j) n p)
      | inr bad ↦ rw bad p
    ]

    kept-consume_fields :
        (f : Option VoteFields) (n : Node) → I n.db → I (consume_fields recover node_id now f n).db
    unfolding consume_fields get
    kept-consume_fields none n p = p
    kept-consume_fields (some f) n p = elim (Option-cases (n.db.events f.event_id)) [
      | inl missing ↦ rw (missing, consume_fields) p
      | inr (event, found) ↦
          rw (found, consume_fields)
            (subst I (sym (db-consume_for recover node_id now f event n))
              (kept-create_with _ (received_vote node_id now f) event n.db found p))
    ]

    pub kept-consumer :
        (j : Option VoteJson) (n : Node) → I n.db → I (consumer recover node_id now j n).db
    unfolding consumer
    kept-consumer none n p = p
    kept-consumer (some j) n p = elim (Bool-cases (is_vote_payload_valid (some j))) [
      | inl valid ↦ rw valid (kept-consume_fields (parse_fields_from_json_data j) n p)
      | inr bad ↦ rw bad p
    ]
