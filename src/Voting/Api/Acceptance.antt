-- ===== src/Voting/Api/Acceptance.antt =====
-- What a vote over the HTTP interface does to the node.
use validation_node.Prelude.{
  ℕ, true, false, Option, some, ◌≡◌, ◌↔◌, ◌≤◌, arith, Option-cases, inl, inr,
}
use validation_node.Database.Schema.{Ident, VerityEvent}
use validation_node.Database.Votes
use validation_node.Database.Events.{get, metadata}
use validation_node.Node.{VoteData, VoteJson, Node}
use validation_node.Voting.Payload.{
  VoteFields, parse_fields_from_json_data, is_vote_payload_valid, is_voting_active,
  is_user_registered, is_vote_signed, parse_of_valid,
}
use validation_node.Voting.Api.{vote_on, vote_for, vote}

-- What has to hold of a vote for it to be stored.
pub record IsAcceptable (recover : VoteData → Ident → Option Ident) (node_id : Ident) (now : ℕ)
    (f : VoteFields) (event : VerityEvent) (n : Node) : Type 0 where
  pub stored : get f.event_id n.db ≡ some event
  pub open_for_votes : (metadata event n.db).0.is_consensus_reached ≡ false
  pub after_start : event.event_start_time ≤ now
  pub before_end : now ≤ event.event_end_time
  pub registered : is_user_registered f.user_id event.event_id n.db ≡ true
  pub signed : recover f.vote_data f.signature ≡ some f.user_id
  pub first_vote : Votes.exists f.event_id node_id f.user_id n.db ≡ false

module _ (recover : VoteData → Ident → Option Ident) (node_id : Ident) (now : ℕ) where
  vote_on-accepted :
      (j : VoteJson) (f : VoteFields) (event : VerityEvent) (n : Node)
      → get f.event_id n.db ≡ some event
      → (vote_on recover node_id now j f event n).0.status ≡ 200
      → IsAcceptable recover node_id now f event n
  unfolding vote_on metadata is_voting_active is_user_registered is_vote_signed Votes.exists
  vote_on-accepted j f event n e h = ground (
    arith,
    Option-cases (n.db.metadata event.event_id),
    Option-cases (recover f.vote_data f.signature),
  )

  vote_on-accepts :
      (j : VoteJson) (f : VoteFields) (event : VerityEvent) (n : Node)
      → IsAcceptable recover node_id now f event n
      → (vote_on recover node_id now j f event n).0.status ≡ 200
  unfolding vote_on metadata is_voting_active is_user_registered is_vote_signed Votes.exists
  vote_on-accepts j f event n a = ground (
    arith,
    Option-cases (n.db.metadata event.event_id),
    Option-cases (recover f.vote_data f.signature),
  )

  vote_for-accepted :
      (j : VoteJson) (f : VoteFields) (n : Node)
      → (vote_for recover node_id now j (some f) n).0.status ≡ 200
      → (event : VerityEvent) × IsAcceptable recover node_id now f event n
  unfolding vote_for
  vote_for-accepted j f n h = elim (Option-cases (get f.event_id n.db)) [
    | inl missing ↦ absurd (ground arith)
    | inr (event, e) ↦ (event, vote_on-accepted j f event n e (ground arith))
  ]

  vote_for-accepts :
      (j : VoteJson) (f : VoteFields) (event : VerityEvent) (n : Node)
      → IsAcceptable recover node_id now f event n
      → (vote_for recover node_id now j (some f) n).0.status ≡ 200
  unfolding vote_for
  vote_for-accepts j f event n a = ground (arith, vote_on-accepts j f event n a)

  vote-valid :
      (j : VoteJson) (n : Node)
      → (vote recover node_id now (some j) n).0.status ≡ 200
      → is_vote_payload_valid (some j) ≡ true
  unfolding vote
  vote-valid j n h = ground arith

  -- A vote is accepted exactly if its payload is valid, with the fields `f`, and those are acceptable
  -- for the event that is stored under their id.
  pub vote-accepted_iff :
      (j : VoteJson) (n : Node)
      → ((vote recover node_id now (some j) n).0.status ≡ 200) ↔ (
          (f : VoteFields) × (event : VerityEvent) × (is_vote_payload_valid (some j) ≡ true)
          × (parse_fields_from_json_data j ≡ some f)
          × IsAcceptable recover node_id now f event n)
  unfolding vote
  vote-accepted_iff j n = (accepted, accepts)
    where
      accepted :
          (vote recover node_id now (some j) n).0.status ≡ 200
          → (f : VoteFields) × (event : VerityEvent) × (is_vote_payload_valid (some j) ≡ true)
            × (parse_fields_from_json_data j ≡ some f)
            × IsAcceptable recover node_id now f event n
      accepted h =
          let valid = vote-valid j n h in
          let (f, parsed, _) = parse_of_valid j valid in
          let (event, a) = vote_for-accepted j f n (ground arith) in (f, event, valid, parsed, a)

      accepts :
          ((f : VoteFields) × (event : VerityEvent) × (is_vote_payload_valid (some j) ≡ true)
            × (parse_fields_from_json_data j ≡ some f)
            × IsAcceptable recover node_id now f event n)
          → (vote recover node_id now (some j) n).0.status ≡ 200
      accepts (f, event, valid, parsed, a) = ground (arith, vote_for-accepts j f event n a)
