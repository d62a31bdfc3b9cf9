-- ===== src/Tests/VotingTests.antt =====
-- Tests of the voting modules.
use validation_node.Prelude.{ℕ, true, some, [], ◌∷◌, ◌++◌, ◌≡◌, ◌≢◌, ◌↔◌, refl, replicate, arith}
use validation_node.Prelude.Eq.{nat_eq, list_eq, pair_eq}
use validation_node.Database.Schema.{VerityEvent}
use validation_node.Database.Votes
use validation_node.Database.Events.{get, metadata}
use validation_node.Voting.Payload.{
  VoteFields, parse_fields_from_json_data, is_vote_payload_valid, are_answers_valid,
  is_voting_active, is_user_registered, is_vote_signed,
}
use validation_node.Voting.Api.{vote_on, vote_for, vote}
use validation_node.Voting.Api.Acceptance.{IsAcceptable, vote-accepted_iff}
use validation_node.Voting.Api.Effects.{IsUntouched, vote-rejected}
use validation_node.Voting.Api.Once.{IsStored, serve, vote-IsStored, vote-once}
use validation_node.Voting.Consumer.{received_vote}
use validation_node.Voting.Consumer.Duplicates.{IsConsumable, deliver, deliver-repeats}
use validation_node.Tests.{sample_event, sample_node, vote_json, vote_fields, sample_recover}

accepted : (vote sample_recover 10 150 (some (vote_json 7)) sample_node).0.status ≡ 200
unfolding vote vote_for vote_on get metadata is_vote_payload_valid parse_fields_from_json_data
    is_voting_active is_user_registered is_vote_signed Votes.exists
accepted = refl

parsed : (u : ℕ) → parse_fields_from_json_data (vote_json u) ≡ some (vote_fields u)
unfolding parse_fields_from_json_data
parsed u = refl

payload_valid : is_vote_payload_valid (some (vote_json 7)) ≡ true
unfolding is_vote_payload_valid are_answers_valid
payload_valid = refl

early : (vote sample_recover 10 50 (some (vote_json 7)) sample_node).0.status ≢ 200
unfolding vote vote_for vote_on get metadata is_vote_payload_valid parse_fields_from_json_data
    is_voting_active
early = omega arith

vote-once_example :
    (vote sample_recover 10 160 (some (vote_json 7)) (
      serve sample_recover 10
        ((155, some (vote_json 8)) ∷ [])
        (vote sample_recover 10 150 (some (vote_json 7)) sample_node).1)).0.status
    ≢ 200
vote-once_example =
    vote-once sample_recover 10 150 160 (vote_json 7) (vote_json 7) (vote_fields 7) (vote_fields 7)
      ((155, some (vote_json 8)) ∷ []) sample_node (parsed 7) (parsed 7) refl refl accepted

vote-IsStored_example :
    IsStored sample_recover 10 150
      (vote_json 7)
      (vote_fields 7)
      sample_node
      (vote sample_recover 10 150 (some (vote_json 7)) sample_node).1
vote-IsStored_example =
    vote-IsStored sample_recover 10 150 (vote_json 7) (vote_fields 7) sample_node (parsed 7)
      accepted

vote-accepted_iff_example :
    ((vote sample_recover 10 150 (some (vote_json 7)) sample_node).0.status ≡ 200) ↔ (
      (f : VoteFields) × (event : VerityEvent) × (is_vote_payload_valid (some (vote_json 7)) ≡ true)
      × (parse_fields_from_json_data (vote_json 7) ≡ some f)
      × IsAcceptable sample_recover 10 150 f event sample_node)
vote-accepted_iff_example = vote-accepted_iff sample_recover 10 150 (vote_json 7) sample_node

vote-rejected_example :
    IsUntouched sample_node (vote sample_recover 10 50 (some (vote_json 7)) sample_node).1
vote-rejected_example = vote-rejected sample_recover 10 50 (some (vote_json 7)) sample_node early

consumable : IsConsumable sample_recover 11 150 (vote_fields 7) sample_event sample_node
unfolding metadata is_user_registered Votes.exists
consumable = record {
  open_for_votes = refl;
  after_start = omega arith;
  before_end = omega arith;
  registered = refl;
  signed = refl;
  absent = refl;
}

deliver-repeats_example :
    (deliver sample_recover 11 150 3 (vote_fields 7) sample_event sample_node).db.votes (1, 11)
    ≡ sample_node.db.votes (1, 11) ++ replicate 3 (received_vote 11 150 (vote_fields 7))
deliver-repeats_example =
    deliver-repeats sample_recover 11 150 3 (vote_fields 7) sample_event sample_node (omega arith)
      consumable
