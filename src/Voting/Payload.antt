-- ===== src/Voting/Payload.antt =====
-- The checks on the JSON of a vote (app/common.py) and of a message (app/websocket.py).
use validation_node.Prelude.{
  ℕ, Bool, true, false, ◌&&◌, Option, none, some, List, [], ◌∷◌, leb, eqb, ◌≡◌, arith, Option-cases,
  inl, inr,
}
use validation_node.Prelude.Dict.{has_key}
use validation_node.Prelude.Eq.{nat_eq, list_eq}
use validation_node.Database.Schema.{Ident, Answer, Db}
use validation_node.Database.Votes.{answers_sort_key, answers_value_key}
use validation_node.Database.Events.{participant_exists}
use validation_node.Node.{VoteData, VoteJson, Message}

-- The keys that every answer must have.
unfoldable pub are_answers_valid : List Answer → Bool
are_answers_valid [] = true
are_answers_valid (a ∷ answers) =
    has_key answers_value_key a && has_key answers_sort_key a && are_answers_valid answers

-- The fields of `parse_fields_from_json_data`, and the answers.
pub record VoteFields : Type 0 where
  pub event_id : Ident
  pub user_id : Ident
  pub vote_data : VoteData
  pub signature : Ident
  pub answers : List Answer

-- `none` where a field is missing.
unfoldable pub parse_fields_from_json_data : VoteJson → Option VoteFields
parse_fields_from_json_data j = elim j.vote_data [
  | none ↦ none
  | some d ↦ elim d.task_id [
    | none ↦ none
    | some e ↦ elim d.user_id [
      | none ↦ none
      | some u ↦ elim j.signed_data [
        | none ↦ none
        | some s ↦ elim d.answers [
          | none ↦ none
          | some answers ↦ some (record {
            event_id = e;
            user_id = u;
            vote_data = d;
            signature = s;
            answers = answers;
          })
        ]
      ]
    ]
  ]
]

is_present : {A : Type 0} → Option A → Bool
is_present none = false
is_present (some a) = true

is_data_valid : Option VoteData → Bool
unfolding is_present are_answers_valid
is_data_valid none = false
is_data_valid (some d) =
    is_present d.user_id
    && is_present d.task_id
    && (elim d.answers [ none ↦ false | some answers ↦ are_answers_valid answers ])

unfoldable pub is_vote_payload_valid : Option VoteJson → Bool
unfolding is_data_valid is_present
is_vote_payload_valid none = false
is_vote_payload_valid (some j) = is_data_valid j.vote_data && is_present j.signed_data

unfoldable pub is_message_valid : Option Message → Bool
unfolding is_present
is_message_valid none = false
is_message_valid (some m) =
    is_present m.event_id
    && is_present m.current_timestamp
    && is_present m.json_data
    && is_present m.node_id

unfoldable pub is_voting_active : ℕ → ℕ → ℕ → Bool
is_voting_active timestamp event_start_time event_end_time =
    leb event_start_time timestamp && leb timestamp event_end_time

unfoldable pub is_user_registered : Ident → Ident → Db → Bool
unfolding participant_exists
is_user_registered user_id event_id db = participant_exists event_id user_id db

-- `recoverHash` of web3, on the signed JSON and the signature; `none` where it raises.
unfoldable pub is_vote_signed : (VoteData → Ident → Option Ident) → VoteFields → Bool
is_vote_signed recover f = elim (recover f.vote_data f.signature) [
  | none ↦ false
  | some signer ↦ eqb f.user_id signer
]

-- A payload that passes the test has every field, so reading them raises nothing.
pub parse_of_valid :
    (j : VoteJson)
    → is_vote_payload_valid (some j) ≡ true
    → (f : VoteFields) × (parse_fields_from_json_data j ≡ some f)
      × (are_answers_valid f.answers ≡ true)
unfolding is_vote_payload_valid parse_fields_from_json_data
parse_of_valid j h = elim (Option-cases j.vote_data) [
  | inl e ↦ absurd (ground arith)
  | inr (d, ed) ↦ elim (Option-cases d.task_id) [
    | inl e ↦ absurd (ground arith)
    | inr (t, et) ↦ elim (Option-cases d.user_id) [
      | inl e ↦ absurd (ground arith)
      | inr (u, eu) ↦ elim (Option-cases j.signed_data) [
        | inl e ↦ absurd (ground arith)
        | inr (s, es) ↦ elim (Option-cases d.answers) [
          | inl e ↦ absurd (ground arith)
          | inr (a, ea) ↦ (
            record { event_id = t; user_id = u; vote_data = d; signature = s; answers = a },
            ground arith,
            ground arith,
          )
        ]
      ]
    ]
  ]
]
