-- ===== src/Database/Votes.antt =====
-- `class Vote` of app/database/database.py: storing and reading votes, and the representation by
-- which answers are compared.
use validation_node.Prelude.{
  ℕ, Bool, true, false, Option, none, some, List, [], ◌∷◌, ◌++◌, map, length, take, ltb, eqb, ◌&&◌,
  ◌||◌,
}
use validation_node.Prelude.Eq.{contains, nat_eq, list_eq, pair_eq}
use validation_node.Prelude.Dict.{lookup, update}
use validation_node.Prelude.Sort.{sorted}
use validation_node.Database.Schema.{Ident, Text, Answer, Vote, Db, sadd, difference}

-- 'field_name' and 'field_value'
abbrev pub answers_sort_key : Text
answers_sort_key = 102 ∷ 105 ∷ 101 ∷ 108 ∷ 100 ∷ 95 ∷ 110 ∷ 97 ∷ 109 ∷ 101 ∷ []

abbrev pub answers_value_key : Text
answers_value_key = 102 ∷ 105 ∷ 101 ∷ 108 ∷ 100 ∷ 95 ∷ 118 ∷ 97 ∷ 108 ∷ 117 ∷ 101 ∷ []

-- The order of texts, by code points.
unfoldable pub text_leb : Text → Text → Bool
text_leb [] t = true
text_leb (a ∷ s) [] = false
text_leb (a ∷ s) (b ∷ t) = ltb a b || (eqb a b && text_leb s t)

-- `answer[key]`; the payload test lets only answers in that have the keys, so the default is not
-- read.
abbrev pub field : Text → Answer → Text
field key a = elim (lookup key a) [ none ↦ [] | some v ↦ v ]

abbrev item_key : Text × Text → Text
item_key e = e.0

unfoldable pub ordered_answers : Vote → List Answer
unfolding sorted text_leb
ordered_answers v =
    sorted text_leb (field answers_sort_key) (map (sorted text_leb item_key) v.answers)

-- `ordered_answers().__repr__()` tells apart what differs, so the ordered answers stand for it.
abbrev pub Repr : Type 0
Repr = List Answer

unfoldable pub answers_representation : Vote → Repr
unfolding ordered_answers
answers_representation v = ordered_answers v

unfoldable pub answers_from_vote : Option Vote → List Text
unfolding ordered_answers
answers_from_vote none = []
answers_from_vote (some v) = map (field answers_value_key) (ordered_answers v)

unfoldable pub create : Vote → Db → Db
create v db = record db {
  votes = update (v.event_id, v.node_id) (db.votes (v.event_id, v.node_id) ++ v ∷ []) db.votes;
  votes_common = update v.event_id (sadd v.user_id (db.votes_common v.event_id)) db.votes_common;
  votes_exists =
      update v.event_id (sadd (v.node_id, v.user_id) (db.votes_exists v.event_id)) db.votes_exists;
}

-- `Vote.exists`, its arguments in the source's order.
unfoldable pub exists : Ident → Ident → Ident → Db → Bool
exists event_id node_id user_id db = contains (db.votes_exists event_id) (node_id, user_id)

unfoldable pub set_consensus_vote : Vote → Db → Db
set_consensus_vote v db = record db {
  votes_consensus = update v.event_id (some v) db.votes_consensus;
}

unfoldable pub get_consensus_vote : Ident → Db → Option Vote
get_consensus_vote event_id db = db.votes_consensus event_id

unfoldable pub get_consensus_answers : Ident → Db → List Text
unfolding get_consensus_vote answers_from_vote
get_consensus_answers event_id db =
    map (take 32) (answers_from_vote (get_consensus_vote event_id db))

unfoldable pub count : Ident → Db → ℕ
count event_id db = length (db.votes_common event_id)

unfoldable pub user_ids_with_vote : Ident → Db → List Ident
user_ids_with_vote event_id db = db.votes_common event_id

unfoldable pub user_ids_with_incorrect_vote : Ident → List Ident → Db → List Ident
unfolding user_ids_with_vote
user_ids_with_incorrect_vote event_id user_ids_correct_vote db =
    difference (user_ids_with_vote event_id db) user_ids_correct_vote

unfoldable pub get_list : Ident → Ident → Db → List Vote
get_list event_id node_id db = db.votes (event_id, node_id)

unfoldable pub delete_node_votes : Ident → List Ident → Db → Db
delete_node_votes event_id [] db = db
delete_node_votes event_id (n ∷ node_ids) db =
    delete_node_votes event_id node_ids (record db { votes = update (event_id, n) [] db.votes })

unfoldable pub delete_all : Ident → List Ident → Db → Db
unfolding delete_node_votes
delete_all event_id node_ids db =
    let db' = delete_node_votes event_id node_ids db in
    record db' {
      votes_common = update event_id [] db'.votes_common;
      votes_consensus = update event_id none db'.votes_consensus;
      votes_exists = update event_id [] db'.votes_exists;
    }
