-- ===== src/Voting/Consumer/Duplicates.antt =====
-- What a vote from another node does when it is delivered again and again.
use validation_node.Prelude.{
  ℕ, zero, suc, replicate, append-nil, true, false, Option, some, List, [], ◌∷◌, ◌++◌, ◌≡◌, ◌≢◌,
  ◌≤◌, arith, sym, ap, ◌∙◌, Option-cases,
}
use validation_node.Prelude.Eq.{nat_eq, pair_eq, ==_iff}
use validation_node.Database.Schema.{Ident, Vote, VerityEvent, Db}
use validation_node.Database.Sets.{contains-sadd}
use validation_node.Database.Votes
use validation_node.Database.Votes.{user_ids_with_vote}
use validation_node.Database.Events.{metadata}
use validation_node.Node.{VoteData, Node, add_job}
use validation_node.Voting.Payload.{
  VoteFields, is_voting_active, is_user_registered, is_vote_signed,
}
use validation_node.Voting.Api.Once.{votes-stored}
use mathlib.Core.List.{append_assoc}
use validation_node.Voting.Consumer.{received_vote, store_received, consume_for}

-- No consensus is reached, and the vote from another node passes the tests, the last with the arguments of the source.
pub record IsConsumable (recover : VoteData → Ident → Option Ident) (node_id : Ident)
    (timestamp : ℕ) (f : VoteFields) (event : VerityEvent) (n : Node) : Type 0 where
  pub open_for_votes : (metadata event n.db).0.is_consensus_reached ≡ false
  pub after_start : event.event_start_time ≤ timestamp
  pub before_end : timestamp ≤ event.event_end_time
  pub registered : is_user_registered f.user_id event.event_id n.db ≡ true
  pub signed : recover f.vote_data f.signature ≡ some f.user_id
  pub absent : Votes.exists f.event_id f.user_id node_id n.db ≡ false

open_again :
    (v : Vote) (event : VerityEvent) (db : Db)
    → (metadata event db).0.is_consensus_reached ≡ false
    → (metadata event (Votes.create v (metadata event db).1)).0.is_consensus_reached ≡ false
unfolding metadata Votes.create
open_again v event db h =
    ground (arith, Option-cases (db.metadata event.event_id), ==_iff event.event_id event.event_id)

registered_again :
    (v : Vote) (event : VerityEvent) (db : Db) (user_id : Ident)
    → is_user_registered user_id event.event_id db ≡ true
    → is_user_registered user_id event.event_id (Votes.create v (metadata event db).1) ≡ true
unfolding metadata Votes.create is_user_registered
registered_again v event db user_id h = ground (arith, Option-cases (db.metadata event.event_id))

absent_again :
    (v : Vote) (event : VerityEvent) (db : Db)
    → v.user_id ≢ v.node_id
    → Votes.exists v.event_id v.user_id v.node_id db ≡ false
    → Votes.exists v.event_id v.user_id v.node_id (Votes.create v (metadata event db).1) ≡ false
unfolding metadata Votes.create Votes.exists
absent_again v event db ne h = ground (
  arith,
  Option-cases (db.metadata event.event_id),
  contains-sadd (v.node_id, v.user_id) (db.votes_exists v.event_id) (v.user_id, v.node_id),
  ==_iff v.event_id v.event_id,
)

module _ (recover : VoteData → Ident → Option Ident) (node_id : Ident) (timestamp : ℕ) where
  consume_for-stores :
      (f : VoteFields) (event : VerityEvent) (n : Node)
      → IsConsumable recover node_id timestamp f event n
      → (consume_for recover node_id timestamp f event n).db
        ≡ Votes.create (received_vote node_id timestamp f) (metadata event n.db).1
  unfolding consume_for store_received add_job metadata is_voting_active is_user_registered
      is_vote_signed Votes.exists
  consume_for-stores f event n a = ground (
    arith,
    Option-cases (n.db.metadata event.event_id),
    Option-cases (recover f.vote_data f.signature),
  )

  -- The tests pass again once the vote is stored: its record has the user and the node in the other
  -- order.
  IsConsumable-again :
      (f : VoteFields) (event : VerityEvent) (n n' : Node)
      → f.user_id ≢ node_id
      → n'.db ≡ Votes.create (received_vote node_id timestamp f) (metadata event n.db).1
      → IsConsumable recover node_id timestamp f event n
      → IsConsumable recover node_id timestamp f event n'
  IsConsumable-again f event n n' ne e a = record {
    open_for_votes =
        rw e (open_again (received_vote node_id timestamp f) event n.db a.open_for_votes);
    after_start = a.after_start;
    before_end = a.before_end;
    registered =
        rw e
          (registered_again (received_vote node_id timestamp f) event n.db f.user_id a.registered);
    signed = a.signed;
    absent = rw e (absent_again (received_vote node_id timestamp f) event n.db ne a.absent);
  }

  -- One message delivered `k` times.
  unfoldable pub deliver : ℕ → VoteFields → VerityEvent → Node → Node
  deliver zero f event n = n
  deliver (suc k) f event n = deliver k f event (consume_for recover node_id timestamp f event n)

  -- While no consensus is reached on the event, a vote that passes the tests of the consumer, of a user
  -- other than the node that it names, is stored once for each of the deliveries that follow one another: the
  -- test for a vote that is there already, as the source calls it, never finds it.
  pub deliver-repeats :
      (k : ℕ) (f : VoteFields) (event : VerityEvent) (n : Node)
      → f.user_id ≢ node_id
      → IsConsumable recover node_id timestamp f event n
      → (deliver k f event n).db.votes (f.event_id, node_id)
        ≡ n.db.votes (f.event_id, node_id) ++ replicate k (received_vote node_id timestamp f)
  unfolding deliver
  deliver-repeats zero f event n ne a = sym (append-nil (n.db.votes (f.event_id, node_id)))
  deliver-repeats (suc k) f event n ne a =
      let n' = consume_for recover node_id timestamp f event n in
      let e = consume_for-stores f event n a in
      deliver-repeats k f event n' ne (IsConsumable-again f event n n' ne e a)
      ∙ ap (λ (vs : List Vote). vs ++ replicate k (received_vote node_id timestamp f))
          (ap (λ (db : Db). db.votes (f.event_id, node_id)) e
            ∙ votes-stored (received_vote node_id timestamp f) event n.db)
      ∙ append_assoc (n.db.votes (f.event_id, node_id)) (received_vote node_id timestamp f ∷ []) _
