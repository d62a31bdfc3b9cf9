-- ===== src/Voting/Api/Effects.antt =====
-- What is stored, queued and scheduled by a request to vote, and that no user votes twice.
use validation_node.Prelude.{
  ℕ, true, Option, none, some, [], ◌∷◌, ◌++◌, ◌≡◌, ◌≢◌, arith, Option-cases, inl, inr,
}
use validation_node.Prelude.Dict.{update_self}
use validation_node.Prelude.Eq.{nat_eq, pair_eq, ==_iff}
use validation_node.Database.Schema.{Ident, Vote, VerityEvent, VerityEventMetadata, Db}
use validation_node.Database.Sets.{contains-sadd_self, contains-sadd_of}
use validation_node.Database.Votes
use validation_node.Database.Events.{get, metadata}
use validation_node.Node.{VoteData, VoteJson, Node, add_job}
use validation_node.Voting.Payload.{VoteFields, parse_fields_from_json_data}
use validation_node.Voting.Api.{new_vote, vote_message, vote_on, vote_for, vote, accept}

-- Nothing that a vote can change, but that the metadata of an event may be there for the first time.
pub record IsUntouched (n n' : Node) : Type 0 where
  pub votes : n'.db.votes ≡ n.db.votes
  pub votes_common : n'.db.votes_common ≡ n.db.votes_common
  pub votes_exists : n'.db.votes_exists ≡ n.db.votes_exists
  pub events : n'.db.events ≡ n.db.events
  pub outbox : n'.outbox ≡ n.outbox
  pub jobs : n'.jobs ≡ n.jobs

module _ (recover : VoteData → Ident → Option Ident) (node_id : Ident) where
  pub vote_on-rejected :
      (now : ℕ) (j : VoteJson) (f : VoteFields) (event : VerityEvent) (n : Node)
      → (vote_on recover node_id now j f event n).0.status ≢ 200
      → IsUntouched n (vote_on recover node_id now j f event n).1
  unfolding vote_on metadata
  vote_on-rejected now j f event n h = ground (arith, Option-cases (n.db.metadata event.event_id))

  pub vote_for-rejected :
      (now : ℕ) (j : VoteJson) (f : Option VoteFields) (n : Node)
      → (vote_for recover node_id now j f n).0.status ≢ 200
      → IsUntouched n (vote_for recover node_id now j f n).1
  unfolding vote_for
  vote_for-rejected now j none n h = ground arith
  vote_for-rejected now j (some f) n h = elim (Option-cases (get f.event_id n.db)) [
    | inl missing ↦ ground arith
    | inr (event, e) ↦ ground (arith, vote_on-rejected now j f event n)
  ]

  -- A request that is not answered with 200 stores no vote, queues no message and schedules no job.
  pub vote-rejected :
      (now : ℕ) (j : Option VoteJson) (n : Node)
      → (vote recover node_id now j n).0.status ≢ 200
      → IsUntouched n (vote recover node_id now j n).1
  unfolding vote
  vote-rejected now none n h = ground arith
  vote-rejected now (some j) n h =
      ground (arith, vote_for-rejected now j (parse_fields_from_json_data j) n)

pub db-accept :
    (node_id : Ident) (now : ℕ) (j : VoteJson) (f : VoteFields) (event : VerityEvent)
    (m : VerityEventMetadata) (n : Node)
    → (accept node_id now j f event m n).db ≡ Votes.create (new_vote node_id now f) n.db
unfolding accept add_job
db-accept node_id now j f event m n = ground arith

pub outbox-accept :
    (node_id : Ident) (now : ℕ) (j : VoteJson) (f : VoteFields) (event : VerityEvent)
    (m : VerityEventMetadata) (n : Node)
    → (accept node_id now j f event m n).outbox ≡ n.outbox ++ vote_message node_id now j f ∷ []
unfolding accept add_job
outbox-accept node_id now j f event m n = ground arith

pub exists-create_self :
    (v : Vote) (db : Db) → Votes.exists v.event_id v.node_id v.user_id (Votes.create v db) ≡ true
unfolding Votes.exists Votes.create
exists-create_self v db =
    rw update_self (contains-sadd_self (v.node_id, v.user_id) (db.votes_exists v.event_id))

pub exists-create_of :
    (v : Vote) (db : Db) (e nd u : Ident)
    → Votes.exists e nd u db ≡ true
    → Votes.exists e nd u (Votes.create v db) ≡ true
unfolding Votes.exists Votes.create
exists-create_of v db e nd u h = ground (
  arith,
  ==_iff e v.event_id,
  contains-sadd_of (v.node_id, v.user_id) (db.votes_exists e) (nd, u) h,
)

module _ (recover : VoteData → Ident → Option Ident) (node_id : Ident) where
  -- The stored state after an accepted vote.
  pub vote_on-stores :
      (now : ℕ) (j : VoteJson) (f : VoteFields) (event : VerityEvent) (n : Node)
      → (vote_on recover node_id now j f event n).0.status ≡ 200
      → (vote_on recover node_id now j f event n).1
        ≡ accept node_id now j f event
            (metadata event n.db).0
            (record n { db = (metadata event n.db).1 })
  unfolding vote_on
  vote_on-stores now j f event n h = ground arith

pub exists-metadata :
    (event : VerityEvent) (db : Db) → (metadata event db).1.votes_exists ≡ db.votes_exists
unfolding metadata
exists-metadata event db = ground (arith, Option-cases (db.metadata event.event_id))

pub votes-metadata : (event : VerityEvent) (db : Db) → (metadata event db).1.votes ≡ db.votes
unfolding metadata
votes-metadata event db = ground (arith, Option-cases (db.metadata event.event_id))
