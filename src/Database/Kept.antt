-- ===== src/Database/Kept.antt =====
-- What a property of the database has to satisfy so that the operations that the node uses on
-- app/database/database.py keep it. The rules for the handlers, the filters and the jobs are over
-- these laws.
use validation_node.Prelude.{Option, none, some, List, ◌≡◌, true, arith, Option-cases}
use validation_node.Prelude.Eq.{contains, nat_eq}
use validation_node.Database.Schema.{Ident, Vote, VerityEvent, Db, flushed}
use validation_node.Database.Votes
use validation_node.Database.Events
use validation_node.Database.Events.{
  metadata, get_or_create, create_metadata, update_event, create_participants,
  delete_all_event_data,
}

abbrev pub Seen : Type 0
Seen = Option VerityEvent × List Ident × List Ident × List Ident × List (Ident × Ident) × List Vote

-- The event, its participants and its votes, as far as a node received them.
abbrev pub seen : Ident → Ident → Db → Seen
seen id node_id db = (
  db.events id,
  db.event_ids,
  db.participants id,
  db.votes_common id,
  db.votes_exists id,
  db.votes (id, node_id),
)

pub seen-metadata :
    (event : VerityEvent) (db : Db) (id node_id : Ident)
    → seen id node_id (metadata event db).1 ≡ seen id node_id db
unfolding metadata get_or_create create_metadata
seen-metadata event db id node_id = ground (arith, Option-cases (db.metadata event.event_id))

pub record IsKept (I : Db → Type 0) : Type 0 where
  -- It depends on what is seen only.
  pub frame :
      (db db' : Db)
      → ((id node_id : Ident) → seen id node_id db' ≡ seen id node_id db)
      → I db
      → I db'
  pub named :
      (id : Ident) (event : VerityEvent) (db : Db)
      → db.events id ≡ some event
      → I db
      → event.event_id ≡ id
  pub change :
      (old changed : VerityEvent) (db : Db)
      → db.events changed.event_id ≡ some old
      → I db
      → I (update_event changed db)
  pub add :
      (event : VerityEvent) (db : Db)
      → db.events event.event_id ≡ none
      → I db
      → I (Events.create event db)
  pub remove : (id : Ident) (db : Db) → I db → I (delete_all_event_data id db).0
  pub join :
      (id : Ident) (user_ids : List Ident) (db : Db) → I db → I (create_participants id user_ids db)

-- It holds at the start of the node, and a vote of a participant keeps it.
pub record IsVoteKept (I : Db → Type 0) : Type 0 where
  pub flush : I flushed
  pub cast :
      (v : Vote) (event : VerityEvent) (db : Db)
      → db.events v.event_id ≡ some event
      → contains (db.participants v.event_id) v.user_id ≡ true
      → I db
      → I (Votes.create v db)
