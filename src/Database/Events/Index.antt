-- ===== src/Database/Events/Index.antt =====
-- The list of event ids against the stored events (`class VerityEvent` of app/database/database.py).
use validation_node.Prelude.{
  Bool, true, false, Option, none, some, List, [], ◌∷◌, ◌≡◌, arith, refl, sym, eqb, eqb_iff, subst,
  ap, ◌∙◌, inl, inr, Bool-cases,
}
use validation_node.Prelude.Eq.{contains, HasNoRepeats, ==_iff, nat_eq, pair_eq}
use validation_node.Prelude.Dict.{Table, update, update_self}
use validation_node.Database.Schema.{Ident, Vote, VerityEvent, Db, flushed, lrem}
use validation_node.Database.Sets.{
  contains-append, append-HasNoRepeats, lrem-HasNoRepeats, contains-lrem_self, contains-lrem_ne,
}
use validation_node.Database.Votes
use validation_node.Database.Votes.{delete_all, delete_node_votes}
use validation_node.Database.Events.{
  get, create, update_event, create_participants, delete_all_event_data, delete_votes_of,
}
use validation_node.Database.Kept.{seen, IsKept, IsVoteKept}

-- A stored event is listed and carries its own id; an id without an event is not listed.
abbrev pub Matches : Ident → Option VerityEvent → Bool → Type 0
Matches id none listed = listed ≡ false
Matches id (some event) listed = (listed ≡ true) × (event.event_id ≡ id)

-- The listed ids are those of the stored events, each once.
pub record IndexOf (ids : List Ident) (events : Table Ident (Option VerityEvent)) : Type 0 where
  pub once : HasNoRepeats ids
  pub entry : (id : Ident) → Matches id (events id) (contains ids id)

abbrev pub IsIndexed : Db → Type 0
IsIndexed db = IndexOf db.event_ids db.events

-- The listed ids and the stored events of a database.
abbrev index_of : Db → List Ident × Table Ident (Option VerityEvent)
index_of db = (db.event_ids, db.events)

index-delete_node_votes :
    (event_id : Ident) (node_ids : List Ident) (db : Db)
    → index_of (delete_node_votes event_id node_ids db) ≡ index_of db
unfolding delete_node_votes
index-delete_node_votes event_id [] db = refl
index-delete_node_votes event_id (n ∷ node_ids) db =
    index-delete_node_votes event_id node_ids
      (record db { votes = update (event_id, n) [] db.votes })

index-delete_votes_of :
    (event : Option VerityEvent) (event_id : Ident) (db : Db)
    → index_of (delete_votes_of event event_id db) ≡ index_of db
unfolding delete_votes_of delete_all
index-delete_votes_of none event_id db = refl
index-delete_votes_of (some event) event_id db =
    index-delete_node_votes event_id event.node_addresses db

pub events-delete :
    (event_id : Ident) (db : Db) → (delete_all_event_data event_id db).0.events event_id ≡ none
unfolding delete_all_event_data get
events-delete event_id db =
    ap (λ p. p.1 event_id)
      (index-delete_votes_of (db.events event_id) event_id (record db {
        event_ids = lrem event_id db.event_ids;
        events = update event_id none db.events;
        metadata = update event_id none db.metadata;
        participants = update event_id [] db.participants;
        filters = update event_id [] db.filters;
      }))
    ∙ update_self event_id none db.events

module _ (event : VerityEvent) (db : Db) (h : IsIndexed db) where
  create-IsIndexed : db.events event.event_id ≡ none → IsIndexed (create event db)
  unfolding create
  create-IsIndexed new = record {
    once = append-HasNoRepeats db.event_ids event.event_id h.once listed;
    entry = λ id. ground (
      arith,
      h.entry id,
      contains-append db.event_ids (event.event_id ∷ []) id,
      ==_iff id event.event_id,
    );
  }
    where
      listed : contains db.event_ids event.event_id ≡ false
      listed = ground (arith, h.entry event.event_id)

  update_event-IsIndexed :
      (old : VerityEvent) → db.events event.event_id ≡ some old → IsIndexed (update_event event db)
  unfolding update_event
  update_event-IsIndexed old stored = record {
    once = h.once;
    entry = λ id. ground (arith, h.entry id, ==_iff id event.event_id);
  }

delete-IsIndexed :
    (event_id : Ident) (db : Db) → IsIndexed db → IsIndexed (delete_all_event_data event_id db).0
unfolding delete_all_event_data get
delete-IsIndexed event_id db h =
    subst (λ p. IndexOf p.0 p.1)
      (sym (
        index-delete_votes_of (db.events event_id) event_id (record db {
          event_ids = lrem event_id db.event_ids;
          events = update event_id none db.events;
          metadata = update event_id none db.metadata;
          participants = update event_id [] db.participants;
          filters = update event_id [] db.filters;
        })))
      (record {
        once = lrem-HasNoRepeats event_id db.event_ids h.once;
        entry = λ id. elim (Bool-cases (eqb id event_id)) [
          | inl e ↦
              ground (arith, contains-lrem_self event_id db.event_ids h.once, eqb_iff id event_id)
          | inr n ↦
              ground
                (arith, h.entry id, contains-lrem_ne event_id db.event_ids id, eqb_iff id event_id)
        ];
      })

seen-IsIndexed :
    (db db' : Db)
    → ((id node_id : Ident) → seen id node_id db' ≡ seen id node_id db)
    → IsIndexed db
    → IsIndexed db'
seen-IsIndexed db db' same h = record {
  once = subst HasNoRepeats (sym (ap (λ p. p.1) (same 0 0))) h.once;
  entry = λ id. subst (λ p. Matches id p.0 (contains p.1 id)) (sym (same id 0)) (h.entry id);
}

flushed-IsIndexed : IsIndexed flushed
unfolding flushed
flushed-IsIndexed = record { once = tt; entry = λ id. refl }

named-IsIndexed :
    (id : Ident) (event : VerityEvent) (db : Db)
    → db.events id ≡ some event
    → IsIndexed db
    → event.event_id ≡ id
named-IsIndexed id event db e h = ground (arith, h.entry id)

create_participants-IsIndexed :
    (id : Ident) (user_ids : List Ident) (db : Db)
    → IsIndexed db
    → IsIndexed (create_participants id user_ids db)
unfolding create_participants
create_participants-IsIndexed id user_ids db h = h

vote-IsIndexed :
    (v : Vote) (event : VerityEvent) (db : Db)
    → db.events v.event_id ≡ some event
    → contains (db.participants v.event_id) v.user_id ≡ true
    → IsIndexed db
    → IsIndexed (Votes.create v db)
unfolding Votes.create
vote-IsIndexed v event db e p h = h

-- The operations of the node keep the index.
instance pub indexed-IsKept : IsKept IsIndexed
indexed-IsKept = record {
  frame = seen-IsIndexed;
  named = named-IsIndexed;
  change = λ old changed db e h. update_event-IsIndexed changed db h old e;
  add = λ event db e h. create-IsIndexed event db h e;
  remove = delete-IsIndexed;
  join = create_participants-IsIndexed;
}

instance pub indexed-IsVoteKept : IsVoteKept IsIndexed
indexed-IsVoteKept = record { flush = flushed-IsIndexed; cast = vote-IsIndexed }
