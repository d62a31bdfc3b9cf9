-- ===== src/Database/Events/Deletion.antt =====
-- What `delete_all_event_data` leaves in the database.
use validation_node.Prelude.{
  if◌then◌else◌, All, none, some, List, [], ◌∷◌, ◌≡◌, ◌≢◌, refl, arith, ◌∙◌,
}
use validation_node.Prelude.Eq.{contains, nat_eq, pair_eq, ==_iff, ==_refl}
use validation_node.Prelude.Dict.{Table, update, update_self, update_ne}
use validation_node.Database.Schema.{Ident, VerityEvent, Vote, Db, lrem}
use validation_node.Database.Votes.{delete_all, delete_node_votes}
use validation_node.Database.Events.{get, delete_votes_of, delete_all_event_data}

-- The table of the votes without those of some nodes for an event.
pub clear :
    Ident → List Ident → Table (Ident × Ident) (List Vote) → Table (Ident × Ident) (List Vote)
clear event_id [] t = t
clear event_id (n ∷ node_ids) t = clear event_id node_ids (update (event_id, n) [] t)

pub delete_node_votes-eq :
    (event_id : Ident) (node_ids : List Ident) (db : Db)
    → delete_node_votes event_id node_ids db
      ≡ record db { votes = clear event_id node_ids db.votes }
unfolding delete_node_votes clear
delete_node_votes-eq event_id [] db = refl
delete_node_votes-eq event_id (n ∷ node_ids) db =
    delete_node_votes-eq event_id node_ids (record db { votes = update (event_id, n) [] db.votes })

clear-empty :
    (event_id : Ident) (node_ids : List Ident) (t : Table (Ident × Ident) (List Vote))
    (k : Ident × Ident)
    → t k ≡ []
    → clear event_id node_ids t k ≡ []
unfolding clear
clear-empty event_id [] t k h = h
clear-empty event_id (n ∷ node_ids) t k h =
    clear-empty event_id node_ids (update (event_id, n) [] t) k (ground arith)

clear-All :
    (event_id : Ident) (node_ids : List Ident) (t : Table (Ident × Ident) (List Vote))
    → All (λ n. clear event_id node_ids t (event_id, n) ≡ []) node_ids
unfolding clear
clear-All event_id [] t = tt
clear-All event_id (m ∷ node_ids) t = (
  clear-empty event_id node_ids (update (event_id, m) [] t) (event_id, m)
      (update_self (event_id, m) [] t),
  clear-All event_id node_ids (update (event_id, m) [] t),
)

pub clear_other :
    (event_id : Ident) (node_ids : List Ident) (t : Table (Ident × Ident) (List Vote)) (j n : Ident)
    → j ≢ event_id
    → clear event_id node_ids t (j, n) ≡ t (j, n)
unfolding clear
clear_other event_id [] t j n h = refl
clear_other event_id (m ∷ node_ids) t j n h =
    clear_other event_id node_ids (update (event_id, m) [] t) j n h
    ∙ ground (arith, ==_iff j event_id)

-- The records of the event are gone, and the votes that its nodes stored for it.
pub record IsGone (event : VerityEvent) (db : Db) : Type 0 where
  pub event_gone : db.events event.event_id ≡ none
  pub metadata_gone : db.metadata event.event_id ≡ none
  pub participants_gone : db.participants event.event_id ≡ []
  pub filters_gone : db.filters event.event_id ≡ []
  pub rewards_gone : db.rewards event.event_id ≡ none
  pub count_gone : db.votes_common event.event_id ≡ []
  pub exists_gone : db.votes_exists event.event_id ≡ []
  pub consensus_gone : db.votes_consensus event.event_id ≡ none
  pub votes_gone : All (λ n. db.votes (event.event_id, n) ≡ []) event.node_addresses

-- What is stored of the event `j` is the same.
pub record IsKept (j : Ident) (db db' : Db) : Type 0 where
  pub event_kept : db'.events j ≡ db.events j
  pub metadata_kept : db'.metadata j ≡ db.metadata j
  pub participants_kept : db'.participants j ≡ db.participants j
  pub filters_kept : db'.filters j ≡ db.filters j
  pub rewards_kept : db'.rewards j ≡ db.rewards j
  pub count_kept : db'.votes_common j ≡ db.votes_common j
  pub exists_kept : db'.votes_exists j ≡ db.votes_exists j
  pub consensus_kept : db'.votes_consensus j ≡ db.votes_consensus j
  pub votes_kept : (n : Ident) → db'.votes (j, n) ≡ db.votes (j, n)

-- Exactly the lists of the given nodes are emptied.
clear-other_nodes :
    (event_id : Ident) (node_ids : List Ident) (t : Table (Ident × Ident) (List Vote)) (n : Ident)
    → clear event_id node_ids t (event_id, n)
      ≡ (if contains node_ids n then [] else t (event_id, n))
unfolding clear
clear-other_nodes event_id [] t n = refl
clear-other_nodes event_id (m ∷ node_ids) t n = ground (
  arith,
  clear-other_nodes event_id node_ids (update (event_id, m) [] t) n,
  ==_iff n m,
  ==_refl event_id,
)

-- The state after the deletion, when the event is stored.
deleted : VerityEvent → Db → Db
deleted event db = record db {
  event_ids = lrem event.event_id db.event_ids;
  events = update event.event_id none db.events;
  metadata = update event.event_id none db.metadata;
  participants = update event.event_id [] db.participants;
  filters = update event.event_id [] db.filters;
  rewards = update event.event_id none db.rewards;
  votes = clear event.event_id event.node_addresses db.votes;
  votes_common = update event.event_id [] db.votes_common;
  votes_consensus = update event.event_id none db.votes_consensus;
  votes_exists = update event.event_id [] db.votes_exists;
}

delete_all_event_data-eq :
    (event : VerityEvent) (db : Db)
    → db.events event.event_id ≡ some event
    → delete_all_event_data event.event_id db ≡ (deleted event db, db.filters event.event_id)
unfolding delete_all_event_data get delete_votes_of delete_all deleted
delete_all_event_data-eq event db h = rw (h, delete_votes_of, delete_all, delete_node_votes-eq) refl

deleted-IsGone : (event : VerityEvent) (db : Db) → IsGone event (deleted event db)
unfolding deleted
deleted-IsGone event db = record {
  event_gone = update_self event.event_id none db.events;
  metadata_gone = update_self event.event_id none db.metadata;
  participants_gone = update_self event.event_id [] db.participants;
  filters_gone = update_self event.event_id [] db.filters;
  rewards_gone = update_self event.event_id none db.rewards;
  count_gone = update_self event.event_id [] db.votes_common;
  exists_gone = update_self event.event_id [] db.votes_exists;
  consensus_gone = update_self event.event_id none db.votes_consensus;
  votes_gone = clear-All event.event_id event.node_addresses db.votes;
}

deleted-IsKept :
    (event : VerityEvent) (j : Ident) (db : Db)
    → j ≢ event.event_id
    → IsKept j db (deleted event db)
unfolding deleted
deleted-IsKept event j db ne = record {
  event_kept = update_ne j event.event_id none db.events ne;
  metadata_kept = update_ne j event.event_id none db.metadata ne;
  participants_kept = update_ne j event.event_id [] db.participants ne;
  filters_kept = update_ne j event.event_id [] db.filters ne;
  rewards_kept = update_ne j event.event_id none db.rewards ne;
  count_kept = update_ne j event.event_id [] db.votes_common ne;
  exists_kept = update_ne j event.event_id [] db.votes_exists ne;
  consensus_kept = update_ne j event.event_id none db.votes_consensus ne;
  votes_kept = λ n. clear_other event.event_id event.node_addresses db.votes j n ne;
}

-- For a stored event: its records are gone; its id is removed from the list of the ids, whose other
-- entries stay in order; the votes for it are gone for each of its own nodes and stay as they were for any other
-- node id; the order of its rewards stays as it was; every other event keeps all that is stored of it.
pub delete_all-IsGone :
    (event : VerityEvent) (j n : Ident) (db : Db)
    → db.events event.event_id ≡ some event
    → j ≢ event.event_id
    → IsGone event (delete_all_event_data event.event_id db).0
      × IsKept j db (delete_all_event_data event.event_id db).0
      × ((delete_all_event_data event.event_id db).0.event_ids ≡ lrem event.event_id db.event_ids)
      × ((delete_all_event_data event.event_id db).0.votes (event.event_id, n)
          ≡ (if contains event.node_addresses n then [] else db.votes (event.event_id, n)))
      × ((delete_all_event_data event.event_id db).0.rewards_user_ids ≡ db.rewards_user_ids)
unfolding deleted
delete_all-IsGone event j n db h ne = rw (delete_all_event_data-eq event db h) (
  deleted-IsGone event db,
  deleted-IsKept event j db ne,
  refl,
  clear-other_nodes event.event_id event.node_addresses db.votes n,
  refl,
)
