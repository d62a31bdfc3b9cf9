-- ===== src/Database/Events/Voters/Removal.antt =====
-- Who voted, after `delete_all_event_data`, and after each of the operations that the node uses.
use validation_node.Prelude.{
  Bool-cases, Option, none, some, List, [], ◌≡◌, ◌≢◌, refl, sym, subst, true, false, ◌∙◌, arith,
  eqb, eqb_iff, inl, inr,
}
use validation_node.Prelude.Eq.{contains, HasNoRepeats, nat_eq, pair_eq}
use validation_node.Prelude.Dict.{update}
use validation_node.Database.Schema.{Ident, Vote, VerityEvent, Db, lrem}
use validation_node.Database.Sets.{implies}
use validation_node.Database.Votes.{delete_all}
use validation_node.Database.Events.{get, delete_all_event_data, delete_votes_of}
use validation_node.Database.Events.Deletion.{delete_node_votes-eq, clear_other}
use validation_node.Database.Events.Index.{indexed-IsKept}
use validation_node.Database.Events.Voters.{
  has_vote_of, NoVotes, HasVoters, frame-HasVoters, flushed-HasVoters, update_event-HasVoters,
  create-HasVoters, join-HasVoters, vote-HasVoters,
}
use validation_node.Database.Kept.{IsKept, IsVoteKept}

abbrev pub Remaining : Type 0
Remaining = Option VerityEvent × List Ident × List Ident × List (Ident × Ident) × List Vote

-- The event, who takes part, who voted, through which node, and the votes of a node.
abbrev pub remaining : Ident → Ident → Db → Remaining
remaining id node_id db = (
  db.events id,
  db.participants id,
  db.votes_common id,
  db.votes_exists id,
  db.votes (id, node_id),
)

remaining-delete_votes_of :
    (found : Option VerityEvent) (event_id id node_id : Ident) (db : Db)
    → id ≢ event_id
    → remaining id node_id (delete_votes_of found event_id db) ≡ remaining id node_id db
unfolding delete_votes_of delete_all
remaining-delete_votes_of none event_id id node_id db n = refl
remaining-delete_votes_of (some event) event_id id node_id db n = ground (
  arith,
  delete_node_votes-eq event_id event.node_addresses db,
  clear_other event_id event.node_addresses db.votes id node_id n,
  eqb_iff id event_id,
)

abbrev pub NoneLeft : Ident → Db → Type 0
NoneLeft event_id db =
    (db.participants event_id ≡ [])
    × (db.votes_common event_id ≡ [])
    × (db.votes_exists event_id ≡ [])

delete_votes_of-NoneLeft :
    (found : Option VerityEvent) (event_id : Ident) (db : Db)
    → NoVotes found (db.votes_common event_id) (db.votes_exists event_id)
    → db.participants event_id ≡ []
    → NoneLeft event_id (delete_votes_of found event_id db)
unfolding delete_votes_of delete_all
delete_votes_of-NoneLeft none event_id db h p = (p, h.0, h.1)
delete_votes_of-NoneLeft (some event) event_id db h p =
    ground (arith, delete_node_votes-eq event_id event.node_addresses db, eqb_iff event_id event_id)

empty-once : (users : List Ident) → users ≡ [] → HasNoRepeats users
empty-once users e = rw e tt

novotes :
    (found : Option VerityEvent) (users : List Ident) (pairs : List (Ident × Ident))
    → (users ≡ []) × (pairs ≡ [])
    → NoVotes found users pairs
novotes none users pairs h = h
novotes (some event) users pairs h = tt

module _ (event_id : Ident) (db : Db) where
  -- The pipeline up to the votes.
  abbrev without : Db
  without = record db {
    event_ids = lrem event_id db.event_ids;
    events = update event_id none db.events;
    metadata = update event_id none db.metadata;
    participants = update event_id [] db.participants;
    filters = update event_id [] db.filters;
  }

  pub remaining-delete :
      (id node_id : Ident)
      → id ≢ event_id
      → remaining id node_id (delete_all_event_data event_id db).0 ≡ remaining id node_id db
  unfolding delete_all_event_data get
  remaining-delete id node_id n =
      remaining-delete_votes_of (db.events event_id) event_id id node_id without n
      ∙ ground (arith, eqb_iff id event_id)

  pub delete-NoneLeft : HasVoters db → NoneLeft event_id (delete_all_event_data event_id db).0
  unfolding delete_all_event_data get
  delete-NoneLeft h =
      delete_votes_of-NoneLeft (db.events event_id) event_id without (h.absent event_id)
        (ground (arith, eqb_iff event_id event_id))

  differs : (id : Ident) → eqb id event_id ≡ false → id ≢ event_id
  differs id other = ground (arith, eqb_iff id event_id)

  pub delete-HasVoters : HasVoters db → HasVoters (delete_all_event_data event_id db).0
  delete-HasVoters h = record {
    index = indexed-IsKept.remove event_id db h.index;
    absent = λ id. elim (Bool-cases (eqb id event_id)) [
      | inl same ↦ novotes _ _ _ (ground (arith, delete-NoneLeft h, eqb_iff id event_id))
      | inr other ↦
          subst (λ r. NoVotes r.0 r.2 r.3) (sym (remaining-delete id 0 (differs id other)))
            (h.absent id)
    ];
    once = λ id. elim (Bool-cases (eqb id event_id)) [
      | inl same ↦ empty-once _ (ground (arith, delete-NoneLeft h, eqb_iff id event_id))
      | inr other ↦
          subst (λ r. HasNoRepeats r.2) (sym (remaining-delete id 0 (differs id other))) (h.once id)
    ];
    takes_part = λ id u. elim (Bool-cases (eqb id event_id)) [
      | inl same ↦ ground (arith, delete-NoneLeft h, eqb_iff id event_id)
      | inr other ↦
          subst (λ r. implies (contains r.2 u) (contains r.1 u) ≡ true)
            (sym (remaining-delete id 0 (differs id other))) (h.takes_part id u)
    ];
    counted = λ id n u. elim (Bool-cases (eqb id event_id)) [
      | inl same ↦ ground (arith, delete-NoneLeft h, eqb_iff id event_id)
      | inr other ↦
          subst (λ r. implies (contains r.3 (n, u)) (contains r.2 u) ≡ true)
            (sym (remaining-delete id n (differs id other))) (h.counted id n u)
    ];
    stored = λ id n u. elim (Bool-cases (eqb id event_id)) [
      | inl same ↦ ground (arith, delete-NoneLeft h, eqb_iff id event_id)
      | inr other ↦
          subst (λ r. implies (contains r.3 (n, u)) (has_vote_of u r.4) ≡ true)
            (sym (remaining-delete id n (differs id other))) (h.stored id n u)
    ];
  }

-- The operations of the node keep who voted in accord with who takes part.
instance pub HasVoters-IsKept : IsKept HasVoters
HasVoters-IsKept = record {
  frame = frame-HasVoters;
  named = λ id event db e h. indexed-IsKept.named id event db e h.index;
  change = update_event-HasVoters;
  add = create-HasVoters;
  remove = delete-HasVoters;
  join = join-HasVoters;
}

instance pub HasVoters-IsVoteKept : IsVoteKept HasVoters
HasVoters-IsVoteKept = record { flush = flushed-HasVoters; cast = vote-HasVoters }
