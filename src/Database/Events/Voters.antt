-- ===== src/Database/Events/Voters.antt =====
-- Who voted, against who takes part (`Vote` and `Participants` of app/database/database.py).
pub mod Removal
use validation_node.Prelude.{
  Bool, true, false, not, ◌||◌, Option, none, some, List, [], ◌∷◌, ◌++◌, ◌≡◌, refl, sym, ap, ◌∙◌,
  subst, arith, eqb, eqb_iff, Option-cases, Bool-cases, inl, inr,
}
use validation_node.Prelude.Eq.{Eq, contains, HasNoRepeats, ==_iff, nat_eq, pair_eq}
use validation_node.Prelude.Dict.{update}
use validation_node.Database.Schema.{Ident, Vote, VerityEvent, Db, flushed, sadd}
use validation_node.Database.Sets.{implies, contains-sadd, contains-sadd_of, sadd-HasNoRepeats}
use validation_node.Database.Votes
use validation_node.Database.Votes.{delete_all, delete_node_votes}
use validation_node.Database.Events.{
  get, create, update_event, create_participants, add_participants, delete_all_event_data,
  delete_votes_of,
}
use validation_node.Database.Events.Deletion.{delete_node_votes-eq, clear, clear_other}
use validation_node.Database.Events.Index.{IsIndexed, indexed-IsKept, indexed-IsVoteKept}
use validation_node.Database.Kept.{seen, IsKept}

-- One of the votes is of the user.
abbrev pub has_vote_of : Ident → List Vote → Bool
has_vote_of user_id [] = false
has_vote_of user_id (v ∷ votes) = eqb v.user_id user_id || has_vote_of user_id votes

-- Of an event that is not stored, no vote is counted.
abbrev pub NoVotes : Option VerityEvent → List Ident → List (Ident × Ident) → Type 0
NoVotes none users pairs = (users ≡ []) × (pairs ≡ [])
NoVotes (some event) users pairs = Unit

pub record HasVoters (db : Db) : Type 0 where
  pub index : IsIndexed db
  pub absent : (id : Ident) → NoVotes (db.events id) (db.votes_common id) (db.votes_exists id)
  -- No voter is counted twice.
  pub once : (id : Ident) → HasNoRepeats (db.votes_common id)
  -- Who voted for an event takes part in it.
  pub takes_part :
      (id user_id : Ident)
      → implies (contains (db.votes_common id) user_id) (contains (db.participants id) user_id)
        ≡ true
  -- Who voted through a node is counted among those who voted.
  pub counted :
      (id node_id user_id : Ident)
      → implies
          (contains (db.votes_exists id) (node_id, user_id))
          (contains (db.votes_common id) user_id)
        ≡ true
  -- Who voted through a node has a vote that is stored for that node.
  pub stored :
      (id node_id user_id : Ident)
      → implies
          (contains (db.votes_exists id) (node_id, user_id))
          (has_vote_of user_id (db.votes (id, node_id)))
        ≡ true

pub frame-HasVoters :
    (db db' : Db)
    → ((id node_id : Ident) → seen id node_id db' ≡ seen id node_id db)
    → HasVoters db
    → HasVoters db'
frame-HasVoters db db' same h = record {
  index = indexed-IsKept.frame db db' same h.index;
  absent = λ id. subst (λ s. NoVotes s.0 s.3 s.4) (sym (same id 0)) (h.absent id);
  once = λ id. subst (λ s. HasNoRepeats s.3) (sym (same id 0)) (h.once id);
  takes_part = λ id u.
      subst (λ s. implies (contains s.3 u) (contains s.2 u) ≡ true) (sym (same id 0))
        (h.takes_part id u);
  counted = λ id n u.
      subst (λ s. implies (contains s.4 (n, u)) (contains s.3 u) ≡ true) (sym (same id n))
        (h.counted id n u);
  stored = λ id n u.
      subst (λ s. implies (contains s.4 (n, u)) (has_vote_of u s.5) ≡ true) (sym (same id n))
        (h.stored id n u);
}

pub flushed-HasVoters : HasVoters flushed
unfolding flushed
flushed-HasVoters = record {
  index = indexed-IsVoteKept.flush;
  absent = λ id. (refl, refl);
  once = λ id. tt;
  takes_part = λ id u. refl;
  counted = λ id n u. refl;
  stored = λ id n u. refl;
}

pub update_event-HasVoters :
    (old changed : VerityEvent) (db : Db)
    → db.events changed.event_id ≡ some old
    → HasVoters db
    → HasVoters (update_event changed db)
unfolding update_event
update_event-HasVoters old changed db e h = record {
  index = indexed-IsKept.change old changed db e h.index;
  absent = λ id. ground (arith, h.absent id, Option-cases (db.events id));
  once = h.once;
  takes_part = h.takes_part;
  counted = h.counted;
  stored = h.stored;
}

pub create-HasVoters :
    (event : VerityEvent) (db : Db)
    → db.events event.event_id ≡ none
    → HasVoters db
    → HasVoters (create event db)
unfolding create
create-HasVoters event db e h = record {
  index = indexed-IsKept.add event db e h.index;
  absent = λ id. ground (arith, h.absent id, Option-cases (db.events id));
  once = h.once;
  takes_part = h.takes_part;
  counted = h.counted;
  stored = h.stored;
}

contains-add_participants :
    (members user_ids : List Ident) (u : Ident)
    → contains members u ≡ true
    → contains (add_participants members user_ids) u ≡ true
unfolding add_participants
contains-add_participants members [] u h = h
contains-add_participants members (x ∷ user_ids) u h =
    contains-add_participants (sadd x members) user_ids u (contains-sadd_of x members u h)

pub join-HasVoters :
    (event_id : Ident) (user_ids : List Ident) (db : Db)
    → HasVoters db
    → HasVoters (create_participants event_id user_ids db)
unfolding create_participants
join-HasVoters event_id user_ids db h = record {
  index = indexed-IsKept.join event_id user_ids db h.index;
  absent = h.absent;
  once = h.once;
  takes_part = λ id u. ground (
    arith,
    h.takes_part id u,
    contains-add_participants (db.participants id) user_ids u,
    eqb_iff id event_id,
  );
  counted = h.counted;
  stored = h.stored;
}

has_vote_of-append :
    (u : Ident) (votes : List Vote) (v : Vote)
    → has_vote_of u (votes ++ v ∷ []) ≡ (has_vote_of u votes || eqb v.user_id u)
has_vote_of-append u [] v = ground arith
has_vote_of-append u (w ∷ votes) v = ground (arith, has_vote_of-append u votes v)

pub vote-HasVoters :
    (v : Vote) (event : VerityEvent) (db : Db)
    → db.events v.event_id ≡ some event
    → contains (db.participants v.event_id) v.user_id ≡ true
    → HasVoters db
    → HasVoters (Votes.create v db)
unfolding Votes.create
vote-HasVoters v event db e p h = record {
  index = indexed-IsVoteKept.cast v event db e p h.index;
  absent = λ id. ground (arith, h.absent id, eqb_iff id v.event_id, Option-cases (db.events id));
  once = λ id. elim (Bool-cases (eqb id v.event_id)) [
    | inl same ↦
        rw same (sadd-HasNoRepeats v.user_id (db.votes_common v.event_id) (h.once v.event_id))
    | inr other ↦ rw other (h.once id)
  ];
  takes_part = λ id u. ground (
    arith,
    h.takes_part id u,
    contains-sadd v.user_id (db.votes_common v.event_id) u,
    eqb_iff id v.event_id,
    eqb_iff u v.user_id,
  );
  counted = λ id n u. ground (
    arith,
    h.counted id n u,
    contains-sadd v.user_id (db.votes_common v.event_id) u,
    contains-sadd (v.node_id, v.user_id) (db.votes_exists v.event_id) (n, u),
    eqb_iff id v.event_id,
    eqb_iff u v.user_id,
  );
  stored = λ id n u. ground (
    arith,
    h.stored id n u,
    contains-sadd (v.node_id, v.user_id) (db.votes_exists v.event_id) (n, u),
    has_vote_of-append u (db.votes (id, n)) v,
    eqb_iff id v.event_id,
    eqb_iff u v.user_id,
    eqb_iff n v.node_id,
  );
}
