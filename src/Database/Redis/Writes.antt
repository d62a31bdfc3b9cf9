-- ===== src/Database/Redis/Writes.antt =====
-- The methods of app/database/database.py that write a few keys: their commands to Redis against the
-- method on the database.
use validation_node.Prelude.{
  Bool, true, false, List, [], ◌∷◌, ◌++◌, ◌≡◌, refl, ap, ◌∙◌, fun_ext, arith, eqb, Bool-cases,
  if◌then◌else◌,
}
use validation_node.Prelude.Eq.{◌==◌, nat_eq, pair_eq}
use validation_node.Prelude.Dict.{Dict, Table, update}
use validation_node.Database.Schema.{Ident, Vote, Reward, sadd}
use validation_node.Database.Events
use validation_node.Database.Events.{create_metadata, add_participants, delete_votes_of}
use validation_node.Database.Filters
use validation_node.Database.Filters.{filter_dict, lrem_entry}
use validation_node.Database.Rewards
use validation_node.Database.Votes
use validation_node.Database.Keys.{
  Place, event, metadata, participants, filters, rewards, rewards_user_ids, voters, votes_exists,
  votes_consensus, votes, event_ids,
}
use validation_node.Database.Redis.Cells.{
  Cell, as_event, as_metadata, as_rewards, as_vote, as_ids, as_pairs, as_entries, as_votes,
  of_event, of_metadata, of_rewards, of_vote, of_ids, of_pairs, of_entries, of_votes, nothing,
}
use validation_node.Database.Redis.Calls.{
  Call, create_event, update_event, set_metadata, create_participants, create_filter, delete_filter,
  delete_filters, create_rewards, create_vote, set_consensus_vote, delete_all_event_data,
  set_last_run_timestamp, set_event_registry, set_node_registry, commands,
}
use validation_node.Database.Redis.Places.{place_eq, store}
use validation_node.Database.Redis.View.{view, apply}

-- What is read from a cell that may have changed.
read-if :
    {A : Type 0} (read : Cell → A) (b : Bool) (c d : Cell)
    → read (if b then c else d) ≡ (if b then read c else read d)
read-if read true c d = refl
read-if read false c d = refl

-- The cells of one kind, with one of them changed.
pub changed :
    {A : Type 0} (read : Cell → A) (place : Ident → Place Ident) (id : Ident) (v : Cell)
    (c : Table (Place Ident) Cell)
    → ((j : Ident) → (place j == place id) ≡ eqb j id)
    → (λ (j : Ident). read (update (place id) v c (place j)))
      ≡ update id (read v) (λ j. read (c (place j)))
changed read place id v c same = fun_ext λ j.
    ap (λ (b : Bool). read (if b then v else c (place j))) (same j)
    ∙ read-if read (eqb j id) v (c (place j))

-- The calls of one command, or of one event.
abbrev pub IsSmall : Call → Type 0
IsSmall (create_rewards id user_ids d) = ⊥
IsSmall (create_vote v) = ⊥
IsSmall (delete_all_event_data id) = ⊥
IsSmall _ = Unit

pub changed_votes :
    (id node_id : Ident) (v : Cell) (c : Table (Place Ident) Cell)
    → (λ (j : Ident × Ident). as_votes (update (votes id node_id) v c (votes j.0 j.1)))
      ≡ update (id, node_id) (as_votes v) (λ j. as_votes (c (votes j.0 j.1)))
changed_votes id node_id v c = fun_ext λ j.
    ap (λ (b : Bool). as_votes (if b then v else c (votes j.0 j.1))) (same j)
    ∙ read-if as_votes (j == (id, node_id)) v (c (votes j.0 j.1))
  where
    same : (j : Ident × Ident) → (votes j.0 j.1 == votes id node_id) ≡ (j == (id, node_id))
    same j = ground (arith, Bool-cases (eqb j.0 id), Bool-cases (eqb j.1 node_id))

module _ (c : Table (Place Ident) Cell) where
  pub refines-create_vote :
      (v : Vote) → view (store (commands (create_vote v) c) c) ≡ apply (create_vote v) (view c)
  unfolding view store commands apply Votes.create add_participants
  refines-create_vote v = λ i. record (view c) {
    votes =
        changed_votes v.event_id v.node_id
          (of_votes (as_votes (c (votes v.event_id v.node_id)) ++ v ∷ [])) c i;
    votes_common =
        changed as_ids voters v.event_id (of_ids (sadd v.user_id (as_ids (c (voters v.event_id)))))
          c (λ j. refl) i;
    votes_exists =
        changed as_pairs votes_exists v.event_id
          (of_pairs (sadd (v.node_id, v.user_id) (as_pairs (c (votes_exists v.event_id))))) c
          (λ j. refl) i;
  }

  pub refines-create_rewards :
      (id : Ident) (user_ids : List Ident) (d : Dict Ident Reward)
      → view (store (commands (create_rewards id user_ids d) c) c)
        ≡ apply (create_rewards id user_ids d) (view c)
  unfolding view store commands apply Rewards.create
  refines-create_rewards id user_ids d = λ i. record (view c) {
    rewards = changed as_rewards rewards id (of_rewards d) c (λ j. refl) i;
    rewards_user_ids =
        changed as_ids rewards_user_ids id (of_ids (as_ids (c (rewards_user_ids id)) ++ user_ids)) c
          (λ j. refl) i;
  }

  -- The calls that write one key, or the list of events.
  pub refines-one :
      (call : Call) → IsSmall call → view (store (commands call c) c) ≡ apply call (view c)
  unfolding view store commands apply Events.create Events.update_event create_metadata
      Events.create_participants Filters.create Filters.delete_filter Filters.delete
      Votes.set_consensus_vote Events.set_last_run_timestamp Events.set_event_registry
      Events.set_node_registry add_participants filter_dict lrem_entry
  refines-one (create_event e) s = λ i. record (view c) {
    event_ids = as_ids (c event_ids) ++ e.event_id ∷ [];
    events = changed as_event event e.event_id (of_event e) c (λ j. refl) i;
  }
  refines-one (update_event e) s = λ i. record (view c) {
    events = changed as_event event e.event_id (of_event e) c (λ j. refl) i;
  }
  refines-one (set_metadata m) s = λ i. record (view c) {
    metadata = changed as_metadata metadata m.event_id (of_metadata m) c (λ j. refl) i;
  }
  refines-one (create_participants id user_ids) s = λ i. record (view c) {
    participants =
        changed as_ids participants id
          (of_ids (add_participants (as_ids (c (participants id))) user_ids)) c (λ j. refl) i;
  }
  refines-one (create_filter id filter_id name) s = λ i. record (view c) {
    filters =
        changed as_entries filters id
          (of_entries (as_entries (c (filters id)) ++ filter_dict filter_id name ∷ [])) c
          (λ j. refl) i;
  }
  refines-one (delete_filter id filter_id name) s = λ i. record (view c) {
    filters =
        changed as_entries filters id
          (of_entries (lrem_entry (filter_dict filter_id name) (as_entries (c (filters id)))).1) c
          (λ j. refl) i;
  }
  refines-one (delete_filters id) s =
      λ i. record (view c) { filters = changed as_entries filters id nothing c (λ j. refl) i }
  refines-one (set_consensus_vote v) s = λ i. record (view c) {
    votes_consensus = changed as_vote votes_consensus v.event_id (of_vote v) c (λ j. refl) i;
  }
  refines-one (set_last_run_timestamp t) s = refl
  refines-one (set_event_registry address) s = refl
  refines-one (set_node_registry address) s = refl
  refines-one (create_rewards id user_ids d) s = absurd s
  refines-one (create_vote v) s = absurd s
  refines-one (delete_all_event_data id) s = absurd s
