-- ===== src/Database/Redis/Deletion.antt =====
-- `delete_all_event_data` of app/database/database.py: its commands to Redis against the method on the
-- database.
use validation_node.Prelude.{Option, none, some, List, [], ◌∷◌, ◌≡◌, refl, ap, ◌∙◌}
use validation_node.Prelude.Eq.{nat_eq, pair_eq}
use validation_node.Prelude.Dict.{Table, update}
use validation_node.Database.Schema.{Ident, Db, VerityEvent, lrem}
use validation_node.Database.Events
use validation_node.Database.Events.{delete_votes_of}
use validation_node.Database.Votes
use validation_node.Database.Votes.{delete_node_votes}
use validation_node.Database.Keys.{
  Place, event, metadata, participants, filters, rewards, voters, votes_exists, votes_consensus,
  votes, event_ids,
}
use validation_node.Database.Redis.Cells.{
  Cell, as_event, as_metadata, as_rewards, as_vote, as_ids, as_pairs, as_entries, nothing, of_ids,
  Command, del,
}
use validation_node.Database.Redis.Commands.{delete_votes, delete_all_votes}
use validation_node.Database.Redis.Calls.{delete_all_event_data, commands}
use validation_node.Database.Redis.Places.{place_eq, store, store-append}
use validation_node.Database.Redis.View.{view, apply}
use validation_node.Database.Redis.Writes.{changed, changed_votes}

module _ (id : Ident) where
  view-delete_votes :
      (node_ids : List Ident) (c : Table (Place Ident) Cell)
      → view (store (delete_votes id node_ids) c) ≡ delete_node_votes id node_ids (view c)
  unfolding view store delete_votes delete_node_votes
  view-delete_votes [] c = refl
  view-delete_votes (n ∷ node_ids) c =
      view-delete_votes node_ids (update (votes id n) nothing c) ∙ λ i.
      delete_node_votes id node_ids (record (view c) { votes = changed_votes id n nothing c i })

  abbrev rest : List Command
  rest = del (voters id) ∷ del (votes_consensus id) ∷ del (votes_exists id) ∷ []

  abbrev without_voters : Db → Db
  without_voters db = record db {
    votes_common = update id [] db.votes_common;
    votes_consensus = update id none db.votes_consensus;
    votes_exists = update id [] db.votes_exists;
  }

  view-rest : (c : Table (Place Ident) Cell) → view (store rest c) ≡ without_voters (view c)
  unfolding view store
  view-rest c = λ i. record (view c) {
    votes_common = changed as_ids voters id nothing c (λ j. refl) i;
    votes_consensus = changed as_vote votes_consensus id nothing c (λ j. refl) i;
    votes_exists = changed as_pairs votes_exists id nothing c (λ j. refl) i;
  }

  view-delete_all_votes :
      (found : Option VerityEvent) (c : Table (Place Ident) Cell)
      → view (store (delete_all_votes id found) c) ≡ delete_votes_of found id (view c)
  unfolding store delete_all_votes delete_votes_of Votes.delete_all
  view-delete_all_votes none c = refl
  view-delete_all_votes (some e) c =
      ap view (store-append (delete_votes id e.node_addresses) rest c)
      ∙ view-rest (store (delete_votes id e.node_addresses) c)
      ∙ ap without_voters (view-delete_votes e.node_addresses c)

  -- The pipeline up to the votes.
  abbrev first : List Command
  first =
      (event_ids, λ old. of_ids (lrem id (as_ids old)))
      ∷ del (event id)
      ∷ del (metadata id)
      ∷ del (participants id)
      ∷ del (filters id)
      ∷ []

  abbrev without_event : Db → Db
  without_event db = record db {
    event_ids = lrem id db.event_ids;
    events = update id none db.events;
    metadata = update id none db.metadata;
    participants = update id [] db.participants;
    filters = update id [] db.filters;
  }

  view-first : (c : Table (Place Ident) Cell) → view (store first c) ≡ without_event (view c)
  unfolding view store
  view-first c = λ i. record (view c) {
    event_ids = lrem id (as_ids (c event_ids));
    events = changed as_event event id nothing c (λ j. refl) i;
    metadata = changed as_metadata metadata id nothing c (λ j. refl) i;
    participants = changed as_ids participants id nothing c (λ j. refl) i;
    filters = changed as_entries filters id nothing c (λ j. refl) i;
  }

  abbrev without_rewards : Db → Db
  without_rewards db = record db { rewards = update id none db.rewards }

  view-rewards :
      (c : Table (Place Ident) Cell)
      → view (store (del (rewards id) ∷ []) c) ≡ without_rewards (view c)
  unfolding view store
  view-rewards c =
      λ i. record (view c) { rewards = changed as_rewards rewards id nothing c (λ j. refl) i }

  pub refines-delete :
      (c : Table (Place Ident) Cell)
      → view (store (commands (delete_all_event_data id) c) c)
        ≡ apply (delete_all_event_data id) (view c)
  unfolding store commands apply view Events.delete_all_event_data Events.get
  refines-delete c =
      let found = as_event (c (event id)) in
      let c' = store first c in
      ap view (store-append (delete_all_votes id found) (del (rewards id) ∷ []) c')
      ∙ view-rewards (store (delete_all_votes id found) c')
      ∙ ap without_rewards
          (view-delete_all_votes found c' ∙ ap (delete_votes_of found id) (view-first c))
