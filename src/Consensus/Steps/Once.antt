-- ===== src/Consensus/Steps/Once.antt =====
-- The rewards of an event are settled by one of several runs of `check_consensus` at most.
use validation_node.Prelude.{
  true, Option, none, List, [], ◌∷◌, ◌≡◌, refl, arith, Bool-cases, Option-cases, inl, inr, ◌⊎◌,
}
use validation_node.Prelude.Eq.{nat_eq}
use validation_node.Prelude.Dict.{Dict}
use validation_node.Database.Schema.{Ident, Vote, VerityEvent, VerityEventMetadata, Db}
use validation_node.Database.Votes.{set_consensus_vote}
use validation_node.Database.Grouping.{votes_consensus}
use validation_node.Database.Events.{metadata, get_or_create, create_metadata}
use validation_node.Node.{Node}
use validation_node.Consensus.Rules.{should_calculate_consensus}
use validation_node.Consensus.Choice.{winners, settle, calculate_consensus}
use validation_node.Consensus.Choice.Soundness.{Result-cases}
use validation_node.Consensus.Steps.{Surroundings, conclude, check_consensus}
use validation_node.Consensus.Steps.Flag.{
  is_reached, flag-metadata, conclude-reached, conclude-still,
}

-- What settling an event changes, and a run that finds it settled does not.
pub record IsUnsettled (node node' : Node) : Type 0 where
  pub rewards : node'.db.rewards ≡ node.db.rewards
  pub rewards_user_ids : node'.db.rewards_user_ids ≡ node.db.rewards_user_ids
  pub jobs : node'.jobs ≡ node.jobs
  pub posted : node'.posted ≡ node.posted
  pub submitted : node'.submitted ≡ node.submitted

settle-keeps :
    (first_of : List Ident → Option Ident) (event : VerityEvent) (d : Dict Ident (List Vote))
    (us : List Ident) (db : Db)
    → ((settle first_of event d us db).1.metadata ≡ db.metadata)
      × ((settle first_of event d us db).1.rewards ≡ db.rewards)
      × ((settle first_of event d us db).1.rewards_user_ids ≡ db.rewards_user_ids)
unfolding settle set_consensus_vote
settle-keeps first_of event d us db = ground arith

calculate_consensus-keeps :
    (first_of : List Ident → Option Ident) (event : VerityEvent) (d : Dict Ident (List Vote))
    (db : Db)
    → ((calculate_consensus first_of event d db).1.metadata ≡ db.metadata)
      × ((calculate_consensus first_of event d db).1.rewards ≡ db.rewards)
      × ((calculate_consensus first_of event d db).1.rewards_user_ids ≡ db.rewards_user_ids)
unfolding calculate_consensus
calculate_consensus-keeps first_of event d db = elim (Result-cases (winners first_of d)) [
  | inl (e, failed) ↦ ground arith
  | inr ((r, us), won) ↦ ground (arith, settle-keeps first_of event d us db)
]

rewards-metadata :
    (event : VerityEvent) (db : Db)
    → ((metadata event db).1.rewards ≡ db.rewards)
      × ((metadata event db).1.rewards_user_ids ≡ db.rewards_user_ids)
unfolding metadata get_or_create create_metadata
rewards-metadata event db = ground (arith, Option-cases (db.metadata event.event_id))

conclude-IsUnsettled :
    (s : Surroundings) (event : VerityEvent) (m : VerityEventMetadata) (c : Dict Ident (List Vote))
    (node : Node)
    → is_reached event.event_id node.db ≡ true
    → IsUnsettled node (conclude s event m c node).1
unfolding conclude
conclude-IsUnsettled s event m c node h =
    ground (arith, flag-metadata event node.db, rewards-metadata event node.db)

IsUnsettled-trans : {a b c : Node} → IsUnsettled a b → IsUnsettled b c → IsUnsettled a c
IsUnsettled-trans h k = ground arith

-- What a run leaves: the event is settled, or the run did not settle it.
check-cases :
    (s : Surroundings) (event : VerityEvent) (m : VerityEventMetadata) (node : Node)
    → m.event_id ≡ event.event_id
    → (is_reached event.event_id (check_consensus s event m node).1.db ≡ true)
      ⊎ IsUnsettled node (check_consensus s event m node).1
unfolding check_consensus
check-cases s event m node own =
    let d = votes_consensus event none node.db in
    let kept = calculate_consensus-keeps s.first_of event d node.db in
    let db = (calculate_consensus s.first_of event d node.db).1 in
    elim (Bool-cases (should_calculate_consensus event node.db)) [
      | inr early ↦ inr (ground arith)
      | inl due ↦ elim (Result-cases (calculate_consensus s.first_of event d node.db).0) [
        | inl (e, failed) ↦ inr (ground (arith, kept))
        | inr ([], none_found) ↦ inr (ground (arith, kept))
        | inr (x ∷ c, found) ↦
            inl (ground (arith, conclude-reached s event m (x ∷ c) (record node { db = db }) own))
      ]
    ]

-- A run on a settled event leaves it settled, as it was.
check-IsUnsettled :
    (s : Surroundings) (event : VerityEvent) (m : VerityEventMetadata) (node : Node)
    → is_reached event.event_id node.db ≡ true
    → (is_reached event.event_id (check_consensus s event m node).1.db ≡ true)
      × IsUnsettled node (check_consensus s event m node).1
unfolding check_consensus
check-IsUnsettled s event m node h =
    let d = votes_consensus event none node.db in
    let kept = calculate_consensus-keeps s.first_of event d node.db in
    let db = (calculate_consensus s.first_of event d node.db).1 in
    let n' : Node = record node { db = db } in
    let h' : is_reached event.event_id db ≡ true = ground (arith, kept) in
    elim (Bool-cases (should_calculate_consensus event node.db)) [
      | inr early ↦ ground arith
      | inl due ↦ elim (Result-cases (calculate_consensus s.first_of event d node.db).0) [
        | inl (e, failed) ↦ ground (arith, kept)
        | inr ([], none_found) ↦ ground (arith, kept)
        | inr (x ∷ c, found) ↦ ground (
          arith,
          kept,
          conclude-still s event m (x ∷ c) n' h',
          conclude-IsUnsettled s event m (x ∷ c) n' h',
        )
      ]
    ]

-- Runs of `check_consensus` for one event, one after another.
unfoldable pub run_checks : VerityEvent → List (Surroundings × VerityEventMetadata) → Node → Node
run_checks event [] node = node
run_checks event ((s, m) ∷ runs) node = run_checks event runs (check_consensus s event m node).1

run_checks-IsUnsettled :
    (event : VerityEvent) (runs : List (Surroundings × VerityEventMetadata)) (node : Node)
    → is_reached event.event_id node.db ≡ true
    → IsUnsettled node (run_checks event runs node)
unfolding run_checks
run_checks-IsUnsettled event [] node h = record {
  rewards = refl;
  rewards_user_ids = refl;
  jobs = refl;
  posted = refl;
  submitted = refl;
}
run_checks-IsUnsettled event ((s, m) ∷ runs) node h =
    let (still, kept) = check-IsUnsettled s event m node h in
    IsUnsettled-trans kept
      (run_checks-IsUnsettled event runs (check_consensus s event m node).1 still)

-- Of consecutive runs of `check_consensus` for one event, the first with metadata of that event: either the
-- first stores no rewards, posts and submits nothing, and schedules and removes no job, or none of the later runs
-- does, whatever they learn from outside. Any of them may still store a consensus vote.
pub check_consensus-once :
    (s : Surroundings) (event : VerityEvent) (m : VerityEventMetadata)
    (later : List (Surroundings × VerityEventMetadata)) (node : Node)
    → m.event_id ≡ event.event_id
    → IsUnsettled node (check_consensus s event m node).1
      ⊎ IsUnsettled
          (check_consensus s event m node).1
          (run_checks event later (check_consensus s event m node).1)
check_consensus-once s event m later node own = elim (check-cases s event m node own) [
  | inl settled ↦
      inr (run_checks-IsUnsettled event later (check_consensus s event m node).1 settled)
  | inr same ↦ inl same
]
