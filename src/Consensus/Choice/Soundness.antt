-- ===== src/Consensus/Choice/Soundness.antt =====
-- What holds when `calculate_consensus` returns users.
use validation_node.Prelude.{
  ◌≤◌, true, Option, some, List, [], ◌≡◌, ◌≢◌, refl, sym, ap, ◌∙◌, arith, length, map, Option-cases,
  inl, inr, ◌⊎◌,
}
use validation_node.Prelude.Eq.{nat_eq, list_eq, pair_eq, contains}
use validation_node.Prelude.Dict.{Dict}
use validation_node.Float.{of_int}
use validation_node.Database.Schema.{
  Ident, Vote, VerityEvent, Db, Error, Result, ok, raise, distinct,
}
use validation_node.Database.Votes.{Repr, answers_representation, set_consensus_vote}
use validation_node.Database.Events.{participants}
use validation_node.Database.Grouping.{group_votes_by_representation}
use validation_node.Database.Grouping.Groups.{votes_with, get_list_at-group_votes}
use validation_node.Database.Grouping.WellFormed.{IsGrouped}
use validation_node.Consensus.Rules.{calculate_consensus_rules, percentage}
use validation_node.Consensus.Choice.{
  user_of, restrict, pick_vote, winners, settle, calculate_consensus, max_by_votes,
}
use validation_node.Consensus.Choice.Users.{
  with_repr, restrict-users, first_vote_wins, winner-lookup,
}
use validation_node.Database.Sets.{contains-distinct}
use validation_node.Consensus.Choice.Plurality.{winner-greatest}

pub Result-cases {ℓ} :
    {A : Type ℓ} (r : Result A) → ((e : Error) × (r ≡ raise e)) ⊎ ((a : A) × (r ≡ ok a))
Result-cases (ok a) = inr (a, refl)
Result-cases (raise e) = inl (e, refl)

-- What `next(iter(s))` promises of a set.
pub record PicksMember (first_of : List Ident → Option Ident) : Type 0 where
  pub member : (us : List Ident) (u : Ident) → first_of us ≡ some u → contains us u ≡ true
  pub total : (us : List Ident) → us ≢ [] → (u : Ident) × (first_of us ≡ some u)

-- The users `c` are a consensus among the votes `d`: they are those who voted `r`, and no answer has
-- more votes; the limits of the event are met, and one of their votes is stored.
pub record IsConsensus (event : VerityEvent) (db : Db) (d c : Dict Ident (List Vote)) (r : Repr)
    (v : Vote) (db' : Db) : Type 0 where
  pub rules :
      calculate_consensus_rules event.min_total_votes event.min_participant_ratio
        (length d)
        (length (participants event db))
      ≡ true
  pub users : c ≡ with_repr r d
  pub greatest : (s : Repr) → length (votes_with s d) ≤ length (votes_with r d)
  pub enough : event.min_consensus_votes ≤ length c
  pub share : of_int event.min_consensus_ratio ≤ percentage (length c) (length d)
  pub represents : answers_representation v ≡ r
  pub stored : db' ≡ set_consensus_vote v db

module _ (first_of : List Ident → Option Ident) (picks : PicksMember first_of) where
  -- The group that wins, as `winners` returns it.
  pub winners-inv :
      (d : Dict Ident (List Vote)) (r : Repr) (us : List Ident)
      → winners first_of d ≡ ok (r, us)
      → (max_by_votes (group_votes_by_representation d) ≡ ok r)
        × (us ≡ distinct (map user_of (votes_with r d)))
  unfolding winners
  winners-inv d r us h = elim (Result-cases (max_by_votes (group_votes_by_representation d))) [
    | inl (e, failed) ↦ absurd (ground arith)
    | inr (q, won) ↦ ground (arith, get_list_at-group_votes r d)
  ]

  settle-inv :
      (event : VerityEvent) (d c : Dict Ident (List Vote)) (us : List Ident) (db db' : Db)
      → settle first_of event d us db ≡ (ok c, db')
      → c ≢ []
      → (v : Vote) × (c ≡ restrict us d)
        × (event.min_consensus_votes ≤ length c)
        × (of_int event.min_consensus_ratio ≤ percentage (length c) (length d))
        × (pick_vote (first_of us) d ≡ ok v)
        × (db' ≡ set_consensus_vote v db)
  unfolding settle
  settle-inv event d c us db db' h ne = elim (Result-cases (pick_vote (first_of us) d)) [
    | inl (e, failed) ↦ absurd (ground arith)
    | inr (v, picked) ↦ (v, ground arith, ground arith, ground arith, ground arith, ground arith)
  ]

  -- The vote that is stored has the winning representation.
  pub picked-represents :
      (r : Repr) (d : Dict Ident (List Vote)) (v : Vote)
      → IsGrouped d
      → pick_vote (first_of (distinct (map user_of (votes_with r d)))) d ≡ ok v
      → answers_representation v ≡ r
  unfolding pick_vote
  picked-represents r d v h e =
      elim (Option-cases (first_of (distinct (map user_of (votes_with r d))))) [
        | inl nobody ↦ absurd (ground arith)
        | inr (u, chosen) ↦
            let m =
              sym (contains-distinct (map user_of (votes_with r d)) u) ∙ picks.member _ u chosen in
            let (x, xs, found) = winner-lookup r d u h m in
            let same : x ≡ v = ground arith in
            sym (ap answers_representation same) ∙ first_vote_wins r d u x xs h m found
      ]

  -- If `calculate_consensus` returns users, they are a consensus as described by `IsConsensus`, for
  -- the answers of some vote.
  pub calculate_consensus-IsConsensus :
      (event : VerityEvent) (d c : Dict Ident (List Vote)) (db db' : Db)
      → IsGrouped d
      → calculate_consensus first_of event d db ≡ (ok c, db')
      → c ≢ []
      → (r : Repr) × (v : Vote) × IsConsensus event db d c r v db'
  unfolding calculate_consensus
  calculate_consensus-IsConsensus event d c db db' g h ne =
      elim (Result-cases (winners first_of d)) [
        | inl (e, failed) ↦ absurd (ground arith)
        | inr ((r, us), won) ↦
            let (maximal, users) = winners-inv d r us won in
            let (v, restricted, enough, share, picked, stored) =
              settle-inv event d c us db db' (ground arith) ne in
            (
              r,
              v,
              record {
                rules = ground arith;
                users =
                    restricted
                    ∙ ap (λ (xs : List Ident). restrict xs d) users
                    ∙ restrict-users r d g;
                greatest = λ s. winner-greatest r s d maximal;
                enough = enough;
                share = share;
                represents =
                    picked-represents r d v g
                      (sym (ap (λ (xs : List Ident). pick_vote (first_of xs) d) users) ∙ picked);
                stored = stored;
              },
            )
      ]
