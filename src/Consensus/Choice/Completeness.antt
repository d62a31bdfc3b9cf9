-- ===== src/Consensus/Choice/Completeness.antt =====
-- When `calculate_consensus` (app/events/consensus.py) finds a consensus.
use validation_node.Prelude.{
  ◌<◌, ◌≤◌, true, Option, List, [], ◌∷◌, ◌≡◌, ◌≢◌, refl, sym, ap, ◌∙◌, arith, length, map,
  Bool-cases, inl, inr, subst,
}
use validation_node.Prelude.Eq.{◌==◌, nat_eq, list_eq, pair_eq, contains, ==_refl, ==_iff}
use validation_node.Prelude.Dict.{Dict}
use validation_node.Database.Schema.{Ident, Vote, VerityEvent, Db, ok, distinct, ◌>>=◌}
use validation_node.Database.Sets.{contains-distinct}
use validation_node.Database.Votes.{Repr, answers_representation, set_consensus_vote}
use validation_node.Float.{of_int}
use validation_node.Database.Events.{participants}
use validation_node.Database.Grouping.{get_list_at, group_votes_by_representation}
use validation_node.Database.Grouping.Groups.{votes_with, get_list_at-group_votes}
use validation_node.Database.Grouping.WellFormed.{IsGrouped}
use validation_node.Consensus.Rules.{calculate_consensus_rules, percentage}
use validation_node.Consensus.Choice.{
  user_of, restrict, max_by_votes, pick_vote, winners, settle, calculate_consensus,
}
use validation_node.Consensus.Choice.Users.{with_repr, restrict-users, winner-lookup}
use validation_node.Consensus.Choice.Plurality.{winner-greatest}
use validation_node.Consensus.Choice.Soundness.{PicksMember, winners-inv, picked-represents}

-- Votes that are not empty have a representation with a vote.
some_repr :
    (d : Dict Ident (List Vote)) → IsGrouped d → d ≢ [] → (s : Repr) × (0 < length (votes_with s d))
some_repr [] h ne = absurd (ne refl)
some_repr ((u, []) ∷ d) h ne = absurd (omega arith)
some_repr ((u, v ∷ vs) ∷ d) h ne =
    (answers_representation v, rw (==_refl (answers_representation v)) (omega arith))

max_exists :
    (d : Dict Repr (List Vote)) (s : Repr)
    → 0 < length (get_list_at s d)
    → (r : Repr) × (max_by_votes d ≡ ok r)
unfolding max_by_votes
max_exists [] s h = absurd (omega arith)
max_exists ((r, vs) ∷ d) s h = (_, refl)

users_exist : (vs : List Vote) → 0 < length vs → distinct (map user_of vs) ≢ []
users_exist [] h e = absurd (omega arith)
users_exist (v ∷ vs) h e =
    let present : contains (map user_of (v ∷ vs)) (user_of v) ≡ true =
      ground (arith, ==_refl (user_of v)) in
    cc (
      contains-distinct (map user_of (v ∷ vs)) (user_of v),
      present,
      ap (λ (us : List Ident). contains us (user_of v)) e,
    )

-- A representation with more votes than any other is the one that wins.
wins :
    (q r : Repr) (d : Dict Ident (List Vote))
    → ((s : Repr) → s ≢ r → length (votes_with s d) < length (votes_with r d))
    → max_by_votes (group_votes_by_representation d) ≡ ok q
    → q ≡ r
wins q r d most won = elim (Bool-cases (q == r)) [
  | inl same ↦ (==_iff q r).0 same
  | inr other ↦
      let less = most q (λ e. ground (arith, e, other, ==_iff q r)) in
      absurd (omega (arith, less, winner-greatest q r d won))
]

module _ (first_of : List Ident → Option Ident) (picks : PicksMember first_of) where
  pick-returns :
      (d : Dict Ident (List Vote)) (r : Repr)
      → IsGrouped d
      → 0 < length (votes_with r d)
      → (v : Vote) × (pick_vote (first_of (distinct (map user_of (votes_with r d)))) d ≡ ok v)
  unfolding pick_vote
  pick-returns d r h some_votes =
      let us = distinct (map user_of (votes_with r d)) in
      let (u, chosen) = picks.total us (users_exist (votes_with r d) some_votes) in
      let m = sym (contains-distinct (map user_of (votes_with r d)) u) ∙ picks.member us u chosen in
      let (x, xs, found) = winner-lookup r d u h m in (x, rw (chosen, pick_vote, found) refl)

  winners-return :
      (d : Dict Ident (List Vote))
      → IsGrouped d
      → d ≢ []
      → (r : Repr) × (0 < length (votes_with r d))
        × (winners first_of d ≡ ok (r, distinct (map user_of (votes_with r d))))
  unfolding winners
  winners-return d h ne =
      let (s, some_votes) = some_repr d h ne in
      let group = get_list_at-group_votes s d in
      let (r, won) =
        max_exists (group_votes_by_representation d) s
          (subst (λ (vs : List Vote). 0 < length vs) (sym group) some_votes) in
      (
        r,
        omega (arith, winner-greatest r s d won, some_votes),
        rw (won, ◌>>=◌, get_list_at-group_votes r d) refl,
      )

  -- The tests that the users pass who voted for the representation.
  settle-reaches :
      (event : VerityEvent) (d : Dict Ident (List Vote)) (r : Repr) (us : List Ident) (v : Vote)
      (db : Db)
      → restrict us d ≡ with_repr r d
      → pick_vote (first_of us) d ≡ ok v
      → event.min_consensus_votes ≤ length (with_repr r d)
      → of_int event.min_consensus_ratio ≤ percentage (length (with_repr r d)) (length d)
      → settle first_of event d us db ≡ (ok (with_repr r d), set_consensus_vote v db)
  unfolding settle
  settle-reaches event d r us v db users picked enough share =
      rw (users, picked) (ground (arith, enough, share))

  -- On the votes of one user or more, as `VerityEvent.votes` groups them, whose answers are objects of texts: when the
  -- event's rules pass, one representation was given by more votes than any other, and the users with it are
  -- not fewer than the least number and the least share of the event, `calculate_consensus` returns just
  -- these users with their votes, and stores a vote with that representation.
  pub calculate_consensus-reaches :
      (event : VerityEvent) (d : Dict Ident (List Vote)) (r : Repr) (db : Db)
      → IsGrouped d
      → d ≢ []
      → ((s : Repr) → s ≢ r → length (votes_with s d) < length (votes_with r d))
      → calculate_consensus_rules event.min_total_votes event.min_participant_ratio
          (length d)
          (length (participants event db))
        ≡ true
      → event.min_consensus_votes ≤ length (with_repr r d)
      → of_int event.min_consensus_ratio ≤ percentage (length (with_repr r d)) (length d)
      → (v : Vote) × (answers_representation v ≡ r)
        × (calculate_consensus first_of event d db ≡ (ok (with_repr r d), set_consensus_vote v db))
  unfolding calculate_consensus
  calculate_consensus-reaches event d r db h ne most rules enough share =
      let (q, some_votes, won) = winners-return d h ne in
      let same = wins q r d most (winners-inv first_of picks d q _ won).0 in
      let us = distinct (map user_of (votes_with r d)) in
      let (v, picked) =
        pick-returns d r h (subst (λ x. 0 < length (votes_with x d)) same some_votes) in
      (
        v,
        picked-represents first_of picks r d v h picked,
        rw (rules, won, same)
            (settle-reaches event d r us v db (restrict-users r d h) picked enough share),
      )
