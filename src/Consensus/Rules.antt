-- ===== src/Consensus/Rules.antt =====
-- `calculate_consensus_rules` and the heuristic `should_calculate_consensus`.
pub mod Bounds
use validation_node.Prelude.{ℕ, ◌*◌, Bool, true, false, length, ltb, eqb, if◌then◌else◌}
use validation_node.Float
use validation_node.Float.{Float, of_int, int_div}
use validation_node.Database.Schema.{Ident, VerityEvent, Db}
use validation_node.Database.Events.{participants}
use validation_node.Database.Votes

-- `(a / b) * 100`
unfoldable pub percentage : ℕ → ℕ → Float
percentage a b = Float.mul (int_div a b) (of_int 100)

unfoldable pub calculate_consensus_rules : ℕ → ℕ → ℕ → ℕ → Bool
calculate_consensus_rules min_total_votes min_participant_ratio vote_count n_participants =
    if eqb n_participants 0
    then false
    else if ltb vote_count min_total_votes
    then false
    else if ltb (percentage vote_count n_participants) (of_int min_participant_ratio)
    then false
    else true

unfoldable pub should_calculate_consensus : VerityEvent → Db → Bool
should_calculate_consensus event db =
    calculate_consensus_rules event.min_total_votes event.min_participant_ratio
      (Votes.count event.event_id db) (length (participants event db))
