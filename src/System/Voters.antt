-- ===== src/System/Voters.antt =====
-- Who voted and who takes part, in every world that a node can reach.
use validation_node.Prelude.{length, ◌≤◌}
use validation_node.Prelude.Eq.{nat_eq}
use validation_node.Database.Schema.{VerityEvent}
use validation_node.Database.Events.Voters.{HasVoters}
use validation_node.Database.Events.Voters.Removal.{HasVoters-IsKept, HasVoters-IsVoteKept}
use validation_node.Database.Events.{participants}
use validation_node.Database.Sets.{length-subset}
use validation_node.Database.Votes
use validation_node.Effects.{World}
use validation_node.System.{Reachable}
use validation_node.System.Kept.Steps.{kept-Reachable}

-- In every world that a node reaches after its start, whatever the contracts, the other nodes and the users
-- do: who is counted among the voters of an event is one of its participants, and is counted once; who is noted to have voted
-- through a node is counted among the voters, and a vote of theirs is stored for that node; and of an event
-- that is not stored, no voter is counted and no vote is noted. The index of the events holds too.
pub Reachable-HasVoters : (w : World) → Reachable w → HasVoters w.node.db
Reachable-HasVoters w r = kept-Reachable HasVoters w r

-- In every world that a node reaches after its start, no event has more counted voters than participants, so
-- the share of the participants that `calculate_consensus_rules` asks for is a share of at most all.
pub Reachable-count :
    (w : World)
    → Reachable w
    → (event : VerityEvent)
    → Votes.count event.event_id w.node.db ≤ length (participants event w.node.db)
unfolding Votes.count participants
Reachable-count w r event =
    let h = Reachable-HasVoters w r in
    length-subset (w.node.db.votes_common event.event_id) (w.node.db.participants event.event_id)
      (h.once event.event_id) (h.takes_part event.event_id)
