-- ===== src/System/Index/Invariant.antt =====
-- The index of the stored events in every world that a node can reach.
use validation_node.Database.Events.Index.{IsIndexed, indexed-IsKept, indexed-IsVoteKept}
use validation_node.Effects.{World}
use validation_node.System.{Reachable}
use validation_node.System.Kept.Steps.{kept-Reachable}

-- In every world that a node reaches after its start, whatever the contracts, the other nodes and the users
-- do, the listed event ids are those of the stored events, each once, and each event is stored under its
-- own id.
pub Reachable-IsIndexed : (w : World) → Reachable w → IsIndexed w.node.db
Reachable-IsIndexed w r = kept-Reachable IsIndexed w r
