-- ===== src/Database/Redis/Cells.antt =====
-- The cells of Redis, and the commands of app/database/database.py to it. A cell holds what its JSON is of;
-- a list or a set that was never written, or was deleted, is nothing.
-- Redis raises where a key holds another kind of value, which is read as nothing here; each key of the source
-- gets values of one kind only.
use validation_node.Prelude.{ℕ, Option, none, some, List, [], ◌∷◌, ◌++◌}
use validation_node.Prelude.Eq.{list_eq, nat_eq, pair_eq}
use validation_node.Prelude.Dict.{Dict, Table, update}
use validation_node.Database.Schema.{
  Ident, Text, Vote, VerityEvent, VerityEventMetadata, FilterEntry, Reward,
}
use validation_node.Database.Events.{add_participants}
use validation_node.Database.Keys.{Place, redis_key}

pub data Cell : Type 0 where
  nothing : Cell
  of_event : VerityEvent → Cell
  of_metadata : VerityEventMetadata → Cell
  of_rewards : Dict Ident Reward → Cell
  of_vote : Vote → Cell
  of_number : ℕ → Cell
  of_ids : List Ident → Cell
  of_pairs : List (Ident × Ident) → Cell
  of_entries : List FilterEntry → Cell
  of_votes : List Vote → Cell

abbrev pub as_event : Cell → Option VerityEvent
as_event (of_event e) = some e
as_event _ = none

abbrev pub as_metadata : Cell → Option VerityEventMetadata
as_metadata (of_metadata m) = some m
as_metadata _ = none

abbrev pub as_rewards : Cell → Option (Dict Ident Reward)
as_rewards (of_rewards d) = some d
as_rewards _ = none

abbrev pub as_vote : Cell → Option Vote
as_vote (of_vote v) = some v
as_vote _ = none

abbrev pub as_number : Cell → Option ℕ
as_number (of_number n) = some n
as_number _ = none

abbrev pub as_ids : Cell → List Ident
as_ids (of_ids ids) = ids
as_ids _ = []

abbrev pub as_pairs : Cell → List (Ident × Ident)
as_pairs (of_pairs ps) = ps
as_pairs _ = []

abbrev pub as_entries : Cell → List FilterEntry
as_entries (of_entries es) = es
as_entries _ = []

abbrev pub as_votes : Cell → List Vote
as_votes (of_votes vs) = vs
as_votes _ = []

-- A command to Redis: a place, and what becomes of its cell.
abbrev pub Command : Type 0
Command = Place Ident × (Cell → Cell)

-- `SET`
abbrev pub set_to : Place Ident → Cell → Command
set_to p c = (p, λ old. c)

-- `DEL`
abbrev pub del : Place Ident → Command
del p = (p, λ old. nothing)

-- `RPUSH` of one identifier after the other
abbrev pub rpush_ids : Place Ident → List Ident → Command
rpush_ids p ids = (p, λ old. of_ids (as_ids old ++ ids))

-- `SADD` of identifiers; the callers have one or more
abbrev pub sadd_ids : Place Ident → List Ident → Command
sadd_ids p ids = (p, λ old. of_ids (add_participants (as_ids old) ids))

-- The keys are texts.
abbrev pub Redis : Type 0
Redis = Table Text Cell

module _ (hex : Ident → Text) where
  -- What is stored at a place.
  abbrev pub cells : Redis → Table (Place Ident) Cell
  cells r p = r (redis_key hex p)

  unfoldable pub send : List Command → Redis → Redis
  send [] r = r
  send ((p, f) ∷ commands) r = send commands (update (redis_key hex p) (f (r (redis_key hex p))) r)
