-- ===== src/Voting/Sockets.antt =====
-- The connections to other nodes, and the votes that are sent over them (app/websocket.py).
pub mod Returns
pub mod Sending
pub mod Producer
pub mod Delivery
use validation_node.Prelude.{
  ℕ, zero, suc, Bool, true, false, not, Option, none, some, List, [], ◌∷◌, ◌++◌, map, if◌then◌else◌,
}
use validation_node.Prelude.Eq.{◌==◌, nat_eq, list_eq}
use validation_node.Prelude.Dict.{Dict, lookup, has_key, insert, erase}
use validation_node.Database.Schema.{
  Ident, Text, VerityEvent, Db, Result, ok, raise, attribute_error, other_error,
}
use validation_node.Database.Events.{get, metadata}
use validation_node.Node.{VoteData, Message, Node}
use validation_node.Voting.Payload.{is_message_valid}
use validation_node.Voting.Consumer.{consumer}

-- A connection; `address` is the key of its host and port, `'ws://%s:%s'`.
pub record Socket : Type 0 where
  pub id : Ident
  pub address : Text

-- `WEBSOCKETS`, the number of calls of the library so far, and what was sent.
pub record Connections : Type 0 where
  pub sockets : Dict Text Socket
  pub calls : ℕ
  pub sent : List (Socket × Message)

-- The library: what `connect` gives, `none` for an exception, and whether a connection is open. Both
-- can change from call to call.
pub record Network : Type 0 where
  pub connect : Text → ℕ → Option Socket
  pub is_open : Socket → ℕ → Bool

abbrev pub called : Connections → Connections
called c = record c { calls = suc c.calls }

unfoldable pub register : Socket → Connections → Connections
register s c = record c { sockets = insert s.address s c.sockets }

unfoldable pub unregister : Socket → Connections → Connections
unregister s c = record c { sockets = erase s.address c.sockets }

abbrev pub register_if : Option Socket → Connections → Connections
register_if none c = c
register_if (some s) c = register s c

module _ (network : Network) where
  unfoldable pub connect_to_websocket : Text → Connections → Connections
  connect_to_websocket address c = register_if (network.connect address c.calls) (called c)

  abbrev pub connected : Text → Connections → Connections
  connected address c = if has_key address c.sockets then c else connect_to_websocket address c

  -- `again` is the call of the function on itself.
  abbrev pub opened :
      Bool
      → Socket
      → Connections
      → (Connections → Result (Option Socket) × Connections)
      → Result (Option Socket) × Connections
  opened true s c again = (ok (some s), c)
  opened false s c again = again (unregister s c)

  abbrev pub checked :
      Option Socket
      → Connections
      → (Connections → Result (Option Socket) × Connections)
      → Result (Option Socket) × Connections
  checked none c again = (ok none, c)
  checked (some s) c again = opened (network.is_open s c.calls) s (called c) again

  -- `depth` is what is left of the recursion limit, past which Python raises.
  unfoldable pub get_or_create_websocket_connection :
      ℕ → Text → Connections → Result (Option Socket) × Connections
  get_or_create_websocket_connection zero address c = (raise other_error, c)
  get_or_create_websocket_connection (suc depth) address c =
      checked (lookup address (connected address c).sockets) (connected address c)
        (get_or_create_websocket_connection depth address)

  abbrev pub with_socket : Option Socket → Result (List Socket) → Result (List Socket)
  with_socket none r = r
  with_socket (some s) (ok sockets) = ok (s ∷ sockets)
  with_socket (some s) (raise e) = raise e

  -- `rest` is the loop over the addresses that follow.
  abbrev pub with_rest :
      Result (Option Socket) × Connections
      → (Connections → Result (List Socket) × Connections)
      → Result (List Socket) × Connections
  with_rest (raise e, c) rest = (raise e, c)
  with_rest (ok socket, c) rest = let (sockets, c') = rest c in (with_socket socket sockets, c')

  unfoldable pub get_or_create_websocket_connections :
      ℕ → List Text → Text → Connections → Result (List Socket) × Connections
  get_or_create_websocket_connections depth [] mine c = (ok [], c)
  get_or_create_websocket_connections depth (address ∷ addresses) mine c =
      let rest = get_or_create_websocket_connections depth addresses mine in
      if mine == address
      then rest c
      else with_rest (get_or_create_websocket_connection depth address c) rest

  -- What a connection does with a message is not waited for.
  unfoldable pub send_all : List Socket → Message → Connections → Connections
  send_all sockets m c = record c { sent = c.sent ++ map (λ s. (s, m)) sockets }

  abbrev pub sending : Result (List Socket) × Connections → Message → Result {0} Unit × Connections
  sending (raise e, c) m = (raise e, c)
  sending (ok sockets, c) m = (ok tt, send_all sockets m c)

  abbrev pub stored_event : Option Ident → Db → Option VerityEvent
  stored_event none db = none
  stored_event (some event_id) db = get event_id db

  abbrev pub is_unset : List Text → Bool
  is_unset [] = true
  is_unset (t ∷ ts) = false

  -- The event was stored when the vote was accepted.
  unfoldable pub producer :
      ℕ → Message → Text → Node → Connections → Result {0} Unit × Node × Connections
  producer depth m mine n c = elim (stored_event m.event_id n.db) [
    | none ↦ (raise attribute_error, n, c)
    | some event ↦
        let (event_metadata, db) = metadata event n.db in
        if is_unset event_metadata.node_websocket_ips
        then (ok tt, record n { db = db }, c)
        else (let (r, c') =
              sending
                (get_or_create_websocket_connections depth event_metadata.node_websocket_ips mine c)
                m in
            (r, record n { db = db }, c'))
  ]

  -- The messages that come out of the queue, until an exception ends the loop.
  unfoldable pub producer_handler :
      ℕ → List Message → Text → Node → Connections → Result {0} Unit × Node × Connections
  producer_handler depth [] mine n c = (ok tt, n, c)
  producer_handler depth (m ∷ messages) mine n c = elim (is_message_valid (some m)) [
    | false ↦ producer_handler depth messages mine n c
    | true ↦
        let (r, n', c') = producer depth m mine n c in
        elim r [ raise e ↦ (raise e, n', c') | ok u ↦ producer_handler depth messages mine n' c' ]
  ]

-- What a node's connection gives: the JSON of a message, nothing for 20 seconds with the answer to a
-- ping after it, its end, or another exception.
pub data Incoming : Type 0 where
  received : Option Message → Incoming
  silence : Bool → Incoming
  closed : Incoming
  failure : Incoming

abbrev pub consumed : (VoteData → Ident → Option Ident) → Option Message → Node → Node
consumed recover none n = n
consumed recover (some m) n = elim m.node_id [
  | none ↦ n
  | some node_id ↦ elim m.current_timestamp [
    | none ↦ n
    | some timestamp ↦ consumer recover node_id timestamp m.json_data n
  ]
]

unfoldable pub consumer_handler : (VoteData → Ident → Option Ident) → List Incoming → Node → Node
consumer_handler recover [] n = n
consumer_handler recover (received m ∷ incoming) n =
    consumer_handler recover incoming (if is_message_valid m then consumed recover m n else n)
consumer_handler recover (silence true ∷ incoming) n = consumer_handler recover incoming n
consumer_handler recover (silence false ∷ incoming) n = n
consumer_handler recover (closed ∷ incoming) n = n
consumer_handler recover (failure ∷ incoming) n = consumer_handler recover incoming n
