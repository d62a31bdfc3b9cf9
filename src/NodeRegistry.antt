-- ===== src/NodeRegistry.antt =====
-- The addresses of the nodes (app/events/node_registry.py).
pub mod Sets
pub mod Answers
pub mod Update
use validation_node.Prelude.{
  ℕ, Bool, true, false, not, ◌&&◌, ◌||◌, Option, none, some, List, [], ◌∷◌, if◌then◌else◌,
}
use validation_node.Prelude.Eq.{◌==◌, contains, nat_eq, list_eq}
use validation_node.Database.Schema.{
  Ident, Text, VerityEvent, VerityEventMetadata, Error, connection_error, other_error, Result, ok,
  raise,
}
use validation_node.Database.Events.{metadata, update_metadata, get_ids_list}
use validation_node.Node.{
  Transaction, register_node_ip as ip_transaction, register_node_ws as ws_transaction,
}
use validation_node.Effects.{
  M, return, throw, ◌>>=◌, ◌>>◌, attempt, ask, read_db, change_db, access_db,
}
use validation_node.Client.{Client, send_transaction}
use validation_node.Watch.Handlers.{when_some, get_event}

-- `common.AddressType`
pub data AddressType : Type 0 where
  ip websocket : AddressType

-- The name under which a transaction of no event is queued, `'default'`.
abbrev pub default_event : Ident
default_event = 0

-- `set(xs) == set(ys)`
unfoldable pub is_subset : List Text → List Text → Bool
is_subset [] ys = true
is_subset (x ∷ xs) ys = contains ys x && is_subset xs ys

unfoldable pub same_set : List Text → List Text → Bool
same_set xs ys = is_subset xs ys && is_subset ys xs

abbrev pub is_blank : Text → Bool
is_blank [] = true
is_blank (c ∷ t) = false

abbrev pub is_lost : Error → Bool
is_lost connection_error = true
is_lost _ = false

-- `node_ips and node_ip == node_ips[0]`
abbrev pub is_registered : Text → List Text → Bool
is_registered node_ip [] = false
is_registered node_ip (t ∷ node_ips) = node_ip == t

abbrev pub registration : AddressType → Text → Transaction
registration ip node_ip = ip_transaction node_ip
registration websocket node_ip = ws_transaction node_ip

-- The addresses in the metadata, and whether they were changed.
unfoldable pub renew : AddressType → List Text → VerityEventMetadata → VerityEventMetadata × Bool
renew ip node_ips m =
    if same_set node_ips m.node_ips then (m, false) else (record m { node_ips = node_ips }, true)
renew websocket node_ips m =
    if same_set node_ips m.node_websocket_ips
    then (m, false)
    else (record m { node_websocket_ips = node_ips }, true)

module _ (client : Client) where
  abbrev pub address_of : AddressType → Ident → ℕ → Result Text
  address_of ip node_id i = client.node_ip node_id i
  address_of websocket node_id i = client.node_ws node_id i

  -- A lost connection and an empty address are skipped.
  unfoldable pub get_node_ips : AddressType → List Ident → M (List Text)
  get_node_ips type [] = return []
  get_node_ips type (node_id ∷ node_ids) = attempt (ask (address_of type node_id)) >>= λ r. elim r [
    | raise e ↦ if is_lost e then get_node_ips type node_ids else throw e
    | ok node_ip ↦
        if is_blank node_ip
        then get_node_ips type node_ids
        else (get_node_ips type node_ids >>= λ node_ips. return (node_ip ∷ node_ips))
  ]

  abbrev pub require_hash : Option Ident → M (Unit {0})
  require_hash none = throw other_error
  require_hash (some hash) = return tt

  unfoldable pub register_node_ip : Text → AddressType → M (Unit {0})
  register_node_ip node_ip type = do
    node_ips ← get_node_ips type (client.node_id ∷ [])
    if is_registered node_ip node_ips
        then return tt
        else (send_transaction client default_event (registration type node_ip) >>= require_hash)

  -- The part of `update_node_ips` for one event.
  unfoldable pub update_event_ips : Ident → M (Unit {0})
  unfolding renew
  update_event_ips event_id = get_event event_id >>= λ found. when_some found λ event. do
    m ← access_db (metadata event)
    node_ips ← get_node_ips ip event.node_addresses
    let first = renew ip node_ips m
    websocket_ips ← get_node_ips websocket event.node_addresses
    let second = renew websocket websocket_ips first.0
    if first.1 || second.1 then change_db (update_metadata second.0) else return tt

  unfoldable pub update_each : List Ident → M (Unit {0})
  update_each [] = return tt
  update_each (event_id ∷ event_ids) = update_event_ips event_id >> update_each event_ids

  unfoldable pub update_node_ips : M (Unit {0})
  unfolding update_each
  update_node_ips = read_db get_ids_list >>= update_each
