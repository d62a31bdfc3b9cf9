-- ===== src/Voting/Sockets/Sending.antt =====
-- Which connections a vote is sent over (`get_or_create_websocket_connections` of
-- app/websocket.py).
use validation_node.Prelude.{
  ℕ, zero, suc, Bool, true, false, Option, none, some, List, [], ◌∷◌, All, All-map_of, ◌≡◌, ◌≢◌,
  refl, arith, Bool-cases, inl, inr,
}
use validation_node.Prelude.Eq.{contains, ◌==◌, ==_iff, nat_eq, list_eq}
use validation_node.Prelude.Dict.{lookup, has_key}
use validation_node.Prelude.Dict.Keys.{insert-HasNoRepeats, erase-HasNoRepeats}
use validation_node.Database.Schema.{Text, Result, ok, raise}
use validation_node.Voting.Sockets.{
  Socket, Connections, Network, called, register, unregister, register_if, connect_to_websocket,
  connected, checked, opened, with_rest, get_or_create_websocket_connection, with_socket,
  get_or_create_websocket_connections,
}
use validation_node.Voting.Sockets.Returns.{IsWellKeyed, lookup-own, insert-own, erase-own}

-- A connection that was found is one to the address.
abbrev pub IsAt : Text → Result (Option Socket) → Type 0
IsAt a (ok (some s)) = s.address ≡ a
IsAt a (ok none) = Unit
IsAt a (raise e) = Unit

pub record Found (a : Text) (r : Result (Option Socket)) (c : Connections) : Type 0 where
  pub keyed : IsWellKeyed c.sockets
  pub at : IsAt a r

unregister-IsWellKeyed :
    (s : Socket) (c : Connections) → IsWellKeyed c.sockets → IsWellKeyed (unregister s c).sockets
unfolding unregister
unregister-IsWellKeyed s c h = record {
  once = erase-HasNoRepeats s.address c.sockets h.once;
  own = erase-own c.sockets s.address h.own;
}

register_if-IsWellKeyed :
    (s : Option Socket) (c : Connections)
    → IsWellKeyed c.sockets
    → IsWellKeyed (register_if s c).sockets
unfolding register
register_if-IsWellKeyed none c h = h
register_if-IsWellKeyed (some s) c h = record {
  once = insert-HasNoRepeats s.address s c.sockets h.once;
  own = insert-own c.sockets s.address s refl h.own;
}

module _ (network : Network) where
  connected-IsWellKeyed :
      (a : Text) (c : Connections)
      → IsWellKeyed c.sockets
      → IsWellKeyed (connected network a c).sockets
  unfolding connect_to_websocket
  connected-IsWellKeyed a c h = elim (Bool-cases (has_key a c.sockets)) [
    | inl present ↦ rw present h
    | inr absent ↦
        rw (absent, connect_to_websocket)
          (register_if-IsWellKeyed (network.connect a c.calls) (called c) h)
  ]

  opened-Found :
      (a : Text) (up : Bool) (s : Socket) (c : Connections)
      (again : Connections → Result (Option Socket) × Connections)
      → s.address ≡ a
      → IsWellKeyed c.sockets
      → ((k : Connections) → IsWellKeyed k.sockets → Found a (again k).0 (again k).1)
      → Found a (opened network up s c again).0 (opened network up s c again).1
  opened-Found a true s c again e h f = record { keyed = h; at = e }
  opened-Found a false s c again e h f = f (unregister s c) (unregister-IsWellKeyed s c h)

  checked-Found :
      (a : Text) (o : Option Socket) (c : Connections)
      (again : Connections → Result (Option Socket) × Connections)
      → lookup a c.sockets ≡ o
      → IsWellKeyed c.sockets
      → ((k : Connections) → IsWellKeyed k.sockets → Found a (again k).0 (again k).1)
      → Found a (checked network o c again).0 (checked network o c again).1
  checked-Found a none c again e h f = record { keyed = h; at = tt }
  checked-Found a (some s) c again e h f =
      opened-Found a (network.is_open s c.calls) s (called c) again
        (lookup-own c.sockets a s h.own e) h f

  pub get_or_create-Found :
      (depth : ℕ) (a : Text) (c : Connections)
      → IsWellKeyed c.sockets
      → Found a
          (get_or_create_websocket_connection network depth a c).0
          (get_or_create_websocket_connection network depth a c).1
  unfolding get_or_create_websocket_connection
  get_or_create-Found zero a c h = record { keyed = h; at = tt }
  get_or_create-Found (suc depth) a c h =
      let k = connected network a c in
      checked-Found a (lookup a k.sockets) k (get_or_create_websocket_connection network depth a)
        refl (connected-IsWellKeyed a c h) (λ k' h'. get_or_create-Found depth a k' h')

  -- The connections that are found are to listed addresses, and not to the node itself.
  abbrev pub AreOthers : List Text → Text → Result (List Socket) → Type 0
  AreOthers addresses mine (ok sockets) =
      All (λ s. (contains addresses s.address ≡ true) × (s.address ≢ mine)) sockets
  AreOthers addresses mine (raise e) = Unit

  widen :
      (a : Text) (addresses : List Text) (mine : Text) (r : Result (List Socket))
      → AreOthers addresses mine r
      → AreOthers (a ∷ addresses) mine r
  widen a addresses mine (raise e) h = tt
  widen a addresses mine (ok sockets) h =
      All-map_of _ _ sockets (λ s p. (ground (arith, p.0), p.1)) h

  with_socket-AreOthers :
      (a : Text) (addresses : List Text) (mine : Text) (o : Option Socket)
      (r : Result (List Socket))
      → IsAt a (ok o)
      → (mine == a) ≡ false
      → AreOthers addresses mine r
      → AreOthers (a ∷ addresses) mine (with_socket network o r)
  with_socket-AreOthers a addresses mine none r e n h = widen a addresses mine r h
  with_socket-AreOthers a addresses mine (some s) (raise x) e n h = tt
  with_socket-AreOthers a addresses mine (some s) (ok sockets) e n h = (
    (ground (arith, e, ==_iff s.address a), λ m. ground (arith, e, m, n, ==_iff mine a)),
    widen a addresses mine (ok sockets) h,
  )

  abbrev Good : List Text → Text → Result (List Socket) × Connections → Type 0
  Good addresses mine (r, c) = AreOthers addresses mine r × IsWellKeyed c.sockets

  with_rest-Good :
      (a : Text) (addresses : List Text) (mine : Text)
      (found : Result (Option Socket) × Connections)
      (rest : Connections → Result (List Socket) × Connections)
      → Found a found.0 found.1
      → (mine == a) ≡ false
      → ((c : Connections) → IsWellKeyed c.sockets → Good addresses mine (rest c))
      → Good (a ∷ addresses) mine (with_rest network found rest)
  with_rest-Good a addresses mine (raise e, c) rest f n h = (tt, f.keyed)
  with_rest-Good a addresses mine (ok o, c) rest f n h =
      let (others, keyed) = h c f.keyed in
      (with_socket-AreOthers a addresses mine o (rest c).0 f.at n others, keyed)

  -- With connections that are registered under their own addresses: each connection that is found is to one
  -- of the addresses, none is to the node itself, and the connections stay so registered.
  pub get_or_create_connections-AreOthers :
      (depth : ℕ) (addresses : List Text) (mine : Text) (c : Connections)
      → IsWellKeyed c.sockets
      → AreOthers addresses mine
          (get_or_create_websocket_connections network depth addresses mine c).0
        × IsWellKeyed (get_or_create_websocket_connections network depth addresses mine c).1.sockets
  unfolding get_or_create_websocket_connections
  get_or_create_connections-AreOthers depth [] mine c h = (tt, h)
  get_or_create_connections-AreOthers depth (a ∷ addresses) mine c h =
      elim (Bool-cases (mine == a)) [
        | inl self ↦
            let (others, keyed) = get_or_create_connections-AreOthers depth addresses mine c h in
            rw self (widen a addresses mine _ others, keyed)
        | inr other ↦ rw other (
            with_rest-Good a addresses mine (get_or_create_websocket_connection network depth a c)
              (get_or_create_websocket_connections network depth addresses mine)
              (get_or_create-Found depth a c h) other
              (λ k h'. get_or_create_connections-AreOthers depth addresses mine k h'))
      ]
