-- ===== src/Voting/Sockets/Returns.antt =====
-- The recursion of `get_or_create_websocket_connection` (app/websocket.py) ends after one reconnection.
use validation_node.Prelude.{
  ℕ, suc, true, false, Option, none, some, [], ◌∷◌, All, ◌≡◌, refl, ◌∙◌, subst, ap, arith,
  Bool-cases, Option-cases, inl, inr, if◌then◌else◌,
}
use validation_node.Prelude.Eq.{==_iff, HasNoRepeats, nat_eq, list_eq}
use validation_node.Prelude.Dict.{Dict, keys, lookup, has_key, insert, erase, lookup-insert_self}
use validation_node.Prelude.Dict.Keys.{lookup_of_contains, lookup_absent, lookup-erase_self}
use validation_node.Database.Schema.{Text, ok}
use validation_node.Voting.Sockets.{
  Socket, Connections, Network, called, register, unregister, register_if, checked,
  connect_to_websocket, connected, get_or_create_websocket_connection,
}

-- Every connection is registered under its own address, and only once.
pub record IsWellKeyed (sockets : Dict Text Socket) : Type 0 where
  pub once : HasNoRepeats (keys sockets)
  pub own : All (λ p. p.1.address ≡ p.0) sockets

pub lookup-own :
    (d : Dict Text Socket) (a : Text) (s : Socket)
    → All (λ p. p.1.address ≡ p.0) d
    → lookup a d ≡ some s
    → s.address ≡ a
lookup-own [] a s h e = cc
lookup-own ((j, w) ∷ d) a s h e = ground (arith, lookup-own d a s h.1, h.0, ==_iff a j)

pub insert-own :
    (d : Dict Text Socket) (a : Text) (s : Socket)
    → s.address ≡ a
    → All (λ p. p.1.address ≡ p.0) d
    → All (λ p. p.1.address ≡ p.0) (insert a s d)
insert-own [] a s e h = (e, tt)
insert-own ((j, w) ∷ d) a s e h = ground (arith, insert-own d a s e h.1, h.0, ==_iff a j)

pub erase-own :
    (d : Dict Text Socket) (a : Text)
    → All (λ p. p.1.address ≡ p.0) d
    → All (λ p. p.1.address ≡ p.0) (erase a d)
erase-own [] a h = tt
erase-own ((j, w) ∷ d) a h = ground (arith, erase-own d a h.1, h.0)

lookup_registered :
    (d : Dict Text Socket) (a : Text) (s : Socket)
    → s.address ≡ a
    → lookup a (insert s.address s d) ≡ some s
lookup_registered d a s e =
    subst (λ b. lookup b (insert s.address s d) ≡ some s) e (lookup-insert_self s.address s d)

has_key-erase :
    (d : Dict Text Socket) (a : Text) (s : Socket)
    → s.address ≡ a
    → HasNoRepeats (keys d)
    → has_key a (erase s.address d) ≡ false
has_key-erase d a s e h = elim (Bool-cases (has_key a (erase s.address d))) [
  | inr absent ↦ absent
  | inl present ↦
      let (w, found) = lookup_of_contains a (erase s.address d) present in
      let gone =
        subst (λ b. lookup b (erase s.address d) ≡ none) e (lookup-erase_self s.address d h) in
      ground (arith, found, gone)
]

-- What should come of the connection to an address: a registered one that is open, or else a new one.
abbrev pub wanted_of : Network → Text → Connections → Option Socket → Option Socket
wanted_of network a c none = network.connect a c.calls
wanted_of network a c (some s) =
    if network.is_open s c.calls then some s else network.connect a (suc c.calls)

abbrev pub wanted : Network → Text → Connections → Option Socket
wanted network a c = wanted_of network a c (lookup a c.sockets)

-- An address whose connections have it as their own key, and are open right after `connect`.
pub record IsCanonical (network : Network) (a : Text) : Type 0 where
  pub reaches : (i : ℕ) (s : Socket) → network.connect a i ≡ some s → s.address ≡ a
  pub opens : (i : ℕ) (s : Socket) → network.connect a i ≡ some s → network.is_open s (suc i) ≡ true

module _ (network : Network) (a : Text) (canonical : IsCanonical network a) where
  connected_absent :
      (c : Connections)
      → has_key a c.sockets ≡ false
      → connected network a c ≡ register_if (network.connect a c.calls) (called c)
  unfolding connect_to_websocket
  connected_absent c absent = rw absent refl

  connected_present : (c : Connections) → has_key a c.sockets ≡ true → connected network a c ≡ c
  connected_present c present = rw present refl

  get_or_create-new :
      (depth : ℕ) (c : Connections)
      → has_key a c.sockets ≡ false
      → (get_or_create_websocket_connection network (suc depth) a c).0
        ≡ ok (network.connect a c.calls)
  unfolding get_or_create_websocket_connection register
  get_or_create-new depth c absent =
      let again = get_or_create_websocket_connection network depth a in
      ap (λ k. (checked network (lookup a k.sockets) k again).0) (connected_absent c absent)
      ∙ elim (Option-cases (network.connect a c.calls)) [
        | inl e ↦ rw (e, lookup_absent a c.sockets absent) refl
        | inr (s, e) ↦
            rw
              (
                e,
                lookup_registered c.sockets a s (canonical.reaches c.calls s e),
                canonical.opens c.calls s e,
              )
              refl
      ]

  -- For an address in the form of the keys, whose new connections are open right after `connect`, and with connections
  -- registered under their own keys, two levels of the recursion are enough: what is given is the
  -- registered connection if it is open, or else what a new `connect` gives, which is none when it fails.
  pub get_or_create-wanted :
      (depth : ℕ) (c : Connections)
      → IsWellKeyed c.sockets
      → (get_or_create_websocket_connection network (suc (suc depth)) a c).0
        ≡ ok (wanted network a c)
  unfolding get_or_create_websocket_connection unregister
  get_or_create-wanted depth c h = elim (Bool-cases (has_key a c.sockets)) [
    | inr absent ↦
        get_or_create-new (suc depth) c absent ∙ rw (lookup_absent a c.sockets absent) refl
    | inl present ↦
        let (s, found) = lookup_of_contains a c.sockets present in
        let again = get_or_create_websocket_connection network (suc depth) a in
        ap (λ k. (checked network (lookup a k.sockets) k again).0) (connected_present c present)
        ∙ elim (Bool-cases (network.is_open s c.calls)) [
          | inl up ↦ rw (found, wanted, up) refl
          | inr shut ↦
              rw (found, wanted, shut)
                (get_or_create-new depth (unregister s (called c))
                  (has_key-erase c.sockets a s (lookup-own c.sockets a s h.own found) h.once))
        ]
  ]
