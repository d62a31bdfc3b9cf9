-- ===== src/NodeRegistry/Answers.antt =====
-- What `get_node_ips` of app/events/node_registry.py makes of the registry's answers.
use validation_node.Prelude.{
  ℕ, suc, Option, none, some, List, [], ◌∷◌, ◌≡◌, refl, sym, ap, ◌∙◌, if◌then◌else◌, Option-cases,
  Bool-cases, inl, inr,
}
use validation_node.Database.Schema.{Ident, Text, Result, ok, raise, connection_error}
use validation_node.Effects.{World, ◌>>=◌}
use validation_node.Client.{Client}
use validation_node.NodeRegistry.{AddressType, is_blank, address_of, get_node_ips}

-- What is answered about a node: an address, or that the connection to the client is lost.
abbrev pub answer : Option Text → Result Text
answer none = raise connection_error
answer (some t) = ok t

abbrev add : Option Text → List Text → List Text
add none ts = ts
add (some t) ts = if is_blank t then ts else t ∷ ts

-- The specification: the addresses that are given and are not empty, in the order of the nodes.
abbrev pub given : (Ident → Option Text) → List Ident → List Text
given f [] = []
given f (n ∷ ns) = add (f n) (given f ns)

module _ (client : Client) (type : AddressType) (f : Ident → Option Text)
    (answers : (n : Ident) (i : ℕ) → address_of client type n i ≡ answer (f n)) where
  -- The nodes without an address are left out, and no other.
  pub get_node_ips-given :
      (ns : List Ident) (w : World) → (get_node_ips client type ns w).0 ≡ ok (given f ns)
  unfolding get_node_ips ◌>>=◌
  get_node_ips-given [] w = refl
  get_node_ips-given (n ∷ ns) w =
      let rest = get_node_ips-given ns (record w { calls = suc w.calls }) in
      elim (Option-cases (f n)) [
        | inl e ↦
            let left : (get_node_ips client type (n ∷ ns) w).0 ≡ ok (given f ns) =
              rw (answers n w.calls, e) rest in
            left ∙ ap (λ o. ok (add o (given f ns))) (sym e)
        | inr (t, e) ↦
            let left : (get_node_ips client type (n ∷ ns) w).0 ≡ ok (add (some t) (given f ns)) =
              rw (answers n w.calls, e)
                (elim (Bool-cases (is_blank t)) [
                  | inl blank ↦ rw blank rest
                  | inr full ↦ rw (full, rest) refl
                ]) in
            left ∙ ap (λ o. ok (add o (given f ns))) (sym e)
      ]
