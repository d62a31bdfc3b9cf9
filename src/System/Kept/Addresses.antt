-- ===== src/System/Kept/Addresses.antt =====
-- The addresses of the nodes, and the start of the node, against the laws of Database.Kept.
use validation_node.Prelude.{
  Bool, true, false, ◌||◌, Option, none, some, List, [], ◌∷◌, refl, if◌then◌else◌,
}
use validation_node.Prelude.Eq.{nat_eq}
use validation_node.Database.Schema.{Ident, Text, flushed, Result, ok, raise, Db}
use validation_node.Database.Events.{set_event_registry, set_node_registry}
use validation_node.Database.Kept.{IsKept, IsVoteKept}
use validation_node.Effects.{M, return, throw, ◌>>=◌}
use validation_node.Effects.Hoare.{
  Hoare, Keeps, IsSilent, Keeps-bind, Hoare-bind, Hoare-change, Hoare-return, Hoare-throw, Hoare-if,
  bind-IsSilent, ask-IsSilent, return-IsSilent, throw-IsSilent, attempt-IsSilent, read-IsSilent,
}
use validation_node.Client.{Client}
use validation_node.NodeRegistry.{
  AddressType, ip, websocket, is_blank, is_lost, is_registered, require_hash, default_event, renew,
  get_node_ips, register_node_ip, update_event_ips, update_each, update_node_ips,
}
use validation_node.Watch.Kept.{
  Keeps-unseen, Keeps-get_event, Keeps-metadata, Keeps-update_metadata, Hoare-unread, Keeps-silent,
}
use validation_node.Watch.Kept.Handlers.{send_transaction-IsSilent}
use validation_node.Watch.Kept.RegistryJob.{Keeps-init_registry}
use validation_node.System.{
  read_contract_addresses, store_addresses, init_contract_registry, watch_registry, init,
}

module _ {A : Type 0} where
  pub if-IsSilent : (b : Bool) (m k : M A) → IsSilent m → IsSilent k → IsSilent (if b then m else k)
  if-IsSilent true m k h h' = h
  if-IsSilent false m k h h' = h'

module _ (client : Client) where
  pub get_node_ips-IsSilent :
      (type : AddressType) (node_ids : List Ident) → IsSilent (get_node_ips client type node_ids)
  unfolding get_node_ips
  get_node_ips-IsSilent type [] = return-IsSilent []
  get_node_ips-IsSilent type (node_id ∷ node_ids) =
      bind-IsSilent _ _ (attempt-IsSilent _ (ask-IsSilent _))
        (branch (get_node_ips-IsSilent type node_ids))
    where
      branch :
          IsSilent (get_node_ips client type node_ids)
          → (r : Result Text)
          → IsSilent (elim r [
            | raise e ↦ if is_lost e then get_node_ips client type node_ids else throw e
            | ok node_ip ↦
                if is_blank node_ip
                then get_node_ips client type node_ids
                else (get_node_ips client type node_ids >>= λ node_ips. return (node_ip ∷ node_ips))
          ])
      branch h (raise e) = if-IsSilent (is_lost e) _ _ h (throw-IsSilent e)
      branch h (ok node_ip) =
          if-IsSilent (is_blank node_ip) _ _ h (bind-IsSilent _ _ h λ node_ips. return-IsSilent _)

  require_hash-IsSilent : (hash : Option Ident) → IsSilent (require_hash client hash)
  require_hash-IsSilent none = throw-IsSilent _
  require_hash-IsSilent (some hash) = return-IsSilent tt

  register-IsSilent :
      (node_ip : Text) (type : AddressType) → IsSilent (register_node_ip client node_ip type)
  unfolding register_node_ip
  register-IsSilent node_ip type = bind-IsSilent _ _ (get_node_ips-IsSilent type _) λ node_ips.
      if-IsSilent (is_registered node_ip node_ips) _ _ (return-IsSilent tt) (
        bind-IsSilent _ _ (send_transaction-IsSilent client default_event _)
          λ hash. require_hash-IsSilent hash)

module _ {I : Db → Type 0} ⦃k : IsKept I⦄ ⦃t : IsVoteKept I⦄ (client : Client) where
  Keeps-update_event_ips : (event_id : Ident) → Keeps I (update_event_ips client event_id)
  unfolding update_event_ips
  Keeps-update_event_ips event_id = Keeps-get_event event_id _ λ event. Hoare-unread (
      Keeps-bind _ _ (Keeps-metadata event) λ m.
        Keeps-bind _ _ (Keeps-silent _ (get_node_ips-IsSilent client ip event.node_addresses))
          λ node_ips.
            Keeps-bind _ _
              (Keeps-silent _ (get_node_ips-IsSilent client websocket event.node_addresses))
              λ websocket_ips.
                Hoare-if
                  ((renew ip node_ips m).1
                    || (renew websocket websocket_ips (renew ip node_ips m).0).1)
                  _ _ (λ u. Keeps-update_metadata _) (λ u. Hoare-return tt (λ db p. p)))

  Keeps-update_each : (event_ids : List Ident) → Keeps I (update_each client event_ids)
  unfolding update_each
  Keeps-update_each [] = Hoare-return tt (λ db p. p)
  Keeps-update_each (event_id ∷ event_ids) =
      Keeps-bind _ _ (Keeps-update_event_ips event_id) λ _. Keeps-update_each event_ids

  pub Keeps-update_node_ips : Keeps I (update_node_ips client)
  unfolding update_node_ips
  Keeps-update_node_ips =
      Keeps-bind _ _ (Keeps-silent _ (read-IsSilent _)) λ event_ids. Keeps-update_each event_ids

  Keeps-store :
      (node_address event_address : Ident) → Keeps I (store_addresses node_address event_address)
  unfolding store_addresses set_node_registry set_event_registry
  Keeps-store node_address event_address =
      Keeps-bind _ _ (Keeps-unseen (set_node_registry node_address) (λ db id node_id. refl))
        λ _. Keeps-unseen (set_event_registry event_address) (λ db id node_id. refl)

  Keeps-watch :
      (environment : Option Ident) (address : Option Ident)
      → Keeps I (watch_registry client environment address)
  Keeps-watch environment none = Hoare-throw _ (λ db p. p)
  Keeps-watch environment (some address) = Keeps-init_registry true client address

  -- Whatever the database held before.
  pub Hoare-init :
      (environment : Option Ident) (node_ip_port node_websocket_ip_port : Text)
      → Hoare (λ db. Unit) (λ _. I) I (init client environment node_ip_port node_websocket_ip_port)
  unfolding init init_contract_registry read_contract_addresses
  Hoare-init environment node_ip_port node_websocket_ip_port =
      Hoare-bind _ _ (Hoare-change {Q = I} (λ db. flushed) (λ db p. t.flush)) λ _.
        Keeps-bind _ _
          (Keeps-bind _ _
            (Keeps-silent _ (
              bind-IsSilent _ _ (ask-IsSilent _)
                λ a. bind-IsSilent _ _ (ask-IsSilent _) λ b. return-IsSilent _))
            λ found. Keeps-store found.0 found.1)
          λ _. Keeps-bind _ _ (Keeps-silent _ (read-IsSilent _)) λ address.
            Keeps-bind _ _ (Keeps-silent _ (register-IsSilent client node_ip_port ip)) λ _.
              Keeps-bind _ _
                (Keeps-silent _ (register-IsSilent client node_websocket_ip_port websocket))
                λ _. Keeps-watch environment address
