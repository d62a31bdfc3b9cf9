-- ===== src/NodeRegistry/Update.antt =====
-- What `update_node_ips` of app/events/node_registry.py stores for an event.
use validation_node.Prelude.{
  ℕ, Option, Bool, true, false, ◌||◌, some, List, ◌≡◌, refl, sym, ◌∙◌, subst, ap, ap₂, arith,
  if◌then◌else◌,
}
use validation_node.Prelude.Eq.{nat_eq}
use validation_node.Prelude.Dict.{update_self}
use validation_node.Database.Schema.{
  Ident, Text, VerityEvent, VerityEventMetadata, Db, Result, ok, raise,
}
use validation_node.Database.Events.{get, metadata, get_or_create, create_metadata, update_metadata}
use validation_node.Effects.{World, M, ◌>>=◌, return, access_db, change_db}
use validation_node.Effects.Hoare.{
  Hoare, Hoare-bind, Hoare-return, Hoare-read, Hoare-access, Hoare-change, Hoare-if, Hoare-fact,
  Hoare-known, Post,
}
use validation_node.Client.{Client}
use validation_node.Watch.Handlers.{get_event, when_some}
use validation_node.NodeRegistry.{ip, websocket, same_set, renew, get_node_ips, update_event_ips}
use validation_node.NodeRegistry.Sets.{same_set_iff}
use validation_node.NodeRegistry.Answers.{answer, given, get_node_ips-given}
use validation_node.System.Kept.Addresses.{get_node_ips-IsSilent}

-- The stored metadata have these addresses, up to order and repetitions.
pub record HasAddresses (id : Ident) (ips websocket_ips : List Text) (db : Db) : Type 0 where
  pub stored : VerityEventMetadata
  pub found : db.metadata id ≡ some stored
  pub same_ips : same_set ips stored.node_ips ≡ true
  pub same_websocket_ips : same_set websocket_ips stored.node_websocket_ips ≡ true

same_set_refl : (xs : List Text) → same_set xs xs ≡ true
same_set_refl xs = (same_set_iff xs xs).1 (λ a. refl)

module _ (ips websocket_ips : List Text) (m : VerityEventMetadata) where
  abbrev first : VerityEventMetadata × Bool
  first = renew ip ips m

  abbrev second : VerityEventMetadata × Bool
  second = renew websocket websocket_ips first.0

  renew-same_ips : same_set ips second.0.node_ips ≡ true
  unfolding renew
  renew-same_ips = ground (arith, same_set_refl ips)

  renew-same_websocket_ips : same_set websocket_ips second.0.node_websocket_ips ≡ true
  unfolding renew
  renew-same_websocket_ips = ground (arith, same_set_refl websocket_ips)

  renew-event_id : second.0.event_id ≡ m.event_id
  unfolding renew
  renew-event_id = ground arith

  renew_unchanged :
      (first.1 || second.1) ≡ false
      → (same_set ips m.node_ips ≡ true) × (same_set websocket_ips m.node_websocket_ips ≡ true)
  unfolding renew
  renew_unchanged h = ground (arith, h)

-- The event and its metadata are stored.
record Holds (event_id : Ident) (event : VerityEvent) (m : VerityEventMetadata) (db : Db)
    : Type 0 where
  event_stored : db.events event_id ≡ some event
  metadata_stored : db.metadata event.event_id ≡ some m

metadata-stored :
    (event : VerityEvent) (m : VerityEventMetadata) (db : Db)
    → db.metadata event.event_id ≡ some m
    → metadata event db ≡ (m, db)
unfolding metadata get_or_create
metadata-stored event m db e = rw (metadata, get_or_create, e) refl

-- From addresses that the registry gives.
module _ (client : Client) (event_id : Ident) (event : VerityEvent) (m : VerityEventMetadata)
    (ips websocket_ips : List Text) (own : m.event_id ≡ event.event_id)
    (ips_known : (w : World) → (get_node_ips client ip event.node_addresses w).0 ≡ ok ips)
    (websocket_ips_known : (w : World)
      → (get_node_ips client websocket event.node_addresses w).0 ≡ ok websocket_ips) where
  abbrev State : Db → Type 0
  State = Holds event_id event m

  abbrev Goal : Db → Type 0
  Goal = HasAddresses event.event_id ips websocket_ips

  -- Nothing is raised.
  abbrev Nothing : Db → Type 0
  Nothing db = true ≡ false

  stored-HasAddresses :
      (db : Db) → State db → Goal (update_metadata (second ips websocket_ips m).0 db)
  unfolding update_metadata create_metadata
  stored-HasAddresses db p = record {
    stored = (second ips websocket_ips m).0;
    found =
        subst
          (λ id.
            (update_metadata (second ips websocket_ips m).0 db).metadata id
            ≡ some (second ips websocket_ips m).0)
          (renew-event_id ips websocket_ips m ∙ own)
          (update_self (second ips websocket_ips m).0.event_id (some (second ips websocket_ips m).0)
            db.metadata);
    same_ips = renew-same_ips ips websocket_ips m;
    same_websocket_ips = renew-same_websocket_ips ips websocket_ips m;
  }

  unchanged-HasAddresses :
      ((first ips websocket_ips m).1 || (second ips websocket_ips m).1) ≡ false
      → (db : Db) → State db
      → Goal db
  unchanged-HasAddresses h db p = record {
    stored = m;
    found = p.metadata_stored;
    same_ips = (renew_unchanged ips websocket_ips m h).0;
    same_websocket_ips = (renew_unchanged ips websocket_ips m h).1;
  }

  -- From the metadata on.
  Hoare-renewal :
      Hoare State
        (λ _. Goal)
        Nothing
        (get_node_ips client ip event.node_addresses >>= λ node_ips.
          let first = renew ip node_ips m in
          get_node_ips client websocket event.node_addresses >>= λ websocket_ips.
          let second = renew websocket websocket_ips first.0 in
          if first.1 || second.1 then change_db (update_metadata second.0) else return tt)
  Hoare-renewal =
      Hoare-bind _ _ (Hoare-known _ ips (get_node_ips-IsSilent client ip _) ips_known) λ node_ips.
        Hoare-fact λ same.
          Hoare-bind _ _
            (Hoare-known _ websocket_ips (get_node_ips-IsSilent client websocket _)
              websocket_ips_known)
            λ found. Hoare-fact λ same'.
              subst
                (λ (p : List Text × List Text).
                  Hoare State (λ _. Goal) Nothing
                    (if (renew ip p.0 m).1 || (renew websocket p.1 (renew ip p.0 m).0).1
                      then change_db (update_metadata (renew websocket p.1 (renew ip p.0 m).0).0)
                      else return tt))
                (ap₂ (λ a b. (a, b)) (sym same) (sym same'))
                (Hoare-if ((first ips websocket_ips m).1 || (second ips websocket_ips m).1) _ _
                  (λ y.
                    Hoare-change (update_metadata (second ips websocket_ips m).0)
                      stored-HasAddresses)
                  (λ n. Hoare-return tt (unchanged-HasAddresses n)))

  -- From the event on.
  abbrev renewal : VerityEvent → VerityEventMetadata → M (Unit {0})
  renewal e m = get_node_ips client ip e.node_addresses >>= λ node_ips.
      let first = renew ip node_ips m in
      get_node_ips client websocket e.node_addresses >>= λ websocket_ips.
      let second = renew websocket websocket_ips first.0 in
      if first.1 || second.1 then change_db (update_metadata second.0) else return tt

  abbrev body : VerityEvent → M (Unit {0})
  body e = access_db (metadata e) >>= renewal e

  Hoare-body : Hoare State (λ _. Goal) Nothing (body event)
  Hoare-body =
      Hoare-bind _ _
        (Hoare-access {Q = λ a db. State db × (a ≡ m)} (metadata event) (λ db p.
          let e = metadata-stored event m db p.metadata_stored in
          (subst State (sym (ap (λ r. r.1) e)) p, ap (λ r. r.0) e)))
        λ a. Hoare-fact λ same.
          subst (λ b. Hoare State (λ _. Goal) Nothing (renewal event b)) (sym same) Hoare-renewal

  Hoare-update_event : Hoare State (λ _. Goal) Nothing (update_event_ips client event_id)
  unfolding update_event_ips get_event get
  Hoare-update_event =
      Hoare-bind _ _
        (Hoare-read {Q = λ found db. State db × (found ≡ some event)} (λ db. db.events event_id)
          (λ db p. (p, p.event_stored)))
        λ found. Hoare-fact λ same.
          subst (λ o. Hoare State (λ _. Goal) Nothing (when_some o body)) (sym same) Hoare-body

  update_event_ips-known :
      (w : World)
      → w.node.db.events event_id ≡ some event
      → w.node.db.metadata event.event_id ≡ some m
      → ((update_event_ips client event_id w).0 ≡ ok tt)
        × HasAddresses event.event_id ips websocket_ips
            (update_event_ips client event_id w).1.node.db
  update_event_ips-known w e f =
      go (update_event_ips client event_id w).0 (update_event_ips client event_id w).1.node.db
        (Hoare-update_event.after w (record { event_stored = e; metadata_stored = f }))
    where
      go :
          (r : Result {0} Unit) (db : Db)
          → Post (λ (u : Unit {0}). Goal) Nothing r db
          → (r ≡ ok tt) × Goal db
      go (ok u) db p = (refl, p)
      go (raise x) db p = cc

-- When the registry answers about a node the same whenever it is asked, an address or a lost connection: the
-- update of an event that is stored with metadata of its own raises nothing, and after it the metadata have the
-- addresses of both kinds that are given for the event's nodes and are not empty, as sets.
pub update_event_ips-HasAddresses :
    (client : Client) (event_id : Ident) (event : VerityEvent) (m : VerityEventMetadata)
    (f g : Ident → Option Text) (w : World)
    → m.event_id ≡ event.event_id
    → ((n : Ident) (i : ℕ) → client.node_ip n i ≡ answer (f n))
    → ((n : Ident) (i : ℕ) → client.node_ws n i ≡ answer (g n))
    → w.node.db.events event_id ≡ some event
    → w.node.db.metadata event.event_id ≡ some m
    → ((update_event_ips client event_id w).0 ≡ ok tt)
      × HasAddresses event.event_id
          (given f event.node_addresses)
          (given g event.node_addresses)
          (update_event_ips client event_id w).1.node.db
update_event_ips-HasAddresses client event_id event m f g w own ips websocket_ips e h =
    update_event_ips-known client event_id event m (given f event.node_addresses)
      (given g event.node_addresses) own (get_node_ips-given client ip f ips event.node_addresses)
      (get_node_ips-given client websocket g websocket_ips event.node_addresses) w e h
