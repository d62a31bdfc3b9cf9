-- ===== src/Watch/Discovery/Stored.antt =====
-- An event that is stored already, or that the node does not resolve, through `init_event` of
-- app/events/event_registry_filter.py.
use validation_node.Prelude.{ℕ, suc, Bool, some, ◌≡◌, refl, Bool-cases, inl, inr}
use validation_node.Prelude.Eq.{contains, nat_eq}
use validation_node.Database.Schema.{Ident, VerityEvent}
use validation_node.Database.Events.{get}
use validation_node.Effects.{World, ◌>>=◌}
use validation_node.Consensus.Choice.Soundness.{Result-cases}
use validation_node.Client.{Client}
use validation_node.Watch.Handlers.{get_event}
use validation_node.Watch.Discovery.{is_node_registered_on_event, add_event, init_event}

module _ (scheduler : Bool) (client : Client) (event_id : Ident) (block : ℕ) (w : World) where
  -- The entry of an event that is stored already changes nothing: the only call is the one for the nodes of
  -- the event.
  pub init_event-stored :
      (event : VerityEvent)
      → get event_id w.node.db ≡ some event
      → (init_event scheduler client event_id block w).1 ≡ record w { calls = suc w.calls }
  unfolding init_event is_node_registered_on_event get_event add_event ◌>>=◌
  init_event-stored event stored =
      elim (Result-cases (client.get_event_resolvers event_id w.calls)) [
        | inl (e, failed) ↦ rw failed refl
        | inr (nodes, found) ↦ elim (Bool-cases (contains nodes client.node_id)) [
          | inl here ↦ rw (found, here, stored) refl
          | inr away ↦ rw (found, away) refl
        ]
      ]
