-- ===== src/Watch/Kept/RegistryJob.antt =====
-- The job that reads the event registry (Watch.Registry), against the laws of Database.Kept.
use validation_node.Prelude.{Bool, Option, none, some, List, [], ◌∷◌}
use validation_node.Database.Schema.{Ident, FilterEntry, Result, ok, raise, Db}
use validation_node.Database.Kept.{IsKept}
use validation_node.Effects.Hoare.{
  Keeps, Keeps-bind, Hoare-return, read-IsSilent, Hoare-uninstall, Keeps-attempt, yield-IsSilent,
  ask-IsSilent,
}
use validation_node.Client.{Client, Entry}
use validation_node.Watch.Registry.{
  process_new_verity_events, init_event_registry_filter, delete_and_uninstall_filters,
  recover_registry_filter, process_registry_answer, read_registry, filter_event_registry,
}
use validation_node.Watch.Kept.{
  Keeps-delete_filters, Keeps-create_filter, Keeps-last_run, Keeps-silent,
}
use validation_node.Watch.Kept.Handlers.{current_time-IsSilent}
use validation_node.Watch.Kept.Discovery.{Keeps-init_event}

module _ {I : Db → Type 0} ⦃k : IsKept I⦄ (scheduler : Bool) (client : Client) where
  Keeps-new_events :
      (entries : List Entry) → Keeps I (process_new_verity_events scheduler client entries)
  unfolding process_new_verity_events
  Keeps-new_events [] = Hoare-return tt (λ db p. p)
  Keeps-new_events (e ∷ entries) = Keeps-bind _ _ (Keeps-silent _ (yield-IsSilent _)) λ found.
      Keeps-bind _ _ (Keeps-init_event scheduler client found.1 found.0)
        λ _. Keeps-new_events entries

  pub Keeps-init_registry :
      (address : Ident) → Keeps I (init_event_registry_filter scheduler client address)
  unfolding init_event_registry_filter
  Keeps-init_registry address = Keeps-bind _ _ (Keeps-silent _ (ask-IsSilent _)) λ from_block.
      Keeps-bind _ _ (Keeps-silent _ (ask-IsSilent _)) λ filter_id.
        Keeps-bind _ _ (Keeps-create_filter address filter_id _)
          λ _. Keeps-bind _ _ (Keeps-silent _ (ask-IsSilent _)) λ entries. Keeps-new_events entries

  Keeps-delete_and_uninstall :
      (address : Ident) (filter_id : Option Ident)
      → Keeps I (delete_and_uninstall_filters scheduler client address filter_id)
  unfolding delete_and_uninstall_filters
  Keeps-delete_and_uninstall address none = Keeps-delete_filters address
  Keeps-delete_and_uninstall address (some filter_id) =
      Keeps-bind _ _ (Keeps-delete_filters address) λ _. Hoare-uninstall _

  Keeps-recover_registry :
      (address : Ident) (filter_id : Option Ident)
      → Keeps I (recover_registry_filter scheduler client address filter_id)
  unfolding recover_registry_filter
  Keeps-recover_registry address filter_id =
      Keeps-bind _ _
        (Keeps-attempt _ (
          Keeps-bind _ _ (Keeps-delete_and_uninstall address filter_id)
            λ _. Keeps-init_registry address))
        λ r. Hoare-return tt (λ db p. p)

  Keeps-registry_answer :
      (r : Result (List Entry)) (address filter_id : Ident)
      → Keeps I (process_registry_answer scheduler client r address filter_id)
  unfolding process_registry_answer
  Keeps-registry_answer (raise e) address filter_id =
      Keeps-recover_registry address (some filter_id)
  Keeps-registry_answer (ok entries) address filter_id =
      Keeps-bind _ _ (Keeps-silent _ (current_time-IsSilent client))
        λ now. Keeps-bind _ _ (Keeps-last_run now) λ _. Keeps-new_events entries

  Keeps-read_registry :
      (entries : List FilterEntry) (address : Ident)
      → Keeps I (read_registry scheduler client entries address)
  unfolding read_registry
  Keeps-read_registry [] address = Keeps-recover_registry address none
  Keeps-read_registry (e ∷ entries) address =
      Keeps-bind _ _ (Keeps-attempt _ (Keeps-silent _ (ask-IsSilent _)))
        λ r. Keeps-registry_answer r address e.filter_id

  pub Keeps-event_registry :
      (address : Ident) → Keeps I (filter_event_registry scheduler client address)
  unfolding filter_event_registry
  Keeps-event_registry address =
      Keeps-bind _ _ (Keeps-silent _ (read-IsSilent _))
        λ entries. Keeps-read_registry entries address
