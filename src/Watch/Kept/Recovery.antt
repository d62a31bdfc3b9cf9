-- ===== src/Watch/Kept/Recovery.antt =====
-- Disputes and the recovery of filters (Watch.Recovery), against the laws of Database.Kept.
use validation_node.Prelude.{
  refl, if◌then◌else◌, Bool, true, false, not, Option, none, some, List, [], ◌∷◌,
}
use validation_node.Database.Schema.{
  Ident, VerityEvent, FilterEntry, FilterName, join_event, state_transition, error_event,
  validation_started, validation_restart, dispute_triggered, event_failed, new_verity_event, Db,
}
use validation_node.Database.Kept.{IsKept}
use validation_node.Database.Filters.{delete_filter}
use validation_node.Effects.{return, change_db}
use validation_node.Effects.Hoare.{
  Hoare, Keeps, Keeps-bind, Hoare-return, Hoare-if, Hoare-uninstall, Keeps-attempt, yield-IsSilent,
}
use validation_node.Client.{Client, Entry}
use validation_node.Watch.Handlers.{is_final}
use validation_node.Watch.Discovery.{event_filters}
use validation_node.Watch.Recovery.{
  forget_filter, uninstall_list, is_success, process_dispute_triggered, process, reinstall_filter,
  recover_filter, recover_each, recover_all_filters,
}
use validation_node.Watch.Kept.{
  Stored, Keeps-unseen, Keeps-get_event, Hoare-get_event, Keeps-metadata, Keeps-delete_event,
  Keeps-delete_filters, Hoare-unread, Keeps-silent,
}
use validation_node.Watch.Kept.Handlers.{Keeps-entries}
use validation_node.Watch.Kept.Discovery.{Keeps-init_filter, Keeps-init_event}

module _ {I : Db → Type 0} ⦃k : IsKept I⦄ where
  Keeps-forget :
      (filter_id : Option Ident) (event_id : Ident) (name : FilterName)
      → Keeps I (change_db (forget_filter filter_id event_id name))
  unfolding delete_filter
  Keeps-forget none event_id name =
      Keeps-unseen (forget_filter none event_id name) (λ db id node_id. refl)
  Keeps-forget (some filter_id) event_id name =
      Keeps-unseen (forget_filter (some filter_id) event_id name) (λ db id node_id. refl)

  Keeps-uninstall_list : (entries : Option (List FilterEntry)) → Keeps I (uninstall_list entries)
  Keeps-uninstall_list none = Hoare-return tt (λ db p. p)
  Keeps-uninstall_list (some entries) = Hoare-uninstall _

module _ {I : Db → Type 0} ⦃k : IsKept I⦄ (scheduler : Bool) (client : Client) where
  Keeps-dispute :
      (event_id : Ident) (entries : List Entry)
      → Keeps I (process_dispute_triggered scheduler client event_id entries)
  unfolding process_dispute_triggered
  Keeps-dispute event_id entries = Keeps-bind _ _ (Keeps-silent _ (yield-IsSilent _)) λ entry.
      Keeps-bind _ _ (Keeps-silent _ (yield-IsSilent _)) λ by. Keeps-get_event event_id _ λ event.
        Hoare-unread (
          Keeps-bind _ _ (Keeps-metadata event) λ m.
            Keeps-bind _ _ (Keeps-delete_event event_id)
              λ _. Keeps-init_event scheduler client event_id m.contract_block_number)

  pub Keeps-process :
      (name : FilterName) (event_id : Ident) (entries : List Entry)
      → Keeps I (process scheduler client name event_id entries)
  unfolding process
  Keeps-process join_event event_id entries =
      Keeps-entries scheduler client join_event event_id entries
  Keeps-process state_transition event_id entries =
      Keeps-entries scheduler client state_transition event_id entries
  Keeps-process error_event event_id entries =
      Keeps-entries scheduler client error_event event_id entries
  Keeps-process validation_started event_id entries =
      Keeps-entries scheduler client validation_started event_id entries
  Keeps-process validation_restart event_id entries =
      Keeps-entries scheduler client validation_restart event_id entries
  Keeps-process dispute_triggered event_id entries = Keeps-dispute event_id entries
  Keeps-process event_failed event_id entries =
      Keeps-entries scheduler client event_failed event_id entries
  Keeps-process new_verity_event event_id entries =
      Keeps-entries scheduler client new_verity_event event_id entries

  Keeps-reinstall :
      (event_id : Ident) (name : FilterName) (filter_id : Option Ident)
      → Keeps I (reinstall_filter scheduler client event_id name filter_id)
  unfolding reinstall_filter
  Keeps-reinstall event_id name filter_id =
      Keeps-bind _ _ (Keeps-forget filter_id event_id name) λ _.
        Keeps-bind _ _ (Keeps-init_filter scheduler client name event_id)
          λ _. Hoare-return true (λ db p. p)

  pub Keeps-recover_filter :
      (event_id : Ident) (name : FilterName) (filter_id : Option Ident)
      → Keeps I (recover_filter scheduler client event_id name filter_id)
  unfolding recover_filter
  Keeps-recover_filter event_id name filter_id =
      Keeps-bind _ _ (Keeps-attempt _ (Hoare-get_event event_id _ branch))
        λ r. Hoare-return (is_success r) (λ db p. p)
    where
      branch :
          (found : Option VerityEvent)
          → Hoare
              (Stored I event_id found)
              (λ _. I)
              I
              (elim found [
                | none ↦ return true
                | some event ↦
                    if is_final event.state
                    then return true
                    else reinstall_filter scheduler client event_id name filter_id
              ])
      branch none = Hoare-unread (Hoare-return true (λ db p. p))
      branch (some event) = Hoare-unread (
          Hoare-if (is_final event.state) _ _ (λ f. Hoare-return true (λ db p. p))
            (λ n. Keeps-reinstall event_id name filter_id))

  Keeps-recover_each :
      (names : List FilterName) (event_id : Ident)
      → Keeps I (recover_each scheduler client names event_id)
  unfolding recover_each
  Keeps-recover_each [] event_id = Hoare-return true (λ db p. p)
  Keeps-recover_each (name ∷ names) event_id =
      Keeps-bind _ _ (Keeps-recover_filter event_id name none) λ success.
        Hoare-if (not success) _ _ (λ f. Hoare-return false (λ db p. p))
          (λ s. Keeps-recover_each names event_id)

  pub Keeps-recover_all :
      (event_id : Ident) (entries : Option (List FilterEntry))
      → Keeps I (recover_all_filters scheduler client event_id entries)
  unfolding recover_all_filters
  Keeps-recover_all event_id entries = Keeps-bind _ _ (Keeps-uninstall_list entries) λ _.
      Keeps-bind _ _ (Keeps-delete_filters event_id) λ _. Keeps-recover_each event_filters event_id
