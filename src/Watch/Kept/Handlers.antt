-- ===== src/Watch/Kept/Handlers.antt =====
-- The handlers of entries (Watch.Handlers), against the laws of Database.Kept.
use validation_node.Prelude.{true, false, not, List, refl, eqb}
use validation_node.Database.Schema.{
  Ident, FilterName, join_event, state_transition, error_event, validation_started,
  validation_restart, dispute_triggered, event_failed, new_verity_event, Result, ok, raise, Db,
}
use validation_node.Database.Kept.{IsKept}
use validation_node.Node.{Job, Transaction, add_job, queue_transaction}
use validation_node.Effects.{change_node}
use validation_node.Effects.Hoare.{
  Keeps, IsSilent, Keeps-bind, Hoare-bind, Hoare-return, Hoare-throw, Hoare-if, bind-IsSilent,
  ask-IsSilent, return-IsSilent, yield-IsSilent, attempt-IsSilent, change_node-IsSilent,
}
use validation_node.Client.{Client, Entry, send_transaction, current_time}
use validation_node.Watch.Handlers.{
  claim_if, is_final, node_claim_reward, process_join_events, process_state_transition,
  process_event_failed, schedule, process_validation_start, process_validation_restart,
  process_entries,
}
use validation_node.Watch.Kept.{
  Keeps-get_event, Hoare-update_event, Keeps-delete_event, Keeps-create_participants, Hoare-unread,
  Hoare-first, Keeps-silent,
}

module _ (client : Client) where
  pub current_time-IsSilent : IsSilent (current_time client)
  unfolding current_time
  current_time-IsSilent = ask-IsSilent _

  pub send_transaction-IsSilent :
      (event_id : Ident) (t : Transaction) → IsSilent (send_transaction client event_id t)
  unfolding send_transaction queue_transaction
  send_transaction-IsSilent event_id t =
      bind-IsSilent (change_node (queue_transaction event_id t)) _
        (change_node-IsSilent (queue_transaction event_id t) (λ n. refl)) (λ u. ask-IsSilent _)

  claim_if-IsSilent : (event_id : Ident) (r : Result _) → IsSilent (claim_if client event_id r)
  unfolding claim_if
  claim_if-IsSilent event_id (ok true) =
      bind-IsSilent _ _ (send_transaction-IsSilent event_id _) (λ h. return-IsSilent tt)
  claim_if-IsSilent event_id (ok false) = return-IsSilent tt
  claim_if-IsSilent event_id (raise e) = return-IsSilent tt

  pub node_claim_reward-IsSilent : (event_id : Ident) → IsSilent (node_claim_reward client event_id)
  unfolding node_claim_reward
  node_claim_reward-IsSilent event_id =
      bind-IsSilent _ _ (attempt-IsSilent _ (ask-IsSilent _)) (λ r. claim_if-IsSilent event_id r)

module _ {I : Db → Type 0} ⦃k : IsKept I⦄ where
  pub Keeps-join_events :
      (event_id : Ident) (entries : List Entry) → Keeps I (process_join_events event_id entries)
  unfolding process_join_events
  Keeps-join_events event_id entries =
      Keeps-bind _ _ (Keeps-silent _ (yield-IsSilent _))
        (λ us. Keeps-create_participants event_id us)

module _ {I : Db → Type 0} ⦃k : IsKept I⦄ (scheduler : _) (client : Client) where
  pub Keeps-state_transition :
      (event_id : Ident) (entries : List Entry)
      → Keeps I (process_state_transition scheduler client event_id entries)
  unfolding process_state_transition
  Keeps-state_transition event_id entries = Keeps-get_event event_id _ λ event.
      Hoare-first _ _ (yield-IsSilent _) λ entry. Hoare-first _ _ (yield-IsSilent _) λ state.
        Hoare-bind _ _ (Hoare-update_event event_id event _ refl) λ _.
          Hoare-if (is_final state) _ _
            (λ f.
              Keeps-bind _ _ (Keeps-silent _ (node_claim_reward-IsSilent client event_id))
                λ _. Keeps-delete_event event_id)
            (λ f. Hoare-return tt (λ db p. p))

  pub Keeps-event_failed :
      (event_id : Ident) (entries : List Entry)
      → Keeps I (process_event_failed scheduler client event_id entries)
  unfolding process_event_failed
  Keeps-event_failed event_id entries = Keeps-bind _ _ (Keeps-silent _ (yield-IsSilent _)) λ entry.
      Keeps-bind _ _ (Keeps-silent _ (yield-IsSilent _)) λ reason. Keeps-delete_event event_id

  pub Keeps-schedule : (j : Job) → Keeps I (schedule scheduler client j)
  unfolding schedule add_job
  Keeps-schedule j =
      Hoare-if scheduler _ _ (λ s. Keeps-silent _ (change_node-IsSilent (add_job j) (λ n. refl)))
        (λ s. Hoare-throw _ (λ db p. p))

  pub Keeps-validation_start :
      (event_id : Ident) (entries : List Entry)
      → Keeps I (process_validation_start scheduler client event_id entries)
  unfolding process_validation_start
  Keeps-validation_start event_id entries =
      Keeps-bind _ _ (Keeps-silent _ (yield-IsSilent _)) λ entry.
        Keeps-get_event event_id _ λ event. Hoare-first _ _ (ask-IsSilent _) λ state.
          Hoare-if (not (eqb state 1)) _ _ (λ f. Hoare-unread (Hoare-return tt (λ db p. p)))
            (λ t. Hoare-first _ _ (yield-IsSilent _) λ round.
              Hoare-bind _ _ (Hoare-update_event event_id event _ refl) λ _.
                Hoare-if (not scheduler) _ _ (λ f. Hoare-return tt (λ db p. p))
                  (λ s.
                    Hoare-if (not event.is_master_node) _ _ (λ n. Keeps-schedule _)
                      (λ m. Hoare-return tt (λ db p. p))))

  pub Keeps-validation_restart :
      (event_id : Ident) (entries : List Entry)
      → Keeps I (process_validation_restart scheduler client event_id entries)
  unfolding process_validation_restart
  Keeps-validation_restart event_id entries =
      Keeps-bind _ _ (Keeps-silent _ (yield-IsSilent _)) λ entry.
        Keeps-get_event event_id _ λ event. Hoare-first _ _ (yield-IsSilent _) λ round.
          Hoare-first _ _ (yield-IsSilent _) λ master.
            Hoare-bind _ _ (Hoare-update_event event_id event _ refl) λ _.
              Hoare-if (not scheduler) _ _ (λ f. Hoare-return tt (λ db p. p))
                (λ s.
                  Hoare-if (eqb client.default_account master) _ _ (λ m. Keeps-schedule _)
                    (λ n. Hoare-return tt (λ db p. p)))

  pub Keeps-entries :
      (name : FilterName) (event_id : Ident) (entries : List Entry)
      → Keeps I (process_entries scheduler client name event_id entries)
  unfolding process_entries
  Keeps-entries join_event event_id entries = Keeps-join_events event_id entries
  Keeps-entries state_transition event_id entries = Keeps-state_transition event_id entries
  Keeps-entries error_event event_id entries = Hoare-return tt (λ db p. p)
  Keeps-entries validation_started event_id entries = Keeps-validation_start event_id entries
  Keeps-entries validation_restart event_id entries = Keeps-validation_restart event_id entries
  Keeps-entries event_failed event_id entries = Keeps-event_failed event_id entries
  Keeps-entries dispute_triggered event_id entries = Hoare-return tt (λ db p. p)
  Keeps-entries new_verity_event event_id entries = Hoare-throw _ (λ db p. p)
