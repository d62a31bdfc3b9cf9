-- ===== src/Watch/Kept/Jobs.antt =====
-- The jobs that read the filters (Watch.Rounds), against the laws of Database.Kept.
use validation_node.Prelude.{
  ◌+◌, Bool, true, not, ◌&&◌, Option, none, some, List, [], ◌∷◌, length, eqb, refl,
}
use validation_node.Database.Schema.{
  Ident, VerityEventMetadata, FilterEntry, FilterName, join_event, Result, ok, raise, Db,
}
use validation_node.Database.Kept.{IsKept}
use validation_node.Database.Filters.{same_name}
use validation_node.Node.{Job, add_job}
use validation_node.Effects.{M}
use validation_node.Effects.Hoare.{
  Keeps, Keeps-bind, Hoare-return, Hoare-throw, read-IsSilent, Hoare-if, Keeps-attempt,
  ask-IsSilent, change_node-IsSilent,
}
use validation_node.Client.{Client, Entry}
use validation_node.Watch.Discovery.{event_filters}
use validation_node.Watch.Rounds.{
  is_always_due, is_known, Failure, lost_filter, lost_connection, unexpected, failure_of,
  should_apply_filter, schedule_post_unexpected_exception_job, report, process_failure,
  process_answer, process_filters, process_filters_for_event, filter_event, filter_each,
  filter_events, post_unexpected_exception_job, recover_join_filter, post_application_end_time_job,
}
use validation_node.Watch.Kept.{
  Keeps-get_event, Hoare-get_event, Keeps-metadata, Keeps-update_metadata, Hoare-unread,
  Keeps-silent,
}
use validation_node.Watch.Kept.Handlers.{current_time-IsSilent, send_transaction-IsSilent}
use validation_node.Watch.Kept.Recovery.{Keeps-process, Keeps-recover_filter, Keeps-recover_all}

module _ {I : Db → Type 0} ⦃k : IsKept I⦄ (scheduler : Bool) (client : Client) where
  Keeps-should_apply :
      (name : FilterName) (event_id : Ident)
      → Keeps I (should_apply_filter scheduler client name event_id)
  unfolding should_apply_filter
  Keeps-should_apply name event_id =
      Hoare-if (is_always_due name) _ _ (λ a. Hoare-return true (λ db p. p))
        (λ n.
          Keeps-bind _ _ (Keeps-silent _ (current_time-IsSilent client))
            λ now. Hoare-get_event event_id _ λ found. Hoare-unread (Hoare-return _ (λ db p. p)))

  Keeps-schedule_post :
      (event_id : Ident) (m : VerityEventMetadata) (entries : Option (List FilterEntry))
      → Keeps I (schedule_post_unexpected_exception_job scheduler client event_id m entries)
  unfolding schedule_post_unexpected_exception_job add_job
  Keeps-schedule_post event_id m entries = Keeps-bind _ _ (Keeps-update_metadata _) λ _.
      Keeps-bind _ _ (Keeps-silent _ (current_time-IsSilent client)) λ now.
        Hoare-if scheduler _ _
          (λ s. Keeps-silent _ (
            change_node-IsSilent
              (add_job (Job.post_unexpected_exception event_id entries (now + 300))) (λ n. refl)))
          (λ s. Hoare-throw _ (λ db p. p))

  Keeps-report :
      (event_id : Ident) (m : VerityEventMetadata) (entries : List FilterEntry)
      → Keeps I (report scheduler client event_id m entries)
  unfolding report
  Keeps-report event_id m entries =
      Hoare-if m.filters_exception_reported _ _ (λ r. Keeps-schedule_post event_id m (some entries))
        (λ n.
          Keeps-bind _ _ (Keeps-update_metadata _)
            λ _. Keeps-schedule_post event_id _ (some entries))

  Keeps-failure :
      (f : Failure) (event_id : Ident) (e : FilterEntry) (entries : List FilterEntry)
      (m : VerityEventMetadata) (rest : M (Unit {0}))
      → Keeps I rest
      → Keeps I (process_failure scheduler client f event_id e entries m rest)
  unfolding process_failure
  Keeps-failure lost_filter event_id e entries m rest h =
      Keeps-bind _ _
        (Keeps-recover_filter scheduler client event_id e.filter_name (some e.filter_id)) λ _. h
  Keeps-failure lost_connection event_id e entries m rest h =
      Keeps-bind _ _ (Keeps-recover_all scheduler client event_id (some entries))
        λ _. Hoare-return tt (λ db p. p)
  Keeps-failure unexpected event_id e entries m rest h = Keeps-report event_id m entries

  Keeps-answer :
      (r : Result (List Entry)) (event_id : Ident) (e : FilterEntry) (entries : List FilterEntry)
      (m : VerityEventMetadata) (rest : M (Unit {0}))
      → Keeps I rest
      → Keeps I (process_answer scheduler client r event_id e entries m rest)
  unfolding process_answer
  Keeps-answer (raise x) event_id e entries m rest h =
      Keeps-failure (failure_of x) event_id e entries m rest h
  Keeps-answer (ok []) event_id e entries m rest h = h
  Keeps-answer (ok (x ∷ xs)) event_id e entries m rest h =
      Keeps-bind _ _ (Keeps-process scheduler client e.filter_name event_id (x ∷ xs)) λ _. h

  Keeps-filters :
      (es : List FilterEntry) (event_id : Ident) (entries : List FilterEntry)
      (m : VerityEventMetadata)
      → Keeps I (process_filters scheduler client es event_id entries m)
  unfolding process_filters
  Keeps-filters [] event_id entries m = Hoare-return tt (λ db p. p)
  Keeps-filters (e ∷ es) event_id entries m =
      let rest = Keeps-filters es event_id entries m in
      Hoare-if (not (is_known e.filter_name)) _ _ (λ u. Hoare-throw _ (λ db p. p))
        (λ k. Keeps-bind _ _ (Keeps-should_apply e.filter_name event_id) λ due.
          Hoare-if (not due) _ _ (λ n. rest)
            (λ d.
              Keeps-bind _ _ (Keeps-attempt _ (Keeps-silent _ (ask-IsSilent _)))
                λ answer. Keeps-answer answer event_id e entries m _ rest))

  Keeps-filter_event : (event_id : Ident) → Keeps I (filter_event scheduler client event_id)
  unfolding filter_event process_filters_for_event
  Keeps-filter_event event_id = Keeps-bind _ _ (Keeps-silent _ (read-IsSilent _)) λ entries.
      Keeps-get_event event_id _ λ event. Hoare-unread (
        Keeps-bind _ _ (Keeps-metadata event) λ m.
          Hoare-if (not m.should_run_filters) _ _ (λ s. Hoare-return tt (λ db p. p))
            (λ r.
              Hoare-if (not (eqb (length entries) (length event_filters))) _ _
                (λ l.
                  Keeps-bind _ _ (Keeps-recover_all scheduler client event_id (some entries))
                    λ success.
                      Hoare-if (not success) _ _ (λ f. Keeps-schedule_post event_id m none)
                        (λ s. Hoare-return tt (λ db p. p)))
                (λ a. Keeps-filters entries event_id entries m)))

  Keeps-filter_each : (event_ids : List Ident) → Keeps I (filter_each scheduler client event_ids)
  unfolding filter_each
  Keeps-filter_each [] = Hoare-return tt (λ db p. p)
  Keeps-filter_each (event_id ∷ event_ids) =
      Keeps-bind _ _ (Keeps-filter_event event_id) λ _. Keeps-filter_each event_ids

  pub Keeps-filter_events : Keeps I (filter_events scheduler client)
  unfolding filter_events
  Keeps-filter_events =
      Keeps-bind _ _ (Keeps-silent _ (read-IsSilent _)) λ event_ids. Keeps-filter_each event_ids

  pub Keeps-post_unexpected :
      (event_id : Ident) (entries : Option (List FilterEntry))
      → Keeps I (post_unexpected_exception_job scheduler client event_id entries)
  unfolding post_unexpected_exception_job
  Keeps-post_unexpected event_id entries = Keeps-get_event event_id _ λ event. Hoare-unread (
      Keeps-bind _ _ (Keeps-recover_all scheduler client event_id entries)
        λ success. Keeps-bind _ _ (Keeps-metadata event) λ m. Keeps-update_metadata _)

  Keeps-join_filter :
      (entries : List FilterEntry) (event_id : Ident)
      → Keeps I (recover_join_filter scheduler client entries event_id)
  unfolding recover_join_filter
  Keeps-join_filter [] event_id = Hoare-return tt (λ db p. p)
  Keeps-join_filter (e ∷ entries) event_id =
      Hoare-if (not (same_name e.filter_name join_event)) _ _
        (λ n. Keeps-join_filter entries event_id)
        (λ s.
          Keeps-bind _ _
            (Keeps-recover_filter scheduler client event_id e.filter_name (some e.filter_id))
            λ _. Hoare-return tt (λ db p. p))

  pub Keeps-post_application :
      (event_id : Ident) → Keeps I (post_application_end_time_job scheduler client event_id)
  unfolding post_application_end_time_job
  Keeps-post_application event_id = Keeps-get_event event_id _ λ event. Hoare-unread (
      Keeps-bind _ _ (Keeps-metadata event) λ m.
        Keeps-bind _ _
          (Hoare-if (event.is_master_node && not m.is_consensus_reached) _ _
            (λ t.
              Keeps-bind _ _ (Keeps-silent _ (send_transaction-IsSilent client event_id _))
                λ _. Hoare-return tt (λ db p. p))
            (λ f. Hoare-return tt (λ db p. p)))
          λ _.
            Keeps-bind _ _ (Keeps-silent _ (read-IsSilent _))
              λ entries. Keeps-join_filter entries event_id)
