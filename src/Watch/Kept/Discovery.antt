-- ===== src/Watch/Kept/Discovery.antt =====
-- A new event and its filters (Watch.Discovery), against the laws of Database.Kept.
use validation_node.Prelude.{ℕ, Bool, not, Option, none, some, List, [], ◌∷◌, ◌≡◌, refl, ltb, ◌+◌}
use validation_node.Database.Schema.{Ident, VerityEvent, FilterName, Db, Result, ok, raise}
use validation_node.Database.Kept.{IsKept}
use validation_node.Node.{
  put_not_reached_job, put_application_job, add_job, remove_consensus_not_reached_job,
}
use validation_node.Effects.Hoare.{
  Hoare, Keeps, IsSilent, Keeps-bind, Hoare-bind, Hoare-return, Hoare-throw, Hoare-if, Hoare-silent,
  Hoare-attempt, Post, bind-IsSilent, ask-IsSilent, return-IsSilent, yield-IsSilent,
  change_node-IsSilent,
}
use validation_node.Client.{Client, EventTimes}
use validation_node.Watch.Handlers.{when_some}
use validation_node.Watch.Answers.{consensus_answers_from_contract}
use validation_node.Watch.Discovery.{
  event_filters, is_skipped, is_empty, init_event_filter, init_filters, init_event_filters,
  read_event, call_event_contract, call_event_contract_for_metadata, is_node_registered_on_event,
  schedule_consensus_not_reached_job, schedule_post_application_end_time_job, set_up_event,
  add_event, init_event, option_of,
}
use validation_node.Watch.Kept.{
  Stored, Hoare-create_event, Keeps-get_event, Hoare-get_event, Keeps-metadata,
  Keeps-update_metadata, Keeps-create_filter, Hoare-unread, Hoare-first, Keeps-silent,
}
use validation_node.Watch.Kept.Handlers.{
  Keeps-entries, current_time-IsSilent, node_claim_reward-IsSilent,
}

-- What the contract says of an event is said of that id, or nothing is said.
abbrev IsOf : Ident → Option VerityEvent → Type 0
IsOf event_id none = Unit
IsOf event_id (some event) = event.event_id ≡ event_id

module _ (scheduler : Bool) (client : Client) where
  Hoare-read_event :
      {P E : Db → Type 0} (id state : ℕ) (times : EventTimes)
      → ((db : Db) → P db → E db)
      → Hoare P (λ found db. IsOf id found × P db) E (read_event scheduler client id state times)
  unfolding read_event
  Hoare-read_event id state times k = Hoare-bind _ _ (Hoare-silent _ (ask-IsSilent _) k) λ owner.
      Hoare-bind _ _ (Hoare-silent _ (ask-IsSilent _) k) λ token.
        Hoare-bind _ _ (Hoare-silent _ (ask-IsSilent _) k) λ nodes.
          Hoare-bind _ _ (Hoare-silent _ (ask-IsSilent _) k) λ name.
            Hoare-bind _ _ (Hoare-silent _ (ask-IsSilent _) k) λ hash.
              Hoare-bind _ _ (Hoare-silent _ (ask-IsSilent _) k) λ master.
                Hoare-bind _ _ (Hoare-silent _ (ask-IsSilent _) k) λ rules.
                  Hoare-bind _ _ (Hoare-silent _ (ask-IsSilent _) k) λ round.
                    Hoare-bind _ _ (Hoare-silent _ (ask-IsSilent _) k) λ dispute.
                      Hoare-bind _ _ (Hoare-silent _ (ask-IsSilent _) k)
                        λ staking. Hoare-return _ (λ db p. (refl, p))

  Hoare-call :
      {P E : Db → Type 0} (id : ℕ)
      → ((db : Db) → P db → E db)
      → Hoare P (λ found db. IsOf id found × P db) E (call_event_contract scheduler client id)
  unfolding call_event_contract
  Hoare-call id k = Hoare-bind _ _ (Hoare-silent _ (ask-IsSilent _) k) λ state.
      Hoare-if (ltb 2 state) _ _ (λ e. Hoare-return none (λ db p. (tt, p)))
        (λ s. Hoare-bind _ _ (Hoare-silent _ (ask-IsSilent _) k) λ times.
          Hoare-bind _ _ (Hoare-silent _ (current_time-IsSilent client) k) λ now.
            Hoare-if (ltb times.event_end_time now) _ _ (λ e. Hoare-return none (λ db p. (tt, p)))
              (λ o. Hoare-read_event id state times k))

  Hoare-call_for_metadata :
      {P E : Db → Type 0} (id : ℕ)
      → Hoare P
          (λ found db. IsOf id found × P db)
          E
          (call_event_contract_for_metadata scheduler client id)
  unfolding call_event_contract_for_metadata
  Hoare-call_for_metadata {P} {E} id =
      Hoare-bind _ _ (Hoare-attempt _ (Hoare-call id (λ db p. p)))
        λ r. Hoare-return (option_of r) (λ db p. branch r db p)
    where
      branch :
          (r : Result (Option VerityEvent)) (db : Db)
          → Post (λ found db. IsOf id found × P db) P r db
          → IsOf id (option_of r) × P db
      branch (ok found) db p = p
      branch (raise e) db p = (tt, p)

  is_registered-IsSilent :
      (event_id : Ident) → IsSilent (is_node_registered_on_event scheduler client event_id)
  unfolding is_node_registered_on_event
  is_registered-IsSilent event_id = bind-IsSilent _ _ (ask-IsSilent _) λ node_ids. return-IsSilent _

  answers-IsSilent : (event_id : Ident) → IsSilent (consensus_answers_from_contract client event_id)
  unfolding consensus_answers_from_contract
  answers-IsSilent event_id = bind-IsSilent _ _ (ask-IsSilent _) λ results. yield-IsSilent _

module _ {I : Db → Type 0} ⦃k : IsKept I⦄ (scheduler : Bool) (client : Client) where
  pub Keeps-init_filter :
      (name : FilterName) (event_id : Ident)
      → Keeps I (init_event_filter scheduler client name event_id)
  unfolding init_event_filter
  Keeps-init_filter name event_id = Keeps-get_event event_id _ λ event. Hoare-unread (
      Keeps-bind _ _ (Keeps-metadata event) λ m.
        Keeps-bind _ _ (Keeps-silent _ (ask-IsSilent _)) λ filter_id.
          Keeps-bind _ _ (Keeps-create_filter event_id filter_id name) λ _.
            Keeps-bind _ _ (Keeps-silent _ (ask-IsSilent _)) λ entries.
              Hoare-if (is_skipped name) _ _ (λ s. Hoare-return tt (λ db p. p))
                (λ n.
                  Hoare-if (is_empty entries) _ _ (λ e. Hoare-return tt (λ db p. p))
                    (λ e. Keeps-entries scheduler client name event_id entries)))

  Keeps-init_filters :
      (names : List FilterName) (event_id : Ident)
      → Keeps I (init_filters scheduler client names event_id)
  unfolding init_filters
  Keeps-init_filters [] event_id = Hoare-return tt (λ db p. p)
  Keeps-init_filters (name ∷ names) event_id =
      Keeps-bind _ _ (Keeps-init_filter name event_id) λ _. Keeps-init_filters names event_id

  Keeps-not_reached_job :
      (event_id : Ident) (time : ℕ)
      → Keeps I (schedule_consensus_not_reached_job scheduler client event_id time)
  unfolding schedule_consensus_not_reached_job put_not_reached_job add_job
      remove_consensus_not_reached_job
  Keeps-not_reached_job event_id time =
      Hoare-if scheduler _ _
        (λ s.
          Keeps-silent _
            (change_node-IsSilent (put_not_reached_job event_id (time + 60)) (λ n. refl)))
        (λ s. Hoare-throw _ (λ db p. p))

  Keeps-application_job :
      (event_id : Ident) (time : ℕ)
      → Keeps I (schedule_post_application_end_time_job scheduler client event_id time)
  unfolding schedule_post_application_end_time_job put_application_job add_job
  Keeps-application_job event_id time =
      Keeps-bind _ _ (Keeps-silent _ (current_time-IsSilent client)) λ now.
        Hoare-if (ltb (time + 60) now) _ _ (λ l. Hoare-return tt (λ db p. p))
          (λ l.
            Hoare-if scheduler _ _
              (λ s.
                Keeps-silent _
                  (change_node-IsSilent (put_application_job event_id (time + 60)) (λ n. refl)))
              (λ s. Hoare-throw _ (λ db p. p)))

  -- The event is new.
  Hoare-set_up :
      (event : VerityEvent) (event_id : Ident) (block : ℕ)
      → Hoare
          (λ db. (event.event_id ≡ event_id) × Stored I event_id none db)
          (λ _. I)
          I
          (set_up_event scheduler client event event_id block)
  unfolding set_up_event init_event_filters
  Hoare-set_up event event_id block = Hoare-bind _ _ (Hoare-create_event event_id event) λ _.
      Keeps-bind _ _ (Keeps-metadata event) λ m.
        Keeps-bind _ _ (Keeps-silent _ (answers-IsSilent scheduler client event_id)) λ answers.
          Keeps-bind _ _ (Keeps-update_metadata _) λ _.
            Keeps-bind _ _ (Keeps-init_filters event_filters event.event_id) λ _.
              Keeps-bind _ _ (Keeps-application_job event_id event.application_end_time)
                λ _. Keeps-not_reached_job event_id event.event_end_time

  Hoare-add_event :
      (stored : Option VerityEvent) (event_id : Ident) (block : ℕ)
      → Hoare
          (Stored I event_id stored)
          (λ _. I)
          I
          (add_event scheduler client stored event_id block)
  unfolding add_event
  Hoare-add_event (some event) event_id block = Hoare-return tt (λ db p. p.0)
  Hoare-add_event none event_id block =
      Hoare-first _ _ (node_claim_reward-IsSilent client event_id)
        λ _. Hoare-bind _ _ (Hoare-call_for_metadata scheduler client event_id) branch
    where
      branch :
          (found : Option VerityEvent)
          → Hoare
              (λ db. IsOf event_id found × Stored I event_id none db)
              (λ _. I)
              I
              (when_some found λ event. set_up_event scheduler client event event_id block)
      branch none = Hoare-return tt (λ db p. p.1.0)
      branch (some event) = Hoare-set_up event event_id block

  pub Keeps-init_event :
      (event_id : Ident) (block : ℕ) → Keeps I (init_event scheduler client event_id block)
  unfolding init_event
  Keeps-init_event event_id block =
      Keeps-bind _ _ (Keeps-silent _ (is_registered-IsSilent scheduler client event_id))
        λ registered.
          Hoare-if (not registered) _ _ (λ n. Hoare-return tt (λ db p. p))
            (λ y. Hoare-get_event event_id _ λ stored. Hoare-add_event stored event_id block)
