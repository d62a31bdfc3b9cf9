-- ===== src/Watch/Recovery/Entries.antt =====
-- The filters of an event through the handlers of entries: they stay, unless the event is deleted.
use validation_node.Prelude.{
  Bool, true, not, Option, none, some, List, map, eqb, ◌≡◌, refl, ◌⊎◌, inl, inr,
}
use validation_node.Prelude.Eq.{nat_eq}
use validation_node.Database.Schema.{
  Ident, VerityEvent, FilterName, join_event, state_transition, error_event, validation_started,
  validation_restart, dispute_triggered, event_failed, new_verity_event, Db,
}
use validation_node.Database.Events.{update_event, create_participants}
use validation_node.Database.Events.Index.{events-delete}
use validation_node.Node.{Job, add_job}
use validation_node.Effects.{M, ◌>>=◌, access_db, change_db}
use validation_node.Effects.Hoare.{
  Hoare, IsSilent, Hoare-bind, Hoare-return, Hoare-throw, Hoare-if, Hoare-mono, Hoare-read,
  Hoare-change, Hoare-access, Hoare-uninstall, Hoare-silent, ask-IsSilent, yield-IsSilent,
  change_node-IsSilent,
}
use validation_node.Client.{Client, Entry}
use validation_node.Watch.Handlers.{
  is_final, when_some, get_event, delete_event, process_join_events, process_state_transition,
  process_event_failed, schedule, process_validation_start, process_validation_restart,
  process_entries,
}
use validation_node.Watch.Kept.Handlers.{node_claim_reward-IsSilent}

-- The event is missing, or in a final state.
abbrev pub IsOver : Option VerityEvent → Type 0
IsOver none = Unit
IsOver (some event) = is_final event.state ≡ true

-- The names of the filters that the database lists for an event, in order.
abbrev pub names : Ident → Db → List FilterName
names event_id db = map (λ e. e.filter_name) (db.filters event_id)

-- Each of the filters is listed, in order, unless the event is over.
abbrev pub Restored : Ident → List FilterName → Db → Type 0
Restored event_id done db = IsOver (db.events event_id) ⊎ (names event_id db ≡ done)

-- Of an action that raises nothing is said.
abbrev pub Anything : Db → Type 0
Anything db = Unit

abbrev pub Names : Ident → List FilterName → Db → Type 0
Names event_id done db = names event_id db ≡ done

pub Hoare-delete_event :
    {P : Db → Type 0} (event_id : Ident) (done : List FilterName)
    → Hoare P (λ _. Restored event_id done) Anything (delete_event event_id)
unfolding delete_event
Hoare-delete_event {P} event_id done =
    Hoare-bind _ _ (Hoare-access _ (λ db p. events-delete event_id db)) (λ entries.
      Hoare-mono (Hoare-uninstall {P = λ db. db.events event_id ≡ none} _) (λ db p. p)
        (λ _ db p. inl (rw p tt)))

module _ {P : Db → Type 0} {A B : Type 0} {Q : B → Db → Type 0} where
  -- An action that leaves the database alone comes first.
  pub Hoare-first :
      (m : M A) (f : A → M B)
      → IsSilent m
      → ((a : A) → Hoare P Q Anything (f a))
      → Hoare P Q Anything (m >>= f)
  Hoare-first m f silent h = Hoare-bind m f (Hoare-silent m silent (λ db p. tt)) h

module _ (event_id : Ident) (done : List FilterName) where
  -- Nothing was done to the filters.
  pub Hoare-same :
      {A : Type 0} (m : M A)
      → IsSilent m
      → Hoare (Names event_id done) (λ (a : A). Restored event_id done) Anything m
  Hoare-same m silent =
      Hoare-mono (Hoare-silent m silent (λ db p. tt)) (λ db p. p) (λ a db p. inr p)

  pub Hoare-done :
      Hoare
        (Names event_id done)
        (λ _. Restored event_id done)
        Anything
        (validation_node.Effects.return tt)
  Hoare-done = Hoare-return tt (λ db p. inr p)

  Hoare-stored :
      (event : VerityEvent)
      → Hoare
          (Names event_id done)
          (λ _. Names event_id done)
          Anything
          (change_db (update_event event))
  unfolding update_event
  Hoare-stored event = Hoare-change (update_event event) (λ db p. p)

  Hoare-found :
      (f : VerityEvent → M (Unit {0}))
      → ((event : VerityEvent)
          → Hoare (Names event_id done) (λ _. Restored event_id done) Anything (f event))
      → Hoare
          (Names event_id done)
          (λ _. Restored event_id done)
          Anything
          (get_event event_id >>= λ found. when_some found f)
  unfolding get_event
  Hoare-found f h = Hoare-bind _ _ (Hoare-read {Q = λ _. Names event_id done} _ (λ db p. p)) branch
    where
      branch :
          (found : Option VerityEvent)
          → Hoare (Names event_id done) (λ _. Restored event_id done) Anything (when_some found f)
      branch none = Hoare-done
      branch (some event) = h event

  module _ (scheduler : Bool) (client : Client) where
    Hoare-schedule :
        (j : Job)
        → Hoare
            (Names event_id done)
            (λ _. Restored event_id done)
            Anything
            (schedule scheduler client j)
    unfolding schedule add_job
    Hoare-schedule j =
        Hoare-if scheduler _ _ (λ s. Hoare-same _ (change_node-IsSilent (add_job j) (λ n. refl)))
          (λ s. Hoare-throw _ (λ db p. tt))

    -- The handlers leave the filters as they are, but where they delete the event.
    pub Hoare-entries :
        (name : FilterName) (entries : List Entry)
        → Hoare
            (Names event_id done)
            (λ _. Restored event_id done)
            Anything
            (process_entries scheduler client name event_id entries)
    unfolding process_entries process_join_events process_state_transition process_event_failed
        process_validation_start process_validation_restart create_participants
    Hoare-entries join_event entries =
        Hoare-first _ _ (yield-IsSilent _)
          λ us. Hoare-change (create_participants event_id us) (λ db p. inr p)
    Hoare-entries state_transition entries = Hoare-found _ λ event.
        Hoare-first _ _ (yield-IsSilent _) λ entry. Hoare-first _ _ (yield-IsSilent _) λ state.
          Hoare-bind _ _ (Hoare-stored _) λ _.
            Hoare-if (is_final state) _ _
              (λ f.
                Hoare-first _ _ (node_claim_reward-IsSilent client event_id)
                  λ _. Hoare-delete_event event_id done)
              (λ f. Hoare-done)
    Hoare-entries error_event entries = Hoare-done
    Hoare-entries validation_started entries = Hoare-first _ _ (yield-IsSilent _) λ entry.
        Hoare-found _ λ event. Hoare-first _ _ (ask-IsSilent _) λ state.
          Hoare-if (not (eqb state 1)) _ _ (λ f. Hoare-done)
            (λ t. Hoare-first _ _ (yield-IsSilent _) λ round. Hoare-bind _ _ (Hoare-stored _) λ _.
              Hoare-if (not scheduler) _ _ (λ f. Hoare-done)
                (λ s.
                  Hoare-if (not event.is_master_node) _ _ (λ n. Hoare-schedule _)
                    (λ m. Hoare-done)))
    Hoare-entries validation_restart entries = Hoare-first _ _ (yield-IsSilent _) λ entry.
        Hoare-found _ λ event. Hoare-first _ _ (yield-IsSilent _) λ round.
          Hoare-first _ _ (yield-IsSilent _) λ master. Hoare-bind _ _ (Hoare-stored _) λ _.
            Hoare-if (not scheduler) _ _ (λ f. Hoare-done)
              (λ s.
                Hoare-if (eqb client.default_account master) _ _ (λ m. Hoare-schedule _)
                  (λ n. Hoare-done))
    Hoare-entries event_failed entries =
        Hoare-first _ _ (yield-IsSilent _)
          λ entry. Hoare-first _ _ (yield-IsSilent _) λ reason. Hoare-delete_event event_id done
    Hoare-entries dispute_triggered entries = Hoare-done
    Hoare-entries new_verity_event entries = Hoare-throw _ (λ db p. tt)
