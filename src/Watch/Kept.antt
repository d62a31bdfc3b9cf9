-- ===== src/Watch/Kept.antt =====
-- What the handlers and the jobs of the filters keep of the database: the rules for the actions that
-- touch it, for whatever satisfies the laws of Database.Kept.
pub mod Handlers
pub mod Discovery
pub mod Recovery
pub mod Jobs
pub mod RegistryJob
use validation_node.Prelude.{ℕ, Option, none, some, List, ◌≡◌, refl, sym, ◌∙◌, subst}
use validation_node.Database.Schema.{Ident, VerityEvent, VerityEventMetadata, FilterName, Db}
use validation_node.Database.Kept.{seen, seen-metadata, IsKept}
use validation_node.Database.Events
use validation_node.Database.Events.{
  get, update_event, create_participants, metadata, create_metadata, update_metadata,
  set_last_run_timestamp,
}
use validation_node.Database.Filters
use validation_node.Effects.{M, ◌>>=◌, change_db, access_db}
use validation_node.Effects.Hoare.{
  Hoare, Keeps, Hoare-bind, Hoare-return, Hoare-read, Hoare-change, Hoare-access, Hoare-uninstall,
  Hoare-mono, IsSilent, Hoare-silent,
}
use validation_node.Watch.Handlers.{when_some, get_event, delete_event}

-- The database has the property, and this is stored at an id.
abbrev pub Stored : (Db → Type 0) → Ident → Option VerityEvent → Db → Type 0
Stored I event_id found db = I db × (db.events event_id ≡ found)

module _ {I : Db → Type 0} where
  pub Keeps-silent : {A : Type 0} (m : M A) → IsSilent m → Keeps I m
  Keeps-silent m silent = Hoare-silent m silent (λ db p. p)

  module _ {event_id : Ident} {found : Option VerityEvent} where
    -- What was read is not needed further on.
    pub Hoare-unread :
        {A : Type 0} {Q : A → Db → Type 0} {m : M A}
        → Hoare I Q I m
        → Hoare (Stored I event_id found) Q I m
    Hoare-unread h = Hoare-mono h (λ db p. p.0) (λ a db q. q)

    -- An action that leaves the database alone comes first.
    pub Hoare-first :
        {A B : Type 0} {Q : B → Db → Type 0} (m : M A) (f : A → M B)
        → IsSilent m
        → ((a : A) → Hoare (Stored I event_id found) Q I (f a))
        → Hoare (Stored I event_id found) Q I (m >>= f)
    Hoare-first m f silent h = Hoare-bind m f (Hoare-silent m silent (λ db p. p.0)) h

  pub Hoare-get_event :
      {B : Type 0} {Q : B → Db → Type 0} (event_id : Ident) (f : Option VerityEvent → M B)
      → ((found : Option VerityEvent) → Hoare (Stored I event_id found) Q I (f found))
      → Hoare I Q I (get_event event_id >>= f)
  unfolding get_event get
  Hoare-get_event event_id f h =
      Hoare-bind (get_event event_id) f (Hoare-read (λ db. db.events event_id) (λ db p. (p, refl)))
        h

  pub Keeps-get_event :
      (event_id : Ident) (f : VerityEvent → M (Unit {0}))
      → ((event : VerityEvent) → Hoare (Stored I event_id (some event)) (λ _. I) I (f event))
      → Keeps I (get_event event_id >>= λ found. when_some found f)
  Keeps-get_event event_id f h = Hoare-get_event event_id (λ found. when_some found f) branch
    where
      branch :
          (found : Option VerityEvent)
          → Hoare (Stored I event_id found) (λ _. I) I (when_some found f)
      branch none = Hoare-return tt (λ db p. p.0)
      branch (some event) = h event

module _ {I : Db → Type 0} ⦃k : IsKept I⦄ where
  -- An event that was read may be stored with other fields.
  pub Hoare-update_event :
      (event_id : Ident) (event changed : VerityEvent)
      → changed.event_id ≡ event.event_id
      → Hoare (Stored I event_id (some event)) (λ _. I) I (change_db (update_event changed))
  Hoare-update_event event_id event changed same = Hoare-change (update_event changed) (λ db p.
      k.change event changed db
        (subst (λ id. db.events id ≡ some event) (sym (same ∙ k.named event_id event db p.1 p.0))
          p.1)
        p.0)

  -- An event that is not stored yet is added.
  pub Hoare-create_event :
      (event_id : Ident) (event : VerityEvent)
      → Hoare
          (λ db. (event.event_id ≡ event_id) × Stored I event_id none db)
          (λ _. I)
          I
          (change_db (Events.create event))
  Hoare-create_event event_id event =
      Hoare-change (Events.create event)
        (λ db p. k.add event db (subst (λ id. db.events id ≡ none) (sym p.0) p.1.1) p.1.0)

  pub Keeps-delete_event : (event_id : Ident) → Keeps I (delete_event event_id)
  unfolding delete_event
  Keeps-delete_event event_id =
      Hoare-bind _ _ (Hoare-access _ (λ db p. k.remove event_id db p))
        (λ entries. Hoare-uninstall _)

  pub Keeps-create_participants :
      (event_id : Ident) (user_ids : List Ident)
      → Keeps I (change_db (create_participants event_id user_ids))
  Keeps-create_participants event_id user_ids =
      Hoare-change (create_participants event_id user_ids) (k.join event_id user_ids)

  -- What is not seen may change.
  pub Keeps-unseen :
      (f : Db → Db)
      → ((db : Db) (id node_id : Ident) → seen id node_id (f db) ≡ seen id node_id db)
      → Keeps I (change_db f)
  Keeps-unseen f same = Hoare-change f (λ db p. k.frame db (f db) (same db) p)

  pub Keeps-metadata : (event : VerityEvent) → Keeps I (access_db (metadata event))
  Keeps-metadata event =
      Hoare-access (metadata event)
        (λ db p. k.frame db (metadata event db).1 (seen-metadata event db) p)

  pub Keeps-update_metadata : (m : VerityEventMetadata) → Keeps I (change_db (update_metadata m))
  unfolding update_metadata create_metadata
  Keeps-update_metadata m = Keeps-unseen (update_metadata m) (λ db id node_id. refl)

  pub Keeps-create_filter :
      (event_id filter_id : Ident) (name : FilterName)
      → Keeps I (change_db (Filters.create event_id filter_id name))
  unfolding Filters.create
  Keeps-create_filter event_id filter_id name =
      Keeps-unseen (Filters.create event_id filter_id name) (λ db id node_id. refl)

  pub Keeps-last_run : (now : ℕ) → Keeps I (change_db (set_last_run_timestamp now))
  unfolding set_last_run_timestamp
  Keeps-last_run now = Keeps-unseen (set_last_run_timestamp now) (λ db id node_id. refl)

  pub Keeps-delete_filters : (event_id : Ident) → Keeps I (change_db (Filters.delete event_id))
  unfolding Filters.delete
  Keeps-delete_filters event_id = Keeps-unseen (Filters.delete event_id) (λ db id node_id. refl)
