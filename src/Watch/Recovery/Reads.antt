-- ===== src/Watch/Recovery/Reads.antt =====
-- The rules for what a recovery reads of an event, and for what it claims of a success
-- (app/events/verity_event_filters.py).
use mathlib.Core.List.{map-append}
use validation_node.Prelude.{
  Bool, true, false, Option, none, some, List, [], ◌∷◌, ◌++◌, map, ◌≡◌, refl, sym, inl, inr, ap,
  ◌∙◌, subst, arith, Option-cases,
}
use validation_node.Prelude.Eq.{nat_eq}
use validation_node.Prelude.Dict.{update_self}
use validation_node.Database.Schema.{Ident, VerityEvent, FilterEntry, FilterName, Db}
use validation_node.Database.Events.{get, metadata, get_or_create, create_metadata}
use validation_node.Database.Filters
use validation_node.Database.Filters.{filter_dict}
use validation_node.Effects.{M, ◌>>=◌}
use validation_node.Effects.Hoare.{
  Hoare, Hoare-bind, Hoare-return, Hoare-read, IsSilent, return-IsSilent, uninstall-IsSilent,
}
use validation_node.Watch.Handlers.{is_final, when_some, get_event}
use validation_node.Watch.Recovery.{uninstall_list}
use validation_node.Watch.Recovery.Entries.{IsOver, names, Names, Restored, Anything}

-- What is claimed of a success.
abbrev pub Claim : Bool → Type 0 → Type 0
Claim true X = X
Claim false X = Unit

pub claimed : {X : Type 0} (b : Bool) → X → Claim b X
claimed true x = x
claimed false x = tt

pub filters-metadata :
    (event : VerityEvent) (db : Db) (id : Ident) → (metadata event db).1.filters id ≡ db.filters id
unfolding metadata get_or_create create_metadata
filters-metadata event db id = ground (arith, Option-cases (db.metadata event.event_id))

pub names-create :
    (event_id filter_id : Ident) (name : FilterName) (db : Db)
    → names event_id (Filters.create event_id filter_id name db) ≡ names event_id db ++ name ∷ []
unfolding Filters.create filter_dict
names-create event_id filter_id name db =
    ap (map (λ e. e.filter_name)) (update_self event_id (db.filters event_id ++ _ ∷ []) db.filters)
    ∙ map-append (λ e. e.filter_name) (db.filters event_id) (_ ∷ [])

pub uninstall_list-IsSilent :
    (entries : Option (List FilterEntry)) → IsSilent (uninstall_list entries)
uninstall_list-IsSilent none = return-IsSilent tt
uninstall_list-IsSilent (some entries) = uninstall-IsSilent _

-- A property of the database, and what is stored at an id.
abbrev pub Reads : Ident → (Db → Type 0) → Option VerityEvent → Db → Type 0
Reads event_id P found db = P db × (db.events event_id ≡ found)

pub Hoare-read_event :
    {P : Db → Type 0} {B : Type 0} {Q : B → Db → Type 0} (event_id : Ident)
    (f : Option VerityEvent → M B)
    → ((found : Option VerityEvent) → Hoare (Reads event_id P found) Q Anything (f found))
    → Hoare P Q Anything (get_event event_id >>= f)
unfolding get_event get
Hoare-read_event {P} event_id f h =
    Hoare-bind _ _
      (Hoare-read {Q = Reads event_id P} (λ db. db.events event_id) (λ db p. (p, refl))) h

pub Hoare-when_some :
    (P : Option VerityEvent → Db → Type 0) {Q : Db → Type 0} (f : VerityEvent → M (Unit {0}))
    (found : Option VerityEvent)
    → ((db : Db) → P none db → Q db)
    → ((event : VerityEvent) → Hoare (P (some event)) (λ _. Q) Anything (f event))
    → Hoare (P found) (λ _. Q) Anything (when_some found f)
Hoare-when_some P f none h k = Hoare-return tt h
Hoare-when_some P f (some event) h k = k event

-- An event that is not over has the filters that it should have.
pub Restored-Names :
    (event_id : Ident) (done : List FilterName) (event : VerityEvent) (db : Db)
    → is_final event.state ≡ false
    → Reads event_id (Restored event_id done) (some event) db
    → Names event_id done db
Restored-Names event_id done event db n (inr same, stored) = same
Restored-Names event_id done event db n (inl over, stored) = absurd (subst IsOver stored over)
  where
    absurd : is_final event.state ≡ true → Names event_id done db
    absurd y = ground (arith, n, y)

pub over-Restored :
    (event_id : Ident) (done more : List FilterName) (db : Db) (found : Option VerityEvent)
    → IsOver found
    → Reads event_id (Restored event_id done) found db
    → Restored event_id more db
over-Restored event_id done more db found over p = inl (subst IsOver (sym p.1) over)
