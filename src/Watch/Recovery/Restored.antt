-- ===== src/Watch/Recovery/Restored.antt =====
-- What a successful recovery of all filters comes to (`recover_all_filters` of
-- app/events/verity_event_filters.py).
use mathlib.Core.List.{append_assoc}
use validation_node.Prelude.{
  Bool, true, false, not, Option, none, some, List, [], ◌∷◌, ◌++◌, append-nil, map, ◌≡◌, sym, inl,
  inr, ap, ◌∙◌, subst, if◌then◌else◌,
}
use validation_node.Prelude.Eq.{nat_eq}
use validation_node.Prelude.Dict.{update_self}
use validation_node.Database.Schema.{
  Ident, VerityEvent, FilterEntry, FilterName, Db, Result, ok, raise,
}
use validation_node.Database.Events.{metadata}
use validation_node.Database.Filters
use validation_node.Database.Filters.{filter_dict}
use validation_node.Effects.{World, return}
use validation_node.Effects.Hoare.{
  Hoare, Post, Hoare-bind, Hoare-return, Hoare-if, Hoare-mono, Hoare-change, Hoare-access,
  Hoare-attempt, ask-IsSilent,
}
use validation_node.Client.{Client}
use validation_node.Watch.Handlers.{is_final}
use validation_node.Watch.Discovery.{event_filters, is_skipped, is_empty, init_event_filter}
use validation_node.Watch.Recovery.{
  is_success, reinstall_filter, recover_filter, recover_each, recover_all_filters,
}
use validation_node.Watch.Recovery.Entries.{
  Names, Restored, Anything, Hoare-first, Hoare-done, Hoare-entries,
}
use validation_node.Watch.Recovery.Reads.{
  Claim, claimed, filters-metadata, names-create, uninstall_list-IsSilent, Reads, Hoare-read_event,
  Hoare-when_some, Restored-Names, over-Restored,
}

module _ (scheduler : Bool) (client : Client) (event_id : Ident) where
  Hoare-init_filter :
      (name : FilterName) (done : List FilterName)
      → Hoare
          (Names event_id done)
          (λ _. Restored event_id (done ++ name ∷ []))
          Anything
          (init_event_filter scheduler client name event_id)
  unfolding init_event_filter
  Hoare-init_filter name done = Hoare-read_event event_id _ λ found.
      Hoare-when_some (Reads event_id (Names event_id done)) _ found (λ db p. inl (rw p.1 tt))
        λ event.
          Hoare-bind _ _
            (Hoare-access {Q = λ _. Names event_id done} (metadata event)
              (λ db p. ap (map (λ e. e.filter_name)) (filters-metadata event db event_id) ∙ p.0))
            λ m. Hoare-first _ _ (ask-IsSilent _) λ filter_id.
              Hoare-bind _ _
                (Hoare-change {Q = Names event_id (done ++ name ∷ [])}
                  (Filters.create event_id filter_id name)
                  (λ db p. names-create event_id filter_id name db ∙ ap (λ ns. ns ++ name ∷ []) p))
                λ _. Hoare-first _ _ (ask-IsSilent _) λ entries.
                  Hoare-if (is_skipped name) _ _ (λ s. Hoare-done event_id (done ++ name ∷ []))
                    (λ n.
                      Hoare-if (is_empty entries) _ _ (λ e. Hoare-done event_id (done ++ name ∷ []))
                        (λ e.
                          Hoare-entries event_id (done ++ name ∷ []) scheduler client name entries))

  Hoare-reinstall :
      (name : FilterName) (done : List FilterName)
      → Hoare
          (Names event_id done)
          (λ _. Restored event_id (done ++ name ∷ []))
          Anything
          (reinstall_filter scheduler client event_id name none)
  unfolding reinstall_filter
  Hoare-reinstall name done =
      Hoare-bind _ _ (Hoare-change {Q = Names event_id done} _ (λ db p. p))
        λ _. Hoare-bind _ _ (Hoare-init_filter name done) λ _. Hoare-return true (λ db p. p)

  Hoare-recover_filter :
      (name : FilterName) (done : List FilterName)
      → Hoare
          (Restored event_id done)
          (λ b db. Claim b (Restored event_id (done ++ name ∷ []) db))
          Anything
          (recover_filter scheduler client event_id name none)
  unfolding recover_filter
  Hoare-recover_filter name done =
      Hoare-bind _ _ (Hoare-attempt _ (Hoare-read_event event_id _ branch))
        λ r. Hoare-return (is_success r) (claim r)
    where
      more : List FilterName
      more = done ++ name ∷ []

      branch :
          (found : Option VerityEvent)
          → Hoare
              (Reads event_id (Restored event_id done) found)
              (λ b db. Claim b (Restored event_id more db))
              Anything
              (elim found [
                | none ↦ return true
                | some event ↦
                    if is_final event.state
                    then return true
                    else reinstall_filter scheduler client event_id name none
              ])
      branch none = Hoare-return true (λ db p. over-Restored event_id done more db none tt p)
      branch (some event) =
          Hoare-if (is_final event.state) _ _
            (λ f. Hoare-return true (λ db p. over-Restored event_id done more db (some event) f p))
            (λ n.
              Hoare-mono (Hoare-reinstall name done)
                (λ db p. Restored-Names event_id done event db n p) (λ b db p. claimed b p))

      claim :
          (r : Result Bool) (db : Db)
          → Post (λ b db. Claim b (Restored event_id more db)) Anything r db
          → Claim (is_success r) (Restored event_id more db)
      claim (ok b) db p = p
      claim (raise e) db p = tt

  Hoare-recover_each :
      (left done : List FilterName)
      → Hoare
          (Restored event_id done)
          (λ b db. Claim b (Restored event_id (done ++ left) db))
          Anything
          (recover_each scheduler client left event_id)
  unfolding recover_each
  Hoare-recover_each [] done =
      Hoare-return true (λ db p. subst (λ ns. Restored event_id ns db) (sym (append-nil done)) p)
  Hoare-recover_each (name ∷ left) done =
      Hoare-bind _ _ (Hoare-recover_filter name done)
        (next (Hoare-recover_each left (done ++ name ∷ [])))
    where
      next :
          Hoare
            (Restored event_id (done ++ name ∷ []))
            (λ b db. Claim b (Restored event_id (done ++ name ∷ [] ++ left) db))
            Anything
            (recover_each scheduler client left event_id)
          → (success : Bool)
          → Hoare
              (λ db. Claim success (Restored event_id (done ++ name ∷ []) db))
              (λ b db. Claim b (Restored event_id (done ++ (name ∷ left)) db))
              Anything
              (if not success then return false else recover_each scheduler client left event_id)
      next h false = Hoare-return false (λ db p. tt)
      next h true =
          subst
            (λ ns.
              Hoare (Restored event_id (done ++ name ∷ []))
                (λ b db. Claim b (Restored event_id ns db)) Anything
                (recover_each scheduler client left event_id))
            (append_assoc done (name ∷ []) left) h

  Hoare-recover_all :
      (entries : Option (List FilterEntry))
      → Hoare Anything
          (λ b db. Claim b (Restored event_id event_filters db))
          Anything
          (recover_all_filters scheduler client event_id entries)
  unfolding recover_all_filters Filters.delete
  Hoare-recover_all entries = Hoare-first _ _ (uninstall_list-IsSilent entries) λ _.
      Hoare-bind _ _
        (Hoare-change {Q = Restored event_id []} (Filters.delete event_id)
          (λ db p. inr (ap (map (λ e. e.filter_name)) (update_self event_id [] db.filters))))
        λ _. Hoare-recover_each event_filters []

  -- When the recovery of all filters succeeds, the database lists one filter for each contract event that the
  -- node follows, in their order, unless the event was deleted meanwhile or is in a final state.
  pub recover_all_filters-Restored :
      (entries : Option (List FilterEntry)) (w : World)
      → (recover_all_filters scheduler client event_id entries w).0 ≡ ok true
      → Restored event_id event_filters
          (recover_all_filters scheduler client event_id entries w).1.node.db
  recover_all_filters-Restored entries w success =
      subst
        (λ r.
          Post (λ b db. Claim b (Restored event_id event_filters db)) Anything r
            (recover_all_filters scheduler client event_id entries w).1.node.db)
        success ((Hoare-recover_all entries).after w tt)
