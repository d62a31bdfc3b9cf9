-- ===== src/Watch/Recovery/Discarded.antt =====
-- The votes after a dispute (`process_dispute_triggered` of app/events/verity_event_filters.py).
use validation_node.Prelude.{
  Bool, Option, none, some, List, [], ◌≡◌, refl, subst, ◌∙◌, ap, arith, eqb, eqb_iff, Bool-cases,
  inl, inr,
}
use validation_node.Database.Schema.{Ident, VerityEvent, Db, Result, ok, raise}
use validation_node.Database.Kept.{seen, IsKept}
use validation_node.Database.Events
use validation_node.Database.Events.{
  get, metadata, update_event, create_participants, delete_all_event_data,
}
use validation_node.Database.Events.Voters.{NoVotes, HasVoters}
use validation_node.Database.Events.Voters.Removal.{
  HasVoters-IsKept, remaining-delete, delete-NoneLeft, delete-HasVoters,
}
use validation_node.Effects.{World, M, access_db, ◌>>=◌}
use validation_node.Effects.Hoare.{
  Hoare, Post, Hoare-bind, Hoare-return, Hoare-access, Hoare-read, Hoare-silent, Hoare-uninstall,
  yield-IsSilent,
}
use validation_node.Client.{Client, Entry}
use validation_node.Watch.Handlers.{when_some, get_event, delete_event}
use validation_node.Watch.Recovery.{process_dispute_triggered}
use validation_node.Watch.Discovery.{init_event}
use validation_node.Watch.Kept.{Stored, Keeps-metadata, Hoare-unread}
use validation_node.Watch.Kept.Discovery.{Keeps-init_event}

-- No voter of the event is counted, and no vote on it is noted.
pub record Discarded (event_id : Ident) (db : Db) : Type 0 where
  pub others : HasVoters db
  pub no_voter : db.votes_common event_id ≡ []
  pub no_vote : db.votes_exists event_id ≡ []

module _ (event_id : Ident) where
  frame-Discarded :
      (db db' : Db)
      → ((id node_id : Ident) → seen id node_id db' ≡ seen id node_id db)
      → Discarded event_id db
      → Discarded event_id db'
  frame-Discarded db db' same d = record {
    others = HasVoters-IsKept.frame db db' same d.others;
    no_voter = ap (λ s. s.3) (same event_id 0) ∙ d.no_voter;
    no_vote = ap (λ s. s.4) (same event_id 0) ∙ d.no_vote;
  }

  change-Discarded :
      (old changed : VerityEvent) (db : Db)
      → db.events changed.event_id ≡ some old
      → Discarded event_id db
      → Discarded event_id (update_event changed db)
  unfolding update_event
  change-Discarded old changed db e d = record {
    others = HasVoters-IsKept.change old changed db e d.others;
    no_voter = d.no_voter;
    no_vote = d.no_vote;
  }

  add-Discarded :
      (event : VerityEvent) (db : Db)
      → db.events event.event_id ≡ none
      → Discarded event_id db
      → Discarded event_id (Events.create event db)
  unfolding Events.create
  add-Discarded event db e d = record {
    others = HasVoters-IsKept.add event db e d.others;
    no_voter = d.no_voter;
    no_vote = d.no_vote;
  }

  join-Discarded :
      (id : Ident) (user_ids : List Ident) (db : Db)
      → Discarded event_id db
      → Discarded event_id (create_participants id user_ids db)
  unfolding create_participants
  join-Discarded id user_ids db d = record {
    others = HasVoters-IsKept.join id user_ids db d.others;
    no_voter = d.no_voter;
    no_vote = d.no_vote;
  }

  -- After its deletion, whatever was there.
  deleted : (db : Db) → HasVoters db → Discarded event_id (delete_all_event_data event_id db).0
  deleted db h = record {
    others = delete-HasVoters event_id db h;
    no_voter = (delete-NoneLeft event_id db h).1;
    no_vote = (delete-NoneLeft event_id db h).2;
  }

  remove-Discarded :
      (id : Ident) (db : Db)
      → Discarded event_id db
      → Discarded event_id (delete_all_event_data id db).0
  remove-Discarded id db d = elim (Bool-cases (eqb event_id id)) [
    | inl same ↦
        subst (λ j. Discarded event_id (delete_all_event_data j db).0)
          ((eqb_iff event_id id).0 same) (deleted db d.others)
    | inr other ↦
        let kept = remaining-delete id db event_id 0 (ground (arith, eqb_iff event_id id)) in
        record {
          others = delete-HasVoters id db d.others;
          no_voter = ap (λ r. r.2) kept ∙ d.no_voter;
          no_vote = ap (λ r. r.3) kept ∙ d.no_vote;
        }
  ]

  Discarded-IsKept : IsKept (Discarded event_id)
  Discarded-IsKept = record {
    frame = frame-Discarded;
    named = λ id event db e d. HasVoters-IsKept.named id event db e d.others;
    change = change-Discarded;
    add = add-Discarded;
    remove = remove-Discarded;
    join = join-Discarded;
  }

-- What it leaves when it raises does not matter.
or_raises :
    {A : Type 0} {P E : Db → Type 0} {Q : A → Db → Type 0} {m : M A}
    → Hoare P Q E m
    → Hoare P Q (λ db. Unit) m
or_raises {A} {P} {E} {Q} {m} h = record { after = λ w p. go (m w).0 (m w).1.node.db (h.after w p) }
  where
    go : (r : Result A) (db : Db) → Post Q E r db → Post Q (λ db. Unit) r db
    go (ok a) db q = q
    go (raise e) db q = tt

module _ (scheduler : Bool) (client : Client) (event_id : Ident) where
  Hoare-delete : Hoare HasVoters (λ _. Discarded event_id) (λ db. Unit) (delete_event event_id)
  unfolding delete_event
  Hoare-delete =
      Hoare-bind _ _ (Hoare-access {Q = λ _. Discarded event_id} _ (λ db h. deleted event_id db h))
        (λ entries. Hoare-uninstall _)

  absent : (db : Db) → Stored HasVoters event_id none db → Discarded event_id db
  absent db (h, missing) = record {
    others = h;
    no_voter =
        (subst (λ e. NoVotes e (db.votes_common event_id) (db.votes_exists event_id)) missing
          (h.absent event_id)).0;
    no_vote =
        (subst (λ e. NoVotes e (db.votes_common event_id) (db.votes_exists event_id)) missing
          (h.absent event_id)).1;
  }

  Hoare-found :
      (found : Option VerityEvent)
      → Hoare
          (Stored HasVoters event_id found)
          (λ _. Discarded event_id)
          (λ db. Unit)
          (when_some found (λ event. access_db (metadata event) >>= λ m.
            (delete_event event_id >>= λ u.
            init_event scheduler client event_id m.contract_block_number)))
  Hoare-found none = Hoare-return tt absent
  Hoare-found (some event) = Hoare-bind _ _ (or_raises (Hoare-unread (Keeps-metadata event))) λ m.
      Hoare-bind _ _ Hoare-delete λ u. or_raises (
        Keeps-init_event ⦃k = Discarded-IsKept event_id⦄ scheduler client event_id
          m.contract_block_number)

  Hoare-dispute :
      (entries : List Entry)
      → Hoare HasVoters
          (λ _. Discarded event_id)
          (λ db. Unit)
          (process_dispute_triggered scheduler client event_id entries)
  unfolding process_dispute_triggered get_event get
  Hoare-dispute entries = Hoare-bind _ _ (Hoare-silent _ (yield-IsSilent _) (λ db h. tt)) λ entry.
      Hoare-bind _ _ (Hoare-silent _ (yield-IsSilent _) (λ db h. tt)) λ by.
        Hoare-bind _ _
          (Hoare-read {Q = Stored HasVoters event_id} (λ db. db.events event_id)
            (λ db h. (h, refl)))
          Hoare-found

  -- If the voters are in accord with the participants, as in every world that a node reaches, and a dispute is
  -- processed to its end, then no voter of the event is counted and no vote on it is noted any more, whatever the
  -- contract answers when the event is discovered again, and the voters of the other events stay in accord.
  pub process_dispute_triggered-Discarded :
      (entries : List Entry) (w : World)
      → HasVoters w.node.db
      → (process_dispute_triggered scheduler client event_id entries w).0 ≡ ok tt
      → Discarded event_id (process_dispute_triggered scheduler client event_id entries w).1.node.db
  process_dispute_triggered-Discarded entries w h done =
      subst
        (λ (r : Result (Unit {0})).
          Post (λ _. Discarded event_id) (λ db. Unit) r
            (process_dispute_triggered scheduler client event_id entries w).1.node.db)
        done ((Hoare-dispute entries).after w h)
