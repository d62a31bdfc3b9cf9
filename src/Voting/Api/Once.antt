-- ===== src/Voting/Api/Once.antt =====
-- Each user votes once on this node: an accepted vote is recorded, the record stays, and it refuses
-- every later vote of the user on the event.
use validation_node.Prelude.{
  ℕ, true, false, Option, none, some, List, [], ◌∷◌, ◌++◌, ◌≡◌, ◌≢◌, arith, sym, ap, ◌∙◌, subst,
  Option-cases, inl, inr, ℕ_discrete as dec_eq,
}
use validation_node.Prelude.Dict.{update_self}
use validation_node.Prelude.Eq.{nat_eq, pair_eq}
use validation_node.Database.Schema.{Ident, Vote, VerityEvent, Db}
use validation_node.Database.Votes
use validation_node.Database.Events.{get, metadata}
use validation_node.Node.{VoteData, VoteJson, Node}
use validation_node.Voting.Payload.{VoteFields, parse_fields_from_json_data}
use validation_node.Voting.Api.{new_vote, vote_message, vote_on, vote_for, vote}
use validation_node.Voting.Api.Acceptance.{vote-accepted_iff}
use validation_node.Voting.Api.Effects.{
  vote_on-rejected, vote_on-stores, db-accept, outbox-accept, exists-create_self, exists-create_of,
  exists-metadata, votes-metadata,
}

exists_of :
    (e nd u : Ident) (db db' : Db)
    → db'.votes_exists ≡ db.votes_exists
    → Votes.exists e nd u db ≡ true
    → Votes.exists e nd u db' ≡ true
unfolding Votes.exists
exists_of e nd u db db' same h = rw same h

already :
    (node_id : Ident) (db : Db) (f f' g : VoteFields)
    → ◌≡◌ {A = Option VoteFields} (some f') (some g)
    → f'.event_id ≡ f.event_id
    → f'.user_id ≡ f.user_id
    → Votes.exists f.event_id node_id f.user_id db ≡ true
    → Votes.exists g.event_id node_id g.user_id db ≡ false
    → ⊥
already node_id db f f' g same e u h h' = cc

pub votes-stored :
    (v : Vote) (event : VerityEvent) (db : Db)
    → (Votes.create v (metadata event db).1).votes (v.event_id, v.node_id)
      ≡ db.votes (v.event_id, v.node_id) ++ v ∷ []
unfolding Votes.create
votes-stored v event db = rw (update_self, votes-metadata)

module _ (recover : VoteData → Ident → Option Ident) (node_id : Ident) where
  -- What an accepted vote leaves behind.
  pub record IsStored (now : ℕ) (j : VoteJson) (f : VoteFields) (n n' : Node) : Type 0 where
    pub vote :
        n'.db.votes (f.event_id, node_id)
        ≡ n.db.votes (f.event_id, node_id) ++ new_vote node_id now f ∷ []
    pub recorded : Votes.exists f.event_id node_id f.user_id n'.db ≡ true
    pub message : n'.outbox ≡ n.outbox ++ vote_message node_id now j f ∷ []

  vote_on-IsStored :
      (now : ℕ) (j : VoteJson) (f : VoteFields) (event : VerityEvent) (n : Node)
      → (vote_on recover node_id now j f event n).0.status ≡ 200
      → IsStored now j f n (vote_on recover node_id now j f event n).1
  vote_on-IsStored now j f event n h =
      let m = (metadata event n.db).0 in
      let n' : Node = record n { db = (metadata event n.db).1 } in
      rw (vote_on-stores recover node_id now j f event n h) (record {
        vote =
            rw (db-accept node_id now j f event m n')
              (votes-stored (new_vote node_id now f) event n.db);
        recorded =
            rw (db-accept node_id now j f event m n')
              (exists-create_self (new_vote node_id now f) n'.db);
        message = outbox-accept node_id now j f event m n';
      })

  -- A record of a vote outlives every request.
  vote_on-exists :
      (now : ℕ) (j : VoteJson) (f : VoteFields) (event : VerityEvent) (n : Node) (e nd u : Ident)
      → Votes.exists e nd u n.db ≡ true
      → Votes.exists e nd u (vote_on recover node_id now j f event n).1.db ≡ true
  vote_on-exists now j f event n e nd u h =
      elim (dec_eq (vote_on recover node_id now j f event n).0.status 200) [
        | yes accepted ↦
            let n' : Node = record n { db = (metadata event n.db).1 } in
            rw
              (
                vote_on-stores recover node_id now j f event n accepted,
                db-accept node_id now j f event (metadata event n.db).0 n',
              )
              (exists-create_of (new_vote node_id now f) n'.db e nd u
                (exists_of e nd u n.db n'.db (exists-metadata event n.db) h))
        | no refused ↦
            exists_of e nd u n.db (vote_on recover node_id now j f event n).1.db
              (vote_on-rejected recover node_id now j f event n refused).votes_exists h
      ]

  vote_for-exists :
      (now : ℕ) (j : VoteJson) (f : Option VoteFields) (n : Node) (e nd u : Ident)
      → Votes.exists e nd u n.db ≡ true
      → Votes.exists e nd u (vote_for recover node_id now j f n).1.db ≡ true
  unfolding vote_for
  vote_for-exists now j none n e nd u h = h
  vote_for-exists now j (some f) n e nd u h = elim (Option-cases (get f.event_id n.db)) [
    | inl missing ↦ ground arith
    | inr (event, found) ↦ ground (arith, vote_on-exists now j f event n e nd u h)
  ]

  vote-exists :
      (now : ℕ) (j : Option VoteJson) (n : Node) (e nd u : Ident)
      → Votes.exists e nd u n.db ≡ true
      → Votes.exists e nd u (vote recover node_id now j n).1.db ≡ true
  unfolding vote
  vote-exists now none n e nd u h = h
  vote-exists now (some j) n e nd u h =
      ground (arith, vote_for-exists now j (parse_fields_from_json_data j) n e nd u h)

  -- Requests one after another, each with the time at which it is handled.
  unfoldable pub serve : List (ℕ × Option VoteJson) → Node → Node
  serve [] n = n
  serve ((now, j) ∷ requests) n = serve requests (vote recover node_id now j n).1

  serve-exists :
      (requests : List (ℕ × Option VoteJson)) (n : Node) (e nd u : Ident)
      → Votes.exists e nd u n.db ≡ true
      → Votes.exists e nd u (serve requests n).db ≡ true
  unfolding serve
  serve-exists [] n e nd u h = h
  serve-exists ((now, j) ∷ requests) n e nd u h =
      serve-exists requests (vote recover node_id now j n).1 e nd u (vote-exists now j n e nd u h)

  vote_for-IsStored :
      (now : ℕ) (j : VoteJson) (f : VoteFields) (n : Node)
      → (vote_for recover node_id now j (some f) n).0.status ≡ 200
      → IsStored now j f n (vote_for recover node_id now j (some f) n).1
  unfolding vote_for
  vote_for-IsStored now j f n h = elim (Option-cases (get f.event_id n.db)) [
    | inl missing ↦ absurd (ground arith)
    | inr (event, found) ↦ rw (found, vote_for) (vote_on-IsStored now j f event n (ground arith))
  ]

  vote-eq-vote_for :
      (now : ℕ) (j : VoteJson) (n : Node)
      → (vote recover node_id now (some j) n).0.status ≡ 200
      → vote recover node_id now (some j) n
        ≡ vote_for recover node_id now j (parse_fields_from_json_data j) n
  unfolding vote
  vote-eq-vote_for now j n h = ground arith

  -- An accepted vote is appended to the votes of its event that this node received, recorded for its
  -- user, and handed to the websockets.
  pub vote-IsStored :
      (now : ℕ) (j : VoteJson) (f : VoteFields) (n : Node)
      → parse_fields_from_json_data j ≡ some f
      → (vote recover node_id now (some j) n).0.status ≡ 200
      → IsStored now j f n (vote recover node_id now (some j) n).1
  vote-IsStored now j f n parsed h =
      let same = vote-eq-vote_for now j n h ∙ ap (λ o. vote_for recover node_id now j o n) parsed in
      subst (λ r. IsStored now j f n r.1) (sym same)
        (vote_for-IsStored now j f n (subst (λ r. r.0.status ≡ 200) same h))

  -- After an accepted vote, whatever requests follow, another vote of the same user on the same event
  -- is not accepted.
  pub vote-once :
      (now later : ℕ) (j j' : VoteJson) (f f' : VoteFields) (requests : List (ℕ × Option VoteJson))
      (n : Node)
      → parse_fields_from_json_data j ≡ some f
      → parse_fields_from_json_data j' ≡ some f'
      → f'.event_id ≡ f.event_id
      → f'.user_id ≡ f.user_id
      → (vote recover node_id now (some j) n).0.status ≡ 200
      → (vote recover node_id later
          (some j')
          (serve requests (vote recover node_id now (some j) n).1)).0.status
        ≢ 200
  vote-once now later j j' f f' requests n p p' e u h again =
      let n' = (vote recover node_id now (some j) n).1 in
      let recorded =
        serve-exists requests n' f.event_id node_id f.user_id
          (vote-IsStored now j f n p h).recorded in
      let (g, event, valid, q, a) =
        (vote-accepted_iff recover node_id later j' (serve requests n')).0 again in
      already node_id (serve requests n').db f f' g (sym p' ∙ q) e u recorded a.first_vote
