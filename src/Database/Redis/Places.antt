-- ===== src/Database/Redis/Places.antt =====
-- Equality of the places of Redis, and what a command changes.
use validation_node.Prelude.{
  ℕ, Bool, true, ◌&&◌, List, [], ◌∷◌, ◌++◌, ◌≡◌, ◌↔◌, refl, ap, ◌∙◌, sym, fun_ext, subst,
  Bool-cases, arith, eqb, eqb_iff, if◌then◌else◌,
}
use validation_node.Prelude.Eq.{Eq, ◌==◌, ==_iff, list_eq, nat_eq}
use validation_node.Prelude.Dict.{Table, update}
use validation_node.Prelude.Texts.{is_word}
use validation_node.Database.Schema.{Ident, Text}
use validation_node.Database.Keys.{
  Place, event, metadata, participants, filters, rewards, rewards_user_ids, voters, votes_exists,
  votes_consensus, votes, event_ids, last_run, event_registry, node_registry, redis_key,
}
use validation_node.Database.Keys.Reading.{redis_key-injective}
use validation_node.Database.Redis.Cells.{Cell, Command, Redis, cells, send}

abbrev Fields : Type 0
Fields = ℕ × Ident × Ident

-- A number for each kind of place, and its identifiers.
abbrev fields : Place Ident → Fields
fields (event e) = (0, e, 0)
fields (metadata e) = (1, e, 0)
fields (participants e) = (2, e, 0)
fields (filters e) = (3, e, 0)
fields (rewards e) = (4, e, 0)
fields (rewards_user_ids e) = (5, e, 0)
fields (voters e) = (6, e, 0)
fields (votes_exists e) = (7, e, 0)
fields (votes_consensus e) = (8, e, 0)
fields (votes e n) = (9, e, n)
fields event_ids = (10, 0, 0)
fields last_run = (11, 0, 0)
fields event_registry = (12, 0, 0)
fields node_registry = (13, 0, 0)

place_at : Fields → Place Ident
place_at (k, e, n) =
    if eqb k 0
    then event e
    else if eqb k 1
    then metadata e
    else if eqb k 2
    then participants e
    else if eqb k 3
    then filters e
    else if eqb k 4
    then rewards e
    else if eqb k 5
    then rewards_user_ids e
    else if eqb k 6
    then voters e
    else if eqb k 7
    then votes_exists e
    else if eqb k 8
    then votes_consensus e
    else if eqb k 9
    then votes e n
    else if eqb k 10
    then event_ids
    else if eqb k 11
    then last_run
    else if eqb k 12
    then event_registry
    else node_registry

place_at-fields : (p : Place Ident) → place_at (fields p) ≡ p
unfolding place_at
place_at-fields (event e) = refl
place_at-fields (metadata e) = refl
place_at-fields (participants e) = refl
place_at-fields (filters e) = refl
place_at-fields (rewards e) = refl
place_at-fields (rewards_user_ids e) = refl
place_at-fields (voters e) = refl
place_at-fields (votes_exists e) = refl
place_at-fields (votes_consensus e) = refl
place_at-fields (votes e n) = refl
place_at-fields event_ids = refl
place_at-fields last_run = refl
place_at-fields event_registry = refl
place_at-fields node_registry = refl

abbrev place_test : Place Ident → Place Ident → Bool
place_test p q =
    eqb (fields p).0 (fields q).0
    && (eqb (fields p).2 (fields q).2 && eqb (fields p).1 (fields q).1)

place_test-fields : (p q : Place Ident) → place_test p q ≡ true → fields p ≡ fields q
place_test-fields p q h = ground (
  arith,
  eqb_iff (fields p).0 (fields q).0,
  eqb_iff (fields p).1 (fields q).1,
  eqb_iff (fields p).2 (fields q).2,
)

place_test_refl : (p : Place Ident) → place_test p p ≡ true
place_test_refl p = ground (
  arith,
  eqb_iff (fields p).0 (fields p).0,
  eqb_iff (fields p).1 (fields p).1,
  eqb_iff (fields p).2 (fields p).2,
)

pub place_test_iff : (p q : Place Ident) → (place_test p q ≡ true) ↔ (p ≡ q)
place_test_iff p q = (
  λ h. sym (place_at-fields p) ∙ ap place_at (place_test-fields p q h) ∙ place_at-fields q,
  λ e. subst (λ r. place_test p r ≡ true) e (place_test_refl p),
)

instance abbrev pub place_eq : Eq (Place Ident)
place_eq = record { test = place_test; agrees = place_test_iff }

-- The commands on the places.
unfoldable pub store : List Command → Table (Place Ident) Cell → Table (Place Ident) Cell
store [] c = c
store ((p, f) ∷ commands) c = store commands (update p (f (c p)) c)

module _ (hex : Ident → Text) (unhex : Text → Ident)
    (digits : (id : Ident) → is_word (hex id) ≡ true)
    (reads : (id : Ident) → unhex (hex id) ≡ id) where
  same_key : (p q : Place Ident) → (redis_key hex p == redis_key hex q) ≡ (p == q)
  same_key p q = ground (
    arith,
    ==_iff (redis_key hex p) (redis_key hex q),
    place_test_iff p q,
    redis_key-injective hex unhex digits reads p q,
    Bool-cases (redis_key hex p == redis_key hex q),
    Bool-cases (p == q),
  )

  cells-update :
      (p : Place Ident) (c : Cell) (r : Redis)
      → cells hex (update (redis_key hex p) c r) ≡ update p c (cells hex r)
  cells-update p c r =
      fun_ext (λ q. ap (λ (b : Bool). if b then c else r (redis_key hex q)) (same_key q p))

  -- The commands change the keys as they change the places.
  pub cells-send :
      (commands : List Command) (r : Redis)
      → cells hex (send hex commands r) ≡ store commands (cells hex r)
  unfolding send store
  cells-send [] r = refl
  cells-send ((p, f) ∷ commands) r =
      cells-send commands (update (redis_key hex p) (f (r (redis_key hex p))) r)
      ∙ ap (store commands) (cells-update p (f (r (redis_key hex p))) r)

pub store-append :
    (first rest : List Command) (c : Table (Place Ident) Cell)
    → store (first ++ rest) c ≡ store rest (store first c)
unfolding store
store-append [] rest c = refl
store-append ((p, f) ∷ first) rest c = store-append first rest (update p (f (c p)) c)
