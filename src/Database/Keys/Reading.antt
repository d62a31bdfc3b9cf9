-- ===== src/Database/Keys/Reading.antt =====
-- Reading the keys of Redis of app/database/database.py: the table and the identifiers of a key.
use validation_node.Prelude.{
  Option, none, some, List, [], ◌∷◌, true, ◌≡◌, ◌↔◌, refl, ap, if◌then◌else◌,
}
use mathlib.Core.Option
use validation_node.Prelude.Eq.{◌==◌, list_eq, nat_eq}
use validation_node.Prelude.Texts.{codes, is_word, words, words_of-word, words-underscored}
use validation_node.Database.Schema.{Ident, Text}
use validation_node.Database.Keys.{
  Place, event, metadata, participants, filters, rewards, rewards_user_ids, voters, votes_exists,
  votes_consensus, votes, event_ids, last_run, event_registry, node_registry, address, redis_key,
}

abbrev two : Text → Text → Option (Place Text)
two a b =
    if a == codes "event"
    then (if b == codes "ids" then some event_ids else some (event b))
    else if a == codes "metadata"
    then some (metadata b)
    else if a == codes "filters"
    then some (filters b)
    else if a == codes "rewards"
    then some (rewards b)
    else none

abbrev three : Text → Text → Text → Option (Place Text)
three a b c =
    if a == codes "join"
    then some (participants c)
    else if a == codes "event"
    then some event_registry
    else if a == codes "node"
    then some node_registry
    else if b == codes "common"
    then some (voters c)
    else if b == codes "exists"
    then some (votes_exists c)
    else if b == codes "consensus"
    then some (votes_consensus c)
    else some (votes b c)

abbrev four : Text → Text → Text → Text → Option (Place Text)
four a b c d = if a == codes "rewards" then some (rewards_user_ids d) else some last_run

read_words : List Text → Option (Place Text)
read_words (a ∷ b ∷ []) = two a b
read_words (a ∷ b ∷ c ∷ []) = three a b c
read_words (a ∷ b ∷ c ∷ d ∷ []) = four a b c d
read_words _ = none

-- The place of a key.
unfoldable pub read_key : Text → Option (Place Text)
unfolding read_words
read_key t = read_words (words t)

-- `hex` renders the digits of an address, without '_', and `unhex` reads them again.
module _ (hex : Ident → Text) (unhex : Text → Ident) where
  abbrev unaddress : Text → Ident
  unaddress (a ∷ b ∷ s) = unhex s
  unaddress _ = 0

  abbrev unrendered : Place Text → Place Ident
  unrendered (event e) = event (unaddress e)
  unrendered (metadata e) = metadata (unaddress e)
  unrendered (participants e) = participants (unaddress e)
  unrendered (filters e) = filters (unaddress e)
  unrendered (rewards e) = rewards (unaddress e)
  unrendered (rewards_user_ids e) = rewards_user_ids (unaddress e)
  unrendered (voters e) = voters (unaddress e)
  unrendered (votes_exists e) = votes_exists (unaddress e)
  unrendered (votes_consensus e) = votes_consensus (unaddress e)
  unrendered (votes e n) = votes (unaddress e) (unaddress n)
  unrendered event_ids = event_ids
  unrendered last_run = last_run
  unrendered event_registry = event_registry
  unrendered node_registry = node_registry

  abbrev pub read_place : Text → Option (Place Ident)
  read_place t = Option.map unrendered (read_key t)

  module _ (digits : (id : Ident) → is_word (hex id) ≡ true)
      (reads : (id : Ident) → unhex (hex id) ≡ id) where
    words-hex : (id : Ident) → words (hex id) ≡ hex id ∷ []
    words-hex id = words_of-word (hex id) (digits id)

    pub read_place-redis_key : (p : Place Ident) → read_place (redis_key hex p) ≡ some p
    unfolding read_key words redis_key
    read_place-redis_key (event e) = rw (words-hex e, reads e) refl
    read_place-redis_key (metadata e) = rw (words-hex e, reads e) refl
    read_place-redis_key (participants e) = rw (words-hex e, reads e) refl
    read_place-redis_key (filters e) = rw (words-hex e, reads e) refl
    read_place-redis_key (rewards e) = rw (words-hex e, reads e) refl
    read_place-redis_key (rewards_user_ids e) = rw (words-hex e, reads e) refl
    read_place-redis_key (voters e) = rw (words-hex e, reads e) refl
    read_place-redis_key (votes_exists e) = rw (words-hex e, reads e) refl
    read_place-redis_key (votes_consensus e) = rw (words-hex e, reads e) refl
    read_place-redis_key (votes e n) =
        rw (words-underscored (hex e) (address hex n) (digits e), words-hex n, reads e, reads n)
          refl
    read_place-redis_key event_ids = refl
    read_place-redis_key last_run = refl
    read_place-redis_key event_registry = refl
    read_place-redis_key node_registry = refl

    pub redis_key-injective : (p q : Place Ident) → (redis_key hex p ≡ redis_key hex q) ↔ (p ≡ q)
    redis_key-injective p q = (
      λ e. cc (read_place-redis_key p, read_place-redis_key q, ap read_place e),
      λ e. ap (redis_key hex) e,
    )
