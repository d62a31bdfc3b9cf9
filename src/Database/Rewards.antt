-- ===== src/Database/Rewards.antt =====
-- `class Rewards` of app/database/database.py: the rewards of an event by user, their order, and the
-- lists that the contract takes.
pub mod Lists
use validation_node.Prelude.{
  ℕ, Bool, true, false, ◌&&◌, Option, none, some, List, [], ◌∷◌, ◌++◌, length, eqb,
}
use validation_node.Prelude.Eq.{Eq, ◌==◌, nat_eq, option_eq}
use validation_node.Prelude.Dict.{Dict, keys, lookup, insert, update}
use validation_node.Prelude.Int.{ℤ, pos, negsuc}
use validation_node.Database.Schema.{Ident, Reward, Db, Result, ok, raise, key_error, ◌>>=◌}

unfoldable pub reward_dict : ℤ → ℤ → Reward
reward_dict eth_reward token_reward = record { eth = eth_reward; token = token_reward }

unfoldable pub create : Ident → List Ident → Dict Ident Reward → Db → Db
create event_id user_ids_rewards rewards_dict db = record db {
  rewards = update event_id (some rewards_dict) db.rewards;
  rewards_user_ids =
      update event_id (db.rewards_user_ids event_id ++ user_ids_rewards) db.rewards_user_ids;
}

unfoldable pub get : Ident → Db → Option (Dict Ident Reward)
get event_id db = db.rewards event_id

unfoldable pub get_rewards_user_ids : Ident → Db → List Ident
get_rewards_user_ids event_id db = db.rewards_user_ids event_id

abbrev pub Lists3 : Type 0
Lists3 = List Ident × List ℤ × List ℤ

-- The loop of `transform_dict_to_lists`, over the keys, with a lookup for each.
look_up_all : Dict Ident Reward → List Ident → Result (List ℤ × List ℤ)
look_up_all rewards [] = ok ([], [])
look_up_all rewards (u ∷ user_ids) = elim (lookup u rewards) [
  | none ↦ raise key_error
  | some r ↦ look_up_all rewards user_ids >>= λ (es, ts). ok (r.eth ∷ es, r.token ∷ ts)
]

unfoldable pub transform_dict_to_lists : Option (Dict Ident Reward) → Result Lists3
unfolding look_up_all
transform_dict_to_lists none = ok ([], [], [])
transform_dict_to_lists (some rewards) =
    look_up_all rewards (keys rewards) >>= λ (es, ts). ok (keys rewards, es, ts)

-- The dict comprehension over `zip`, which stops with the shortest list.
zip_onto : Dict Ident Reward → List Ident → List ℤ → List ℤ → Dict Ident Reward
unfolding reward_dict
zip_onto d (u ∷ us) (e ∷ es) (t ∷ ts) = zip_onto (insert u (reward_dict e t) d) us es ts
zip_onto d _ _ _ = d

unfoldable pub transform_lists_to_dict : List Ident → List ℤ → List ℤ → Dict Ident Reward
unfolding zip_onto
transform_lists_to_dict user_ids eth_rewards token_rewards =
    zip_onto [] user_ids eth_rewards token_rewards

unfoldable pub get_lists : Ident → Db → Result Lists3
unfolding get transform_dict_to_lists
get_lists event_id db = transform_dict_to_lists (get event_id db)

abbrev pub int_beq : ℤ → ℤ → Bool
int_beq (pos a) (pos b) = eqb a b
int_beq (negsuc a) (negsuc b) = eqb a b
int_beq _ _ = false

abbrev pub reward_beq : Reward → Reward → Bool
reward_beq a b = int_beq a.eth b.eth && int_beq a.token b.token

-- Every entry of the first is in the second.
unfoldable pub agrees_on : Dict Ident Reward → Dict Ident Reward → Bool
agrees_on [] d = true
agrees_on ((u, r) ∷ c) d =
    (elim (lookup u d) [ none ↦ false | some s ↦ reward_beq r s ]) && agrees_on c d

-- `==` of two dictionaries
unfoldable pub dict_eq : Dict Ident Reward → Dict Ident Reward → Bool
unfolding agrees_on
dict_eq c d = eqb (length c) (length d) && agrees_on c d
