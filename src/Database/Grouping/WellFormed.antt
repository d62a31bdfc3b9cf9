-- ===== src/Database/Grouping/WellFormed.antt =====
-- The groups by user are well formed: a user is a key once, with one vote or more, all of them its
-- own.
use validation_node.Prelude.{
  ℕ, ◌<◌, Bool, false, Option, List, [], ◌∷◌, ◌++◌, ◌≡◌, refl, arith, length, length-append,
  Bool-cases, inl, inr, All, All-append,
}
use validation_node.Prelude.Eq.{◌==◌, nat_eq, HasNoRepeats, contains, ==_iff}
use validation_node.Prelude.Dict.{Dict, keys, insert}
use validation_node.Prelude.Dict.Keys.{insert-HasNoRepeats}
use validation_node.Database.Schema.{Ident, Vote, VerityEvent, Db}
use validation_node.Database.Votes.{get_list}
use validation_node.Database.Grouping.{
  get_list_at, extend_at, add_votes, add_nodes, group_votes_by_users, votes,
}
use validation_node.Database.Grouping.Filtered.{kept, filter_votes-eq-kept}

abbrev pub IsOwn : Ident → Vote → Type 0
IsOwn u v = v.user_id ≡ u

abbrev pub IsEntry : Ident × List Vote → Type 0
IsEntry (u, vs) = (0 < length vs) × All (IsOwn u) vs

abbrev pub IsGrouped : Dict Ident (List Vote) → Type 0
IsGrouped d = HasNoRepeats (keys d) × All IsEntry d

IsOwn-get_list_at :
    (u : Ident) (d : Dict Ident (List Vote)) → All IsEntry d → All (IsOwn u) (get_list_at u d)
IsOwn-get_list_at u [] h = tt
IsOwn-get_list_at u ((w, vs) ∷ d) h = elim (Bool-cases (u == w)) [
  | inl same ↦ ground (arith, ==_iff u w)
  | inr other ↦ ground (arith, IsOwn-get_list_at u d h.1)
]

insert-entries :
    (u : Ident) (vs : List Vote) (d : Dict Ident (List Vote))
    → IsEntry (u, vs)
    → All IsEntry d
    → All IsEntry (insert u vs d)
insert-entries u vs [] e h = (e, tt)
insert-entries u vs ((w, ws) ∷ d) e h = ground (arith, insert-entries u vs d e h.1, ==_iff u w)

add_vote-IsGrouped :
    (v : Vote) (d : Dict Ident (List Vote))
    → IsGrouped d
    → IsGrouped (extend_at v.user_id (v ∷ []) d)
add_vote-IsGrouped v d (unique, entries) =
    let old = get_list_at v.user_id d in
    let own =
      All-append (IsOwn v.user_id) old (v ∷ []) (IsOwn-get_list_at v.user_id d entries)
        (refl, tt) in
    (
      insert-HasNoRepeats v.user_id (old ++ v ∷ []) d unique,
      insert-entries v.user_id (old ++ v ∷ []) d
          (omega (arith, length-append {0} old (v ∷ [])), own) entries,
    )

add_votes-IsGrouped :
    (vs : List Vote) (d : Dict Ident (List Vote)) → IsGrouped d → IsGrouped (add_votes vs d)
unfolding add_votes
add_votes-IsGrouped [] d h = h
add_votes-IsGrouped (v ∷ vs) d h = add_votes-IsGrouped vs _ (add_vote-IsGrouped v d h)

add_nodes-IsGrouped :
    (event_id : Ident) (ns : List Ident) (db : Db) (d : Dict Ident (List Vote))
    → IsGrouped d
    → IsGrouped (add_nodes event_id ns db d)
unfolding add_nodes
add_nodes-IsGrouped event_id [] db d h = h
add_nodes-IsGrouped event_id (n ∷ ns) db d h =
    add_nodes-IsGrouped event_id ns db _ (add_votes-IsGrouped (get_list event_id n db) d h)

contains-kept :
    (lo hi : ℕ) (unique : Bool) (by : Option Vote) (d : Dict Ident (List Vote)) (u : Ident)
    → contains (keys d) u ≡ false
    → contains (keys (kept lo hi unique by d)) u ≡ false
contains-kept lo hi unique by [] u h = h
contains-kept lo hi unique by ((w, vs) ∷ d) u h = ground (arith, contains-kept lo hi unique by d u)

kept-IsGrouped :
    (lo hi : ℕ) (unique : Bool) (by : Option Vote) (d : Dict Ident (List Vote))
    → IsGrouped d
    → IsGrouped (kept lo hi unique by d)
kept-IsGrouped lo hi unique by [] h = h
kept-IsGrouped lo hi unique by ((u, vs) ∷ d) h = ground (
  arith,
  kept-IsGrouped lo hi unique by d (h.0.1, h.1.1),
  contains-kept lo hi unique by d u h.0.0,
)

pub group_votes_by_users-IsGrouped :
    (event_id : Ident) (ns : List Ident) (db : Db) → IsGrouped (group_votes_by_users event_id ns db)
unfolding group_votes_by_users
group_votes_by_users-IsGrouped event_id ns db = add_nodes-IsGrouped event_id ns db [] (tt, tt)

-- Whatever the filters, `VerityEvent.votes` has each user once, with votes of its own.
pub votes-IsGrouped :
    (event : VerityEvent) (lo hi : Option ℕ) (by : Option Vote) (unique : Bool) (db : Db)
    → IsGrouped (votes event lo hi by unique db)
unfolding votes
votes-IsGrouped event lo hi by unique db =
    let g = group_votes_by_users-IsGrouped event.event_id event.node_addresses db in
    rw (filter_votes-eq-kept _ _ unique by _ g.0) (kept-IsGrouped _ _ unique by _ g)
