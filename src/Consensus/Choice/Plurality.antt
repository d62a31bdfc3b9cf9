-- ===== src/Consensus/Choice/Plurality.antt =====
-- The representation that `max` chooses has the most votes.
use mathlib.Core.Path.{subst₂}
use validation_node.Prelude.{
  ℕ, ◌≤◌, true, false, List, [], ◌∷◌, ◌≡◌, refl, sym, ap, ◌∙◌, arith, length, if◌then◌else◌,
  Bool-cases, inl, inr, ◌⊎◌, ltb, subst,
}
use validation_node.Prelude.Eq.{Eq, ◌==◌, nat_eq, list_eq, pair_eq, contains, HasNoRepeats, ==_iff}
use validation_node.Prelude.Dict.{Dict, keys}
use validation_node.Database.Schema.{Ident, Vote, ok}
use validation_node.Database.Votes.{Repr}
use validation_node.Database.Grouping.{get_list_at, group_votes_by_representation}
use validation_node.Database.Grouping.Groups.{
  votes_with, group_votes-HasNoRepeats, get_list_at-group_votes,
}
use validation_node.Consensus.Choice.{max_from, max_by_votes}

-- The greatest number of votes of an entry, or `n`.
most : ℕ → Dict Repr (List Vote) → ℕ
most n [] = n
most n ((r, vs) ∷ d) = most (if ltb n (length vs) then length vs else n) d

le-most : (n : ℕ) (d : Dict Repr (List Vote)) → n ≤ most n d
unfolding most
le-most n [] = omega arith
le-most n ((r, vs) ∷ d) = ground (arith, le-most (length vs) d, le-most n d)

lookup-le-most :
    (r : Repr) (n : ℕ) (d : Dict Repr (List Vote)) → length (get_list_at r d) ≤ most n d
unfolding most
lookup-le-most r n [] = omega arith
lookup-le-most r n ((s, vs) ∷ d) = ground (
  arith,
  le-most (length vs) d,
  le-most n d,
  lookup-le-most r (length vs) d,
  lookup-le-most r n d,
)

module _ {K A : Type 0} ⦃e : Eq K⦄ where
  first_entry :
      (x r : K) (vs : List A) (d : Dict K (List A))
      → x ≡ r
      → (contains (keys ((r, vs) ∷ d)) x ≡ true) × (get_list_at x ((r, vs) ∷ d) ≡ vs)
  first_entry x r vs d p = ground (arith, ==_iff x r)

  later_entry :
      (x r : K) (vs : List A) (d : Dict K (List A))
      → contains (keys d) r ≡ false
      → contains (keys d) x ≡ true
      → (contains (keys ((r, vs) ∷ d)) x ≡ true) × (get_list_at x ((r, vs) ∷ d) ≡ get_list_at x d)
  later_entry x r vs d absent present = elim (Bool-cases (x == r)) [
    | inl same ↦ absurd (clash ((==_iff x r).0 same))
    | inr other ↦ ground arith
  ]
    where
      clash : x ≡ r → ⊥
      clash p = cc (ap (contains (keys d)) p)

-- The chosen key has that many votes: it is the one chosen so far, or an entry of the rest.
abbrev IsChosen : Repr → Repr → ℕ → Dict Repr (List Vote) → Type 0
IsChosen best r n d =
    ((r ≡ best) × (most n d ≡ n))
    ⊎ ((contains (keys d) r ≡ true) × (most n d ≡ length (get_list_at r d)))

take_first :
    (x best r : Repr) (n : ℕ) (vs : List Vote) (d : Dict Repr (List Vote))
    → ltb n (length vs) ≡ true
    → contains (keys d) r ≡ false
    → IsChosen r x (length vs) d
    → IsChosen best x n ((r, vs) ∷ d)
unfolding most
take_first x best r n vs d t absent (inl (p, m)) =
    let (present, same) = first_entry x r vs d p in
    inr (present, rw (t, most) (m ∙ ap length (sym same)))
take_first x best r n vs d t absent (inr (c, m)) =
    let (present, same) = later_entry x r vs d absent c in
    inr (present, rw (t, most) (m ∙ ap length (sym same)))

skip_first :
    (x best r : Repr) (n : ℕ) (vs : List Vote) (d : Dict Repr (List Vote))
    → ltb n (length vs) ≡ false
    → contains (keys d) r ≡ false
    → IsChosen best x n d
    → IsChosen best x n ((r, vs) ∷ d)
unfolding most
skip_first x best r n vs d t absent (inl (p, m)) = inl (p, rw (t, most) m)
skip_first x best r n vs d t absent (inr (c, m)) =
    let (present, same) = later_entry x r vs d absent c in
    inr (present, rw (t, most) (m ∙ ap length (sym same)))

max_from-take :
    (best r : Repr) (n : ℕ) (vs : List Vote) (d : Dict Repr (List Vote))
    → ltb n (length vs) ≡ true
    → max_from best n ((r, vs) ∷ d) ≡ max_from r (length vs) d
unfolding max_from
max_from-take best r n vs d t = rw t

max_from-skip :
    (best r : Repr) (n : ℕ) (vs : List Vote) (d : Dict Repr (List Vote))
    → ltb n (length vs) ≡ false
    → max_from best n ((r, vs) ∷ d) ≡ max_from best n d
unfolding max_from
max_from-skip best r n vs d t = rw t

max_from-IsChosen :
    (best : Repr) (n : ℕ) (d : Dict Repr (List Vote))
    → HasNoRepeats (keys d)
    → IsChosen best (max_from best n d) n d
unfolding max_from most
max_from-IsChosen best n [] h = inl (refl, refl)
max_from-IsChosen best n ((r, vs) ∷ d) h = elim (Bool-cases (ltb n (length vs))) [
  | inl t ↦
      subst (λ x. IsChosen best x n ((r, vs) ∷ d)) (sym (max_from-take best r n vs d t))
        (take_first _ best r n vs d t h.0 (max_from-IsChosen r (length vs) d h.1))
  | inr t ↦
      subst (λ x. IsChosen best x n ((r, vs) ∷ d)) (sym (max_from-skip best r n vs d t))
        (skip_first _ best r n vs d t h.0 (max_from-IsChosen best n d h.1))
]

chosen_count :
    (x r : Repr) (vs : List Vote) (d : Dict Repr (List Vote))
    → contains (keys d) r ≡ false
    → IsChosen r x (length vs) d
    → length (get_list_at x ((r, vs) ∷ d)) ≡ most (length vs) d
chosen_count x r vs d absent (inl (p, m)) = ap length (first_entry x r vs d p).1 ∙ sym m
chosen_count x r vs d absent (inr (c, m)) = ap length (later_entry x r vs d absent c).1 ∙ sym m

count-le-most :
    (s r : Repr) (vs : List Vote) (d : Dict Repr (List Vote))
    → length (get_list_at s ((r, vs) ∷ d)) ≤ most (length vs) d
count-le-most s r vs d = ground (arith, le-most (length vs) d, lookup-le-most s (length vs) d)

-- No entry has more votes than the one that `max` returns.
pub max_by_votes-greatest :
    (r s : Repr) (d : Dict Repr (List Vote))
    → HasNoRepeats (keys d)
    → max_by_votes d ≡ ok r
    → length (get_list_at s d) ≤ length (get_list_at r d)
unfolding max_by_votes
max_by_votes-greatest r s [] h e = absurd (ground arith)
max_by_votes-greatest r s ((q, vs) ∷ d) h e =
    let chosen : max_from q (length vs) d ≡ r = ground arith in
    let count = chosen_count _ q vs d h.0 (max_from-IsChosen q (length vs) d h.1) in
    subst (λ x. length (get_list_at s ((q, vs) ∷ d)) ≤ length (get_list_at x ((q, vs) ∷ d))) chosen
      (subst (λ m. length (get_list_at s ((q, vs) ∷ d)) ≤ m) (sym count) (count-le-most s q vs d))

-- No representation was given by more votes than the one that wins.
pub winner-greatest :
    (r s : Repr) (d : Dict Ident (List Vote))
    → max_by_votes (group_votes_by_representation d) ≡ ok r
    → length (votes_with s d) ≤ length (votes_with r d)
winner-greatest r s d e =
    subst₂ (λ x y. length x ≤ length y) (get_list_at-group_votes s d) (get_list_at-group_votes r d)
      (max_by_votes-greatest r s (group_votes_by_representation d) (group_votes-HasNoRepeats d) e)
