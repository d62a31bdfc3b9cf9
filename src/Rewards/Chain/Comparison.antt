-- ===== src/Rewards/Chain/Comparison.antt =====
-- The comparison of the node's rewards with those of the contract (`do_rewards_match` of
-- app/ethereum/rewards.py), which forgets the order of the users.
use validation_node.Prelude.{
  suc, ◌≤◌, true, none, some, List, [], ◌∷◌, ◌≡◌, ◌↔◌, refl, sym, ◌∙◌, ap, arith, map, length, All,
  eqb_iff, if◌then◌else◌, Bool-cases, inl, inr,
}
use validation_node.Prelude.Eq.{nat_eq, contains, HasNoRepeats, ==_iff, ==_refl}
use validation_node.Prelude.Dict.{Dict, keys, values, lookup}
use validation_node.Prelude.Int.{ℤ, pos, negsuc}
use validation_node.Database.Schema.{Ident, Reward}
use validation_node.Database.Sets.{implies, length-subset}
use validation_node.Database.Rewards.{dict_eq, agrees_on, int_beq}
use validation_node.Database.Rewards.Lists.{eth_of, token_of}

-- The rewards are those of the users of the list, in any order, with the same amounts.
pub record IsSame (index : List Ident) (eth token : Ident → ℤ) (d : Dict Ident Reward)
    : Type 0 where
  pub users : (u : Ident) → contains index u ≡ contains (keys d) u
  pub amounts : All (λ e. (eth_of e.1 ≡ eth e.0) × (token_of e.1 ≡ token e.0)) d

int_beq_iff : (a b : ℤ) → (int_beq a b ≡ true) ↔ (a ≡ b)
int_beq_iff (pos a) (pos b) = ground (arith, eqb_iff a b)
int_beq_iff (negsuc a) (negsuc b) = ground (arith, eqb_iff a b)
int_beq_iff (pos a) (negsuc b) = ground arith
int_beq_iff (negsuc a) (pos b) = ground arith

pub length-keys : (d : Dict Ident Reward) → length (keys d) ≡ length d
length-keys [] = refl
length-keys (e ∷ d) = ap suc (length-keys d)

-- A list without repeats that is as long as another and has only elements of it has all of them.
same_elements :
    (xs ys : List Ident)
    → HasNoRepeats xs
    → ((a : Ident) → implies (contains xs a) (contains ys a) ≡ true)
    → length ys ≤ length xs
    → (a : Ident) → contains ys a ≡ contains xs a
same_elements xs ys n h l a = elim (Bool-cases (contains xs a)) [
  | inl old ↦ ground (arith, h a)
  | inr new ↦ elim (Bool-cases (contains ys a)) [
    | inl more ↦ ground (
      arith,
      length-subset (a ∷ xs) ys (new, n)
          (λ b. ground (arith, h b, more, ==_iff b a, Bool-cases (contains xs b))),
    )
    | inr fewer ↦ ground arith
  ]
]

module _ (eth token : Ident → ℤ) where
  -- The rewards of the users, in their order.
  unfoldable pub table : List Ident → Dict Ident Reward
  table [] = []
  table (u ∷ us) = (u, record { eth = eth u; token = token u }) ∷ table us

  pub keys-table : (us : List Ident) → keys (table us) ≡ us
  unfolding table
  keys-table [] = refl
  keys-table (u ∷ us) = ap (λ xs. u ∷ xs) (keys-table us)

  pub values-table :
      (us : List Ident)
      → (map eth_of (values (table us)) ≡ map eth us)
        × (map token_of (values (table us)) ≡ map token us)
  unfolding table
  values-table [] = (refl, refl)
  values-table (u ∷ us) =
      let (p, q) = values-table us in (ap (λ xs. eth u ∷ xs) p, ap (λ xs. token u ∷ xs) q)

  lookup-table :
      (us : List Ident) (u : Ident)
      → lookup u (table us)
        ≡ (if contains us u then some (record { eth = eth u; token = token u }) else none)
  unfolding table
  lookup-table [] u = refl
  lookup-table (v ∷ us) u = ground (arith, lookup-table us u, ==_iff u v)

  module _ (index : List Ident) where
    abbrev AreIn : Dict Ident Reward → Type 0
    AreIn d =
        All (λ e. (contains index e.0 ≡ true) × (eth_of e.1 ≡ eth e.0) × (token_of e.1 ≡ token e.0))
          d

    agrees_on-table : (d : Dict Ident Reward) → (agrees_on d (table index) ≡ true) ↔ AreIn d
    unfolding agrees_on
    agrees_on-table [] = ground arith
    agrees_on-table ((u, r) ∷ d) = rw (lookup-table index u) (
        ground (arith, int_beq_iff r.eth (eth u), int_beq_iff r.token (token u), agrees_on-table d))

    AreIn-implies :
        (d : Dict Ident Reward)
        → AreIn d
        → (a : Ident) → implies (contains (keys d) a) (contains index a) ≡ true
    AreIn-implies [] h a = refl
    AreIn-implies ((u, r) ∷ d) h a = ground (arith, AreIn-implies d h.1 a, h.0.0, ==_iff a u)

    AreIn-IsSame :
        (d : Dict Ident Reward)
        → HasNoRepeats (keys d)
        → length d ≡ length index
        → AreIn d
        → IsSame index eth token d
    AreIn-IsSame d n l h = record {
      users = same_elements (keys d) index n (AreIn-implies d h) (omega (arith, l, length-keys d));
      amounts = amounts_of d h;
    }
      where
        amounts_of :
            (d : Dict Ident Reward)
            → AreIn d
            → All (λ e. (eth_of e.1 ≡ eth e.0) × (token_of e.1 ≡ token e.0)) d
        amounts_of [] h = tt
        amounts_of (e ∷ d) h = ((h.0.1, h.0.2), amounts_of d h.1)

    IsSame-AreIn :
        (s : Dict Ident Reward)
        → ((u : Ident) → implies (contains (keys s) u) (contains index u) ≡ true)
        → All (λ e. (eth_of e.1 ≡ eth e.0) × (token_of e.1 ≡ token e.0)) s
        → AreIn s
    IsSame-AreIn [] h a = tt
    IsSame-AreIn ((u, r) ∷ s) h a = (
      (ground (arith, h u, ==_refl u), a.0.0, a.0.1),
      IsSame-AreIn s (λ v. ground (arith, h v)) a.1,
    )

    -- The comparison finds the rewards equal exactly when they are, whatever the order of the users.
    pub dict_eq-table :
        (d : Dict Ident Reward)
        → HasNoRepeats (keys d)
        → HasNoRepeats index
        → (dict_eq d (table index) ≡ true) ↔ IsSame index eth token d
    unfolding dict_eq
    dict_eq-table d n m = (to, from)
      where
        same_length : length (table index) ≡ length index
        same_length = sym (length-keys (table index)) ∙ ap length (keys-table index)

        to : dict_eq d (table index) ≡ true → IsSame index eth token d
        to h =
            AreIn-IsSame d n (ground (arith, h, same_length))
              ((agrees_on-table d).0 (ground (arith, h)))

        from : IsSame index eth token d → dict_eq d (table index) ≡ true
        from s =
            let below = length-subset index (keys d) m (λ a. ground (arith, s.users a)) in
            let above = length-subset (keys d) index n (λ a. ground (arith, s.users a)) in
            let inside =
              (agrees_on-table d).1 (IsSame-AreIn d (λ u. ground (arith, s.users u)) s.amounts) in
            ground (arith, below, above, inside, same_length, length-keys d)
