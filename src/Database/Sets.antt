-- ===== src/Database/Sets.antt =====
-- Laws of the Redis sets and lists of Schema, and of Python's `in`.
use validation_node.Prelude.{
  suc, ◌≤◌, length, Bool, true, false, not, List, [], ◌∷◌, ◌++◌, ◌≡◌, ◌≢◌, refl, arith, ◌||◌,
  Bool-cases, inl, inr,
}
use validation_node.Prelude.Eq.{Eq, ◌==◌, contains, HasNoRepeats, ==_refl, ==_iff}
use validation_node.Database.Schema.{sadd, lrem, distinct_onto, distinct}

abbrev pub implies : Bool → Bool → Bool
implies a b = not a || b

module _ {ℓ} {A : Type ℓ} ⦃e : Eq A⦄ where
  pub contains-append :
      (xs ys : List A) (a : A) → contains (xs ++ ys) a ≡ (contains xs a || contains ys a)
  contains-append [] ys a = refl
  contains-append (x ∷ xs) ys a = ground (arith, contains-append xs ys a)

  pub contains-sadd :
      (x : A) (xs : List A) (a : A) → contains (sadd x xs) a ≡ (a == x || contains xs a)
  contains-sadd x xs a = ground (arith, contains-append xs (x ∷ []) a, ==_iff a x)

  pub contains-sadd_self : (x : A) (xs : List A) → contains (sadd x xs) x ≡ true
  contains-sadd_self x xs = ground (arith, contains-sadd x xs x, ==_refl x)

  pub contains-sadd_of :
      (x : A) (xs : List A) (a : A) → contains xs a ≡ true → contains (sadd x xs) a ≡ true
  contains-sadd_of x xs a h = ground (arith, contains-sadd x xs a)

  pub contains-distinct_onto :
      (acc xs : List A) (a : A)
      → contains (distinct_onto acc xs) a ≡ (contains acc a || contains xs a)
  contains-distinct_onto acc [] a = ground arith
  contains-distinct_onto acc (x ∷ xs) a =
      ground (arith, contains-distinct_onto (sadd x acc) xs a, contains-sadd x acc a)

  pub contains-distinct : (xs : List A) (a : A) → contains (distinct xs) a ≡ contains xs a
  contains-distinct xs a = contains-distinct_onto [] xs a

  pub append-HasNoRepeats :
      (xs : List A) (x : A) → HasNoRepeats xs → contains xs x ≡ false → HasNoRepeats (xs ++ x ∷ [])
  append-HasNoRepeats [] x h n = (refl, tt)
  append-HasNoRepeats (y ∷ xs) x (m, h) n = (
    ground (arith, contains-append xs (x ∷ []) y, ==_iff x y, ==_iff y x),
    append-HasNoRepeats xs x h (ground arith),
  )

  contains-lrem :
      (x : A) (xs : List A) (a : A) → contains xs a ≡ false → contains (lrem x xs) a ≡ false
  contains-lrem x [] a h = refl
  contains-lrem x (y ∷ xs) a h = ground (arith, contains-lrem x xs a)

  pub lrem-HasNoRepeats : (x : A) (xs : List A) → HasNoRepeats xs → HasNoRepeats (lrem x xs)
  lrem-HasNoRepeats x [] h = tt
  lrem-HasNoRepeats x (y ∷ xs) (m, h) =
      ground (arith, lrem-HasNoRepeats x xs h, contains-lrem x xs y m)

  pub contains-lrem_self : (x : A) (xs : List A) → HasNoRepeats xs → contains (lrem x xs) x ≡ false
  contains-lrem_self x [] h = refl
  contains-lrem_self x (y ∷ xs) (m, h) = ground (arith, contains-lrem_self x xs h, ==_iff x y)

  pub contains-lrem_ne :
      (x : A) (xs : List A) (a : A) → a ≢ x → contains (lrem x xs) a ≡ contains xs a
  contains-lrem_ne x [] a n = refl
  contains-lrem_ne x (y ∷ xs) a n =
      ground (arith, contains-lrem_ne x xs a n, ==_iff x y, ==_iff a y)

  pub sadd-HasNoRepeats : (x : A) (xs : List A) → HasNoRepeats xs → HasNoRepeats (sadd x xs)
  sadd-HasNoRepeats x xs h = elim (Bool-cases (contains xs x)) [
    | inl old ↦ rw old h
    | inr new ↦ rw new (append-HasNoRepeats xs x h new)
  ]

  length-lrem : (x : A) (xs : List A) → contains xs x ≡ true → length xs ≡ suc (length (lrem x xs))
  length-lrem x [] h = ground arith
  length-lrem x (y ∷ ys) h = ground (arith, length-lrem x ys, ==_iff x y)

  -- What has no element twice is no longer than what has all its elements.
  pub length-subset :
      (xs ys : List A)
      → HasNoRepeats xs
      → ((a : A) → implies (contains xs a) (contains ys a) ≡ true)
      → length xs ≤ length ys
  length-subset [] ys n h = omega arith
  length-subset (x ∷ xs) ys (m, n) h = ground (
    arith,
    h x,
    ==_refl x,
    length-lrem x ys,
    length-subset xs (lrem x ys) n (λ a.
        ground
          (arith, h a, h x, m, ==_iff a x, Bool-cases (contains xs a), contains-lrem_ne x ys a)),
  )
