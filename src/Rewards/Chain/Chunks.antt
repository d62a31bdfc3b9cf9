-- ===== src/Rewards/Chain/Chunks.antt =====
-- The chunks of a list are its parts in order, and the master node sends all the rewards in them.
use mathlib.Core.List.{append_assoc}
use validation_node.Prelude.{
  ℕ, zero, suc, ◌≤◌, ◌<◌, true, List, [], ◌∷◌, ◌++◌, ◌≡◌, refl, sym, ap, ◌∙◌, arith, map, length,
  take, drop, All, length-take, length-drop, take-append-drop, append-nil, ◌&&◌, eqb,
}
use validation_node.Prelude.Int.{ℤ}
use validation_node.Database.Schema.{Ident, ok}
use validation_node.Database.Rewards.{Lists3}
use validation_node.Node.{Node, Transaction, set_rewards, queue_transaction}
use validation_node.Rewards.Chain.{
  chunk_size, chunks_from, list_to_chunks, zip3, lists_to_chunks, queue_chunks,
  set_rewards_on_blockchain,
}

abbrev pub concat : {A : Type 0} → List (List A) → List A
concat [] = []
concat (xs ∷ xss) = xs ++ concat xss

abbrev pub IsChunk : {A : Type 0} → List A → Type 0
IsChunk xs = (0 < length xs) × (length xs ≤ chunk_size)

concat-chunks_from :
    {A : Type 0} (fuel : ℕ) (xs : List A)
    → length xs ≤ fuel
    → (concat (chunks_from fuel chunk_size xs) ≡ xs) × All IsChunk (chunks_from fuel chunk_size xs)
unfolding chunks_from
concat-chunks_from zero [] h = (refl, tt)
concat-chunks_from zero (x ∷ xs) h = absurd (omega arith)
concat-chunks_from (suc fuel) [] h = (refl, tt)
concat-chunks_from (suc fuel) (x ∷ xs) h =
    let (same, chunks) =
      concat-chunks_from fuel (drop chunk_size (x ∷ xs))
        (omega (arith, h, length-drop chunk_size (x ∷ xs))) in
    (
      ap (λ rest. take chunk_size (x ∷ xs) ++ rest) same ∙ take-append-drop chunk_size (x ∷ xs),
      (
        (
          omega (arith, length-take chunk_size (x ∷ xs)),
          omega (arith, length-take chunk_size (x ∷ xs)),
        ),
        chunks,
      ),
    )

-- The chunks together are the list, and each has from one to `CHUNK_SIZE` elements.
pub concat-list_to_chunks :
    {A : Type 0} (xs : List A) → (concat (list_to_chunks xs) ≡ xs) × All IsChunk (list_to_chunks xs)
unfolding list_to_chunks
concat-list_to_chunks xs = concat-chunks_from (length xs) xs (omega arith)

-- What the contract has after calls of `setRewards` one after the other.
abbrev pub concat3 : List Lists3 → Lists3
concat3 [] = ([], [], [])
concat3 ((us, es, ts) ∷ chunks) =
    let (us', es', ts') = concat3 chunks in (us ++ us', es ++ es', ts ++ ts')

-- A call has the same number of users and rewards, and not more than fit.
abbrev pub IsCall : Lists3 → Type 0
IsCall (us, es, ts) = IsChunk us × (length es ≡ length us) × (length ts ≡ length us)

triple :
    {us us' : List Ident} {es es' ts ts' : List ℤ}
    → us ≡ us'
    → es ≡ es'
    → ts ≡ ts'
    → ◌≡◌ {A = Lists3} (us, es, ts) (us', es', ts')
triple p q r = cc (p, q, r)

concat3-zip3 :
    (fuel : ℕ) (us : List Ident) (es ts : List ℤ)
    → length us ≤ fuel
    → length es ≡ length us
    → length ts ≡ length us
    → (concat3 (
          zip3
            (chunks_from fuel chunk_size us)
            (chunks_from fuel chunk_size es)
            (chunks_from fuel chunk_size ts))
        ≡ (us, es, ts))
      × All IsCall (
          zip3
            (chunks_from fuel chunk_size us)
            (chunks_from fuel chunk_size es)
            (chunks_from fuel chunk_size ts))
unfolding chunks_from zip3
concat3-zip3 zero [] [] [] h p q = (refl, tt)
concat3-zip3 (suc fuel) [] [] [] h p q = (refl, tt)
concat3-zip3 fuel [] (e ∷ es) ts h p q = absurd (omega arith)
concat3-zip3 fuel [] es (t ∷ ts) h p q = absurd (omega arith)
concat3-zip3 fuel (u ∷ us) [] ts h p q = absurd (omega arith)
concat3-zip3 fuel (u ∷ us) es [] h p q = absurd (omega arith)
concat3-zip3 zero (u ∷ us) (e ∷ es) (t ∷ ts) h p q = absurd (omega arith)
concat3-zip3 (suc fuel) (u ∷ us) (e ∷ es) (t ∷ ts) h p q =
    let du = length-drop chunk_size (u ∷ us) in
    let de = length-drop chunk_size (e ∷ es) in
    let dt = length-drop chunk_size (t ∷ ts) in
    let tu = length-take chunk_size (u ∷ us) in
    let te = length-take chunk_size (e ∷ es) in
    let tt' = length-take chunk_size (t ∷ ts) in
    let (same, calls) =
      concat3-zip3 fuel (drop chunk_size (u ∷ us)) (drop chunk_size (e ∷ es))
        (drop chunk_size (t ∷ ts)) (omega arith) (omega arith) (omega arith) in
    (
      ap
            (λ (c : Lists3). (
              take chunk_size (u ∷ us) ++ c.0,
              take chunk_size (e ∷ es) ++ c.1,
              take chunk_size (t ∷ ts) ++ c.2,
            ))
            same
          ∙ triple (take-append-drop chunk_size (u ∷ us)) (take-append-drop chunk_size (e ∷ es))
              (take-append-drop chunk_size (t ∷ ts)),
      (((omega arith, omega arith), omega arith, omega arith), calls),
    )

abbrev pub call_of : Ident → Lists3 → Ident × Transaction
call_of event_id (us, es, ts) = (event_id, set_rewards us es ts)

queue_chunks-eq :
    (event_id : Ident) (chunks : List Lists3) (node : Node)
    → queue_chunks event_id chunks node
      ≡ record node { submitted = node.submitted ++ map (call_of event_id) chunks }
unfolding queue_chunks queue_transaction
queue_chunks-eq event_id [] node =
    ap (λ s. record node { submitted = s }) (sym (append-nil node.submitted))
queue_chunks-eq event_id ((us, es, ts) ∷ chunks) node =
    queue_chunks-eq event_id chunks
      (record node { submitted = node.submitted ++ (event_id, set_rewards us es ts) ∷ [] })
    ∙ ap (λ s. record node { submitted = s })
        (append_assoc node.submitted ((event_id, set_rewards us es ts) ∷ [])
          (map (call_of event_id) chunks))

lists_to_chunks-eq :
    (us : List Ident) (es ts : List ℤ)
    → length es ≡ length us
    → length ts ≡ length us
    → lists_to_chunks us es ts
      ≡ ok (
          zip3
            (chunks_from (length us) chunk_size us)
            (chunks_from (length us) chunk_size es)
            (chunks_from (length us) chunk_size ts))
unfolding lists_to_chunks list_to_chunks
lists_to_chunks-eq us es ts p q =
    let test : (eqb (length us) (length es) && eqb (length us) (length ts)) ≡ true = ground arith in
    rw (test, p, q) refl

-- Rewards of as many users as amounts are sent without an error, by calls of `setRewards` that follow
-- what was sent before, with at most `CHUNK_SIZE` users each, and that together have the users and the
-- rewards in order.
pub set_rewards_complete :
    (event_id : Ident) (us : List Ident) (es ts : List ℤ) (node : Node)
    → length es ≡ length us
    → length ts ≡ length us
    → (calls : List Lists3) × (set_rewards_on_blockchain event_id us es ts node
        ≡ ok (record node { submitted = node.submitted ++ map (call_of event_id) calls }))
      × (concat3 calls ≡ (us, es, ts))
      × All IsCall calls
unfolding set_rewards_on_blockchain
set_rewards_complete event_id us es ts node p q =
    let (same, calls) = concat3-zip3 (length us) us es ts (omega arith) p q in
    (
      zip3 (chunks_from (length us) chunk_size us) (chunks_from (length us) chunk_size es)
          (chunks_from (length us) chunk_size ts),
      rw (lists_to_chunks-eq us es ts p q) (ap ok (queue_chunks-eq event_id _ node)),
      same,
      calls,
    )
