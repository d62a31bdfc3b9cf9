-- ===== src/Queue/Transactions/Returns.antt =====
-- Whether app/queue_service/transactions.py raises.
use validation_node.Prelude.{
  ℕ, zero, suc, Bool, true, false, not, Option, none, some, eqb, ◌≡◌, refl, ◌∙◌, ap, if◌then◌else◌,
}
use validation_node.Database.Schema.{Ident, Result, ok, raise}
use validation_node.Node.{Transaction, approve_rewards}
use validation_node.Effects.{World, M, return, resume, ◌>>=◌, attempt}
use validation_node.Client.{Client}
use validation_node.Queue.Transactions.{
  or_retry, when_found, max_retries, next_nonce, should_execute_transaction, execute_tries,
  execute_transaction,
}

-- The action does not raise.
record Returns {A : Type 0} (m : M A) : Type 0 where
  result : (w : World) → (a : A) × ((m w).0 ≡ ok a)

module _ {A B : Type 0} where
  Returns-bind : (m : M A) (f : A → M B) → Returns m → ((a : A) → Returns (f a)) → Returns (m >>= f)
  unfolding ◌>>=◌
  Returns-bind m f hm hf = record {
    result = λ w.
        let (a, e) = hm.result w in
        let (b, e') = (hf a).result (m w).1 in (b, ap (λ r. (resume r f (m w).1).0) e ∙ e');
  }

module _ {A : Type 0} where
  Returns-or_retry : (r : Result A) (rest : M (Option A)) → Returns rest → Returns (or_retry r rest)
  unfolding return
  Returns-or_retry (ok a) rest h = record { result = λ w. (some a, refl) }
  Returns-or_retry (raise e) rest h = h

  Returns-attempt : (m : M A) → Returns (attempt m)
  unfolding attempt
  Returns-attempt m = record { result = λ w. ((m w).0, refl) }

  Returns-return : (a : A) → Returns (return a)
  unfolding return
  Returns-return a = record { result = λ w. (a, refl) }

module _ {A B : Type 0} where
  Returns-when_found :
      (found : Option A) (f : A → M (Option B))
      → ((a : A) → Returns (f a))
      → Returns (when_found found f)
  unfolding return
  Returns-when_found none f h = record { result = λ w. (none, refl) }
  Returns-when_found (some a) f h = h a

module _ (client : Client) (event_id : Ident) (t : Transaction) where
  Returns-nonce : (tries : ℕ) → Returns (next_nonce client tries)
  unfolding next_nonce
  Returns-nonce zero = Returns-return none
  Returns-nonce (suc tries) =
      Returns-bind _ _ (Returns-attempt _) λ r. Returns-or_retry r _ (Returns-nonce tries)

  Returns-tries : (tries retry : ℕ) → Returns (execute_tries client tries retry event_id t)
  unfolding execute_tries
  Returns-tries zero retry = Returns-return none
  Returns-tries (suc tries) retry = Returns-bind _ _ (Returns-nonce max_retries) λ found.
      Returns-when_found found _ λ nonce.
        Returns-bind _ _ (Returns-attempt _)
          λ r. Returns-or_retry r _ (Returns-tries tries (suc retry))

  Returns-if :
      (b : Bool)
      → Returns (if b then return none else execute_tries client max_retries 0 event_id t)
  Returns-if true = Returns-return none
  Returns-if false = Returns-tries max_retries 0

  -- Once it is known whether the call is to be sent, the execution ends without an exception.
  pub execute_transaction-ok :
      (w : World) (should : Bool)
      → (should_execute_transaction client event_id t w).0 ≡ ok should
      → (result : Option Ident) × ((execute_transaction client event_id t w).0 ≡ ok result)
  unfolding execute_transaction ◌>>=◌
  execute_transaction-ok w should h =
      let w' = (should_execute_transaction client event_id t w).1 in
      let (result, e) = (Returns-if (not should)).result w' in
      (
        result,
        ap
              (λ r.
                (resume r
                  (λ s.
                    if not s then return none else execute_tries client max_retries 0 event_id t)
                  w').0)
              h
            ∙ e,
      )

module _ (client : Client) (event_id : Ident) (w : World) where
  -- An approval of the rewards of an event whose state is not 1 is dropped: it has no result, nothing is
  -- sent, and nothing is asked but the state.
  pub approve-not_validating :
      (round state : ℕ)
      → client.validation_state event_id w.calls ≡ ok state
      → eqb state 1 ≡ false
      → execute_transaction client event_id (approve_rewards round) w
        ≡ (ok none, record w { calls = suc w.calls })
  unfolding execute_transaction should_execute_transaction ◌>>=◌
  approve-not_validating round state e n = rw (e, n) refl
