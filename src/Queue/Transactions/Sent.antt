-- ===== src/Queue/Transactions/Sent.antt =====
-- What the tries of app/queue_service/transactions.py send.
use validation_node.Prelude.{
  ℕ, zero, suc, ◌+◌, ◌≤◌, Bool, true, false, not, Option, none, some, List, [], ◌∷◌, ◌++◌, length,
  length-append, append-nil, All, All-append, ◌≡◌, refl, sym, ◌∙◌, ap, arith, if◌then◌else◌,
}
use mathlib.Core.List.{append_assoc}
use validation_node.Database.Schema.{Ident, Result, ok, raise}
use validation_node.Node.{
  Transaction, set_rewards, set_results, mark_rewards_set, approve_rewards, reject_rewards,
  node_claim_reward, trigger_state_change, register_node_ip, register_node_ws,
}
use validation_node.Effects.{
  World, M, RawTransaction, return, yield, resume, ◌>>=◌, attempt, ask, broadcast,
}
use validation_node.Client.{Client}
use validation_node.Queue.Transactions.{
  or_retry, when_found, max_retries, fields_of, estimate_gas_limit, estimate_gas_price,
  raw_transaction, next_nonce, should_execute_transaction, try_transaction, execute_tries,
  execute_transaction,
}

-- The new transactions that were sent: at most `k`, all of this call for this event.
pub record Added (event_id : Ident) (t : Transaction) (k : ℕ) (before after : List RawTransaction)
    : Type 0 where
  pub new : List RawTransaction
  pub appended : after ≡ before ++ new
  pub few : length new ≤ k
  pub of_call : All (λ r. (r.event_id ≡ event_id) × (r.call ≡ t)) new

record Sends (event_id : Ident) (t : Transaction) (k : ℕ) {A : Type 0} (m : M A) : Type 0 where
  added : (w : World) → Added event_id t k w.sent (m w).1.sent

module _ {event_id : Ident} {t : Transaction} where
  Added-none : {k : ℕ} (sent : List RawTransaction) → Added event_id t k sent sent
  Added-none sent = record {
    new = [];
    appended = sym (append-nil sent);
    few = omega arith;
    of_call = tt;
  }

  Added-trans :
      {k l : ℕ} {a b c : List RawTransaction}
      → Added event_id t k a b
      → Added event_id t l b c
      → Added event_id t (k + l) a c
  Added-trans {k} {l} {a} {b} {c} p q = record {
    new = p.new ++ q.new;
    appended = q.appended ∙ ap (λ xs. xs ++ q.new) p.appended ∙ append_assoc a p.new q.new;
    few = rw (length-append p.new q.new) (omega (arith, p.few, q.few));
    of_call = All-append _ p.new q.new p.of_call q.of_call;
  }

  Added-le :
      {k l : ℕ} {a b : List RawTransaction}
      → Added event_id t k a b
      → k ≤ l
      → Added event_id t l a b
  Added-le p h = record {
    new = p.new;
    appended = p.appended;
    few = omega (arith, p.few, h);
    of_call = p.of_call;
  }

  module _ {A B : Type 0} where
    Sends-bind :
        (k l n : ℕ) (m : M A) (f : A → M B)
        → k + l ≤ n
        → Sends event_id t k m
        → ((a : A) → Sends event_id t l (f a))
        → Sends event_id t n (m >>= f)
    unfolding ◌>>=◌
    Sends-bind k l n m f h hm hf = record {
      added = λ w. Added-le (Added-trans (hm.added w) (go (m w).0 (m w).1)) h;
    }
      where
        go : (r : Result A) (w : World) → Added event_id t l w.sent (resume r f w).1.sent
        go (ok a) w = (hf a).added w
        go (raise e) w = Added-none w.sent

    -- The first action sends nothing.
    Sends-first :
        {n : ℕ} (m : M A) (f : A → M B)
        → Sends event_id t 0 m
        → ((a : A) → Sends event_id t n (f a))
        → Sends event_id t n (m >>= f)
    Sends-first {n} m f hm hf = Sends-bind 0 n n m f (omega arith) hm hf

  module _ {A : Type 0} where
    Sends-return : {k : ℕ} (a : A) → Sends event_id t k (return a)
    unfolding return
    Sends-return a = record { added = λ w. Added-none w.sent }

    Sends-yield : {k : ℕ} (r : Result A) → Sends event_id t k (yield r)
    unfolding yield
    Sends-yield r = record { added = λ w. Added-none w.sent }

    Sends-ask : {k : ℕ} (answer : ℕ → Result A) → Sends event_id t k (ask answer)
    unfolding ask
    Sends-ask answer = record { added = λ w. Added-none w.sent }

    Sends-attempt : {k : ℕ} (m : M A) → Sends event_id t k m → Sends event_id t k (attempt m)
    unfolding attempt
    Sends-attempt m h = record { added = λ w. h.added w }

  Sends-broadcast :
      (nonce price gas : ℕ) → Sends event_id t 1 (broadcast (fields_of event_id t nonce price gas))
  unfolding broadcast
  Sends-broadcast nonce price gas = record {
    added = λ w. record {
      new = fields_of event_id t nonce price gas ∷ [];
      appended = refl;
      few = omega arith;
      of_call = ((refl, refl), tt);
    };
  }

  Sends-or_retry :
      {A : Type 0} {n : ℕ} (r : Result A) (rest : M (Option A))
      → Sends event_id t n rest
      → Sends event_id t n (or_retry r rest)
  Sends-or_retry (ok a) rest h = Sends-return (some a)
  Sends-or_retry (raise e) rest h = h

  Sends-when_found :
      {A B : Type 0} {n : ℕ} (found : Option A) (f : A → M (Option B))
      → ((a : A) → Sends event_id t n (f a))
      → Sends event_id t n (when_found found f)
  Sends-when_found none f h = Sends-return none
  Sends-when_found (some a) f h = h a

  Sends-if :
      {A : Type 0} {n : ℕ} (b : Bool) (m k : M A)
      → Sends event_id t n m
      → Sends event_id t n k
      → Sends event_id t n (if b then m else k)
  Sends-if true m k h h' = h
  Sends-if false m k h h' = h'

module _ (client : Client) (event_id : Ident) where
  module _ (t : Transaction) where
    Sends-nonce : (tries : ℕ) → Sends event_id t 0 (next_nonce client tries)
    unfolding next_nonce
    Sends-nonce zero = Sends-return none
    Sends-nonce (suc tries) =
        Sends-first _ _ (Sends-attempt _ (Sends-ask _)) λ r. Sends-or_retry r _ (Sends-nonce tries)

    Sends-try :
        (retry nonce : ℕ) → Sends event_id t 1 (try_transaction client event_id t retry nonce)
    unfolding try_transaction raw_transaction estimate_gas_limit estimate_gas_price
    Sends-try retry nonce =
        Sends-first _ _ (Sends-first _ _ (Sends-ask _) λ price. Sends-return _) λ price.
          Sends-bind 1 0 1 _ _ (omega arith)
            (Sends-first _ _ (Sends-first _ _ (Sends-attempt _ (Sends-ask _)) λ r. Sends-return _)
              λ gas. Sends-first _ _ (Sends-yield _) λ signed.
                Sends-bind 1 0 1 _ _ (omega arith) (Sends-broadcast nonce price gas)
                  λ _. Sends-ask _)
            λ hash. Sends-ask _

    Sends-tries :
        (tries retry : ℕ) → Sends event_id t tries (execute_tries client tries retry event_id t)
    unfolding execute_tries
    Sends-tries zero retry = Sends-return none
    Sends-tries (suc tries) retry = Sends-first _ _ (Sends-nonce max_retries) λ found.
        Sends-when_found found _ λ nonce.
          Sends-bind 1 tries (suc tries) _ _ (omega arith) (Sends-attempt _ (Sends-try retry nonce))
            λ r. Sends-or_retry r _ (Sends-tries tries (suc retry))

  -- `t'` is the call that is sent.
  Sends-should :
      (t' t : Transaction) → Sends event_id t' 0 (should_execute_transaction client event_id t)
  unfolding should_execute_transaction
  Sends-should t' (approve_rewards round) = Sends-first _ _ (Sends-ask _) λ state. Sends-return _
  Sends-should t' (reject_rewards round hash) =
      Sends-first _ _ (Sends-ask _) λ state. Sends-return _
  Sends-should t' (set_rewards us es ts) = Sends-return true
  Sends-should t' (set_results answers) = Sends-return true
  Sends-should t' (mark_rewards_set hash) = Sends-return true
  Sends-should t' node_claim_reward = Sends-return true
  Sends-should t' trigger_state_change = Sends-return true
  Sends-should t' (register_node_ip node_ip) = Sends-return true
  Sends-should t' (register_node_ws node_ip) = Sends-return true

  Sends-execute :
      (t : Transaction) → Sends event_id t max_retries (execute_transaction client event_id t)
  unfolding execute_transaction
  Sends-execute t =
      Sends-first _ _ (Sends-should t t)
        λ should. Sends-if (not should) _ _ (Sends-return none) (Sends-tries t max_retries 0)

  -- Executing a call sends it at most three times, and sends nothing else, whatever the client answers
  -- and also when an exception is raised.
  pub execute_transaction-Added :
      (t : Transaction) (w : World)
      → Added event_id t max_retries w.sent (execute_transaction client event_id t w).1.sent
  execute_transaction-Added t w = (Sends-execute t).added w
