-- ===== src/Queue/Transactions.antt =====
-- How a transaction is sent (app/queue_service/transactions.py). The pauses between tries are left
-- out, and so is what is logged.
pub mod Sent
pub mod Returns
use validation_node.Prelude.{
  ℕ, zero, suc, ◌*◌, ◌^◌, Bool, true, not, Option, none, some, eqb, if◌then◌else◌,
}
use validation_node.Float.{Float, of_int, int_div, mul, add, trunc}
use validation_node.Database.Schema.{Ident, Result, ok, raise}
use validation_node.Node.{Transaction, approve_rewards, reject_rewards}
use validation_node.Effects.{M, RawTransaction, return, yield, ◌>>=◌, ◌>>◌, attempt, ask, broadcast}
use validation_node.Client.{Client}

-- `GAS_PRICE_FACTOR` and `GAS_LIMIT_FACTOR`, both 1.2
unfoldable pub gas_factor : Float
unfolding int_div
gas_factor = int_div 6 5

-- `Web3.toWei(n, 'gwei')`
unfoldable pub gwei : ℕ → ℕ
gwei n = n * 10 ^ 9

-- `max_retries`
abbrev pub max_retries : ℕ
max_retries = 3

abbrev pub fields_of : Ident → Transaction → ℕ → ℕ → ℕ → RawTransaction
fields_of event_id t nonce gas_price gas = record {
  event_id = event_id;
  call = t;
  nonce = nonce;
  gas_price = gas_price;
  gas = gas;
}

-- `_estimate_gas_limit`, by what `estimateGas` does.
abbrev pub gas_limit_of : Result ℕ → ℕ
gas_limit_of (ok gas) = trunc (mul gas_factor (of_int gas))
gas_limit_of (raise e) = 1000000

-- The loops return what a try gives, and go on after an exception.
abbrev pub or_retry : {A : Type 0} → Result A → M (Option A) → M (Option A)
or_retry (ok a) rest = return (some a)
or_retry (raise e) rest = rest

abbrev pub when_found : {A B : Type 0} → Option A → (A → M (Option B)) → M (Option B)
when_found none f = return none
when_found (some a) f = f a

module _ (client : Client) where
  unfoldable pub estimate_gas_limit : Ident → Transaction → M ℕ
  estimate_gas_limit event_id t =
      attempt (ask (client.estimate_gas event_id t)) >>= λ r. return (gas_limit_of r)

  unfoldable pub estimate_gas_price : ℕ → M ℕ
  estimate_gas_price wei_addition = ask client.generate_gas_price >>= λ price.
      return (trunc (add (mul gas_factor (of_int price)) (of_int wei_addition)))

  unfoldable pub raw_transaction : Ident → Transaction → ℕ → ℕ → M Ident
  raw_transaction event_id t gas_price nonce = do
    gas ← estimate_gas_limit event_id t
    let raw = fields_of event_id t nonce gas_price gas
    signed ← yield (client.sign_transaction raw)
    broadcast raw
    ask (client.send_raw_transaction signed)

  -- The tries that are left come first.
  unfoldable pub next_nonce : ℕ → M (Option ℕ)
  next_nonce zero = return none
  next_nonce (suc tries) =
      attempt (ask client.transaction_count) >>= λ r. or_retry r (next_nonce tries)

  -- A vote on the rewards is only sent while the event is validated.
  unfoldable pub should_execute_transaction : Ident → Transaction → M Bool
  should_execute_transaction event_id (approve_rewards round) =
      ask (client.validation_state event_id) >>= λ state. return (eqb state 1)
  should_execute_transaction event_id (reject_rewards round hash) =
      ask (client.validation_state event_id) >>= λ state. return (eqb state 1)
  should_execute_transaction event_id t = return true

  -- One pass of the loop, from the nonce on.
  unfoldable pub try_transaction : Ident → Transaction → ℕ → ℕ → M Ident
  try_transaction event_id t retry nonce = do
    gas_price ← estimate_gas_price (gwei retry)
    hash ← raw_transaction event_id t gas_price nonce
    ask (client.wait_for_receipt hash)

  unfoldable pub execute_tries : ℕ → ℕ → Ident → Transaction → M (Option Ident)
  execute_tries zero retry event_id t = return none
  execute_tries (suc tries) retry event_id t = next_nonce max_retries >>= λ found.
      when_found found λ nonce. attempt (try_transaction event_id t retry nonce) >>= λ r.
      or_retry r (execute_tries tries (suc retry) event_id t)

  unfoldable pub execute_transaction : Ident → Transaction → M (Option Ident)
  unfolding execute_tries
  execute_transaction event_id t = should_execute_transaction event_id t >>= λ should.
      if not should then return none else execute_tries max_retries 0 event_id t
