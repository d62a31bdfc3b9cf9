-- ===== src/Effects.antt =====
-- Jobs that call the Ethereum client: each call may answer anything, and what was done before an
-- exception stays done.
pub mod Hoare
use validation_node.Prelude.{ℕ, suc, ◌+◌, List, [], ◌∷◌, ◌++◌}
use validation_node.Database.Schema.{Ident, FilterEntry, Db, Error, Result, ok, raise}
use validation_node.Node
use validation_node.Node.{Node, Transaction}

-- What `uninstallFilter` is called with.
pub data Uninstalled : Type 0 where
  by_id : Ident → Uninstalled
  by_entry : FilterEntry → Uninstalled

-- A transaction as it is signed: the call, and the fields that are set for it.
pub record RawTransaction : Type 0 where
  pub event_id : Ident
  pub call : Transaction
  pub nonce : ℕ
  pub gas_price : ℕ
  pub gas : ℕ

-- The node, the number of calls made so far, the filters that were uninstalled, and the transactions
-- that were sent.
pub record World : Type 0 where
  pub node : Node
  pub calls : ℕ
  pub uninstalled : List Uninstalled
  pub sent : List RawTransaction

abbrev pub M : Type 0 → Type 0
M A = World → Result A × World

unfoldable pub return : {A : Type 0} → A → M A
return a w = (ok a, w)

-- A result that is there already: an exception is raised.
unfoldable pub yield : {A : Type 0} → Result A → M A
yield r w = (r, w)

unfoldable pub throw : {A : Type 0} → Error → M A
throw e w = (raise e, w)

-- `try`: an exception becomes a value.
unfoldable pub attempt : {A : Type 0} → M A → M (Result A)
attempt m w = let (r, w') = m w in (ok r, w')

-- A call of the client: the answer may depend on how many calls were made.
unfoldable pub ask : {A : Type 0} → (ℕ → Result A) → M A
ask answer w = (answer w.calls, record w { calls = suc w.calls })

abbrev pub with_db : World → Db → World
with_db w db = record w { node = record (w.node) { db = db } }

unfoldable pub read_db : {A : Type 0} → (Db → A) → M A
read_db f w = (ok (f w.node.db), w)

unfoldable pub change_db : (Db → Db) → M (Unit {0})
change_db f w = (ok tt, with_db w (f w.node.db))

-- A read that can write too, such as `event.metadata()`.
unfoldable pub access_db : {A : Type 0} → (Db → A × Db) → M A
access_db f w = let (a, db) = f w.node.db in (ok a, with_db w db)

unfoldable pub change_node : (Node → Node) → M (Unit {0})
change_node f w = (ok tt, record w { node = f w.node })

unfoldable pub uninstall : List Uninstalled → M (Unit {0})
uninstall filters w = (ok tt, record w { uninstalled = w.uninstalled ++ filters })

unfoldable pub broadcast : RawTransaction → M (Unit {0})
broadcast t w = (ok tt, record w { sent = w.sent ++ t ∷ [] })

abbrev pub resume : {A B : Type 0} → Result A → (A → M B) → M B
resume (ok a) f w = f a w
resume (raise e) f w = (raise e, w)

infixl 5 ◌>>=◌ ◌>>◌
-- To open this opens the actions above.
unfoldable pub ◌>>=◌ : {A B : Type 0} → M A → (A → M B) → M B
unfolding return yield throw attempt ask read_db change_db access_db change_node uninstall broadcast
◌>>=◌ m f w = let (r, w') = m w in resume r f w'

abbrev pub ◌>>◌ : {A B : Type 0} → M A → M B → M B
m >> k = m >>= λ _. k
