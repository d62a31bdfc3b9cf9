-- ===== src/Queue/Service.antt =====
-- The queue and its worker (app/queue_service/queue_service.py), and the waiting side of
-- `queue_transaction` (app/queue_service/transactions.py).
pub mod Order
pub mod Worker
use validation_node.Prelude.{
  ℕ, zero, suc, Bool, true, false, not, Option, none, some, List, [], ◌∷◌, ◌++◌, if◌then◌else◌,
}
use validation_node.Prelude.Eq.{nat_eq}
use validation_node.Prelude.Dict.{Dict, lookup, insert, erase}
use validation_node.Database.Schema.{Ident, Result, ok, raise}
use validation_node.Node.{Transaction}

-- The function of a job is `_execute_transaction`; its id is a fresh uuid.
pub record QueuedJob : Type 0 where
  pub id : Ident
  pub event_id : Ident
  pub transaction : Transaction

pub record JobResult : Type 0 where
  pub id : Ident
  pub event_id : Ident
  pub result : Option Ident

-- `QUEUE_IN`, the job that the worker has taken, `RESULTS_DICT`, and whether the worker still runs.
pub record Service : Type 0 where
  pub queue_in : List QueuedJob
  pub running : Option QueuedJob
  pub results_dict : Dict Ident JobResult
  pub is_alive : Bool

abbrev pub started : Service
started = record { queue_in = []; running = none; results_dict = []; is_alive = true }

-- `QUEUE_IN.put`
unfoldable pub put : QueuedJob → Service → Service
put j s = record s { queue_in = s.queue_in ++ j ∷ [] }

abbrev take_first : List QueuedJob → Service → Service
take_first [] s = s
take_first (j ∷ jobs) s = record s { queue_in = jobs; running = some j }

-- `queue_in.get(block=False)`, by a worker that has no job
unfoldable pub get : Service → Service
get s = elim s.running [ none ↦ if s.is_alive then take_first s.queue_in s else s | some j ↦ s ]

-- The end of a job. The worker's loop catches nothing.
unfoldable pub complete : QueuedJob → Result (Option Ident) → Service → Service
complete j (ok result) s = record s {
  running = none;
  results_dict =
      insert j.id (record { id = j.id; event_id = j.event_id; result = result }) s.results_dict;
}
complete j (raise e) s = record s { running = none; is_alive = false }

-- One pass of the worker's loop.
unfoldable pub worker_pass : (QueuedJob → Result (Option Ident)) → Service → Service
unfolding get complete
worker_pass execute s =
    let s' = get s in elim s'.running [ none ↦ s' | some j ↦ complete j (execute j) s' ]

unfoldable pub run_queue_worker : (QueuedJob → Result (Option Ident)) → ℕ → Service → Service
run_queue_worker execute zero s = s
run_queue_worker execute (suc passes) s = run_queue_worker execute passes (worker_pass execute s)

-- `job.id_ in RESULTS_DICT`, and `RESULTS_DICT.pop`
unfoldable pub collect : Ident → Service → Option JobResult × Service
collect id s = (lookup id s.results_dict, record s { results_dict = erase id s.results_dict })
