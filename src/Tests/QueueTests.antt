-- ===== src/Tests/QueueTests.antt =====
-- Tests of the transaction queue.
use validation_node.Prelude.{
  eqb, if◌then◌else◌, arith, true, Option, none, some, [], ◌∷◌, ◌++◌, ◌≡◌, refl,
}
use validation_node.Prelude.Eq.{nat_eq}
use validation_node.Database.Schema.{Ident, Result, ok, raise, connection_error}
use validation_node.Node.{trigger_state_change, node_claim_reward}
use validation_node.Queue.Transactions.{
  max_retries, should_execute_transaction, execute_transaction,
}
use validation_node.Queue.Transactions.Sent.{Added, execute_transaction-Added}
use validation_node.Queue.Transactions.Returns.{execute_transaction-ok}
use validation_node.Queue.Service.{
  QueuedJob, Service, put, get, complete, run_queue_worker, collect,
}
use validation_node.Queue.Service.Order.{nothing_yet, puts, gets, completes, waiting, Run-order}
use validation_node.Queue.Service.Worker.{idle, result_of, collect-put, collect-stuck}
use validation_node.Tests.WatchTests.{sample_client, sample_world}

execute_transaction-Added_example :
    Added 1 trigger_state_change max_retries []
      (execute_transaction sample_client 1 trigger_state_change sample_world).1.sent
execute_transaction-Added_example =
    execute_transaction-Added sample_client 1 trigger_state_change sample_world

should : (should_execute_transaction sample_client 1 trigger_state_change sample_world).0 ≡ ok true
unfolding should_execute_transaction validation_node.Effects.return
should = refl

execute_transaction-ok_example :
    (result : Option Ident) × ((execute_transaction sample_client 1 trigger_state_change
        sample_world).0
      ≡ ok result)
execute_transaction-ok_example =
    execute_transaction-ok sample_client 1 trigger_state_change sample_world true should

abbrev claim_job : QueuedJob
claim_job = record { id = 5; event_id = 1; transaction = node_claim_reward }

abbrev state_job : QueuedJob
state_job = record { id = 6; event_id = 1; transaction = trigger_state_change }

abbrev two_put : Service
two_put = put state_job (put claim_job (idle [] []))

taken : (get two_put).running ≡ some claim_job
unfolding get put
taken = refl

-- Two jobs are put, and the first is finished.
Run-order_example :
    claim_job ∷ state_job ∷ []
    ≡ (claim_job ∷ []) ++ waiting (complete claim_job (ok none) (get two_put))
Run-order_example =
    Run-order
      (completes claim_job (ok none) taken (gets (puts state_job (puts claim_job nothing_yet))))

abbrev hash_of : QueuedJob → Option Ident
hash_of j = some j.id

collect-put_example :
    (collect 6
      (run_queue_worker (λ k. ok (hash_of k)) 2 (put state_job (idle (claim_job ∷ []) [])))).0
    ≡ some (result_of hash_of state_job)
collect-put_example = collect-put hash_of (claim_job ∷ []) [] state_job

abbrev third_job : QueuedJob
third_job = record claim_job { id = 9 }

-- The approval raises; the calls without a test before them do not.
abbrev loses_approvals : QueuedJob → Result (Option Ident)
loses_approvals j = if eqb j.id state_job.id then raise connection_error else ok (some 1)

collect-stuck_example :
    (collect 9
      (run_queue_worker loses_approvals 7 (put third_job (idle (claim_job ∷ state_job ∷ []) [])))).0
    ≡ none
collect-stuck_example =
    collect-stuck loses_approvals (claim_job ∷ []) [] state_job third_job connection_error [] 7 refl
      (((some 1, refl), omega arith), tt) refl
