-- ===== src/Queue/Service/Worker.antt =====
-- What the worker's loop makes of the queue (app/queue_service/queue_service.py).
use mathlib.Core.List.{append_assoc}
use validation_node.Prelude.{
  ℕ, zero, suc, true, false, Option, none, some, List, [], ◌∷◌, ◌++◌, length, length-append, ◌≡◌,
  ◌≢◌, All, refl, ap, ◌∙◌, arith,
}
use validation_node.Prelude.Eq.{nat_eq}
use validation_node.Prelude.Dict.{Dict, lookup, insert, lookup-insert_self, lookup-insert_ne}
use validation_node.Database.Schema.{Ident, Result, ok, raise, Error}
use validation_node.Queue.Service.{
  QueuedJob, JobResult, Service, put, get, complete, worker_pass, run_queue_worker, collect,
}

-- A service whose worker runs and has no job.
abbrev pub idle : List QueuedJob → Dict Ident JobResult → Service
idle jobs results = record {
  queue_in = jobs;
  running = none;
  results_dict = results;
  is_alive = true;
}

abbrev pub dead : List QueuedJob → Dict Ident JobResult → Service
dead jobs results = record {
  queue_in = jobs;
  running = none;
  results_dict = results;
  is_alive = false;
}

module _ (result : QueuedJob → Option Ident) where
  abbrev pub result_of : QueuedJob → JobResult
  result_of j = record { id = j.id; event_id = j.event_id; result = result j }

  -- The results of jobs, stored one after the other.
  abbrev pub store_all : List QueuedJob → Dict Ident JobResult → Dict Ident JobResult
  store_all [] d = d
  store_all (j ∷ jobs) d = store_all jobs (insert j.id (result_of j) d)

  store_all-append :
      (jobs : List QueuedJob) (j : QueuedJob) (d : Dict Ident JobResult)
      → store_all (jobs ++ j ∷ []) d ≡ insert j.id (result_of j) (store_all jobs d)
  store_all-append [] j d = refl
  store_all-append (x ∷ jobs) j d = store_all-append jobs j (insert x.id (result_of x) d)

  -- When no job raises, the worker empties the queue in as many passes as there are jobs, and stores
  -- their results in the queue's order.
  pub run_queue_worker-idle :
      (jobs : List QueuedJob) (d : Dict Ident JobResult)
      → run_queue_worker (λ j. ok (result j)) (length jobs) (idle jobs d)
        ≡ idle [] (store_all jobs d)
  unfolding run_queue_worker worker_pass get complete
  run_queue_worker-idle [] d = refl
  run_queue_worker-idle (j ∷ jobs) d = run_queue_worker-idle jobs (insert j.id (result_of j) d)

  -- When no job raises, and the worker runs and has no job: a job that is put behind others gets its own
  -- result, which is there to be collected after one pass for each job in the queue.
  pub collect-put :
      (jobs : List QueuedJob) (d : Dict Ident JobResult) (j : QueuedJob)
      → (collect j.id
          (run_queue_worker (λ k. ok (result k)) (suc (length jobs)) (put j (idle jobs d)))).0
        ≡ some (result_of j)
  unfolding collect put
  collect-put jobs d j =
      ap (λ n. (collect j.id (run_queue_worker (λ k. ok (result k)) n (idle (jobs ++ j ∷ []) d))).0)
        count
      ∙ ap (λ s. (collect j.id s).0) (run_queue_worker-idle (jobs ++ j ∷ []) d)
      ∙ ap (lookup j.id) (store_all-append jobs j d)
      ∙ lookup-insert_self j.id (result_of j) (store_all jobs d)
    where
      count : suc (length jobs) ≡ length (jobs ++ j ∷ [])
      count = omega (arith, length-append jobs (j ∷ []))

module _ (execute : QueuedJob → Result (Option Ident)) where
  run_queue_worker-dead :
      (passes : ℕ) (jobs : List QueuedJob) (d : Dict Ident JobResult)
      → run_queue_worker execute passes (dead jobs d) ≡ dead jobs d
  unfolding run_queue_worker worker_pass get
  run_queue_worker-dead zero jobs d = refl
  run_queue_worker-dead (suc passes) jobs d = run_queue_worker-dead passes jobs d

  -- The jobs that come to an end, none of them with the id.
  abbrev pub AreDone : Ident → List QueuedJob → Type 0
  AreDone id jobs = All (λ k. ((r : Option Ident) × (execute k ≡ ok r)) × (id ≢ k.id)) jobs

  abbrev made : QueuedJob → Option Ident → JobResult
  made k r = record { id = k.id; event_id = k.event_id; result = r }

  pass-ok :
      (k : QueuedJob) (r : Option Ident) (jobs : List QueuedJob) (d : Dict Ident JobResult)
      → execute k ≡ ok r
      → worker_pass execute (idle (k ∷ jobs) d) ≡ idle jobs (insert k.id (made k r) d)
  unfolding worker_pass get complete
  pass-ok k r jobs d done = rw done refl

  pass-raise :
      (k : QueuedJob) (x : Error) (jobs : List QueuedJob) (d : Dict Ident JobResult)
      → execute k ≡ raise x
      → worker_pass execute (idle (k ∷ jobs) d) ≡ dead jobs d
  unfolding worker_pass get complete
  pass-raise k x jobs d e = rw e refl

  worker-stuck :
      (id : Ident) (bad : QueuedJob) (x : Error)
      → execute bad ≡ raise x
      → (passes : ℕ) (before behind : List QueuedJob) (d : Dict Ident JobResult) → AreDone id before
      → lookup id d ≡ none
      → lookup id (run_queue_worker execute passes (idle (before ++ bad ∷ behind) d)).results_dict
        ≡ none
  unfolding run_queue_worker
  worker-stuck id bad x e zero before behind d a h = h
  worker-stuck id bad x e (suc passes) [] behind d a h =
      ap (λ s. lookup id (run_queue_worker execute passes s).results_dict)
        (pass-raise bad x behind d e)
      ∙ ap (λ s. lookup id s.results_dict) (run_queue_worker-dead passes behind d)
      ∙ h
  worker-stuck id bad x e (suc passes) (k ∷ before) behind d (((r, done), other), a) h =
      ap (λ s. lookup id (run_queue_worker execute passes s).results_dict)
        (pass-ok k r (before ++ bad ∷ behind) d done)
      ∙ worker-stuck id bad x e passes before behind (insert k.id (made k r) d) a
          (lookup-insert_ne id k.id (made k r) d other ∙ h)

  -- A job that is put behind one that raises never has a result, however many passes the worker makes: this
  -- holds when the worker runs and has no job, the jobs before the one that raises come to an end, and
  -- neither they nor the results that are there have the id of the new job.
  pub collect-stuck :
      (before behind : List QueuedJob) (bad j : QueuedJob) (x : Error) (d : Dict Ident JobResult)
      (passes : ℕ)
      → execute bad ≡ raise x
      → AreDone j.id before
      → lookup j.id d ≡ none
      → (collect j.id (run_queue_worker execute passes (put j (idle (before ++ bad ∷ behind) d)))).0
        ≡ none
  unfolding collect put
  collect-stuck before behind bad j x d passes e a h =
      ap (λ jobs. lookup j.id (run_queue_worker execute passes (idle jobs d)).results_dict)
        (append_assoc before (bad ∷ behind) (j ∷ []))
      ∙ worker-stuck j.id bad x e passes before (behind ++ j ∷ []) d a h
