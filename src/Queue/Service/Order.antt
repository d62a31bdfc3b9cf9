-- ===== src/Queue/Service/Order.antt =====
-- The order of the queue's jobs (app/queue_service/queue_service.py): through the steps of the
-- submitters and of the worker, in any interleaving, and through the worker's loop.
use validation_node.Prelude.{
  Bool, true, false, Option, none, some, List, [], ◌∷◌, ◌++◌, ◌≡◌, refl, sym, ap, ◌∙◌,
}
use mathlib.Core.List.{append_assoc}
use validation_node.Prelude.Eq.{nat_eq}
use validation_node.Database.Schema.{Ident, Result, ok, raise}
use validation_node.Queue.Service.{QueuedJob, Service, started, put, get, complete, collect}

-- The runs of the queue, with the jobs that were submitted and those that are finished, each in order.
pub data Run : List QueuedJob → List QueuedJob → Service → Type 0 where
  nothing_yet : Run [] [] started
  puts :
      {a b : List QueuedJob} {s : Service} (j : QueuedJob)
      → Run a b s
      → Run (a ++ j ∷ []) b (put j s)
  gets : {a b : List QueuedJob} {s : Service} → Run a b s → Run a b (get s)
  completes :
      {a b : List QueuedJob} {s : Service} (j : QueuedJob) (r : Result (Option Ident))
      → s.running ≡ some j
      → Run a b s
      → Run a (b ++ j ∷ []) (complete j r s)
  collects :
      {a b : List QueuedJob} {s : Service} (id : Ident) → Run a b s → Run a b (collect id s).1

abbrev held : Option QueuedJob → List QueuedJob
held none = []
held (some j) = j ∷ []

abbrev pub waiting : Service → List QueuedJob
waiting s = held s.running ++ s.queue_in

waiting-get : (s : Service) → waiting (get s) ≡ waiting s
unfolding get
waiting-get s = go s s.running s.is_alive s.queue_in refl refl refl
  where
    go :
        (s : Service) (running : Option QueuedJob) (alive : Bool) (queue : List QueuedJob)
        → s.running ≡ running
        → s.is_alive ≡ alive
        → s.queue_in ≡ queue
        → waiting (get s) ≡ waiting s
    go s none true [] e f g = rw (e, f, g, get) (rw e refl)
    go s none true (j ∷ jobs) e f g = rw (e, f, g, get) refl
    go s none false queue e f g = rw (e, f, get) (rw e refl)
    go s (some j) alive queue e f g = rw (e, get) (rw e refl)

waiting-complete :
    (j : QueuedJob) (r : Result (Option Ident)) (s : Service)
    → s.running ≡ some j
    → waiting s ≡ j ∷ waiting (complete j r s)
unfolding complete
waiting-complete j (ok result) s e = ap (λ o. held o ++ s.queue_in) e
waiting-complete j (raise x) s e = ap (λ o. held o ++ s.queue_in) e

-- Jobs are finished in the order in which they were submitted, none is lost and none is done twice:
-- what was submitted is what is finished, then the job that the worker has, then the queue.
pub Run-order : {a b : List QueuedJob} {s : Service} → Run a b s → a ≡ b ++ waiting s
unfolding put collect
Run-order nothing_yet = refl
Run-order (puts {a} {b} {s} j r) =
    ap (λ xs. xs ++ j ∷ []) (Run-order r)
    ∙ append_assoc b (waiting s) (j ∷ [])
    ∙ ap (λ xs. b ++ xs) (append_assoc (held s.running) s.queue_in (j ∷ []))
Run-order (gets {a} {b} {s} r) = Run-order r ∙ ap (λ xs. b ++ xs) (sym (waiting-get s))
Run-order (completes {a} {b} {s} j result e r) =
    Run-order r
    ∙ ap (λ xs. b ++ xs) (waiting-complete j result s e)
    ∙ sym (append_assoc b (j ∷ []) (waiting (complete j result s)))
Run-order (collects id r) = Run-order r
