-- ===== src/System/Kept/Steps.antt =====
-- The steps of the node, against the laws of Database.Kept.
use validation_node.Prelude.{true, ◌++◌, ap}
use validation_node.Database.Schema.{Db, Result, ok, raise}
use validation_node.Database.Kept.{seen, IsKept, IsVoteKept}
use validation_node.Node.{
  Job, check_consensus as check_job, event_data_to_blockchain as rewards_job,
  validate_event_data_on_blockchain as validation_job,
  process_consensus_not_reached as not_reached_job, post_application_end_time,
  post_unexpected_exception,
}
use validation_node.Effects.{World, M}
use validation_node.Effects.Hoare.{Hoare, Post}
use validation_node.Watch.Kept.Jobs.{
  Keeps-filter_events, Keeps-post_unexpected, Keeps-post_application,
}
use validation_node.Watch.Kept.RegistryJob.{Keeps-event_registry}
use validation_node.Consensus.Steps.{check_consensus, process_consensus_not_reached}
use validation_node.Rewards.Chain.{event_data_to_blockchain, validate_event_data_on_blockchain}
use validation_node.System.{
  kept, Outside, run_job, set_jobs, Step, votes, receives, reads_events, reads_registry,
  updates_ips, runs, Reachable, starts, continues,
}
use validation_node.System.Kept.{kept-vote, kept-consumer}
use validation_node.System.Kept.Settlement.{
  seen-check_consensus, seen-not_reached, db-event_data, db-validate,
}
use validation_node.System.Kept.Addresses.{Keeps-update_node_ips, Hoare-init}

module _ (I : Db → Type 0) ⦃k : IsKept I⦄ ⦃t : IsVoteKept I⦄ where
  -- However an action ends.
  after_all :
      {A : Type 0} {P : Db → Type 0} (m : M A)
      → Hoare P (λ _. I) I m
      → (w : World) → P w.node.db
      → I (m w).1.node.db
  after_all {A} m h w p = go (m w).0 (m w).1.node.db (h.after w p)
    where
      go : (r : Result A) (db : Db) → Post (λ (a : A). I) I r db → I db
      go (ok a) db q = q
      go (raise e) db q = q

  kept-run_job : (o : Outside) (j : Job) (w : World) → I w.node.db → I (run_job o j w).node.db
  unfolding run_job
  kept-run_job o (check_job event m) w h =
      k.frame w.node.db (check_consensus o.surroundings event m w.node).1.db
        (λ id u. seen-check_consensus id u o.surroundings event m w.node) h
  kept-run_job o (rewards_job event_id) w h =
      k.frame w.node.db
        (kept (event_data_to_blockchain o.to_bytes o.hash event_id w.node) w.node).db
        (λ id u. ap (seen id u) (db-event_data o.hash o.to_bytes event_id w.node)) h
  kept-run_job o (validation_job event_id round) w h =
      k.frame w.node.db
        (kept (validate_event_data_on_blockchain o.hash o.contract event_id round w.node) w.node).db
        (λ id u. ap (seen id u) (db-validate o.hash o.contract event_id round w.node)) h
  kept-run_job o (not_reached_job event_id date) w h =
      k.frame w.node.db (process_consensus_not_reached o.surroundings event_id w.node).1.db
        (λ id u. seen-not_reached id u o.surroundings event_id w.node) h
  kept-run_job o (post_application_end_time event_id date) w h =
      after_all _ (Keeps-post_application true o.client event_id) w h
  kept-run_job o (post_unexpected_exception event_id entries date) w h =
      after_all _ (Keeps-post_unexpected true o.client event_id entries) w h

  -- Every step keeps it, whatever it meets outside and also when it raises.
  kept-Step : (v w : World) → Step v w → I v.node.db → I w.node.db
  kept-Step _ _ (votes recover node_id now j v) h = kept-vote I recover node_id now j v.node h
  kept-Step _ _ (receives recover node_id timestamp j v) h =
      kept-consumer I recover node_id timestamp j v.node h
  kept-Step _ _ (reads_events client v) h = after_all _ (Keeps-filter_events true client) v h
  kept-Step _ _ (reads_registry client address v) h =
      after_all _ (Keeps-event_registry true client address) v h
  kept-Step _ _ (updates_ips client v) h = after_all _ (Keeps-update_node_ips client) v h
  kept-Step _ _ (runs o j earlier later v e) h = kept-run_job o j (set_jobs v (earlier ++ later)) h

  -- Whatever the contracts, the other nodes and the users do.
  pub kept-Reachable : (w : World) → Reachable w → I w.node.db
  kept-Reachable _ (starts client environment node_ip_port node_websocket_ip_port w) =
      after_all _ (Hoare-init client environment node_ip_port node_websocket_ip_port) w tt
  kept-Reachable _ (continues v w r s) = kept-Step v w s (kept-Reachable v r)
