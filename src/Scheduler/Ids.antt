-- ===== src/Scheduler/Ids.antt =====
-- The ids of jobs (app/database/database.py), and the jobs that are removed by them (app/scheduler.py).
use validation_node.Prelude.{
  Bool, true, false, some, List, [], ◌∷◌, ◌≡◌, ◌≢◌, refl, sym, ap, ap₂, ◌∙◌, arith, eqb_iff,
  Bool-cases, if◌then◌else◌,
}
use validation_node.Prelude.Eq.{◌==◌, ==_iff, list_eq, option_eq, nat_eq}
use validation_node.Prelude.Texts.{codes, is_word, words, words-underscored}
use validation_node.Database.Schema.{Ident, Text}
use validation_node.Database.Keys.{address}
use validation_node.Node.{
  Job, check_consensus, event_data_to_blockchain, validate_event_data_on_blockchain,
  process_consensus_not_reached, post_application_end_time, post_unexpected_exception, Node,
  is_not_reached_job, remove_jobs, remove_consensus_not_reached_job,
}
use validation_node.Scheduler.{
  consensus_not_reached_job_id, post_application_end_time_job_id, job_id, without_id, has_id,
  remove_job,
}

abbrev without_prefix : Text → Text
without_prefix (a ∷ b ∷ s) = s
without_prefix _ = []

abbrev first_word : List Text → Text
first_word [] = []
first_word (w ∷ ws) = w

abbrev second_word : List Text → Text
second_word (v ∷ w ∷ ws) = w
second_word _ = []

abbrev pub any : (Job → Bool) → List Job → Bool
any p [] = false
any p (j ∷ jobs) = if p j then true else any p jobs

module _ (hex : Ident → Text) (unhex : Text → Ident)
    (digits : (id : Ident) → is_word (hex id) ≡ true)
    (reads : (id : Ident) → unhex (hex id) ≡ id) where
  abbrev pub not_reached_id : Ident → Text
  not_reached_id event_id = consensus_not_reached_job_id (address hex event_id)

  abbrev application_id : Ident → Text
  application_id event_id = post_application_end_time_job_id (address hex event_id)

  words-not_reached :
      (e : Ident)
      → words (not_reached_id e)
        ≡ address hex e ∷ codes "process" ∷ codes "consensus" ∷ codes "not" ∷ codes "reached" ∷ []
  unfolding consensus_not_reached_job_id words
  words-not_reached e =
      words-underscored (address hex e) (codes "process_consensus_not_reached") (digits e)

  words-application :
      (e : Ident)
      → words (application_id e)
        ≡ address hex e ∷ codes "post" ∷ codes "application" ∷ codes "end" ∷ codes "time" ∷ []
  unfolding post_application_end_time_job_id words
  words-application e =
      words-underscored (address hex e) (codes "post_application_end_time") (digits e)

  address-injective : (e d : Ident) → address hex e ≡ address hex d → e ≡ d
  address-injective e d h = sym (reads e) ∙ ap (λ s. unhex (without_prefix s)) h ∙ reads d

  not_reached_id-injective : (e d : Ident) → not_reached_id e ≡ not_reached_id d → e ≡ d
  not_reached_id-injective e d h =
      address-injective e d
        (ap first_word (sym (words-not_reached e) ∙ ap words h ∙ words-not_reached d))

  not_reached_id-application : (e d : Ident) → application_id e ≢ not_reached_id d
  not_reached_id-application e d h =
      let same = sym (words-application e) ∙ ap words h ∙ words-not_reached d in
      absurd (ground (arith, ap second_word same))

  -- The jobs with the id are those that the model takes.
  job_id-not_reached :
      (event_id : Ident) (j : Job)
      → (job_id hex j == some (not_reached_id event_id)) ≡ is_not_reached_job event_id j
  unfolding job_id
  job_id-not_reached event_id (check_consensus event m) = refl
  job_id-not_reached event_id (event_data_to_blockchain e) = refl
  job_id-not_reached event_id (validate_event_data_on_blockchain e round) = refl
  job_id-not_reached event_id (process_consensus_not_reached e date) = ground (
    arith,
    ==_iff (not_reached_id e) (not_reached_id event_id),
    not_reached_id-injective e event_id,
    ap not_reached_id,
    eqb_iff event_id e,
    Bool-cases (not_reached_id e == not_reached_id event_id),
  )
  job_id-not_reached event_id (post_application_end_time e date) = ground (
    arith,
    ==_iff (application_id e) (not_reached_id event_id),
    not_reached_id-application e event_id,
  )
  job_id-not_reached event_id (post_unexpected_exception e entries date) = refl

  without_id-remove_jobs :
      (event_id : Ident) (jobs : List Job)
      → without_id hex (not_reached_id event_id) jobs
        ≡ remove_jobs (is_not_reached_job event_id) jobs
  unfolding without_id remove_jobs
  without_id-remove_jobs event_id [] = refl
  without_id-remove_jobs event_id (j ∷ jobs) =
      ground (arith, job_id-not_reached event_id j, without_id-remove_jobs event_id jobs)

  has_id-any :
      (event_id : Ident) (jobs : List Job)
      → has_id hex (not_reached_id event_id) jobs ≡ any (is_not_reached_job event_id) jobs
  unfolding has_id
  has_id-any event_id [] = refl
  has_id-any event_id (j ∷ jobs) =
      ground (arith, job_id-not_reached event_id j, has_id-any event_id jobs)

  -- Addresses are rendered without '_', and differently. Then the removal by the id of the job of an event takes
  -- the jobs of its consensus that is not reached, and no other job; it says whether there was one.
  pub remove_job-not_reached :
      (event_id : Ident) (n : Node)
      → remove_job hex (not_reached_id event_id) n
        ≡ (any (is_not_reached_job event_id) n.jobs, remove_consensus_not_reached_job event_id n)
  unfolding remove_job remove_consensus_not_reached_job
  remove_job-not_reached event_id n =
      ap₂ (λ b jobs. (b, record n { jobs = jobs })) (has_id-any event_id n.jobs)
        (without_id-remove_jobs event_id n.jobs)
