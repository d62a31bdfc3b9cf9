-- ===== src/Scheduler.antt =====
-- The ids of jobs (app/database/database.py), and what app/scheduler.py adds to the library's scheduler:
-- `remove_job`, and the filter of its log.
pub mod Ids
pub mod Log
use validation_node.Prelude.{
  Bool, true, false, not, Option, none, some, List, [], ◌∷◌, ◌++◌, if◌then◌else◌,
}
use validation_node.Prelude.Eq.{◌==◌, list_eq, option_eq, nat_eq}
use validation_node.Prelude.Texts.{codes, has_part}
use validation_node.Database.Schema.{Ident, Text, Result, ok, raise}
use validation_node.Database.Keys.{address}
use validation_node.Node.{
  Job, check_consensus, event_data_to_blockchain, validate_event_data_on_blockchain,
  process_consensus_not_reached, post_application_end_time, post_unexpected_exception, Node,
}

unfoldable pub consensus_not_reached_job_id : Text → Text
consensus_not_reached_job_id event_id = event_id ++ codes "_process_consensus_not_reached"

unfoldable pub post_application_end_time_job_id : Text → Text
post_application_end_time_job_id event_id = event_id ++ codes "_post_application_end_time"

-- The id that a job is added with, where the program gives one.
module _ (hex : Ident → Text) where
  unfoldable pub job_id : Job → Option Text
  unfolding consensus_not_reached_job_id post_application_end_time_job_id
  job_id (check_consensus event m) = none
  job_id (event_data_to_blockchain event_id) = none
  job_id (validate_event_data_on_blockchain event_id round) = none
  job_id (process_consensus_not_reached event_id date) =
      some (consensus_not_reached_job_id (address hex event_id))
  job_id (post_application_end_time event_id date) =
      some (post_application_end_time_job_id (address hex event_id))
  job_id (post_unexpected_exception event_id entries date) = none

  -- The jobs without those of an id; an id that is not given is one that the library makes up.
  without_id : Text → List Job → List Job
  without_id id [] = []
  without_id id (j ∷ jobs) =
      if job_id j == some id then without_id id jobs else j ∷ without_id id jobs

  has_id : Text → List Job → Bool
  has_id id [] = false
  has_id id (j ∷ jobs) = if job_id j == some id then true else has_id id jobs

  -- `remove_job`: whether there was such a job; the library raises if there was not. The scheduler holds one
  -- job of an id at most.
  unfoldable pub remove_job : Text → Node → Bool × Node
  unfolding without_id has_id
  remove_job id n = (has_id id n.jobs, record n { jobs = without_id id n.jobs })

-- `SchedulerFilter.filter`: whether a message of the log is kept.
unfoldable pub keeps_message : Text → Bool
keeps_message msg =
    if has_part (codes "Running job") msg
    then false
    else if has_part (codes "executed successfully") msg
    then false
    else true
