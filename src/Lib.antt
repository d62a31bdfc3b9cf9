-- ===== src/Lib.antt =====
-- The validation node of the Verity protocol (app/, Python): it takes votes of users on events over HTTP,
-- exchanges them with other nodes over websockets, decides whether there is a consensus, calculates the
-- rewards, and sets or validates them on the event's contract.
--
-- The parts, and where they are:
-- * Database models app/database/database.py. Schema has the stored classes and the state of Redis, a
--   record `Db` in which a family of keys '%s_%s' is a table; Votes, Grouping, Events, Filters and Rewards
--   have the methods of the classes under their names, as functions of the database. Keys has the keys of
--   Redis, Redis the commands that each method sends under them, and Kept the laws of a property that the
--   operations of the node keep.
-- * Node is the state of a node: the database, the jobs of the scheduler, the votes on their way to other
--   nodes, the submitted transactions, and what was posted to the explorer.
-- * Voting models `vote` (app/events/events.py; Api), the checks of app/common.py (Payload), and
--   `Consumer.consumer` (app/websocket.py; Consumer), and Sockets the connections, the producer and the loops
--   of app/websocket.py. A handler takes a node and returns the response and the new node.
-- * Consensus models app/events/consensus.py: Rules and Choice decide, Steps has the jobs that settle an
--   event, Explorer the report to the explorer.
-- * Rewards models app/ethereum/rewards.py: Stakes, Distribution and Calculation compute the rewards, Chain
--   sends them to the contract and validates them.
-- * Effects has the actions that call the Ethereum client, with rules for what they make of the database
--   (Hoare); Client has the calls and the entries of filters.
-- * Watch models app/events/verity_event_filters.py and app/events/event_registry_filter.py: Handlers have
--   what an entry does, Discovery finds and sets up an event, Recovery installs filters again, Rounds and
--   Registry are the jobs that read filters, Answers the answers on a contract. `recover_filter` of the
--   registry is `recover_registry_filter` here. Kept has the rules for what they keep of
--   the database, over the laws of Database.Kept.
-- * NodeRegistry models app/events/node_registry.py.
-- * Queue models app/queue_service/: Transactions the tries of a transaction, Service the queue, its worker
--   and the submitters.
-- * Scheduler models the ids of jobs, and `remove_job` and the filter of the log (app/scheduler.py). Setup
--   models app/key_store.py and the addresses of app/common.py, and Requests the routes of app/application.py
--   with the test of the sender and the headers.
-- * System is the node as a whole: its start (`init` of app/application.py, app/contract_registry_filter.py)
--   and its steps, with the jobs that app/scheduler.py sets up. Kept has the rules for the steps, Index
--   and Voters the properties of the worlds that a node reaches.
-- * Float is binary64 as these parts use it, on numbers held as 2^1074 times their value.
-- * Prelude has the shared lists, dictionaries, integers, texts and tests, Tests the sample event.
-- A vote arrives in Voting, is stored in Database, and may add a job of Consensus, which stores the rewards
-- of Rewards and adds the job that sends them. Registry finds an event, Discovery stores it and installs its
-- filters, and the entries of the filters change its state, schedule jobs, or delete it.
--
-- Conventions and bounds. Identifiers are numbers, since they are only compared, and texts are lists of
-- code points. A set of Redis or of Python is a list in the order of insertion; besides the first element,
-- which is a parameter, its order decides only the order of entries in a dictionary or in a report. What
-- raises in the source is `raise` with the kind of exception; the answers of a vote are objects of texts,
-- as the votes of the protocol have them. A connection has the one key of its host and port, whatever
-- address was asked for. A job that raises keeps what it has stored. The parts that call the Ethereum
-- client are actions of Effects, and each call can answer anything, or raise, depending on the number of
-- calls made before. Other calls of libraries are parameters: the recovery of a signer (web3), the calls
-- of a contract, the hash of the rewards, the responses of the explorer, the time, the order in which a
-- set is enumerated, the environment, the key file with its decryption, and the digits of an address.
-- `ulp_from` takes fuel equal to its argument, more than the doublings it needs; `chunks_from` takes one
-- unit for each element, and every chunk has one element or more; `post_from` takes the number of tries of
-- the source, and so do `next_nonce` and `execute_tries`; `run_queue_worker` takes the number of passes,
-- and one for each job is enough; `get_or_create_websocket_connection` takes what is left of Python's
-- recursion limit, of which it needs two levels.
--
-- Not modelled: answers of other JSON types, whose sort can raise in `ordered_answers`, exceptions in the
-- calls of the contract that `schedule_event_data_to_blockchain_job` and
-- `validate_event_data_on_blockchain` make (their answers are parameters), the text of an entry of
-- `votes_exists`, which is a pair of a node and a user outside of Redis here, the JSON encoding, the
-- overflow of a float to infinity, the log but for its filter, waiting times, the threads and event loops,
-- what other jobs do inside a step of another (a step of System is taken as a whole, and a submitted
-- transaction is an entry of a list there; Queue has the interleaving of the submitters and the worker),
-- the dates of the scheduler's jobs, HTTP and its framework, and the files of contract interfaces.
pub mod Prelude
pub mod Float
pub mod Database
pub mod Rewards
pub mod Consensus
pub mod Node
pub mod Effects
pub mod Client
pub mod Watch
pub mod NodeRegistry
pub mod Queue
pub mod Setup
pub mod Scheduler
pub mod Voting
pub mod System
pub mod Tests
