-- ===== src/Setup/Requests.antt =====
-- The requests of app/application.py: who may send one, the routes, and the headers of a response.
pub mod Senders
pub mod Headers
use validation_node.Prelude.{
  ℕ, Bool, true, false, ◌||◌, Option, none, some, List, [], ◌∷◌, if◌then◌else◌,
}
use validation_node.Prelude.Eq.{◌==◌, contains, list_eq, nat_eq}
use validation_node.Prelude.Dict.{Dict, lookup, insert}
use validation_node.Prelude.Texts.{codes}
use validation_node.Database.Schema.{Ident, Text, Db, Result, ok, raise, key_error}
use validation_node.Database.Events.{event_registry, node_registry, last_run_timestamp}
use validation_node.Node.{VoteData, VoteJson, Node}
use validation_node.Voting.Api
use validation_node.Voting.Api.{Response}

abbrev pub blacklist : List Text
blacklist = codes "14.165.36.165" ∷ codes "104.199.227.129" ∷ []

-- What runs before a route: it lets the request pass, or aborts with a status.
pub data Passage : Type 0 where
  passes : Passage
  aborts : ℕ → Passage

-- `request.environ['REMOTE_ADDR']`, and its test
abbrev pub limit_remote : Option Text → Result Passage
limit_remote none = raise key_error
limit_remote (some remote) = if contains blacklist remote then ok (aborts 403) else ok passes

abbrev pub limit_forwarded : Option Text → Option Text → Result Passage
limit_forwarded none remote = limit_remote remote
limit_forwarded (some forwarded) remote =
    if contains blacklist forwarded then ok (aborts 403) else limit_remote remote

unfoldable pub limit_remote_addr : Dict Text Text → Result Passage
limit_remote_addr environ =
    limit_forwarded (lookup (codes "HTTP_X_FORWARDED_FOR") environ)
      (lookup (codes "REMOTE_ADDR") environ)

unfoldable pub apply_headers : Dict Text Text → Dict Text Text
apply_headers headers = insert (codes "Cache-Control") (codes "no-cache") (
    insert (codes "Access-Control-Allow-Methods") (codes "POST,GET") (
      insert (codes "Access-Control-Allow-Headers")
        (codes "Content-Type,X-Forwarded-For,HTTP_X_FORWARDED_FOR")
        (insert (codes "Access-Control-Allow-Origin") (codes "*")
          (insert (codes "Content-Type") (codes "application/json") headers))))

-- The response of `health_check`.
pub record Health : Type 0 where
  pub version : Text
  pub node_address : Text
  pub contract_registry_address : Option Text
  pub event_registry_address : Option Ident
  pub node_registry_address : Option Ident
  pub timestamp : ℕ
  pub block_number : ℕ
  pub event_registry_last_run_timestamp : Option ℕ

-- `__version__`
abbrev version : Text
version = codes "1.1.2"

-- The node's address, the environment's addresses, the time, and the answer of the Ethereum client are
-- parameters.
unfoldable pub health_check :
    Text → Option Text → Option Ident → Option Ident → ℕ → Result ℕ → Db → Result (Health × ℕ)
health_check node_id contract_registry env_event_registry env_node_registry now block db =
    elim block [
      | raise e ↦ raise e
      | ok block_number ↦ ok (
        record {
          version = version;
          node_address = node_id;
          contract_registry_address = contract_registry;
          event_registry_address = event_registry env_event_registry db;
          node_registry_address = node_registry env_node_registry db;
          timestamp = now;
          block_number = block_number;
          event_registry_last_run_timestamp = last_run_timestamp db;
        },
        200,
      )
    ]

module _ (recover : VoteData → Ident → Option Ident) (node_id : Ident) (now : ℕ) where
  -- The route '/vote': the response, its status, and the node.
  unfoldable pub vote : Option VoteJson → Node → (Response × ℕ) × Node
  vote json_data n =
      let (response, n') = Api.vote recover node_id now json_data n in
      ((response, response.status), n')

  -- The route runs if the sender passes.
  unfoldable pub answer_vote : Result Passage → Option VoteJson → Node → Result ℕ × Node
  unfolding vote
  answer_vote (raise e) json_data n = (raise e, n)
  answer_vote (ok (aborts status)) json_data n = (ok status, n)
  answer_vote (ok passes) json_data n =
      let ((response, status), n') = vote json_data n in (ok status, n')

  -- A request to vote, after the test of its sender: the status of the answer, and the node.
  unfoldable pub request_vote : Dict Text Text → Option VoteJson → Node → Result ℕ × Node
  unfolding answer_vote
  request_vote environ json_data n = answer_vote (limit_remote_addr environ) json_data n
