-- ===== src/Setup/Requests/Senders.antt =====
-- Whose requests to vote reach `vote` (app/application.py).
use validation_node.Prelude.{
  ℕ, Bool, true, false, Option, none, some, ◌≡◌, ◌↔◌, ◌||◌, refl, ap, ◌∙◌, arith,
}
use validation_node.Prelude.Eq.{contains, list_eq, nat_eq}
use validation_node.Prelude.Dict.{Dict, lookup}
use validation_node.Prelude.Texts.{codes}
use validation_node.Database.Schema.{Ident, Text, Result, ok, raise}
use validation_node.Node.{VoteData, VoteJson, Node}
use validation_node.Voting.Api
use validation_node.Setup.Requests.{
  blacklist, Passage, passes, aborts, limit_forwarded, limit_remote_addr, vote, answer_vote,
  request_vote,
}

-- The value of a header is on the list.
abbrev pub is_listed : Option Text → Bool
is_listed none = false
is_listed (some value) = contains blacklist value

passes-limit :
    (forwarded remote : Option Text)
    → limit_forwarded forwarded remote ≡ ok passes
    → (is_listed forwarded ≡ false) × (is_listed remote ≡ false)
passes-limit none none h = absurd (ground (arith, h))
passes-limit none (some r) h = ground (arith, h)
passes-limit (some f) none h = ground (arith, h)
passes-limit (some f) (some r) h = ground (arith, h)

limit-passes :
    (forwarded : Option Text) (remote : Text)
    → is_listed forwarded ≡ false
    → is_listed (some remote) ≡ false
    → limit_forwarded forwarded (some remote) ≡ ok passes
limit-passes none remote h k = ground (arith, h, k)
limit-passes (some f) remote h k = ground (arith, h, k)

aborts-limit :
    (forwarded remote : Option Text) (status : ℕ)
    → limit_forwarded forwarded remote ≡ ok (aborts status)
    → status ≡ 403
aborts-limit none none status h = absurd (ground (arith, h))
aborts-limit none (some r) status h = ground (arith, h)
aborts-limit (some f) none status h = ground (arith, h)
aborts-limit (some f) (some r) status h = ground (arith, h)

limit-listed :
    (forwarded remote : Option Text)
    → is_listed forwarded || is_listed remote ≡ true
    → limit_forwarded forwarded remote ≡ ok (aborts 403)
limit-listed none none h = absurd (ground (arith, h))
limit-listed none (some r) h = ground (arith, h)
limit-listed (some f) none h = ground (arith, h)
limit-listed (some f) (some r) h = ground (arith, h)

module _ (recover : VoteData → Ident → Option Ident) (node_id : Ident) (now : ℕ) where
  reaches :
      (forwarded remote : Option Text) (json_data : Option VoteJson) (n : Node) (r : Result Passage)
      → limit_forwarded forwarded remote ≡ r
      → (answer_vote recover node_id now r json_data n).0 ≡ ok 200
      → (limit_forwarded forwarded remote ≡ ok passes)
        × ((Api.vote recover node_id now json_data n).0.status ≡ 200)
  unfolding answer_vote vote
  reaches forwarded remote json_data n (raise e) found h = absurd (ground (arith, h))
  reaches forwarded remote json_data n (ok (aborts status)) found h =
      absurd (ground (arith, h, aborts-limit forwarded remote status found))
  reaches forwarded remote json_data n (ok passes) found h = (found, ground (arith, h))

  remote-passes :
      (forwarded remote : Option Text)
      → limit_forwarded forwarded remote ≡ ok passes
      → (address : Text) × (remote ≡ some address)
        × (contains blacklist address ≡ false)
        × (is_listed forwarded ≡ false)
  remote-passes none none h = absurd (ground (arith, h))
  remote-passes (some f) none h = absurd (ground (arith, h))
  remote-passes forwarded (some r) h =
      let (a, b) = passes-limit forwarded (some r) h in (r, refl, b, a)

  module _ (environ : Dict Text Text) (json_data : Option VoteJson) (n : Node) where
    abbrev forwarded : Option Text
    forwarded = lookup (codes "HTTP_X_FORWARDED_FOR") environ

    abbrev remote : Option Text
    remote = lookup (codes "REMOTE_ADDR") environ

    -- A sender on the list, by its address or by the header of a proxy, is answered with 403, and the node stays
    -- as it is, whatever the vote.
    pub request_vote-listed :
        is_listed forwarded || is_listed remote ≡ true
        → request_vote recover node_id now environ json_data n ≡ (ok 403, n)
    unfolding request_vote answer_vote limit_remote_addr
    request_vote-listed h =
        ap (λ r. answer_vote recover node_id now r json_data n) (limit-listed forwarded remote h)

    -- The status is 200 exactly if the address of the sender is given, neither it nor the header of a proxy is on
    -- the list, and the vote itself is accepted.
    pub request_vote-accepted_iff :
        ((request_vote recover node_id now environ json_data n).0 ≡ ok 200) ↔ (
          (address : Text) × (remote ≡ some address)
          × (contains blacklist address ≡ false)
          × (is_listed forwarded ≡ false)
          × ((Api.vote recover node_id now json_data n).0.status ≡ 200))
    unfolding request_vote answer_vote limit_remote_addr vote
    request_vote-accepted_iff = (
      λ h.
          let (passed, accepted) = reaches forwarded remote json_data n _ refl h in
          let (address, given, unlisted, direct) = remote-passes forwarded remote passed in
          (address, given, unlisted, direct, accepted),
      λ (address, given, unlisted, direct, accepted). ground (
        arith,
        ap (λ r. (answer_vote recover node_id now r json_data n).0)
            (ap (limit_forwarded forwarded) given ∙ limit-passes forwarded address direct unlisted),
        accepted,
      ),
    )
