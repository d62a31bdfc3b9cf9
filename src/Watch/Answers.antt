-- ===== src/Watch/Answers.antt =====
-- The consensus answers that a contract holds: `from_bytes32_to_str` and
-- `consensus_answers_from_contract` of app/common.py.
pub mod Strip
use validation_node.Prelude.{
  ℕ, ◌+◌, ◌*◌, ◌/◌, ◌%◌, Bool, Option, none, some, List, [], ◌∷◌, ◌++◌, length, eqb, if◌then◌else◌,
}
use validation_node.Database.Schema.{Ident, Text, Result, ok, raise}
use validation_node.Effects.{M, return, yield, ask, ◌>>=◌}
use validation_node.Client.{Client}

-- `bytes.hex()`, as digits
unfoldable pub hex_digits : List ℕ → List ℕ
hex_digits [] = []
hex_digits (b ∷ bytes) = b / 16 ∷ b % 16 ∷ hex_digits bytes

abbrev is_nil : List ℕ → Bool
is_nil [] = Bool.true
is_nil (x ∷ xs) = Bool.false

-- `rstrip("0")`, for any digit or byte 0
unfoldable pub rstrip_zero : List ℕ → List ℕ
rstrip_zero [] = []
rstrip_zero (x ∷ xs) =
    let rest = rstrip_zero xs in
    if eqb x 0 then (if is_nil rest then [] else x ∷ rest) else x ∷ rest

-- `bytes.fromhex`, of an even number of digits
unfoldable pub from_hex : List ℕ → List ℕ
from_hex [] = []
from_hex (d ∷ []) = []
from_hex (d ∷ e ∷ digits) = (d * 16 + e) ∷ from_hex digits

unfoldable pub strip_bytes32 : List ℕ → List ℕ
unfolding hex_digits rstrip_zero from_hex
strip_bytes32 bytes =
    let digits = rstrip_zero (hex_digits bytes) in
    from_hex (if eqb (length digits % 2) 0 then digits else digits ++ 0 ∷ [])

module _ (client : Client) where
  unfoldable pub from_bytes32_to_str : List ℕ → Result Text
  from_bytes32_to_str bytes = client.decode_utf8 (strip_bytes32 bytes)

  decode_all : List (List ℕ) → Result (List Text)
  decode_all [] = ok []
  decode_all (bytes ∷ results) = elim (from_bytes32_to_str bytes) [
    | raise e ↦ raise e
    | ok t ↦ elim (decode_all results) [ raise e ↦ raise e | ok ts ↦ ok (t ∷ ts) ]
  ]

  decode_results : Option (List (List ℕ)) → Result (Option (List Text))
  unfolding decode_all
  decode_results none = ok none
  decode_results (some results) = elim (decode_all results) [
    | raise e ↦ raise e
    | ok ts ↦ ok (some ts)
  ]

  unfoldable pub consensus_answers_from_contract : Ident → M (Option (List Text))
  unfolding decode_results
  consensus_answers_from_contract event_id =
      ask (client.get_results event_id) >>= λ results. yield (decode_results results)
