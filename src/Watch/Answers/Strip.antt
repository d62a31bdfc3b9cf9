-- ===== src/Watch/Answers/Strip.antt =====
-- How zero bytes are cut off an answer (`from_bytes32_to_str` of app/common.py), byte by byte.
use validation_node.Prelude.{
  ℕ, ◌+◌, ◌*◌, ◌/◌, ◌%◌, false, ◌&&◌, List, [], ◌∷◌, ◌++◌, length, eqb, eqb_iff, ◌≡◌, refl, sym, ap,
  ◌∙◌, arith, if◌then◌else◌, Bool-cases, inl, inr,
}
use validation_node.Watch.Answers.{hex_digits, is_nil, rstrip_zero, from_hex, strip_bytes32}

-- The bytes of digits, with a 0 behind an odd number of them.
abbrev bytes_of : List ℕ → List ℕ
bytes_of digits = from_hex (if eqb (length digits % 2) 0 then digits else digits ++ 0 ∷ [])

bytes_of_pair :
    (d e : ℕ) (digits : List ℕ) → bytes_of (d ∷ e ∷ digits) ≡ (d * 16 + e) ∷ bytes_of digits
unfolding from_hex
bytes_of_pair d e digits = ground (arith, parity)
  where
    parity : length (d ∷ e ∷ digits) % 2 ≡ length digits % 2
    parity = omega arith

-- One step of `rstrip`: before what is left of the rest.
abbrev push : ℕ → List ℕ → List ℕ
push x rest = if eqb x 0 then (if is_nil rest then [] else x ∷ rest) else x ∷ rest

push_full : (x y : ℕ) (rest : List ℕ) → push x (y ∷ rest) ≡ x ∷ y ∷ rest
push_full x y rest = ground arith

is_nil-bytes_of : (x : ℕ) (digits : List ℕ) → is_nil (bytes_of (x ∷ digits)) ≡ false
unfolding from_hex
is_nil-bytes_of x [] = refl
is_nil-bytes_of x (y ∷ digits) = rw (bytes_of_pair x y digits) refl

push_before : (x : ℕ) (rest : List ℕ) → is_nil rest ≡ false → push x rest ≡ x ∷ rest
push_before x [] h = ground arith
push_before x (y ∷ rest) h = push_full x y rest

eqb-byte : (b : ℕ) → eqb b 0 ≡ (eqb (b % 16) 0 && eqb (b / 16) 0)
eqb-byte b = ground (arith, eqb_iff b 0, eqb_iff (b % 16) 0, eqb_iff (b / 16) 0)

-- A byte, as its two digits.
bytes_of-push :
    (b : ℕ) (digits : List ℕ)
    → bytes_of (push (b / 16) (push (b % 16) digits)) ≡ push b (bytes_of digits)
unfolding from_hex
bytes_of-push b (x ∷ digits) =
    ap (λ ds. bytes_of (push (b / 16) ds)) (push_full (b % 16) x digits)
    ∙ ap bytes_of (push_full (b / 16) (b % 16) (x ∷ digits))
    ∙ bytes_of_pair (b / 16) (b % 16) (x ∷ digits)
    ∙ ap (λ n. n ∷ bytes_of (x ∷ digits)) (omega arith)
    ∙ sym (push_before b (bytes_of (x ∷ digits)) (is_nil-bytes_of x digits))
bytes_of-push b [] = elim (Bool-cases (eqb (b % 16) 0)) [
  | inl low ↦ elim (Bool-cases (eqb (b / 16) 0)) [
    | inl high ↦ rw (low, high, eqb-byte b, low, high) refl
    | inr high ↦
        rw (low, high, eqb-byte b, low, high)
          (ap (λ n. n ∷ []) (omega (arith, (eqb_iff (b % 16) 0).0 low)))
  ]
  | inr low ↦
      rw (low, eqb-byte b, low)
        (ap bytes_of (push_full (b / 16) (b % 16) []) ∙ ap (λ n. n ∷ []) (omega arith))
]

-- `from_bytes32_to_str` works on hexadecimal digits, of which an odd one gets a 0 behind it; what it
-- comes to is that the zero bytes at the end are cut off, no other byte is changed, and none is lost.
pub strip_bytes32-eq-rstrip_zero : (bytes : List ℕ) → strip_bytes32 bytes ≡ rstrip_zero bytes
unfolding strip_bytes32 rstrip_zero hex_digits from_hex
strip_bytes32-eq-rstrip_zero [] = refl
strip_bytes32-eq-rstrip_zero (b ∷ bytes) =
    bytes_of-push b (rstrip_zero (hex_digits bytes))
    ∙ ap (push b) (strip_bytes32-eq-rstrip_zero bytes)
