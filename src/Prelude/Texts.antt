-- ===== src/Prelude/Texts.antt =====
-- Texts as lists of code points: literals, '_' between words, and Python's `find`.
use Prim.Native.Char.{code}
use Prim.Native.String.{String}
use Prim.Native.Nat.{ℕ}
use mathlib.Core.Path.{◌≡◌, refl, ap, ◌∙◌}
use mathlib.Core.Logic.{◌↔◌, inl, inr}
use mathlib.Core.Bool.{Bool, true, false, ◌&&◌, ◌||◌}
use mathlib.Core.List.{List, [], ◌∷◌, ◌++◌}
use native.Mathlib.Omega.{arith}
use validation_node.Prelude.Tests.{if◌then◌else◌, eqb, eqb_iff, Bool-cases}

abbrev pub codes : String → List ℕ
codes String.[] = []
codes (String.◌∷◌ c s) = code c ∷ codes s

-- `'%s_%s' % (a, b)`
abbrev pub underscored : List ℕ → List ℕ → List ℕ
underscored a b = a ++ b'_' ∷ b

-- There is no '_'.
abbrev pub is_word : List ℕ → Bool
is_word [] = true
is_word (c ∷ s) = if eqb c b'_' then false else is_word s

put_first : ℕ → List (List ℕ) → List (List ℕ)
put_first c [] = (c ∷ []) ∷ []
put_first c (w ∷ ws) = (c ∷ w) ∷ ws

-- What stands between the '_'.
unfoldable pub words : List ℕ → List (List ℕ)
unfolding put_first
words [] = [] ∷ []
words (c ∷ s) = if eqb c b'_' then [] ∷ words s else put_first c (words s)

pub words_of-word : (w : List ℕ) → is_word w ≡ true → words w ≡ w ∷ []
unfolding words
words_of-word [] h = refl
words_of-word (c ∷ w) h = ground (arith, words_of-word w)

pub words-underscored : (w s : List ℕ) → is_word w ≡ true → words (underscored w s) ≡ w ∷ words s
unfolding words
words-underscored [] s h = refl
words-underscored (c ∷ w) s h = ground (arith, words-underscored w s)

starts_with : List ℕ → List ℕ → Bool
starts_with [] s = true
starts_with (c ∷ p) [] = false
starts_with (c ∷ p) (d ∷ s) = eqb c d && starts_with p s

-- `s.find(p) >= 0`
unfoldable pub has_part : List ℕ → List ℕ → Bool
unfolding starts_with
has_part p [] = starts_with p []
has_part p (c ∷ s) = starts_with p (c ∷ s) || has_part p s

starts_with-append : (p s : List ℕ) → starts_with p (p ++ s) ≡ true
unfolding starts_with
starts_with-append [] s = refl
starts_with-append (c ∷ p) s = ground (arith, starts_with-append p s)

starts_with-rest : (p s : List ℕ) → starts_with p s ≡ true → (after : List ℕ) × (s ≡ p ++ after)
unfolding starts_with
starts_with-rest [] s h = (s, refl)
starts_with-rest (c ∷ p) [] h = absurd (ground arith)
starts_with-rest (c ∷ p) (d ∷ s) h =
    let (after, e) = starts_with-rest p s (ground arith) in (after, ground (arith, e, eqb_iff c d))

has_part-split :
    (p s : List ℕ)
    → has_part p s ≡ true
    → (before : List ℕ) × (after : List ℕ) × (s ≡ before ++ (p ++ after))
unfolding has_part
has_part-split p [] h = let (after, e) = starts_with-rest p [] h in ([], after, e)
has_part-split p (c ∷ s) h = elim (Bool-cases (starts_with p (c ∷ s))) [
  | inl here ↦ let (after, e) = starts_with-rest p (c ∷ s) here in ([], after, e)
  | inr there ↦
      let (before, after, e) = has_part-split p s (ground arith) in
      (c ∷ before, after, ap (◌∷◌ c) e)
]

has_part-nil : (s : List ℕ) → has_part [] s ≡ true
unfolding has_part
has_part-nil [] = refl
has_part-nil (c ∷ s) = refl

has_part-append : (p before after : List ℕ) → has_part p (before ++ (p ++ after)) ≡ true
unfolding has_part
has_part-append p (c ∷ before) after = ground (arith, has_part-append p before after)
has_part-append [] [] after = has_part-nil after
has_part-append (c ∷ p) [] after = ground (arith, starts_with-append (c ∷ p) after)

-- `find` finds what stands somewhere in the text.
pub has_part_iff :
    (p s : List ℕ)
    → (has_part p s ≡ true) ↔ ((before : List ℕ) × (after : List ℕ) × (s ≡ before ++ (p ++ after)))
has_part_iff p s = (
  λ h. has_part-split p s h,
  λ (before, after, e). ap (has_part p) e ∙ has_part-append p before after,
)
