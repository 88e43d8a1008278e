-- ===== src/Constraints/Repair/Matching.antt =====
-- evaluation/constraints.py: what `validate_exact_word_repair` lets pass.
use mathlib.Core.Path.{subst}
use amit_ai.Common.{Bool-cases, any, ℕ, ◌+◌, ◌≡◌, inl, inr, true, List, [], ◌∷◌, map, arith}
use amit_ai.Common.Texts.{Text, eqb, eqb→eq, split}
use amit_ai.Constraints.Types.{Constraint, Patterns, is_exact_words}
use amit_ai.Constraints.Repair.{removable_articles, is_among, follows, validate_exact_word_repair}

-- A list of case-folded words is a text's tokens, from an index on, of which some at the given
-- indices are left out.
pub data IsDeletion (casefold : Text → Text) (removable : List ℕ)
    : ℕ → List Text → List Text → Type 0 where
  same_end : (index : ℕ) → IsDeletion casefold removable index [] []
  kept :
      (index : ℕ) (token : Text) (tokens words : List Text)
      → IsDeletion casefold removable (index + 1) tokens words
      → IsDeletion casefold removable index (token ∷ tokens) (casefold token ∷ words)
  deleted :
      (index : ℕ) (token : Text) (tokens words : List Text)
      → is_among index removable ≡ true
      → IsDeletion casefold removable (index + 1) tokens words
      → IsDeletion casefold removable index (token ∷ tokens) words

follows-IsDeletion :
    (patterns : Patterns) (removable : List ℕ) (index : ℕ) (tokens words : List Text)
    → follows patterns removable index tokens words ≡ true
    → IsDeletion patterns.casefold removable index tokens words
unfolding follows
follows-IsDeletion patterns removable index [] [] h = same_end index
follows-IsDeletion patterns removable index [] (w ∷ words) h = ground arith
follows-IsDeletion patterns removable index (t ∷ tokens) [] h =
    elim (Bool-cases (is_among index removable)) [
      | inl free ↦
          deleted index t tokens [] free
            (follows-IsDeletion patterns removable (index + 1) tokens [] (rw free at h))
      | inr bound ↦ ground (arith, h, bound)
    ]
follows-IsDeletion patterns removable index (t ∷ tokens) (w ∷ words) h =
    elim (Bool-cases (eqb (patterns.casefold t) w)) [
      | inl same ↦
          subst (λ v. IsDeletion patterns.casefold removable index (t ∷ tokens) (v ∷ words))
            (eqb→eq (patterns.casefold t) w same)
            (kept index t tokens words
              (follows-IsDeletion patterns removable (index + 1) tokens words (rw same at h)))
      | inr other ↦ elim (Bool-cases (is_among index removable)) [
        | inl free ↦ deleted index t tokens (w ∷ words) free (
            follows-IsDeletion patterns removable (index + 1) tokens (w ∷ words)
              (rw (other, free) at h))
        | inr bound ↦ ground (arith, h, other, bound)
      ]
    ]

-- Where a number of words is asked for, a repair that passes has the words of the original, in their
-- order and up to case, of which only bare articles are deleted.
pub validate_exact_word_repair-IsDeletion :
    (patterns : Patterns) (original repaired : Text) (constraints : List Constraint)
    → any is_exact_words constraints ≡ true
    → (validate_exact_word_repair patterns original repaired constraints).passed ≡ true
    → IsDeletion patterns.casefold
        (removable_articles patterns original constraints)
        0
        (split original)
        (map patterns.casefold (split repaired))
unfolding validate_exact_word_repair
validate_exact_word_repair-IsDeletion patterns original repaired constraints asked h =
    follows-IsDeletion patterns (removable_articles patterns original constraints) 0
      (split original) (map patterns.casefold (split repaired)) (ground (arith, asked, h))
