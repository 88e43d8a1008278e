-- ===== src/Constraints/Types.antt =====
-- evaluation/constraints.py: constraints, checks and validations, and the patterns of the module.
use amit_ai.Common.{◌==◌, ℕ, Bool, true, false, ◌&&◌, Option, List}
use amit_ai.Common.Texts.{Text}

-- The constraints that count something, which `_COUNT_PATTERNS` lists.
pub data Counting : Type 0 where
  exact_words exact_bullets at_most_bullets : Counting

-- a dict {"type": ..., "count": ...}
pub data Constraint : Type 0 where
  counting : Counting → ℕ → Constraint
  code_only : Constraint

pub data Actual : Type 0 where
  counted : ℕ → Actual
  single_fenced_code_block unfenced_unverified prose_or_invalid_fence : Actual

pub record Check : Type 0 where
  pub constraint : Constraint
  pub passed : Bool
  pub actual : Actual
  pub message : Text

-- what `validate_response` returns
pub record Validation : Type 0 where
  pub passed : Bool
  pub checks : List Check
  pub failures : List Text
  pub normalized_response : Option Text

-- what `validate_repair_literals` and `validate_exact_word_repair` return
pub record RepairSafety : Type 0 where
  pub passed : Bool
  pub failures : List Text

-- a match of a pattern, with its group `count`
pub record Match : Type 0 where
  pub start : ℕ
  pub end_at : ℕ
  pub count_text : Text

-- The patterns of the module that need a regular expression engine, and Python's character tables:
-- `_COUNT_PATTERNS` and `_CODE_ONLY_PATTERN` by what `finditer` yields, `_NEGATED_DIRECTIVE_PATTERN`
-- and `_METALINGUISTIC_PATTERN` by whether they are found, and the three patterns of
-- `validate_repair_literals` by what they find in a text.
pub record Patterns : Type 0 where
  pub count_matches : Counting → Text → List Match
  pub code_only_matches : Text → List Match
  pub is_negation : Text → Bool
  pub is_mention : Text → Bool
  pub is_alnum : ℕ → Bool
  pub lower : Text → Text
  pub casefold : Text → Text
  pub numbers : Text → List Text
  pub identifiers : Text → List Text
  pub leading_polarity : Text → Option Text

abbrev pub same_counting : Counting → Counting → Bool
same_counting exact_words exact_words = true
same_counting exact_bullets exact_bullets = true
same_counting at_most_bullets at_most_bullets = true
same_counting _ _ = false

-- equality of the keys of `seen`
abbrev pub same_constraint : Constraint → Constraint → Bool
same_constraint (counting k n) (counting k' n') = same_counting k k' && n == n'
same_constraint code_only code_only = true
same_constraint _ _ = false

abbrev pub is_code_only : Constraint → Bool
is_code_only code_only = true
is_code_only (counting _ _) = false

abbrev pub is_exact_words : Constraint → Bool
is_exact_words (counting exact_words _) = true
is_exact_words _ = false
