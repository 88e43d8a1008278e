-- ===== src/Constraints/Tests.antt =====
-- evaluation/constraints.py: runs of the constraints, and the inputs at which their theorems are applied.
use amit_ai.Common.{
  leb, if◌then◌else◌, ℕ, ◌+◌, ◌≡◌, refl, false, ◌&&◌, none, some, List, [], ◌∷◌, map, arith,
}
use amit_ai.Common.Texts.{
  split_from, Text, codes, is_space, starts_with, lstrip, rstrip, strip, split,
}
use amit_ai.Generator.Types.{Ran, ran}
use amit_ai.Constraints.Types.{Counting, exact_words, Constraint, counting, Match, Patterns}
use amit_ai.Constraints.Prompt.{tens_and_unit, written, written_count, one_blank, parse_count}
use amit_ai.Constraints.Validation.{
  has_inner_fence, is_bullet, fenced_by, code_within, lines_from, count_words, count_bullets,
  normalize_code_only,
}
use amit_ai.Constraints.Repair.{
  delete_articles_to_exact_words, exact_count, removable_articles, validate_exact_word_repair,
}
use amit_ai.Constraints.Repair.Deletion.{delete_articles_to_exact_words-count}
use amit_ai.Constraints.Repair.Matching.{IsDeletion, validate_exact_word_repair-IsDeletion}

abbrev pub two_words : Text
two_words = codes "exactly two words"

abbrev directive : Match
directive = record { start = 0; end_at = 17; count_text = codes "two" }

abbrev found : Counting → Text → List Match
found exact_words prompt = if starts_with prompt two_words then directive ∷ [] else []
found _ _ = []

abbrev pub simple : Patterns
simple = record {
  count_matches = found;
  code_only_matches = λ _. [];
  is_negation = λ _. false;
  is_mention = λ _. false;
  is_alnum = λ c. leb 97 c && leb c 122;
  lower = λ t. t;
  casefold = λ t. t;
  numbers = λ _. [];
  identifiers = λ _. [];
  leading_polarity = λ _. none;
}

hyphenated : parse_count simple (codes "twenty-one") ≡ ran 21
unfolding parse_count one_blank written_count written tens_and_unit strip rstrip lstrip is_space
hyphenated = refl

bulleted : count_bullets (codes "- a\n 12) b\n-c\n* d") ≡ 3
unfolding count_bullets lines_from is_bullet lstrip is_space
bulleted = refl

fenced : normalize_code_only (codes "```py\nx = 1\n```\n") ≡ some (codes "x = 1")
unfolding normalize_code_only code_within fenced_by has_inner_fence strip rstrip lstrip is_space
fenced = refl

refenced : normalize_code_only (codes "```\na\n```\nb\n```") ≡ none
unfolding normalize_code_only code_within fenced_by has_inner_fence strip rstrip lstrip is_space
refenced = refl

abbrev pub cat : Text
cat = codes "the cat sat"

abbrev dog : Text → ℕ → Ran (Text × ℕ)
dog prompt calls = ran (codes "dog sat", calls + 1)

abbrev asked : List Constraint
asked = counting exact_words 2 ∷ []

delete_articles_to_exact_words-count_example :
    (edit : Text) × (delete_articles_to_exact_words simple cat asked ≡ some edit)
    × (count_words edit ≡ 2)
unfolding split split_from is_space removable_articles exact_count
delete_articles_to_exact_words-count_example =
    delete_articles_to_exact_words-count simple cat asked 2 refl (omega arith) (omega arith)
      (omega arith)

validate_exact_word_repair-IsDeletion_example :
    IsDeletion simple.casefold
      (removable_articles simple cat asked)
      0
      (split cat)
      (map simple.casefold (split (codes "cat sat")))
unfolding split split_from is_space removable_articles validate_exact_word_repair
validate_exact_word_repair-IsDeletion_example =
    validate_exact_word_repair-IsDeletion simple cat (codes "cat sat") asked refl refl
