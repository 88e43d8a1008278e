-- ===== src/Constraints/Validation.antt =====
-- evaluation/constraints.py: `validate_response` and the counts it rests on.
use Prim.Native.Nat.{◌/◌, ◌%◌}
use amit_ai.Common.{
  ltb, leb, ◌==◌, if◌then◌else◌, is_nil, length, drop, any, keep, count, ℕ, zero, suc, ◌+◌, Bool,
  true, false, not, ◌&&◌, ◌||◌, Option, none, some, List, [], ◌∷◌, ◌++◌, map, reverse,
}
use amit_ai.Common.Texts.{Text, codes, is_space, starts_with, lstrip, strip, is_empty, split}
use amit_ai.Constraints.Types.{
  Counting, exact_words, exact_bullets, at_most_bullets, Constraint, counting, code_only, counted,
  single_fenced_code_block, unfenced_unverified, prose_or_invalid_fence, Check, Validation,
  is_code_only,
}

-- `str(n)`: a number has at most as many digits as it is large, and one more
unfoldable pub digits_from : ℕ → ℕ → Text → Text
digits_from zero n digits = digits
digits_from (suc fuel) n digits =
    let more = digits_from fuel (n / 10) ((48 + n % 10) ∷ digits) in
    if ltb n 10 then (48 + n % 10) ∷ digits else more

abbrev pub decimal : ℕ → Text
unfolding digits_from
decimal n = digits_from (suc n) n []

-- `count_words`
unfoldable pub count_words : Text → ℕ
unfolding split
count_words text = length (split (strip text))

abbrev is_line_break : ℕ → Bool
is_line_break c =
    leb 10 c && leb c 13 || leb 28 c && leb c 30 || c == 0x85 || c == 0x2028 || c == 0x2029

-- `str.splitlines`, at the line that is being read, where a carriage return may have just ended one
unfoldable pub lines_from : Bool → Text → Text → List Text
lines_from after_return line [] = if is_empty line then [] else line ∷ []
lines_from after_return line (c ∷ text) =
    let skipped = lines_from false [] text in
    let ended = lines_from (c == 13) [] text in
    let longer = lines_from false (line ++ c ∷ []) text in
    if after_return && c == 10 then skipped else if is_line_break c then line ∷ ended else longer

abbrev is_blank : ℕ → Bool
is_blank c = c == b' ' || c == 9

abbrev skip_blanks : Text → Text
skip_blanks [] = []
skip_blanks (c ∷ text) = let rest = skip_blanks text in if is_blank c then rest else c ∷ text

abbrev starts_with_word : Text → Bool
starts_with_word [] = false
starts_with_word (d ∷ _) = not (is_space d)

-- `[ \t]+\S` at the start
abbrev is_item : Text → Bool
is_item [] = false
is_item (c ∷ text) = is_blank c && starts_with_word (skip_blanks text)

-- the rest of `[0-9]+[.)][ \t]+\S`, after its first digit
abbrev is_numbered_item : Text → Bool
is_numbered_item [] = false
is_numbered_item (c ∷ text) =
    let more = is_numbered_item text in
    if leb 48 c && leb c 57 then more else (c == b'.' || c == b')') && is_item text

-- `_BULLET_PATTERN.match`
unfoldable pub is_bullet : Text → Bool
is_bullet [] = false
is_bullet (c ∷ line) =
    if leb 48 c && leb c 57
    then is_numbered_item line
    else (c == b'-' || c == b'*' || c == b'+') && is_item line

-- `count_bullets`
unfoldable pub count_bullets : Text → ℕ
unfolding lines_from is_bullet
count_bullets text = count (λ line. is_bullet (lstrip line)) (lines_from false [] text)

-- whether a test passes at the start of a line, as a pattern that begins with `(?m)^` is searched
abbrev at_later_line : (Text → Bool) → Text → Bool
at_later_line test [] = false
at_later_line test (c ∷ text) = c == 10 && test text || at_later_line test text

abbrev at_some_line : (Text → Bool) → Text → Bool
at_some_line test text = test text || at_later_line test text

abbrev is_fence_of : ℕ → Text → Bool
is_fence_of marker text = starts_with (skip_blanks text) (marker ∷ marker ∷ marker ∷ [])

-- `_FENCE_MARKER_PATTERN.search`
unfoldable pub has_fence_marker : Text → Bool
has_fence_marker text = at_some_line (λ t. is_fence_of b'`' t || is_fence_of b'~' t) text

abbrev run_length : ℕ → Text → ℕ
run_length marker [] = 0
run_length marker (c ∷ text) = if c == marker then suc (run_length marker text) else 0

abbrev after_return : Text → Option Text
after_return [] = none
after_return (d ∷ rest) = if d == 10 then some rest else none

-- what follows `[^\r\n]*\r?\n`
abbrev after_line : Text → Option Text
after_line [] = none
after_line (c ∷ text) =
    let more = after_line text in
    if c == 10 then some text else if c == 13 then after_return text else more

abbrev without_return : Text → Text
without_return [] = []
without_return (d ∷ rest) = if d == 13 then rest else d ∷ rest

-- what precedes a line break that ends a text, which is given backwards
abbrev before_break : Text → Option Text
before_break [] = none
before_break (c ∷ text) = if c == 10 then some (reverse (without_return text)) else none

-- `_FENCED_CODE_PATTERN.fullmatch`, by its fence's character: the fence that closes the block is the
-- whole run that ends the text, and no longer than the run that opens it, of which a part may be
-- read as the opening line's text
unfoldable pub fenced_by : ℕ → Text → Option Text
fenced_by marker text =
    let opening = run_length marker text in
    elim (after_line text) [
      | none ↦ none
      | some rest ↦
          let backwards = reverse rest in
          let closing = run_length marker backwards in
          if leb 3 closing && leb closing opening
          then before_break (drop closing backwards)
          else none
    ]

-- `[^\r\n]*$` up to the end of a line
abbrev is_whole_line : Text → Bool
is_whole_line [] = true
is_whole_line (c ∷ text) =
    let more = is_whole_line text in if c == 10 then true else if c == 13 then false else more

-- the search for a fence within the code
unfoldable pub has_inner_fence : ℕ → Text → Bool
has_inner_fence marker code = at_some_line (λ t. is_fence_of marker t && is_whole_line t) code

unfoldable pub code_within : ℕ → Text → Option Text
unfolding fenced_by has_inner_fence
code_within marker text = elim (fenced_by marker text) [
  | none ↦ none
  | some code ↦ if is_empty (strip code) || has_inner_fence marker code then none else some code
]

-- `normalize_code_only`
unfoldable pub normalize_code_only : Text → Option Text
unfolding code_within
normalize_code_only text =
    let t = strip text in
    if starts_with t (b'`' ∷ []) then code_within b'`' t else code_within b'~' t

-- `_validate_code_only`
unfoldable pub validate_code_only : Text → Constraint → Check
unfolding normalize_code_only has_fence_marker
validate_code_only text constraint = elim (normalize_code_only text) [
  | some _ ↦ record {
    constraint = constraint;
    passed = true;
    actual = single_fenced_code_block;
    message = codes "The answer contained exactly one fenced code block.";
  }
  | none ↦
      if not (has_fence_marker text)
      then record {
        constraint = constraint;
        passed = true;
        actual = unfenced_unverified;
        message =
            codes
              "The unfenced answer was accepted because code-only content could not be disproved mechanically.";
      }
      else record {
        constraint = constraint;
        passed = false;
        actual = prose_or_invalid_fence;
        message =
            codes
              "Expected code only, but the answer was not exactly one fenced code block with no surrounding prose.";
      }
]

abbrev pub measure : Counting → Text → ℕ
unfolding count_words count_bullets
measure exact_words text = count_words text
measure exact_bullets text = count_bullets text
measure at_most_bullets text = count_bullets text

abbrev pub is_met : Counting → ℕ → ℕ → Bool
is_met exact_words actual expected = actual == expected
is_met exact_bullets actual expected = actual == expected
is_met at_most_bullets actual expected = leb actual expected

abbrev pub count_message : Counting → ℕ → ℕ → Text
count_message exact_words actual expected =
    codes "Expected exactly "
    ++ decimal expected
    ++ codes " words, but the answer contained "
    ++ decimal actual
    ++ codes " words."
count_message exact_bullets actual expected =
    codes "Expected exactly "
    ++ decimal expected
    ++ codes " bullets, but the answer contained "
    ++ decimal actual
    ++ codes " bullets."
count_message at_most_bullets actual expected =
    codes "Expected at most "
    ++ decimal expected
    ++ codes " bullets, but the answer contained "
    ++ decimal actual
    ++ codes " bullets."

-- the body of the loop of `validate_response`
unfoldable pub check_constraint : Text → Text → Constraint → Check
unfolding validate_code_only
check_constraint text validation_text code_only = validate_code_only text code_only
check_constraint text validation_text (counting kind expected) =
    let actual = measure kind validation_text in
    record {
      constraint = counting kind expected;
      passed = is_met kind actual expected;
      actual = counted actual;
      message = count_message kind actual expected;
    }

-- the code that is counted in, where code was asked for
unfoldable pub normalized_for : Text → List Constraint → Option Text
unfolding normalize_code_only
normalized_for text constraints =
    if any is_code_only constraints then normalize_code_only text else none

abbrev pub or_text : Option Text → Text → Text
or_text none text = text
or_text (some code) text = code

abbrev pub is_failed : Check → Bool
is_failed check = not check.passed

-- `validate_response`
unfoldable pub validate_response : Text → List Constraint → Validation
unfolding check_constraint normalized_for
validate_response text constraints =
    let normalized = normalized_for text constraints in
    let checks = map (check_constraint text (or_text normalized text)) constraints in
    let failures = map (λ (check : Check). check.message) (keep is_failed checks) in
    record {
      passed = is_nil failures;
      checks = checks;
      failures = failures;
      normalized_response = normalized;
    }
