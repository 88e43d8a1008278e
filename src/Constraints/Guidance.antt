-- ===== src/Constraints/Guidance.antt =====
-- evaluation/constraints.py: `build_retry_prompt` and its guidance on counts.
use amit_ai.Common.{
  ltb, ◌==◌, if◌then◌else◌, is_nil, ℕ, ◌-◌, Option, none, some, List, [], ◌∷◌, ◌++◌,
}
use amit_ai.Common.Texts.{Text, codes, join}
use amit_ai.Generator.Types.{Ran, ran, raised, value_error}
use amit_ai.Constraints.Types.{
  Counting, exact_words, exact_bullets, at_most_bullets, Constraint, counting, Actual, counted,
  Check, Validation,
}
use amit_ai.Constraints.Validation.{decimal}

abbrev words_unit : ℕ → Text
words_unit difference = if difference == 1 then codes "word" else codes "words"

abbrev bullets_unit : ℕ → Text
bullets_unit difference = if difference == 1 then codes "bullet" else codes "bullets"

-- `"\n".join(lines)`
abbrev pub lines : List Text → Text
unfolding join
lines texts = join (10 ∷ []) texts

abbrev short_by : ℕ → Text → Text
short_by difference unit =
    codes "The answer is " ++ decimal difference ++ codes " " ++ unit ++ codes " short."

abbrev edit_to : Text → ℕ → Text → Text
edit_to change difference unit =
    codes "Edit the previous answer minimally and "
    ++ change
    ++ codes " exactly "
    ++ decimal difference
    ++ codes " "
    ++ unit

abbrev excess_of : ℕ → Text → Text
excess_of difference unit =
    codes "The answer has " ++ decimal difference ++ codes " excess " ++ unit ++ codes "."

abbrev contained_bullets : ℕ → Text
contained_bullets actual =
    codes "The previous answer contains " ++ decimal actual ++ codes " Markdown list-item bullets."

abbrev words_guidance : ℕ → ℕ → Text → Text → Text
words_guidance actual expected direction edit = lines (
    (codes "The previous answer contains "
      ++ decimal actual
      ++ codes " whitespace-separated words.")
    ∷ (codes "The required total is exactly " ++ decimal expected ++ codes " words.")
    ∷ direction
    ∷ codes "Count words exactly as whitespace-separated tokens."
    ∷ edit
    ∷ codes "Do not solve the task again or rewrite it from scratch."
    ∷ (codes
          "Before returning, internally recount using whitespace-separated tokens and ensure the final total is exactly "
        ++ decimal expected
        ++ codes " words.")
    ∷ [])

abbrev bullets_guidance : ℕ → ℕ → Text → Text → Text → Text
bullets_guidance actual expected direction edit preservation = lines (
    contained_bullets actual
    ∷ (codes "The required total is exactly " ++ decimal expected ++ codes " bullets.")
    ∷ direction
    ∷ edit
    ∷ preservation
    ∷ codes "Do not invent unnecessary services or details merely to fill the bullet count."
    ∷ (codes
          "Before returning, internally recount the Markdown list-item bullets and ensure the final total is exactly "
        ++ decimal expected
        ++ codes ".")
    ∷ [])

abbrev most_bullets_guidance : ℕ → ℕ → Text
most_bullets_guidance actual expected =
    let difference = actual - expected in
    lines (
      contained_bullets actual
      ∷ (codes "The maximum allowed total is " ++ decimal expected ++ codes " bullets.")
      ∷ excess_of difference (bullets_unit difference)
      ∷ (edit_to (codes "remove") difference (bullets_unit difference)
          ++ codes " so the final count is no more than "
          ++ decimal expected
          ++ codes ".")
      ∷ codes "Merge bullets without dropping factual claims or qualifications."
      ∷ codes "Do not invent unnecessary services or details."
      ∷ (codes
            "Before returning, internally recount the Markdown list-item bullets and ensure the final total is no more than "
          ++ decimal expected
          ++ codes ".")
      ∷ [])

-- the branches of `_build_count_retry_guidance`, on a failed check that counted
unfoldable pub count_guidance : Counting → ℕ → ℕ → Option Text
count_guidance exact_words expected actual =
    let missing = expected - actual in
    let excess = actual - expected in
    if actual == expected
    then none
    else if ltb actual expected
    then some (
        words_guidance actual expected (short_by missing (words_unit missing))
          (edit_to (codes "add") missing (words_unit missing) ++ codes "."))
    else some (
        words_guidance actual expected
          (codes "The answer is "
            ++ decimal excess
            ++ codes " "
            ++ words_unit excess
            ++ codes " too long.")
          (edit_to (codes "remove") excess (words_unit excess) ++ codes "."))
count_guidance exact_bullets expected actual =
    let missing = expected - actual in
    let excess = actual - expected in
    if actual == expected
    then none
    else if ltb actual expected
    then some (
        bullets_guidance actual expected (short_by missing (bullets_unit missing))
          (edit_to (codes "add") missing (bullets_unit missing) ++ codes ".")
          (codes "Split existing content without adding factual claims."))
    else some (
        bullets_guidance actual expected (excess_of excess (bullets_unit excess))
          (edit_to (codes "remove") excess (bullets_unit excess) ++ codes ".")
          (codes "Merge bullets without dropping factual claims or qualifications."))
count_guidance at_most_bullets expected actual =
    if ltb expected actual then some (most_bullets_guidance actual expected) else none

abbrev guidance_on : Constraint → Actual → Option Text
unfolding count_guidance
guidance_on (counting kind expected) (counted actual) = count_guidance kind expected actual
guidance_on _ _ = none

-- `_build_count_retry_guidance`
unfoldable pub build_count_retry_guidance : Check → Option Text
unfolding count_guidance
build_count_retry_guidance check =
    if check.passed then none else guidance_on check.constraint check.actual

abbrev pub guidance_of : List Check → List Text
unfolding build_count_retry_guidance
guidance_of [] = []
guidance_of (check ∷ checks) = elim (build_count_retry_guidance check) [
  | none ↦ guidance_of checks
  | some guidance ↦ guidance ∷ guidance_of checks
]

-- what stands between the instructions and their last sentence
abbrev pub directional_guidance : List Text → Text
unfolding join
directional_guidance [] = 10 ∷ []
directional_guidance (guidance ∷ more) =
    10 ∷ 10 ∷ codes "Count-aware correction:"
    ++ 10 ∷ join (10 ∷ 10 ∷ []) (guidance ∷ more)
    ++ 10 ∷ []

-- the fixed instructions, line by line
abbrev pub repair_instructions : List Text
repair_instructions =
    codes "FORMAT REPAIR of the existing answer; do not solve the task again."
    ∷ codes
        "Preserve the factual claims, entities, numbers, dates, polarity, negation, comparison direction, uncertainty, qualifications, quoted literal identifiers, tool-derived values, and answer meaning from the original response. Preserve factual subject/object relationships. Change only what is necessary to satisfy the listed mechanical constraints. Do not add new facts, reverse relationships, change numbers, invent entities, or strengthen/weaken uncertainty."
    ∷ codes
        "Do not call tools or recompute tool results; repair only the final text. If the constraints cannot be met without changing meaning, preserve meaning even if the mechanical validation still fails."
    ∷ []

-- `build_retry_prompt`
unfoldable pub build_retry_prompt : Text → Text → Validation → Ran Text
unfolding build_count_retry_guidance
build_retry_prompt original_prompt previous_response validation =
    if is_nil validation.failures
    then raised (value_error "A corrective retry requires at least one validation failure")
    else ran (
        codes "Original user request:"
        ++ 10 ∷ original_prompt
        ++ 10 ∷ 10 ∷ codes "Previous answer:"
        ++ 10 ∷ previous_response
        ++ 10 ∷ 10 ∷ codes "Validation failure:"
        ++ 10 ∷ lines validation.failures
        ++ 10 ∷ 10 ∷ lines repair_instructions
        ++ directional_guidance (guidance_of validation.checks)
        ++ codes "Output only the corrected answer.")
