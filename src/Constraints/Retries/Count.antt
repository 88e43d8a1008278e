-- ===== src/Constraints/Retries/Count.antt =====
-- evaluation/constraints.py: how often a retry is called, by a measure of its state.
use mathlib.Core.Path.{subst}
use amit_ai.Common.{
  ltb, Bool-cases, is_nil, ℕ, zero, suc, ◌+◌, ◌≤◌, inl, inr, not, ◌&&◌, ◌||◌, Option, List, arith,
}
use amit_ai.Common.Texts.{Text, strip, is_empty}
use amit_ai.Generator.Types.{Ran, Results, Results-bind}
use amit_ai.Constraints.Types.{Constraint, Validation, Patterns}
use amit_ai.Constraints.Prompt.{parse_constraints}
use amit_ai.Constraints.Validation.{or_text}
use amit_ai.Constraints.Guidance.{build_retry_prompt}
use amit_ai.Constraints.Retries.{
  max_mechanical_retries, Outcome, first_result, safety_of, validation_of, settle, attempts,
  validate_with_bounded_retries,
}

module _ (patterns : Patterns) {S : Type 0} (measure_of : S → ℕ) where
  -- a retry adds at most one to the measure
  abbrev pub IsCounted : (Text → S → Ran (Text × S)) → Type 0
  IsCounted retry =
      (prompt : Text) (s : S)
      → Results (λ (answer : Text × S). measure_of answer.1 ≤ measure_of s + 1) (retry prompt s)

  settle-Results :
      (constraints : List Constraint) (original : Text) (P : S → Type 0) (response : Text)
      (made : Outcome) (s : S) (more : Ran (Outcome × S))
      → P s
      → Results (λ (r : Outcome × S). P r.1) more
      → Results
          (λ (r : Outcome × S). P r.1)
          (settle patterns constraints original response made s more)
  unfolding settle
  settle-Results constraints original P response made s more now later =
      elim (Bool-cases (is_empty response)) [
        | inl blank ↦ rw blank tt
        | inr full ↦
            rw full
              (elim (Bool-cases (
                not (safety_of patterns constraints original response).passed
                && not (is_empty (strip original)))) [
                  | inl unsafe ↦ rw unsafe now
                  | inr safe ↦
                      rw safe
                        (elim (Bool-cases
                          (validation_of patterns constraints original response).passed) [
                            | inl valid ↦ rw valid now
                            | inr invalid ↦ rw invalid later
                          ])
                ])
      ]

  attempts-count :
      (constraints : List Constraint) (original : Text) (retry : Text → S → Ran (Text × S))
      (model_prompt : Text) (left number : ℕ) (response : Text) (validation : Validation)
      (o : Outcome) (s : S) (most : ℕ)
      → IsCounted retry
      → measure_of s + left ≤ most
      → Results
          (λ (r : Outcome × S). measure_of r.1 ≤ most)
          (attempts patterns constraints original retry model_prompt left number response validation
            o s)
  unfolding attempts
  attempts-count constraints original retry model_prompt zero number response validation o s most
        counted enough =
      omega (arith, enough)
  attempts-count constraints original retry model_prompt (suc left) number response validation o s
        most counted enough =
      Results-bind _ (build_retry_prompt model_prompt response validation) _ (λ prompt e.
        Results-bind _ (retry prompt s) _ (λ answer e'.
          let one_more =
            subst (Results (λ (a : Text × S). measure_of a.1 ≤ measure_of s + 1)) e'
              (counted prompt s) in
          settle-Results constraints original (λ s. measure_of s ≤ most) (strip answer.0) _ answer.1
            _ (omega (arith, one_more, enough))
            (attempts-count constraints original retry model_prompt left (number + 1)
              (strip answer.0) _ _ answer.1 most counted (omega (arith, one_more, enough)))))

  -- Whatever the answers, the retries add to the measure at most the number of retries allowed.
  pub validate_with_bounded_retries-count :
      (prompt original : Text) (retry : Text → S → Ran (Text × S)) (max_retries : ℕ)
      (shown : Option Text) (s : S)
      → IsCounted retry
      → Results
          (λ (r : Outcome × S). measure_of r.1 ≤ measure_of s + max_mechanical_retries)
          (validate_with_bounded_retries patterns prompt original retry max_retries shown s)
  unfolding validate_with_bounded_retries
  validate_with_bounded_retries-count prompt original retry max_retries shown s counted =
      elim (Bool-cases (ltb max_mechanical_retries max_retries)) [
        | inl many ↦ rw many tt
        | inr few ↦ rw few (
            Results-bind _ (parse_constraints patterns prompt) _ (λ constraints e.
              let first = first_result original constraints in
              elim (Bool-cases (is_nil constraints || first.first_validation.passed)) [
                | inl done ↦ rw done (omega arith)
                | inr failing ↦ rw failing (
                    attempts-count constraints original retry (or_text shown prompt) max_retries 1
                      original first.first_validation first s
                      (measure_of s + max_mechanical_retries) counted (ground (arith, few)))
              ]))
      ]
