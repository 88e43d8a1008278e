-- ===== src/Constraints/Retries/Faithful.antt =====
-- evaluation/constraints.py: what a repaired answer keeps of the original one.
use amit_ai.Common.{
  ltb, Bool-cases, is_nil, ℕ, zero, suc, ◌+◌, ◌≡◌, refl, sym, ap, ◌∙◌, ◌⊎◌, inl, inr, true, false,
  ◌&&◌, ◌||◌, Option, none, some, List, [], ◌∷◌, ◌++◌, arith,
}
use amit_ai.Common.Texts.{Text, strip, is_empty}
use amit_ai.Generator.Types.{Ran, ran, Results, Results-bind, Results-weaken}
use amit_ai.Constraints.Types.{Constraint, Validation, Patterns}
use amit_ai.Constraints.Prompt.{parse_constraints}
use amit_ai.Constraints.Validation.{validate_response, or_text}
use amit_ai.Constraints.Guidance.{lines, build_retry_prompt}
use amit_ai.Constraints.Repair.{
  validate_exact_word_repair, validate_repair_literals, validate_exact_word_repair,
  delete_articles_to_exact_words,
}
use amit_ai.Constraints.Retries.{
  max_mechanical_retries, Outcome, first_result, safety_of, validation_of, record_attempt, try_edit,
  replace_unsafe, settle, attempts, validate_with_bounded_retries,
}

-- The constraints are these. The final validation is the one of the final response; that is the original response, or it has
-- the original's numbers, identifiers and leading yes or no; and after a fallback it is the original.
abbrev pub IsFaithful : Patterns → List Constraint → Text → Outcome → Type 0
IsFaithful patterns constraints original o =
    (o.parsed_constraints ≡ constraints)
    × (o.final_validation ≡ validate_response o.final_response o.parsed_constraints)
    × ((o.final_response ≡ original)
        ⊎ ((validate_repair_literals patterns original o.final_response).passed ≡ true))
    × (o.semantic_fallback_used ≡ true → o.final_response ≡ original)

module _ (patterns : Patterns) (constraints : List Constraint) (original : Text) where
  -- what holds of a result before an attempt
  abbrev IsStarted : Outcome → Type 0
  IsStarted o =
      (o.parsed_constraints ≡ constraints)
      × (o.first_validation ≡ validate_response original constraints)
      × (o.semantic_fallback_used ≡ false)

  append-is_nil : (xs ys : List Text) → is_nil (xs ++ ys) ≡ true → is_nil xs ≡ true
  append-is_nil [] ys h = refl
  append-is_nil (x ∷ xs) ys h = h

  safe-literals :
      (response : Text)
      → (safety_of patterns constraints original response).passed ≡ true
      → (validate_repair_literals patterns original response).passed ≡ true
  unfolding safety_of validate_repair_literals
  safe-literals response h =
      append-is_nil (validate_repair_literals patterns original response).failures
        (validate_exact_word_repair patterns original response constraints).failures h

  safe-validation :
      (response : Text)
      → (safety_of patterns constraints original response).passed ≡ true
      → validation_of patterns constraints original response
        ≡ validate_response response constraints
  unfolding validation_of
  safe-validation response h = rw h refl

  record_attempt-IsFaithful :
      (number : ℕ) (reason prompt response : Text) (o : Outcome)
      → IsStarted o
      → (safety_of patterns constraints original response).passed ≡ true
      → IsFaithful patterns constraints original
          (record_attempt patterns constraints original number reason prompt response o)
  unfolding record_attempt
  record_attempt-IsFaithful number reason prompt response o (parsed, first, fresh) safe = (
    parsed,
    safe-validation response safe ∙ ap (validate_response response) (sym parsed),
    inr (safe-literals response safe),
    λ used. ground (arith, fresh, used),
  )

  record_attempt-IsStarted :
      (number : ℕ) (reason prompt response : Text) (o : Outcome)
      → IsStarted o
      → IsStarted (record_attempt patterns constraints original number reason prompt response o)
  unfolding record_attempt
  record_attempt-IsStarted number reason prompt response o h = h

  try_edit-IsFaithful :
      (edit : Option Text) (o : Outcome)
      → IsStarted o
      → IsFaithful patterns constraints original (try_edit patterns constraints original edit o)
  unfolding try_edit
  try_edit-IsFaithful none o (parsed, first, fresh) =
      (parsed, first ∙ ap (validate_response original) (sym parsed), inl refl, λ used. refl)
  try_edit-IsFaithful (some e) o (parsed, first, fresh) =
      elim (Bool-cases (
        (validate_response e constraints).passed
        && (validate_repair_literals patterns original e).passed)) [
          | inl good ↦ rw good (
            parsed,
            ap (validate_response e) (sym parsed),
            inr (ground (arith, good)),
            λ used. ground (arith, fresh, used),
          )
          | inr bad ↦
              rw bad (
                parsed,
                first ∙ ap (validate_response original) (sym parsed),
                inl refl,
                λ used. refl,
              )
        ]

  replace_unsafe-IsFaithful :
      (o : Outcome)
      → IsStarted o
      → IsFaithful patterns constraints original (replace_unsafe patterns constraints original o)
  unfolding replace_unsafe
  replace_unsafe-IsFaithful o h =
      try_edit-IsFaithful (delete_articles_to_exact_words patterns original constraints) o h

  -- what holds of a settled attempt, where the original response is not blank
  settle-Results :
      {S : Type 0} (P : Outcome × S → Type 0) (response : Text) (made : Outcome) (s : S)
      (more : Ran (Outcome × S))
      → is_empty (strip original) ≡ false
      → ((safety_of patterns constraints original response).passed ≡ true
          → P (made, s) × Results P more)
      → P (replace_unsafe patterns constraints original made, s)
      → Results P (settle patterns constraints original response made s more)
  unfolding settle
  settle-Results P response made s more there safe unsafe = elim (Bool-cases (is_empty response)) [
    | inl blank ↦ rw blank tt
    | inr full ↦
        rw (full, there)
          (elim (Bool-cases (safety_of patterns constraints original response).passed) [
            | inl ok ↦ rw ok (elim (Bool-cases (validate_response response constraints).passed) [
              | inl valid ↦ rw valid ((safe ok).0)
              | inr invalid ↦ rw invalid ((safe ok).1)
            ])
            | inr bad ↦ rw bad unsafe
          ])
  ]

  attempts-IsFaithful :
      {S : Type 0} (retry : Text → S → Ran (Text × S)) (model_prompt : Text) (left number : ℕ)
      (response : Text) (validation : Validation) (o : Outcome) (s : S)
      → is_empty (strip original) ≡ false
      → IsStarted o
      → IsFaithful patterns constraints original o
      → Results
          (λ (r : Outcome × S). IsFaithful patterns constraints original r.0)
          (attempts patterns constraints original retry model_prompt left number response validation
            o s)
  unfolding attempts
  attempts-IsFaithful retry model_prompt zero number response validation o s there h good = good
  attempts-IsFaithful {S} retry model_prompt (suc left) number response validation o s there h
        good =
      Results-bind _ (build_retry_prompt model_prompt response validation) _ (λ prompt e.
        Results-bind _ (retry prompt s) _ (λ answer e'.
          let text = strip answer.0 in
          let made =
            record_attempt patterns constraints original number (lines validation.failures) prompt
              text o in
          let started =
            record_attempt-IsStarted number (lines validation.failures) prompt text o h in
          settle-Results _ text made answer.1 _ there
            (λ safe.
              let faithful =
                record_attempt-IsFaithful number (lines validation.failures) prompt text o h safe in
              (
                faithful,
                attempts-IsFaithful retry model_prompt left (number + 1) text
                    (validation_of patterns constraints original text) made answer.1 there started
                    faithful,
              ))
            (replace_unsafe-IsFaithful made started)))

first_result-IsFaithful :
    (patterns : Patterns) (constraints : List Constraint) (original : Text)
    → IsFaithful patterns constraints original (first_result original constraints)
unfolding first_result
first_result-IsFaithful patterns constraints original = (refl, refl, inl refl, λ used. refl)

-- What holds of a result for a prompt: its constraints are the prompt's, and it is faithful.
abbrev pub IsRepaired : Patterns → (prompt original : Text) → Outcome → Type 0
IsRepaired patterns prompt original o =
    (constraints : List Constraint) × (parse_constraints patterns prompt ≡ ran constraints)
    × IsFaithful patterns constraints original o

-- Where the original response is not blank, whatever the retries answer: if the result is not an
-- exception, then its constraints are the prompt's; its final validation is the one of its final response; this is the original
-- response, or has the same numbers, identifiers and leading yes or no; and after a fallback it is
-- the original one.
pub validate_with_bounded_retries-IsFaithful :
    (patterns : Patterns) (prompt original : Text) {S : Type 0} (retry : Text → S → Ran (Text × S))
    (max_retries : ℕ) (shown : Option Text) (s : S)
    → is_empty (strip original) ≡ false
    → Results
        (λ (r : Outcome × S). IsRepaired patterns prompt original r.0)
        (validate_with_bounded_retries patterns prompt original retry max_retries shown s)
unfolding validate_with_bounded_retries
validate_with_bounded_retries-IsFaithful patterns prompt original retry max_retries shown s there =
    elim (Bool-cases (ltb max_mechanical_retries max_retries)) [
      | inl many ↦ rw many tt
      | inr few ↦ rw few (
          Results-bind _ (parse_constraints patterns prompt) _ (λ constraints e.
            let first = first_result-IsFaithful patterns constraints original in
            elim (Bool-cases
              (is_nil constraints || (first_result original constraints).first_validation.passed)) [
                | inl done ↦ rw done (constraints, e, first)
                | inr failing ↦ rw failing (
                    Results-weaken (λ r. IsFaithful patterns constraints original r.0)
                      (λ r. IsRepaired patterns prompt original r.0) _
                      (λ r good. (constraints, e, good))
                      (attempts-IsFaithful patterns constraints original retry
                        (or_text shown prompt) max_retries 1 original
                        (first_result original constraints).first_validation
                        (first_result original constraints) s there
                        (unfold first_result in (refl, refl, refl)) first))
              ]))
    ]
