-- ===== src/Constraints/Retries.antt =====
-- evaluation/constraints.py: `validate_with_bounded_retries`.
pub mod Faithful
pub mod Count
pub mod Returns
use amit_ai.Common.{
  ltb, leb, ◌==◌, if◌then◌else◌, ==_iff, Bool-cases, Option-cases, is_some, is_nil, length, take,
  drop, any, keep, find, count, All, length-append, length-keep-le, count-append, All-append,
  All-weaken, ℕ, zero, suc, ◌+◌, ◌-◌, ◌*◌, ◌≤◌, ◌<◌, min, String, ◌≡◌, refl, sym, ap, ◌∙◌, fun_ext,
  ◌≢◌, ◌↔◌, ◌⊎◌, inl, inr, Bool, true, false, not, ◌&&◌, ◌||◌, Option, none, some, List, [], ◌∷◌,
  ◌++◌, map, reverse, append-nil, append_assoc, reverse-append, reverse-reverse, arith, ℕ_discrete,
  str_eq, str_eq_iff,
}
use amit_ai.Common.Texts.{
  Text, codes, is_space, eqb, starts_with, lstrip, rstrip, strip, is_empty, eqb→eq, eqb_refl, split,
  join, contains, is_member,
}
use amit_ai.Generator.Types.{Ran, ran, raised, ◌>>=◌, value_error}
use amit_ai.Constraints.Types.{Constraint, Validation, RepairSafety, Patterns}
use amit_ai.Constraints.Prompt.{parse_constraints}
use amit_ai.Constraints.Validation.{validate_response, or_text}
use amit_ai.Constraints.Guidance.{lines, build_retry_prompt}
use amit_ai.Constraints.Repair.{
  validate_repair_literals, validate_exact_word_repair, delete_articles_to_exact_words,
}

abbrev pub max_mechanical_retries : ℕ
max_mechanical_retries = 1

-- an entry of `retry_attempts`
pub record Attempt : Type 0 where
  pub attempt : ℕ
  pub reason : Text
  pub prompt : Text
  pub response : Text
  pub validation : Validation
  pub repair_safety : RepairSafety

-- The result: `first_retry` holds retry_reason, retry_prompt, retry_response, second_validation and
-- retry_passed, and retry_happened is that `retry_count` is not 0.
pub record Outcome : Type 0 where
  pub original_response : Text
  pub parsed_constraints : List Constraint
  pub first_validation : Validation
  pub first_retry : Option Attempt
  pub retry_attempts : List Attempt
  pub retry_count : ℕ
  pub final_validation : Validation
  pub final_response : Text
  pub repair_safety : Option RepairSafety
  pub semantic_fallback_used : Bool
  pub deterministic_repair_used : Bool

unfoldable pub first_result : Text → List Constraint → Outcome
unfolding validate_response
first_result original constraints = record {
  original_response = original;
  parsed_constraints = constraints;
  first_validation = validate_response original constraints;
  first_retry = none;
  retry_attempts = [];
  retry_count = 0;
  final_validation = validate_response original constraints;
  final_response = original;
  repair_safety = none;
  semantic_fallback_used = false;
  deterministic_repair_used = false;
}

module _ (patterns : Patterns) (constraints : List Constraint) (original : Text) where
  -- `repair_safety` of a response
  unfoldable pub safety_of : Text → RepairSafety
  unfolding validate_repair_literals validate_exact_word_repair
  safety_of response =
      let literals = validate_repair_literals patterns original response in
      let exact = validate_exact_word_repair patterns original response constraints in
      record {
        passed = is_nil (literals.failures ++ exact.failures);
        failures = literals.failures ++ exact.failures;
      }

  -- `retry_validation` of a response
  unfoldable pub validation_of : Text → Validation
  unfolding validate_response safety_of
  validation_of response =
      let validation = validate_response response constraints in
      let safety = safety_of response in
      if safety.passed
      then validation
      else record validation { passed = false; failures = validation.failures ++ safety.failures }

  unfoldable pub attempt_made : ℕ → Text → Text → Text → Attempt
  unfolding safety_of validation_of
  attempt_made number reason prompt response = record {
    attempt = number;
    reason = reason;
    prompt = prompt;
    response = response;
    validation = validation_of response;
    repair_safety = safety_of response;
  }

  -- the updates of the result by an attempt
  unfoldable pub record_attempt : ℕ → Text → Text → Text → Outcome → Outcome
  unfolding safety_of validation_of attempt_made
  record_attempt number reason prompt response o = record o {
    repair_safety = some (safety_of response);
    retry_attempts = o.retry_attempts ++ attempt_made number reason prompt response ∷ [];
    retry_count = number;
    final_response = response;
    final_validation = validation_of response;
    first_retry =
        if number == 1 then some (attempt_made number reason prompt response) else o.first_retry;
  }

  abbrev pub keep_original : Outcome → Outcome
  keep_original o = record o {
    final_response = original;
    final_validation = o.first_validation;
    semantic_fallback_used = true;
  }

  unfoldable pub try_edit : Option Text → Outcome → Outcome
  unfolding validate_response validate_repair_literals
  try_edit none o = keep_original o
  try_edit (some safe_edit) o =
      let validation = validate_response safe_edit constraints in
      if validation.passed && (validate_repair_literals patterns original safe_edit).passed
      then record o {
        final_response = safe_edit;
        final_validation = validation;
        deterministic_repair_used = true;
      }
      else keep_original o

  -- what is done in place of an unsafe repair
  unfoldable pub replace_unsafe : Outcome → Outcome
  unfolding delete_articles_to_exact_words try_edit
  replace_unsafe o = try_edit (delete_articles_to_exact_words patterns original constraints) o

  -- the end of the loop's body, after an answer: `more` is the rest of the loop
  unfoldable pub settle : {S : Type 0} → Text → Outcome → S → Ran (Outcome × S) → Ran (Outcome × S)
  unfolding safety_of validation_of replace_unsafe
  settle response made s more =
      if is_empty response
      then raised (value_error "Corrective model retry returned an empty response")
      else if not (safety_of response).passed && not (is_empty (strip original))
      then ran (replace_unsafe made, s)
      else if (validation_of response).passed
      then ran (made, s)
      else more

  -- The loop over attempts, with so many left; `retry` is a function of a state that it changes.
  unfoldable pub attempts :
      {S : Type 0} (retry : Text → S → Ran (Text × S)) (model_prompt : Text)
      → ℕ
      → ℕ
      → Text
      → Validation
      → Outcome
      → S
      → Ran (Outcome × S)
  unfolding build_retry_prompt record_attempt settle validation_of
  attempts retry model_prompt zero number latest_response latest_validation o s = ran (o, s)
  attempts retry model_prompt (suc left) number latest_response latest_validation o s =
      build_retry_prompt model_prompt latest_response latest_validation >>= λ prompt.
      retry prompt s >>= λ answer.
      (let response = strip answer.0 in
        let made = record_attempt number (lines latest_validation.failures) prompt response o in
        settle response made answer.1 (
          attempts retry model_prompt left (number + 1) response (validation_of response) made
            answer.1))

-- `validate_with_bounded_retries`
unfoldable pub validate_with_bounded_retries :
    (patterns : Patterns) (original_prompt original : Text) {S : Type 0}
    (retry : Text → S → Ran (Text × S)) (max_retries : ℕ) (retry_original_prompt : Option Text)
    → S
    → Ran (Outcome × S)
unfolding parse_constraints first_result attempts
validate_with_bounded_retries patterns original_prompt original retry max_retries shown s =
    if ltb max_mechanical_retries max_retries
    then raised (value_error "max_retries must be an integer between 0 and 1")
    else parse_constraints patterns original_prompt >>= λ constraints.
        (let first = first_result original constraints in
          if is_nil constraints || first.first_validation.passed
          then ran (first, s)
          else attempts patterns constraints original retry (or_text shown original_prompt)
              max_retries 1 original first.first_validation first s)
