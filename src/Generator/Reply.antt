-- ===== src/Generator/Reply.antt =====
-- runtime/generator.py: `_generate_validated_response` and `_guard_result`. The compiled context is
-- given as the messages before the user's turn and that turn's content as the provider sees it.
pub mod Visible
pub mod Checked
use amit_ai.Common.{
  ltb, leb, ◌==◌, if◌then◌else◌, ==_iff, Bool-cases, Option-cases, is_some, is_nil, length, take,
  drop, any, keep, find, count, All, length-append, length-keep-le, count-append, All-append,
  All-weaken, ℕ, zero, suc, ◌+◌, ◌-◌, ◌*◌, ◌≤◌, ◌<◌, min, String, ◌≡◌, refl, sym, ap, ◌∙◌, fun_ext,
  ◌≢◌, ◌↔◌, ◌⊎◌, inl, inr, Bool, true, false, not, ◌&&◌, ◌||◌, Option, none, some, List, [], ◌∷◌,
  ◌++◌, map, reverse, append-nil, append_assoc, reverse-append, reverse-reverse, arith, ℕ_discrete,
  str_eq, str_eq_iff,
}
use amit_ai.Common.Texts.{
  Text, codes, is_space, eqb, starts_with, lstrip, rstrip, strip, is_empty, eqb→eq, eqb_refl, split,
  join, contains, is_member,
}
use amit_ai.Context.{Sent, user, is_user}
use amit_ai.Tooling.Protocol.{sanitize_late_tool_protocol}
use amit_ai.Tooling.Records.{AttemptRecord}
use amit_ai.Generator.Types.{
  GenerationOutput, Failure, generation_failed, value_error, runtime_error, Ran, ran, raised, ◌>>=◌,
}
use amit_ai.Generator.Loop.{
  Tools, LoopState, Turn, done, again, left, stopped, unfinished, run_tool_loop,
  is_reserved_tool_candidate,
}
use amit_ai.Constraints.Types.{Constraint, Validation, Patterns}
use amit_ai.Constraints.Prompt.{parse_constraints}
use amit_ai.Constraints.Validation.{validate_response}
use amit_ai.Constraints.Retries.{max_mechanical_retries, Outcome, validate_with_bounded_retries}

-- the nonlocals of `generate` and `retry`, with the number of calls of the provider so far
pub record Usage : Type 0 where
  pub calls : ℕ
  pub input_tokens : ℕ
  pub output_tokens : ℕ

-- the validator's metadata: of a reply without the provider, or of a validated one
pub data Validator : Type 0 where
  bypassed : List Constraint → Validation → Validator
  validated : Outcome → Validator

-- `ChatGenerationResult`, without the model's name, the latency and the memory, which is empty
pub record Reply (A : Type 0) : Type 0 where
  pub response : Text
  pub usage : Usage
  pub validator : Validator
  pub tools : List (AttemptRecord A)

abbrev last_message : List Sent → Option Sent
last_message [] = none
last_message (m ∷ []) = some m
last_message (_ ∷ m ∷ ms) = last_message (m ∷ ms)

abbrev is_user_turn : Option Sent → Bool
is_user_turn none = false
is_user_turn (some m) = is_user m.role

abbrev content_of : Option Sent → Text
content_of none = []
content_of (some m) = m.content

-- what a retry makes of the provider's output
unfoldable pub take_repair : Usage → Ran GenerationOutput → Ran (Text × Usage)
unfolding is_reserved_tool_candidate
take_repair u (raised f) = raised f
take_repair u (ran o) =
    let response = strip o.text in
    if is_reserved_tool_candidate response
      || not (eqb (strip (sanitize_late_tool_protocol response)) response)
    then raised generation_failed
    else ran (
      response,
      record {
        calls = u.calls + 1;
        input_tokens = u.input_tokens + o.input_tokens;
        output_tokens = u.output_tokens + o.output_tokens;
      },
    )

module _ {A : Type 0} where
  -- what the buffered tool loop returns; it ends in none of the last three ways
  unfoldable pub loop_output : Turn A → Ran (Text × LoopState A)
  loop_output (done text s) = ran (text, s)
  loop_output (stopped f s) = raised f
  loop_output (left s) = raised (runtime_error "the buffered loop is not cancelled")
  loop_output (again s) = raised (runtime_error "the loop goes on")
  loop_output (unfinished s) = raised (runtime_error "the loop goes on")

  -- the prompt of a retry, with the results of the tools that succeeded
  unfoldable pub corrective_prompt :
      (List (AttemptRecord A) → Text) → List (AttemptRecord A) → Text → Text
  corrective_prompt dumps_results records prompt =
      let successful = keep (λ (r : AttemptRecord A). r.success) records in
      if is_nil successful
      then prompt
      else codes "Previously obtained tool results (reuse; do not recompute):"
        ++ 10 ∷ dumps_results successful
        ++ 10 ∷ 10 ∷ prompt

  -- `retry`
  unfoldable pub retry :
      (List (AttemptRecord A) → Text)
      → (ℕ → List Sent → Ran GenerationOutput)
      → List Sent
      → List (AttemptRecord A)
      → Text
      → Usage
      → Ran (Text × Usage)
  unfolding take_repair corrective_prompt
  retry dumps_results generate_once history records prompt u = take_repair u (
      generate_once u.calls (
        history
        ++ record { role = user; content = corrective_prompt dumps_results records prompt } ∷ []))

  -- the end of the method: a response that fails its constraints is an error, except for a fallback
  unfoldable pub accept : List (AttemptRecord A) → Outcome × Usage → Ran (Reply A)
  accept records (o, u) =
      if not o.final_validation.passed && not o.semantic_fallback_used
      then raised generation_failed
      else ran (record {
        response = o.final_response;
        usage = u;
        validator = validated o;
        tools = records;
      })

  abbrev usage_of : LoopState A → Usage
  usage_of s = record {
    calls = s.calls;
    input_tokens = s.input_tokens;
    output_tokens = s.output_tokens;
  }

  -- `_guard_result`, of a decision's response
  unfoldable pub guard_result : Patterns → Text → Text → Ran (Reply A)
  unfolding parse_constraints validate_response
  guard_result patterns shown response = parse_constraints patterns shown >>= λ constraints.
      ran (record {
        response = response;
        usage = record { calls = 0; input_tokens = 0; output_tokens = 0 };
        validator = bypassed constraints (validate_response response constraints);
        tools = [];
      })

  -- what follows the guard, at the user's own prompt
  unfoldable pub validated_reply :
      Patterns
      → Tools A
      → (List (AttemptRecord A) → Text)
      → (ℕ → List Sent → Ran GenerationOutput)
      → (history : List Sent) (shown prompt : Text) → Ran (Reply A)
  unfolding run_tool_loop loop_output validate_with_bounded_retries retry accept
  validated_reply patterns tools dumps_results generate_once history shown prompt =
      let compiled = history ++ record { role = user; content = shown } ∷ [] in
      loop_output (run_tool_loop tools generate_once compiled) >>= λ output.
      validate_with_bounded_retries patterns prompt output.0
        (retry dumps_results generate_once history output.1.tool_records) max_mechanical_retries
        (some shown) (usage_of output.1)
      >>= accept output.1.tool_records

  -- `_generate_validated_response`; `decision` is the response of the preflight, where it has one
  unfoldable pub generate_validated_response :
      Patterns
      → Tools A
      → (List (AttemptRecord A) → Text)
      → (ℕ → List Sent → Ran GenerationOutput)
      → (messages : List Sent) (history : List Sent) (shown : Text) (decision : Option Text)
      → Ran (Reply A)
  unfolding guard_result validated_reply
  generate_validated_response patterns tools dumps_results generate_once messages history shown
        decision =
      if not (is_user_turn (last_message messages))
      then raised (value_error "Runtime chat messages must end with the current user turn")
      else elim decision [
        | some response ↦ guard_result patterns shown response
        | none ↦
            validated_reply patterns tools dumps_results generate_once history shown
              (content_of (last_message messages))
      ]
