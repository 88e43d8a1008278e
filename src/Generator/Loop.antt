-- ===== src/Generator/Loop.antt =====
-- runtime/generator.py: `_run_tool_loop` and `_stream_tool_loop`, a turn of each to a function.
pub mod Budget
pub mod Ends
use amit_ai.Common.{
  ltb, leb, ◌==◌, if◌then◌else◌, ==_iff, Bool-cases, Option-cases, is_some, is_nil, length, take,
  drop, any, keep, find, count, All, length-append, length-keep-le, count-append, All-append,
  All-weaken, ℕ, zero, suc, ◌+◌, ◌-◌, ◌*◌, ◌≤◌, ◌<◌, min, String, ◌≡◌, refl, sym, ap, ◌∙◌, fun_ext,
  ◌≢◌, ◌↔◌, ◌⊎◌, inl, inr, Bool, true, false, not, ◌&&◌, ◌||◌, Option, none, some, List, [], ◌∷◌,
  ◌++◌, map, reverse, append-nil, append_assoc, reverse-append, reverse-reverse, arith, ℕ_discrete,
  str_eq, str_eq_iff,
}
use amit_ai.Common.Texts.{
  Text, codes, is_space, eqb, starts_with, lstrip, rstrip, strip, is_empty, eqb→eq, eqb_refl, split,
  join, contains, is_member,
}
use amit_ai.Context.{Sent, assistant, system}
use amit_ai.Tooling.Protocol.{
  classify_tool_protocol_prefix, reserved, PrefixState, sanitize_late_tool_protocol,
}
use amit_ai.Tooling.Registry.{
  Payload, ToolCall, Parsed, parsed, malformed, parse_tool_call, RuntimeTool, ToolAttempt,
  failed_tool_attempt, execute,
}
use amit_ai.Tooling.Records.{AttemptRecord, as_record, format_tool_call, format_tool_result}
use amit_ai.Generator.Types.{
  GenerationOutput, Failure, generation_failed, type_error, Ran, ran, raised, End, yielded,
  returned, failed, ProviderStream, stream_once,
}
use amit_ai.Generator.Candidate.{Candidate, stream_candidate}

abbrev pub max_tool_iterations : ℕ
max_tool_iterations = 3

-- one turn for each tool call of the budget, and one that answers or exceeds it
abbrev pub turns : ℕ
turns = max_tool_iterations + 1

-- The registry of a generator, with JSON as it uses it.
pub record Tools (A : Type 0) : Type 0 where
  pub registry : List (RuntimeTool A)
  pub loads : Text → Option (Payload A)
  pub dumps_call : ToolCall A → Text
  pub dumps_record : AttemptRecord A → Text

-- The local variables of a loop, its budget, the number of calls of the provider so far, and the
-- deltas that it has yielded, of which the buffered loop has none.
pub record LoopState (A : Type 0) : Type 0 where
  pub attempted_turns : ℕ
  pub calls : ℕ
  pub working_messages : List Sent
  pub tool_records : List (AttemptRecord A)
  pub input_tokens : ℕ
  pub output_tokens : ℕ
  pub deltas : List Text

-- How a turn ends: with the loop's output, with another turn, with a return, or with an exception.
-- `unfinished` is a loop that has no turn left.
pub data Turn (A : Type 0) : Type 0 where
  done : Text → LoopState A → Turn A
  again : LoopState A → Turn A
  left : LoopState A → Turn A
  stopped : Failure → LoopState A → Turn A
  unfinished : LoopState A → Turn A

unfoldable pub is_reserved_tool_candidate : Text → Bool
is_reserved_tool_candidate text = elim (classify_tool_protocol_prefix text) [
  | reserved ↦ true
  | _ ↦ false
]

abbrev pub invalid_call : Text
invalid_call = codes "<tool_call>{\"arguments\":{},\"name\":\"invalid_tool_call\"}</tool_call>"

module _ {A : Type 0} where
  abbrev pub called : LoopState A → LoopState A
  called s = record s { calls = s.calls + 1 }

  abbrev pub add_tokens : GenerationOutput → LoopState A → LoopState A
  add_tokens o s = record s {
    input_tokens = s.input_tokens + o.input_tokens;
    output_tokens = s.output_tokens + o.output_tokens;
  }

  -- either loop, at `f` more turns
  unfoldable pub iterate : ℕ → (LoopState A → Turn A) → LoopState A → Turn A
  iterate zero turn s = unfinished s
  iterate (suc f) turn s = elim (turn s) [
    | again s' ↦ iterate f turn s'
    | done text s' ↦ done text s'
    | left s' ↦ left s'
    | stopped failure s' ↦ stopped failure s'
    | unfinished s' ↦ unfinished s'
  ]

  abbrev pub initial : List Sent → LoopState A
  initial messages = record {
    attempted_turns = 0;
    calls = 0;
    working_messages = messages;
    tool_records = [];
    input_tokens = 0;
    output_tokens = 0;
    deltas = [];
  }

module _ {A : Type 0} (tools : Tools A) where
  unfoldable pub safe_assistant_tool_message : Text → Text
  safe_assistant_tool_message text = elim (parse_tool_call tools.loads text) [
    | parsed call ↦ format_tool_call tools.dumps_call call
    | malformed _ ↦ invalid_call
  ]

  unfoldable pub execute_tool_candidate : Text → ℕ → ToolAttempt A
  execute_tool_candidate text attempt = elim (parse_tool_call tools.loads text) [
    | malformed failure ↦ failed_tool_attempt attempt failure none
    | parsed call ↦ execute tools.registry call attempt
  ]

  -- the two messages that a request is answered with
  abbrev pub exchange : Text → ToolAttempt A → List Sent
  exchange response attempt =
      record { role = assistant; content = safe_assistant_tool_message response }
      ∷ record { role = system; content = format_tool_result tools.dumps_record attempt }
      ∷ []

  -- the end of either loop's body, on a tool request: `budget.consume()`, and what follows it
  unfoldable pub use_tool : Text → LoopState A → Turn A
  unfolding safe_assistant_tool_message execute_tool_candidate
  use_tool response s =
      let number = s.attempted_turns + 1 in
      let consumed = record s { attempted_turns = number } in
      let attempt = execute_tool_candidate response number in
      if ltb max_tool_iterations number
      then stopped generation_failed consumed
      else again (record consumed {
        tool_records = s.tool_records ++ as_record attempt ∷ [];
        working_messages =
            s.working_messages
            ++ record { role = assistant; content = safe_assistant_tool_message response }
              ∷ record { role = system; content = format_tool_result tools.dumps_record attempt }
              ∷ [];
      })

  -- what the buffered loop does with a response
  unfoldable pub answer_turn : Text → LoopState A → Turn A
  unfolding use_tool is_reserved_tool_candidate
  answer_turn response s =
      if is_reserved_tool_candidate response
      then use_tool response s
      else let visible = strip (sanitize_late_tool_protocol response) in
        if is_empty visible then stopped generation_failed s else done visible s

  -- a turn of `_run_tool_loop`; `generate_once n` is the call after `n` others
  unfoldable pub run_turn : (ℕ → List Sent → Ran GenerationOutput) → LoopState A → Turn A
  unfolding answer_turn
  run_turn generate_once s = elim (generate_once s.calls s.working_messages) [
    | raised f ↦ stopped f (called s)
    | ran o ↦ answer_turn (strip o.text) (add_tokens o (called s))
  ]

  -- what the streaming loop does with the end of a candidate's stream
  unfoldable pub candidate_turn : Bool → End Candidate → LoopState A → Turn A
  unfolding use_tool
  candidate_turn is_set (failed f) s = stopped f s
  candidate_turn is_set returned s =
      if is_set
      then left s
      else stopped (type_error "Runtime stream ended without a candidate result") s
  candidate_turn is_set (yielded c) s =
      if is_set
      then left s
      else if c.is_reserved
      then use_tool c.output.text (add_tokens c.output s)
      else done c.output.text (add_tokens c.output s)

  -- A turn of `_stream_tool_loop`: `streams n` is the provider's stream after `n` others, and
  -- `is_set n` and `is_set_after n` tell of the cancel event before and after it.
  unfoldable pub stream_turn :
      (ℕ → List Sent → ProviderStream) → (is_set is_set_after : ℕ → Bool) → LoopState A → Turn A
  unfolding candidate_turn
  stream_turn streams is_set is_set_after s =
      if is_set s.calls
      then left s
      else let (chunks, end) = stream_once (streams s.calls s.working_messages) in
        let (deltas, last) = stream_candidate chunks end in
        candidate_turn (is_set_after s.calls) last
          (record (called s) { deltas = s.deltas ++ deltas })

  unfoldable pub run_tool_loop : (ℕ → List Sent → Ran GenerationOutput) → List Sent → Turn A
  unfolding run_turn iterate
  run_tool_loop generate_once messages = iterate turns (run_turn generate_once) (initial messages)

  unfoldable pub stream_tool_loop :
      (ℕ → List Sent → ProviderStream) → (is_set is_set_after : ℕ → Bool) → List Sent → Turn A
  unfolding stream_turn iterate
  stream_tool_loop streams is_set is_set_after messages =
      iterate turns (stream_turn streams is_set is_set_after) (initial messages)
