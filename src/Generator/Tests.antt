-- ===== src/Generator/Tests.antt =====
-- Runs of the generator with small providers, and its theorems there.
use Prim.Native.Nat.{zero, suc}
use amit_ai.Common.{suc, if◌then◌else◌, ℕ, ◌≡◌, refl, false, none, some, List, [], ◌∷◌}
use amit_ai.Common.Texts.{Text, codes, is_space, eqb, lstrip, rstrip, strip}
use amit_ai.Context.{Sent, user}
use amit_ai.Tooling.Protocol.{
  reserved_close, longest_prefix_suffix, suffix_from, settle, feed_normal_character,
  feed_suppressed_character, feed_character, feed, finish, sanitize_late_tool_protocol,
  classify_tool_protocol_prefix,
}
use amit_ai.Tooling.Registry.{string, object, members, RuntimeTool, returned as tool_returned}
use amit_ai.Constraints.Tests.{two_words, cat}
use amit_ai.Generator.Types.{
  GenerationOutput, Ran, ran, output, Item, chunk, final, yielded, validate_output, ProviderStream,
  stream_once,
}
use amit_ai.Generator.Candidate.{
  stream_candidate, split_trailing, normalize, take_chunks, take_chunk, release, leave_prefix,
  conclude, conclude_settled, settle_mode, flush,
}
use amit_ai.Generator.Candidate.Batch.{joined, batch_candidate, shown_text}
use amit_ai.Generator.Candidate.Provider.{stream_once-candidate}
use amit_ai.Generator.Loop.{LoopState, Tools, run_tool_loop, stream_tool_loop}
use amit_ai.Generator.Loop.Ends.{Ends, run_tool_loop-Ends, stream_tool_loop-Ends}

abbrev answer : Text → GenerationOutput
answer t = record { text = t; input_tokens = 5; output_tokens = 7 }

abbrev provided : Text → Item
provided t = final (output t (some 5) (some 7))

abbrev cut : ProviderStream
cut = record {
  items =
      chunk (codes " ok")
      ∷ chunk []
      ∷ chunk (codes "<tool")
      ∷ chunk (codes "_x ")
      ∷ provided (codes " ok<tool_x ")
      ∷ [];
  last = ran tt;
  is_set = false;
}

cut_once : (stream_once cut).1 ≡ yielded (answer (codes " ok<tool_x "))
unfolding stream_once validate_output strip lstrip rstrip is_space
cut_once = refl

stream_once-candidate_example :
    let (deltas, end) = stream_candidate (stream_once cut).0 (stream_once cut).1 in
    (end ≡ batch_candidate (answer (codes " ok<tool_x ")))
    × (joined deltas ≡ shown_text (answer (codes " ok<tool_x ")))
stream_once-candidate_example = stream_once-candidate cut (answer (codes " ok<tool_x ")) cut_once

abbrev ping : RuntimeTool Text
ping = record {
  name = codes "ping";
  validate_arguments = λ t. tool_returned t;
  execute = λ t. tool_returned (some (codes "pong"));
}

abbrev tools : Tools Text
tools = record {
  registry = ping ∷ [];
  loads = λ t.
      if eqb t (codes "{}")
      then some
          (members ((codes "name", string (codes "ping")) ∷ (codes "arguments", object []) ∷ []))
      else none;
  dumps_call = λ c. codes "{}";
  dumps_record = λ r. codes "{}";
}

-- a provider that asks for a tool, whatever it is told
abbrev insists : ℕ → List Sent → Ran GenerationOutput
insists n ms = ran (answer (codes "<tool_call>{}</tool_call>"))

abbrev question : List Sent
question = record { role = user; content = codes "?" } ∷ []

run_tool_loop-Ends_example : Ends question (run_tool_loop tools insists question)
run_tool_loop-Ends_example = run_tool_loop-Ends tools insists question

stream_tool_loop-Ends_example :
    Ends question (stream_tool_loop tools (λ n ms. cut) (λ n. false) (λ n. false) question)
stream_tool_loop-Ends_example =
    stream_tool_loop-Ends tools (λ n ms. cut) (λ n. false) (λ n. false) question

-- The white space that follows a partial start decides: the streaming loop shows it, where the
-- buffered loop has stripped the white space before it sanitizes.
trailing_start_streamed :
    (stream_candidate (codes "ok <tool_ " ∷ []) (yielded (answer (codes "ok <tool_ ")))).0
    ≡ codes "ok <tool_" ∷ []
unfolding stream_candidate take_chunks take_chunk leave_prefix release normalize split_trailing
    conclude_settled settle_mode conclude flush classify_tool_protocol_prefix finish feed
    feed_character feed_normal_character feed_suppressed_character settle reserved_close
    longest_prefix_suffix suffix_from lstrip is_space
trailing_start_streamed = refl

trailing_start_buffered :
    strip (sanitize_late_tool_protocol (strip (codes "ok <tool_ "))) ≡ codes "ok"
unfolding sanitize_late_tool_protocol finish feed feed_character feed_normal_character
    feed_suppressed_character settle reserved_close longest_prefix_suffix suffix_from strip lstrip
    rstrip is_space
trailing_start_buffered = refl

-- a provider whose first answer has a word too many, and whose repair changes another one
abbrev animals : ℕ → List Sent → Ran GenerationOutput
animals zero ms = ran (answer cat)
animals (suc n) ms = ran (answer (codes "dog sat"))

abbrev ask_two_words : List Sent
ask_two_words = record { role = user; content = two_words } ∷ []

abbrev after_cat : LoopState Text
after_cat = record {
  attempted_turns = 0;
  calls = 1;
  working_messages = ask_two_words;
  tool_records = [];
  input_tokens = 5;
  output_tokens = 7;
  deltas = [];
}
