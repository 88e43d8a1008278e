-- ===== src/Tooling/Tests.antt =====
-- Runs of the tool protocol, and its theorems at small inputs.
use amit_ai.Common.{
  arith, if◌then◌else◌, length, ◌≤◌, ◌≡◌, refl, true, Option, none, some, [], ◌∷◌, ◌++◌,
}
use amit_ai.Common.Texts.{Text, codes, is_space, eqb, starts_with, lstrip, rstrip, strip, is_empty}
use amit_ai.Tooling.Protocol.{
  new_filter, reserved_close, longest_prefix_suffix, suffix_from, settle, settle_enough, Rests,
  result_of, feed_normal_character, feed_suppressed_character, feed_character, feed, finish,
  sanitize_late_tool_protocol, classify_tool_protocol_prefix, ambiguous, call_close,
}
use amit_ai.Tooling.Envelopes.{call, start_of, close_of, sanitize-envelope, sanitize-open_envelope}
use amit_ai.Tooling.Registry.{
  max_tool_call_chars, tool_call_open, is_tool_name, ends_with, string, object, members, Payload,
  ToolCall, parsed, parse_tool_call, RuntimeTool, returned, failed, execute,
}
use amit_ai.Tooling.Attempts.{IsRecorded, execute-IsRecorded}
use amit_ai.Tooling.Records.{format_tool_call}
use amit_ai.Tooling.RoundTrip.{IsJson, parse_tool_call-format}
use amit_ai.Tooling.Calls.{parse_tool_call-name}

-- Taking an envelope out may put a reserved start together.
nested_envelope :
    sanitize_late_tool_protocol (codes "<tool<tool_call>x</tool_call>_call>") ≡ codes "<tool_call>"
unfolding sanitize_late_tool_protocol finish feed feed_character feed_normal_character
    feed_suppressed_character settle result_of reserved_close longest_prefix_suffix suffix_from
nested_envelope = refl

partial_start : classify_tool_protocol_prefix (codes " <tool_") ≡ ambiguous
unfolding classify_tool_protocol_prefix lstrip is_space
partial_start = refl

sanitize-envelope_example :
    sanitize_late_tool_protocol
      (codes "ok" ++ (start_of call ++ (codes ">{}" ++ (close_of call ++ codes "."))))
    ≡ codes "ok" ++ codes "."
sanitize-envelope_example =
    sanitize-envelope call (codes "ok") (codes ">{}") (codes ".") (refl, (refl, tt))
      (refl, (refl, (refl, tt))) (refl, tt)

sanitize-open_envelope_example :
    sanitize_late_tool_protocol (codes "ok" ++ (start_of call ++ codes ">{}")) ≡ codes "ok"
sanitize-open_envelope_example =
    sanitize-open_envelope call (codes "ok") (codes ">{}") (refl, (refl, tt))
      (refl, (refl, (refl, tt)))

settle_enough_example : Rests (settle 7 (record new_filter { pending = codes "<tool<" }))
settle_enough_example = settle_enough 5 (record new_filter { pending = codes "<tool<" })

-- a tool on texts, which wants one
abbrev echo : RuntimeTool Text
echo = record {
  name = codes "echo";
  validate_arguments = λ t.
      if is_empty t
      then failed (record { code = "invalid_arguments"; message = "Nothing to say" })
      else returned t;
  execute = λ t. returned (some t);
}

abbrev say : ToolCall Text
say = record { name = codes "echo"; arguments = codes "hi" }

execute-IsRecorded_example : IsRecorded (echo ∷ []) say 1 (execute (echo ∷ []) say 1)
execute-IsRecorded_example = execute-IsRecorded (echo ∷ []) say 1

-- a reader that knows one payload
abbrev loads : Text → Option (Payload Text)
loads t =
    if eqb t (codes "{}")
    then some (
        members
          ((codes "name", string (codes "echo")) ∷ (codes "arguments", object (codes "hi")) ∷ []))
    else none

abbrev request : Text
request = codes " <tool_call>{}</tool_call>"

parse_tool_call-name_example :
    (length (strip request) ≤ max_tool_call_chars)
    × (starts_with (strip request) tool_call_open ≡ true)
    × (ends_with (strip request) call_close ≡ true)
    × (is_tool_name say.name ≡ true)
unfolding parse_tool_call strip lstrip rstrip is_space is_tool_name
parse_tool_call-name_example = parse_tool_call-name loads request say refl

abbrev greeting : ToolCall Text
greeting = record { name = codes "echo"; arguments = codes "hi" }

abbrev dumps_greeting : ToolCall Text → Text
dumps_greeting _ = codes "{\"arguments\":{},\"name\":\"echo\"}"

abbrev loads_greeting : Text → Option (Payload Text)
loads_greeting text = some (
    members ((codes "arguments", object (codes "hi")) ∷ (codes "name", string (codes "echo")) ∷ []))

greeting-IsJson : IsJson loads_greeting dumps_greeting greeting
unfolding strip lstrip rstrip is_space
greeting-IsJson = record { not_blank = refl; reads = refl }

parse_tool_call-format_example :
    parse_tool_call loads_greeting (format_tool_call dumps_greeting greeting) ≡ parsed greeting
unfolding is_tool_name format_tool_call
parse_tool_call-format_example =
    parse_tool_call-format loads_greeting dumps_greeting greeting greeting-IsJson refl (omega arith)
