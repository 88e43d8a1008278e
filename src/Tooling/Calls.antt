-- ===== src/Tooling/Calls.antt =====
-- What a tool call that is parsed comes from.
use mathlib.Core.Path.{subst}
use amit_ai.Common.{
  ltb, ◌==◌, Bool-cases, Option-cases, length, ◌≤◌, ◌≡◌, ap, inl, inr, true, Option, none, some, [],
  arith,
}
use amit_ai.Common.Texts.{Text, codes, starts_with, strip, is_empty}
use amit_ai.Tooling.Protocol.{call_close}
use amit_ai.Tooling.Registry.{
  max_tool_call_chars, tool_call_open, is_tool_name, ends_with, Member, string, object, other,
  Payload, members, no_object, ToolCall, Parsed, parsed, malformed, member, call_of,
  call_of_payload, payload_text, parse_tool_call,
}

module _ {A : Type 0} where
  abbrev name_of : Parsed A → Text
  name_of (parsed call) = call.name
  name_of (malformed f) = []

  parsed-name :
      (name : Text) (a : A) (call : ToolCall A)
      → parsed (record { name = name; arguments = a }) ≡ parsed call
      → name ≡ call.name
  parsed-name name a call e = ap name_of e

  call_of-name :
      (name arguments : Member A) (call : ToolCall A)
      → call_of name arguments ≡ parsed call
      → is_tool_name call.name ≡ true
  unfolding call_of
  call_of-name (object _) arguments call e = ground arith
  call_of-name other arguments call e = ground arith
  call_of-name (string name) (string t) call e = elim (Bool-cases (is_tool_name name)) [
    | inr wrong ↦ ground arith
    | inl valid ↦ ground arith
  ]
  call_of-name (string name) other call e = elim (Bool-cases (is_tool_name name)) [
    | inr wrong ↦ ground arith
    | inl valid ↦ ground arith
  ]
  call_of-name (string name) (object a) call e = elim (Bool-cases (is_tool_name name)) [
    | inr wrong ↦ ground arith
    | inl valid ↦ subst (λ n. is_tool_name n ≡ true) (parsed-name name a call (ground arith)) valid
  ]

  call_of_payload-name :
      (payload : Option (Payload A)) (call : ToolCall A)
      → call_of_payload payload ≡ parsed call
      → is_tool_name call.name ≡ true
  unfolding call_of_payload
  call_of_payload-name none call e = ground arith
  call_of_payload-name (some no_object) call e = ground arith
  call_of_payload-name (some (members ms)) call e = elim (Bool-cases (length ms == 2)) [
    | inr other_keys ↦ ground arith
    | inl two ↦ elim (Option-cases (member (codes "name") ms)) [
      | inl no_name ↦ ground arith
      | inr (name, has_name) ↦ elim (Option-cases (member (codes "arguments") ms)) [
        | inl no_arguments ↦ ground arith
        | inr (arguments, has_arguments) ↦ call_of-name name arguments call (ground arith)
      ]
    ]
  ]

  -- A text that is parsed as a call is, without the white space around it, an envelope of at most
  -- 4,096 characters, and the call has a valid tool name.
  pub parse_tool_call-name :
      (loads : Text → Option (Payload A)) (text : Text) (call : ToolCall A)
      → parse_tool_call loads text ≡ parsed call
      → (length (strip text) ≤ max_tool_call_chars)
        × (starts_with (strip text) tool_call_open ≡ true)
        × (ends_with (strip text) call_close ≡ true)
        × (is_tool_name call.name ≡ true)
  unfolding parse_tool_call
  parse_tool_call-name loads text call e =
      elim (Bool-cases (ltb max_tool_call_chars (length (strip text)))) [
        | inl large ↦ ground arith
        | inr fits ↦ elim (Bool-cases (starts_with (strip text) tool_call_open)) [
          | inr no_start ↦ ground arith
          | inl starts ↦ elim (Bool-cases (ends_with (strip text) call_close)) [
            | inr no_end ↦ ground arith
            | inl ends ↦ elim (Bool-cases (is_empty (strip (payload_text (strip text))))) [
              | inl empty ↦ ground arith
              | inr full ↦ (
                ground arith,
                starts,
                ends,
                call_of_payload-name (loads (payload_text (strip text))) call (ground arith),
              )
            ]
          ]
        ]
      ]
