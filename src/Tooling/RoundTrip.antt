-- ===== src/Tooling/RoundTrip.antt =====
-- runtime/tooling.py: `parse_tool_call` reads what `format_tool_call` writes.
use amit_ai.Common.{
  ltb, length, take, drop, length-append, ◌-◌, ◌≤◌, ◌≡◌, refl, sym, ap, ◌∙◌, true, false, Option,
  some, [], ◌∷◌, ◌++◌, reverse, append_assoc, reverse-append, arith,
}
use amit_ai.Common.Texts.{Text, codes, is_space, starts_with, lstrip, strip, is_empty}
use amit_ai.Tooling.Protocol.{call_close}
use amit_ai.Tooling.Registry.{
  max_tool_call_chars, tool_call_open, is_tool_name, ends_with, string, object, Payload, members,
  ToolCall, parsed, call_of, call_of_payload, payload_text, parse_tool_call,
}
use amit_ai.Tooling.Records.{format_tool_call}
use amit_ai.Generator.Candidate.{split_trailing}
use amit_ai.Generator.Candidate.Whitespace.{rstrip-split_trailing, split_trailing-append}

-- What the module relies on of `json.dumps` with sorted keys and `json.loads`, at a call: its text is
-- not blank, and is read as its two members.
pub record IsJson {A : Type 0} (loads : Text → Option (Payload A)) (dumps : ToolCall A → Text)
    (call : ToolCall A) : Type 0 where
  pub not_blank : is_empty (strip (dumps call)) ≡ false
  pub reads :
      loads (dumps call)
      ≡ some (
          members
            ((codes "arguments", object call.arguments) ∷ (codes "name", string call.name) ∷ []))

take-append : (x y : Text) → take (length x) (x ++ y) ≡ x
take-append [] y = refl
take-append (c ∷ x) y = ap (◌∷◌ c) (take-append x y)

-- An envelope of a payload has no white space at its ends.
strip-envelope :
    (payload : Text)
    → strip (tool_call_open ++ (payload ++ call_close)) ≡ tool_call_open ++ (payload ++ call_close)
unfolding strip lstrip is_space split_trailing
strip-envelope payload =
    rstrip-split_trailing (tool_call_open ++ (payload ++ call_close))
    ∙ ap (λ (s : Text × Text). s.0)
        (ap split_trailing (sym (append_assoc tool_call_open payload call_close))
          ∙ split_trailing-append (tool_call_open ++ payload) call_close refl)
    ∙ append_assoc tool_call_open payload call_close

ends_with-append : (x : Text) → ends_with (x ++ call_close) call_close ≡ true
ends_with-append x = ap (λ t. starts_with t (reverse call_close)) (reverse-append x call_close)

payload_text-envelope :
    (payload : Text) → payload_text (tool_call_open ++ (payload ++ call_close)) ≡ payload
payload_text-envelope payload =
    ap (λ n. drop (length tool_call_open) (take n (tool_call_open ++ (payload ++ call_close)))) size
    ∙ ap (λ t. drop (length tool_call_open) (take (length (tool_call_open ++ payload)) t))
        (sym (append_assoc tool_call_open payload call_close))
    ∙ ap (drop (length tool_call_open)) (take-append (tool_call_open ++ payload) call_close)
  where
    size :
        length (tool_call_open ++ (payload ++ call_close)) - length call_close
        ≡ length (tool_call_open ++ payload)
    size = omega (arith, length-append payload call_close)

module _ {A : Type 0} (loads : Text → Option (Payload A)) (dumps : ToolCall A → Text) where
  call_of_payload-reads :
      (call : ToolCall A)
      → is_tool_name call.name ≡ true
      → call_of_payload (
          some (
            members
              ((codes "arguments", object call.arguments) ∷ (codes "name", string call.name) ∷ [])))
        ≡ parsed call
  unfolding call_of_payload call_of
  call_of_payload-reads call valid = rw valid refl

  -- A call with a valid name, whose envelope is not too large, is read back as it was written.
  pub parse_tool_call-format :
      (call : ToolCall A)
      → IsJson loads dumps call
      → is_tool_name call.name ≡ true
      → length (format_tool_call dumps call) ≤ max_tool_call_chars
      → parse_tool_call loads (format_tool_call dumps call) ≡ parsed call
  unfolding parse_tool_call format_tool_call
  parse_tool_call-format call json valid fits =
      let within : ltb max_tool_call_chars (length (tool_call_open ++ (dumps call ++ call_close)))
          ≡ false =
        ground (arith, fits) in
      rw
        (
          strip-envelope (dumps call),
          within,
          sym (append_assoc tool_call_open (dumps call) call_close),
          ends_with-append (tool_call_open ++ dumps call),
        )
        (rw (payload_text-envelope (dumps call), json.not_blank, json.reads)
          (call_of_payload-reads call valid))
