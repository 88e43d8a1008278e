-- ===== src/Tooling/Records.antt =====
-- runtime/tooling.py: attempts and calls as the JSON that the model reads. `json.dumps` is a
-- parameter.
use amit_ai.Common.{ℕ, String, Bool, Option, none, some, ◌++◌}
use amit_ai.Common.Texts.{Text, codes}
use amit_ai.Tooling.Protocol.{call_close, result_close}
use amit_ai.Tooling.Registry.{ToolAttempt, ToolCall, tool_call_open}

abbrev pub tool_result_open : Text
tool_result_open = codes "<tool_result>"

-- the dictionary of `as_record`: `arguments`, `result` and `error` are members where present
pub record AttemptRecord (A : Type 0) : Type 0 where
  pub attempt : ℕ
  pub name : Option Text
  pub success : Bool
  pub arguments : Option A
  pub result : Option Text
  pub error : Option (String × Option String)

unfoldable pub as_record : {A : Type 0} → ToolAttempt A → AttemptRecord A
as_record t = record {
  attempt = t.attempt;
  name = t.name;
  success = t.success;
  arguments = t.arguments;
  result = t.result;
  error = elim t.error_code [ none ↦ none | some code ↦ some (code, t.error_message) ];
}

unfoldable pub format_tool_call : {A : Type 0} → (ToolCall A → Text) → ToolCall A → Text
format_tool_call dumps call = tool_call_open ++ (dumps call ++ call_close)

unfoldable pub format_tool_result : {A : Type 0} → (AttemptRecord A → Text) → ToolAttempt A → Text
unfolding as_record
format_tool_result dumps attempt = tool_result_open ++ (dumps (as_record attempt) ++ result_close)
