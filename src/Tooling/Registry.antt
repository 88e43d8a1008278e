-- ===== src/Tooling/Registry.antt =====
-- runtime/tooling.py: the envelope of a tool call, and the registry that runs it. `A` is the type of
-- argument objects; `json.loads` and the registered tools are parameters.
use amit_ai.Common.{
  ltb, leb, ◌==◌, if◌then◌else◌, is_some, length, take, drop, any, ℕ, ◌-◌, String, Bool, true,
  false, not, ◌&&◌, ◌||◌, Option, none, some, List, [], ◌∷◌, ◌++◌, reverse,
}
use amit_ai.Common.Texts.{Text, codes, eqb, starts_with, strip, is_empty}
use amit_ai.Tooling.Protocol.{call_close}

abbrev pub max_tool_call_chars : ℕ
max_tool_call_chars = 4096

abbrev pub tool_call_open : Text
tool_call_open = codes "<tool_call>"

-- `ToolFailure`
pub record ToolFailure : Type 0 where
  pub code : String
  pub message : String

-- `[a-z][a-z0-9_]{0,63}\Z`
abbrev is_lower : ℕ → Bool
is_lower c = leb b'a' c && leb c b'z'

abbrev is_name_character : ℕ → Bool
is_name_character c = is_lower c || leb b'0' c && leb c b'9' || c == b'_'

unfoldable pub is_tool_name : Text → Bool
is_tool_name [] = false
is_tool_name (c ∷ name) =
    is_lower c && leb (length name) 63 && not (any (λ d. not (is_name_character d)) name)

-- `text.endswith(end)`
abbrev pub ends_with : Text → Text → Bool
ends_with text end = starts_with (reverse text) (reverse end)

-- What `json.loads` returns: an object by its members, or another value.
pub data Member (A : Type 0) : Type 0 where
  string : Text → Member A
  object : A → Member A
  other : Member A

pub data Payload (A : Type 0) : Type 0 where
  members : List (Text × Member A) → Payload A
  no_object : Payload A

-- `ToolCall`
pub record ToolCall (A : Type 0) : Type 0 where
  pub name : Text
  pub arguments : A

pub data Parsed (A : Type 0) : Type 0 where
  parsed : ToolCall A → Parsed A
  malformed : ToolFailure → Parsed A

abbrev pub malformed_call : {A : Type 0} → String → Parsed A
malformed_call message = malformed (record { code = "malformed_tool_call"; message = message })

-- `payload["name"]`, where the key is present
abbrev pub member : {A : Type 0} → Text → List (Text × Member A) → Option (Member A)
member key [] = none
member key ((k, v) ∷ rest) = if eqb k key then some v else member key rest

-- the checks on the two members
unfoldable pub call_of : {A : Type 0} → Member A → Member A → Parsed A
unfolding is_tool_name
call_of (string name) arguments =
    if is_tool_name name
    then (elim arguments [
      | object a ↦ parsed (record { name = name; arguments = a })
      | _ ↦ malformed_call "Tool arguments must be an object"
    ])
    else malformed_call "Tool name is invalid"
call_of _ arguments = malformed_call "Tool name is invalid"

-- `set(payload) != {"name", "arguments"}`, and the checks after it
unfoldable pub call_of_payload : {A : Type 0} → Option (Payload A) → Parsed A
unfolding call_of
call_of_payload none = malformed_call "Tool call payload is not valid JSON"
call_of_payload (some no_object) =
    malformed_call "Tool call must contain exactly name and arguments"
call_of_payload (some (members ms)) =
    let wrong = malformed_call "Tool call must contain exactly name and arguments" in
    if length ms == 2
    then (elim (member (codes "name") ms) [
      | none ↦ wrong
      | some name ↦ elim (member (codes "arguments") ms) [
        | none ↦ wrong
        | some arguments ↦ call_of name arguments
      ]
    ])
    else wrong

-- `stripped[len(TOOL_CALL_OPEN) : -len(TOOL_CALL_CLOSE)]`
abbrev pub payload_text : Text → Text
payload_text stripped =
    drop (length tool_call_open) (take (length stripped - length call_close) stripped)

unfoldable pub parse_tool_call : {A : Type 0} → (Text → Option (Payload A)) → Text → Parsed A
unfolding call_of_payload
parse_tool_call loads text =
    let stripped = strip text in
    if ltb max_tool_call_chars (length stripped)
    then malformed_call "Tool call payload is too large"
    else if not (starts_with stripped tool_call_open) || not (ends_with stripped call_close)
    then malformed_call "Tool call envelope is malformed"
    else if is_empty (strip (payload_text stripped))
    then malformed_call "Tool call payload is empty"
    else call_of_payload (loads (payload_text stripped))

-- `ToolAttempt`
pub record ToolAttempt (A : Type 0) : Type 0 where
  pub attempt : ℕ
  pub name : Option Text
  pub arguments : Option A
  pub success : Bool
  pub result : Option Text
  pub error_code : Option String
  pub error_message : Option String

unfoldable pub failed_tool_attempt : {A : Type 0} → ℕ → ToolFailure → Option Text → ToolAttempt A
failed_tool_attempt attempt failure name = record {
  attempt = attempt;
  name = name;
  arguments = none;
  success = false;
  result = none;
  error_code = some failure.code;
  error_message = some failure.message;
}

-- A tool's method returned, raised a ToolFailure, or raised another exception.
pub data Run (B : Type 0) : Type 0 where
  returned : B → Run B
  failed : ToolFailure → Run B
  crashed : Run B

-- `RuntimeTool`; what `execute` returns may be no string
pub record RuntimeTool (A : Type 0) : Type 0 where
  pub name : Text
  pub validate_arguments : A → Run A
  pub execute : A → Run (Option Text)

-- `ToolRegistry.__init__`: the tools in order, or the ValueError of the first that is refused
pub data Registered (A : Type 0) : Type 0 where
  registry : List (RuntimeTool A) → Registered A
  invalid_name duplicate_name : Text → Registered A

module _ {A : Type 0} where
  -- `self._tools.get(name)`
  abbrev pub get_tool : Text → List (RuntimeTool A) → Option (RuntimeTool A)
  get_tool name [] = none
  get_tool name (t ∷ tools) = if eqb t.name name then some t else get_tool name tools

  -- the loop of `__init__`, at the tools that are registered
  unfoldable pub register : List (RuntimeTool A) → List (RuntimeTool A) → Registered A
  unfolding is_tool_name
  register done [] = registry done
  register done (t ∷ tools) =
      let rest = register (done ++ t ∷ []) tools in
      if not (is_tool_name t.name)
      then invalid_name t.name
      else if is_some (get_tool t.name done)
      then duplicate_name t.name
      else rest

  abbrev pub attempt_with :
      ℕ → Text → A → Bool → Option Text → Option String → Option String → ToolAttempt A
  attempt_with attempt name arguments success result code message = record {
    attempt = attempt;
    name = some name;
    arguments = some arguments;
    success = success;
    result = result;
    error_code = code;
    error_message = message;
  }

  abbrev pub execution_failed : ℕ → Text → A → ToolAttempt A
  execution_failed attempt name arguments =
      attempt_with attempt name arguments false none (some "tool_execution_failed")
        (some "Tool execution failed")

  -- what becomes of `tool.execute(arguments)`
  unfoldable pub record_result : ℕ → Text → A → Run (Option Text) → ToolAttempt A
  record_result attempt name arguments (failed f) =
      attempt_with attempt name arguments false none (some f.code) (some f.message)
  record_result attempt name arguments crashed = execution_failed attempt name arguments
  record_result attempt name arguments (returned none) = execution_failed attempt name arguments
  record_result attempt name arguments (returned (some text)) =
      if is_empty text
      then execution_failed attempt name arguments
      else attempt_with attempt name arguments true (some text) none none

  unfoldable pub execute : List (RuntimeTool A) → ToolCall A → ℕ → ToolAttempt A
  unfolding failed_tool_attempt record_result
  execute tools call attempt = elim (get_tool call.name tools) [
    | none ↦
        failed_tool_attempt attempt
          (record { code = "unknown_tool"; message = "Requested tool is not available" })
          (some call.name)
    | some tool ↦ elim (tool.validate_arguments call.arguments) [
      | failed f ↦ failed_tool_attempt attempt f (some call.name)
      | crashed ↦
          failed_tool_attempt attempt
            (record { code = "invalid_arguments"; message = "Tool arguments are invalid" })
            (some call.name)
      | returned arguments ↦ record_result attempt call.name arguments (tool.execute arguments)
    ]
  ]
