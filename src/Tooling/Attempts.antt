-- ===== src/Tooling/Attempts.antt =====
-- What a tool call that is parsed, and an attempt that is recorded, come from.
use amit_ai.Common.{
  ℕ, String, ◌≡◌, refl, ◌⊎◌, inl, inr, true, false, Option, none, some, List, [], ◌∷◌,
}
use amit_ai.Common.Texts.{Text, is_empty}
use amit_ai.Tooling.Registry.{
  ToolFailure, ToolCall, ToolAttempt, failed_tool_attempt, Run, returned, failed, crashed,
  RuntimeTool, get_tool, record_result, execute,
}

module _ {A : Type 0} where
  -- the attempt is a run of a registered tool, on arguments that it validated, with a result
  abbrev pub IsSuccess : List (RuntimeTool A) → ToolCall A → ToolAttempt A → Type 0
  IsSuccess tools call r =
      (tool : RuntimeTool A) × (arguments : A) × (text : Text) × (get_tool call.name tools
        ≡ some tool)
      × (tool.validate_arguments call.arguments ≡ returned arguments)
      × (tool.execute arguments ≡ returned (some text))
      × (is_empty text ≡ false)
      × (r.success ≡ true)
      × (r.result ≡ some text)
      × (r.error_code ≡ none)

  -- the attempt has an error and no result
  abbrev pub IsFailure : ToolAttempt A → Type 0
  IsFailure r =
      (code : String) × (message : String) × (r.success ≡ false)
      × (r.result ≡ none)
      × (r.error_code ≡ some code)
      × (r.error_message ≡ some message)

  -- the attempt has its number and the name that was called, and is a success or a failure
  abbrev pub IsRecorded : List (RuntimeTool A) → ToolCall A → ℕ → ToolAttempt A → Type 0
  IsRecorded tools call attempt r =
      (r.attempt ≡ attempt) × (r.name ≡ some call.name) × (IsSuccess tools call r ⊎ IsFailure r)

  record_result-IsRecorded :
      (tools : List (RuntimeTool A)) (call : ToolCall A) (attempt : ℕ) (tool : RuntimeTool A)
      (arguments : A) (run : Run (Option Text))
      → get_tool call.name tools ≡ some tool
      → tool.validate_arguments call.arguments ≡ returned arguments
      → tool.execute arguments ≡ run
      → IsRecorded tools call attempt (record_result attempt call.name arguments run)
  unfolding record_result
  record_result-IsRecorded tools call attempt tool arguments (failed f) found valid ran =
      (refl, refl, inr (f.code, f.message, refl, refl, refl, refl))
  record_result-IsRecorded tools call attempt tool arguments crashed found valid ran =
      (refl, refl, inr (_, _, refl, refl, refl, refl))
  record_result-IsRecorded tools call attempt tool arguments (returned none) found valid ran =
      (refl, refl, inr (_, _, refl, refl, refl, refl))
  record_result-IsRecorded tools call attempt tool arguments (returned (some [])) found valid ran =
      (refl, refl, inr (_, _, refl, refl, refl, refl))
  record_result-IsRecorded tools call attempt tool arguments (returned (some (c ∷ text))) found
        valid ran =
      (refl, refl, inl (tool, arguments, c ∷ text, found, valid, ran, refl, refl, refl, refl))

  failed_tool_attempt-IsRecorded :
      (tools : List (RuntimeTool A)) (call : ToolCall A) (attempt : ℕ) (f : ToolFailure)
      → IsRecorded tools call attempt (failed_tool_attempt attempt f (some call.name))
  unfolding failed_tool_attempt
  failed_tool_attempt-IsRecorded tools call attempt f =
      (refl, refl, inr (f.code, f.message, refl, refl, refl, refl))

  validated-IsRecorded :
      (tools : List (RuntimeTool A)) (call : ToolCall A) (attempt : ℕ) (tool : RuntimeTool A)
      (run : Run A)
      → get_tool call.name tools ≡ some tool
      → tool.validate_arguments call.arguments ≡ run
      → IsRecorded tools call attempt (elim run [
        | failed f ↦ failed_tool_attempt attempt f (some call.name)
        | crashed ↦
            failed_tool_attempt attempt
              (record { code = "invalid_arguments"; message = "Tool arguments are invalid" })
              (some call.name)
        | returned arguments ↦ record_result attempt call.name arguments (tool.execute arguments)
      ])
  validated-IsRecorded tools call attempt tool (failed f) found valid =
      failed_tool_attempt-IsRecorded tools call attempt f
  validated-IsRecorded tools call attempt tool crashed found valid =
      failed_tool_attempt-IsRecorded tools call attempt _
  validated-IsRecorded tools call attempt tool (returned arguments) found valid =
      record_result-IsRecorded tools call attempt tool arguments (tool.execute arguments) found
        valid refl

  -- An attempt is recorded under its number and the name that was called. Either it is a run of the
  -- registered tool on arguments that the tool validated, with a result that is not empty and no
  -- error, or it has an error and no result.
  pub execute-IsRecorded :
      (tools : List (RuntimeTool A)) (call : ToolCall A) (attempt : ℕ)
      → IsRecorded tools call attempt (execute tools call attempt)
  unfolding execute
  execute-IsRecorded tools call attempt = go (get_tool call.name tools) refl
    where
      go :
          (found : Option (RuntimeTool A))
          → get_tool call.name tools ≡ found
          → IsRecorded tools call attempt (elim found [
            | none ↦
                failed_tool_attempt attempt
                  (record { code = "unknown_tool"; message = "Requested tool is not available" })
                  (some call.name)
            | some tool ↦ elim (tool.validate_arguments call.arguments) [
              | failed f ↦ failed_tool_attempt attempt f (some call.name)
              | crashed ↦
                  failed_tool_attempt attempt
                    (record { code = "invalid_arguments"; message = "Tool arguments are invalid" })
                    (some call.name)
              | returned arguments ↦
                  record_result attempt call.name arguments (tool.execute arguments)
            ]
          ])
      go none found = failed_tool_attempt-IsRecorded tools call attempt _
      go (some tool) found =
          validated-IsRecorded tools call attempt tool (tool.validate_arguments call.arguments)
            found refl
