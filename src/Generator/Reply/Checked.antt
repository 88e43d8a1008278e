-- ===== src/Generator/Reply/Checked.antt =====
-- What a reply of the generator has passed, and what it cost.
use amit_ai.Common.{length, ◌+◌, ◌≤◌, ◌≡◌, ◌⊎◌, true, List}
use amit_ai.Common.Texts.{Text}
use amit_ai.Generator.Types.{ran}
use amit_ai.Generator.Loop.{turns, max_tool_iterations}
use amit_ai.Generator.Loop.Ends.{Ends}
use amit_ai.Constraints.Types.{Constraint, Validation, Patterns}
use amit_ai.Constraints.Prompt.{parse_constraints}
use amit_ai.Constraints.Validation.{validate_response}
use amit_ai.Constraints.Repair.{validate_repair_literals}
use amit_ai.Constraints.Retries.{max_mechanical_retries}
use amit_ai.Generator.Reply.{Reply}

-- A response to a prompt passes all of the prompt's constraints, or is the original text; and it is
-- the original text, or has its numbers, identifiers and leading yes or no.
abbrev pub IsAnswer : Patterns → (prompt original response : Text) → Type 0
IsAnswer patterns prompt original response =
    (constraints : List Constraint) × (parse_constraints patterns prompt ≡ ran constraints)
    × (((validate_response response constraints).passed ≡ true) ⊎ (response ≡ original))
    × ((response ≡ original)
        ⊎ ((validate_repair_literals patterns original response).passed ≡ true))

module _ {A : Type 0} (patterns : Patterns) where
  -- what holds of a reply, by the text of the tool loop
  abbrev pub IsChecked : (prompt original : Text) → Reply A → Type 0
  IsChecked prompt original r =
      IsAnswer patterns prompt original r.response
      × (r.usage.calls ≤ turns + max_mechanical_retries)
      × (length r.tools ≤ max_tool_iterations)
