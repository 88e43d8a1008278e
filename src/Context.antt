-- ===== src/Context.antt =====
-- runtime/context.py: the minimisation of what a model provider gets to see. A message carries an
-- optional projection, which replaces or omits its content under remote execution.
pub mod Bounds
pub mod Privacy
mod Tests
use amit_ai.Common.{
  ltb, count, ◌==◌, ◌-◌, any, [], if◌then◌else◌, length, ◌+◌, drop, ◌++◌, ◌∷◌, map, ◌||◌, reverse,
  none, true, some, false, ◌&&◌, ℕ, List, Bool, Option, ltb, leb, ◌==◌, if◌then◌else◌, ==_iff,
  Bool-cases, Option-cases, is_some, is_nil, length, take, drop, any, keep, find, count, All,
  length-append, length-keep-le, count-append, All-append, All-weaken, ℕ, zero, suc, ◌+◌, ◌-◌, ◌*◌,
  ◌≤◌, ◌<◌, min, String, ◌≡◌, refl, sym, ap, ◌∙◌, fun_ext, ◌≢◌, ◌↔◌, ◌⊎◌, inl, inr, Bool, true,
  false, not, ◌&&◌, ◌||◌, Option, none, some, List, [], ◌∷◌, ◌++◌, map, reverse, append-nil,
  append_assoc, arith, ℕ_discrete, str_eq, str_eq_iff,
}
use amit_ai.Common.Texts.{
  starts_with, codes, Text, Text, codes, is_space, eqb, starts_with, lstrip, rstrip, strip,
  is_empty, eqb→eq, eqb_refl, split, join, contains, is_member,
}

pub data Role : Type 0 where
  user assistant system tool : Role

abbrev pub is_user : Role → Bool
is_user user = true
is_user _ = false

abbrev pub is_assistant : Role → Bool
is_assistant assistant = true
is_assistant _ = false

abbrev pub is_system : Role → Bool
is_system system = true
is_system _ = false

-- `RemoteProjection(content)`; `none` omits the message remotely
pub record Projection : Type 0 where
  pub content : Option Text

-- `GenerationMessage`
pub record Message : Type 0 where
  pub role : Role
  pub content : Text
  pub remote_projection : Option Projection

-- `InferenceExecutionScope`
pub data Scope : Type 0 where
  local remote : Scope

-- what a provider is sent for one message
pub record Sent : Type 0 where
  pub role : Role
  pub content : Text

-- `CompiledModelContext`
pub record Compiled : Type 0 where
  pub messages : List Sent
  pub history_truncated : Bool
  pub retained_history_count : ℕ
  pub retained_user_turn_count : ℕ
  pub latest_prior_turn_retained : Bool
  pub latest_prior_user_turn_retained : Bool
  pub trusted_context_count : ℕ

-- the two ValueErrors of `compile_model_context`
pub data Refusal : Type 0 where
  no_current_user current_user_omitted : Refusal

pub data Outcome : Type 0 where
  compiled : Compiled → Outcome
  refused : Refusal → Outcome

abbrev pub max_history_messages : ℕ
max_history_messages = 20

abbrev pub max_history_context_chars : ℕ
max_history_context_chars = 20_000

-- the body of the loop in `_project`
unfoldable pub project_one : Scope → Message → Option Sent
project_one local m = some (record { role = m.role; content = m.content })
project_one remote m = elim m.remote_projection [
  | none ↦ some (record { role = m.role; content = m.content })
  | some p ↦ elim p.content [
    | none ↦ none
    | some text ↦ some (record { role = m.role; content = text })
  ]
]

unfoldable pub project : Scope → List Message → List Sent
project scope [] = []
project scope (m ∷ ms) = elim (project_one scope m) [
  | none ↦ project scope ms
  | some s ↦ s ∷ project scope ms
]

-- `_is_trusted_runtime_context`, by the two prefixes
unfoldable pub is_trusted : Message → Bool
is_trusted m =
    is_system m.role
    && (starts_with m.content (codes "MEMORY_CONTEXT_V1" ++ 10 ∷ [])
        || starts_with m.content (codes "MEMORY_COMMAND_V1" ++ 10 ∷ []))

-- The loop of `_select_recent_history` over the reversed history, at `n` messages and `chars`
-- characters selected: what it selects, newest first, and whether it stopped at a limit.
unfoldable pub take_recent : ℕ → ℕ → List Sent → List Sent × Bool
take_recent n chars [] = ([], false)
take_recent n chars (m ∷ older) =
    let rest = take_recent (n + 1) (chars + length m.content) older in
    if n == max_history_messages
    then ([], true)
    else if ltb max_history_context_chars (chars + length m.content)
    then ([], true)
    else (m ∷ rest.0, rest.1)

-- `while selected and selected[0].role == "assistant": selected.pop(0)`
unfoldable pub drop_assistants : List Sent → List Sent
drop_assistants [] = []
drop_assistants (m ∷ ms) =
    let rest = drop_assistants ms in if is_assistant m.role then rest else m ∷ ms

unfoldable pub select_recent_history : List Sent → List Sent × Bool
unfolding take_recent drop_assistants
select_recent_history history =
    let (newest_first, truncated) = take_recent 0 0 (reverse history) in
    (drop_assistants (reverse newest_first), truncated)

-- `messages[:-1]` and `messages[-1]`
unfoldable pub split_last : List Message → Option (List Message × Message)
split_last [] = none
split_last (m ∷ ms) = elim (split_last ms) [
  | none ↦ some ([], m)
  | some (front, last) ↦ some (m ∷ front, last)
]

-- the leading trusted frames, and the history after them
unfoldable pub split_trusted : List Message → List Message × List Message
split_trusted [] = ([], [])
split_trusted (m ∷ ms) =
    let (trusted, history) = split_trusted ms in
    if is_trusted m then (m ∷ trusted, history) else ([], m ∷ ms)

-- the projected history with the position of each source message, from position `i` on
unfoldable pub projected_history : Scope → ℕ → List Message → List (ℕ × Sent)
projected_history scope i [] = []
projected_history scope i (m ∷ ms) = elim (project_one scope m) [
  | none ↦ projected_history scope (i + 1) ms
  | some s ↦ (i, s) ∷ projected_history scope (i + 1) ms
]

-- the positions of the messages that pass, and `positions[-1]`
abbrev last_position : (Role → Bool) → ℕ → List Message → Option ℕ
last_position p i [] = none
last_position p i (m ∷ ms) = elim (last_position p (i + 1) ms) [
  | some j ↦ some j
  | none ↦ if p m.role then some i else none
]

abbrev is_turn : Role → Bool
is_turn r = is_user r || is_assistant r

-- `set(projected_positions[-count:]) if recent_history else set()`
abbrev retained_positions : List ℕ → ℕ → List ℕ
retained_positions positions n = drop (length positions - n) positions

abbrev is_retained : Option ℕ → List ℕ → Bool
is_retained none positions = false
is_retained (some i) positions = any (λ j. j == i) positions

abbrev omission_notice : Text
omission_notice =
    codes "Earlier conversation turns were omitted from the available context. "
    ++ codes "Do not infer or reconstruct their contents."

abbrev blank_line : Text
blank_line = 10 ∷ 10 ∷ []

unfoldable pub system_content : Text → Text → Bool → Text
system_content prompt tools truncated =
    prompt
    ++ blank_line
    ++ tools
    ++ (if truncated
        then blank_line ++ codes "CONTEXT_AVAILABILITY" ++ 10 ∷ omission_notice
        else [])

-- the compilation, once the current user's message is split off and projected
unfoldable pub assemble : Text → Text → Scope → List Message → Sent → Compiled
unfolding split_trusted project projected_history select_recent_history system_content
assemble prompt tools scope prior current =
    let (trusted, history) = split_trusted prior in
    let frames = project scope trusted in
    let projected = projected_history scope 0 history in
    let (recent, truncated) = select_recent_history (map (λ e. e.1) projected) in
    let retained = retained_positions (map (λ e. e.0) projected) (length recent) in
    record {
      messages =
          record { role = system; content = system_content prompt tools truncated }
          ∷ (frames ++ (recent ++ current ∷ []));
      history_truncated = truncated;
      retained_history_count = count (λ m. is_turn m.role) recent;
      retained_user_turn_count = count (λ m. is_user m.role) recent;
      latest_prior_turn_retained = is_retained (last_position is_turn 0 history) retained;
      latest_prior_user_turn_retained = is_retained (last_position is_user 0 history) retained;
      trusted_context_count = length frames;
    }

-- the checks on the current message
unfoldable pub compile_split : Text → Text → Scope → Option (List Message × Message) → Outcome
compile_split prompt tools scope none = refused no_current_user
compile_split prompt tools scope (some (prior, current)) =
    if is_user current.role
    then (elim (project_one scope current) [
      | none ↦ refused current_user_omitted
      | some sent ↦ compiled (assemble prompt tools scope prior sent)
    ])
    else refused no_current_user

unfoldable pub compile_model_context : Text → Text → Scope → List Message → Outcome
unfolding split_last compile_split
compile_model_context prompt tools scope messages =
    compile_split prompt tools scope (split_last messages)
