-- ===== src/Chat/Types.antt =====
-- backend/chat_service.py: what a chat is prepared as, and what a streamed one yields.
use amit_ai.Common.{
  leb, if◌then◌else◌, length, take, ℕ, ◌+◌, Bool, true, false, Option, none, some, List, [], ◌∷◌,
  ◌++◌,
}
use amit_ai.Common.Texts.{Text, codes, eqb, rstrip, split, join}
use amit_ai.Memory.Types.{Operation, Sensitivity, local_only, remote_allowed, Staged, is_deleted}
use amit_ai.Generator.Types.{Ran}

-- `_PreparedChat`, as far as the service reads it after `_prepare_chat`
pub record Prepared : Type 0 where
  pub conversation_id : Option ℕ
  pub message : Text
  pub user_created_at : ℕ
  pub staged_memory : Option Staged
  pub has_assets : Bool
  pub intent_detected : Bool
  pub reason : Option Text

-- a `ChatStreamEvent`; the final one is given by its response
pub data Event : Type 0 where
  start : Option ℕ → Event
  text : Text → Event
  final : Text → Event
  done : Event

-- what a streamed chat does that others see: an event, or the commit of a response
pub data Step : Type 0 where
  emit : Event → Step
  commit : Text → Step

-- A streamed chat once it is over: its steps, its exception, and whether the cancel signal is set.
pub record Streamed : Type 0 where
  pub steps : List Step
  pub ended : Ran (Unit {0})
  pub persisted : Bool
  pub rolled_back : Bool
  pub signal_set : Bool

abbrev pub is_stored : Operation → Bool
is_stored Operation.stored = true
is_stored _ = false

abbrev pub access : Sensitivity → Text
access local_only =
    codes
      " It is local only. To let remote Aevon use it, open Memory, edit this memory, set Inference access to Remote allowed, and save changes."
access remote_allowed = codes " You have allowed remote Aevon to use this memory when relevant."

abbrev pub is_reason : Option Text → Text → Bool
is_reason none words = false
is_reason (some reason) words = eqb reason words

unfoldable pub unchanged : Option Text → Text
unchanged reason =
    if is_reason reason (codes "Memory target was not found or is not active")
    then codes "I couldn't find that saved memory. No memory was changed."
    else if is_reason reason (codes "Sensitive credentials cannot be stored in memory")
    then codes "No memory was changed. Credentials cannot be saved in memory."
    else codes
        "No memory was changed. Use one explicit fact, such as “Remember my favourite color is black.” You can also use Memory to manage it."

unfoldable pub changed : Staged → Text
changed m =
    if is_deleted m.operation
    then codes "Forgotten from saved memory."
    else (if is_stored m.operation then codes "Memory saved." else codes "Memory updated.")
      ++ access m.sensitivity

-- the response of an acknowledgment
unfoldable pub acknowledgment : Prepared → Text
unfolding unchanged changed
acknowledgment p =
    if p.has_assets
    then codes "No memory was changed. Send the memory command in a text-only message."
    else elim p.staged_memory [ none ↦ unchanged p.reason | some m ↦ changed m ]

-- `_memory_acknowledgment`, by its response
unfoldable pub memory_acknowledgment : Prepared → Option Text
unfolding acknowledgment
memory_acknowledgment p = if p.intent_detected then some (acknowledgment p) else none

-- `_deterministic_title`
unfoldable pub deterministic_title : Text → Text
unfolding split join rstrip
deterministic_title message =
    let normalized = join (b' ' ∷ []) (split message) in
    if leb (length normalized) 60 then normalized else rstrip (take 57 normalized) ++ codes "..."

-- `_timestamp_after`, at the time that the clock gives, in microseconds
unfoldable pub timestamp_after : Option ℕ → ℕ → ℕ
timestamp_after none now = now
timestamp_after (some previous) now = if leb now previous then previous + 1 else now

-- the two timestamps of `_persist_chat`: the assistant's message, and the conversation's update
unfoldable pub persist_timestamps : Prepared → (first second : ℕ) → ℕ × ℕ
unfolding timestamp_after
persist_timestamps p first second =
    let assistant_created_at = timestamp_after (some p.user_created_at) first in
    (assistant_created_at, timestamp_after (some assistant_created_at) second)
