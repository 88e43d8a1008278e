-- ===== src/Memory/Stage.antt =====
-- The validation of a memory's parts, and the staging of a change: what the service decides from the
-- tables as they are, to be applied later if they have not changed.
use amit_ai.Common.{
  ltb, leb, ◌==◌, if◌then◌else◌, is_some, length, ℕ, String, Bool, true, false, not, ◌&&◌, ◌||◌,
  Option, none, some, [], ◌∷◌,
}
use amit_ai.Common.Texts.{Text, codes, eqb, strip, is_empty, split, join}
use amit_ai.Memory.Types.{
  Category, preference, profile, project, workflow, instruction, SlotStatus, Sensitivity,
  local_only, remote_allowed, Operation, Slot, Db, Staged, validation, conflict, not_found, Result,
  ok, err, ◌>>=◌, ◌>>◌, raise_if,
}
use amit_ai.Memory.Tables.{get_slot, get_slot_by_key, get_current_revision}
use amit_ai.Memory.Apply.{changed_concurrently}

-- What the validation calls and this model does not compute: `unicodedata.normalize("NFKC", …)`,
-- `str.casefold`, and the two detectors of backend/secret_detection.py.
pub record Policy : Type 0 where
  pub nfkc : Text → Text
  pub casefold : Text → Text
  pub credential_text : Text → Bool
  pub credential_pair : Text → Text → Bool

abbrev pub max_memory_key_chars : ℕ
max_memory_key_chars = 128

abbrev pub max_memory_value_chars : ℕ
max_memory_value_chars = 1_000

abbrev is_key_char : ℕ → Bool
is_key_char c = (leb b'a' c && leb c b'z') || (leb b'0' c && leb c b'9')

abbrev is_key_sep : ℕ → Bool
is_key_sep c = c == b'.' || c == b'_' || c == b'-'

-- `_KEY_PATTERN.fullmatch`: runs of letters and digits with single separators between them. `open`
-- says whether the last character was a letter or a digit.
unfoldable pub key_pattern : Bool → Text → Bool
key_pattern ended [] = ended
key_pattern ended (c ∷ text) =
    (is_key_char c && key_pattern true text) || (ended && is_key_sep c && key_pattern false text)

unfoldable pub category_of : Text → Option Category
category_of text =
    if eqb text (codes "preference")
    then some preference
    else if eqb text (codes "profile")
    then some profile
    else if eqb text (codes "project")
    then some project
    else if eqb text (codes "workflow")
    then some workflow
    else if eqb text (codes "instruction")
    then some instruction
    else none

unfoldable pub validate_memory_sensitivity : Text → Result Sensitivity
validate_memory_sensitivity value =
    if eqb value (codes "local_only")
    then ok local_only
    else if eqb value (codes "remote_allowed")
    then ok remote_allowed
    else err (validation "Memory sensitivity is invalid")

-- `ParsedMemoryCommand` and `MemoryCommandDecision`
pub data CommandOperation : Type 0 where
  remember update forget : CommandOperation

pub record Command : Type 0 where
  pub operation : CommandOperation
  pub category : Category
  pub key : Text
  pub value : Option Text

pub record Decision : Type 0 where
  pub intent_detected : Bool
  pub command : Option Command
  pub reason : Option String

module _ (policy : Policy) where
  unfoldable pub normalize_memory_key : Text → Result Text
  unfolding key_pattern
  normalize_memory_key value =
      let normalized = strip (policy.casefold (policy.nfkc value)) in
      if is_empty normalized || ltb max_memory_key_chars (length normalized)
      then err (validation "Memory key is invalid")
      else if key_pattern false normalized
      then ok normalized
      else err (validation "Memory key is invalid")

  unfoldable pub validate_memory_category : Text → Result Category
  unfolding category_of
  validate_memory_category value =
      elim (category_of (strip (policy.casefold (policy.nfkc value)))) [
        | none ↦ err (validation "Memory category is invalid")
        | some c ↦ ok c
      ]

  unfoldable pub validate_memory_value : Text → Result Text
  validate_memory_value value =
      let normalized = join (codes " ") (split (policy.nfkc value)) in
      if is_empty normalized || ltb max_memory_value_chars (length normalized)
      then err (validation "Memory value is invalid")
      else if policy.credential_text normalized
      then err (validation "Sensitive credentials cannot be stored in memory")
      else ok normalized

  unfoldable pub validate_memory_content : Text → Text → Result Text
  unfolding validate_memory_value
  validate_memory_content key value = do
    normalized ← validate_memory_value value
    raise_if (policy.credential_pair key normalized)
        (validation "Sensitive credentials cannot be stored in memory")
    ok normalized

-- a change of a slot as it is
abbrev pub staged_for : Slot → Operation → Option Text → Sensitivity → Staged
staged_for s op value sensitivity = record {
  operation = op;
  memory_id = s.id;
  owner = s.owner;
  category = s.category;
  key = s.key;
  value = value;
  expected_revision = some s.current_revision;
  expected_status = some s.status;
  sensitivity = sensitivity;
}

abbrev pub staged_new : ℕ → ℕ → Category → Text → Option Text → Sensitivity → Staged
staged_new fresh owner category key value sensitivity = record {
  operation = Operation.stored;
  memory_id = fresh;
  owner = owner;
  category = category;
  key = key;
  value = value;
  expected_revision = none;
  expected_status = none;
  sensitivity = sensitivity;
}

-- the sensitivity that a chat command keeps: a deleted slot loses its opt-in
abbrev pub kept_sensitivity : SlotStatus → Sensitivity → Sensitivity
kept_sensitivity SlotStatus.active s = s
kept_sensitivity SlotStatus.deleted s = local_only

abbrev pub remembered : SlotStatus → Operation
remembered SlotStatus.deleted = Operation.stored
remembered SlotStatus.active = Operation.updated

-- the branches of `stage_chat_command` on a slot that exists
unfoldable pub stage_on_slot : Command → Slot → Option Staged
stage_on_slot c s = elim c.operation [
  | remember ↦
      some (staged_for s (remembered s.status) c.value (kept_sensitivity s.status s.sensitivity))
  | update ↦ elim s.status [
    | SlotStatus.active ↦ some (record (staged_for s Operation.updated c.value s.sensitivity) {
      expected_status = some SlotStatus.active;
    })
    | SlotStatus.deleted ↦ none
  ]
  | forget ↦ elim s.status [
    | SlotStatus.active ↦ some (record (staged_for s Operation.deleted c.value s.sensitivity) {
      expected_status = some SlotStatus.active;
    })
    | SlotStatus.deleted ↦ none
  ]
]

unfoldable pub stage_without_slot : ℕ → ℕ → Command → Option Staged
stage_without_slot owner fresh c = elim c.operation [
  | remember ↦ some (staged_new fresh owner c.category c.key c.value local_only)
  | _ ↦ none
]

-- `fresh` is what `new_uuid()` returns, should it be called
unfoldable pub stage_chat_command : ℕ → ℕ → Decision → Db → Option Staged
stage_chat_command owner fresh decision db = elim decision.command [
  | none ↦ none
  | some c ↦ elim (get_slot_by_key owner c.category c.key db) [
    | none ↦ stage_without_slot owner fresh c
    | some s ↦ stage_on_slot c s
  ]
]

-- `memory.id if memory is not None else new_uuid()`, and the expectations beside it
unfoldable pub create_on :
    ℕ → ℕ → Category → Text → Text → Sensitivity → Option Slot → Result Staged
create_on owner fresh category key value sensitivity none =
    ok (staged_new fresh owner category key (some value) sensitivity)
create_on owner fresh category key value sensitivity (some s) = elim s.status [
  | SlotStatus.active ↦ err (conflict "Memory key already exists")
  | SlotStatus.deleted ↦ ok (record {
    operation = Operation.stored;
    memory_id = s.id;
    owner = owner;
    category = category;
    key = key;
    value = some value;
    expected_revision = some s.current_revision;
    expected_status = some SlotStatus.deleted;
    sensitivity = sensitivity;
  })
]

-- a slot that the owner may change: it is there, it is the owner's, and it is not deleted
unfoldable pub owned_slot : ℕ → ℕ → String → Db → Result Slot
owned_slot owner i message db = elim (get_slot i db) [
  | none ↦ err (not_found "Memory not found")
  | some s ↦
      if s.owner == owner
      then (elim s.status [
        | SlotStatus.active ↦ ok s
        | SlotStatus.deleted ↦ err (conflict message)
      ])
      else err (not_found "Memory not found")
]

-- the value of a policy-only edit is the one that the slot has
unfoldable pub value_or_current : Slot → Option Text → Db → Result Text
value_or_current s (some v) db = ok v
value_or_current s none db = elim (get_current_revision s db) [
  | none ↦ err changed_concurrently
  | some r ↦ elim r.value [ none ↦ err changed_concurrently | some v ↦ ok v ]
]

module _ (policy : Policy) (owner : ℕ) where
  unfoldable pub stage_create : ℕ → Text → Text → Text → Text → Db → Result Staged
  stage_create fresh category key value sensitivity db = do
    c ← validate_memory_category policy category
    k ← normalize_memory_key policy key
    v ← validate_memory_content policy k value
    s ← validate_memory_sensitivity sensitivity
    create_on owner fresh c k v s (get_slot_by_key owner c k db)

  abbrev pub checked_value : Option Text → Result (Option Text)
  checked_value none = ok none
  checked_value (some v) = do w ← validate_memory_value policy v; ok (some w)

  abbrev pub checked_sensitivity : Option Text → Result (Option Sensitivity)
  checked_sensitivity none = ok none
  checked_sensitivity (some s) = do t ← validate_memory_sensitivity s; ok (some t)

  abbrev pub chosen : Option Sensitivity → Sensitivity → Sensitivity
  chosen none s = s
  chosen (some t) s = t

  unfoldable pub stage_update : ℕ → Option Text → Option Text → Db → Result Staged
  stage_update i value sensitivity db = do
    raise_if (not (is_some value) && not (is_some sensitivity))
        (validation "Memory update must contain a change")
    given ← checked_value value
    wanted ← checked_sensitivity sensitivity
    s ← owned_slot owner i "Deleted memory cannot be updated" db
    v ← value_or_current s given db
    _ ← validate_memory_content policy s.key v
    ok (record (staged_for s Operation.updated (some v) (chosen wanted s.sensitivity)) {
      expected_status = some SlotStatus.active;
    })

unfoldable pub stage_delete : ℕ → ℕ → Db → Result Staged
stage_delete owner i db = do
  s ← owned_slot owner i "Memory is already deleted" db
  ok (record (staged_for s Operation.deleted none s.sensitivity) {
    expected_status = some SlotStatus.active;
  })
