-- ===== src/Memory/Tests.antt =====
-- Runs of the memory service on a small table, and its theorems at that table.
use amit_ai.Common.{
  ◌==◌, length, any, All, ℕ, ◌*◌, ◌≤◌, ◌≡◌, refl, true, false, Option, none, some, [], ◌∷◌, map,
  arith,
}
use amit_ai.Common.Texts.{Text, codes, is_space, split, join, contains}
use amit_ai.Memory.Types.{
  preference, SlotStatus, RevisionStatus, local_only, remote_allowed, Operation, Slot, Revision,
  entry, opaque, refs, null, Db, Staged, ok, err, MemoryRecord,
}
use amit_ai.Memory.Tables.{get_current_revision, get_slot, get_slot_by_key, list_current, sort_by}
use amit_ai.Memory.Apply.{
  apply, changed_concurrently, revise, retire, forget, add_revision, memory_record,
}
use amit_ai.Memory.Stage.{
  validate_memory_sensitivity, Command, Decision, remember, Policy, stage_chat_command,
  stage_on_slot, staged_for, stage_update, stage_delete, owned_slot, value_or_current,
  validate_memory_content,
}
use amit_ai.Memory.Retrieve.{rank_one, tokens, retrieve}
use amit_ai.Memory.Consistency.{IsConsistent}
use amit_ai.Memory.Outcome.{Leaves}
use amit_ai.Memory.Keeps.{apply-IsConsistent, no_lost_update}
use amit_ai.Memory.Forgetting.{
  IsForgotten, deletion-IsForgotten, other_slots, other_revisions, other_metadata, apply_others,
}
use amit_ai.Memory.Staging.{Succeeds}
use amit_ai.Memory.Staging.Commands.{stage_chat_command-Succeeds, stage_chat_command-sensitivity}
use amit_ai.Memory.Staging.Ownership.{
  IsOwnChange, stage_delete-IsOwnChange, stage_update-IsOwnChange,
}
use amit_ai.Memory.Retrieve.Bounds.{total, retrieve_bounds}
use amit_ai.Memory.Retrieve.Shown.{IsShown, retrieve-IsShown}

abbrev colour : Slot
colour = record {
  id = 1;
  owner = 7;
  category = preference;
  key = codes "favourite_color";
  status = SlotStatus.active;
  current_revision = 2;
  sensitivity = remote_allowed;
  created_at = 10;
  updated_at = 20;
  deleted_at = none;
}

abbrev row : ℕ → Option Text → RevisionStatus → Revision
row n value status = record {
  memory_id = 1;
  revision = n;
  value = value;
  status = status;
  conversation = none;
  message = none;
  created_at = 10 * n;
}

abbrev black : Text
black = codes "black"

abbrev table : Db
table = record {
  slots = colour ∷ [];
  revisions =
      row 1 (some (codes "red")) RevisionStatus.stale
      ∷ row 2 (some black) RevisionStatus.active
      ∷ [];
  metadata = refs (entry (some 1) (some black) [] ∷ opaque [] ∷ []) ∷ null ∷ [];
}

abbrev forgetting : Staged
forgetting = record (staged_for colour Operation.deleted none remote_allowed) {
  expected_status = some SlotStatus.active;
}

abbrev command : Command
command = record {
  operation = remember;
  category = preference;
  key = codes "favourite_color";
  value = some (codes "blue");
}

abbrev decision : Decision
decision = record { intent_detected = true; command = some command; reason = none }

abbrev recoloured : Staged
recoloured = staged_for colour Operation.updated (some (codes "blue")) remote_allowed

-- A policy that normalises nothing and calls a value with an `=` a credential.
abbrev policy : Policy
policy = record {
  nfkc = λ t. t;
  casefold = λ t. t;
  credential_text = λ t. any (λ c. c == b'=') t;
  credential_pair = λ k v. false;
}

abbrev size : MemoryRecord → ℕ
size r = 100

abbrev question : Text
question = codes "my favourite_color"

table-IsConsistent : IsConsistent table
table-IsConsistent = record {
  distinct = (refl, tt);
  owned = (refl, (refl, tt));
  fits = (
    (
      (λ e. (omega arith, λ a. ground arith, λ d. ground arith)),
      ((λ e. (omega arith, λ a. (refl, refl), λ d. ground arith)), tt),
    ),
    tt,
  );
  backed = (refl, tt);
}

staged_blue : stage_chat_command 7 5 decision table ≡ some recoloured
unfolding stage_chat_command stage_on_slot get_slot_by_key
staged_blue = refl

staged_deletion : stage_delete 7 1 table ≡ ok forgetting
unfolding stage_delete owned_slot get_slot
staged_deletion = refl

abbrev restricted : Staged
restricted = record (staged_for colour Operation.updated (some black) local_only) {
  expected_status = some SlotStatus.active;
}

staged_sensitivity : stage_update policy 7 1 none (some (codes "local_only")) table ≡ ok restricted
unfolding stage_update owned_slot get_slot value_or_current get_current_revision
    validate_memory_sensitivity validate_memory_content split join is_space
staged_sensitivity = refl

apply-IsConsistent_example : Leaves IsConsistent (apply forgetting none 30 table)
apply-IsConsistent_example = apply-IsConsistent forgetting none 30 table table-IsConsistent

no_lost_update_example :
    Leaves
      (λ after. apply recoloured none 31 after ≡ err changed_concurrently)
      (apply forgetting none 30 table)
no_lost_update_example =
    no_lost_update forgetting recoloured none none 30 31 table refl refl table-IsConsistent

deletion-IsForgotten_example : Leaves (IsForgotten 1) (apply forgetting none 30 table)
deletion-IsForgotten_example = deletion-IsForgotten forgetting 2 none 30 table refl refl

apply_others_example :
    Leaves
      (λ after.
        (other_slots 1 after ≡ other_slots 1 table)
        × (other_revisions 1 after ≡ other_revisions 1 table)
        × (other_metadata 1 after ≡ other_metadata 1 table))
      (apply forgetting none 30 table)
apply_others_example = apply_others forgetting none 30 table

stage_chat_command-Succeeds_example : Succeeds (apply recoloured none 30 table)
stage_chat_command-Succeeds_example =
    stage_chat_command-Succeeds 7 5 decision command table recoloured refl staged_blue none 30
      table-IsConsistent refl

stage_chat_command-sensitivity_example :
    (s : Slot) × (get_slot_by_key 7 preference (codes "favourite_color") table ≡ some s)
    × (s.status ≡ SlotStatus.active)
    × (s.sensitivity ≡ remote_allowed)
stage_chat_command-sensitivity_example =
    stage_chat_command-sensitivity 7 5 decision command table recoloured refl staged_blue refl

stage_delete-IsOwnChange_example : IsOwnChange 7 1 table forgetting
stage_delete-IsOwnChange_example = stage_delete-IsOwnChange 7 1 table forgetting staged_deletion

stage_update-IsOwnChange_example :
    IsOwnChange 7 1 table restricted
    × ((v : Text) × (w : Text) × (restricted.value ≡ some v)
        × (validate_memory_content policy restricted.key v ≡ ok w))
stage_update-IsOwnChange_example =
    stage_update-IsOwnChange policy 7 1 none (some (codes "local_only")) table restricted
      staged_sensitivity

-- The change goes through, and the question finds the new value.
remembers_blue :
    Leaves
      (λ after.
        map (λ (r : MemoryRecord). r.value) (retrieve policy size 7 question [] after)
        ≡ some (codes "blue") ∷ [])
      (apply recoloured none 30 table)
unfolding apply revise retire forget add_revision memory_record get_slot retrieve list_current
    sort_by tokens rank_one contains
remembers_blue = refl

forgets_black : Leaves (λ after. length after.revisions ≡ 3) (apply forgetting none 30 table)
unfolding apply revise retire forget add_revision memory_record get_slot
forgets_black = refl

retrieve_bounds_example :
    (length (retrieve policy size 7 question [] table) ≤ 8)
    × (total size (retrieve policy size 7 question [] table) ≤ 4_000)
retrieve_bounds_example = retrieve_bounds size policy 7 question [] table

retrieve-IsShown_example : All (IsShown 7 [] table) (retrieve policy size 7 question [] table)
retrieve-IsShown_example = retrieve-IsShown policy size 7 question [] table
