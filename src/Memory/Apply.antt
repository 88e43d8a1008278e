-- ===== src/Memory/Apply.antt =====
-- `MemoryService.apply`: one staged change, under optimistic locking. It runs inside the caller's
-- transaction, which a raise rolls back, so an error carries no tables.
use amit_ai.Common.{
  ◌==◌, if◌then◌else◌, any, count, ℕ, ◌+◌, Bool, false, not, ◌&&◌, ◌||◌, Option, none, some, List,
  [], ◌∷◌, ◌++◌,
}
use amit_ai.Common.Texts.{Text}
use amit_ai.Memory.Types.{
  SlotStatus, RevisionStatus, Operation, same_status, is_active, is_deleted, Slot, Revision, Db,
  Staged, Source, MemoryRecord, MemoryError, conflict, integrity, Result, ok, err, ◌>>=◌, ◌>>◌,
  raise_if,
}
use amit_ai.Memory.Tables.{get_slot, has_key, is_row, update_where, redact_memory_reference_values}

-- `_memory_record`
abbrev pub shown : SlotStatus → Option Text → Option Text
shown SlotStatus.active value = value
shown SlotStatus.deleted value = none

unfoldable pub memory_record : Slot → Revision → Operation → MemoryRecord
memory_record s r op = record {
  id = s.id;
  operation = op;
  category = s.category;
  key = s.key;
  status = s.status;
  sensitivity = s.sensitivity;
  conversation = r.conversation;
  message = r.message;
  updated_at = s.updated_at;
  value = shown s.status r.value;
}

abbrev conversation_of : Option Source → Option ℕ
conversation_of none = none
conversation_of (some s) = some s.conversation

abbrev message_of : Option Source → Option ℕ
message_of none = none
message_of (some s) = some s.message

abbrev pub first_slot : Staged → ℕ → Slot
first_slot m now = record {
  id = m.memory_id;
  owner = m.owner;
  category = m.category;
  key = m.key;
  status = SlotStatus.active;
  current_revision = 1;
  sensitivity = m.sensitivity;
  created_at = now;
  updated_at = now;
  deleted_at = none;
}

abbrev pub first_revision : Staged → Option Source → ℕ → Revision
first_revision m src now = record {
  memory_id = m.memory_id;
  revision = 1;
  value = m.value;
  status = RevisionStatus.active;
  conversation = conversation_of src;
  message = message_of src;
  created_at = now;
}

-- what the PRIMARY KEY and the UNIQUE constraints of the two tables refuse at the flush
unfoldable pub collides : Slot → Revision → Db → Bool
collides s r db =
    any (λ t. t.id == s.id) db.slots
    || any (has_key s.owner s.category s.key) db.slots
    || any (is_row r.memory_id r.revision) db.revisions

abbrev pub changed_concurrently : MemoryError
changed_concurrently = conflict "Memory changed concurrently"

-- the branch for a memory that had no slot when the change was staged
unfoldable pub store_new : Staged → Option Source → ℕ → Db → Result (MemoryRecord × Db)
unfolding collides memory_record
store_new m src now db =
    let slot = first_slot m now in
    let revision = first_revision m src now in
    if collides slot revision db
    then err changed_concurrently
    else ok (
      memory_record slot revision Operation.stored,
      record db { slots = db.slots ++ slot ∷ []; revisions = db.revisions ++ revision ∷ [] },
    )

-- the WHERE of the slot's UPDATE; a comparison with NULL matches no row
abbrev expects : Option SlotStatus → SlotStatus → Bool
expects none s = false
expects (some e) s = same_status s e

abbrev pub is_target : Staged → ℕ → Slot → Bool
is_target m n s =
    s.id == m.memory_id
    && s.owner == m.owner
    && s.current_revision == n
    && expects m.expected_status s.status

abbrev pub write_slot : Staged → ℕ → ℕ → Slot → Slot
write_slot m n now s = record s {
  status = if is_deleted m.operation then SlotStatus.deleted else SlotStatus.active;
  current_revision = n + 1;
  sensitivity = m.sensitivity;
  updated_at = now;
  deleted_at = if is_deleted m.operation then some now else none;
}

abbrev pub is_live_row : ℕ → ℕ → Revision → Bool
is_live_row i n r = is_row i n r && is_active r.status

abbrev pub mark_stale : Revision → Revision
mark_stale r = record r { status = RevisionStatus.stale }

-- the step that retires the revision which was current, if the slot was active
unfoldable pub retire : Option SlotStatus → ℕ → ℕ → List Revision → Result (List Revision)
retire (some SlotStatus.active) i n rs =
    if count (is_live_row i n) rs == 1
    then ok (update_where (is_live_row i n) mark_stale rs)
    else err changed_concurrently
retire _ i n rs = ok rs

abbrev keep_deleted : RevisionStatus → RevisionStatus
keep_deleted RevisionStatus.deleted = RevisionStatus.deleted
keep_deleted _ = RevisionStatus.stale

abbrev pub erase_value : Revision → Revision
erase_value r = record r { value = none; status = keep_deleted r.status }

-- the step that forgets: no revision and no reference of the memory keeps its value
unfoldable pub forget : Staged → Db → Db
unfolding redact_memory_reference_values
forget m db =
    if is_deleted m.operation
    then redact_memory_reference_values m.memory_id (record db {
      revisions = update_where (λ r. r.memory_id == m.memory_id) erase_value db.revisions;
    })
    else db

abbrev pub next_row : Staged → Option Source → ℕ → ℕ → Revision
next_row m src n now = record {
  memory_id = m.memory_id;
  revision = n + 1;
  value = if is_deleted m.operation then none else m.value;
  status = if is_deleted m.operation then RevisionStatus.deleted else RevisionStatus.active;
  conversation = conversation_of src;
  message = message_of src;
  created_at = now;
}

-- The last steps: the new revision is flushed, and the slot is read back for the record.
unfoldable pub add_revision : Staged → Revision → Db → Result (MemoryRecord × Db)
unfolding get_slot memory_record
add_revision m row db =
    let after = record db { revisions = db.revisions ++ row ∷ [] } in
    if any (is_row row.memory_id row.revision) db.revisions
    then err integrity
    else elim (get_slot m.memory_id after) [
      | none ↦ err changed_concurrently
      | some s ↦ ok (memory_record s row m.operation, after)
    ]

-- the branch for a memory that was at revision `n` when the change was staged
unfoldable pub revise : Staged → ℕ → Option Source → ℕ → Db → Result (MemoryRecord × Db)
revise m n src now db = do
  raise_if (not (count (is_target m n) db.slots == 1)) changed_concurrently
  rs ← retire m.expected_status m.memory_id n db.revisions
  add_revision m (next_row m src n now) (
      forget m (record db {
        slots = update_where (is_target m n) (write_slot m n now) db.slots;
        revisions = rs;
      }))

unfoldable pub apply_expecting :
    Option ℕ → Staged → Option Source → ℕ → Db → Result (MemoryRecord × Db)
apply_expecting none m = store_new m
apply_expecting (some n) m = revise m n

unfoldable pub apply : Staged → Option Source → ℕ → Db → Result (MemoryRecord × Db)
unfolding apply_expecting
apply m = apply_expecting m.expected_revision m
