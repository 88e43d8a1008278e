-- ===== src/Memory/Types.antt =====
-- The rows of the memory tables, and the values that the service passes around. An identifier (a
-- uuid, an owner) is only compared, so it is a number; so is a timestamp, in microseconds. The
-- columns that a CHECK constraint limits to a few words are enumerations.
use amit_ai.Common.{if◌then◌else◌, ◌≡◌, refl, ℕ, String, ◌≡◌, refl, Bool, true, false, Option, List}
use amit_ai.Common.Texts.{Text}

pub data Category : Type 0 where
  preference profile project workflow instruction : Category

pub data SlotStatus : Type 0 where
  active deleted : SlotStatus

pub data RevisionStatus : Type 0 where
  active stale deleted : RevisionStatus

pub data Sensitivity : Type 0 where
  local_only remote_allowed : Sensitivity

-- the operations of a staged change, then those that only a record carries
pub data Operation : Type 0 where
  stored updated deleted retrieved current : Operation

abbrev pub same_category : Category → Category → Bool
same_category preference preference = true
same_category profile profile = true
same_category project project = true
same_category workflow workflow = true
same_category instruction instruction = true
same_category _ _ = false

abbrev pub same_status : SlotStatus → SlotStatus → Bool
same_status SlotStatus.active SlotStatus.active = true
same_status SlotStatus.deleted SlotStatus.deleted = true
same_status _ _ = false

abbrev pub is_active : RevisionStatus → Bool
is_active RevisionStatus.active = true
is_active _ = false

abbrev pub is_deleted : Operation → Bool
is_deleted Operation.deleted = true
is_deleted _ = false

-- `MemorySlot`
pub record Slot : Type 0 where
  pub id : ℕ
  pub owner : ℕ
  pub category : Category
  pub key : Text
  pub status : SlotStatus
  pub current_revision : ℕ
  pub sensitivity : Sensitivity
  pub created_at : ℕ
  pub updated_at : ℕ
  pub deleted_at : Option ℕ

-- `MemoryRevision`, without its own id, which nothing reads
pub record Revision : Type 0 where
  pub memory_id : ℕ
  pub revision : ℕ
  pub value : Option Text
  pub status : RevisionStatus
  pub conversation : Option ℕ
  pub message : Option ℕ
  pub created_at : ℕ

-- One entry of the list in `MessageMetadata.memory_refs_json`: a dictionary, by the two members
-- that the redaction reads, with the others as one opaque text; or a value of another kind.
pub data Reference : Type 0 where
  entry : (id : Option ℕ) (value : Option Text) (others : Text) → Reference
  opaque : Text → Reference

-- The column itself: NULL, a list, or JSON that is no list.
pub data References : Type 0 where
  null : References
  refs : List Reference → References
  other : Text → References

pub record Db : Type 0 where
  pub slots : List Slot
  pub revisions : List Revision
  pub metadata : List References

-- `StagedMemoryMutation`
pub record Staged : Type 0 where
  pub operation : Operation
  pub memory_id : ℕ
  pub owner : ℕ
  pub category : Category
  pub key : Text
  pub value : Option Text
  pub expected_revision : Option ℕ
  pub expected_status : Option SlotStatus
  pub sensitivity : Sensitivity

-- the user message that a change comes from
pub record Source : Type 0 where
  pub conversation : ℕ
  pub message : ℕ

-- the dictionary that `_memory_record` builds; `value` is absent or present
pub record MemoryRecord : Type 0 where
  pub id : ℕ
  pub operation : Operation
  pub category : Category
  pub key : Text
  pub status : SlotStatus
  pub sensitivity : Sensitivity
  pub conversation : Option ℕ
  pub message : Option ℕ
  pub updated_at : ℕ
  pub value : Option Text

-- `integrity` is an IntegrityError of the database that no handler turns into a conflict.
pub data MemoryError : Type 0 where
  validation not_found conflict : String → MemoryError
  integrity : MemoryError

pub data Result {ℓ} (A : Type ℓ) : Type ℓ where
  ok : A → Result A
  err : MemoryError → Result A

module _ {ℓ κ} {A : Type ℓ} {B : Type κ} where
  infixl 5 ◌>>=◌
  -- the rest of a method, after a call that may raise
  abbrev pub ◌>>=◌ : Result A → (A → Result B) → Result B
  call >>= rest = elim call [ err raised ↦ err raised | ok a ↦ rest a ]

  -- A method that returned had each of its calls return.
  pub returned :
      (call : Result A) (rest : A → Result B) {b : B}
      → (call >>= rest) ≡ ok b
      → (a : A) × (call ≡ ok a) × (rest a ≡ ok b)
  returned (err raised) rest e = cc
  returned (ok a) rest e = (a, refl, e)

infixl 5 ◌>>◌
abbrev pub ◌>>◌ {ℓ} : {B : Type ℓ} → Result (Unit {0}) → Result B → Result B
check >> rest = check >>= λ _. rest

-- `if test: raise error`
abbrev pub raise_if : Bool → MemoryError → Result (Unit {0})
raise_if test error = if test then err error else ok tt
