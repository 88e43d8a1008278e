-- ===== src/Memory/Tables.antt =====
-- `MemoryRepository`, and the statements that the service runs on the tables itself. The tables are
-- lists of rows; an UPDATE is a map over them beside the count of the rows that match.
use amit_ai.Common.{
  ltb, leb, ◌==◌, if◌then◌else◌, find, ℕ, Bool, true, false, ◌&&◌, ◌||◌, Option, none, some, List,
  [], ◌∷◌, ◌++◌, map,
}
use amit_ai.Common.Texts.{Text, eqb}
use amit_ai.Memory.Types.{
  Category, SlotStatus, RevisionStatus, same_category, same_status, Slot, Revision, Reference,
  References, Db, entry, opaque, null, refs, other,
}

-- `get_slot` and `get_slot_fresh`
unfoldable pub get_slot : ℕ → Db → Option Slot
get_slot i db = find (λ s. s.id == i) db.slots

abbrev pub has_key : ℕ → Category → Text → Slot → Bool
has_key owner category key s =
    s.owner == owner && same_category s.category category && eqb s.key key

unfoldable pub get_slot_by_key : ℕ → Category → Text → Db → Option Slot
get_slot_by_key owner category key db = find (has_key owner category key) db.slots

abbrev pub is_row : ℕ → ℕ → Revision → Bool
is_row i n r = r.memory_id == i && r.revision == n

unfoldable pub get_current_revision : Slot → Db → Option Revision
get_current_revision s db = find (is_row s.id s.current_revision) db.revisions

abbrev pub update_where {ℓ} : {A : Type ℓ} → (A → Bool) → (A → A) → List A → List A
update_where p f [] = []
update_where p f (x ∷ xs) = (if p x then f x else x) ∷ update_where p f xs

abbrev pub same_revision_status : SlotStatus → RevisionStatus → Bool
same_revision_status SlotStatus.active RevisionStatus.active = true
same_revision_status SlotStatus.deleted RevisionStatus.deleted = true
same_revision_status _ _ = false

abbrev pub in_category : Option Category → Slot → Bool
in_category none s = true
in_category (some c) s = same_category s.category c

-- the rows of the join for one slot
abbrev pub join_slot : SlotStatus → Slot → List Revision → List (Slot × Revision)
join_slot status s [] = []
join_slot status s (r ∷ rs) =
    if is_row s.id s.current_revision r && same_revision_status status r.status
    then (s, r) ∷ join_slot status s rs
    else join_slot status s rs

unfoldable pub join_slots :
    ℕ → SlotStatus → Option Category → List Revision → List Slot → List (Slot × Revision)
join_slots owner status category rs [] = []
join_slots owner status category rs (s ∷ ss) =
    if s.owner == owner && same_status s.status status && in_category category s
    then join_slot status s rs ++ join_slots owner status category rs ss
    else join_slots owner status category rs ss

-- `ORDER BY updated_at DESC, id ASC`
abbrev newer : Slot × Revision → Slot × Revision → Bool
newer (s, _) (t, _) =
    ltb t.updated_at s.updated_at || (s.updated_at == t.updated_at && leb s.id t.id)

unfoldable pub insert_by {ℓ} : {A : Type ℓ} → (A → A → Bool) → A → List A → List A
insert_by before x [] = x ∷ []
insert_by before x (y ∷ ys) = if before x y then x ∷ y ∷ ys else y ∷ insert_by before x ys

unfoldable pub sort_by {ℓ} : {A : Type ℓ} → (A → A → Bool) → List A → List A
unfolding insert_by
sort_by before [] = []
sort_by before (x ∷ xs) = insert_by before x (sort_by before xs)

unfoldable pub list_current : ℕ → SlotStatus → Option Category → Db → List (Slot × Revision)
unfolding join_slots sort_by
list_current owner status category db =
    sort_by newer (join_slots owner status category db.revisions db.slots)

-- the loop body of `redact_memory_reference_values`
abbrev pub redact_reference : ℕ → Reference → Reference
redact_reference i (opaque t) = opaque t
redact_reference i (entry none value others) = entry none value others
redact_reference i (entry (some j) value others) =
    if j == i then entry (some j) none others else entry (some j) value others

abbrev pub redact_references : ℕ → References → References
redact_references i null = null
redact_references i (refs rs) = refs (map (redact_reference i) rs)
redact_references i (other t) = other t

unfoldable pub redact_memory_reference_values : ℕ → Db → Db
redact_memory_reference_values i db = record db { metadata = map (redact_references i) db.metadata }
