-- ===== src/Memory/Consistency.antt =====
-- The invariant of the memory tables, and what each branch of `apply` needs to keep it.
pub mod StoreNew
pub mod Revise
use amit_ai.Common.{
  ltb, leb, ◌==◌, if◌then◌else◌, ==_iff, Bool-cases, Option-cases, is_some, length, take, drop, any,
  keep, find, count, All, length-append, length-keep-le, count-append, All-append, All-weaken, ℕ,
  zero, suc, ◌+◌, ◌-◌, ◌*◌, ◌≤◌, ◌<◌, min, String, ◌≡◌, refl, sym, ap, ◌∙◌, fun_ext, ◌≢◌, ◌↔◌, ◌⊎◌,
  inl, inr, Bool, true, false, not, ◌&&◌, ◌||◌, Option, none, some, List, [], ◌∷◌, ◌++◌, map,
  reverse, append-nil, append_assoc, arith, ℕ_discrete, str_eq, str_eq_iff,
}
use amit_ai.Common.Texts.{
  Text, codes, is_space, eqb, starts_with, lstrip, rstrip, strip, is_empty, eqb→eq, eqb_refl,
}
use amit_ai.Memory.Types.{
  SlotStatus, RevisionStatus, Operation, is_active, same_status, is_deleted, Slot, Revision, Db,
  Staged, Source, MemoryRecord, Result, ok, err, ◌>>=◌, ◌>>◌, raise_if,
}
use amit_ai.Memory.Tables.{
  has_key, is_row, update_where, same_revision_status, redact_memory_reference_values,
}
use amit_ai.Memory.Apply.{
  first_slot, first_revision, collides, is_target, write_slot, is_live_row, mark_stale, retire,
  erase_value, forget, next_row, add_revision, store_new, revise, apply,
}
use amit_ai.Memory.Rows.{
  any-append, any-update_where, count_of_any, All-of_any, All-map, All-zip, update_where-eq-map,
  map-id,
}

-- What a slot says of each of its revisions: none is later than the current one, only the current
-- one of an active slot is active, and a deleted slot has no value left.
abbrev pub Fits : Slot → Revision → Type 0
Fits s r =
    s.id ≡ r.memory_id
    → (r.revision ≤ s.current_revision)
      × (r.status ≡ RevisionStatus.active
          → (s.status ≡ SlotStatus.active) × (r.revision ≡ s.current_revision))
      × (s.status ≡ SlotStatus.deleted → r.value ≡ none)

-- the row that backs a slot: its current revision, in the slot's status
abbrev pub is_backing : Slot → Revision → Bool
is_backing s r = is_row s.id s.current_revision r && same_revision_status s.status r.status

abbrev pub Distinct : List Slot → Type 0
Distinct [] = Unit
Distinct (s ∷ ss) = (any (λ t. t.id == s.id) ss ≡ false) × Distinct ss

abbrev pub has_id : ℕ → List Slot → Bool
has_id i ss = any (λ s. s.id == i) ss

pub record IsConsistent (db : Db) : Type 0 where
  pub distinct : Distinct db.slots
  pub owned : All (λ r. has_id r.memory_id db.slots ≡ true) db.revisions
  pub fits : All (λ s. All (Fits s) db.revisions) db.slots
  pub backed : All (λ s. count (is_backing s) db.revisions ≡ 1) db.slots

pub Distinct-append :
    (ss : List Slot) (s : Slot) → Distinct ss → has_id s.id ss ≡ false → Distinct (ss ++ s ∷ [])
Distinct-append [] s d h = (refl, tt)
Distinct-append (t ∷ ss) s d h =
    (rw any-append (ground arith), Distinct-append ss s d.1 (ground arith))

-- in a table with distinct ids, the one row that a statement matches is the only one with its id
pub unique_target :
    (m : Staged) (n : ℕ) (ss : List Slot)
    → Distinct ss
    → count (is_target m n) ss ≡ 1
    → All (λ s. s.id ≡ m.memory_id → is_target m n s ≡ true) ss
unique_target m n [] d h = tt
unique_target m n (s ∷ ss) d h = elim (Bool-cases (is_target m n s)) [
  | inl t ↦ (
    λ _. t,
    All-of_any (λ (x : Slot). x.id ≡ m.memory_id → is_target m n x ≡ true) (λ x. x.id == s.id)
        (λ x f e. ground arith) ss d.0,
  )
  | inr f ↦ (
    λ e.
        ground
          (arith, count_of_any (is_target m n) (λ x. x.id == s.id) (λ x t. ground arith) ss d.0),
    unique_target m n ss d.1 (ground arith),
  )
]
