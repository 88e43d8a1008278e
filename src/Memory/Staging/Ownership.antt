-- ===== src/Memory/Staging/Ownership.antt =====
-- The changes that the memory page stages: of the owner's active memories only, and applicable.
use amit_ai.Common.{
  Option-cases, is_some, ℕ, String, ◌≡◌, sym, inl, inr, not, ◌&&◌, Option, some, arith,
}
use amit_ai.Common.Texts.{Text}
use amit_ai.Memory.Types.{validation, SlotStatus, Slot, Db, Staged, ok, raise_if}
use amit_ai.Memory.Tables.{get_slot}
use amit_ai.Memory.Stage.{checked_sensitivity, checked_value, validate_memory_content}
use amit_ai.Memory.Stage.{Policy, stage_update, stage_delete, owned_slot, value_or_current}
use amit_ai.Memory.Types.{returned}
use mathlib.Core.Path.{subst}

-- the slot that a staged change is of: the owner's, active, and as the tables have it
abbrev pub IsOwnChange : ℕ → ℕ → Db → Staged → Type 0
IsOwnChange owner i db m =
    (s : Slot) × (get_slot i db ≡ some s)
    × (s.owner ≡ owner)
    × (s.status ≡ SlotStatus.active)
    × (m.memory_id ≡ s.id)
    × (m.owner ≡ s.owner)
    × (m.category ≡ s.category)
    × (m.key ≡ s.key)
    × (m.expected_revision ≡ some s.current_revision)
    × (m.expected_status ≡ some s.status)

owned_slot-ok :
    (owner i : ℕ) (message : String) (db : Db) (s : Slot)
    → owned_slot owner i message db ≡ ok s
    → (get_slot i db ≡ some s) × (s.owner ≡ owner) × (s.status ≡ SlotStatus.active)
unfolding owned_slot
owned_slot-ok owner i message db s e = elim (Option-cases (get_slot i db)) [
  | inl none_there ↦ ground arith
  | inr (t, there) ↦ ground arith
]

-- A deletion is staged only of an active memory of the owner, and expects it as it is.
pub stage_delete-IsOwnChange :
    (owner i : ℕ) (db : Db) (m : Staged) → stage_delete owner i db ≡ ok m → IsOwnChange owner i db m
unfolding stage_delete
stage_delete-IsOwnChange owner i db m e =
    let (s, slot, rest) = returned (owned_slot owner i "Memory is already deleted" db) _ e in
    let (there, own, active) = owned_slot-ok owner i "Memory is already deleted" db s slot in
    (
      s,
      there,
      own,
      active,
      ground arith,
      ground arith,
      ground arith,
      ground arith,
      ground arith,
      ground arith,
    )

-- An update is staged only of an active memory of the owner, and expects it as it is; and it carries
-- a value that the credential policy lets pass, also when only the sensitivity changes.
pub stage_update-IsOwnChange :
    (policy : Policy) (owner i : ℕ) (value sensitivity : Option Text) (db : Db) (m : Staged)
    → stage_update policy owner i value sensitivity db ≡ ok m
    → IsOwnChange owner i db m
      × ((v : Text) × (w : Text) × (m.value ≡ some v)
          × (validate_memory_content policy m.key v ≡ ok w))
unfolding stage_update
stage_update-IsOwnChange policy owner i value sensitivity db m e0 =
    let (_, _, e1) =
      returned
        (raise_if (not (is_some value) && not (is_some sensitivity))
          (validation "Memory update must contain a change"))
        _ e0 in
    let (given, _, e2) = returned (checked_value policy owner value) _ e1 in
    let (wanted, _, e3) = returned (checked_sensitivity policy owner sensitivity) _ e2 in
    let (s, slot, e4) = returned (owned_slot owner i "Deleted memory cannot be updated" db) _ e3 in
    let (v, _, e5) = returned (value_or_current s given db) _ e4 in
    let (w, valid, e6) = returned (validate_memory_content policy s.key v) _ e5 in
    let (there, own, active) = owned_slot-ok owner i "Deleted memory cannot be updated" db s slot in
    (
      (
        s,
        there,
        own,
        active,
        ground arith,
        ground arith,
        ground arith,
        ground arith,
        ground arith,
        ground arith,
      ),
      (
        v,
        w,
        ground arith,
        (let key : m.key ≡ s.key = ground arith in
            subst (λ k. validate_memory_content policy k v ≡ ok w) (sym key) valid),
      ),
    )
