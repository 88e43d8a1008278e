-- ===== src/Memory/Keeps.antt =====
-- The theorems on what `apply` keeps, refuses and forgets.
use amit_ai.Common.{◌==◌, Bool-cases, ℕ, ◌≡◌, ◌∙◌, inl, inr, true, false, Option, none, some, arith}
use amit_ai.Memory.Types.{Slot, Db, Staged, Source, err}
use amit_ai.Memory.Apply.{collides, changed_concurrently, is_target, store_new, revise, apply}
use amit_ai.Memory.Rows.{count_of_All, any-append}
use amit_ai.Memory.Outcome.{
  Leaves, written, revised, stored, store_new-Leaves, revise-Leaves, apply-Leaves,
  apply-eq-store_new, apply-eq-revise,
}
use amit_ai.Memory.Consistency.{IsConsistent, unique_target}
use amit_ai.Memory.Consistency.Revise.{revise-IsConsistent}
use amit_ai.Memory.Consistency.StoreNew.{store_new-IsConsistent}

-- From consistent tables, a change that goes through leaves consistent tables: ids are distinct, a
-- revision belongs to a slot and is no later than the current one, only the current revision of an
-- active slot is active, exactly one row backs each slot, and a deleted slot has no value left.
pub apply-IsConsistent :
    (m : Staged) (src : Option Source) (now : ℕ) (db : Db)
    → IsConsistent db
    → Leaves IsConsistent (apply m src now db)
apply-IsConsistent m src now db h =
    apply-Leaves IsConsistent m src now db (λ e. store_new-IsConsistent m src now db h)
      (λ n e. revise-IsConsistent m n src now db h)

-- ### lost updates

module _ (m m' : Staged) (src src' : Option Source) (now now' : ℕ) (db : Db)
    (same : m'.memory_id ≡ m.memory_id)
    (expected : m'.expected_revision ≡ m.expected_revision) where
  refused_new : store_new m' src' now' (stored m src now db) ≡ err changed_concurrently
  unfolding store_new collides
  refused_new = rw any-append (ground arith)

  conflict_new :
      m.expected_revision ≡ none
      → Leaves
          (λ after. apply m' src' now' after ≡ err changed_concurrently)
          (store_new m src now db)
  conflict_new e =
      store_new-Leaves _ m src now db
        λ fresh. apply-eq-store_new m' src' now' (stored m src now db) (expected ∙ e) ∙ refused_new

  -- no slot of the memory is at the expected revision any more
  passed_on :
      (n : ℕ) (s : Slot)
      → (s.id ≡ m.memory_id → is_target m n s ≡ true)
      → is_target m' n (written m n now s) ≡ false
  unfolding written
  passed_on n s only = elim (Bool-cases (s.id == m.memory_id)) [
    | inl e ↦ ground (arith, only (ground arith))
    | inr ne ↦ ground arith
  ]

  conflict_revise :
      IsConsistent db
      → (n : ℕ) → m.expected_revision ≡ some n
      → Leaves
          (λ after. apply m' src' now' after ≡ err changed_concurrently)
          (revise m n src now db)
  unfolding revise
  conflict_revise h n e = revise-Leaves _ m n src now db λ one fresh.
      apply-eq-revise m' n src' now' (revised m src n now db) (expected ∙ e)
      ∙ rw (
          count_of_All (λ s. s.id ≡ m.memory_id → is_target m n s ≡ true) (is_target m' n)
            (written m n now) (passed_on n) db.slots (unique_target m n db.slots h.distinct one))

  -- Of two changes staged at the same revision of the same memory, or both staged when it had no
  -- slot, only one goes through: on consistent tables, once the first has gone through the second
  -- is refused as a concurrent change.
  pub no_lost_update :
      IsConsistent db
      → Leaves (λ after. apply m' src' now' after ≡ err changed_concurrently) (apply m src now db)
  no_lost_update h =
      apply-Leaves _ m src now db (λ e. conflict_new e) (λ n e. conflict_revise h n e)
