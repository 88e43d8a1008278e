-- ===== src/Memory/Consistency/StoreNew.antt =====
-- Storing a memory that had no slot keeps the tables consistent.
use amit_ai.Common.{
  ◌==◌, count, All, count-append, All-append, All-weaken, ℕ, ◌≡◌, refl, ◌∙◌, ◌≢◌, true, false,
  Option, [], ◌∷◌, ◌++◌, arith,
}
use amit_ai.Memory.Types.{SlotStatus, RevisionStatus, Slot, Revision, Db, Staged, Source}
use amit_ai.Memory.Tables.{is_row}
use amit_ai.Memory.Apply.{first_slot, first_revision, collides, store_new}
use amit_ai.Memory.Rows.{any-append, count_of_any, All-of_any, All-zip}
use amit_ai.Memory.Outcome.{Leaves, store_new-Leaves}
use amit_ai.Memory.Consistency.{Fits, Distinct-append, is_backing, has_id, IsConsistent}

module _ (slot : Slot) (row : Revision) (db : Db) where
  abbrev with_first : Db
  with_first = record db { slots = db.slots ++ slot ∷ []; revisions = db.revisions ++ row ∷ [] }

  -- no row of a slot that is already there can be the first row of the new slot
  other_id : has_id slot.id db.slots ≡ false → All (λ s. s.id ≢ slot.id) db.slots
  other_id =
      All-of_any (λ (s : Slot). s.id ≢ slot.id) (λ s. s.id == slot.id) (λ s f e. ground arith)
        db.slots

with_first-IsConsistent :
    (slot : Slot) (row : Revision) (db : Db)
    → slot.status ≡ SlotStatus.active
    → row.status ≡ RevisionStatus.active
    → slot.current_revision ≡ 1
    → row.revision ≡ 1
    → row.memory_id ≡ slot.id
    → IsConsistent db
    → collides slot row db ≡ false
    → IsConsistent (with_first slot row db)
unfolding collides
with_first-IsConsistent slot row db sa ra s1 r1 same h fresh = record {
  distinct = Distinct-append db.slots slot h.distinct (ground arith);
  owned =
      All-append (λ (r : Revision). has_id r.memory_id (db.slots ++ slot ∷ []) ≡ true) db.revisions
        _
        (All-weaken (λ r. has_id r.memory_id db.slots ≡ true) _
          (λ r o. rw any-append (ground arith)) db.revisions h.owned)
        (rw any-append (ground arith), tt);
  fits =
      All-append (λ (s : Slot). All (Fits s) (db.revisions ++ row ∷ [])) db.slots _
        (All-weaken (λ (s : Slot). (s.id ≢ slot.id) × All (Fits s) db.revisions) _
          (λ s (ne, fit).
            All-append (Fits s) db.revisions _ fit ((λ e. absurd (ne (e ∙ same))), tt))
          db.slots (All-zip _ _ db.slots (other_id slot row db (ground arith)) h.fits))
        (
          All-append (Fits slot) db.revisions _
              (All-weaken (λ r. has_id r.memory_id db.slots ≡ true) _
                (λ r o e. absurd (no_rows r o e)) db.revisions h.owned)
              ((λ e. ground arith), tt),
          tt,
        );
  backed =
      All-append (λ (s : Slot). count (is_backing s) (db.revisions ++ row ∷ []) ≡ 1) db.slots _
        (All-weaken (λ (s : Slot). (s.id ≢ slot.id) × (count (is_backing s) db.revisions ≡ 1)) _
          (λ s (ne, b). rw count-append (ground arith)) db.slots
          (All-zip _ _ db.slots (other_id slot row db (ground arith)) h.backed))
        (
          rw count-append (
              ground (
                arith,
                count_of_any (is_backing slot) (is_row row.memory_id row.revision)
                    (λ r t. ground arith) db.revisions,
              )),
          tt,
        );
}
  where
    no_rows : (r : Revision) → has_id r.memory_id db.slots ≡ true → slot.id ≢ r.memory_id
    no_rows r o e = ground arith

pub store_new-IsConsistent :
    (m : Staged) (src : Option Source) (now : ℕ) (db : Db)
    → IsConsistent db
    → Leaves IsConsistent (store_new m src now db)
store_new-IsConsistent m src now db h = store_new-Leaves IsConsistent m src now db (
    with_first-IsConsistent (first_slot m now) (first_revision m src now) db refl refl refl refl
      refl h)
