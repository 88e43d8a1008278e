-- ===== src/Memory/Outcome.antt =====
-- What `apply` leaves when it goes through: each of its statements is a map over the rows, and one row
-- is added at the end.
use mathlib.Core.List.{map-map}
use amit_ai.Common.{
  ◌==◌, if◌then◌else◌, Bool-cases, any, count, ℕ, ◌+◌, ◌≡◌, refl, sym, ap, ◌∙◌, ◌⊎◌, inl, inr, Bool,
  true, false, Option, none, some, List, [], ◌∷◌, ◌++◌, map, arith,
}
use amit_ai.Memory.Types.{
  SlotStatus, is_deleted, Slot, Revision, Db, Staged, Source, MemoryRecord, References, Result, ok,
  err,
}
use amit_ai.Memory.Tables.{
  is_row, get_slot, update_where, redact_references, redact_memory_reference_values,
}
use amit_ai.Memory.Apply.{
  apply_expecting, first_slot, first_revision, collides, changed_concurrently, memory_record,
  is_target, write_slot, is_live_row, mark_stale, retire, erase_value, forget, next_row,
  add_revision, store_new, revise, apply,
}
use amit_ai.Memory.Rows.{update_where-eq-map, map-id}

-- what holds of the tables that a change leaves, if it goes through
abbrev pub Leaves : (Db → Type 0) → Result (MemoryRecord × Db) → Type 0
Leaves P (ok (_, db)) = P db
Leaves P (err _) = Unit

pub Leaves-if :
    (P : Db → Type 0) (b : Bool) (x y : Result (MemoryRecord × Db))
    → Leaves P x
    → (b ≡ false → Leaves P y)
    → Leaves P (if b then x else y)
Leaves-if P true x y h k = h
Leaves-if P false x y h k = k refl

-- the tables after a memory that had no slot is stored
abbrev pub stored : Staged → Option Source → ℕ → Db → Db
stored m src now db = record db {
  slots = db.slots ++ first_slot m now ∷ [];
  revisions = db.revisions ++ first_revision m src now ∷ [];
}

pub store_new-Leaves :
    (P : Db → Type 0) (m : Staged) (src : Option Source) (now : ℕ) (db : Db)
    → (collides (first_slot m now) (first_revision m src now) db ≡ false → P (stored m src now db))
    → Leaves P (store_new m src now db)
unfolding store_new
store_new-Leaves P m src now db h =
    Leaves-if P (collides (first_slot m now) (first_revision m src now) db) _ _ tt h

-- what the statements of `revise` do to one slot and to one revision
unfoldable pub written : Staged → ℕ → ℕ → Slot → Slot
written m n now s = if is_target m n s then write_slot m n now s else s

unfoldable pub retired : Option SlotStatus → ℕ → ℕ → Revision → Revision
retired (some SlotStatus.active) i n r = if is_live_row i n r then mark_stale r else r
retired _ i n r = r

unfoldable pub forgotten : Bool → ℕ → Revision → Revision
forgotten true i r = if r.memory_id == i then erase_value r else r
forgotten false i r = r

abbrev pub rewritten : Staged → ℕ → Revision → Revision
rewritten m n r =
    forgotten (is_deleted m.operation) m.memory_id (retired m.expected_status m.memory_id n r)

-- the metadata, from which a forgetting takes the values of the memory
abbrev pub redacted : Staged → List References → List References
redacted m refs = if is_deleted m.operation then map (redact_references m.memory_id) refs else refs

-- the tables once all statements have run
abbrev pub revised : Staged → Option Source → ℕ → ℕ → Db → Db
revised m src n now db = record {
  slots = map (written m n now) db.slots;
  revisions = map (rewritten m n) db.revisions ++ next_row m src n now ∷ [];
  metadata = redacted m db.metadata;
}

pub retire-eq-map :
    (e : Option SlotStatus) (i n : ℕ) (rs : List Revision)
    → (retire e i n rs ≡ err changed_concurrently) ⊎ (retire e i n rs ≡ ok (map (retired e i n) rs))
unfolding retire retired
retire-eq-map none i n rs = inr (ap ok (sym (map-id _ (λ r. refl) rs)))
retire-eq-map (some SlotStatus.active) i n rs =
    elim (Bool-cases (count (is_live_row i n) rs == 1)) [
      | inl one ↦ inr (rw one (ap ok (update_where-eq-map (is_live_row i n) mark_stale rs)))
      | inr many ↦ inl (rw many)
    ]
retire-eq-map (some SlotStatus.deleted) i n rs = inr (ap ok (sym (map-id _ (λ r. refl) rs)))

-- the UPDATE of a forgetting, and no statement otherwise
forget-eq-map :
    (i : ℕ) (d : Bool) (rs : List Revision)
    → (if d then update_where (λ r. r.memory_id == i) erase_value rs else rs)
      ≡ map (forgotten d i) rs
unfolding forgotten
forget-eq-map i true rs = update_where-eq-map (λ (r : Revision). r.memory_id == i) erase_value rs
forget-eq-map i false rs = sym (map-id _ (λ r. refl) rs)

add_revision-Leaves :
    (P : Db → Type 0) (m : Staged) (row : Revision) (db : Db)
    → (any (is_row row.memory_id row.revision) db.revisions ≡ false
        → P (record db { revisions = db.revisions ++ row ∷ [] }))
    → Leaves P (add_revision m row db)
unfolding add_revision
add_revision-Leaves P m row db h =
    Leaves-if P (any (is_row row.memory_id row.revision) db.revisions) _ _ tt λ fresh.
      found (get_slot m.memory_id (record db { revisions = db.revisions ++ row ∷ [] })) (h fresh)
  where
    found :
        (o : Option Slot)
        → P (record db { revisions = db.revisions ++ row ∷ [] })
        → Leaves P (elim o [
          | none ↦ err changed_concurrently
          | some s ↦
              ok (
                memory_record s row m.operation,
                record db { revisions = db.revisions ++ row ∷ [] },
              )
        ])
    found none p = tt
    found (some s) p = p

-- the tables when the new revision is about to be added
forget-revisions :
    (m : Staged) (db : Db)
    → (forget m db).revisions ≡ map (forgotten (is_deleted m.operation) m.memory_id) db.revisions
unfolding forget redact_memory_reference_values
forget-revisions m db =
    ground (arith, forget-eq-map m.memory_id (is_deleted m.operation) db.revisions)

forget-slots : (m : Staged) (db : Db) → (forget m db).slots ≡ db.slots
unfolding forget redact_memory_reference_values
forget-slots m db = ground arith

module _ (m : Staged) (n now : ℕ) (db : Db) where
  -- the tables when the new revision is about to be added
  abbrev pub middle : Db
  middle = record db {
    slots = update_where (is_target m n) (write_slot m n now) db.slots;
    revisions = map (retired m.expected_status m.memory_id n) db.revisions;
  }

  pub middle-slots : (forget m middle).slots ≡ map (written m n now) db.slots
  unfolding written
  middle-slots =
      forget-slots m middle ∙ update_where-eq-map (is_target m n) (write_slot m n now) db.slots

  pub middle-revisions : (forget m middle).revisions ≡ map (rewritten m n) db.revisions
  middle-revisions =
      forget-revisions m middle
      ∙ map-map (forgotten (is_deleted m.operation) m.memory_id)
          (retired m.expected_status m.memory_id n) db.revisions

  middle-metadata : (forget m middle).metadata ≡ redacted m db.metadata
  unfolding forget redact_memory_reference_values
  middle-metadata = ground arith

pub revise-Leaves :
    (P : Db → Type 0) (m : Staged) (n : ℕ) (src : Option Source) (now : ℕ) (db : Db)
    → (count (is_target m n) db.slots ≡ 1
        → any (is_row m.memory_id (n + 1)) (map (rewritten m n) db.revisions) ≡ false
        → P (revised m src n now db))
    → Leaves P (revise m n src now db)
unfolding revise
revise-Leaves P m n src now db h = elim (Bool-cases (count (is_target m n) db.slots == 1)) [
  | inr many ↦ rw many tt
  | inl one ↦ elim (retire-eq-map m.expected_status m.memory_id n db.revisions) [
    | inl gone ↦ rw (one, gone) tt
    | inr same ↦
        rw (one, same)
          (add_revision-Leaves P m (next_row m src n now) (forget m (middle m n now db)) λ fresh.
            rw (middle-slots m n now db, middle-revisions m n now db, middle-metadata m n now db)
              (h (ground arith) (rw middle-revisions at fresh)))
  ]
]

pub apply-Leaves :
    (P : Db → Type 0) (m : Staged) (src : Option Source) (now : ℕ) (db : Db)
    → (m.expected_revision ≡ none → Leaves P (store_new m src now db))
    → ((n : ℕ) → m.expected_revision ≡ some n → Leaves P (revise m n src now db))
    → Leaves P (apply m src now db)
unfolding apply
apply-Leaves P m src now db h k = go m.expected_revision refl
  where
    go : (e : Option ℕ) → m.expected_revision ≡ e → Leaves P (apply_expecting e m src now db)
    go none p = h p
    go (some n) p = k n p

pub apply-eq-store_new :
    (m : Staged) (src : Option Source) (now : ℕ) (db : Db)
    → m.expected_revision ≡ none
    → apply m src now db ≡ store_new m src now db
unfolding apply
apply-eq-store_new m src now db e = ap (λ o. apply_expecting o m src now db) e

pub apply-eq-revise :
    (m : Staged) (n : ℕ) (src : Option Source) (now : ℕ) (db : Db)
    → m.expected_revision ≡ some n
    → apply m src now db ≡ revise m n src now db
unfolding apply
apply-eq-revise m n src now db e = ap (λ o. apply_expecting o m src now db) e
