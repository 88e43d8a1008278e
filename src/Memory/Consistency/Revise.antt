-- ===== src/Memory/Consistency/Revise.antt =====
-- Changing or deleting a memory that has a slot keeps the tables consistent: each statement is a map
-- over the rows, and a slot still fits each of its revisions after all of them.
use amit_ai.Common.{
  ◌==◌, Bool-cases, any, count, All, count-append, All-append, ℕ, ◌+◌, ◌≤◌, ◌≡◌, sym, ◌∙◌, ◌≢◌, inl,
  inr, true, false, Option, none, List, [], ◌∷◌, ◌++◌, map, arith,
}
use amit_ai.Memory.Types.{
  SlotStatus, RevisionStatus, is_deleted, Slot, Revision, Db, Staged, Source,
}
use amit_ai.Memory.Tables.{is_row}
use amit_ai.Memory.Apply.{is_target, write_slot, next_row, revise}
use amit_ai.Memory.Rows.{any-map, any_of_count, count_of_any, All-map, All-zip, count-map}
use amit_ai.Memory.Outcome.{Leaves, written, retired, forgotten, rewritten, revised, revise-Leaves}
use amit_ai.Memory.Consistency.{Fits, Distinct, is_backing, has_id, IsConsistent, unique_target}

module _ (m : Staged) (n now : ℕ) where
  pub id-written : (s : Slot) → (written m n now s).id ≡ s.id
  unfolding written
  id-written s = ground arith

  pub memory_id-rewritten : (r : Revision) → (rewritten m n r).memory_id ≡ r.memory_id
  unfolding retired forgotten
  memory_id-rewritten r = ground arith

  pub revision-rewritten : (r : Revision) → (rewritten m n r).revision ≡ r.revision
  unfolding retired forgotten
  revision-rewritten r = ground arith

  -- a revision that is still active was active, and was not retired
  active-rewritten :
      (r : Revision)
      → (rewritten m n r).status ≡ RevisionStatus.active
      → (r.status ≡ RevisionStatus.active) × (retired m.expected_status m.memory_id n r ≡ r)
  unfolding retired forgotten
  active-rewritten r h = ground arith

  pub written_other : (s : Slot) → s.id ≢ m.memory_id → written m n now s ≡ s
  unfolding written
  written_other s h = ground arith

  pub rewritten_other : (r : Revision) → r.memory_id ≢ m.memory_id → rewritten m n r ≡ r
  unfolding retired forgotten
  rewritten_other r h = ground arith

  pub written_target :
      (s : Slot) → is_target m n s ≡ true → written m n now s ≡ write_slot m n now s
  unfolding written
  written_target s h = rw h

  -- a revision of the changed slot is no longer active, since the active one was retired
  retired_target :
      (s : Slot) (r : Revision)
      → is_target m n s ≡ true
      → s.id ≡ r.memory_id
      → (s.status ≡ SlotStatus.active) × (r.revision ≡ s.current_revision)
      → r.status ≡ RevisionStatus.active
      → retired m.expected_status m.memory_id n r ≢ r
  unfolding retired
  retired_target s r t e c a q = ground arith

  pub erased_target :
      (r : Revision)
      → is_deleted m.operation ≡ true
      → r.memory_id ≡ m.memory_id
      → (rewritten m n r).value ≡ none
  unfolding retired forgotten
  erased_target r d e = ground arith

  backing_same :
      (s : Slot)
      → s.id ≢ m.memory_id
      → (r : Revision) → is_backing s (rewritten m n r) ≡ is_backing s r
  backing_same s ne r = elim (Bool-cases (r.memory_id == m.memory_id)) [
    | inl same ↦ ground (arith, memory_id-rewritten r)
    | inr other ↦ rw (rewritten_other r (λ q. ground arith))
  ]

  Fits-step :
      (s : Slot) (r : Revision)
      → (s.id ≡ m.memory_id → is_target m n s ≡ true)
      → Fits s r
      → Fits (written m n now s) (rewritten m n r)
  Fits-step s r only fit e =
      let e' : s.id ≡ r.memory_id = cc (e, id-written s, memory_id-rewritten r) in
      elim (Bool-cases (s.id == m.memory_id)) [
        | inl same ↦ fits_target s r (only (ground arith)) e' (fit e')
        | inr ne ↦
            rw (written_other s (λ q. ground arith), rewritten_other r (λ q. ground arith)) (fit e')
      ]
    where
      fits_target :
          (s : Slot) (r : Revision)
          → is_target m n s ≡ true
          → s.id ≡ r.memory_id
          → (r.revision ≤ s.current_revision)
            × (r.status ≡ RevisionStatus.active
                → (s.status ≡ SlotStatus.active) × (r.revision ≡ s.current_revision))
            × (s.status ≡ SlotStatus.deleted → r.value ≡ none)
          → ((rewritten m n r).revision ≤ (written m n now s).current_revision)
            × ((rewritten m n r).status ≡ RevisionStatus.active
                → ((written m n now s).status ≡ SlotStatus.active)
                  × ((rewritten m n r).revision ≡ (written m n now s).current_revision))
            × ((written m n now s).status ≡ SlotStatus.deleted → (rewritten m n r).value ≡ none)
      fits_target s r t e (late, act, gone) = (
        rw (written_target s t, revision-rewritten r) (ground arith),
        λ a. absurd (
            retired_target s r t e (act (active-rewritten r a).0) (active-rewritten r a).0
              (active-rewritten r a).1),
        λ d. erased_target r (ground (arith, written_target s t)) (ground arith),
      )

module _ (m : Staged) (src : Option Source) (n now : ℕ) where
  Distinct-written : (ss : List Slot) → Distinct ss → Distinct (map (written m n now) ss)
  Distinct-written [] d = tt
  Distinct-written (s ∷ ss) d = (
    any-map (λ t. t.id == (written m n now s).id) (λ t. t.id == s.id) (written m n now)
          (λ t. rw (id-written m n now t, id-written m n now s)) ss
        ∙ d.0,
    Distinct-written ss d.1,
  )

  has_id-written : (i : ℕ) (ss : List Slot) → has_id i (map (written m n now) ss) ≡ has_id i ss
  has_id-written i =
      any-map (λ s. s.id == i) (λ s. s.id == i) (written m n now) (λ s. rw (id-written m n now s))

  row-Fits :
      (s : Slot)
      → (s.id ≡ m.memory_id → is_target m n s ≡ true)
      → Fits (written m n now s) (next_row m src n now)
  row-Fits s only e =
      let w = written_target m n now s (only (sym (id-written m n now s) ∙ e)) in
      rw w (omega arith, λ a. ground arith, λ d. ground arith)

  module _ (db : Db) (h : IsConsistent db) (one : count (is_target m n) db.slots ≡ 1)
      (fresh : any (is_row m.memory_id (n + 1)) (map (rewritten m n) db.revisions) ≡ false) where
    backing_step :
        (s : Slot)
        → (s.id ≡ m.memory_id → is_target m n s ≡ true)
        → count (is_backing s) db.revisions ≡ 1
        → count
            (is_backing (written m n now s))
            (map (rewritten m n) db.revisions ++ next_row m src n now ∷ [])
          ≡ 1
    backing_step s only b = elim (Bool-cases (s.id == m.memory_id)) [
      | inl same ↦
          rw (count-append, written_target m n now s (only (ground arith)))
            (ground (
              arith,
              count_of_any (is_backing (write_slot m n now s)) (is_row m.memory_id (n + 1))
                  (λ r t. ground arith) (map (rewritten m n) db.revisions),
              only,
            ))
      | inr ne ↦
          rw (count-append, written_other m n now s (λ q. ground arith))
            (ground (
              arith,
              count-map (is_backing s) (is_backing s) (rewritten m n)
                  (backing_same m n now s (λ q. ground arith)) db.revisions,
            ))
    ]

    revised-IsConsistent : IsConsistent (revised m src n now db)
    revised-IsConsistent =
        let only = unique_target m n db.slots h.distinct one in
        record {
          distinct = Distinct-written db.slots h.distinct;
          owned =
              All-append
                (λ (r : Revision). has_id r.memory_id (map (written m n now) db.slots) ≡ true)
                (map (rewritten m n) db.revisions) _
                (All-map _ (rewritten m n)
                  (λ r o. rw (has_id-written, memory_id-rewritten m n now r) o) db.revisions
                  h.owned)
                (
                  rw has_id-written
                      (any_of_count (is_target m n) _ (λ s t. ground arith) db.slots one),
                  tt,
                );
          fits =
              All-map
                (λ (s : Slot).
                  All (Fits s) (map (rewritten m n) db.revisions ++ next_row m src n now ∷ []))
                (written m n now)
                (λ s (o, fit).
                  All-append (Fits (written m n now s)) (map (rewritten m n) db.revisions) _
                    (All-map _ (rewritten m n) (λ r f. Fits-step m n now s r o f) db.revisions fit)
                    (row-Fits s o, tt))
                db.slots (All-zip _ _ db.slots only h.fits);
          backed =
              All-map _ (written m n now) (λ s (o, b). backing_step s o b) db.slots
                (All-zip _ _ db.slots only h.backed);
        }

pub revise-IsConsistent :
    (m : Staged) (n : ℕ) (src : Option Source) (now : ℕ) (db : Db)
    → IsConsistent db
    → Leaves IsConsistent (revise m n src now db)
revise-IsConsistent m n src now db h =
    revise-Leaves IsConsistent m n src now db (revised-IsConsistent m src n now db h)
