-- ===== src/Memory/Staging.antt =====
-- A staged change fits the tables that it was staged on: applied to them at once, it goes through.
pub mod Commands
pub mod Ownership
use amit_ai.Common.{
  ltb, leb, ◌==◌, if◌then◌else◌, ==_iff, Bool-cases, Option-cases, is_some, length, take, drop, any,
  keep, find, count, All, length-append, length-keep-le, count-append, All-append, All-weaken, ℕ,
  zero, suc, ◌+◌, ◌-◌, ◌*◌, ◌≤◌, ◌<◌, min, String, ◌≡◌, refl, sym, ap, ◌∙◌, fun_ext, ◌≢◌, ◌↔◌, ◌⊎◌,
  inl, inr, Bool, true, false, not, ◌&&◌, ◌||◌, Option, none, some, List, [], ◌∷◌, ◌++◌, map,
  reverse, append-nil, append_assoc, arith, ℕ_discrete, str_eq, str_eq_iff,
}
use amit_ai.Common.Texts.{
  Text, codes, is_space, eqb, starts_with, lstrip, rstrip, strip, is_empty, eqb→eq, eqb_refl, split,
  join,
}
use amit_ai.Memory.Types.{
  SlotStatus, RevisionStatus, Operation, is_active, same_status, is_deleted, Slot, Revision, Db,
  Staged, Source, MemoryRecord, References, Result, ok, err, ◌>>=◌, ◌>>◌, raise_if,
}
use amit_ai.Memory.Tables.{
  has_key, get_slot_by_key, is_row, get_slot, update_where, same_revision_status, redact_references,
  redact_memory_reference_values,
}
use amit_ai.Memory.Apply.{
  first_slot, first_revision, collides, changed_concurrently, memory_record, is_target, write_slot,
  is_live_row, mark_stale, retire, erase_value, forget, next_row, add_revision, store_new, revise,
  apply,
}
use amit_ai.Memory.Rows.{
  any_of_find-none, find_of_any, any_of_find, any_of_All, All-find, count_of_All, All-map_of,
  keep-append, any-append, any-map, any_of_count, any-update_where, count_of_any, count-ext,
  All-of_any, All-map, All-zip, update_where-eq-map, map-id, count-map,
}
use amit_ai.Memory.Outcome.{
  middle-slots, middle-revisions, middle, retire-eq-map, Leaves, Leaves-if, written, retired,
  forgotten, rewritten, revised, stored, store_new-Leaves, revise-Leaves, apply-Leaves,
  apply-eq-store_new, apply-eq-revise,
}
use amit_ai.Memory.Consistency.{
  Fits, Distinct, Distinct-append, is_backing, has_id, IsConsistent, unique_target,
}
use amit_ai.Memory.Consistency.Revise.{id-written, memory_id-rewritten, revision-rewritten}
use amit_ai.Memory.Types.{Sensitivity, remote_allowed, local_only}
use amit_ai.Memory.Stage.{
  Command, Decision, CommandOperation, remember, update, forget as forget_command, staged_for,
  staged_new, stage_on_slot, stage_without_slot, stage_chat_command,
}

abbrev pub Succeeds : Result (MemoryRecord × Db) → Type 0
Succeeds (ok _) = Unit
Succeeds (err _) = ⊥

-- in a table with distinct ids, a test that passes a found row, and only rows of its id, passes once
count_of_find :
    (p q : Slot → Bool) (s : Slot)
    → q s ≡ true
    → ((t : Slot) → q t ≡ true → t.id ≡ s.id)
    → (ss : List Slot) → Distinct ss
    → find p ss ≡ some s
    → count q ss ≡ 1
count_of_find p q s t h [] d e = cc
count_of_find p q s t h (x ∷ xs) d e = elim (Bool-cases (p x)) [
  | inl px ↦
      let same : x ≡ s = ground arith in
      let qx : q x ≡ true = rw same t in
      rw qx (ap suc (count_of_any q (λ y. y.id == x.id) (λ y qy. ground (arith, h y qy)) xs d.0))
  | inr nx ↦
      let later : find p xs ≡ some s = ground arith in
      elim (Bool-cases (q x)) [
        | inl qx ↦ absurd (ground (arith, h x qx, any_of_find p (λ y. y.id == x.id) xs later))
        | inr qx ↦ rw qx (count_of_find p q s t h xs d.1 later)
      ]
]

not_refused :
    (e : Option SlotStatus) (i n : ℕ) (rs : List Revision)
    → (e ≡ some SlotStatus.active → count (is_live_row i n) rs ≡ 1)
    → retire e i n rs ≢ err changed_concurrently
unfolding retire
not_refused none i n rs h = cc
not_refused (some SlotStatus.active) i n rs h = ground (arith, h refl)
not_refused (some SlotStatus.deleted) i n rs h = cc

-- a slot that is found can be read back once its new revision is there
add_revision-Succeeds :
    (m : Staged) (row : Revision) (db : Db)
    → any (is_row row.memory_id row.revision) db.revisions ≡ false
    → any (λ s. s.id == m.memory_id) db.slots ≡ true
    → Succeeds (add_revision m row db)
unfolding add_revision get_slot
add_revision-Succeeds m row db fresh there =
    rw (fresh, (find_of_any (λ s. s.id == m.memory_id) db.slots there).1) tt

revise-Succeeds :
    (m : Staged) (n : ℕ) (src : Option Source) (now : ℕ) (db : Db)
    → count (is_target m n) db.slots ≡ 1
    → (m.expected_status ≡ some SlotStatus.active
        → count (is_live_row m.memory_id n) db.revisions ≡ 1)
    → any (is_row m.memory_id (n + 1)) (map (rewritten m n) db.revisions) ≡ false
    → Succeeds (revise m n src now db)
unfolding revise
revise-Succeeds m n src now db one live fresh =
    elim (retire-eq-map m.expected_status m.memory_id n db.revisions) [
      | inl gone ↦ absurd (not_refused m.expected_status m.memory_id n db.revisions live gone)
      | inr same ↦
          rw (one, same)
            (add_revision-Succeeds m (next_row m src n now) (forget m (middle m n now db))
              (rw (middle-revisions m n now db) fresh) (rw (middle-slots m n now db) there))
    ]
  where
    there : any (λ s. s.id == m.memory_id) (map (written m n now) db.slots) ≡ true
    there =
        any-map (λ s. s.id == m.memory_id) (λ s. s.id == m.memory_id) (written m n now)
          (λ s. rw (id-written m n now s)) db.slots
        ∙ any_of_count (is_target m n) _ (λ s t. ground arith) db.slots one

-- what consistency says of a slot that a query found
module _ (db : Db) (h : IsConsistent db) (p : Slot → Bool) (s : Slot)
    (found : find p db.slots ≡ some s) where
  found_backed : count (is_backing s) db.revisions ≡ 1
  found_backed = (All-find _ p db.slots h.backed found).0

  found-Fits : All (Fits s) db.revisions
  found-Fits = (All-find _ p db.slots h.fits found).0

  live_backing :
      (x : Revision) (i : ℕ)
      → i ≡ s.id
      → s.status ≡ SlotStatus.active
      → is_live_row i s.current_revision x ≡ is_backing s x
  live_backing x i e a = ground arith

  late : (x : Revision) (i : ℕ) → i ≡ s.id → Fits s x → is_row i (s.current_revision + 1) x ≡ false
  late x i e f = elim (Bool-cases (x.memory_id == i)) [
    | inl same ↦ let (before, _, _) = f (ground arith) in ground arith
    | inr other ↦ rw other
  ]

  -- A change staged on a slot that is there goes through.
  pub staged-Succeeds :
      (m : Staged) (src : Option Source) (now : ℕ)
      → m.memory_id ≡ s.id
      → m.owner ≡ s.owner
      → m.expected_revision ≡ some s.current_revision
      → m.expected_status ≡ some s.status
      → Succeeds (apply m src now db)
  staged-Succeeds m src now i o r st = rw (apply-eq-revise m s.current_revision src now db r) (
      revise-Succeeds m s.current_revision src now db
        (count_of_find p (is_target m s.current_revision) s (ground arith) (λ t u. ground arith)
          db.slots h.distinct found)
        (λ a.
          count-ext (is_live_row m.memory_id s.current_revision) (is_backing s)
            (λ x. live_backing x m.memory_id i (cc)) db.revisions
          ∙ found_backed)
        (any-map (is_row m.memory_id (s.current_revision + 1))
            (is_row m.memory_id (s.current_revision + 1)) (rewritten m s.current_revision)
            (λ x. rw (
              memory_id-rewritten m s.current_revision now x,
              revision-rewritten m s.current_revision now x,
            ))
            db.revisions
          ∙ any_of_All (Fits s) _ (λ x f. late x m.memory_id i f) db.revisions found-Fits))

stored-Succeeds :
    (db : Db) (m : Staged) (src : Option Source) (now : ℕ)
    → has_id m.memory_id db.slots ≡ false
    → any (has_key m.owner m.category m.key) db.slots ≡ false
    → any (is_row m.memory_id 1) db.revisions ≡ false
    → Succeeds (store_new m src now db)
unfolding store_new collides
stored-Succeeds db m src now a b c = rw (a, b, c) tt

-- A new memory goes through, if its id is new and no slot has its key.
pub new-Succeeds :
    (db : Db) (m : Staged) (src : Option Source) (now : ℕ)
    → IsConsistent db
    → m.expected_revision ≡ none
    → has_id m.memory_id db.slots ≡ false
    → any (has_key m.owner m.category m.key) db.slots ≡ false
    → Succeeds (apply m src now db)
new-Succeeds db m src now h e fresh unused = rw (apply-eq-store_new m src now db e) (
    stored-Succeeds db m src now fresh unused (
      any_of_All (λ r. has_id r.memory_id db.slots ≡ true) _ (λ r o. ground arith) db.revisions
        h.owned))
