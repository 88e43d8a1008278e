-- ===== src/Memory/Retrieve/Shown.antt =====
-- What a retrieval returns.
use mathlib.Core.List.{Mem, mem-cons_self, mem-cons_of_mem}
use amit_ai.Common.{
  Option, ap, ◌∙◌, is_nil, ltb, ◌==◌, if◌then◌else◌, Bool-cases, Option-cases, is_some, any, All,
  All-append, All-weaken, ℕ, ◌+◌, ◌≡◌, refl, inl, inr, Bool, true, false, ◌&&◌, none, some, List,
  [], ◌∷◌, arith,
}
use amit_ai.Common.Texts.{Text}
use amit_ai.Memory.Types.{
  SlotStatus, same_status, RevisionStatus, Slot, Revision, Db, MemoryRecord, Operation,
}
use amit_ai.Memory.Tables.{
  is_row, same_revision_status, join_slot, join_slots, insert_by, sort_by, list_current,
}
use amit_ai.Memory.Apply.{shown, memory_record}
use amit_ai.Memory.Stage.{Policy}
use amit_ai.Memory.Retrieve.{
  Ranked, max_retrieved_memories, max_memory_context_chars, tokens, rank_one, rank, select,
  retrieve, ranks_before,
}

-- a row of the join: an active slot of the owner, with its current revision, which is active
pub record IsCurrent (owner : ℕ) (slots : List Slot) (revisions : List Revision) (s : Slot)
    (v : Revision) : Type 0 where
  pub in_slots : Mem s slots
  pub in_revisions : Mem v revisions
  pub is_owned : s.owner ≡ owner
  pub is_active : s.status ≡ SlotStatus.active
  pub belongs : v.memory_id ≡ s.id
  pub is_latest : v.revision ≡ s.current_revision
  pub is_live : v.status ≡ RevisionStatus.active

-- A record of such a row that is not excluded, with the slot's key and sensitivity and with the value
-- of the revision.
pub record IsShown (owner : ℕ) (excluded : List ℕ) (db : Db) (r : MemoryRecord) : Type 0 where
  pub slot : Slot
  pub revision : Revision
  pub current : IsCurrent owner db.slots db.revisions slot revision
  pub same_id : r.id ≡ slot.id
  pub same_key : r.key ≡ slot.key
  pub same_sensitivity : r.sensitivity ≡ slot.sensitivity
  pub same_value : r.value ≡ revision.value
  pub has_value : is_some r.value ≡ true
  pub not_excluded : any (λ i. i == r.id) excluded ≡ false

module _ {ℓ κ} {A : Type ℓ} (P : A → Type κ) (before : A → A → Bool) where
  All-insert_by : (x : A) (ys : List A) → P x → All P ys → All P (insert_by before x ys)
  unfolding insert_by
  All-insert_by x [] px h = (px, tt)
  All-insert_by x (y ∷ ys) px (py, h) = elim (Bool-cases (before x y)) [
    | inl t ↦ rw t (px, (py, h))
    | inr f ↦ rw f (py, All-insert_by x ys px h)
  ]

  All-sort_by : (xs : List A) → All P xs → All P (sort_by before xs)
  unfolding sort_by
  All-sort_by [] h = tt
  All-sort_by (x ∷ xs) (px, h) = All-insert_by x (sort_by before xs) px (All-sort_by xs h)

abbrev Current : ℕ → List Slot → List Revision → Slot × Revision → Type 0
Current owner ss rs (s, v) = IsCurrent owner ss rs s v

later_revision :
    (owner : ℕ) (ss : List Slot) (r : Revision) (rs : List Revision) (row : Slot × Revision)
    → Current owner ss rs row
    → Current owner ss (r ∷ rs) row
later_revision owner ss r rs (s, v) c = record {
  in_slots = c.in_slots;
  in_revisions = mem-cons_of_mem r c.in_revisions;
  is_owned = c.is_owned;
  is_active = c.is_active;
  belongs = c.belongs;
  is_latest = c.is_latest;
  is_live = c.is_live;
}

later_slot :
    (owner : ℕ) (s : Slot) (ss : List Slot) (rs : List Revision) (row : Slot × Revision)
    → Current owner ss rs row
    → Current owner (s ∷ ss) rs row
later_slot owner s ss rs (t, v) c = record {
  in_slots = mem-cons_of_mem s c.in_slots;
  in_revisions = c.in_revisions;
  is_owned = c.is_owned;
  is_active = c.is_active;
  belongs = c.belongs;
  is_latest = c.is_latest;
  is_live = c.is_live;
}

active_revision :
    (status : RevisionStatus)
    → same_revision_status SlotStatus.active status ≡ true
    → status ≡ RevisionStatus.active
active_revision RevisionStatus.active h = refl
active_revision RevisionStatus.stale h = cc
active_revision RevisionStatus.deleted h = cc

active_slot :
    (status : SlotStatus) → same_status status SlotStatus.active ≡ true → status ≡ SlotStatus.active
active_slot SlotStatus.active h = refl
active_slot SlotStatus.deleted h = cc

join_slot-Current :
    (owner : ℕ) (s : Slot) (ss : List Slot) (rs : List Revision)
    → Mem s ss
    → s.owner ≡ owner
    → s.status ≡ SlotStatus.active
    → All (Current owner ss rs) (join_slot SlotStatus.active s rs)
join_slot-Current owner s ss [] there own act = tt
join_slot-Current owner s ss (r ∷ rs) there own act =
    let later =
      All-weaken (Current owner ss rs) (Current owner ss (r ∷ rs)) (later_revision owner ss r rs)
        (join_slot SlotStatus.active s rs) (join_slot-Current owner s ss rs there own act) in
    elim (Bool-cases
      (is_row s.id s.current_revision r && same_revision_status SlotStatus.active r.status)) [
        | inl t ↦
            let current : IsCurrent owner ss (r ∷ rs) s r = record {
              in_slots = there;
              in_revisions = mem-cons_self;
              is_owned = own;
              is_active = act;
              belongs = ground (arith, t);
              is_latest = ground (arith, t);
              is_live = active_revision r.status (ground (arith, t));
            } in
            rw t (current, later)
        | inr f ↦ rw f later
      ]

join_slots-Current :
    (owner : ℕ) (rs : List Revision) (ss : List Slot)
    → All (Current owner ss rs) (join_slots owner SlotStatus.active none rs ss)
unfolding join_slots
join_slots-Current owner rs [] = tt
join_slots-Current owner rs (s ∷ ss) =
    let later =
      All-weaken (Current owner ss rs) (Current owner (s ∷ ss) rs) (later_slot owner s ss rs)
        (join_slots owner SlotStatus.active none rs ss) (join_slots-Current owner rs ss) in
    elim (Bool-cases (s.owner == owner && same_status s.status SlotStatus.active && true)) [
      | inl t ↦ rw t (
          All-append (Current owner (s ∷ ss) rs) (join_slot SlotStatus.active s rs) _
            (join_slot-Current owner s (s ∷ ss) rs mem-cons_self (ground (arith, t))
              (active_slot s.status (ground (arith, t))))
            later)
      | inr f ↦ rw f later
    ]

rank_one-value :
    (policy : Policy) (query : Text) (s : Slot) (r : Revision) (n : ℕ)
    → rank_one policy query s r ≡ some n
    → is_some r.value ≡ true
unfolding rank_one
rank_one-value policy query s r n e = ground arith

All-if {ℓ} :
    {A : Type ℓ} (P : A → Type 0) (b : Bool) (xs ys : List A)
    → All P xs
    → All P ys
    → All P (if b then xs else ys)
All-if P true xs ys h k = h
All-if P false xs ys h k = k

rank-All :
    (policy : Policy) (P : Slot × Revision → Type 0) (query : Text) (excluded : List ℕ)
    (rows : List (Slot × Revision))
    → All P rows
    → All
        (λ k.
          P (k.slot, k.revision)
          × (any (λ i. i == k.slot.id) excluded ≡ false)
          × (is_some k.revision.value ≡ true))
        (rank policy query excluded rows)
unfolding rank
rank-All policy P query excluded [] h = tt
rank-All policy P query excluded ((s, r) ∷ rows) (p, h) =
    let rest = rank-All policy P query excluded rows h in
    elim (Bool-cases (any (λ i. i == s.id) excluded)) [
      | inl t ↦ rw t rest
      | inr f ↦ elim (Option-cases (rank_one policy query s r)) [
        | inl e ↦ rw (f, e) rest
        | inr (n, e) ↦ rw (f, e) ((p, f, rank_one-value policy query s r n e), rest)
      ]
    ]

select-All :
    (size : MemoryRecord → ℕ) (P : Ranked → Type 0) (Q : MemoryRecord → Type 0)
    → ((k : Ranked) → P k → Q (memory_record k.slot k.revision Operation.retrieved))
    → (n chars : ℕ) (ranked : List Ranked) → All P ranked
    → All Q (select size n chars ranked)
unfolding select
select-All size P Q f n chars [] h = tt
select-All size P Q f n chars (k ∷ ranked) (p, h) =
    let found = f k p in
    let skip = select-All size P Q f n chars ranked h in
    let more =
      select-All size P Q f (n + 1)
        (chars + size (memory_record k.slot k.revision Operation.retrieved)) ranked h in
    All-if Q
      (ltb 0 n
        && ltb max_memory_context_chars
            (chars + size (memory_record k.slot k.revision Operation.retrieved)))
      _ _ skip
      (All-if Q
        (ltb max_memory_context_chars (size (memory_record k.slot k.revision Operation.retrieved)))
        _ _ skip (All-if Q (n + 1 == max_retrieved_memories) _ _ (found, tt) (found, more)))

shown_active :
    (status : SlotStatus) (value : Option Text)
    → status ≡ SlotStatus.active
    → shown status value ≡ value
shown_active SlotStatus.active value h = refl
shown_active SlotStatus.deleted value h = cc

IsShown-record :
    (owner : ℕ) (excluded : List ℕ) (db : Db) (k : Ranked)
    → IsCurrent owner db.slots db.revisions k.slot k.revision
    → any (λ i. i == k.slot.id) excluded ≡ false
    → is_some k.revision.value ≡ true
    → IsShown owner excluded db (memory_record k.slot k.revision Operation.retrieved)
unfolding memory_record
IsShown-record owner excluded db k current kept valued =
    let same = shown_active k.slot.status k.revision.value current.is_active in
    record {
      slot = k.slot;
      revision = k.revision;
      current = current;
      same_id = refl;
      same_key = refl;
      same_sensitivity = refl;
      same_value = same;
      has_value = ap is_some same ∙ valued;
      not_excluded = kept;
    }

-- Every record that a retrieval returns is of an active memory of the owner that was not excluded,
-- with the value of the memory's current revision.
pub retrieve-IsShown :
    (policy : Policy) (size : MemoryRecord → ℕ) (owner : ℕ) (query : Text) (excluded : List ℕ)
    (db : Db)
    → All (IsShown owner excluded db) (retrieve policy size owner query excluded db)
unfolding retrieve list_current
retrieve-IsShown policy size owner query excluded db =
    All-if (IsShown owner excluded db) (is_nil (tokens policy query)) [] _ tt (
      select-All size _ (IsShown owner excluded db) shows 0 0 _ (
        All-sort_by _ ranks_before _ (
          rank-All policy (Current owner db.slots db.revisions) query excluded _
            (All-sort_by _ _ _ (join_slots-Current owner db.revisions db.slots)))))
  where
    shows :
        (k : Ranked)
        → IsCurrent owner db.slots db.revisions k.slot k.revision
          × (any (λ i. i == k.slot.id) excluded ≡ false)
          × (is_some k.revision.value ≡ true)
        → IsShown owner excluded db (memory_record k.slot k.revision Operation.retrieved)
    shows k (current, kept, valued) = IsShown-record owner excluded db k current kept valued
