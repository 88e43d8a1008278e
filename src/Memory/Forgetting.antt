-- ===== src/Memory/Forgetting.antt =====
-- A deletion leaves no copy of a value behind, and a change touches no other memory.
use amit_ai.Common.{
  if◌then◌else◌, Bool, false, [], ◌∷◌, ◌==◌, ==_iff, Bool-cases, keep, All, All-append, ℕ, ◌≡◌,
  refl, sym, ap, ◌∙◌, inl, inr, true, not, Option, none, some, List, map, append-nil, arith,
}
use amit_ai.Memory.Types.{
  Operation, is_deleted, Slot, Revision, Db, Staged, Source, References, Reference, entry, opaque,
  null, refs, other,
}
use amit_ai.Memory.Tables.{redact_references, redact_reference}
use amit_ai.Memory.Apply.{apply}
use amit_ai.Memory.Rows.{All-map_of, keep-append, keep-map}
use amit_ai.Memory.Outcome.{
  Leaves, written, rewritten, store_new-Leaves, revise-Leaves, apply-Leaves, apply-eq-revise,
}
use amit_ai.Memory.Consistency.Revise.{
  id-written, memory_id-rewritten, written_other, rewritten_other, erased_target,
}

-- a reference to the memory carries no value
abbrev pub Hides : ℕ → Reference → Type 0
Hides i (entry (some j) value others) = j ≡ i → value ≡ none
Hides i (entry none value others) = Unit
Hides i (opaque t) = Unit

abbrev pub AllHide : ℕ → References → Type 0
AllHide i (refs rs) = All (Hides i) rs
AllHide i null = Unit
AllHide i (other t) = Unit

redact_reference-Hides : (i : ℕ) (r : Reference) → Hides i (redact_reference i r)
redact_reference-Hides i (entry (some j) value others) = elim (Bool-cases (j == i)) [
  | inl e ↦ rw e (λ _. refl)
  | inr ne ↦ rw ne (λ e. ground arith)
]
redact_reference-Hides i (entry none value others) = tt
redact_reference-Hides i (opaque t) = tt

redact_references-AllHide : (i : ℕ) (r : References) → AllHide i (redact_references i r)
redact_references-AllHide i (refs rs) =
    All-map_of (Hides i) (redact_reference i) (redact_reference-Hides i) rs
redact_references-AllHide i null = tt
redact_references-AllHide i (other t) = tt

abbrev pub IsForgotten : ℕ → Db → Type 0
IsForgotten i db =
    All (λ r. r.memory_id ≡ i → r.value ≡ none) db.revisions × All (AllHide i) db.metadata

-- A deletion that goes through erases every value of the memory: no revision of it holds one, and
-- no reference to it in the metadata of a chat does.
pub deletion-IsForgotten :
    (m : Staged) (n : ℕ) (src : Option Source) (now : ℕ) (db : Db)
    → m.operation ≡ Operation.deleted
    → m.expected_revision ≡ some n
    → Leaves (IsForgotten m.memory_id) (apply m src now db)
deletion-IsForgotten m n src now db d e =
    let gone : is_deleted m.operation ≡ true = ap is_deleted d in
    rw (apply-eq-revise m n src now db e) (
      revise-Leaves (IsForgotten m.memory_id) m n src now db λ one fresh. (
        All-append _ (map (rewritten m n) db.revisions) _
            (All-map_of _ (rewritten m n)
              (λ r o. erased_target m n now r gone (sym (memory_id-rewritten m n now r) ∙ o))
              db.revisions)
            ((λ _. rw gone), tt),
        rw gone (
            All-map_of _ (redact_references m.memory_id) (redact_references-AllHide m.memory_id)
              db.metadata),
      ))

-- the rows of the other memories
abbrev pub other_slots : ℕ → Db → List Slot
other_slots i db = keep (λ s. not (s.id == i)) db.slots

abbrev pub other_revisions : ℕ → Db → List Revision
other_revisions i db = keep (λ r. not (r.memory_id == i)) db.revisions

-- what a column of references has of the other memories: each of their entries, and what has no id
abbrev pub is_elsewhere : ℕ → Reference → Bool
is_elsewhere i (entry (some j) value others) = not (j == i)
is_elsewhere i (entry none value others) = true
is_elsewhere i (opaque t) = true

abbrev pub other_references : ℕ → References → References
other_references i null = null
other_references i (refs rs) = refs (keep (is_elsewhere i) rs)
other_references i (other t) = other t

abbrev pub other_metadata : ℕ → Db → List References
other_metadata i db = map (other_references i) db.metadata

redact_reference-elsewhere :
    (i : ℕ) (r : Reference)
    → (is_elsewhere i (redact_reference i r) ≡ is_elsewhere i r)
      × (is_elsewhere i r ≡ true → redact_reference i r ≡ r)
redact_reference-elsewhere i (entry (some j) value others) = elim (Bool-cases (j == i)) [
  | inl same ↦ rw same (rw same refl, λ t. cc)
  | inr differ ↦ rw differ (rw differ refl, λ t. refl)
]
redact_reference-elsewhere i (entry none value others) = (refl, λ t. refl)
redact_reference-elsewhere i (opaque t) = (refl, λ t. refl)

redact_references-others :
    (i : ℕ) (r : References) → other_references i (redact_references i r) ≡ other_references i r
redact_references-others i null = refl
redact_references-others i (refs rs) =
    ap refs (keep-map (is_elsewhere i) (redact_reference i) (redact_reference-elsewhere i) rs)
redact_references-others i (other t) = refl

redact-other_metadata :
    (i : ℕ) (rs : List References)
    → map (other_references i) (map (redact_references i) rs) ≡ map (other_references i) rs
redact-other_metadata i [] = refl
redact-other_metadata i (r ∷ rs) =
    ap (λ x. x ∷ map (other_references i) (map (redact_references i) rs))
      (redact_references-others i r)
    ∙ ap (◌∷◌ (other_references i r)) (redact-other_metadata i rs)

redacted-others :
    (i : ℕ) (b : Bool) (rs : List References)
    → map (other_references i) (if b then map (redact_references i) rs else rs)
      ≡ map (other_references i) rs
redacted-others i true rs = redact-other_metadata i rs
redacted-others i false rs = refl

abbrev SameOthers : ℕ → Db → Db → Type 0
SameOthers i before after =
    (other_slots i after ≡ other_slots i before)
    × (other_revisions i after ≡ other_revisions i before)
    × (other_metadata i after ≡ other_metadata i before)

-- A change that goes through leaves the slots and the revisions of every other memory as they were,
-- and in the metadata of chats the references to every other memory.
pub apply_others :
    (m : Staged) (src : Option Source) (now : ℕ) (db : Db)
    → Leaves
        (λ after.
          (other_slots m.memory_id after ≡ other_slots m.memory_id db)
          × (other_revisions m.memory_id after ≡ other_revisions m.memory_id db)
          × (other_metadata m.memory_id after ≡ other_metadata m.memory_id db))
        (apply m src now db)
apply_others m src now db =
    apply-Leaves _ m src now db
      (λ e. store_new-Leaves (SameOthers m.memory_id db) m src now db λ fresh. (
        keep-append _ db.slots _ ∙ rw (self, append-nil),
        keep-append _ db.revisions _ ∙ rw (self, append-nil),
        refl,
      ))
      (λ n e. revise-Leaves (SameOthers m.memory_id db) m n src now db λ one fresh. (
        keep-map _ (written m n now)
            (λ s. (rw (id-written m n now s), λ t. written_other m n now s (λ q. ground arith)))
            db.slots,
        keep-append _ (map (rewritten m n) db.revisions) _
            ∙ rw (self, append-nil)
                (keep-map _ (rewritten m n)
                  (λ r. (
                    rw (memory_id-rewritten m n now r),
                    λ t. rewritten_other m n now r (λ q. ground arith),
                  ))
                  db.revisions),
        redacted-others m.memory_id (is_deleted m.operation) db.metadata,
      ))
  where
    self : m.memory_id == m.memory_id ≡ true
    self = (==_iff m.memory_id m.memory_id).1 refl
