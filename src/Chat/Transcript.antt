-- ===== src/Chat/Transcript.antt =====
-- backend/chat_service.py, backend/repositories.py: the rows of a conversation as its transcript.
use amit_ai.Common.{
  Bool-cases, keep, All, All-weaken, ℕ, ◌≤◌, ◌<◌, ◌≡◌, refl, ap, ◌∙◌, inl, inr, Bool, true, List,
  [], ◌∷◌, ◌++◌, arith,
}
use amit_ai.Chat.Rows.{Message, stands_before, insert, sort}
use amit_ai.Chat.Persist.{latest}

pub keep-append :
    {A : Type 0} (p : A → Bool) (xs ys : List A) → keep p (xs ++ ys) ≡ keep p xs ++ keep p ys
keep-append p [] ys = refl
keep-append p (x ∷ xs) ys = elim (Bool-cases (p x)) [
  | inl yes_p ↦ rw (yes_p, keep-append p xs ys) refl
  | inr no_p ↦ rw (no_p, keep-append p xs ys) refl
]

insert-append :
    (m : Message) (ms : List Message) (n : Message)
    → m.created_at < n.created_at
    → insert m (ms ++ (n ∷ [])) ≡ insert m ms ++ (n ∷ [])
unfolding insert
insert-append m [] n earlier =
    let first : stands_before m n ≡ true = ground (arith, earlier) in rw first refl
insert-append m (k ∷ ms) n earlier = elim (Bool-cases (stands_before m k)) [
  | inl first ↦ rw first refl
  | inr later ↦ rw (later, insert-append m ms n earlier) refl
]

-- A row that is later than all others is listed last.
pub sort-append :
    (ms : List Message) (n : Message)
    → All (λ m. m.created_at < n.created_at) ms
    → sort (ms ++ (n ∷ [])) ≡ sort ms ++ (n ∷ [])
unfolding sort insert
sort-append [] n h = refl
sort-append (m ∷ ms) n (earlier, h) =
    ap (insert m) (sort-append ms n h) ∙ insert-append m (sort ms) n earlier

-- The last row of a list is the latest.
abbrev Topped : ℕ → List Message → Type 0
Topped n ms = All (λ m. m.created_at ≤ latest n ms) ms

insert-latest :
    (m x : Message) (n : ℕ) (ms : List Message)
    → Topped n (x ∷ ms)
    → (m.created_at ≤ latest n (insert m (x ∷ ms)))
      × (latest n (x ∷ ms) ≤ latest n (insert m (x ∷ ms)))
unfolding insert
insert-latest m x n [] h = elim (Bool-cases (stands_before m x)) [
  | inl first ↦ rw first (ground (arith, first), omega arith)
  | inr later ↦ rw later (omega arith, ground (arith, later))
]
insert-latest m x n (y ∷ ms) (hx, h) = elim (Bool-cases (stands_before m x)) [
  | inl first ↦ rw first (ground (arith, first, hx), omega arith)
  | inr later ↦ rw later (insert-latest m y x.created_at ms h)
]

insert-below :
    (m : Message) (n : ℕ) (ms : List Message)
    → Topped n ms
    → (m.created_at ≤ latest n (insert m ms)) × All (λ x. x.created_at ≤ latest n (insert m ms)) ms
unfolding insert
insert-below m n [] h = (omega arith, tt)
insert-below m n (x ∷ ms) h =
    let (low, mono) = insert-latest m x n ms h in
    (
      low,
      All-weaken (λ y. y.created_at ≤ latest n (x ∷ ms))
          (λ y. y.created_at ≤ latest n (insert m (x ∷ ms))) (λ y hy. omega (arith, hy, mono))
          (x ∷ ms) h,
    )

insert-All :
    (m : Message) (ms : List Message) (b : ℕ)
    → m.created_at ≤ b
    → All (λ x. x.created_at ≤ b) ms
    → All (λ x. x.created_at ≤ b) (insert m ms)
unfolding insert
insert-All m [] b hm h = (hm, tt)
insert-All m (x ∷ ms) b hm (hx, h) = elim (Bool-cases (stands_before m x)) [
  | inl first ↦ rw first (hm, (hx, h))
  | inr later ↦ rw later (hx, insert-All m ms b hm h)
]

sort-Topped : (n : ℕ) (ms : List Message) → Topped n (sort ms)
unfolding sort
sort-Topped n [] = tt
sort-Topped n (m ∷ ms) =
    let (low, tops) = insert-below m n (sort ms) (sort-Topped n ms) in
    insert-All m (sort ms) (latest n (insert m (sort ms))) low tops

All-insert :
    (b : ℕ) (m : Message) (ms : List Message)
    → All (λ x. x.created_at ≤ b) (insert m ms)
    → (m.created_at ≤ b) × All (λ x. x.created_at ≤ b) ms
unfolding insert
All-insert b m [] (hm, h) = (hm, tt)
All-insert b m (x ∷ ms) h = elim (Bool-cases (stands_before m x)) [
  | inl first ↦ rw first at h
  | inr later ↦
      let (hx, rest) : (x.created_at ≤ b) × All (λ y. y.created_at ≤ b) (insert m ms) =
        rw later at h in
      let (hm, hms) = All-insert b m ms rest in (hm, (hx, hms))
]

All-sort :
    (b : ℕ) (ms : List Message)
    → All (λ x. x.created_at ≤ b) (sort ms)
    → All (λ x. x.created_at ≤ b) ms
unfolding sort
All-sort b [] h = tt
All-sort b (m ∷ ms) h = let (hm, rest) = All-insert b m (sort ms) h in (hm, All-sort b ms rest)

-- No row is later than the last one that is listed.
pub rows-latest : (n : ℕ) (ms : List Message) → All (λ m. m.created_at ≤ latest n (sort ms)) ms
rows-latest n ms = All-sort (latest n (sort ms)) ms (sort-Topped n ms)
