-- ===== src/Context/Bounds.antt =====
-- How much history is kept, and which.
use mathlib.Core.Path.{subst}
use amit_ai.Common.{
  reverse-reverse, reverse-append, ltb, ◌==◌, Bool-cases, length, All, length-append, ℕ, ◌+◌, ◌≤◌,
  ◌≡◌, refl, sym, ap, ◌∙◌, inl, inr, true, false, List, [], ◌∷◌, ◌++◌, reverse, append_assoc, arith,
}
use amit_ai.Context.{
  is_assistant, Sent, take_recent, drop_assistants, select_recent_history, max_history_messages,
  max_history_context_chars,
}

abbrev pub total_chars : List Sent → ℕ
total_chars [] = 0
total_chars (m ∷ ms) = length m.content + total_chars ms

-- no assistant's message comes first, where its question would be missing
abbrev pub StartsTurn : List Sent → Type 0
StartsTurn [] = Unit
StartsTurn (m ∷ _) = is_assistant m.role ≡ false

take_recent_bounds :
    (n chars : ℕ) (ms : List Sent)
    → n ≤ max_history_messages
    → chars ≤ max_history_context_chars
    → (length (take_recent n chars ms).0 + n ≤ max_history_messages)
      × (total_chars (take_recent n chars ms).0 + chars ≤ max_history_context_chars)
unfolding take_recent
take_recent_bounds n chars [] a b = omega arith
take_recent_bounds n chars (m ∷ ms) a b =
    ground (arith, take_recent_bounds (n + 1) (chars + length m.content) ms)

-- what is selected, newest first, is the front of the reversed history
take_recent-prefix :
    (n chars : ℕ) (ms : List Sent)
    → (older : List Sent) × (ms ≡ (take_recent n chars ms).0 ++ older)
      × ((take_recent n chars ms).1 ≡ false → older ≡ [])
unfolding take_recent
take_recent-prefix n chars [] = ([], refl, λ _. refl)
take_recent-prefix n chars (m ∷ ms) =
    let (older, e, whole) = take_recent-prefix (n + 1) (chars + length m.content) ms in
    elim (Bool-cases (n == max_history_messages)) [
      | inl full ↦ rw full (m ∷ ms, refl, λ f. cc)
      | inr room ↦ elim (Bool-cases (ltb max_history_context_chars (chars + length m.content))) [
        | inl long ↦ rw (room, long) (m ∷ ms, refl, λ f. cc)
        | inr fits ↦ rw (room, fits) (older, ap (◌∷◌ m) e, whole)
      ]
    ]

drop_assistants-suffix :
    (ms : List Sent)
    → (front : List Sent) × (ms ≡ front ++ drop_assistants ms)
      × All (λ m. is_assistant m.role ≡ true) front
unfolding drop_assistants
drop_assistants-suffix [] = ([], refl, tt)
drop_assistants-suffix (m ∷ ms) = elim (Bool-cases (is_assistant m.role)) [
  | inl t ↦
      let (front, e, all) = drop_assistants-suffix ms in rw t (m ∷ front, ap (◌∷◌ m) e, (t, all))
  | inr f ↦ rw f ([], refl, tt)
]

total_chars-append : (xs ys : List Sent) → total_chars (xs ++ ys) ≡ total_chars xs + total_chars ys
total_chars-append [] ys = omega arith
total_chars-append (x ∷ xs) ys = omega (arith, total_chars-append xs ys)

drop_assistants-StartsTurn : (ms : List Sent) → StartsTurn (drop_assistants ms)
unfolding drop_assistants
drop_assistants-StartsTurn [] = tt
drop_assistants-StartsTurn (m ∷ ms) = elim (Bool-cases (is_assistant m.role)) [
  | inl t ↦ rw t (drop_assistants-StartsTurn ms)
  | inr f ↦ rw f f
]

reverse-cons : (x : Sent) (xs : List Sent) → reverse (x ∷ xs) ≡ reverse xs ++ x ∷ []
reverse-cons x xs = reverse-append (x ∷ []) xs

length-reverse : (xs : List Sent) → length (reverse xs) ≡ length xs
length-reverse [] = refl
length-reverse (x ∷ xs) = rw (reverse-cons, length-append) (omega (arith, length-reverse xs))

total_chars-reverse : (xs : List Sent) → total_chars (reverse xs) ≡ total_chars xs
total_chars-reverse [] = refl
total_chars-reverse (x ∷ xs) =
    rw (reverse-cons, total_chars-append) (omega (arith, total_chars-reverse xs))

-- The history that is kept is the most recent part of the given history, in order: at most twenty
-- messages of at most 20,000 characters in all, of which the first is no assistant's. If no limit
-- was met, only leading messages of the assistant are left out.
pub select_recent_history_bounds :
    (history : List Sent)
    → let (kept, truncated) = select_recent_history history in
      (length kept ≤ max_history_messages)
      × (total_chars kept ≤ max_history_context_chars)
      × StartsTurn kept
      × ((front : List Sent) × (history ≡ front ++ kept)
          × (truncated ≡ false → All (λ m. is_assistant m.role ≡ true) front))
unfolding select_recent_history
select_recent_history_bounds history =
    let newest = (take_recent 0 0 (reverse history)).0 in
    let (few, short) = take_recent_bounds 0 0 (reverse history) (omega arith) (omega arith) in
    let (older, e, whole) = take_recent-prefix 0 0 (reverse history) in
    let (front, d, only) = drop_assistants-suffix (reverse newest) in
    let kept = drop_assistants (reverse newest) in
    (
      omega (arith, length-append front kept, length-reverse newest, ap length d, few),
      omega (
        arith,
        total_chars-append front kept,
        total_chars-reverse newest,
        ap total_chars d,
        short,
      ),
      drop_assistants-StartsTurn (reverse newest),
      (
        reverse older ++ front,
        sym (reverse-reverse history)
            ∙ ap reverse e
            ∙ reverse-append newest older
            ∙ ap (λ z. reverse older ++ z) d
            ∙ sym (append_assoc (reverse older) front kept),
        λ t.
            subst (λ z. All (λ (m : Sent). is_assistant m.role ≡ true) (reverse z ++ front))
              (sym (whole t)) only,
      ),
    )
