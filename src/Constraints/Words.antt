-- ===== src/Constraints/Words.antt =====
-- Words of a text: `str.split`, `str.join`, and `str.strip`, as evaluation/constraints.py uses them.
use amit_ai.Common.{
  if◌then◌else◌, Bool-cases, any, All, ℕ, ◌≡◌, refl, sym, ap, ◌∙◌, inl, inr, Bool, true, false,
  ◌&&◌, ◌||◌, List, [], ◌∷◌, ◌++◌, append-nil, append_assoc, arith,
}
use amit_ai.Common.Texts.{split_from, Text, is_space, lstrip, strip, is_empty, split, join}
use amit_ai.Generator.Candidate.{split_trailing}
use amit_ai.Generator.Candidate.Whitespace.{empty-nil, rstrip-split_trailing}

abbrev pub has_space : Text → Bool
has_space word = any is_space word

-- a word as `str.split` gives it
abbrev pub IsWord : Text → Type 0
IsWord word = (is_empty word ≡ false) × (has_space word ≡ false)

has_space-append : (v w : Text) → has_space (v ++ w) ≡ has_space v || has_space w
has_space-append [] w = refl
has_space-append (c ∷ v) w = rw (has_space-append v w) (ground arith)

-- every word of a split is a word
pub split_from-IsWord :
    (word text : Text) → has_space word ≡ false → All IsWord (split_from word text)
unfolding split_from
split_from-IsWord word [] h = elim (Bool-cases (is_empty word)) [
  | inl empty ↦ rw empty tt
  | inr full ↦ rw full ((full, h), tt)
]
split_from-IsWord word (c ∷ text) h = elim (Bool-cases (is_space c)) [
  | inl space ↦ rw space (elim (Bool-cases (is_empty word)) [
    | inl empty ↦ rw empty (split_from-IsWord [] text refl)
    | inr full ↦ rw full ((full, h), split_from-IsWord [] text refl)
  ])
  | inr other ↦ rw other (
      split_from-IsWord (word ++ c ∷ []) text
        (has_space-append word (c ∷ []) ∙ ground (arith, h, other)))
]

-- a word is read in one go
split_from-word :
    (read word rest : Text)
    → has_space word ≡ false
    → split_from read (word ++ rest) ≡ split_from (read ++ word) rest
unfolding split_from
split_from-word read [] rest h = rw (append-nil read) refl
split_from-word read (c ∷ word) rest h = elim (Bool-cases (is_space c)) [
  | inl space ↦ ground (arith, h, space)
  | inr other ↦ rw other (
      split_from-word (read ++ c ∷ []) word rest (ground (arith, h, other))
      ∙ ap (λ r. split_from r rest) (append_assoc read (c ∷ []) word))
]

-- a blank ends a word
split_from-blank :
    (word text : Text)
    → is_empty word ≡ false
    → split_from word (b' ' ∷ text) ≡ word ∷ split_from [] text
unfolding split_from is_space
split_from-blank word text full = rw full refl

split_from-last : (word : Text) → is_empty word ≡ false → split_from word [] ≡ word ∷ []
unfolding split_from
split_from-last word full = rw full refl

join_cons :
    (w v : Text) (words : List Text)
    → join (b' ' ∷ []) (w ∷ v ∷ words) ≡ w ++ b' ' ∷ join (b' ' ∷ []) (v ∷ words)
unfolding join
join_cons w v words = append_assoc w (b' ' ∷ []) (join (b' ' ∷ []) (v ∷ words))

-- `" ".join(words).split()` is the words
pub split-join : (words : List Text) → All IsWord words → split (join (b' ' ∷ []) words) ≡ words
unfolding split join
split-join [] h = unfold split_from in refl
split-join (w ∷ []) ((full, plain), h) =
    ap (split_from []) (sym (append-nil w)) ∙ split_from-word [] w [] plain ∙ split_from-last w full
split-join (w ∷ v ∷ words) ((full, plain), h) =
    ap split (join_cons w v words)
    ∙ split_from-word [] w (b' ' ∷ join (b' ' ∷ []) (v ∷ words)) plain
    ∙ split_from-blank w (join (b' ' ∷ []) (v ∷ words)) full
    ∙ ap (◌∷◌ w) (split-join (v ∷ words) h)

pub split-IsWord : (text : Text) → All IsWord (split text)
unfolding split
split-IsWord text = split_from-IsWord [] text refl

split_from-space :
    (word : Text) (c : ℕ) (text : Text)
    → is_space c ≡ true
    → split_from word (c ∷ text)
      ≡ (if is_empty word then split_from [] text else word ∷ split_from [] text)
unfolding split_from
split_from-space word c text space = rw space refl

split_from-nil :
    (word : Text)
    → split_from word [] ≡ (if is_empty word then split_from [] [] else word ∷ split_from [] [])
unfolding split_from
split_from-nil word = refl

split_from-other :
    (word : Text) (c : ℕ) (text : Text)
    → is_space c ≡ false
    → split_from word (c ∷ text) ≡ split_from (word ++ c ∷ []) text
unfolding split_from
split_from-other word c text other = rw other refl

lstrip-other : (c : ℕ) (text : Text) → is_space c ≡ false → lstrip (c ∷ text) ≡ c ∷ text
unfolding lstrip
lstrip-other c text other = rw other refl

lstrip-space : (c : ℕ) (text : Text) → is_space c ≡ true → lstrip (c ∷ text) ≡ lstrip text
unfolding lstrip
lstrip-space c text space = rw space refl

-- white space at the start separates nothing
split-lstrip : (text : Text) → split (lstrip text) ≡ split text
unfolding split
split-lstrip [] = unfold lstrip in refl
split-lstrip (c ∷ text) = elim (Bool-cases (is_space c)) [
  | inl space ↦
      ap split (lstrip-space c text space)
      ∙ split-lstrip text
      ∙ sym (split_from-space [] c text space)
  | inr other ↦ ap split (lstrip-other c text other)
]

-- nor at the end
split_from-rstrip :
    (word text : Text) → split_from word (split_trailing text).0 ≡ split_from word text
unfolding split_trailing
split_from-rstrip word [] = refl
split_from-rstrip word (c ∷ text) =
    elim (Bool-cases (is_empty (split_trailing text).0 && is_space c)) [
      | inl ends ↦
          let nothing =
            ap (split_from []) (sym (empty-nil (split_trailing text).0 (ground (arith, ends))))
            ∙ split_from-rstrip [] text in
          rw ends (
            split_from-nil word
            ∙ ap (λ t. if is_empty word then t else word ∷ t) nothing
            ∙ sym (split_from-space word c text (ground (arith, ends))))
      | inr more ↦ rw more (elim (Bool-cases (is_space c)) [
        | inl space ↦
            split_from-space word c (split_trailing text).0 space
            ∙ ap (λ t. if is_empty word then t else word ∷ t) (split_from-rstrip [] text)
            ∙ sym (split_from-space word c text space)
        | inr other ↦
            split_from-other word c (split_trailing text).0 other
            ∙ split_from-rstrip (word ++ c ∷ []) text
            ∙ sym (split_from-other word c text other)
      ])
    ]

pub split-strip : (text : Text) → split (strip text) ≡ split text
unfolding strip split
split-strip text =
    ap split (rstrip-split_trailing (lstrip text))
    ∙ split_from-rstrip [] (lstrip text)
    ∙ split-lstrip text
