-- ===== src/Constraints/Repair/Deletion.antt =====
-- evaluation/constraints.py: the edit that deletes articles leaves the number of words asked for.
use amit_ai.Common.{
  ltb, leb, ◌==◌, ==_iff, Bool-cases, length, take, any, All, ℕ, zero, suc, ◌+◌, ◌-◌, ◌≤◌, ◌<◌, ◌≡◌,
  refl, sym, ap, ◌∙◌, inl, inr, Bool, false, ◌||◌, Option, none, some, List, [], ◌∷◌, ◌++◌, map,
  arith,
}
use amit_ai.Common.Texts.{split_from, Text, is_space, is_empty, split, join}
use amit_ai.Constraints.Types.{Constraint, Patterns}
use amit_ai.Constraints.Prompt.{paired_quote_spans}
use amit_ai.Constraints.Words.{IsWord, split-join, split-IsWord, split-strip}
use amit_ai.Constraints.Validation.{count_words}
use amit_ai.Constraints.Repair.{
  is_typographic_quote, is_code_only, Token, tokens_from, places, removable_articles, is_among,
  exact_count, omit, delete_excess, is_removable, delete_articles_to_exact_words,
}

-- ascending indices from `low` on and below `high`
abbrev pub IsRising : ℕ → ℕ → List ℕ → Type 0
IsRising low high [] = Unit
IsRising low high (i ∷ is) = (low ≤ i) × (i < high) × IsRising (i + 1) high is

IsRising-below :
    (low low' high : ℕ) (is : List ℕ) → low' ≤ low → IsRising low high is → IsRising low' high is
IsRising-below low low' high [] h rising = tt
IsRising-below low low' high (i ∷ is) h (least, less, rising) =
    (omega (arith, h, least), less, rising)

IsRising-take :
    (n low high : ℕ) (is : List ℕ) → IsRising low high is → IsRising low high (take n is)
IsRising-take zero low high is rising = tt
IsRising-take (suc n) low high [] rising = tt
IsRising-take (suc n) low high (i ∷ is) (least, less, rising) =
    (least, less, IsRising-take n (i + 1) high is rising)

-- an index below all of them is not among them
not_among :
    (index low high : ℕ) (is : List ℕ)
    → index < low
    → IsRising low high is
    → is_among index is ≡ false
not_among index low high [] h rising = refl
not_among index low high (i ∷ is) h (least, less, rising) =
    ground (arith, not_among index (i + 1) high is (omega (arith, h, least)) rising, h, least)

places-IsRising :
    {A : Type 0} (test : A → Bool) (index high : ℕ) (xs : List A)
    → index + length xs ≡ high
    → IsRising index high (places test index xs)
unfolding places
places-IsRising test index high [] e = tt
places-IsRising test index high (x ∷ xs) e =
    let later = places-IsRising test (index + 1) high xs (omega (arith, e)) in
    elim (Bool-cases (test x)) [
      | inl here ↦ rw here (omega arith, omega (arith, e), later)
      | inr gone ↦
          rw gone
            (IsRising-below (index + 1) index high (places test (index + 1) xs) (omega arith) later)
    ]

-- an index that was passed has no influence
omit-passed :
    (i index : ℕ) (is : List ℕ) (words : List Text)
    → i < index
    → omit (i ∷ is) index words ≡ omit is index words
unfolding omit
omit-passed i index is [] h = refl
omit-passed i index is (w ∷ words) h =
    let other : i == index ≡ false = ground (arith, h) in
    rw (other, omit-passed i (index + 1) is words (omega (arith, h))) refl

-- each of the indices takes away a word
pub length-omit :
    (is : List ℕ) (index high : ℕ) (words : List Text)
    → index + length words ≡ high
    → IsRising index high is
    → length (omit is index words) + length is ≡ length words
unfolding omit
length-omit [] index high [] e rising = refl
length-omit (i ∷ is) index high [] e (least, less, rising) = omega (arith, e, least, less)
length-omit [] index high (w ∷ words) e rising =
    omega (arith, length-omit [] (index + 1) high words (omega (arith, e)) tt)
length-omit (i ∷ is) index high (w ∷ words) e (least, less, rising) =
    elim (Bool-cases (i == index)) [
      | inl here ↦
          let same = (==_iff i index).0 here in
          rw (here, omit-passed i (index + 1) is words (omega (arith, same)))
            (omega (
              arith,
              length-omit is (index + 1) high words (omega (arith, e))
                  (IsRising-below (i + 1) (index + 1) high is (omega (arith, same)) rising),
            ))
      | inr later ↦
          let more : index + 1 ≤ i = ground (arith, later, least) in
          rw (later, not_among index (i + 1) high is (omega (arith, least)) rising)
            (omega (
              arith,
              length-omit (i ∷ is) (index + 1) high words (omega (arith, e)) (more, less, rising),
            ))
    ]

omit-All :
    (P : Text → Type 0) (is : List ℕ) (index : ℕ) (words : List Text)
    → All P words
    → All P (omit is index words)
unfolding omit
omit-All P is index [] h = tt
omit-All P is index (w ∷ words) (hw, h) = elim (Bool-cases (is_among index is)) [
  | inl gone ↦ rw gone (omit-All P is (index + 1) words h)
  | inr kept ↦ rw kept (hw, omit-All P is (index + 1) words h)
]

-- The tokens of a text are its words.
tokens_from-split :
    (position : ℕ) (word text : Text)
    → map (λ (t : Token). t.word) (tokens_from position word text) ≡ split_from word text
unfolding tokens_from split_from
tokens_from-split position word [] = elim (Bool-cases (is_empty word)) [
  | inl blank ↦ rw blank refl
  | inr full ↦ rw full refl
]
tokens_from-split position word (c ∷ text) = elim (Bool-cases (is_space c)) [
  | inl space ↦ elim (Bool-cases (is_empty word)) [
    | inl blank ↦ rw (space, blank) (tokens_from-split (position + 1) [] text)
    | inr full ↦ rw (space, full) (ap (◌∷◌ word) (tokens_from-split (position + 1) [] text))
  ]
  | inr other ↦ rw other (tokens_from-split (position + 1) (word ++ c ∷ []) text)
]

length-map : (ts : List Token) → length (map (λ (t : Token). t.word) ts) ≡ length ts
length-map [] = refl
length-map (t ∷ ts) = omega (arith, length-map ts)

removable_in :
    (patterns : Patterns) (text : Text) (spans : Option (List (ℕ × ℕ)))
    → IsRising 0 (length (split text)) (elim spans [
      | none ↦ []
      | some spans ↦ places (is_removable patterns spans) 0 (tokens_from 0 [] text)
    ])
unfolding split
removable_in patterns text none = tt
removable_in patterns text (some spans) =
    places-IsRising (is_removable patterns spans) 0 (length (split text)) (tokens_from 0 [] text) (
      omega
        (arith, sym (length-map (tokens_from 0 [] text)) ∙ ap length (tokens_from-split 0 [] text)))

removable_articles-IsRising :
    (patterns : Patterns) (text : Text) (constraints : List Constraint)
    → IsRising 0 (length (split text)) (removable_articles patterns text constraints)
unfolding removable_articles
removable_articles-IsRising patterns text constraints =
    elim (Bool-cases (any is_code_only constraints || any is_typographic_quote text)) [
      | inl closed ↦ rw closed tt
      | inr open_to ↦ rw open_to (removable_in patterns text (paired_quote_spans patterns text))
    ]

length-take : (n : ℕ) (is : List ℕ) → n ≤ length is → length (take n is) ≡ n
length-take zero is h = refl
length-take (suc n) [] h = omega (arith, h)
length-take (suc n) (i ∷ is) h = omega (arith, length-take n is (omega (arith, h)))

-- an edit that may be made
delete_excess-made :
    (removable : List ℕ) (tokens : List Text) (expected : ℕ)
    → 0 < expected
    → expected < length tokens
    → length tokens - expected ≤ length removable
    → delete_excess removable tokens (some expected)
      ≡ some (join (b' ' ∷ []) (omit (take (length tokens - expected) removable) 0 tokens))
unfolding delete_excess
delete_excess-made removable tokens expected asked more enough =
    let wanted : expected == 0
          || leb (length tokens) expected
          || ltb (length removable) (length tokens - expected)
        ≡ false =
      ground (arith, asked, more, enough) in
    rw wanted refl

-- Where one exact number of words is asked for, not 0 and less than the text has, and enough bare
-- articles may be deleted, the edit is made, and it has that number of words, by the count that the
-- validation makes.
pub delete_articles_to_exact_words-count :
    (patterns : Patterns) (original : Text) (constraints : List Constraint) (expected : ℕ)
    → exact_count constraints ≡ some expected
    → 0 < expected
    → expected < length (split original)
    → length (split original) - expected ≤ length (removable_articles patterns original constraints)
    → (edit : Text) × (delete_articles_to_exact_words patterns original constraints ≡ some edit)
      × (count_words edit ≡ expected)
unfolding delete_articles_to_exact_words count_words
delete_articles_to_exact_words-count patterns original constraints expected asked some_word more
      enough =
    let excess = length (split original) - expected in
    let removed = take excess (removable_articles patterns original constraints) in
    let kept = omit removed 0 (split original) in
    let rising =
      IsRising-take excess 0 (length (split original))
        (removable_articles patterns original constraints)
        (removable_articles-IsRising patterns original constraints) in
    let left =
      length-omit removed 0 (length (split original)) (split original) (omega arith) rising in
    let taken = length-take excess (removable_articles patterns original constraints) enough in
    let words =
      split-strip (join (b' ' ∷ []) kept)
      ∙ split-join kept (omit-All IsWord removed 0 (split original) (split-IsWord original)) in
    (
      join (b' ' ∷ []) kept,
      ap (delete_excess (removable_articles patterns original constraints) (split original)) asked
          ∙ delete_excess-made (removable_articles patterns original constraints) (split original)
              expected some_word more enough,
      ap length words ∙ omega (arith, left, taken, more),
    )
