-- ===== src/Constraints/Prompt.antt =====
-- evaluation/constraints.py: `parse_constraints` and the helpers that tell a directive from a
-- mention of one.
use amit_ai.Common.{
  ltb, leb, ◌==◌, if◌then◌else◌, take, drop, any, keep, ℕ, ◌+◌, ◌-◌, ◌*◌, Bool, true, false, not,
  ◌&&◌, ◌||◌, Option, none, some, List, [], ◌∷◌, ◌++◌, map,
}
use amit_ai.Common.Texts.{Text, codes, eqb, strip, is_empty}
use amit_ai.Generator.Types.{Ran, ran, raised, ◌>>=◌, key_error, value_error}
use amit_ai.Constraints.Types.{
  Counting, exact_words, exact_bullets, at_most_bullets, Constraint, counting, code_only, Match,
  Patterns, same_constraint,
}

-- `_WRITTEN_SMALL_NUMBERS`: the place of a word is its value
abbrev pub written_small_numbers : List Text
written_small_numbers =
    codes "zero"
    ∷ codes "one"
    ∷ codes "two"
    ∷ codes "three"
    ∷ codes "four"
    ∷ codes "five"
    ∷ codes "six"
    ∷ codes "seven"
    ∷ codes "eight"
    ∷ codes "nine"
    ∷ codes "ten"
    ∷ codes "eleven"
    ∷ codes "twelve"
    ∷ codes "thirteen"
    ∷ codes "fourteen"
    ∷ codes "fifteen"
    ∷ codes "sixteen"
    ∷ codes "seventeen"
    ∷ codes "eighteen"
    ∷ codes "nineteen"
    ∷ []

-- `_WRITTEN_TENS`: the first word is 20, and each other ten more than the one before
abbrev pub written_tens : List Text
written_tens =
    codes "twenty"
    ∷ codes "thirty"
    ∷ codes "forty"
    ∷ codes "fifty"
    ∷ codes "sixty"
    ∷ codes "seventy"
    ∷ codes "eighty"
    ∷ codes "ninety"
    ∷ []

-- `table[word]`, where the value of the first word is `value` and the values are `step` apart
unfoldable pub written : ℕ → ℕ → List Text → Text → Option ℕ
written step value [] word = none
written step value (w ∷ words) word =
    let later = written step (value + step) words word in if eqb w word then some value else later

abbrev pub small_number : Text → Option ℕ
small_number word = written 1 0 written_small_numbers word

abbrev pub tens_number : Text → Option ℕ
tens_number word = written 10 20 written_tens word

abbrev pub is_figure : ℕ → Bool
is_figure c = leb 48 c && leb c 57

-- `int(value)` of decimal digits
abbrev pub int_from : ℕ → Text → ℕ
int_from n [] = n
int_from n (c ∷ value) = int_from (n * 10 + (c - 48)) value

-- `re.sub(r"[ \t]+", " ", value.lower().replace("-", " "))`: a run of blanks becomes one, where
-- `after_blank` tells that the run has begun
unfoldable pub one_blank : Bool → Text → Text
one_blank after_blank [] = []
one_blank after_blank (c ∷ value) =
    let in_run = one_blank true value in
    let other = one_blank false value in
    if c == b' ' || c == 9 || c == b'-'
    then (if after_blank then in_run else b' ' ∷ in_run)
    else c ∷ other

-- `normalized.split(" ")` where it has two parts, and the values of both
unfoldable pub tens_and_unit : Text → Text → Ran ℕ
tens_and_unit tens [] = raised (value_error "not enough values to unpack")
tens_and_unit tens (c ∷ unit) =
    let later = tens_and_unit (tens ++ c ∷ []) unit in
    if c == b' '
    then (if any (λ d. d == b' ') unit
        then raised (value_error "too many values to unpack")
        else elim (tens_number tens) [
          | none ↦ raised key_error
          | some t ↦ elim (small_number unit) [ none ↦ raised key_error | some u ↦ ran (t + u) ]
        ])
    else later

unfoldable pub written_count : Text → Ran ℕ
unfolding tens_and_unit written
written_count normalized =
    if eqb normalized (codes "one hundred") then ran 100 else elim (small_number normalized) [
      | some n ↦ ran n
      | none ↦ elim (tens_number normalized) [ some n ↦ ran n | none ↦ tens_and_unit [] normalized ]
    ]

-- `_parse_count`; the digits of a match are those of ASCII
unfoldable pub parse_count : Patterns → Text → Ran ℕ
unfolding written_count one_blank
parse_count patterns value =
    if not (is_empty value) && not (any (λ c. not (is_figure c)) value)
    then ran (int_from 0 value)
    else written_count (strip (one_blank false (patterns.lower value)))

-- `_is_word_apostrophe` at the character after `before`, with the text after it
abbrev pub is_word_apostrophe : Patterns → Option ℕ → ℕ → Text → Bool
is_word_apostrophe patterns (some b) c (a ∷ _) =
    c == b'\'' && patterns.is_alnum b && patterns.is_alnum a
is_word_apostrophe patterns _ c _ = false

-- the positions of a delimiter that is no apostrophe in a word
unfoldable pub quote_positions : Patterns → ℕ → Option ℕ → ℕ → Text → List ℕ
quote_positions patterns delimiter before index [] = []
quote_positions patterns delimiter before index (c ∷ text) =
    let more = quote_positions patterns delimiter (some c) (index + 1) text in
    if c == delimiter && not (is_word_apostrophe patterns before c text) then index ∷ more else more

-- `zip(positions[::2], positions[1::2])`, none where one position is left over
unfoldable pub pairs : List ℕ → Option (List (ℕ × ℕ))
pairs [] = some []
pairs (p ∷ []) = none
pairs (p ∷ q ∷ positions) = elim (pairs positions) [
  | none ↦ none
  | some more ↦ some ((p, q) ∷ more)
]

-- a stable sort by a position, as `list.sort` is
unfoldable pub insert_by {ℓ} : {A : Type ℓ} → (A → ℕ) → A → List A → List A
insert_by key x [] = x ∷ []
insert_by key x (y ∷ ys) =
    let later = insert_by key x ys in if leb (key x) (key y) then x ∷ y ∷ ys else y ∷ later

unfoldable pub sort_by {ℓ} : {A : Type ℓ} → (A → ℕ) → List A → List A
unfolding insert_by
sort_by key [] = []
sort_by key (x ∷ xs) = insert_by key x (sort_by key xs)

-- whether a span overlaps a later one that does not lie within it
unfoldable pub has_crossing : List (ℕ × ℕ) → Bool
has_crossing [] = false
has_crossing ((opening, closing) ∷ spans) =
    any (λ (later : ℕ × ℕ). ltb later.0 closing && ltb closing later.1) spans || has_crossing spans

-- the spans of one delimiter
abbrev pub quoted_by : Patterns → Text → ℕ → Option (List (ℕ × ℕ))
unfolding quote_positions pairs
quoted_by patterns prompt delimiter = pairs (quote_positions patterns delimiter none 0 prompt)

-- `_paired_quote_spans`
unfoldable pub paired_quote_spans : Patterns → Text → Option (List (ℕ × ℕ))
unfolding quote_positions pairs sort_by has_crossing
paired_quote_spans patterns prompt = elim (quoted_by patterns prompt b'"') [
  | none ↦ none
  | some double ↦ elim (quoted_by patterns prompt b'\'') [
    | none ↦ none
    | some single ↦ elim (quoted_by patterns prompt b'`') [
      | none ↦ none
      | some backtick ↦
          let spans = sort_by (λ (s : ℕ × ℕ). s.0) (double ++ single ++ backtick) in
          if has_crossing spans then none else some spans
    ]
  ]
]

-- `any(opening < start and end <= closing for opening, closing in spans)`
abbrev pub is_inside : List (ℕ × ℕ) → ℕ → ℕ → Bool
is_inside spans start end_at = any (λ (s : ℕ × ℕ). ltb s.0 start && leb end_at s.1) spans

-- `_is_quoted`
unfoldable pub is_quoted : Patterns → Text → Match → Bool
unfolding paired_quote_spans
is_quoted patterns prompt m = elim (paired_quote_spans patterns prompt) [
  | none ↦ true
  | some spans ↦ is_inside spans m.start m.end_at
]

-- `prompt[max(0, start - 32) : start]`
abbrev pub before_match : Text → Match → Text
before_match prompt m = drop (m.start - 32) (take m.start prompt)

-- the guards of `parse_constraints`: `_is_negated`, `_is_quoted`, `_is_metalinguistic`
unfoldable pub is_directive : Patterns → Text → Match → Bool
unfolding is_quoted
is_directive patterns prompt m = not (
    patterns.is_negation (before_match prompt m)
    || is_quoted patterns prompt m
    || patterns.is_mention (before_match prompt m))

-- the loop over the matches of one of `_COUNT_PATTERNS`
unfoldable pub count_directives :
    Patterns → Text → Counting → List Match → Ran (List (ℕ × Constraint))
unfolding is_directive parse_count
count_directives patterns prompt kind [] = ran []
count_directives patterns prompt kind (m ∷ ms) =
    let more = count_directives patterns prompt kind ms in
    if is_directive patterns prompt m
    then (parse_count patterns m.count_text >>= λ n.
        more >>= λ found. ran ((m.start, counting kind n) ∷ found))
    else more

abbrev pub directives : Patterns → Text → Counting → Ran (List (ℕ × Constraint))
unfolding count_directives
directives patterns prompt kind =
    count_directives patterns prompt kind (patterns.count_matches kind prompt)

-- the loop that leaves a constraint out which was seen
unfoldable pub first_of_each : List Constraint → List Constraint → List Constraint
first_of_each seen [] = []
first_of_each seen (c ∷ cs) =
    let skipped = first_of_each seen cs in
    let kept = first_of_each (c ∷ seen) cs in
    if any (same_constraint c) seen then skipped else c ∷ kept

-- `parse_constraints`
unfoldable pub parse_constraints : Patterns → Text → Ran (List Constraint)
unfolding count_directives sort_by first_of_each is_directive
parse_constraints patterns prompt =
    let code = keep (is_directive patterns prompt) (patterns.code_only_matches prompt) in
    directives patterns prompt exact_words >>= λ words.
    directives patterns prompt exact_bullets >>= λ bullets.
    directives patterns prompt at_most_bullets >>= λ most. ran (
      first_of_each [] (
        map (λ (m : ℕ × Constraint). m.1)
          (sort_by (λ (m : ℕ × Constraint). m.0)
            (words ++ bullets ++ most ++ map (λ (m : Match). (m.start, code_only)) code))))
