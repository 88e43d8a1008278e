-- ===== src/Constraints/Repair.antt =====
-- evaluation/constraints.py: what a repair may change (`validate_repair_literals`,
-- `validate_exact_word_repair`), and the edit that deletes articles.
pub mod Deletion
pub mod Matching
use amit_ai.Common.{
  ltb, leb, ◌==◌, if◌then◌else◌, ==_iff, Bool-cases, Option-cases, is_some, is_nil, length, take,
  drop, any, keep, find, count, All, length-append, length-keep-le, count-append, All-append,
  All-weaken, ℕ, zero, suc, ◌+◌, ◌-◌, ◌*◌, ◌≤◌, ◌<◌, min, String, ◌≡◌, refl, sym, ap, ◌∙◌, fun_ext,
  ◌≢◌, ◌↔◌, ◌⊎◌, inl, inr, Bool, true, false, not, ◌&&◌, ◌||◌, Option, none, some, List, [], ◌∷◌,
  ◌++◌, map, reverse, append-nil, append_assoc, reverse-append, reverse-reverse, arith, ℕ_discrete,
  str_eq, str_eq_iff,
}
use amit_ai.Common.Texts.{
  Text, codes, is_space, eqb, starts_with, lstrip, rstrip, strip, is_empty, eqb→eq, eqb_refl, split,
  join, contains, is_member,
}
use amit_ai.Constraints.Types.{
  Constraint, counting, exact_words, RepairSafety, Patterns, is_code_only, is_exact_words,
}
use amit_ai.Constraints.Prompt.{paired_quote_spans, is_inside}

-- equality of two sets of texts
abbrev pub same_texts : List Text → List Text → Bool
same_texts xs ys =
    not (any (λ x. not (is_member x ys)) xs) && not (any (λ y. not (is_member y xs)) ys)

-- whether both texts begin with a yes or a no, and not with the same
abbrev pub is_reversed : Option Text → Option Text → Bool
is_reversed (some old) (some new) = not (eqb old new)
is_reversed _ _ = false

abbrev pub failing_if : Bool → Text → List Text
failing_if failed name = if failed then name ∷ [] else []

-- `validate_repair_literals`
unfoldable pub validate_repair_literals : Patterns → Text → Text → RepairSafety
validate_repair_literals patterns original repaired =
    let failures =
      failing_if (not (same_texts (patterns.numbers original) (patterns.numbers repaired)))
        (codes "repair_changed_numeric_literals")
      ++ failing_if
          (not (same_texts (patterns.identifiers original) (patterns.identifiers repaired)))
          (codes "repair_changed_quoted_identifiers")
      ++ failing_if
          (is_reversed (patterns.leading_polarity original) (patterns.leading_polarity repaired))
          (codes "repair_reversed_leading_polarity") in
    record { passed = is_nil failures; failures = failures }

-- a match of `\S+`
pub record Token : Type 0 where
  pub word : Text
  pub start : ℕ
  pub end_at : ℕ

-- `re.finditer(r"\S+", text)` at a position, with the word that is being read
unfoldable pub tokens_from : ℕ → Text → Text → List Token
tokens_from position word [] =
    if is_empty word
    then []
    else record { word = word; start = position - length word; end_at = position } ∷ []
tokens_from position word (c ∷ text) =
    let more = tokens_from (position + 1) (word ++ c ∷ []) text in
    let next = tokens_from (position + 1) [] text in
    if is_space c
    then (if is_empty word
        then next
        else record { word = word; start = position - length word; end_at = position } ∷ next)
    else more

abbrev pub is_article : Text → Bool
is_article word = is_member word (codes "a" ∷ codes "an" ∷ codes "the" ∷ [])

-- the condition of the comprehension in `_removable_articles`
unfoldable pub is_removable : Patterns → List (ℕ × ℕ) → Token → Bool
is_removable patterns spans token =
    is_article (patterns.casefold token.word)
    && not (eqb token.word (codes "A"))
    && not (is_inside spans token.start token.end_at)

-- `{index for index, x in enumerate(xs) if test(x)}`, in ascending order
unfoldable pub places {ℓ} : {A : Type ℓ} → (A → Bool) → ℕ → List A → List ℕ
places test index [] = []
places test index (x ∷ xs) =
    let more = places test (index + 1) xs in if test x then index ∷ more else more

abbrev pub is_typographic_quote : ℕ → Bool
is_typographic_quote c = c == 0x201c || c == 0x201d || c == 0x2018 || c == 0x2019

-- `_removable_articles`
unfoldable pub removable_articles : Patterns → Text → List Constraint → List ℕ
unfolding is_removable places tokens_from paired_quote_spans
removable_articles patterns text constraints =
    if any is_code_only constraints || any is_typographic_quote text
    then []
    else elim (paired_quote_spans patterns text) [
      | none ↦ []
      | some spans ↦ places (is_removable patterns spans) 0 (tokens_from 0 [] text)
    ]

-- `index in indices`
abbrev pub is_among : ℕ → List ℕ → Bool
is_among index indices = any (λ i. i == index) indices

-- the loop of `validate_exact_word_repair`, at the index of a token: `words` are the repaired text's
-- from the cursor on
unfoldable pub follows : Patterns → List ℕ → ℕ → List Text → List Text → Bool
follows patterns removable index [] words = is_nil words
follows patterns removable index (token ∷ tokens) [] =
    let rest = follows patterns removable (index + 1) tokens [] in
    if is_among index removable then rest else false
follows patterns removable index (token ∷ tokens) (word ∷ words) =
    let matched = follows patterns removable (index + 1) tokens words in
    let deleted = follows patterns removable (index + 1) tokens (word ∷ words) in
    if eqb (patterns.casefold token) word
    then matched
    else if is_among index removable
    then deleted
    else false

-- `validate_exact_word_repair`
unfoldable pub validate_exact_word_repair : Patterns → Text → Text → List Constraint → RepairSafety
unfolding follows removable_articles split
validate_exact_word_repair patterns original repaired constraints =
    if not (any is_exact_words constraints)
      || follows patterns (removable_articles patterns original constraints) 0 (split original)
          (map patterns.casefold (split repaired))
    then record { passed = true; failures = [] }
    else record { passed = false; failures = codes "repair_changed_exact_word_tokens" ∷ [] }

-- the counts of the `exact_words` constraints
abbrev pub exact_counts : List Constraint → List ℕ
exact_counts [] = []
exact_counts (counting exact_words n ∷ cs) = n ∷ exact_counts cs
exact_counts (_ ∷ cs) = exact_counts cs

-- the only element of a set of counts
abbrev pub only_count : List ℕ → Option ℕ
only_count [] = none
only_count (n ∷ ns) = if any (λ m. not (m == n)) ns then none else some n

unfoldable pub exact_count : List Constraint → Option ℕ
exact_count constraints = only_count (exact_counts constraints)

-- `token for index, token in enumerate(tokens) if index not in removed`
unfoldable pub omit : List ℕ → ℕ → List Text → List Text
omit removed index [] = []
omit removed index (token ∷ tokens) =
    let rest = omit removed (index + 1) tokens in
    if is_among index removed then rest else token ∷ rest

-- the edit of these tokens, of which some may be deleted, to a number of words
unfoldable pub delete_excess : List ℕ → List Text → Option ℕ → Option Text
unfolding omit join
delete_excess removable tokens none = none
delete_excess removable tokens (some expected) =
    let excess = length tokens - expected in
    if expected == 0 || leb (length tokens) expected || ltb (length removable) excess
    then none
    else some (join (b' ' ∷ []) (omit (take excess removable) 0 tokens))

-- `_delete_articles_to_exact_words`
unfoldable pub delete_articles_to_exact_words : Patterns → Text → List Constraint → Option Text
unfolding exact_count removable_articles delete_excess split
delete_articles_to_exact_words patterns original constraints =
    delete_excess (removable_articles patterns original constraints) (split original)
      (exact_count constraints)
