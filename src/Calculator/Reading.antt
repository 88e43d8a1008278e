-- ===== src/Calculator/Reading.antt =====
-- The tokenizer's loop takes a character away in each turn.
use amit_ai.Common.{
  ltb, ◌==◌, if◌then◌else◌, length, drop, count, ℕ, zero, suc, ◌≤◌, ◌≡◌, refl, ap, ◌≢◌, Bool, true,
  false, not, ◌&&◌, ◌||◌, Option, none, some, List, [], ◌∷◌, arith,
}
use amit_ai.Common.Texts.{Text, codes, is_space, eqb, starts_with}
use amit_ai.Calculator.Types.{
  Kind, too_many_tokens, Token, Answer, gives, fails, ◌>>=◌, Characters, out_of_fuel,
}
use amit_ai.Calculator.Tokens.{
  operator_kind, read_number, read_identifier, number_token, identifier_token, next_token, tokens,
  tokenize, max_literal_digits, max_tokens,
}

abbrev Leaves : ℕ → Answer (Token × Text) → Type 0
Leaves n (gives (_, rest)) = length rest ≤ n
Leaves n (fails e) = e ≢ out_of_fuel

-- what holds of both ways on from a test
choose :
    {A : Type 0} (P : A → Type 0) (b : Bool) (x y : A)
    → (b ≡ true → P x)
    → (b ≡ false → P y)
    → P (elim b [ true ↦ x | false ↦ y ])
choose P true x y so not_so = so refl
choose P false x y so not_so = not_so refl

pub choose_if :
    {A : Type 0} (P : A → Type 0) (b : Bool) (x y : A)
    → (b ≡ true → P x)
    → (b ≡ false → P y)
    → P (if b then x else y)
choose_if P true x y so not_so = so refl
choose_if P false x y so not_so = not_so refl

module _ (chars : Characters) where
  read_number-length :
      (seen : Bool) (text : Text) → length (read_number chars seen text).1 ≤ length text
  unfolding read_number
  read_number-length seen [] = omega arith
  read_number-length seen (c ∷ text) =
      choose (λ (r : Text × Text × Bool). length r.1 ≤ suc (length text)) (chars.is_digit c) _ _
        (λ digit. omega (arith, read_number-length seen text))
        (λ other.
          choose (λ (r : Text × Text × Bool). length r.1 ≤ suc (length text))
            (c == b'.' && not seen) _ _ (λ point. omega (arith, read_number-length true text))
            (λ stop. omega arith))

  number_token-Leaves :
      (n : ℕ) (found : Text × Text × Bool)
      → length found.1 ≤ n
      → Leaves n (number_token chars found)
  number_token-Leaves n (value, rest, true) h =
      choose_if (Leaves n) (ltb max_literal_digits (count chars.is_digit value)) _ _
        (λ large e. ground arith) (λ fits. h)
  number_token-Leaves n (value, rest, false) h = λ e. ground arith

  -- a literal starts with a digit or a point
  literal-length :
      (c : ℕ) (text : Text)
      → (chars.is_digit c || c == b'.') ≡ true
      → length (read_number chars false (c ∷ text)).1 ≤ length text
  unfolding read_number
  literal-length c text starts =
      choose (λ (r : Text × Text × Bool). length r.1 ≤ length text) (chars.is_digit c) _ _
        (λ digit. read_number-length false text)
        (λ other.
          choose (λ (r : Text × Text × Bool). length r.1 ≤ length text) (c == b'.' && not false) _ _
            (λ point. read_number-length true text) (λ stop. absurd (no_start other stop)))
    where
      no_start : chars.is_digit c ≡ false → (c == b'.' && not false) ≡ false → ⊥
      no_start other stop = ground (arith, starts)

  number-Leaves :
      (c : ℕ) (text : Text)
      → (chars.is_digit c || c == b'.') ≡ true
      → Leaves (length text) (number_token chars (read_number chars false (c ∷ text)))
  number-Leaves c text starts =
      number_token-Leaves (length text) (read_number chars false (c ∷ text))
        (literal-length c text starts)

  read_identifier-length : (text : Text) → length (read_identifier chars text).1 ≤ length text
  unfolding read_identifier
  read_identifier-length [] = omega arith
  read_identifier-length (c ∷ text) =
      choose (λ (r : Text × Text). length r.1 ≤ suc (length text)) (chars.is_alnum c || c == b'_') _
        _ (λ more. omega (arith, read_identifier-length text)) (λ stop. omega arith)

  identifier_token-Leaves :
      (n : ℕ) (found : Text × Text)
      → (eqb (chars.lower found.0) (codes "of") ≡ true → length found.1 ≤ n)
      → Leaves n (identifier_token chars found)
  identifier_token-Leaves n (value, rest) h =
      choose_if (Leaves n) (eqb (chars.lower value) (codes "of")) _ _ h (λ other e. ground arith)

  -- `lower` of no character is no word, so that an identifier takes a character
  identifier-Leaves :
      (c : ℕ) (text : Text)
      → chars.lower [] ≡ []
      → Leaves (length text) (identifier_token chars (read_identifier chars (c ∷ text)))
  unfolding read_identifier
  identifier-Leaves c text lower_empty = identifier_token-Leaves (length text) _ (
      choose
        (λ (r : Text × Text). eqb (chars.lower r.0) (codes "of") ≡ true → length r.1 ≤ length text)
        (chars.is_alnum c || c == b'_') _ _ (λ more word. read_identifier-length text)
        (λ stop word. absurd (no_word word)))
    where
      no_word : eqb (chars.lower []) (codes "of") ≡ true → ⊥
      no_word word = ground (arith, ap (λ t. eqb t (codes "of")) lower_empty)

  operator-Leaves :
      (n : ℕ) (o : Option Kind) (c : ℕ) (text : Text) (a : Answer (Token × Text))
      → length text ≤ n
      → Leaves n a
      → Leaves n
          (elim o [ some kind ↦ gives (record { kind = kind; value = c ∷ [] }, text) | none ↦ a ])
  operator-Leaves n none c text a l h = h
  operator-Leaves n (some k) c text a l h = l

  length-drop_one : (text : Text) → length (drop 1 text) ≤ length text
  length-drop_one [] = omega arith
  length-drop_one (c ∷ text) = omega arith

  next_token-Leaves :
      (c : ℕ) (text : Text) → chars.lower [] ≡ [] → Leaves (length text) (next_token chars c text)
  unfolding next_token
  next_token-Leaves c text lower_empty =
      choose_if (Leaves (length text)) (starts_with (c ∷ text) (codes "**")) _ _
        (λ stars. length-drop_one text)
        (λ no_stars. operator-Leaves (length text) (operator_kind c) c text _ (omega arith) (
          choose_if (Leaves (length text)) (chars.is_digit c || c == b'.') _ _
            (λ starts. number-Leaves c text starts)
            (λ no_number.
              choose_if (Leaves (length text)) (chars.is_alpha c || c == b'_') _ _
                (λ letter. identifier-Leaves c text lower_empty) (λ other e. ground arith))))

  next-returns :
      (f : ℕ) (a : Answer (Token × Text))
      → Leaves f a
      → ((rest : Text) → length rest ≤ f → tokens chars f rest ≢ fails out_of_fuel)
      → (a >>= λ (token, rest). tokens chars f rest >>= λ more. gives (token ∷ more))
        ≢ fails out_of_fuel
  next-returns f (fails e) h step eq = h (ground arith)
  next-returns f (gives (token, rest)) h step eq = more (tokens chars f rest) (step rest h) eq
    where
      more :
          (b : Answer (List Token))
          → (b ≡ fails out_of_fuel → ⊥)
          → (b >>= λ ts. gives (token ∷ ts)) ≡ fails out_of_fuel
          → ⊥
      more (gives ts) h eq = ground arith
      more (fails e) h eq = h (ground arith)

  tokens-returns :
      (f : ℕ) (text : Text)
      → chars.lower [] ≡ []
      → length text ≤ f
      → tokens chars f text ≢ fails out_of_fuel
  unfolding tokens
  tokens-returns zero [] lower_empty h eq = ground arith
  tokens-returns zero (_ ∷ _) lower_empty h eq = ground arith
  tokens-returns (suc f) [] lower_empty h eq = ground arith
  tokens-returns (suc f) (c ∷ text) lower_empty h eq =
      choose (λ a. a ≢ fails out_of_fuel) (is_space c) _ _
        (λ space. tokens-returns f text lower_empty (omega (arith, h)))
        (λ other.
          next-returns f (next_token chars c text)
            (shorter (next_token chars c text) (next_token-Leaves c text lower_empty))
            (λ rest l. tokens-returns f rest lower_empty l))
        eq
    where
      shorter : (a : Answer (Token × Text)) → Leaves (length text) a → Leaves f a
      shorter (gives (_, rest)) l = omega (arith, l, h)
      shorter (fails e) l = l

pub tokenize-returns :
    (chars : Characters) (text : Text)
    → chars.lower [] ≡ []
    → tokenize chars text ≢ fails out_of_fuel
unfolding tokenize
tokenize-returns chars text lower_empty eq =
    go (tokens chars (length text) text)
      (tokens-returns chars (length text) text lower_empty (omega arith)) eq
  where
    go :
        (a : Answer (List Token))
        → (a ≡ fails out_of_fuel → ⊥)
        → (a >>= λ found.
            if ltb max_tokens (length found) then fails too_many_tokens else gives found)
          ≡ fails out_of_fuel
        → ⊥
    go (fails e) h eq = h (ground arith)
    go (gives found) h eq =
        choose_if (λ a. a ≡ fails out_of_fuel → ⊥) (ltb max_tokens (length found))
          (fails too_many_tokens) (gives found) (λ many same. ground arith)
          (λ few same. ground arith) eq
