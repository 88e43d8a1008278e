-- ===== src/Calculator/Tokens.antt =====
-- runtime/calculator.py, `_tokenize`. The state of its loop is the text to come; each turn takes one
-- unit of fuel.
use amit_ai.Common.{
  ltb, ◌==◌, if◌then◌else◌, length, drop, count, ℕ, zero, suc, Bool, true, false, not, ◌&&◌, ◌||◌,
  Option, none, some, List, [], ◌∷◌,
}
use amit_ai.Common.Texts.{Text, codes, is_space, eqb, starts_with}
use amit_ai.Calculator.Types.{
  Kind, plus, minus, multiply, divide, lparen, rparen, percent, power, number, of_word, Token,
  no_digit, literal_too_large, identifier, unsupported_syntax, too_many_tokens, out_of_fuel, Answer,
  gives, fails, ◌>>=◌, Characters,
}

abbrev pub max_tokens : ℕ
max_tokens = 128

abbrev pub max_literal_digits : ℕ
max_literal_digits = 64

-- the kinds of "+-*/()%"
unfoldable pub operator_kind : ℕ → Option Kind
operator_kind c =
    if c == b'+'
    then some plus
    else if c == b'-'
    then some minus
    else if c == b'*'
    then some multiply
    else if c == b'/'
    then some divide
    else if c == b'('
    then some lparen
    else if c == b')'
    then some rparen
    else if c == b'%'
    then some percent
    else none

module _ (chars : Characters) where
  -- The loop over a literal: what it reads, the text to come, and `seen_digit`, given
  -- `seen_decimal`.
  unfoldable pub read_number : Bool → Text → Text × Text × Bool
  read_number seen_decimal [] = ([], [], false)
  read_number seen_decimal (c ∷ text) = elim (chars.is_digit c) [
    | true ↦ let (value, rest, _) = read_number seen_decimal text in (c ∷ value, rest, true)
    | false ↦ elim (c == b'.' && not seen_decimal) [
      | true ↦
          let (value, rest, seen_digit) = read_number true text in (c ∷ value, rest, seen_digit)
      | false ↦ ([], c ∷ text, false)
    ]
  ]

  -- the loop over an identifier
  unfoldable pub read_identifier : Text → Text × Text
  read_identifier [] = ([], [])
  read_identifier (c ∷ text) = elim (chars.is_alnum c || c == b'_') [
    | true ↦ let (value, rest) = read_identifier text in (c ∷ value, rest)
    | false ↦ ([], c ∷ text)
  ]

  abbrev pub number_token : Text × Text × Bool → Answer (Token × Text)
  number_token (value, rest, seen_digit) =
      if not seen_digit
      then fails no_digit
      else if ltb max_literal_digits (count chars.is_digit value)
      then fails literal_too_large
      else gives (record { kind = number; value = value }, rest)

  abbrev pub identifier_token : Text × Text → Answer (Token × Text)
  identifier_token (value, rest) =
      if eqb (chars.lower value) (codes "of")
      then gives (record { kind = of_word; value = value }, rest)
      else fails identifier

  -- the token at the front of a text that starts with `c`, which is no white space
  unfoldable pub next_token : ℕ → Text → Answer (Token × Text)
  unfolding read_number read_identifier operator_kind
  next_token c text =
      if starts_with (c ∷ text) (codes "**")
      then gives (record { kind = power; value = codes "**" }, drop 1 text)
      else elim (operator_kind c) [
        | some kind ↦ gives (record { kind = kind; value = c ∷ [] }, text)
        | none ↦
            if chars.is_digit c || c == b'.'
            then number_token (read_number false (c ∷ text))
            else if chars.is_alpha c || c == b'_'
            then identifier_token (read_identifier (c ∷ text))
            else fails unsupported_syntax
      ]

  unfoldable pub tokens : ℕ → Text → Answer (List Token)
  unfolding next_token
  tokens zero [] = gives []
  tokens zero (_ ∷ _) = fails out_of_fuel
  tokens (suc f) [] = gives []
  tokens (suc f) (c ∷ text) = elim (is_space c) [
    | true ↦ tokens f text
    | false ↦ next_token c text >>= λ (token, rest). tokens f rest >>= λ more. gives (token ∷ more)
  ]

  -- `_tokenize`, at one turn of the loop for each character; the list ends where EOF stands
  unfoldable pub tokenize : Text → Answer (List Token)
  unfolding tokens
  tokenize text = tokens (length text) text >>= λ found.
      if ltb max_tokens (length found) then fails too_many_tokens else gives found
