-- ===== src/Calculator/Expression.antt =====
-- runtime/calculator.py: `evaluate_expression` and `CalculatorTool`.
use amit_ai.Common.{
  ltb, ◌==◌, if◌then◌else◌, length, any, ℕ, ◌+◌, ◌*◌, true, false, not, List, [], ◌∷◌, reverse,
}
use amit_ai.Common.Texts.{Text, codes, eqb, strip, is_empty}
use amit_ai.Calculator.Types.{
  Token, is_zero_division, empty_expression, too_long, wrong_arguments, Answer, gives, fails, ◌>>=◌,
  Characters, Decimal,
}
use amit_ai.Calculator.Tokens.{tokenize}
use amit_ai.Calculator.Validator.{validate}
use amit_ai.Calculator.Parser.{parse}

abbrev pub max_expression_length : ℕ
max_expression_length = 256

-- A value of a tool call's arguments; what is no string is of one kind.
pub data Value : Type 0 where
  string : Text → Value
  other : Value

-- six calls for each token, and six for the end
abbrev pub fuel_for : List Token → ℕ
fuel_for ts = 6 * length ts + 6

-- `text.rstrip("0").rstrip(".")`
abbrev pub rstrip_of : ℕ → Text → Text
rstrip_of c text = reverse (go (reverse text))
  where
    go : Text → Text
    go [] = []
    go (b ∷ t) = elim (b == c) [ true ↦ go t | false ↦ b ∷ t ]

-- the trial run of `validate_arguments`, and what it returns: the expression for `arguments`
abbrev pub unless_zero_division : Text → Answer Text → Answer Text
unless_zero_division text (gives _) = gives text
unless_zero_division text (fails e) = if is_zero_division e then gives text else fails e

module _ {D : Type 0} (d : Decimal D) where
  unfoldable pub format_decimal : D → Text
  format_decimal x =
      if d.is_zero x
      then codes "0"
      else let text = d.format x in
        if any (λ c. c == b'.') text then rstrip_of b'.' (rstrip_of b'0' text) else text

  -- the last two steps of `evaluate_expression`, on the tokens
  unfoldable pub evaluate_tokens : List Token → Answer Text
  unfolding validate parse format_decimal
  evaluate_tokens ts =
      validate (fuel_for ts) ts >>= λ _. parse d (fuel_for ts) ts >>= λ x. gives (format_decimal x)

module _ {D : Type 0} (chars : Characters) (d : Decimal D) where
  unfoldable pub evaluate_expression : Text → Answer Text
  unfolding tokenize evaluate_tokens
  evaluate_expression text =
      if is_empty (strip text)
      then fails empty_expression
      else if ltb max_expression_length (length text)
      then fails too_long
      else tokenize chars text >>= evaluate_tokens d

  -- `validate_arguments`, on the members of the argument object
  unfoldable pub validate_arguments : List (Text × Value) → Answer Text
  unfolding evaluate_expression
  validate_arguments ((key, string text) ∷ []) =
      if not (eqb key (codes "expression"))
      then fails wrong_arguments
      else if is_empty (strip text)
      then fails empty_expression
      else if ltb max_expression_length (length text)
      then fails too_long
      else unless_zero_division (strip text) (evaluate_expression (strip text))
  validate_arguments ((key, other) ∷ []) =
      if not (eqb key (codes "expression")) then fails wrong_arguments else fails empty_expression
  validate_arguments _ = fails wrong_arguments

  -- `execute`, on the validated expression
  unfoldable pub execute : Text → Answer Text
  unfolding evaluate_expression
  execute text = evaluate_expression text
