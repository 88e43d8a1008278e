-- ===== src/Calculator/Returns.antt =====
-- The whole evaluation never runs out of fuel.
use amit_ai.Common.{ltb, if◌then◌else◌, length, ◌≡◌, ◌≢◌, List, [], arith}
use amit_ai.Common.Texts.{Text, strip, is_empty}
use amit_ai.Calculator.Types.{
  too_long, empty_expression, Token, Answer, gives, fails, ◌>>=◌, Characters, Decimal, out_of_fuel,
}
use amit_ai.Calculator.Tokens.{tokenize}
use amit_ai.Calculator.Validator.{validate}
use amit_ai.Calculator.Parser.{parse}
use amit_ai.Calculator.Expression.{
  evaluate_tokens, evaluate_expression, format_decimal, fuel_for, max_expression_length,
}
use amit_ai.Calculator.Fuel.{validate-returns}
use amit_ai.Calculator.Agreement.{Agrees}
use amit_ai.Calculator.Agreement.Parsing.{parse-Agrees}
use amit_ai.Calculator.Reading.{tokenize-returns, choose_if}

-- Where the validator stops for no fuel, neither does the parser.
parser_returns :
    {D : Type 0} (v : Answer (Unit {0})) (p : Answer D) (k : D → Text)
    → Agrees (λ _ _. Unit {0}) v p
    → (v ≡ fails out_of_fuel → ⊥)
    → (v >>= λ _. p >>= λ x. gives (k x)) ≡ fails out_of_fuel
    → ⊥
parser_returns (gives _) (gives x) k h r eq = ground arith
parser_returns (gives _) (fails e) k h r eq = ground arith
parser_returns (fails e) p k h r eq = r (ground arith)

module _ {D : Type 0} (chars : Characters) (d : Decimal D) where
  evaluate_tokens-returns : (ts : List Token) → evaluate_tokens d ts ≢ fails out_of_fuel
  unfolding evaluate_tokens
  evaluate_tokens-returns ts =
      parser_returns (validate (fuel_for ts) ts) (parse d (fuel_for ts) ts) (format_decimal d)
        (parse-Agrees d (fuel_for ts) ts) (validate-returns (fuel_for ts) ts (omega arith))

  -- The evaluation of an expression never runs out of the fuel it is given: six calls for each
  -- token, and one turn of the tokenizer for each character. `lower` keeps the empty text.
  pub evaluate_expression-returns :
      (text : Text) → chars.lower [] ≡ [] → evaluate_expression chars d text ≢ fails out_of_fuel
  unfolding evaluate_expression
  evaluate_expression-returns text lower_empty eq =
      choose_if (λ a. a ≡ fails out_of_fuel → ⊥) (is_empty (strip text)) (fails empty_expression)
        (if ltb max_expression_length (length text)
          then fails too_long
          else tokenize chars text >>= evaluate_tokens d)
        (λ empty same. ground arith)
        (λ not_empty.
          choose_if (λ a. a ≡ fails out_of_fuel → ⊥) (ltb max_expression_length (length text))
            (fails too_long) (tokenize chars text >>= evaluate_tokens d) (λ long same. ground arith)
            (λ short. go (tokenize chars text) (tokenize-returns chars text lower_empty)))
        eq
    where
      go :
          (a : Answer (List Token))
          → (a ≡ fails out_of_fuel → ⊥)
          → (a >>= evaluate_tokens d) ≡ fails out_of_fuel
          → ⊥
      go (fails e) h same = h (ground arith)
      go (gives ts) h same = evaluate_tokens-returns ts same
