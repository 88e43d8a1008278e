-- ===== src/Calculator/Tests.antt =====
-- Runs of the calculator on natural numbers, and its theorems there.
use amit_ai.Common.{
  ltb, leb, ◌==◌, if◌then◌else◌, ℕ, ◌+◌, ◌-◌, ◌*◌, ◌≡◌, refl, ◌≢◌, ◌⊎◌, Bool, true, ◌&&◌, ◌||◌,
  none, some, List, [], ◌∷◌,
}
use amit_ai.Common.Texts.{Text, codes, is_space, strip}
use amit_ai.Calculator.Types.{
  Token, Kind, number, plus, gives, fails, Characters, Decimal, out_of_fuel, grammar, zero_division,
  pos,
}
use amit_ai.Calculator.Validator.{validate, skip_percents}
use amit_ai.Calculator.Parser.{parse}
use amit_ai.Calculator.Expression.{evaluate_expression, validate_arguments, execute, string}
use amit_ai.Calculator.Agreement.{Agrees}
use amit_ai.Calculator.Agreement.Parsing.{parse-Agrees}
use amit_ai.Calculator.Evaluation.{refusal_independent, validate_arguments-execute}
use amit_ai.Calculator.Returns.{evaluate_expression-returns}

abbrev is_letter : ℕ → Bool
is_letter c = leb b'a' c && leb c b'z'

abbrev is_figure : ℕ → Bool
is_figure c = leb b'0' c && leb c b'9'

abbrev ascii : Characters
ascii = record {
  is_digit = is_figure;
  is_alpha = is_letter;
  is_alnum = λ c. is_letter c || is_figure c;
  lower = λ t. t;
}

abbrev figures : ℕ → Text → ℕ
figures n [] = n
figures n (c ∷ t) = figures (10 * n + (c - b'0')) t

-- natural numbers, where a difference below zero raises and a quotient is none
abbrev naturals : Decimal ℕ
naturals = record {
  literal = λ t. some (figures 0 t);
  hundred = 100;
  add = λ a b. some (a + b);
  subtract = λ a b. if ltb a b then none else some (a - b);
  multiply_by = λ a b. some (a * b);
  divide_by = λ a b. none;
  negate = λ a. if a == 0 then some 0 else none;
  raise_to = λ a n. none;
  is_zero = λ a. a == 0;
  is_finite = λ a. true;
  exceeds_limit = λ a. ltb 1000 a;
  to_integral_value = λ a. a;
  equals = λ a b. a == b;
  to_int = λ a. pos a;
  format = λ a. (b'0' + a) ∷ [];
}

-- arithmetic that always raises
abbrev broken : Decimal ℕ
broken = record naturals { literal = λ t. none; add = λ a b. none; multiply_by = λ a b. none }

abbrev sum : Text
sum = codes "1 + 2*(3-1)"

sum_is_five : evaluate_expression ascii naturals sum ≡ gives (codes "5")
unfolding evaluate_expression strip is_space skip_percents
sum_is_five = refl

open_ended : evaluate_expression ascii naturals (codes "(1") ≡ fails grammar
unfolding evaluate_expression strip is_space skip_percents
open_ended = refl

evaluate_expression-returns_example : evaluate_expression ascii naturals sum ≢ fails out_of_fuel
evaluate_expression-returns_example = evaluate_expression-returns ascii naturals sum refl

refusal_independent_example : evaluate_expression ascii broken (codes "(1") ≡ fails grammar
refusal_independent_example =
    refusal_independent ascii naturals broken (codes "(1") grammar open_ended refl

validate_arguments-execute_example :
    ((result : Text) × (execute ascii naturals (codes "1/0") ≡ gives result))
    ⊎ (execute ascii naturals (codes "1/0") ≡ fails zero_division)
unfolding validate_arguments strip is_space skip_percents
validate_arguments-execute_example =
    validate_arguments-execute ascii naturals ((codes "expression", string (codes " 1/0 ")) ∷ [])
      (codes "1/0") refl

abbrev token : Kind → Text → Token
token k t = record { kind = k; value = t }

abbrev one_plus : List Token
one_plus = token number (codes "1") ∷ token plus (codes "+") ∷ token number (codes "2") ∷ []

parse-Agrees_example : Agrees (λ _ _. Unit {0}) (validate 30 one_plus) (parse naturals 30 one_plus)
parse-Agrees_example = parse-Agrees naturals 30 one_plus
