-- ===== src/Calculator/Evaluation.antt =====
-- What `evaluate_expression` and `CalculatorTool` return.
use amit_ai.Common.{ltb, Bool-cases, length, ◌≡◌, refl, ◌⊎◌, inl, inr, false, List, [], ◌∷◌, arith}
use amit_ai.Common.Texts.{Text, codes, eqb, strip, is_empty}
use mathlib.Core.Path.{subst}
use amit_ai.Calculator.Types.{
  Token, Failure, is_arithmetic, zero_division, Answer, gives, fails, ◌>>=◌, Characters, Decimal,
}
use amit_ai.Calculator.Tokens.{tokenize}
use amit_ai.Calculator.Validator.{validate}
use amit_ai.Calculator.Parser.{parse}
use amit_ai.Calculator.Expression.{
  evaluate_tokens, evaluate_expression, validate_arguments, execute, format_decimal, fuel_for,
  unless_zero_division, Value, string, other, max_expression_length,
}
use amit_ai.Calculator.Agreement.{Agrees}
use amit_ai.Calculator.Agreement.Parsing.{parse-Agrees}

-- A failure that is none of the arithmetic's was the validator's.
refused_by_validator :
    {D : Type 0} (v : Answer (Unit {0})) (p : Answer D) (k : D → Text) (e : Failure)
    → Agrees (λ _ _. Unit {0}) v p
    → (v >>= λ _. p >>= λ x. gives (k x)) ≡ fails e
    → is_arithmetic e ≡ false
    → v ≡ fails e
refused_by_validator (gives _) (gives x) k e h eq syntactic = ground arith
refused_by_validator (gives _) (fails e') k e h eq syntactic = ground arith
refused_by_validator (fails e') p k e h eq syntactic = ground arith

tokens_independent :
    {D E : Type 0} (d : Decimal D) (d' : Decimal E) (ts : List Token) (e : Failure)
    → evaluate_tokens d ts ≡ fails e
    → is_arithmetic e ≡ false
    → evaluate_tokens d' ts ≡ fails e
unfolding evaluate_tokens
tokens_independent d d' ts e eq syntactic =
    rw
      (refused_by_validator (validate (fuel_for ts) ts) (parse d (fuel_for ts) ts)
        (format_decimal d) e (parse-Agrees d (fuel_for ts) ts) eq syntactic)
      refl

-- What an expression is refused for, when it is not for its arithmetic, does not depend on the
-- arithmetic: whatever the decimal operations return, it is refused, for the same.
pub refusal_independent :
    {D E : Type 0} (chars : Characters) (d : Decimal D) (d' : Decimal E) (text : Text) (e : Failure)
    → evaluate_expression chars d text ≡ fails e
    → is_arithmetic e ≡ false
    → evaluate_expression chars d' text ≡ fails e
unfolding evaluate_expression
refusal_independent chars d d' text e eq syntactic = elim (Bool-cases (is_empty (strip text))) [
  | inl empty ↦ ground arith
  | inr not_empty ↦ elim (Bool-cases (ltb max_expression_length (length text))) [
    | inl long ↦ ground arith
    | inr short ↦ rw (not_empty, short) (go (tokenize chars text) (ground arith))
  ]
]
  where
    go :
        (a : Answer (List Token))
        → (a >>= evaluate_tokens d) ≡ fails e
        → (a >>= evaluate_tokens d') ≡ fails e
    go (fails x) eq = ground arith
    go (gives ts) eq = tokens_independent d d' ts e eq syntactic

-- Arguments that the tool validated are an expression that it evaluates; the only failure left is a
-- division by zero.
pub validate_arguments-execute :
    {D : Type 0} (chars : Characters) (d : Decimal D) (arguments : List (Text × Value))
    (text : Text)
    → validate_arguments chars d arguments ≡ gives text
    → ((result : Text) × (execute chars d text ≡ gives result))
      ⊎ (execute chars d text ≡ fails zero_division)
unfolding validate_arguments execute
validate_arguments-execute chars d [] text eq = ground arith
validate_arguments-execute chars d ((key, other) ∷ []) text eq = ground arith
validate_arguments-execute chars d (_ ∷ _ ∷ _) text eq = ground arith
validate_arguments-execute chars d ((key, string t) ∷ []) text eq =
    elim (Bool-cases (eqb key (codes "expression"))) [
      | inr wrong ↦ ground arith
      | inl right ↦ elim (Bool-cases (is_empty (strip t))) [
        | inl empty ↦ ground arith
        | inr not_empty ↦ elim (Bool-cases (ltb max_expression_length (length t))) [
          | inl long ↦ ground arith
          | inr short ↦ go (strip t) (evaluate_expression chars d (strip t)) refl (ground arith)
        ]
      ]
    ]
  where
    go :
        (s : Text) (a : Answer Text)
        → evaluate_expression chars d s ≡ a
        → unless_zero_division s a ≡ gives text
        → ((result : Text) × (evaluate_expression chars d text ≡ gives result))
          ⊎ (evaluate_expression chars d text ≡ fails zero_division)
    go s (gives x) run same =
        inl (x, subst (λ u. evaluate_expression chars d u ≡ gives x) (ground arith) run)
    go s (fails zero_division) run same =
        inr (subst (λ u. evaluate_expression chars d u ≡ fails zero_division) (ground arith) run)
    go s (fails e) run same = ground arith
