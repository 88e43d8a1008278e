-- ===== src/Calculator/Agreement/Parsing.antt =====
-- The parser and the validator read the same grammar.
use amit_ai.Common.{
  ltb, if◌then◌else◌, ℕ, zero, suc, ◌+◌, refl, inr, Bool, true, false, List, [], ◌∷◌,
}
use amit_ai.Calculator.Types.{
  Kind, number, lparen, Token, grammar, nesting_limit, Answer, gives, fails, ◌>>=◌, kind_of, is_eof,
  is_power, is_percent, is_additive, is_multiplicative, accept, advance_rparen, max_nesting_depth,
  Decimal, decimal_exception,
}
use amit_ai.Calculator.Validator
use amit_ai.Calculator.Validator.{skip_percents, at_end, validate}
use amit_ai.Calculator.Parser
use amit_ai.Calculator.Parser.{
  bounded, or_fails, and_rest, add_step, multiply_step, sign_step, percents, power_step,
  literal_value, parse,
}
use amit_ai.Calculator.Arithmetic.{
  IsArithmetical, add_step-IsArithmetical, multiply_step-IsArithmetical, sign_step-IsArithmetical,
  power_step-IsArithmetical, literal_value-IsArithmetical, checked-IsArithmetical,
  bounded-IsArithmetical,
}
use amit_ai.Calculator.Agreement.{
  Agrees, SameRest, Agrees-bind, Agrees-bind_right, Agrees-after, Agrees-step, Agrees-accept,
}

module _ {D : Type 0} (d : Decimal D) where
  abbrev SameEnd : Answer (List Token) → Answer (D × List Token) → Type 0
  SameEnd = Agrees SameRest

  percent-SameEnd :
      (b : Bool) (t : Token) (ts : List Token) (value : D)
      → ((x : D) → SameEnd (gives (skip_percents ts)) (percents d x ts))
      → SameEnd (gives (elim b [ true ↦ skip_percents ts | false ↦ t ∷ ts ])) (elim b [
        | true ↦ or_fails decimal_exception (d.divide_by value d.hundred) >>= bounded d >>= λ x.
            percents d x ts
        | false ↦ gives (value, t ∷ ts)
      ])
  percent-SameEnd true t ts value h =
      Agrees-after SameRest (gives (skip_percents ts))
        (or_fails decimal_exception (d.divide_by value d.hundred) >>= bounded d)
        (λ x. percents d x ts)
        (checked-IsArithmetical d decimal_exception (d.divide_by value d.hundred) refl) h
  percent-SameEnd false t ts value h = refl

  percents-SameEnd :
      (ts : List Token) (value : D) → SameEnd (gives (skip_percents ts)) (percents d value ts)
  unfolding skip_percents percents
  percents-SameEnd [] value = refl
  percents-SameEnd (t ∷ ts) value =
      percent-SameEnd (is_percent t.kind) t ts value (percents-SameEnd ts)

  closing-SameEnd :
      (ts : List Token) (value : D)
      → SameEnd (advance_rparen ts) (advance_rparen ts >>= λ closed. gives (value, closed))
  closing-SameEnd ts value = go (advance_rparen ts)
    where
      go : (v : Answer (List Token)) → SameEnd v (v >>= λ closed. gives (value, closed))
      go (gives rest) = refl
      go (fails e) = inr refl

  primary-SameEnd :
      (k : Kind) (too_deep : Bool) (rest : List Token) (number_value : Answer D)
      (v : Answer (List Token)) (p : Answer (D × List Token))
      → IsArithmetical number_value
      → SameEnd v p
      → SameEnd
          (elim k [
            | number ↦ gives rest
            | lparen ↦ elim too_deep [ true ↦ fails nesting_limit | false ↦ v ]
            | _ ↦ fails grammar
          ])
          (elim k [
            | number ↦ and_rest rest number_value
            | lparen ↦ elim too_deep [ true ↦ fails nesting_limit | false ↦ p ]
            | _ ↦ fails grammar
          ])
  primary-SameEnd number too_deep rest x v p a h = Agrees-step rest x a
  primary-SameEnd lparen true rest x v p a h = inr refl
  primary-SameEnd lparen false rest x v p a h = h
  primary-SameEnd _ too_deep rest x v p a h = inr refl

  mutual
    unfolding Validator.additive Validator.additive_loop Validator.multiplicative
        Validator.multiplicative_loop Validator.unary Validator.postfix Validator.power
        Validator.primary Parser.additive Parser.additive_loop Parser.multiplicative
        Parser.multiplicative_loop Parser.unary Parser.postfix Parser.power Parser.primary

    additive-SameEnd :
        (f n : ℕ) (ts : List Token) → SameEnd (Validator.additive f n ts) (Parser.additive d f n ts)
    additive-SameEnd zero n ts = inr refl
    additive-SameEnd (suc f) n ts =
        Agrees-bind SameRest _ _ _ _ (multiplicative-SameEnd f n ts)
          (λ rest x. additive_loop-SameEnd f n x rest)

    additive_loop-SameEnd :
        (f n : ℕ) (value : D) (ts : List Token)
        → SameEnd (Validator.additive_loop f n ts) (Parser.additive_loop d f n (value, ts))
    additive_loop-SameEnd zero n value ts = inr refl
    additive_loop-SameEnd (suc f) n value ts =
        Agrees-accept SameRest (accept is_additive ts) _ _ _ _ refl (λ t rest.
          Agrees-bind SameRest _ _ _ _
            (Agrees-bind_right SameRest _ _ _ (multiplicative-SameEnd f n rest)
              (λ after x. Agrees-step after _ (add_step-IsArithmetical d t.kind value x)))
            (λ after x. additive_loop-SameEnd f n x after))

    multiplicative-SameEnd :
        (f n : ℕ) (ts : List Token)
        → SameEnd (Validator.multiplicative f n ts) (Parser.multiplicative d f n ts)
    multiplicative-SameEnd zero n ts = inr refl
    multiplicative-SameEnd (suc f) n ts =
        Agrees-bind SameRest _ _ _ _ (unary-SameEnd f n ts)
          (λ rest x. multiplicative_loop-SameEnd f n x rest)

    multiplicative_loop-SameEnd :
        (f n : ℕ) (value : D) (ts : List Token)
        → SameEnd
            (Validator.multiplicative_loop f n ts)
            (Parser.multiplicative_loop d f n (value, ts))
    multiplicative_loop-SameEnd zero n value ts = inr refl
    multiplicative_loop-SameEnd (suc f) n value ts =
        Agrees-accept SameRest (accept is_multiplicative ts) _ _ _ _ refl (λ t rest.
          Agrees-bind SameRest _ _ _ _
            (Agrees-bind_right SameRest _ _ _ (unary-SameEnd f n rest)
              (λ after x. Agrees-step after _ (multiply_step-IsArithmetical d t.kind value x)))
            (λ after x. multiplicative_loop-SameEnd f n x after))

    unary-SameEnd :
        (f n : ℕ) (ts : List Token) → SameEnd (Validator.unary f n ts) (Parser.unary d f n ts)
    unary-SameEnd zero n ts = inr refl
    unary-SameEnd (suc f) n ts =
        Agrees-accept SameRest (accept is_additive ts) _ _ _ _ (postfix-SameEnd f n ts) (λ t rest.
          Agrees-bind_right SameRest _ _ _ (unary-SameEnd f n rest)
            (λ after x. Agrees-step after _ (sign_step-IsArithmetical d t.kind x)))

    postfix-SameEnd :
        (f n : ℕ) (ts : List Token) → SameEnd (Validator.postfix f n ts) (Parser.postfix d f n ts)
    postfix-SameEnd zero n ts = inr refl
    postfix-SameEnd (suc f) n ts =
        Agrees-bind SameRest _ _ _ _ (power-SameEnd f n ts) (λ rest x. percents-SameEnd rest x)

    power-SameEnd :
        (f n : ℕ) (ts : List Token) → SameEnd (Validator.power f n ts) (Parser.power d f n ts)
    power-SameEnd zero n ts = inr refl
    power-SameEnd (suc f) n ts =
        Agrees-bind SameRest _ _ _ _ (any_primary-SameEnd f n ts) (λ after x.
          Agrees-accept SameRest (accept is_power after) _ _ _ _ refl (λ t rest.
            Agrees-bind_right SameRest _ _ _ (unary-SameEnd f n rest)
              (λ end y. Agrees-step end _ (power_step-IsArithmetical d x y))))

    any_primary-SameEnd :
        (f n : ℕ) (ts : List Token) → SameEnd (Validator.primary f n ts) (Parser.primary d f n ts)
    any_primary-SameEnd zero n ts = inr refl
    any_primary-SameEnd (suc f) n [] = inr refl
    any_primary-SameEnd (suc f) n (t ∷ rest) =
        primary-SameEnd t.kind (ltb max_nesting_depth (n + 1)) rest _ _ _
          (literal_value-IsArithmetical d t.value)
          (Agrees-bind SameRest _ _ _ _ (additive-SameEnd f (n + 1) rest)
            (λ after x. closing-SameEnd after x))

  returned-Agrees : (a : Answer D) → IsArithmetical a → Agrees (λ _ _. Unit {0}) (gives (tt {0})) a
  returned-Agrees (gives x) h = tt
  returned-Agrees (fails e) h = h

  -- On every token list the parser and the validator agree: the parser returns only what the
  -- validator accepts; where the validator refuses, the parser refuses with the same failure or
  -- stopped on its arithmetic before; where it accepts, the parser can fail on its arithmetic only.
  pub parse-Agrees :
      (f : ℕ) (ts : List Token) → Agrees (λ _ _. Unit {0}) (validate f ts) (parse d f ts)
  unfolding validate parse
  parse-Agrees f ts =
      Agrees-bind (λ _ _. Unit) _ _ _ _ (additive-SameEnd f 0 ts)
        (λ rest x. go (is_eof (kind_of rest)) x)
    where
      go :
          (b : Bool) (x : D)
          → Agrees
              (λ _ _. Unit {0})
              (if b then gives tt else fails grammar)
              (if b then bounded d x else fails grammar)
      go true x = returned-Agrees (bounded d x) (bounded-IsArithmetical d x)
      go false x = inr refl
