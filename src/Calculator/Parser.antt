-- ===== src/Calculator/Parser.antt =====
-- runtime/calculator.py, `_Parser`: the grammar of the validator, with the values.
use amit_ai.Common.{
  ltb, if◌then◌else◌, ℕ, zero, suc, ◌+◌, true, false, not, ◌&&◌, ◌||◌, Option, none, some, List, [],
  ◌∷◌,
}
use amit_ai.Common.Texts.{Text}
use amit_ai.Calculator.Types.{
  Kind, plus, minus, divide, number, lparen, Token, grammar, nesting_limit, out_of_fuel,
  invalid_literal, magnitude_limit, zero_division, exponent_not_integer, exponent_limit,
  decimal_exception, Failure, Answer, gives, fails, ◌>>=◌, kind_of, is_eof, is_power, is_percent,
  is_additive, is_multiplicative, accept, advance_rparen, max_nesting_depth, Decimal, magnitude,
  is_negative,
}

abbrev pub max_exponent_magnitude : ℕ
max_exponent_magnitude = 100

-- a value with the tokens to come after it
abbrev pub and_rest : {D : Type 0} → List Token → Answer D → Answer (D × List Token)
and_rest rest (gives x) = gives (x, rest)
and_rest rest (fails e) = fails e

-- a decimal operation, where a DecimalException becomes `failure` or passes
abbrev pub or_fails : {D : Type 0} → Failure → Option D → Answer D
or_fails failure none = fails failure
or_fails failure (some x) = gives x

module _ {D : Type 0} (d : Decimal D) where
  unfoldable pub bounded : D → Answer D
  bounded x = if not (d.is_finite x) || d.exceeds_limit x then fails magnitude_limit else gives x

  -- one turn of the loop of `additive`
  unfoldable pub add_step : Kind → D → D → Answer D
  unfolding bounded
  add_step plus value right = or_fails decimal_exception (d.add value right) >>= bounded
  add_step _ value right = or_fails decimal_exception (d.subtract value right) >>= bounded

  -- one turn of the loop of `multiplicative`
  unfoldable pub multiply_step : Kind → D → D → Answer D
  unfolding bounded
  multiply_step divide value right =
      if d.is_zero right
      then fails zero_division
      else or_fails decimal_exception (d.divide_by value right) >>= bounded
  multiply_step _ value right = or_fails decimal_exception (d.multiply_by value right) >>= bounded

  unfoldable pub sign_step : Kind → D → Answer D
  unfolding bounded
  sign_step minus value = or_fails decimal_exception (d.negate value) >>= bounded
  sign_step _ value = gives value

  -- the loop of `postfix`
  unfoldable pub percents : D → List Token → Answer (D × List Token)
  unfolding bounded
  percents value [] = gives (value, [])
  percents value (t ∷ ts) = elim (is_percent t.kind) [
    | true ↦
        or_fails decimal_exception (d.divide_by value d.hundred) >>= bounded >>= λ x. percents x ts
    | false ↦ gives (value, t ∷ ts)
  ]

  -- the end of `power`, once the exponent is read
  unfoldable pub power_step : D → D → Answer D
  unfolding bounded
  power_step value exponent =
      let integral = d.to_integral_value exponent in
      let n = d.to_int integral in
      if not (d.equals exponent integral)
      then fails exponent_not_integer
      else if ltb max_exponent_magnitude (magnitude n)
      then fails exponent_limit
      else if d.is_zero value && is_negative n
      then fails zero_division
      else or_fails magnitude_limit (d.raise_to value n) >>= bounded

  unfoldable pub literal_value : Text → Answer D
  unfolding bounded
  literal_value text = or_fails invalid_literal (d.literal text) >>= bounded

  unfoldable mutual
    unfolding add_step multiply_step sign_step percents power_step literal_value

    pub additive : ℕ → ℕ → List Token → Answer (D × List Token)
    additive zero n ts = fails out_of_fuel
    additive (suc f) n ts = multiplicative f n ts >>= additive_loop f n

    pub additive_loop : ℕ → ℕ → D × List Token → Answer (D × List Token)
    additive_loop zero n (value, ts) = fails out_of_fuel
    additive_loop (suc f) n (value, ts) = elim (accept is_additive ts) [
      | none ↦ gives (value, ts)
      | some (operator, rest) ↦
          multiplicative f n rest
          >>= (λ right. and_rest right.1 (add_step operator.kind value right.0))
          >>= additive_loop f n
    ]

    pub multiplicative : ℕ → ℕ → List Token → Answer (D × List Token)
    multiplicative zero n ts = fails out_of_fuel
    multiplicative (suc f) n ts = unary f n ts >>= multiplicative_loop f n

    pub multiplicative_loop : ℕ → ℕ → D × List Token → Answer (D × List Token)
    multiplicative_loop zero n (value, ts) = fails out_of_fuel
    multiplicative_loop (suc f) n (value, ts) = elim (accept is_multiplicative ts) [
      | none ↦ gives (value, ts)
      | some (operator, rest) ↦
          unary f n rest
          >>= (λ right. and_rest right.1 (multiply_step operator.kind value right.0))
          >>= multiplicative_loop f n
    ]

    pub unary : ℕ → ℕ → List Token → Answer (D × List Token)
    unary zero n ts = fails out_of_fuel
    unary (suc f) n ts = elim (accept is_additive ts) [
      | none ↦ postfix f n ts
      | some (sign, rest) ↦
          unary f n rest >>= λ operand. and_rest operand.1 (sign_step sign.kind operand.0)
    ]

    pub postfix : ℕ → ℕ → List Token → Answer (D × List Token)
    postfix zero n ts = fails out_of_fuel
    postfix (suc f) n ts = power f n ts >>= λ (value, rest). percents value rest

    pub power : ℕ → ℕ → List Token → Answer (D × List Token)
    power zero n ts = fails out_of_fuel
    power (suc f) n ts = primary f n ts >>= λ (value, after). elim (accept is_power after) [
      | none ↦ gives (value, after)
      | some (_, rest) ↦
          unary f n rest >>= λ exponent. and_rest exponent.1 (power_step value exponent.0)
    ]

    pub primary : ℕ → ℕ → List Token → Answer (D × List Token)
    primary zero n ts = fails out_of_fuel
    primary (suc f) n [] = fails grammar
    primary (suc f) n (t ∷ rest) = elim t.kind [
      | number ↦ and_rest rest (literal_value t.value)
      | lparen ↦ elim (ltb max_nesting_depth (n + 1)) [
        | true ↦ fails nesting_limit
        | false ↦ additive f (n + 1) rest >>= λ (value, after).
            advance_rparen after >>= λ closed. gives (value, closed)
      ]
      | _ ↦ fails grammar
    ]

  -- `parse`
  unfoldable pub parse : ℕ → List Token → Answer D
  unfolding additive bounded
  parse f ts = additive f 0 ts >>= λ (value, rest).
      if is_eof (kind_of rest) then bounded value else fails grammar
