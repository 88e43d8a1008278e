-- ===== src/Calculator/Validator.antt =====
-- runtime/calculator.py, `_GrammarValidator`. The state is the tokens to come and the nesting; each
-- call takes one unit of fuel.
use amit_ai.Common.{ltb, if◌then◌else◌, ℕ, zero, suc, ◌+◌, true, false, none, some, List, [], ◌∷◌}
use amit_ai.Calculator.Types.{
  number, lparen, Token, grammar, nesting_limit, out_of_fuel, Answer, gives, fails, ◌>>=◌, kind_of,
  is_eof, is_power, is_percent, is_additive, is_multiplicative, accept, advance_rparen,
  max_nesting_depth,
}

-- the loop of `postfix`
unfoldable pub skip_percents : List Token → List Token
skip_percents [] = []
skip_percents (t ∷ ts) = elim (is_percent t.kind) [ true ↦ skip_percents ts | false ↦ t ∷ ts ]

unfoldable mutual
  pub additive : ℕ → ℕ → List Token → Answer (List Token)
  additive zero n ts = fails out_of_fuel
  additive (suc f) n ts = multiplicative f n ts >>= additive_loop f n

  pub additive_loop : ℕ → ℕ → List Token → Answer (List Token)
  additive_loop zero n ts = fails out_of_fuel
  additive_loop (suc f) n ts = elim (accept is_additive ts) [
    | none ↦ gives ts
    | some (_, rest) ↦ multiplicative f n rest >>= additive_loop f n
  ]

  pub multiplicative : ℕ → ℕ → List Token → Answer (List Token)
  multiplicative zero n ts = fails out_of_fuel
  multiplicative (suc f) n ts = unary f n ts >>= multiplicative_loop f n

  pub multiplicative_loop : ℕ → ℕ → List Token → Answer (List Token)
  multiplicative_loop zero n ts = fails out_of_fuel
  multiplicative_loop (suc f) n ts = elim (accept is_multiplicative ts) [
    | none ↦ gives ts
    | some (_, rest) ↦ unary f n rest >>= multiplicative_loop f n
  ]

  pub unary : ℕ → ℕ → List Token → Answer (List Token)
  unary zero n ts = fails out_of_fuel
  unary (suc f) n ts = elim (accept is_additive ts) [
    | none ↦ postfix f n ts
    | some (_, rest) ↦ unary f n rest
  ]

  pub postfix : ℕ → ℕ → List Token → Answer (List Token)
  postfix zero n ts = fails out_of_fuel
  postfix (suc f) n ts = power f n ts >>= λ rest. gives (skip_percents rest)

  pub power : ℕ → ℕ → List Token → Answer (List Token)
  power zero n ts = fails out_of_fuel
  power (suc f) n ts = primary f n ts >>= λ after. elim (accept is_power after) [
    | none ↦ gives after
    | some (_, rest) ↦ unary f n rest
  ]

  pub primary : ℕ → ℕ → List Token → Answer (List Token)
  primary zero n ts = fails out_of_fuel
  primary (suc f) n [] = fails grammar
  primary (suc f) n (t ∷ rest) = elim t.kind [
    | number ↦ gives rest
    | lparen ↦ elim (ltb max_nesting_depth (n + 1)) [
      | true ↦ fails nesting_limit
      | false ↦ additive f (n + 1) rest >>= advance_rparen
    ]
    | _ ↦ fails grammar
  ]

-- the end of `parse`
abbrev pub at_end : List Token → Answer (Unit {0})
at_end rest = if is_eof (kind_of rest) then gives tt else fails grammar

-- `parse`
unfoldable pub validate : ℕ → List Token → Answer (Unit {0})
unfolding additive
validate f ts = additive f 0 ts >>= at_end
