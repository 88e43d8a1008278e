-- ===== src/Calculator/Types.antt =====
-- runtime/calculator.py: tokens, failures and what the code takes from `decimal` and `str`.
use amit_ai.Common.{if◌then◌else◌, ℕ, ◌+◌, Bool, true, false, Option, none, some, List, [], ◌∷◌}
use amit_ai.Common.Texts.{Text}

pub data Kind : Type 0 where
  plus minus multiply divide lparen rparen percent power number of_word eof : Kind

-- `_Token`
pub record Token : Type 0 where
  pub kind : Kind
  pub value : Text

-- A `ToolFailure`, by the `raise` that makes it; `decimal_exception` is a DecimalException that no
-- handler turns into one, and `out_of_fuel` is none of the program's.
pub data Failure : Type 0 where
  no_digit invalid_literal literal_too_large identifier unsupported_syntax too_many_tokens : Failure
  grammar nesting_limit magnitude_limit zero_division exponent_not_integer : Failure
  exponent_limit empty_expression too_long wrong_arguments decimal_exception out_of_fuel : Failure

-- the failures of the arithmetic, after the tokens were read
abbrev pub is_arithmetic : Failure → Bool
is_arithmetic invalid_literal = true
is_arithmetic magnitude_limit = true
is_arithmetic zero_division = true
is_arithmetic exponent_not_integer = true
is_arithmetic exponent_limit = true
is_arithmetic decimal_exception = true
is_arithmetic _ = false

-- `exc.code == "division_by_zero"`
abbrev pub is_zero_division : Failure → Bool
is_zero_division zero_division = true
is_zero_division _ = false

pub data Answer {ℓ} (A : Type ℓ) : Type ℓ where
  gives : A → Answer A
  fails : Failure → Answer A

module _ {ℓ κ} {A : Type ℓ} {B : Type κ} where
  infixl 5 ◌>>=◌
  abbrev pub ◌>>=◌ : Answer A → (A → Answer B) → Answer B
  gives a >>= rest = rest a
  fails e >>= rest = fails e

-- an integer, over the native numbers
pub data ℤ : Type 0 where
  pos negsuc : ℕ → ℤ

abbrev pub magnitude : ℤ → ℕ
magnitude (pos n) = n
magnitude (negsuc n) = n + 1

abbrev pub is_negative : ℤ → Bool
is_negative (pos n) = false
is_negative (negsuc n) = true

-- What the calculator uses of `decimal` at precision 80; `none` where it raises a DecimalException.
pub record Decimal (D : Type 0) : Type 0 where
  pub literal : Text → Option D
  pub hundred : D
  pub add : D → D → Option D
  pub subtract : D → D → Option D
  pub multiply_by : D → D → Option D
  pub divide_by : D → D → Option D
  pub negate : D → Option D
  pub raise_to : D → ℤ → Option D
  pub is_zero : D → Bool
  pub is_finite : D → Bool
  pub exceeds_limit : D → Bool
  pub to_integral_value : D → D
  pub equals : D → D → Bool
  pub to_int : D → ℤ
  pub format : D → Text

-- What the tokenizer uses of `str`: `isdigit`, `isalpha` and `isalnum` of one character, `lower`.
pub record Characters : Type 0 where
  pub is_digit : ℕ → Bool
  pub is_alpha : ℕ → Bool
  pub is_alnum : ℕ → Bool
  pub lower : Text → Text

-- `kind` of `self.current`. The token EOF is the end of the list of the tokens to come.
abbrev pub kind_of : List Token → Kind
kind_of [] = eof
kind_of (t ∷ _) = t.kind

abbrev pub is_eof : Kind → Bool
is_eof eof = true
is_eof _ = false

abbrev pub is_rparen : Kind → Bool
is_rparen rparen = true
is_rparen _ = false

abbrev pub is_power : Kind → Bool
is_power power = true
is_power _ = false

abbrev pub is_percent : Kind → Bool
is_percent percent = true
is_percent _ = false

abbrev pub is_additive : Kind → Bool
is_additive plus = true
is_additive minus = true
is_additive _ = false

abbrev pub is_multiplicative : Kind → Bool
is_multiplicative multiply = true
is_multiplicative divide = true
is_multiplicative of_word = true
is_multiplicative _ = false

-- `if self.current.kind in {...}: self.index += 1`, with the token that was passed
abbrev pub accept : (Kind → Bool) → List Token → Option (Token × List Token)
accept p [] = none
accept p (t ∷ rest) = if p t.kind then some (t, rest) else none

-- `advance("RPAREN")`
abbrev pub advance_rparen : List Token → Answer (List Token)
advance_rparen ts = elim (accept is_rparen ts) [
  | none ↦ fails grammar
  | some (_, rest) ↦ gives rest
]

abbrev pub max_nesting_depth : ℕ
max_nesting_depth = 16
