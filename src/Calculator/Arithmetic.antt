-- ===== src/Calculator/Arithmetic.antt =====
-- The failures of the arithmetic steps of the parser.
use amit_ai.Common.{
  ltb, if◌then◌else◌, ◌≡◌, refl, Bool, true, false, not, ◌&&◌, ◌||◌, Option, none, some,
}
use amit_ai.Common.Texts.{Text}
use amit_ai.Calculator.Types.{
  Kind, plus, minus, divide, exponent_not_integer, exponent_limit, zero_division, magnitude_limit,
  decimal_exception, invalid_literal, Failure, is_arithmetic, Answer, gives, fails, ◌>>=◌, Decimal,
  is_negative, magnitude,
}
use amit_ai.Calculator.Parser.{
  bounded, or_fails, add_step, multiply_step, sign_step, power_step, literal_value,
  max_exponent_magnitude,
}

abbrev pub IsArithmetical : {D : Type 0} → Answer D → Type 0
IsArithmetical (gives x) = Unit
IsArithmetical (fails e) = is_arithmetic e ≡ true

module _ {D : Type 0} where
  IsArithmetical-bind :
      (a : Answer D) (k : D → Answer D)
      → IsArithmetical a
      → ((x : D) → IsArithmetical (k x))
      → IsArithmetical (a >>= k)
  IsArithmetical-bind (gives x) k h step = step x
  IsArithmetical-bind (fails e) k h step = h

  IsArithmetical-if :
      (b : Bool) (x y : Answer D)
      → IsArithmetical x
      → IsArithmetical y
      → IsArithmetical (if b then x else y)
  IsArithmetical-if true x y h k = h
  IsArithmetical-if false x y h k = k

  or_fails-IsArithmetical :
      (e : Failure) (o : Option D) → is_arithmetic e ≡ true → IsArithmetical (or_fails e o)
  or_fails-IsArithmetical e none h = h
  or_fails-IsArithmetical e (some x) h = tt

  guarded-IsArithmetical :
      (a b c : Bool) (r : Answer D)
      → IsArithmetical r
      → IsArithmetical (
          if a
          then fails exponent_not_integer
          else if b
          then fails exponent_limit
          else if c
          then fails zero_division
          else r)
  guarded-IsArithmetical true b c r h = refl
  guarded-IsArithmetical false true c r h = refl
  guarded-IsArithmetical false false true r h = refl
  guarded-IsArithmetical false false false r h = h

module _ {D : Type 0} (d : Decimal D) where
  pub bounded-IsArithmetical : (x : D) → IsArithmetical (bounded d x)
  unfolding bounded
  bounded-IsArithmetical x =
      IsArithmetical-if (not (d.is_finite x) || d.exceeds_limit x) (fails magnitude_limit) (gives x)
        refl tt

  pub checked-IsArithmetical :
      (e : Failure) (o : Option D)
      → is_arithmetic e ≡ true
      → IsArithmetical (or_fails e o >>= bounded d)
  checked-IsArithmetical e o h =
      IsArithmetical-bind (or_fails e o) (bounded d) (or_fails-IsArithmetical e o h)
        bounded-IsArithmetical

  pub add_step-IsArithmetical : (k : Kind) (x y : D) → IsArithmetical (add_step d k x y)
  unfolding add_step
  add_step-IsArithmetical plus x y = checked-IsArithmetical decimal_exception (d.add x y) refl
  add_step-IsArithmetical _ x y = checked-IsArithmetical decimal_exception (d.subtract x y) refl

  pub multiply_step-IsArithmetical : (k : Kind) (x y : D) → IsArithmetical (multiply_step d k x y)
  unfolding multiply_step
  multiply_step-IsArithmetical divide x y =
      IsArithmetical-if (d.is_zero y) (fails zero_division) _ refl
        (checked-IsArithmetical decimal_exception (d.divide_by x y) refl)
  multiply_step-IsArithmetical _ x y =
      checked-IsArithmetical decimal_exception (d.multiply_by x y) refl

  pub sign_step-IsArithmetical : (k : Kind) (x : D) → IsArithmetical (sign_step d k x)
  unfolding sign_step
  sign_step-IsArithmetical minus x = checked-IsArithmetical decimal_exception (d.negate x) refl
  sign_step-IsArithmetical _ x = tt

  pub power_step-IsArithmetical : (x y : D) → IsArithmetical (power_step d x y)
  unfolding power_step
  power_step-IsArithmetical x y =
      let n = d.to_int (d.to_integral_value y) in
      guarded-IsArithmetical (not (d.equals y (d.to_integral_value y)))
        (ltb max_exponent_magnitude (magnitude n)) (d.is_zero x && is_negative n)
        (or_fails magnitude_limit (d.raise_to x n) >>= bounded d)
        (checked-IsArithmetical magnitude_limit (d.raise_to x n) refl)

  pub literal_value-IsArithmetical : (t : Text) → IsArithmetical (literal_value d t)
  unfolding literal_value
  literal_value-IsArithmetical t = checked-IsArithmetical invalid_literal (d.literal t) refl
