-- ===== src/Calculator/Agreement.antt =====
-- What it means that the parser read the tokens that the validator read.
pub mod Parsing
use amit_ai.Common.{
  ltb, leb, ◌==◌, if◌then◌else◌, ==_iff, Bool-cases, Option-cases, is_some, is_nil, length, take,
  drop, any, keep, find, count, All, length-append, length-keep-le, count-append, All-append,
  All-weaken, ℕ, zero, suc, ◌+◌, ◌-◌, ◌*◌, ◌≤◌, ◌<◌, min, String, ◌≡◌, refl, sym, ap, ◌∙◌, fun_ext,
  ◌≢◌, ◌↔◌, ◌⊎◌, inl, inr, Bool, true, false, not, ◌&&◌, ◌||◌, Option, none, some, List, [], ◌∷◌,
  ◌++◌, map, reverse, append-nil, append_assoc, reverse-append, reverse-reverse, arith, ℕ_discrete,
  str_eq, str_eq_iff,
}
use amit_ai.Common.Texts.{
  Text, codes, is_space, eqb, starts_with, lstrip, rstrip, strip, is_empty, eqb→eq, eqb_refl, split,
  join, contains, is_member,
}
use mathlib.Core.Path.{subst}
use amit_ai.Calculator.Types.{
  Kind, Token, number, lparen, Failure, is_arithmetic, grammar, nesting_limit, out_of_fuel, Answer,
  gives, fails, ◌>>=◌, kind_of, is_eof, is_power, is_percent, is_additive, is_multiplicative,
  accept, advance_rparen, max_nesting_depth, is_rparen, Decimal, is_negative, magnitude,
}
use amit_ai.Calculator.Arithmetic.{IsArithmetical}
use amit_ai.Calculator.Parser.{and_rest}

-- The parser stopped where the validator did, or on its arithmetic before.
abbrev pub Agrees : {A B : Type 0} → (A → B → Type 0) → Answer A → Answer B → Type 0
Agrees R (gives a) (gives b) = R a b
Agrees R (gives a) (fails e) = is_arithmetic e ≡ true
Agrees R (fails e) (gives b) = ⊥
Agrees R (fails e) (fails e') = (is_arithmetic e' ≡ true) ⊎ (e ≡ e')

pub Agrees-arithmetic :
    {A B : Type 0} (R : A → B → Type 0) (v : Answer A) (e : Failure)
    → is_arithmetic e ≡ true
    → Agrees R v (fails e)
Agrees-arithmetic R (gives a) e h = h
Agrees-arithmetic R (fails e') e h = inl h

pub Agrees-accept :
    {A B : Type 0} (R : A → B → Type 0) (o : Option (Token × List Token)) (a : Answer A)
    (b : Answer B) (k : List Token → Answer A) (l : Token → List Token → Answer B)
    → Agrees R a b
    → ((t : Token) (rest : List Token) → Agrees R (k rest) (l t rest))
    → Agrees R
        (elim o [ none ↦ a | some (_, rest) ↦ k rest ])
        (elim o [ none ↦ b | some (t, rest) ↦ l t rest ])
Agrees-accept R none a b k l h step = h
Agrees-accept R (some (t, rest)) a b k l h step = step t rest

module _ {D : Type 0} where
  abbrev pub SameRest : List Token → D × List Token → Type 0
  SameRest rest (_, rest') = rest ≡ rest'

  pub Agrees-bind :
      {A B : Type 0} (R : A → B → Type 0) (v : Answer (List Token)) (p : Answer (D × List Token))
      (k : List Token → Answer A) (l : D × List Token → Answer B)
      → Agrees SameRest v p
      → ((rest : List Token) (x : D) → Agrees R (k rest) (l (x, rest)))
      → Agrees R (v >>= k) (p >>= l)
  Agrees-bind R (gives rest) (gives (x, rest')) k l h step =
      subst (λ r. Agrees R (k rest) (l (x, r))) h (step rest x)
  Agrees-bind R (gives rest) (fails e) k l h step = Agrees-arithmetic R (k rest) e h
  Agrees-bind R (fails e) (gives b) k l h step = absurd h
  Agrees-bind R (fails e) (fails e') k l h step = h

  -- an arithmetic step, after which the tokens are the validator's
  pub Agrees-step :
      (ts : List Token) (a : Answer D)
      → IsArithmetical a
      → Agrees SameRest (gives ts) (and_rest ts a)
  Agrees-step ts (gives x) h = refl
  Agrees-step ts (fails e) h = h

  pub Agrees-bind_right :
      {B : Type 0} (R : List Token → B → Type 0) (v : Answer (List Token))
      (p : Answer (D × List Token)) (l : D × List Token → Answer B)
      → Agrees SameRest v p
      → ((rest : List Token) (x : D) → Agrees R (gives rest) (l (x, rest)))
      → Agrees R v (p >>= l)
  Agrees-bind_right R (gives rest) (gives (x, rest')) l h step =
      subst (λ r. Agrees R (gives rest) (l (x, r))) h (step rest x)
  Agrees-bind_right R (gives rest) (fails e) l h step = h
  Agrees-bind_right R (fails e) (gives b) l h step = absurd h
  Agrees-bind_right R (fails e) (fails e') l h step = h

  pub Agrees-after :
      {A B : Type 0} (R : A → B → Type 0) (v : Answer A) (a : Answer D) (l : D → Answer B)
      → IsArithmetical a
      → ((x : D) → Agrees R v (l x))
      → Agrees R v (a >>= l)
  Agrees-after R v (gives x) l h step = step x
  Agrees-after R v (fails e) l h step = Agrees-arithmetic R v e h
