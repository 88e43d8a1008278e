-- ===== src/Calculator/Fuel.antt =====
-- The validator never runs out of fuel: six units for each token are enough.
use amit_ai.Common.{
  ltb, Bool-cases, length, ℕ, zero, suc, ◌+◌, ◌*◌, ◌≤◌, ◌≡◌, refl, ◌≢◌, inl, inr, Bool, true, false,
  Option, none, some, List, [], ◌∷◌, arith,
}
use amit_ai.Calculator.Types.{
  Kind, Token, number, lparen, grammar, nesting_limit, out_of_fuel, Answer, gives, fails, ◌>>=◌,
  kind_of, is_eof, is_power, is_percent, is_additive, is_multiplicative, accept, advance_rparen,
  max_nesting_depth, is_rparen,
}
use amit_ai.Calculator.Validator.{
  skip_percents, additive, additive_loop, multiplicative, multiplicative_loop, unary, postfix,
  power, primary, validate, at_end,
}

-- A run that did not stop for fuel, with at most `n` tokens to come.
abbrev pub Runs : ℕ → Answer (List Token) → Type 0
Runs n (gives rest) = length rest ≤ n
Runs n (fails e) = e ≢ out_of_fuel

Runs-bind :
    (n m : ℕ) (v : Answer (List Token)) (k : List Token → Answer (List Token))
    → Runs n v
    → ((rest : List Token) → length rest ≤ n → Runs m (k rest))
    → Runs m (v >>= k)
Runs-bind n m (gives rest) k h step = step rest h
Runs-bind n m (fails e) k h step = h

Runs-weaken : (n m : ℕ) (v : Answer (List Token)) → n ≤ m → Runs n v → Runs m v
Runs-weaken n m (gives rest) l h = omega (arith, l, h)
Runs-weaken n m (fails e) l h = h

skip_percents-length : (ts : List Token) → length (skip_percents ts) ≤ length ts
unfolding skip_percents
skip_percents-length [] = omega arith
skip_percents-length (t ∷ ts) = elim (Bool-cases (is_percent t.kind)) [
  | inl y ↦ rw (y, length) (omega (arith, skip_percents-length ts))
  | inr f ↦ rw (f, length) (omega arith)
]

-- Passing a token leaves fewer.
accept-length :
    (p : Kind → Bool) (ts rest : List Token) (t : Token)
    → accept p ts ≡ some (t, rest)
    → length rest + 1 ≤ length ts
accept-length p (u ∷ ts) rest t e = ground arith
accept-length p [] rest t e = ground arith

advance_rparen-Runs : (n : ℕ) (ts : List Token) → length ts ≤ n → Runs n (advance_rparen ts)
advance_rparen-Runs n [] h = ground arith
advance_rparen-Runs n (t ∷ ts) h = elim (Bool-cases (is_rparen t.kind)) [
  | inl y ↦ rw (y, Runs) (omega (arith, h))
  | inr f ↦ rw (f, Runs) (λ e. ground arith)
]

-- The two ways on from a look at the current token.
Runs-accept :
    (n : ℕ) (o : Option (Token × List Token)) (a : Answer (List Token))
    (k : List Token → Answer (List Token))
    → Runs n a
    → ((t : Token) (rest : List Token) → o ≡ some (t, rest) → Runs n (k rest))
    → Runs n (elim o [ none ↦ a | some (_, rest) ↦ k rest ])
Runs-accept n none a k h step = h
Runs-accept n (some (t, rest)) a k h step = step t rest refl

Runs-primary :
    (n : ℕ) (k : Kind) (too_deep : Bool) (rest : List Token) (inner : Answer (List Token))
    → length rest ≤ n
    → Runs n inner
    → Runs n (elim k [
      | number ↦ gives rest
      | lparen ↦ elim too_deep [ true ↦ fails nesting_limit | false ↦ inner ]
      | _ ↦ fails grammar
    ])
Runs-primary n number too_deep rest inner l h = l
Runs-primary n lparen true rest inner l h = λ e. ground arith
Runs-primary n lparen false rest inner l h = h
Runs-primary n _ too_deep rest inner l h = λ e. ground arith

mutual
  unfolding additive additive_loop multiplicative multiplicative_loop unary postfix power primary

  additive-Runs :
      (f n : ℕ) (ts : List Token) → 6 * length ts + 6 ≤ f → Runs (length ts) (additive f n ts)
  additive-Runs zero n ts h = ground arith
  additive-Runs (suc f) n ts h =
      Runs-bind (length ts) (length ts) _ _ (multiplicative-Runs f n ts (omega (arith, h)))
        (λ rest l.
          Runs-weaken (length rest) _ _ l (additive_loop-Runs f n rest (omega (arith, h, l))))

  additive_loop-Runs :
      (f n : ℕ) (ts : List Token) → 6 * length ts + 1 ≤ f → Runs (length ts) (additive_loop f n ts)
  additive_loop-Runs zero n ts h = ground arith
  additive_loop-Runs (suc f) n ts h =
      Runs-accept (length ts) (accept is_additive ts) _ _ (omega arith) (λ t rest e.
        let shorter = accept-length is_additive ts rest t e in
        (Runs-bind (length rest) (length ts) _ _
          (multiplicative-Runs f n rest (omega (arith, h, shorter)))
          (λ after l.
            Runs-weaken (length after) _ _ (omega (arith, l, shorter))
              (additive_loop-Runs f n after (omega (arith, h, l, shorter))))))

  multiplicative-Runs :
      (f n : ℕ) (ts : List Token) → 6 * length ts + 5 ≤ f → Runs (length ts) (multiplicative f n ts)
  multiplicative-Runs zero n ts h = ground arith
  multiplicative-Runs (suc f) n ts h =
      Runs-bind (length ts) (length ts) _ _ (unary-Runs f n ts (omega (arith, h))) (λ rest l.
        Runs-weaken (length rest) _ _ l (multiplicative_loop-Runs f n rest (omega (arith, h, l))))

  multiplicative_loop-Runs :
      (f n : ℕ) (ts : List Token)
      → 6 * length ts + 1 ≤ f
      → Runs (length ts) (multiplicative_loop f n ts)
  multiplicative_loop-Runs zero n ts h = ground arith
  multiplicative_loop-Runs (suc f) n ts h =
      Runs-accept (length ts) (accept is_multiplicative ts) _ _ (omega arith) (λ t rest e.
        let shorter = accept-length is_multiplicative ts rest t e in
        (Runs-bind (length rest) (length ts) _ _ (unary-Runs f n rest (omega (arith, h, shorter)))
          (λ after l.
            Runs-weaken (length after) _ _ (omega (arith, l, shorter))
              (multiplicative_loop-Runs f n after (omega (arith, h, l, shorter))))))

  unary-Runs : (f n : ℕ) (ts : List Token) → 6 * length ts + 4 ≤ f → Runs (length ts) (unary f n ts)
  unary-Runs zero n ts h = ground arith
  unary-Runs (suc f) n ts h =
      Runs-accept (length ts) (accept is_additive ts) _ _ (postfix-Runs f n ts (omega (arith, h)))
        (λ t rest e.
          let shorter = accept-length is_additive ts rest t e in
          (Runs-weaken (length rest) _ _ (omega (arith, shorter))
            (unary-Runs f n rest (omega (arith, h, shorter)))))

  postfix-Runs :
      (f n : ℕ) (ts : List Token) → 6 * length ts + 3 ≤ f → Runs (length ts) (postfix f n ts)
  postfix-Runs zero n ts h = ground arith
  postfix-Runs (suc f) n ts h =
      Runs-bind (length ts) (length ts) _ _ (power-Runs f n ts (omega (arith, h)))
        (λ rest l. omega (arith, l, skip_percents-length rest))

  power-Runs : (f n : ℕ) (ts : List Token) → 6 * length ts + 2 ≤ f → Runs (length ts) (power f n ts)
  power-Runs zero n ts h = ground arith
  power-Runs (suc f) n ts h =
      Runs-bind (length ts) (length ts) _ _ (primary-Runs f n ts (omega (arith, h))) (λ after l.
        Runs-accept (length ts) (accept is_power after) _ _ l (λ t rest e.
          let shorter = accept-length is_power after rest t e in
          (Runs-weaken (length rest) _ _ (omega (arith, l, shorter))
            (unary-Runs f n rest (omega (arith, h, l, shorter))))))

  primary-Runs :
      (f n : ℕ) (ts : List Token) → 6 * length ts + 1 ≤ f → Runs (length ts) (primary f n ts)
  primary-Runs zero n ts h = ground arith
  primary-Runs (suc f) n [] h = λ e. ground arith
  primary-Runs (suc f) n (t ∷ rest) h =
      Runs-primary (length (t ∷ rest)) t.kind (ltb max_nesting_depth (n + 1)) rest _ (omega arith) (
        Runs-bind (length rest) (length (t ∷ rest)) _ _
          (additive-Runs f (n + 1) rest (omega (arith, h)))
          (λ after l. advance_rparen-Runs (length (t ∷ rest)) after (omega (arith, l))))

end_of-Runs : (n : ℕ) (v : Answer (List Token)) → Runs n v → (v >>= at_end) ≢ fails out_of_fuel
end_of-Runs n (fails x) r e = r (ground arith)
end_of-Runs n (gives rest) r e = elim (Bool-cases (is_eof (kind_of rest))) [
  | inl y ↦ ground arith
  | inr f ↦ ground arith
]

pub validate-returns :
    (f : ℕ) (ts : List Token) → 6 * length ts + 6 ≤ f → validate f ts ≢ fails out_of_fuel
unfolding validate
validate-returns f ts h e = end_of-Runs (length ts) (additive f 0 ts) (additive-Runs f 0 ts h) e
