-- ===== src/Memory/Rows.antt =====
-- Lemmas on rows that pass a test: counts, updates and appended rows.
use amit_ai.Common.{
  if◌then◌else◌, Bool-cases, any, keep, find, count, All, ◌≡◌, refl, ap, inl, inr, Bool, true,
  false, ◌||◌, none, some, List, [], ◌∷◌, ◌++◌, map, arith,
}
use mathlib.Core.Path.{subst}
use amit_ai.Memory.Tables.{update_where}

module _ {ℓ} {A : Type ℓ} where
  pub any-append : (p : A → Bool) (xs ys : List A) → any p (xs ++ ys) ≡ (any p xs || any p ys)
  any-append p [] ys = refl
  any-append p (x ∷ xs) ys = ground (arith, any-append p xs ys)

  -- an update keeps what a test says, if it keeps that of each row that it writes
  pub any-update_where :
      (q p : A → Bool) (f : A → A)
      → ((x : A) → q (f x) ≡ q x)
      → (xs : List A) → any q (update_where p f xs) ≡ any q xs
  any-update_where q p f h [] = refl
  any-update_where q p f h (x ∷ xs) = ground (arith, h x, any-update_where q p f h xs)

  pub count_of_any :
      (p q : A → Bool)
      → ((x : A) → p x ≡ true → q x ≡ true)
      → (xs : List A) → any q xs ≡ false
      → count p xs ≡ 0
  count_of_any p q h [] e = refl
  count_of_any p q h (x ∷ xs) e = ground (arith, h x, count_of_any p q h xs)

  -- a written row fails the test that chose it, so nothing passes it any more
  pub count-update_where :
      (p : A → Bool) (f : A → A)
      → ((x : A) → p (f x) ≡ false)
      → (xs : List A) → count p (update_where p f xs) ≡ 0
  count-update_where p f h [] = refl
  count-update_where p f h (x ∷ xs) = ground (arith, h x, count-update_where p f h xs)

  pub count-ext : (p q : A → Bool) → ((x : A) → p x ≡ q x) → (xs : List A) → count p xs ≡ count q xs
  count-ext p q h [] = refl
  count-ext p q h (x ∷ xs) = ground (arith, h x, count-ext p q h xs)

  pub count-map :
      (p q : A → Bool) (f : A → A)
      → ((x : A) → p (f x) ≡ q x)
      → (xs : List A) → count p (map f xs) ≡ count q xs
  count-map p q f h [] = refl
  count-map p q f h (x ∷ xs) = ground (arith, h x, count-map p q f h xs)

  -- rows that a test leaves out are not written
  pub keep-update_where :
      (q p : A → Bool) (f : A → A)
      → ((x : A) → p x ≡ true → (q x ≡ false) × (q (f x) ≡ false))
      → (xs : List A) → keep q (update_where p f xs) ≡ keep q xs
  keep-update_where q p f h [] = refl
  keep-update_where q p f h (x ∷ xs) = ground (arith, h x, keep-update_where q p f h xs)

  pub keep-append : (q : A → Bool) (xs ys : List A) → keep q (xs ++ ys) ≡ keep q xs ++ keep q ys
  keep-append q [] ys = refl
  keep-append q (x ∷ xs) ys = ground (arith, keep-append q xs ys)

  -- rows that a test keeps are the same after a map that changes only others
  pub keep-map :
      (q : A → Bool) (f : A → A)
      → ((x : A) → (q (f x) ≡ q x) × (q x ≡ true → f x ≡ x))
      → (xs : List A) → keep q (map f xs) ≡ keep q xs
  keep-map q f h [] = refl
  keep-map q f h (x ∷ xs) = elim (Bool-cases (q x)) [
    | inl t ↦ rw ((h x).1 t, t) (ap (◌∷◌ x) (keep-map q f h xs))
    | inr n ↦ rw ((h x).0, n) (keep-map q f h xs)
  ]

  pub update_where-eq-map :
      (p : A → Bool) (f : A → A) (xs : List A)
      → update_where p f xs ≡ map (λ x. if p x then f x else x) xs
  update_where-eq-map p f [] = refl
  update_where-eq-map p f (x ∷ xs) = ap (◌∷◌ (if p x then f x else x)) (update_where-eq-map p f xs)

  pub map-id : (f : A → A) → ((x : A) → f x ≡ x) → (xs : List A) → map f xs ≡ xs
  map-id f h [] = refl
  map-id f h (x ∷ xs) = ground (arith, h x, map-id f h xs)

module _ {ℓ} {A : Type ℓ} where
  pub any-map :
      (q p : A → Bool) (f : A → A)
      → ((x : A) → q (f x) ≡ p x)
      → (xs : List A) → any q (map f xs) ≡ any p xs
  any-map q p f h [] = refl
  any-map q p f h (x ∷ xs) = ground (arith, h x, any-map q p f h xs)

  pub any_of_count :
      (p q : A → Bool)
      → ((x : A) → p x ≡ true → q x ≡ true)
      → (xs : List A) → count p xs ≡ 1
      → any q xs ≡ true
  any_of_count p q h [] e = absurd (omega arith)
  any_of_count p q h (x ∷ xs) e = ground (arith, h x, any_of_count p q h xs)

module _ {ℓ} {A : Type ℓ} where
  pub any_of_find-none : (p : A → Bool) (xs : List A) → find p xs ≡ none → any p xs ≡ false
  any_of_find-none p [] e = refl
  any_of_find-none p (x ∷ xs) e = ground (arith, any_of_find-none p xs)

  pub find_of_any : (p : A → Bool) (xs : List A) → any p xs ≡ true → (x : A) × (find p xs ≡ some x)
  find_of_any p [] e = cc
  find_of_any p (x ∷ xs) e = elim (Bool-cases (p x)) [
    | inl t ↦ (x, rw t)
    | inr f ↦ rw f (find_of_any p xs (ground arith))
  ]

  pub any_of_find :
      (p q : A → Bool) (xs : List A) {x : A} → find p xs ≡ some x → q x ≡ true → any q xs ≡ true
  any_of_find p q [] e t = cc
  any_of_find p q (y ∷ ys) {x} e t = ground (arith, any_of_find p q ys {x = x})

module _ {ℓ κ} {A : Type ℓ} (P : A → Type κ) where
  pub count_of_All :
      (p : A → Bool) (f : A → A)
      → ((x : A) → P x → p (f x) ≡ false)
      → (xs : List A) → All P xs
      → count p (map f xs) ≡ 0
  count_of_All p f h [] a = refl
  count_of_All p f h (x ∷ xs) (a, rest) = ground (arith, h x a, count_of_All p f h xs rest)

  pub All-map_of : (f : A → A) → ((x : A) → P (f x)) → (xs : List A) → All P (map f xs)
  All-map_of f h [] = tt
  All-map_of f h (x ∷ xs) = (h x, All-map_of f h xs)

module _ {ℓ κ} {A : Type ℓ} (P : A → Type κ) where
  pub All-map :
      {Q : A → Type κ} (f : A → A)
      → ((x : A) → Q x → P (f x))
      → (xs : List A) → All Q xs
      → All P (map f xs)
  All-map f h [] a = tt
  All-map f h (x ∷ xs) (a, rest) = (h x a, All-map f h xs rest)

  pub All-of_any :
      (p : A → Bool) → ((x : A) → p x ≡ false → P x) → (xs : List A) → any p xs ≡ false → All P xs
  All-of_any p h [] e = tt
  All-of_any p h (x ∷ xs) e = (h x (ground arith), All-of_any p h xs (ground arith))

module _ {ℓ κ} {A : Type ℓ} (P Q : A → Type κ) where
  pub All-zip : (xs : List A) → All P xs → All Q xs → All (λ x. P x × Q x) xs
  All-zip [] a b = tt
  All-zip (x ∷ xs) (a, rest) (b, rest2) = ((a, b), All-zip xs rest rest2)

module _ {ℓ κ} {A : Type ℓ} (P : A → Type κ) where
  -- what is found in a table passes the test and has what every row has
  pub All-find :
      (p : A → Bool) (xs : List A) {x : A} → All P xs → find p xs ≡ some x → P x × (p x ≡ true)
  All-find p [] a e = cc
  All-find p (y ∷ ys) {x} (a, rest) e = elim (Bool-cases (p y)) [
    | inl t ↦ let q : y ≡ x = ground arith in subst (λ z. P z × (p z ≡ true)) q (a, t)
    | inr f ↦ All-find p ys rest (ground arith)
  ]

  pub any_of_All :
      (p : A → Bool) → ((x : A) → P x → p x ≡ false) → (xs : List A) → All P xs → any p xs ≡ false
  any_of_All p h [] a = refl
  any_of_All p h (x ∷ xs) (a, rest) = rw (h x a) (any_of_All p h xs rest)
