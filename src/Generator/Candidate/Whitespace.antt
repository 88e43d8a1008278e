-- ===== src/Generator/Candidate/Whitespace.antt =====
-- White space at the ends of a text that arrives in pieces.
use amit_ai.Common.{
  if◌then◌else◌, Bool-cases, ℕ, ◌≡◌, refl, sym, ap, ◌∙◌, inl, inr, true, false, ◌&&◌, [], ◌∷◌, ◌++◌,
  reverse, reverse-append, arith,
}
use amit_ai.Common.Texts.{Text, is_space, lstrip, rstrip, is_empty}
use amit_ai.Generator.Candidate.{split_trailing}

pub lstrip-append_empty : (x y : Text) → is_empty (lstrip x) ≡ true → lstrip (x ++ y) ≡ lstrip y
unfolding lstrip
lstrip-append_empty [] y h = refl
lstrip-append_empty (c ∷ x) y h = elim (Bool-cases (is_space c)) [
  | inl space ↦ rw space (lstrip-append_empty x y (rw space at h))
  | inr other ↦ ground (arith, h)
]

pub lstrip-append : (x y : Text) → is_empty (lstrip x) ≡ false → lstrip (x ++ y) ≡ lstrip x ++ y
unfolding lstrip
lstrip-append [] y h = ground arith
lstrip-append (c ∷ x) y h = elim (Bool-cases (is_space c)) [
  | inl space ↦ rw space (lstrip-append x y (rw space at h))
  | inr other ↦ rw other refl
]

pub empty-nil : (x : Text) → is_empty x ≡ true → x ≡ []
empty-nil [] h = refl
empty-nil (c ∷ x) h = ground arith

append-is_empty : (x y : Text) → is_empty y ≡ false → is_empty (x ++ y) ≡ false
append-is_empty [] y h = h
append-is_empty (c ∷ x) y h = refl

pub split_trailing-join : (x : Text) → (split_trailing x).0 ++ (split_trailing x).1 ≡ x
unfolding split_trailing
split_trailing-join [] = refl
split_trailing-join (c ∷ x) = elim (Bool-cases (is_empty (split_trailing x).0 && is_space c)) [
  | inl ends ↦ rw ends (
      ap (◌∷◌ c) (
        ap (λ t. t ++ (split_trailing x).1)
          (sym (empty-nil (split_trailing x).0 (ground (arith, ends))))
        ∙ split_trailing-join x))
  | inr more ↦ rw more (ap (◌∷◌ c) (split_trailing-join x))
]

pub split_trailing-all :
    (y : Text) → is_empty (split_trailing y).0 ≡ true → split_trailing y ≡ ([], y)
split_trailing-all y h =
    let none_kept = empty-nil (split_trailing y).0 h in
    let spaces = ap (λ t. t ++ (split_trailing y).1) (sym none_kept) ∙ split_trailing-join y in
    ap (λ t. (t, (split_trailing y).1)) none_kept ∙ ap (λ t. ([], t)) spaces

-- the two ways of a text that ends in white space, or in more than that
pub split_trailing-append_space :
    (x y : Text)
    → is_empty (split_trailing y).0 ≡ true
    → split_trailing (x ++ y) ≡ ((split_trailing x).0, (split_trailing x).1 ++ y)
unfolding split_trailing
split_trailing-append_space [] y h = split_trailing-all y h
split_trailing-append_space (c ∷ x) y h =
    rw (split_trailing-append_space x y h)
      (elim (Bool-cases (is_empty (split_trailing x).0 && is_space c)) [
        | inl ends ↦ rw ends refl
        | inr more ↦ rw more refl
      ])

pub split_trailing-append :
    (x y : Text)
    → is_empty (split_trailing y).0 ≡ false
    → split_trailing (x ++ y) ≡ (x ++ (split_trailing y).0, (split_trailing y).1)
unfolding split_trailing
split_trailing-append [] y h = refl
split_trailing-append (c ∷ x) y h =
    rw (split_trailing-append x y h, append-is_empty x (split_trailing y).0 h) refl

reverse-is_empty : (x : Text) → is_empty (reverse x) ≡ is_empty x
reverse-is_empty [] = refl
reverse-is_empty (c ∷ x) =
    ap is_empty (reverse-append (c ∷ []) x) ∙ append-is_empty (reverse x) (c ∷ []) refl

last_only :
    (c : ℕ) (r : Text)
    → is_empty r ≡ true
    → reverse (lstrip (c ∷ [])) ≡ (if is_empty (reverse r) && is_space c then [] else c ∷ reverse r)
unfolding lstrip
last_only c [] h = elim (Bool-cases (is_space c)) [
  | inl space ↦ rw space refl
  | inr other ↦ rw other refl
]
last_only c (d ∷ r) h = ground arith

more_than_last :
    (c : ℕ) (r : Text)
    → is_empty r ≡ false
    → reverse (r ++ c ∷ []) ≡ (if is_empty (reverse r) && is_space c then [] else c ∷ reverse r)
more_than_last c r h = rw (reverse-append r (c ∷ []), reverse-is_empty r, h) refl

rstrip_cons :
    (c : ℕ) (x : Text)
    → rstrip (c ∷ x) ≡ (if is_empty (rstrip x) && is_space c then [] else c ∷ rstrip x)
unfolding rstrip
rstrip_cons c x =
    ap (λ t. reverse (lstrip t)) (reverse-append (c ∷ []) x)
    ∙ elim (Bool-cases (is_empty (lstrip (reverse x)))) [
      | inl none_left ↦
          ap reverse (lstrip-append_empty (reverse x) (c ∷ []) none_left)
          ∙ last_only c (lstrip (reverse x)) none_left
      | inr more ↦
          ap reverse (lstrip-append (reverse x) (c ∷ []) more)
          ∙ more_than_last c (lstrip (reverse x)) more
    ]

pub rstrip-split_trailing : (x : Text) → rstrip x ≡ (split_trailing x).0
unfolding split_trailing
rstrip-split_trailing [] = unfold rstrip lstrip in refl
rstrip-split_trailing (c ∷ x) =
    rstrip_cons c x
    ∙ (rw (rstrip-split_trailing x)
        (elim (Bool-cases (is_empty (split_trailing x).0 && is_space c)) [
          | inl ends ↦ rw ends refl
          | inr more ↦ rw more refl
        ]))
