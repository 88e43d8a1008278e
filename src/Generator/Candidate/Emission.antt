-- ===== src/Generator/Candidate/Emission.antt =====
-- What `normalize` has emitted depends on the whole text that was fed to it, not on its pieces.
use amit_ai.Common.{
  Bool-cases, ◌≡◌, refl, sym, ap, ◌∙◌, inl, inr, true, false, [], ◌∷◌, ◌++◌, append-nil,
  append_assoc, arith,
}
use amit_ai.Common.Texts.{Text, is_space, lstrip, strip, is_empty}
use amit_ai.Generator.Candidate.{split_trailing, Emitter, normalize}
use amit_ai.Generator.Candidate.Whitespace.{
  lstrip-append_empty, lstrip-append, split_trailing-join, split_trailing-append_space,
  split_trailing-append, rstrip-split_trailing,
}

abbrev emitter : Text × Text → Emitter
emitter (kept, spaces) = record { pending = spaces; emitted = kept }

-- the emitter that a text leaves
abbrev pub emitter_of : Text → Emitter
emitter_of text = emitter (split_trailing (lstrip text))

rest_all_space : (x : Text) → split_trailing (split_trailing x).1 ≡ ([], (split_trailing x).1)
unfolding split_trailing
rest_all_space [] = refl
rest_all_space (c ∷ x) = elim (Bool-cases (is_empty (split_trailing x).0)) [
  | inr more ↦ rw more (rest_all_space x)
  | inl ends ↦ elim (Bool-cases (is_space c)) [
    | inl space ↦ rw (ends, space) (rw (rest_all_space x, space) refl)
    | inr other ↦ rw (ends, other) (rest_all_space x)
  ]
]

-- Once something was emitted, only the held spaces matter.
split_after :
    (x y : Text)
    → split_trailing (x ++ y) ≡ (
      (split_trailing x).0 ++ (split_trailing ((split_trailing x).1 ++ y)).0,
      (split_trailing ((split_trailing x).1 ++ y)).1,
    )
split_after x y = elim (Bool-cases (is_empty (split_trailing y).0)) [
  | inl spaces ↦
      rw
        (
          split_trailing-append_space x y spaces,
          split_trailing-append_space (split_trailing x).1 y spaces,
          rest_all_space x,
          append-nil,
        )
        refl
  | inr more ↦
      rw (split_trailing-append x y more, split_trailing-append (split_trailing x).1 y more)
        (ap (λ t. (t, (split_trailing y).1))
          (ap (λ t. t ++ (split_trailing y).0) (sym (split_trailing-join x))
            ∙ append_assoc (split_trailing x).0 (split_trailing x).1 (split_trailing y).0))
]

normalize_started :
    (x piece : Text)
    → is_empty (split_trailing x).0 ≡ false
    → (normalize piece (emitter (split_trailing x))).0 ≡ emitter (split_trailing (x ++ piece))
unfolding normalize
normalize_started x piece h = rw h (sym (ap emitter (split_after x piece)))

lstrip_all_space : (x : Text) → is_empty (split_trailing (lstrip x)).0 ≡ true → lstrip x ≡ []
unfolding split_trailing lstrip
lstrip_all_space [] h = refl
lstrip_all_space (c ∷ x) h = elim (Bool-cases (is_space c)) [
  | inl space ↦ rw space (lstrip_all_space x (rw space at h))
  | inr other ↦ elim (Bool-cases (is_empty (split_trailing x).0)) [
    | inl ends ↦ ground (arith, rw (other, ends) at h)
    | inr more ↦ ground (arith, rw (other, more) at h)
  ]
]

normalize_new :
    (piece : Text)
    → (normalize piece (emitter (split_trailing []))).0 ≡ emitter (split_trailing (lstrip piece))
unfolding normalize split_trailing
normalize_new piece = refl

kept_significant : (x : Text) → is_empty (split_trailing x).0 ≡ false → is_empty x ≡ false
unfolding split_trailing
kept_significant [] h = h
kept_significant (c ∷ x) h = refl

pub normalize-emitter_of :
    (text piece : Text) → (normalize piece (emitter_of text)).0 ≡ emitter_of (text ++ piece)
normalize-emitter_of text piece = elim (Bool-cases (is_empty (split_trailing (lstrip text)).0)) [
  | inl nothing ↦
      let blank = lstrip_all_space text nothing in
      ap (λ t. (normalize piece (emitter (split_trailing t))).0) blank
      ∙ normalize_new piece
      ∙ ap (λ t. emitter (split_trailing t))
          (sym (lstrip-append_empty text piece (ap is_empty blank)))
  | inr started ↦
      normalize_started (lstrip text) piece started
      ∙ ap (λ t. emitter (split_trailing t)) (sym (lstrip-append text piece (significant started)))
]
  where
    significant : is_empty (split_trailing (lstrip text)).0 ≡ false → is_empty (lstrip text) ≡ false
    significant started = kept_significant (lstrip text) started

-- what the emitter of a text has emitted is the text without white space at its ends
pub emitted-strip : (text : Text) → (emitter_of text).emitted ≡ strip text
unfolding strip
emitted-strip text = sym (rstrip-split_trailing (lstrip text))
