-- ===== src/Generator/Candidate/Prefix.antt =====
-- The classification of a prefix is final, unless it is ambiguous.
use amit_ai.Common.{
  if◌then◌else◌, Bool-cases, ◌≡◌, refl, sym, ap, ◌∙◌, ◌⊎◌, inl, inr, true, false, ◌||◌, [], ◌∷◌,
  ◌++◌, arith,
}
use amit_ai.Common.Texts.{Text, starts_with, lstrip, is_empty}
use amit_ai.Tooling.Protocol.{
  PrefixState, ambiguous, reserved, normal, classify_tool_protocol_prefix, call_start, result_start,
}
use amit_ai.Generator.Candidate.Whitespace.{lstrip-append}

starts_with-append :
    (x y start : Text) → starts_with x start ≡ true → starts_with (x ++ y) start ≡ true
starts_with-append x y [] h = ground arith
starts_with-append [] y (d ∷ start) h = ground arith
starts_with-append (c ∷ x) y (d ∷ start) h = ground (arith, starts_with-append x y start)

-- a text that neither starts with `start` nor is a part of it will not start with it
starts_with-append_neither :
    (x y start : Text)
    → starts_with x start ≡ false
    → starts_with start x ≡ false
    → (starts_with (x ++ y) start ≡ false) × (starts_with start (x ++ y) ≡ false)
starts_with-append_neither [] y start h k = ground arith
starts_with-append_neither (c ∷ x) y [] h k = ground arith
starts_with-append_neither (c ∷ x) y (d ∷ start) h k =
    ground (arith, starts_with-append_neither x y start)

-- the classification of significant text, by the two starts
abbrev classify_by : Text → Text → Text → PrefixState
classify_by a b s =
    if starts_with s a || (starts_with s b || false)
    then reserved
    else if starts_with a s || (starts_with b s || false)
    then ambiguous
    else normal

classify_by-normal :
    (a b s y : Text)
    → starts_with s a ≡ false
    → starts_with s b ≡ false
    → starts_with a s ≡ false
    → starts_with b s ≡ false
    → classify_by a b (s ++ y) ≡ classify_by a b s
classify_by-normal a b s y p q r t =
    let (no_a, no_part_a) = starts_with-append_neither s y a p r in
    let (no_b, no_part_b) = starts_with-append_neither s y b q t in
    rw (no_a, no_b, no_part_a, no_part_b, p, q, r, t) refl

classify_by-final :
    (a b s y : Text)
    → (classify_by a b s ≡ ambiguous) ⊎ (classify_by a b (s ++ y) ≡ classify_by a b s)
classify_by-final a b s y = elim (Bool-cases (starts_with s a)) [
  | inl first ↦ inr (rw (first, starts_with-append s y a first) refl)
  | inr no_first ↦ elim (Bool-cases (starts_with s b)) [
    | inl second ↦ inr (
        rw (no_first, second, starts_with-append s y b second)
          (elim (Bool-cases (starts_with (s ++ y) a)) [ inl e ↦ rw e refl | inr e ↦ rw e refl ]))
    | inr no_second ↦ elim (Bool-cases (starts_with a s)) [
      | inl part ↦ inl (rw (no_first, no_second, part) refl)
      | inr no_part ↦ elim (Bool-cases (starts_with b s)) [
        | inl other_part ↦ inl (rw (no_first, no_second, no_part, other_part) refl)
        | inr no_other ↦ inr (classify_by-normal a b s y no_first no_second no_part no_other)
      ]
    ]
  ]
]

classify-significant :
    (x : Text)
    → is_empty (lstrip x) ≡ false
    → classify_tool_protocol_prefix x ≡ classify_by call_start result_start (lstrip x)
unfolding classify_tool_protocol_prefix
classify-significant x h = rw h refl

append-is_significant : (x y : Text) → is_empty x ≡ false → is_empty (x ++ y) ≡ false
append-is_significant [] y h = ground arith
append-is_significant (c ∷ x) y h = refl

classify-blank :
    (x : Text) → is_empty (lstrip x) ≡ true → classify_tool_protocol_prefix x ≡ ambiguous
unfolding classify_tool_protocol_prefix
classify-blank x h = rw h refl

-- What is reserved or normal stays so, whatever follows.
pub classify-final :
    (x y : Text)
    → (classify_tool_protocol_prefix x ≡ ambiguous)
      ⊎ (classify_tool_protocol_prefix (x ++ y) ≡ classify_tool_protocol_prefix x)
classify-final x y = elim (Bool-cases (is_empty (lstrip x))) [
  | inl blank ↦ inl (classify-blank x blank)
  | inr significant ↦ elim (classify_by-final call_start result_start (lstrip x) y) [
    | inl open_ ↦ inl (classify-significant x significant ∙ open_)
    | inr same ↦
        let longer = lstrip-append x y significant in
        inr (
          classify-significant (x ++ y)
            (ap is_empty longer ∙ append-is_significant (lstrip x) y significant)
          ∙ ap (classify_by call_start result_start) longer
          ∙ same
          ∙ sym (classify-significant x significant))
  ]
]
