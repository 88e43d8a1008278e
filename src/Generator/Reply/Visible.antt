-- ===== src/Generator/Reply/Visible.antt =====
-- The text that the buffered tool loop returns is not blank.
use amit_ai.Common.{
  ltb, Bool-cases, ℕ, zero, suc, ◌+◌, ◌≡◌, refl, sym, ap, ◌∙◌, inl, inr, Bool, true, false, ◌&&◌,
  List, [], ◌∷◌, arith,
}
use amit_ai.Common.Texts.{Text, is_space, lstrip, strip, is_empty}
use amit_ai.Context.{Sent}
use amit_ai.Tooling.Protocol.{sanitize_late_tool_protocol}
use amit_ai.Generator.Types.{GenerationOutput, Ran, ran, raised}
use amit_ai.Generator.Candidate.{split_trailing}
use amit_ai.Generator.Candidate.Whitespace.{rstrip-split_trailing}
use amit_ai.Generator.Loop.{
  Tools, LoopState, Turn, done, again, left, stopped, unfinished, run_turn, use_tool, iterate,
  initial, turns, answer_turn, run_tool_loop, is_reserved_tool_candidate, max_tool_iterations,
  add_tokens, called,
}

-- whether there is nothing but white space
abbrev is_white : Text → Bool
is_white [] = true
is_white (c ∷ text) = is_space c && is_white text

lstrip-is_white : (text : Text) → is_white (lstrip text) ≡ is_white text
unfolding lstrip
lstrip-is_white [] = refl
lstrip-is_white (c ∷ text) = elim (Bool-cases (is_space c)) [
  | inl space ↦ rw (space, lstrip-is_white text) refl
  | inr other ↦ rw (other, other) refl
]

split_trailing-is_empty : (text : Text) → is_empty (split_trailing text).0 ≡ is_white text
unfolding split_trailing
split_trailing-is_empty [] = refl
split_trailing-is_empty (c ∷ text) =
    elim (Bool-cases (is_empty (split_trailing text).0 && is_space c)) [
      | inl ends ↦ rw ends (ground (arith, ends, split_trailing-is_empty text))
      | inr more ↦ rw more (ground (arith, more, split_trailing-is_empty text))
    ]

split_trailing-is_white : (text : Text) → is_white (split_trailing text).0 ≡ is_white text
unfolding split_trailing
split_trailing-is_white [] = refl
split_trailing-is_white (c ∷ text) =
    elim (Bool-cases (is_empty (split_trailing text).0 && is_space c)) [
      | inl ends ↦ rw ends (ground (arith, ends, split_trailing-is_empty text))
      | inr more ↦ rw (more, split_trailing-is_white text) refl
    ]

strip-is_empty : (text : Text) → is_empty (strip text) ≡ is_white text
unfolding strip
strip-is_empty text =
    ap is_empty (rstrip-split_trailing (lstrip text))
    ∙ split_trailing-is_empty (lstrip text)
    ∙ lstrip-is_white text

strip-is_white : (text : Text) → is_white (strip text) ≡ is_white text
unfolding strip
strip-is_white text =
    ap is_white (rstrip-split_trailing (lstrip text))
    ∙ split_trailing-is_white (lstrip text)
    ∙ lstrip-is_white text

strip-strip_empty : (text : Text) → is_empty (strip (strip text)) ≡ is_empty (strip text)
strip-strip_empty text =
    strip-is_empty (strip text) ∙ strip-is_white text ∙ sym (strip-is_empty text)

module _ {A : Type 0} where
  -- the text of a loop that is done is not blank
  abbrev pub IsVisible : Turn A → Type 0
  IsVisible (done text s) = is_empty (strip text) ≡ false
  IsVisible _ = Unit

  use_tool-IsVisible :
      (tools : Tools A) (response : Text) (s : LoopState A) → IsVisible (use_tool tools response s)
  unfolding use_tool
  use_tool-IsVisible tools response s =
      elim (Bool-cases (ltb max_tool_iterations (s.attempted_turns + 1))) [
        | inl spent ↦ rw spent tt
        | inr still ↦ rw still tt
      ]

  answer_turn-IsVisible :
      (tools : Tools A) (response : Text) (s : LoopState A)
      → IsVisible (answer_turn tools response s)
  unfolding answer_turn
  answer_turn-IsVisible tools response s = elim (Bool-cases (is_reserved_tool_candidate response)) [
    | inl tool ↦ rw tool (use_tool-IsVisible tools response s)
    | inr visible ↦ elim (Bool-cases (is_empty (strip (sanitize_late_tool_protocol response)))) [
      | inl nothing ↦ rw (visible, nothing) tt
      | inr something ↦
          rw (visible, something)
            (strip-strip_empty (sanitize_late_tool_protocol response) ∙ something)
    ]
  ]

  run_turn-IsVisible :
      (tools : Tools A) (s : LoopState A) (o : Ran GenerationOutput)
      → IsVisible (elim o [
        | raised f ↦ stopped f (called s)
        | ran o ↦ answer_turn tools (strip o.text) (add_tokens o (called s))
      ])
  run_turn-IsVisible tools s (raised f) = tt
  run_turn-IsVisible tools s (ran o) =
      answer_turn-IsVisible tools (strip o.text) (add_tokens o (called s))

  follow-IsVisible :
      (f : ℕ) (turn : LoopState A → Turn A) (t : Turn A)
      → IsVisible t
      → ((s : LoopState A) → IsVisible (iterate f turn s))
      → IsVisible (elim t [
        | again s' ↦ iterate f turn s'
        | done text s' ↦ done text s'
        | left s' ↦ left s'
        | stopped failure s' ↦ stopped failure s'
        | unfinished s' ↦ unfinished s'
      ])
  follow-IsVisible f turn (again s') h next = next s'
  follow-IsVisible f turn (done text s') h next = h
  follow-IsVisible f turn (left s') h next = h
  follow-IsVisible f turn (stopped failure s') h next = h
  follow-IsVisible f turn (unfinished s') h next = h

  iterate-IsVisible :
      (f : ℕ) (turn : LoopState A → Turn A) (s : LoopState A)
      → ((s : LoopState A) → IsVisible (turn s))
      → IsVisible (iterate f turn s)
  unfolding iterate
  iterate-IsVisible zero turn s step = tt
  iterate-IsVisible (suc f) turn s step =
      follow-IsVisible f turn (turn s) (step s) (λ s'. iterate-IsVisible f turn s' step)

  pub run_tool_loop-IsVisible :
      (tools : Tools A) (generate_once : ℕ → List Sent → Ran GenerationOutput)
      (messages : List Sent)
      → IsVisible (run_tool_loop tools generate_once messages)
  unfolding run_tool_loop run_turn
  run_tool_loop-IsVisible tools generate_once messages =
      iterate-IsVisible turns (run_turn tools generate_once) (initial messages)
        (λ s. run_turn-IsVisible tools s (generate_once s.calls s.working_messages))
