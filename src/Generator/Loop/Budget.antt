-- ===== src/Generator/Loop/Budget.antt =====
-- The budget bounds the loops, and what they add to the messages.
use amit_ai.Common.{
  ltb, Bool-cases, length, length-append, ℕ, ◌+◌, ◌*◌, ◌≤◌, ◌≡◌, refl, ap, ◌∙◌, inl, inr, Bool,
  true, false, List, [], ◌∷◌, ◌++◌, append_assoc, arith,
}
use amit_ai.Common.Texts.{Text, strip, is_empty}
use amit_ai.Context.{Sent, assistant, system}
use amit_ai.Generator.Types.{
  GenerationOutput, Ran, ran, raised, End, yielded, returned, failed, ProviderStream, stream_once,
}
use amit_ai.Generator.Candidate.{Candidate, stream_candidate}
use amit_ai.Tooling.Protocol.{sanitize_late_tool_protocol}
use amit_ai.Tooling.Registry.{ToolAttempt}
use amit_ai.Tooling.Records.{as_record}
use amit_ai.Generator.Loop.{
  exchange, execute_tool_candidate, Tools, LoopState, Turn, done, again, left, stopped, unfinished,
  max_tool_iterations, is_reserved_tool_candidate, use_tool, called, add_tokens, answer_turn,
  run_turn, candidate_turn, stream_turn, turns,
}

-- pairs of an assistant's message, for the request, and a system message, for the result
abbrev pub IsExchanges : List Sent → Type 0
IsExchanges [] = Unit
IsExchanges (_ ∷ []) = ⊥
IsExchanges (request ∷ result ∷ more) =
    (request.role ≡ assistant) × (result.role ≡ system) × IsExchanges more

IsExchanges-append : (xs ys : List Sent) → IsExchanges xs → IsExchanges ys → IsExchanges (xs ++ ys)
IsExchanges-append [] ys h k = k
IsExchanges-append (_ ∷ []) ys h k = absurd h
IsExchanges-append (a ∷ b ∷ xs) ys (p, q, h) k = (p, q, IsExchanges-append xs ys h k)

module _ {A : Type 0} where
  -- at most three tools ran, one for each record, and the provider was called `extra` times more;
  -- the messages are the first ones with an exchange for each tool
  abbrev pub IsWithin : List Sent → ℕ → LoopState A → Type 0
  IsWithin base extra s =
      (s.attempted_turns ≤ max_tool_iterations)
      × (s.calls ≡ s.attempted_turns + extra)
      × (length s.tool_records ≡ s.attempted_turns)
      × ((tail : List Sent) × (s.working_messages ≡ base ++ tail)
          × (length tail ≡ 2 * s.attempted_turns)
          × IsExchanges tail)

  -- the end of a loop: at most three records, and at most four calls
  abbrev pub IsBounded : LoopState A → Type 0
  IsBounded s = (length s.tool_records ≤ max_tool_iterations) × (s.calls ≤ turns)

  unfoldable pub After : List Sent → ℕ → Turn A → Type 0
  After base n (again s) = IsWithin base 0 s × (s.attempted_turns ≡ n + 1)
  After base n (done text s) = IsWithin base 1 s
  After base n (left s) = IsBounded s
  After base n (stopped f s) = IsBounded s
  After base n (unfinished s) = ⊥

  abbrev attempt_of : Tools A → Text → LoopState A → ToolAttempt A
  attempt_of tools response s = execute_tool_candidate tools response (s.attempted_turns + 1)

  use_tool-After :
      (tools : Tools A) (base : List Sent) (response : Text) (s : LoopState A)
      → IsWithin base 1 s
      → After base s.attempted_turns (use_tool tools response s)
  unfolding use_tool After
  use_tool-After tools base response s (most, calls, records, (tail, messages, size, exchanges)) =
      let pair = exchange tools response (attempt_of tools response s) in
      elim (Bool-cases (ltb max_tool_iterations (s.attempted_turns + 1))) [
        | inl spent ↦ rw spent (omega (arith, most, records), omega (arith, most, calls))
        | inr left_over ↦ rw left_over (
          (
            within left_over,
            omega (arith, calls),
            one_more records,
            (
              tail ++ pair,
              ap (λ m. m ++ pair) messages ∙ append_assoc base tail pair,
              longer tail pair size refl,
              IsExchanges-append tail pair exchanges (refl, refl, tt),
            ),
          ),
          refl,
        )
      ]
    where
      one_more :
          length s.tool_records ≡ s.attempted_turns
          → length (s.tool_records ++ as_record (attempt_of tools response s) ∷ [])
            ≡ s.attempted_turns + 1
      one_more h =
          omega
            (arith, h, length-append s.tool_records (as_record (attempt_of tools response s) ∷ []))

      longer :
          (tail pair : List Sent)
          → length tail ≡ 2 * s.attempted_turns
          → length pair ≡ 2
          → length (tail ++ pair) ≡ 2 * (s.attempted_turns + 1)
      longer tail pair h two = omega (arith, h, two, length-append tail pair)

      within :
          ltb max_tool_iterations (s.attempted_turns + 1) ≡ false
          → s.attempted_turns + 1 ≤ max_tool_iterations
      within h = ground arith

  called-IsWithin :
      (base : List Sent) (s : LoopState A) → IsWithin base 0 s → IsWithin base 1 (called s)
  called-IsWithin base s (most, calls, records, tail) = (most, omega (arith, calls), records, tail)

  pub IsWithin-IsBounded : (base : List Sent) (s : LoopState A) → IsWithin base 1 s → IsBounded s
  IsWithin-IsBounded base s (most, calls, records, tail) =
      (omega (arith, most, records), omega (arith, most, calls))

  answer_turn-After :
      (tools : Tools A) (base : List Sent) (response : Text) (s : LoopState A)
      → IsWithin base 1 s
      → After base s.attempted_turns (answer_turn tools response s)
  unfolding answer_turn After
  answer_turn-After tools base response s h =
      elim (Bool-cases (is_reserved_tool_candidate response)) [
        | inl tool ↦ rw tool (use_tool-After tools base response s h)
        | inr visible ↦
            elim (Bool-cases (is_empty (strip (sanitize_late_tool_protocol response)))) [
              | inl nothing ↦ rw (visible, nothing) (IsWithin-IsBounded base s h)
              | inr something ↦ rw (visible, something) h
            ]
      ]

  pub run_turn-After :
      (tools : Tools A) (generate_once : ℕ → List Sent → Ran GenerationOutput) (base : List Sent)
      (s : LoopState A)
      → IsWithin base 0 s
      → After base s.attempted_turns (run_turn tools generate_once s)
  unfolding run_turn After
  run_turn-After tools generate_once base s h = go (generate_once s.calls s.working_messages)
    where
      go :
          (o : Ran GenerationOutput)
          → After base s.attempted_turns (elim o [
            | raised f ↦ stopped f (called s)
            | ran o ↦ answer_turn tools (strip o.text) (add_tokens o (called s))
          ])
      go (raised f) = IsWithin-IsBounded base (called s) (called-IsWithin base s h)
      go (ran o) = answer_turn-After tools base (strip o.text) _ (called-IsWithin base s h)

  candidate_turn-After :
      (tools : Tools A) (base : List Sent) (is_set : Bool) (end : End Candidate) (s : LoopState A)
      → IsWithin base 1 s
      → After base s.attempted_turns (candidate_turn tools is_set end s)
  unfolding candidate_turn After
  candidate_turn-After tools base is_set (failed f) s h = IsWithin-IsBounded base s h
  candidate_turn-After tools base true returned s h = IsWithin-IsBounded base s h
  candidate_turn-After tools base false returned s h = IsWithin-IsBounded base s h
  candidate_turn-After tools base true (yielded c) s h = IsWithin-IsBounded base s h
  candidate_turn-After tools base false (yielded c) s h = elim (Bool-cases c.is_reserved) [
    | inl tool ↦ rw tool (use_tool-After tools base c.output.text (add_tokens c.output s) h)
    | inr visible ↦ rw visible h
  ]

  pub stream_turn-After :
      (tools : Tools A) (streams : ℕ → List Sent → ProviderStream) (is_set is_set_after : ℕ → Bool)
      (base : List Sent) (s : LoopState A)
      → IsWithin base 0 s
      → After base s.attempted_turns (stream_turn tools streams is_set is_set_after s)
  unfolding stream_turn After
  stream_turn-After tools streams is_set is_set_after base s h =
      elim (Bool-cases (is_set s.calls)) [
        | inl set ↦ rw set (not_called base s h)
        | inr running ↦
            let (chunks, end) = stream_once (streams s.calls s.working_messages) in
            let (deltas, last) = stream_candidate chunks end in
            rw running (
              candidate_turn-After tools base (is_set_after s.calls) last
                (record (called s) { deltas = s.deltas ++ deltas }) (called-IsWithin base s h))
      ]
    where
      not_called : (base : List Sent) (s : LoopState A) → IsWithin base 0 s → IsBounded s
      not_called base s (most, calls, records, tail) =
          (omega (arith, most, records), omega (arith, most, calls))
