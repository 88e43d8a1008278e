-- ===== src/Generator/Loop/Ends.antt =====
-- Both loops end within their bounds, whatever the provider does.
use amit_ai.Common.{ℕ, zero, suc, ◌+◌, ◌≤◌, ◌≡◌, refl, sym, Bool, List, [], append-nil, arith}
use amit_ai.Context.{Sent}
use amit_ai.Generator.Types.{GenerationOutput, Ran, ProviderStream}
use amit_ai.Generator.Loop.{
  Tools, LoopState, Turn, done, again, left, stopped, unfinished, run_turn, stream_turn, iterate,
  initial, turns, run_tool_loop, stream_tool_loop,
}
use amit_ai.Generator.Loop.Budget.{IsWithin, IsBounded, After, run_turn-After, stream_turn-After}

module _ {A : Type 0} where
  -- how a loop ends
  abbrev pub Ends : List Sent → Turn A → Type 0
  Ends base (done text s) = IsWithin base 1 s
  Ends base (left s) = IsBounded s
  Ends base (stopped f s) = IsBounded s
  Ends base (again s) = ⊥
  Ends base (unfinished s) = ⊥

  -- what follows a turn, where the loop ends well from the next state on
  follow-Ends :
      (f : ℕ) (turn : LoopState A → Turn A) (base : List Sent) (n : ℕ) (t : Turn A)
      → After base n t
      → ((s : LoopState A)
          → IsWithin base 0 s
          → s.attempted_turns ≡ n + 1
          → Ends base (iterate f turn s))
      → Ends base (elim t [
        | again s' ↦ iterate f turn s'
        | done text s' ↦ done text s'
        | left s' ↦ left s'
        | stopped failure s' ↦ stopped failure s'
        | unfinished s' ↦ unfinished s'
      ])
  unfolding After
  follow-Ends f turn base n (again s) (h, e) next = next s h e
  follow-Ends f turn base n (done text s) h next = h
  follow-Ends f turn base n (left s) h next = h
  follow-Ends f turn base n (stopped failure s) h next = h
  follow-Ends f turn base n (unfinished s) h next = absurd h

  iterate-Ends :
      (f : ℕ) (turn : LoopState A → Turn A) (base : List Sent) (s : LoopState A)
      → ((s : LoopState A) → IsWithin base 0 s → After base s.attempted_turns (turn s))
      → IsWithin base 0 s
      → turns ≤ f + s.attempted_turns
      → Ends base (iterate f turn s)
  unfolding iterate
  iterate-Ends zero turn base s step (most, calls, records, tail) enough = ground (arith, most)
  iterate-Ends (suc f) turn base s step h enough =
      follow-Ends f turn base s.attempted_turns (turn s) (step s h)
        (λ s' h' e. iterate-Ends f turn base s' step h' (omega (arith, enough, e)))

  start-Ends :
      (turn : LoopState A → Turn A) (messages : List Sent)
      → ((s : LoopState A) → IsWithin messages 0 s → After messages s.attempted_turns (turn s))
      → Ends messages (iterate turns turn (initial messages))
  start-Ends turn messages step =
      iterate-Ends turns turn messages (initial messages) step
        (omega arith, refl, refl, ([], sym (append-nil messages), refl, tt)) (omega arith)

  -- Whatever the provider answers, the buffered loop ends, by its output or an exception, after at
  -- most four calls of the provider and three tools. If by its output, then the messages are the
  -- given ones, followed by a request and a result for each tool that was run.
  pub run_tool_loop-Ends :
      (tools : Tools A) (generate_once : ℕ → List Sent → Ran GenerationOutput)
      (messages : List Sent)
      → Ends messages (run_tool_loop tools generate_once messages)
  unfolding run_tool_loop
  run_tool_loop-Ends tools generate_once messages =
      start-Ends (run_turn tools generate_once) messages
        (run_turn-After tools generate_once messages)

  -- Whatever the provider streams, and whenever the cancel event is set, the streaming loop ends, by
  -- its output, a return or an exception, within the same bounds and with the same messages.
  pub stream_tool_loop-Ends :
      (tools : Tools A) (streams : ℕ → List Sent → ProviderStream) (is_set is_set_after : ℕ → Bool)
      (messages : List Sent)
      → Ends messages (stream_tool_loop tools streams is_set is_set_after messages)
  unfolding stream_tool_loop
  stream_tool_loop-Ends tools streams is_set is_set_after messages =
      start-Ends (stream_turn tools streams is_set is_set_after) messages
        (stream_turn-After tools streams is_set is_set_after messages)
