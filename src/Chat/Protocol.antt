-- ===== src/Chat/Protocol.antt =====
-- backend/chat_service.py: the order of a streamed chat's events and its commit.
use mathlib.Core.Path.{subst}
use amit_ai.Common.{
  if◌then◌else◌, Bool-cases, ℕ, ◌+◌, ◌≡◌, refl, sym, ◌⊎◌, inl, inr, Bool, true, false, ◌||◌, Option,
  none, some, List, [], ◌∷◌, ◌++◌, append-nil, append_assoc,
}
use amit_ai.Common.Texts.{Text, eqb, eqb→eq}
use amit_ai.Generator.Types.{
  Failure, Ran, ran, raised, End, yielded, returned, failed, generation_failed, Results,
}
use amit_ai.Generator.Candidate.Batch.{joined}
use amit_ai.Chat.Types.{
  Prepared, start, text, final, done, Step, emit, commit, Streamed, memory_acknowledgment,
}
use amit_ai.Chat.Stream.{
  ChatItem, delta, result, junk, cancelled, validate_generation, end_of_stream, or_fail,
  stream_generation, emitting, left_early, broken_by, completed, saved_by, hide, generation_of,
  Signals, after_generation, speak, answer_chat, started_chat, try_chat, stream_chat, refused_by,
}

-- Where a streamed chat is: before its start, with the text that it has shown, with a response that
-- is committed and not shown, and with one that is committed and shown.
pub data Phase : Type 0 where
  idle : Phase
  speaking : Text → Phase
  claimed : Text → Phase
  saved : Text → Phase

-- The steps that may follow a phase: a response is committed once its text was shown as a whole, or
-- before any of it; a final event follows the commit of its response, and nothing follows the end.
pub data MayFollow : Phase → List Step → Type 0 where
  stops : (phase : Phase) → MayFollow phase []
  starts :
      (conversation : Option ℕ) (steps : List Step)
      → MayFollow (speaking []) steps
      → MayFollow idle (emit (start conversation) ∷ steps)
  speaks :
      (sofar delta : Text) (steps : List Step)
      → MayFollow (speaking (sofar ++ delta)) steps
      → MayFollow (speaking sofar) (emit (text delta) ∷ steps)
  saves :
      (response : Text) (steps : List Step)
      → MayFollow (saved response) steps
      → MayFollow (speaking response) (commit response ∷ steps)
  claims :
      (response : Text) (steps : List Step)
      → MayFollow (claimed response) steps
      → MayFollow (speaking []) (commit response ∷ steps)
  shows :
      (response : Text) (steps : List Step)
      → MayFollow (saved response) steps
      → MayFollow (claimed response) (emit (text response) ∷ steps)
  finishes : (response : Text) → MayFollow (saved response) (emit (final response) ∷ emit done ∷ [])

-- Persisted or left with the signal set; and rolled back exactly where there is an exception.
abbrev pub IsSettled : Streamed → Type 0
IsSettled s =
    ((s.persisted ≡ true) × (s.ended ≡ ran tt) ⊎ (s.persisted ≡ false) × (s.signal_set ≡ true))
    × (s.rolled_back ≡ true ⊎ (s.ended ≡ ran tt))

abbrev pub Runs : Phase → Streamed → Type 0
Runs phase s = MayFollow phase s.steps × IsSettled s

-- The end of a chat by what `_remote_grant` gave: where it raised, the chat may also be refused.
abbrev pub Ends : Ran (Unit {0}) → Streamed → Type 0
Ends (ran _) s = Runs idle s
Ends (raised f) s = MayFollow idle s.steps × (IsSettled s ⊎ (s ≡ refused_by f))

left_early-Runs : (phase : Phase) → Runs phase left_early
left_early-Runs phase = (stops phase, (inr (refl, refl), inr refl))

broken_by-Runs : (phase : Phase) (f : Failure) → Runs phase (broken_by f)
broken_by-Runs phase f = (stops phase, (inr (refl, refl), inl refl))

completed-Runs :
    (is_set : Bool) (response : Text) → Runs (saved response) (completed is_set response)
completed-Runs is_set response = (finishes response, (inl (refl, refl), inr refl))

-- a return where the signal is set
unless-Runs :
    (is_set : Bool) (phase : Phase) (s : Streamed)
    → Runs phase s
    → Runs phase (if is_set then left_early else s)
unless-Runs true phase s h = left_early-Runs phase
unless-Runs false phase s h = h

-- what the end of a generator's stream says of the deltas
abbrev Reconstructs : Text → End Text → Type 0
Reconstructs whole (yielded response) = whole ≡ response
Reconstructs whole _ = Unit

end_of_stream-Reconstructs :
    (is_set : Bool) (sofar : Text) (found : Option Text) (last : Ran (Unit {0}))
    → Reconstructs sofar (end_of_stream is_set sofar found last)
unfolding end_of_stream
end_of_stream-Reconstructs is_set sofar none (raised f) = tt
end_of_stream-Reconstructs is_set sofar (some r) (raised f) = tt
end_of_stream-Reconstructs is_set sofar none (ran _) = elim (Bool-cases is_set) [
  | inl set ↦ rw set tt
  | inr clear ↦ rw clear tt
]
end_of_stream-Reconstructs is_set sofar (some r) (ran _) = elim (Bool-cases is_set) [
  | inl set ↦ rw set tt
  | inr clear ↦ elim (Bool-cases (eqb sofar r)) [
    | inl same ↦ rw (clear, same) (eqb→eq sofar r same)
    | inr other ↦ rw (clear, other) tt
  ]
]

or_fail-Reconstructs :
    (sofar : Text) (v : Ran Text) (rest : Text → List Text × End Text)
    → ((r : Text) → Reconstructs (sofar ++ joined (rest r).0) (rest r).1)
    → Reconstructs (sofar ++ joined (or_fail v rest).0) (or_fail v rest).1
or_fail-Reconstructs sofar (raised f) rest h = tt
or_fail-Reconstructs sofar (ran r) rest h = h r

-- Where a generator's stream ends with a result, its deltas make up the result's response.
pub stream_generation-Reconstructs :
    (is_set : Bool) (sofar : Text) (found : Option Text) (items : List ChatItem)
    (last : Ran (Unit {0}))
    → Reconstructs
        (sofar ++ joined (stream_generation is_set sofar found items last).0)
        (stream_generation is_set sofar found items last).1
unfolding stream_generation
stream_generation-Reconstructs is_set sofar found [] last =
    subst (λ t. Reconstructs t (end_of_stream is_set sofar found last)) (sym (append-nil sofar))
      (end_of_stream-Reconstructs is_set sofar found last)
stream_generation-Reconstructs is_set sofar none (cancelled ∷ items) last = tt
stream_generation-Reconstructs is_set sofar (some r) (cancelled ∷ items) last = tt
stream_generation-Reconstructs is_set sofar none (junk ∷ items) last = tt
stream_generation-Reconstructs is_set sofar (some r) (junk ∷ items) last = tt
stream_generation-Reconstructs is_set sofar (some r) (delta t ∷ items) last = tt
stream_generation-Reconstructs is_set sofar none (delta [] ∷ items) last = tt
stream_generation-Reconstructs is_set sofar none (delta (c ∷ t) ∷ items) last =
    subst
      (λ whole. Reconstructs whole (stream_generation is_set (sofar ++ c ∷ t) none items last).1)
      (append_assoc sofar (c ∷ t)
        (joined (stream_generation is_set (sofar ++ c ∷ t) none items last).0))
      (stream_generation-Reconstructs is_set (sofar ++ c ∷ t) none items last)
stream_generation-Reconstructs is_set sofar (some r) (result response ∷ items) last = tt
stream_generation-Reconstructs is_set sofar none (result response ∷ items) last =
    or_fail-Reconstructs sofar (validate_generation response) _
      (λ r. stream_generation-Reconstructs is_set sofar (some r) items last)

-- Signals and a transaction at which the rest of the protocol is proved.
module _ (signals : Signals) (persist : Text → Ran (Unit {0})) where
  saved_by-Runs :
      (before after : Phase) (saving : Ran (Unit {0})) (response : Text) (rest : Streamed)
      → ((steps : List Step) → MayFollow after steps → MayFollow before (commit response ∷ steps))
      → Runs after rest
      → Runs before (saved_by saving response rest)
  saved_by-Runs before after (raised f) response rest step h = broken_by-Runs before f
  saved_by-Runs before after (ran _) response rest step (follows, settled) =
      (step rest.steps follows, settled)

  after_generation-Runs :
      (n : ℕ) (whole : Text) (end : End Text)
      → Reconstructs whole end
      → Runs (speaking whole) (after_generation signals persist n end)
  unfolding after_generation
  after_generation-Runs n whole (failed f) h = broken_by-Runs (speaking whole) (hide f)
  after_generation-Runs n whole returned h = elim (Bool-cases signals.at_end) [
    | inl set ↦ rw set (left_early-Runs (speaking whole))
    | inr clear ↦ rw clear (broken_by-Runs (speaking whole) generation_failed)
  ]
  after_generation-Runs n whole (yielded response) h =
      elim (Bool-cases (signals.at_item n || signals.at_end)) [
        | inl set ↦ rw set (left_early-Runs (speaking whole))
        | inr clear ↦ rw clear (
            subst
              (λ t.
                Runs (speaking t)
                  (saved_by (persist response) response (completed signals.at_end response)))
              (sym h)
              (saved_by-Runs (speaking response) (saved response) (persist response) response
                (completed signals.at_end response) (saves response)
                (completed-Runs signals.at_end response)))
      ]

  speak-Runs :
      (n : ℕ) (sofar : Text) (deltas : List Text) (end : End Text)
      → Reconstructs (sofar ++ joined deltas) end
      → Runs (speaking sofar) (speak signals persist n deltas end)
  unfolding speak
  speak-Runs n sofar [] end h =
      after_generation-Runs n sofar end (subst (λ t. Reconstructs t end) (append-nil sofar) h)
  speak-Runs n sofar (t ∷ ts) end h =
      let (follows, settled) =
        speak-Runs (n + 1) (sofar ++ t) ts end
          (subst (λ whole. Reconstructs whole end) (sym (append_assoc sofar t (joined ts))) h) in
      elim (Bool-cases (signals.at_item n)) [
        | inl set ↦ rw set (left_early-Runs (speaking sofar))
        | inr clear ↦
            rw clear (speaks sofar t (speak signals persist (n + 1) ts end).steps follows, settled)
      ]

  answer_chat-Runs :
      (acknowledgment : Option Text) (generation : Ran (List Text × End Text))
      → Results (λ (g : List Text × End Text). Reconstructs (joined g.0) g.1) generation
      → Runs (speaking []) (answer_chat signals persist acknowledgment generation)
  unfolding answer_chat
  answer_chat-Runs (some response) generation h =
      saved_by-Runs (speaking []) (claimed response) (persist response) response
        (emitting (emit (text response)) (completed signals.after_start response)) (claims response)
        (shows response _ (finishes response), (inl (refl, refl), inr refl))
  answer_chat-Runs none (raised f) h = broken_by-Runs (speaking []) f
  answer_chat-Runs none (ran (deltas, end)) h = speak-Runs 0 [] deltas end h

  started_chat-Runs :
      (p : Prepared) (generation : Ran (List Text × End Text))
      → Results (λ (g : List Text × End Text). Reconstructs (joined g.0) g.1) generation
      → Runs idle (started_chat signals persist p generation)
  unfolding started_chat
  started_chat-Runs p generation h =
      let (follows, settled) =
        unless-Runs signals.after_start (speaking [])
          (answer_chat signals persist (memory_acknowledgment p) generation)
          (answer_chat-Runs (memory_acknowledgment p) generation h) in
      (starts p.conversation_id _ follows, settled)

  generation_of-Reconstructs :
      (g : Ran (Bool × List ChatItem × Ran (Unit {0})))
      → Results (λ (g : List Text × End Text). Reconstructs (joined g.0) g.1) (generation_of g)
  generation_of-Reconstructs (raised f) = tt
  generation_of-Reconstructs (ran (is_set, items, last)) =
      stream_generation-Reconstructs is_set [] none items last

  try_chat-Runs :
      (prepared : Ran Prepared) (streams : Prepared → Ran (Bool × List ChatItem × Ran (Unit {0})))
      → Runs idle (try_chat signals persist prepared (λ p. generation_of (streams p)))
  unfolding try_chat
  try_chat-Runs (raised f) streams = broken_by-Runs idle f
  try_chat-Runs (ran p) streams =
      started_chat-Runs p (generation_of (streams p)) (generation_of-Reconstructs (streams p))

  granted-Ends :
      (granted : Ran (Unit {0})) (s : Streamed)
      → Runs idle s
      → Ends granted (elim granted [ raised f ↦ refused_by f | ran _ ↦ s ])
  granted-Ends (raised f) s h = (stops idle, inr refl)
  granted-Ends (ran _) s h = h

  left_early-Ends : (granted : Ran (Unit {0})) → Ends granted left_early
  left_early-Ends (raised f) = (stops idle, inl (left_early-Runs idle).1)
  left_early-Ends (ran _) = left_early-Runs idle

  -- Whatever the generator streams, the signal reads and the transaction raises: a streamed chat's
  -- events and commit stand in the protocol's order, so that a final event follows the commit of its
  -- response, the text shown is that response, and an acknowledgment is shown after its commit. The
  -- chat ends persisted without an exception, or not persisted with the signal set, and it is rolled
  -- back where there is an exception; but a remote grant that is refused may end it with that
  -- exception before its first event, not persisted, not rolled back and with the signal unset.
  pub stream_chat-Runs :
      (granted : Ran (Unit {0})) (prepared : Ran Prepared)
      (streams : Prepared → Ran (Bool × List ChatItem × Ran (Unit {0})))
      → Ends granted (stream_chat signals persist granted prepared (λ p. generation_of (streams p)))
  unfolding stream_chat
  stream_chat-Runs granted prepared streams = elim (Bool-cases signals.before) [
    | inl set ↦ rw set (left_early-Ends granted)
    | inr clear ↦ rw clear (granted-Ends granted _ (try_chat-Runs prepared streams))
  ]
