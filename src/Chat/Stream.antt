-- ===== src/Chat/Stream.antt =====
-- backend/chat_service.py: `_stream_generation` and `stream_chat`.
use amit_ai.Common.{
  if◌then◌else◌, ℕ, ◌+◌, Bool, true, false, ◌||◌, Option, none, some, List, [], ◌∷◌, ◌++◌,
}
use amit_ai.Common.Texts.{Text, eqb, strip, is_empty}
use amit_ai.Generator.Types.{
  Failure, generation_failed, privacy_blocked, type_error, value_error, Ran, ran, raised, End,
  yielded, returned, failed,
}
use amit_ai.Chat.Types.{
  Prepared, start, text, final, done, Step, emit, commit, Streamed, memory_acknowledgment,
}

-- what a generator's stream yields; `cancelled` is an item that arrives once the signal is set, and
-- a result is given by its response, where its other fields have the types that they should
pub data ChatItem : Type 0 where
  delta : Text → ChatItem
  result : Text → ChatItem
  junk : ChatItem
  cancelled : ChatItem

-- `_validate_generation`, of the response
unfoldable pub validate_generation : Text → Ran Text
validate_generation response =
    if is_empty (strip response)
    then raised (value_error "Generator returned an empty response")
    else ran response

-- what follows the loop of `_stream_generation`
unfoldable pub end_of_stream : Bool → Text → Option Text → Ran (Unit {0}) → End Text
end_of_stream is_set sofar found (raised f) = failed f
end_of_stream is_set sofar none (ran _) =
    if is_set then returned else failed (type_error "Generator stream ended without final metadata")
end_of_stream is_set sofar (some response) (ran _) =
    if is_set
    then returned
    else if eqb sofar response
    then yielded response
    else failed (value_error "Generator stream deltas do not reconstruct the final response")

-- a call that may raise within the loop
abbrev pub or_fail : Ran Text → (Text → List Text × End Text) → List Text × End Text
or_fail (raised f) rest = ([], failed f)
or_fail (ran r) rest = rest r

-- the loop of `_stream_generation`, at the deltas' text and the result so far
unfoldable pub stream_generation :
    Bool → Text → Option Text → List ChatItem → Ran (Unit {0}) → List Text × End Text
unfolding end_of_stream validate_generation
stream_generation is_set sofar found [] last = ([], end_of_stream is_set sofar found last)
stream_generation is_set sofar found (cancelled ∷ items) last = ([], returned)
stream_generation is_set sofar found (junk ∷ items) last = (
  [],
  failed (type_error "Generator stream must yield ChatGenerationDelta or ChatGenerationResult"),
)
stream_generation is_set sofar (some r) (delta t ∷ items) last =
    ([], failed (type_error "Generator emitted text after final metadata"))
stream_generation is_set sofar none (delta [] ∷ items) last =
    ([], failed (type_error "Generator stream deltas must be non-empty strings"))
stream_generation is_set sofar none (delta (c ∷ t) ∷ items) last =
    let (more, end) = stream_generation is_set (sofar ++ c ∷ t) none items last in
    ((c ∷ t) ∷ more, end)
stream_generation is_set sofar (some r) (result response ∷ items) last =
    ([], failed (type_error "Generator emitted final metadata more than once"))
stream_generation is_set sofar none (result response ∷ items) last =
    or_fail (validate_generation response) (λ r. stream_generation is_set sofar (some r) items last)

abbrev pub emitting : Step → Streamed → Streamed
emitting step s = record s { steps = step ∷ s.steps }

-- a return before the commit, and an exception: the `finally` block sets the signal
abbrev pub left_early : Streamed
left_early = record {
  steps = [];
  ended = ran tt;
  persisted = false;
  rolled_back = false;
  signal_set = true;
}

abbrev pub broken_by : Failure → Streamed
broken_by f = record {
  steps = [];
  ended = raised f;
  persisted = false;
  rolled_back = true;
  signal_set = true;
}

-- an exception of `_remote_grant`, which is called before the `try` block: nothing is rolled back, and
-- the signal stays as it was, unset
abbrev pub refused_by : Failure → Streamed
refused_by f = record {
  steps = [];
  ended = raised f;
  persisted = false;
  rolled_back = false;
  signal_set = false;
}

-- after the commit, at whether the signal is set: the final event and the end
abbrev pub completed : Bool → Text → Streamed
completed is_set response = record {
  steps = emit (final response) ∷ emit done ∷ [];
  ended = ran tt;
  persisted = true;
  rolled_back = false;
  signal_set = is_set;
}

abbrev pub saved_by : Ran (Unit {0}) → Text → Streamed → Streamed
saved_by (raised f) response rest = broken_by f
saved_by (ran _) response rest = emitting (commit response) rest

-- a failed generation, which but for the privacy error is hidden
abbrev pub hide : Failure → Failure
hide privacy_blocked = privacy_blocked
hide _ = generation_failed

-- the generation of a prepared chat, by the generator's stream or where it raises at once
abbrev pub generation_of : Ran (Bool × List ChatItem × Ran (Unit {0})) → Ran (List Text × End Text)
generation_of (raised f) = raised f
generation_of (ran (is_set, items, last)) = ran (stream_generation is_set [] none items last)

-- The readings of the signal: before anything, after the start event, at each item of the
-- generation, and after it. `persist` is the transaction of `_persist_chat` on a response.
pub record Signals : Type 0 where
  pub before : Bool
  pub after_start : Bool
  pub at_item : ℕ → Bool
  pub at_end : Bool

module _ (signals : Signals) (persist : Text → Ran (Unit {0})) where
  -- what follows the generation: the loop has seen its result, unless it was left
  unfoldable pub after_generation : ℕ → End Text → Streamed
  after_generation n (failed f) = broken_by (hide f)
  after_generation n returned = if signals.at_end then left_early else broken_by generation_failed
  after_generation n (yielded response) =
      if signals.at_item n || signals.at_end
      then left_early
      else saved_by (persist response) response (completed signals.at_end response)

  -- the loop over the generation, from its n-th item on
  unfoldable pub speak : ℕ → List Text → End Text → Streamed
  unfolding after_generation
  speak n [] end = after_generation n end
  speak n (t ∷ ts) end =
      let more = speak (n + 1) ts end in
      if signals.at_item n then left_early else emitting (emit (text t)) more

  -- an acknowledgment is committed before it is shown
  abbrev pub acknowledge : Text → Streamed
  acknowledge response =
      saved_by (persist response) response
        (emitting (emit (text response)) (completed signals.after_start response))

  -- the body once the chat is prepared; `generation` is raised where the image cannot be read
  unfoldable pub answer_chat : Option Text → Ran (List Text × End Text) → Streamed
  unfolding speak
  answer_chat (some response) generation = acknowledge response
  answer_chat none (raised f) = broken_by f
  answer_chat none (ran (deltas, end)) = speak 0 deltas end

  unfoldable pub started_chat : Prepared → Ran (List Text × End Text) → Streamed
  unfolding answer_chat memory_acknowledgment
  started_chat p generation =
      emitting (emit (start p.conversation_id)) (
        if signals.after_start
        then left_early
        else answer_chat (memory_acknowledgment p) generation)

  -- the `try` block, of what `_prepare_chat` gives
  unfoldable pub try_chat : Ran Prepared → (Prepared → Ran (List Text × End Text)) → Streamed
  unfolding started_chat
  try_chat (raised f) generation = broken_by f
  try_chat (ran p) generation = started_chat p (generation p)

  -- `stream_chat`, of what `_remote_grant` and then `_prepare_chat` give; a grant is only handed on,
  -- to the generation and to its revocation at the end
  unfoldable pub stream_chat :
      Ran (Unit {0}) → Ran Prepared → (Prepared → Ran (List Text × End Text)) → Streamed
  unfolding try_chat
  stream_chat granted prepared generation =
      if signals.before
      then left_early
      else elim granted [ raised f ↦ refused_by f | ran _ ↦ try_chat prepared generation ]
