-- ===== src/Generator/Candidate.antt =====
-- runtime/generator.py, `_stream_candidate`: what of a streamed answer is released as it arrives.
pub mod Whitespace
pub mod Prefix
pub mod Emission
pub mod Batch
pub mod Streaming
pub mod Provider
use amit_ai.Common.{
  ltb, leb, ◌==◌, if◌then◌else◌, ==_iff, Bool-cases, Option-cases, is_some, is_nil, length, take,
  drop, any, keep, find, count, All, length-append, length-keep-le, count-append, All-append,
  All-weaken, ℕ, zero, suc, ◌+◌, ◌-◌, ◌*◌, ◌≤◌, ◌<◌, min, String, ◌≡◌, refl, sym, ap, ◌∙◌, fun_ext,
  ◌≢◌, ◌↔◌, ◌⊎◌, inl, inr, Bool, true, false, not, ◌&&◌, ◌||◌, Option, none, some, List, [], ◌∷◌,
  ◌++◌, map, reverse, append-nil, append_assoc, reverse-append, reverse-reverse, arith, ℕ_discrete,
  str_eq, str_eq_iff,
}
use amit_ai.Common.Texts.{
  Text, codes, is_space, eqb, starts_with, lstrip, rstrip, strip, is_empty, eqb→eq, eqb_refl, split,
  join, contains, is_member,
}
use amit_ai.Tooling.Protocol.{
  Filter, new_filter, PrefixState, ambiguous, reserved, normal, classify_tool_protocol_prefix, feed,
  finish,
}
use amit_ai.Generator.Types.{
  GenerationOutput, Failure, generation_failed, type_error, End, yielded, returned, failed,
  ProviderStream, stream_once,
}

-- `pending[: last_non_whitespace + 1]` and `pending[last_non_whitespace + 1 :]`
unfoldable pub split_trailing : Text → Text × Text
split_trailing [] = ([], [])
split_trailing (c ∷ text) =
    let (kept, spaces) = split_trailing text in
    if is_empty kept && is_space c then ([], c ∷ spaces) else (c ∷ kept, spaces)

-- The nonlocals of `normalize`: what is held back, and the text that was emitted.
pub record Emitter : Type 0 where
  pub pending : Text
  pub emitted : Text

abbrev pub new_emitter : Emitter
new_emitter = record { pending = []; emitted = [] }

-- `normalize`; an empty delta is the None of the source
unfoldable pub normalize : Text → Emitter → Emitter × Text
unfolding split_trailing
normalize piece e =
    let joined = e.pending ++ piece in
    let held = if is_empty e.emitted then lstrip joined else joined in
    let (delta, spaces) = split_trailing held in
    (record { pending = spaces; emitted = e.emitted ++ delta }, delta)

-- `mode`, with the variables of each mode
pub data Mode : Type 0 where
  prefix : Text → Mode
  tool : Mode
  plain : Filter → Emitter → Mode

-- the end of the loop's body in normal mode
unfoldable pub release : Filter → Emitter → Text → Mode × Text
unfolding normalize
release f e item =
    let (f', piece) = feed item f in let (e', delta) = normalize piece e in (plain f' e', delta)

-- what becomes of a prefix, by its classification
unfoldable pub leave_prefix : PrefixState → Text → Mode × Text
unfolding release
leave_prefix ambiguous buffer = (prefix buffer, [])
leave_prefix reserved buffer = (tool, [])
leave_prefix normal buffer = release new_filter new_emitter buffer

-- the body of the loop over chunks
unfoldable pub take_chunk : Mode → Text → Mode × Text
unfolding leave_prefix
take_chunk tool item = (tool, [])
take_chunk (plain f e) item = release f e item
take_chunk (prefix buffer) item =
    leave_prefix (classify_tool_protocol_prefix (buffer ++ item)) (buffer ++ item)

-- the loop: the mode after it and the deltas, of which the empty ones are not yielded
unfoldable pub take_chunks : Mode → List Text → Mode × List Text
unfolding take_chunk
take_chunks mode [] = (mode, [])
take_chunks mode (item ∷ items) =
    let (next, delta) = take_chunk mode item in
    let (last, deltas) = take_chunks next items in
    (last, if is_empty delta then deltas else delta ∷ deltas)

-- `_StreamCandidateOutput`
pub record Candidate : Type 0 where
  pub output : GenerationOutput
  pub is_reserved : Bool

-- `normalize(protocol_filter.finish())`
unfoldable pub flush : Filter → Emitter → Emitter × Text
unfolding normalize
flush f e = normalize (finish f).1 e

-- the mode after the loop, with the buffer of a prefix fed to a new filter
unfoldable pub settle_mode : Mode → Mode × Text
unfolding release
settle_mode (prefix buffer) = release new_filter new_emitter buffer
settle_mode tool = (tool, [])
settle_mode (plain f e) = (plain f e, [])

abbrev pub non_empty : Text → List Text
non_empty [] = []
non_empty (c ∷ text) = (c ∷ text) ∷ []

-- what follows the loop, once the provider's output is there
unfoldable pub conclude : GenerationOutput → Mode → List Text × End Candidate
unfolding flush
conclude o tool =
    ([], yielded (record { output = record o { text = strip o.text }; is_reserved = true }))
conclude o (prefix buffer) =
    ([], failed (type_error "Normal stream is missing its protocol filter"))
conclude o (plain f e) =
    let (e', delta) = flush f e in
    (
      non_empty delta,
      if is_empty e'.emitted
          then failed generation_failed
          else yielded (record { output = record o { text = e'.emitted }; is_reserved = false }),
    )

unfoldable pub conclude_settled : GenerationOutput → Mode → List Text × End Candidate
unfolding settle_mode conclude
conclude_settled o mode =
    let (settled, delta) = settle_mode mode in
    let (deltas, end) = conclude o settled in (non_empty delta ++ deltas, end)

-- `_stream_candidate` on what `_stream_once` yields
unfoldable pub stream_candidate : List Text → End GenerationOutput → List Text × End Candidate
unfolding take_chunks conclude_settled
stream_candidate chunks end =
    let (mode, deltas) = take_chunks (prefix []) chunks in
    elim end [
      | failed f ↦ (deltas, failed f)
      | returned ↦ (deltas, returned)
      | yielded o ↦ let (more, last) = conclude_settled o mode in (deltas ++ more, last)
    ]
