-- ===== src/Generator/Candidate/Batch.antt =====
-- A streamed candidate is what the whole text at once would give, however it was cut into chunks.
use amit_ai.Common.{
  if◌then◌else◌, ◌≡◌, refl, sym, ap, ◌∙◌, inl, inr, true, false, List, [], ◌∷◌, ◌++◌, append-nil,
  append_assoc, arith,
}
use amit_ai.Common.Texts.{Text, lstrip, strip, is_empty}
use amit_ai.Tooling.Protocol.{
  Filter, new_filter, PrefixState, ambiguous, reserved, normal, classify_tool_protocol_prefix, feed,
  finish, sanitize_late_tool_protocol,
}
use amit_ai.Tooling.Filtering.{feed-append_states}
use amit_ai.Generator.Types.{GenerationOutput, generation_failed, End, yielded, failed}
use amit_ai.Generator.Candidate.{
  split_trailing, leave_prefix, new_emitter, normalize, Mode, prefix, tool, plain, release,
  take_chunk, take_chunks, Candidate, flush, conclude, non_empty,
}
use amit_ai.Generator.Candidate.Prefix.{classify-final}
use amit_ai.Generator.Candidate.Emission.{emitter_of, normalize-emitter_of, emitted-strip}

-- `"".join(texts)`
abbrev pub joined : List Text → Text
joined [] = []
joined (t ∷ ts) = t ++ joined ts

-- a candidate of visible text, which is a failure where nothing is left
unfoldable pub ended : GenerationOutput → Text → End Candidate
ended o text =
    if is_empty text
    then failed generation_failed
    else yielded (record { output = record o { text = text }; is_reserved = false })

-- what the text at once would give, by its classification: a tool request, or its sanitized text
-- without white space at its ends
abbrev pub batch_by : PrefixState → GenerationOutput → End Candidate
batch_by reserved o =
    yielded (record { output = record o { text = strip o.text }; is_reserved = true })
batch_by _ o = ended o (strip (sanitize_late_tool_protocol o.text))

abbrev pub batch_candidate : GenerationOutput → End Candidate
batch_candidate o = batch_by (classify_tool_protocol_prefix o.text) o

-- what is shown of the text
abbrev pub shown_by : PrefixState → GenerationOutput → Text
shown_by reserved o = []
shown_by _ o = strip (sanitize_late_tool_protocol o.text)

abbrev pub shown_text : GenerationOutput → Text
shown_text o = shown_by (classify_tool_protocol_prefix o.text) o

-- the mode after the loop, and what it has emitted, by the text that was read
unfoldable pub plain_of : Text → Mode
plain_of text = plain (feed text new_filter).0 (emitter_of (feed text new_filter).1)

unfoldable pub mode_by : PrefixState → Text → Mode
mode_by ambiguous text = prefix text
mode_by reserved text = tool
mode_by normal text = plain_of text

unfoldable pub mode_of : Text → Mode
mode_of text = mode_by (classify_tool_protocol_prefix text) text

unfoldable pub emitted_by : Mode → Text
emitted_by (prefix _) = []
emitted_by tool = []
emitted_by (plain f e) = e.emitted

release-plain_of :
    (text item : Text)
    → (release (feed text new_filter).0 (emitter_of (feed text new_filter).1) item).0
      ≡ plain_of (text ++ item)
unfolding release plain_of
release-plain_of text item =
    ap (plain (feed item (feed text new_filter).0).0)
      (normalize-emitter_of (feed text new_filter).1 (feed item (feed text new_filter).0).1)
    ∙ ap (λ (r : Filter × Text). plain r.0 (emitter_of r.1))
        (sym (feed-append_states text item new_filter))

pub release-new : (text : Text) → (release new_filter new_emitter text).0 ≡ plain_of text
unfolding feed split_trailing lstrip
release-new text = release-plain_of [] text

leave_prefix-mode_by : (s : PrefixState) (text : Text) → (leave_prefix s text).0 ≡ mode_by s text
unfolding leave_prefix mode_by
leave_prefix-mode_by ambiguous text = refl
leave_prefix-mode_by reserved text = refl
leave_prefix-mode_by normal text = release-new text

take_chunk-mode_by :
    (s : PrefixState) (text item : Text)
    → classify_tool_protocol_prefix text ≡ s
    → (take_chunk (mode_by s text) item).0 ≡ mode_of (text ++ item)
unfolding mode_of mode_by plain_of take_chunk leave_prefix
take_chunk-mode_by ambiguous text item e =
    leave_prefix-mode_by (classify_tool_protocol_prefix (text ++ item)) (text ++ item)
take_chunk-mode_by reserved text item e = elim (classify-final text item) [
  | inl open_ ↦ ground arith
  | inr same ↦ rw (same ∙ e) refl
]
take_chunk-mode_by normal text item e = elim (classify-final text item) [
  | inl open_ ↦ ground arith
  | inr same ↦ rw (same ∙ e) (release-plain_of text item)
]

leave_prefix-emitted :
    (s : PrefixState) (text : Text) → (leave_prefix s text).1 ≡ emitted_by (leave_prefix s text).0
unfolding leave_prefix emitted_by release normalize
leave_prefix-emitted ambiguous text = refl
leave_prefix-emitted reserved text = refl
leave_prefix-emitted normal text = refl

take_chunk-emitted :
    (mode : Mode) (item : Text)
    → emitted_by mode ++ (take_chunk mode item).1 ≡ emitted_by (take_chunk mode item).0
unfolding emitted_by take_chunk release normalize leave_prefix
take_chunk-emitted tool item = refl
take_chunk-emitted (plain f e) item = refl
take_chunk-emitted (prefix buffer) item =
    leave_prefix-emitted (classify_tool_protocol_prefix (buffer ++ item)) (buffer ++ item)

joined-skip_empty :
    (delta : Text) (deltas : List Text)
    → joined (if is_empty delta then deltas else delta ∷ deltas) ≡ delta ++ joined deltas
joined-skip_empty [] deltas = refl
joined-skip_empty (c ∷ delta) deltas = refl

pub take_chunks-mode_of :
    (text : Text) (items : List Text)
    → (take_chunks (mode_of text) items).0 ≡ mode_of (text ++ joined items)
unfolding take_chunks mode_of mode_by
take_chunks-mode_of text [] = ap mode_of (sym (append-nil text))
take_chunks-mode_of text (item ∷ items) =
    ap (λ m. (take_chunks m items).0)
      (take_chunk-mode_by (classify_tool_protocol_prefix text) text item refl)
    ∙ take_chunks-mode_of (text ++ item) items
    ∙ ap mode_of (append_assoc text item (joined items))

pub take_chunks-emitted :
    (mode : Mode) (items : List Text)
    → emitted_by mode ++ joined (take_chunks mode items).1 ≡ emitted_by (take_chunks mode items).0
unfolding take_chunks
take_chunks-emitted mode [] = append-nil (emitted_by mode)
take_chunks-emitted mode (item ∷ items) =
    let (next, delta) = take_chunk mode item in
    let (last, deltas) = take_chunks next items in
    ap (λ t. emitted_by mode ++ t) (joined-skip_empty delta deltas)
    ∙ sym (append_assoc (emitted_by mode) delta (joined deltas))
    ∙ ap (λ t. t ++ joined deltas) (take_chunk-emitted mode item)
    ∙ take_chunks-emitted next items

pub joined-append : (xs ys : List Text) → joined (xs ++ ys) ≡ joined xs ++ joined ys
joined-append [] ys = refl
joined-append (x ∷ xs) ys =
    ap (λ t. x ++ t) (joined-append xs ys) ∙ sym (append_assoc x (joined xs) (joined ys))

pub joined-non_empty : (t : Text) → joined (non_empty t) ≡ t
joined-non_empty [] = refl
joined-non_empty (c ∷ t) = append-nil (c ∷ t)

flush-plain_of :
    (text : Text)
    → (flush (feed text new_filter).0 (emitter_of (feed text new_filter).1)).0.emitted
      ≡ strip (sanitize_late_tool_protocol text)
unfolding flush sanitize_late_tool_protocol
flush-plain_of text =
    ap (λ e. e.emitted)
      (normalize-emitter_of (feed text new_filter).1 (finish (feed text new_filter).0).1)
    ∙ emitted-strip ((feed text new_filter).1 ++ (finish (feed text new_filter).0).1)

pub conclude-plain_of :
    (o : GenerationOutput)
    → ((conclude o (plain_of o.text)).1 ≡ ended o (strip (sanitize_late_tool_protocol o.text)))
      × (emitted_by (plain_of o.text) ++ joined (conclude o (plain_of o.text)).0
          ≡ strip (sanitize_late_tool_protocol o.text))
unfolding conclude plain_of ended emitted_by flush normalize
conclude-plain_of o =
    let (f, fed) = feed o.text new_filter in
    (
      ap (ended o) (flush-plain_of o.text),
      ap (λ t. (emitter_of fed).emitted ++ t) (joined-non_empty (flush f (emitter_of fed)).1)
          ∙ flush-plain_of o.text,
    )
