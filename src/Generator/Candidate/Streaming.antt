-- ===== src/Generator/Candidate/Streaming.antt =====
-- A streamed candidate is what the whole text at once would give, however it was cut into chunks.
use amit_ai.Common.{◌≡◌, refl, sym, ap, ◌∙◌, List, [], ◌++◌}
use amit_ai.Common.Texts.{Text, lstrip, strip}
use mathlib.Core.Path.{subst}
use amit_ai.Tooling.Protocol.{
  new_filter, PrefixState, ambiguous, reserved, normal, classify_tool_protocol_prefix,
  sanitize_late_tool_protocol,
}
use amit_ai.Generator.Types.{GenerationOutput, yielded}
use amit_ai.Generator.Candidate.{
  new_emitter, normalize, Mode, prefix, release, take_chunks, settle_mode, conclude,
  conclude_settled, non_empty, stream_candidate,
}
use amit_ai.Generator.Candidate.Batch.{
  joined, batch_candidate, shown_text, batch_by, shown_by, ended, plain_of, mode_by, mode_of,
  emitted_by, release-new, conclude-plain_of, take_chunks-mode_of, take_chunks-emitted,
  joined-append, joined-non_empty,
}

-- what a mode concludes is what the text at once would give
abbrev Concludes : GenerationOutput → Mode → Type 0
Concludes o m =
    ((conclude o m).1 ≡ ended o (strip (sanitize_late_tool_protocol o.text)))
    × (emitted_by m ++ joined (conclude o m).0 ≡ strip (sanitize_late_tool_protocol o.text))

release-emitted :
    (text : Text)
    → (release new_filter new_emitter text).1 ≡ emitted_by (release new_filter new_emitter text).0
unfolding release normalize emitted_by
release-emitted text = refl

conclude_settled-mode_by :
    (s : PrefixState) (o : GenerationOutput)
    → ((conclude_settled o (mode_by s o.text)).1 ≡ batch_by s o)
      × (emitted_by (mode_by s o.text) ++ joined (conclude_settled o (mode_by s o.text)).0
          ≡ shown_by s o)
unfolding conclude_settled settle_mode mode_by emitted_by lstrip
conclude_settled-mode_by reserved o = unfold conclude emitted_by in (refl, refl)
conclude_settled-mode_by normal o = unfold plain_of in conclude-plain_of o
conclude_settled-mode_by ambiguous o =
    let (m, delta) = release new_filter new_emitter o.text in
    let (ends, shows) = subst (Concludes o) (sym (release-new o.text)) (conclude-plain_of o) in
    (
      ends,
      joined-append (non_empty delta) (conclude o m).0
          ∙ ap (λ t. t ++ joined (conclude o m).0) (joined-non_empty delta ∙ release-emitted o.text)
          ∙ shows,
    )

-- A stream whose chunks make up the provider's output ends as the whole text at once would: as a
-- tool request that shows nothing, or as the sanitized text without white space at its ends, of
-- which every delta is a part. How the text was cut into chunks has no influence.
pub stream_candidate-batch :
    (chunks : List Text) (o : GenerationOutput)
    → joined chunks ≡ o.text
    → ((stream_candidate chunks (yielded o)).1 ≡ batch_candidate o)
      × (joined (stream_candidate chunks (yielded o)).0 ≡ shown_text o)
unfolding stream_candidate mode_of mode_by emitted_by classify_tool_protocol_prefix lstrip
stream_candidate-batch chunks o whole =
    let (m, deltas) = take_chunks (prefix []) chunks in
    let read = take_chunks-mode_of [] chunks ∙ ap mode_of whole in
    let (ends, shows) = conclude_settled-mode_by (classify_tool_protocol_prefix o.text) o in
    (
      ap (λ m. (conclude_settled o m).1) read ∙ ends,
      joined-append deltas (conclude_settled o m).0
          ∙ ap (λ t. t ++ joined (conclude_settled o m).0) (take_chunks-emitted (prefix []) chunks)
          ∙ ap (λ m. emitted_by m ++ joined (conclude_settled o m).0) read
          ∙ shows,
    )
