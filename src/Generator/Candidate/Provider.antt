-- ===== src/Generator/Candidate/Provider.antt =====
-- What a provider's stream has to satisfy before its output counts, and the candidate it gives.
use amit_ai.Common.{
  Bool-cases, ◌≡◌, sym, ap, ◌∙◌, inl, inr, Bool, true, false, Option, none, some, List, [], ◌∷◌,
  ◌++◌, append-nil, append_assoc, arith,
}
use amit_ai.Common.Texts.{Text, eqb, eqb→eq}
use amit_ai.Generator.Types.{
  GenerationOutput, Ran, ran, raised, Item, chunk, final, junk, cancelled, End, yielded, returned,
  failed, validate_output, stream_items, ProviderStream, stream_once,
}
use amit_ai.Generator.Candidate.{stream_candidate}
use amit_ai.Generator.Candidate.Batch.{joined, batch_candidate, shown_text}
use amit_ai.Generator.Candidate.Streaming.{stream_candidate-batch}

-- the chunks make up the output, if there is one
abbrev Reconstructs : Text → List Text × End GenerationOutput → Type 0
Reconstructs sofar (chunks, yielded o) = sofar ++ joined chunks ≡ o.text
Reconstructs sofar (chunks, returned) = Unit
Reconstructs sofar (chunks, failed f) = Unit

Reconstructs-chunk :
    (sofar text : Text) (r : List Text × End GenerationOutput)
    → Reconstructs (sofar ++ text) r
    → Reconstructs sofar (text ∷ r.0, r.1)
Reconstructs-chunk sofar text (chunks, yielded o) h =
    sym (append_assoc sofar text (joined chunks)) ∙ h
Reconstructs-chunk sofar text (chunks, returned) h = tt
Reconstructs-chunk sofar text (chunks, failed f) h = tt

Reconstructs-validated :
    (sofar : Text) (v : Ran GenerationOutput)
    (k : GenerationOutput → List Text × End GenerationOutput)
    → ((o : GenerationOutput) → Reconstructs sofar (k o))
    → Reconstructs sofar (elim v [ raised f ↦ ([], failed f) | ran o ↦ k o ])
Reconstructs-validated sofar (raised f) k h = tt
Reconstructs-validated sofar (ran o) k h = h o

stream_items-Reconstructs :
    (is_set : Bool) (sofar : Text) (found : Option GenerationOutput) (items : List Item)
    (last : Ran (Unit {0}))
    → Reconstructs sofar (stream_items is_set sofar found items last)
unfolding stream_items
stream_items-Reconstructs is_set sofar found [] (raised f) = tt
stream_items-Reconstructs true sofar found [] (ran _) = tt
stream_items-Reconstructs false sofar none [] (ran _) = tt
stream_items-Reconstructs false sofar (some o) [] (ran _) = elim (Bool-cases (eqb sofar o.text)) [
  | inl same ↦ rw same (append-nil sofar ∙ eqb→eq sofar o.text same)
  | inr other ↦ rw other tt
]
stream_items-Reconstructs is_set sofar found (cancelled ∷ items) last = tt
stream_items-Reconstructs is_set sofar found (junk ∷ items) last = tt
stream_items-Reconstructs is_set sofar none (chunk [] ∷ items) last =
    stream_items-Reconstructs is_set sofar none items last
stream_items-Reconstructs is_set sofar none (chunk (c ∷ text) ∷ items) last =
    Reconstructs-chunk sofar (c ∷ text) (stream_items is_set (sofar ++ c ∷ text) none items last)
      (stream_items-Reconstructs is_set (sofar ++ c ∷ text) none items last)
stream_items-Reconstructs is_set sofar (some o) (chunk text ∷ items) last = tt
stream_items-Reconstructs is_set sofar (some o) (final p ∷ items) last = tt
stream_items-Reconstructs is_set sofar none (final p ∷ items) last =
    Reconstructs-validated sofar (validate_output false p)
      (λ o. stream_items is_set sofar (some o) items last)
      (λ o. stream_items-Reconstructs is_set sofar (some o) items last)

unfoldable text_of : End GenerationOutput → Text
text_of (yielded o) = o.text
text_of _ = []

Reconstructs-text :
    (r : List Text × End GenerationOutput) (o : GenerationOutput)
    → r.1 ≡ yielded o
    → Reconstructs [] r
    → joined r.0 ≡ o.text
unfolding text_of
Reconstructs-text (chunks, yielded o') o e h = h ∙ ap text_of e
Reconstructs-text (chunks, returned) o e h = ground arith
Reconstructs-text (chunks, failed f) o e h = ground arith

-- A provider's stream that ends with an output, whatever its chunks, gives the candidate that the
-- output's text at once would give, and shows what that text at once would show.
pub stream_once-candidate :
    (s : ProviderStream) (o : GenerationOutput)
    → (stream_once s).1 ≡ yielded o
    → let (deltas, end) = stream_candidate (stream_once s).0 (stream_once s).1 in
      (end ≡ batch_candidate o) × (joined deltas ≡ shown_text o)
unfolding stream_once
stream_once-candidate s o e = rw e (
    stream_candidate-batch (stream_once s).0 o (
      Reconstructs-text (stream_once s) o e
        (stream_items-Reconstructs s.is_set [] none s.items s.last)))
