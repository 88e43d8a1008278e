-- ===== src/Tooling/Filtering.antt =====
-- What the filter of late envelopes lets through.
use amit_ai.Common.{◌==◌, All, ◌≡◌, refl, false, [], ◌∷◌, ◌++◌, append_assoc}
use amit_ai.Common.Texts.{Text}
use amit_ai.Tooling.Protocol.{Filter, feed_character, feed}

-- no `<` in the text
abbrev pub IsPlain : Text → Type 0
IsPlain = All (λ c. c == b'<' ≡ false)

pub feed-append_states :
    (text more : Text) (s : Filter)
    → feed (text ++ more) s
      ≡ ((feed more (feed text s).0).0, (feed text s).1 ++ (feed more (feed text s).0).1)
unfolding feed
feed-append_states [] more s = refl
feed-append_states (c ∷ text) more s =
    rw (feed-append_states text more (feed_character c s).0, append_assoc) refl
