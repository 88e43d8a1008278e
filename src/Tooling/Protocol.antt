-- ===== src/Tooling/Protocol.antt =====
-- runtime/tooling.py: what is reserved at the start of a response, and the filter that takes
-- reserved envelopes out of a response that started as normal text.
use amit_ai.Common.{
  Option-cases, ap, inr, arith, inl, ◌⊎◌, ◌≡◌, Bool-cases, ltb, if◌then◌else◌, length, take, drop,
  any, ℕ, zero, suc, ◌-◌, min, Bool, true, false, Option, none, some, List, [], ◌∷◌, ◌++◌, refl,
}
use amit_ai.Common.Texts.{Text, codes, eqb, starts_with, lstrip, is_empty}

-- `TOOL_CALL_OPEN.removesuffix(">")` and the like
abbrev pub call_start : Text
call_start = codes "<tool_call"

abbrev pub result_start : Text
result_start = codes "<tool_result"

abbrev pub call_close : Text
call_close = codes "</tool_call>"

abbrev pub result_close : Text
result_close = codes "</tool_result>"

abbrev pub reserved_starts : List Text
reserved_starts = call_start ∷ result_start ∷ []

-- `_RESERVED_CLOSES.get`
unfoldable pub reserved_close : Text → Option Text
reserved_close start =
    if eqb start call_start
    then some call_close
    else if eqb start result_start
    then some result_close
    else none

pub data PrefixState : Type 0 where
  ambiguous reserved normal : PrefixState

-- `any(start.startswith(text) for start in _RESERVED_STARTS)`
abbrev pub begins_any : Text → List Text → Bool
begins_any text = any (λ start. starts_with start text)

unfoldable pub classify_tool_protocol_prefix : Text → PrefixState
classify_tool_protocol_prefix text =
    let significant = lstrip text in
    if is_empty significant
    then ambiguous
    else if any (starts_with significant) reserved_starts
    then reserved
    else if begins_any significant reserved_starts
    then ambiguous
    else normal

-- `LateToolProtocolFilter`, by its three attributes
pub record Filter : Type 0 where
  pub pending : Text
  pub closing : Option Text
  pub closing_pending : Text

abbrev pub new_filter : Filter
new_filter = record { pending = []; closing = none; closing_pending = [] }

-- the loop of `_longest_prefix_suffix`, from the length `n` down
unfoldable pub suffix_from : ℕ → Text → List Text → Text
suffix_from zero text candidates = []
suffix_from (suc n) text candidates =
    let shorter = suffix_from n text candidates in
    let suffix = drop (length text - suc n) text in
    if begins_any suffix candidates then suffix else shorter

abbrev longest : List Text → ℕ
longest [] = 0
longest (c ∷ cs) = if ltb (longest cs) (length c) then length c else longest cs

unfoldable pub longest_prefix_suffix : Text → List Text → Text
unfolding suffix_from
longest_prefix_suffix text candidates =
    suffix_from (min (length text) (longest candidates - 1)) text candidates

-- the rest of the loop behind a turn that puts out `shown`
abbrev pub behind : Text → Option (Filter × Text) → Option (Filter × Text)
behind shown none = none
behind shown (some (after, output)) = some (after, shown ++ output)

-- The loop of `_feed_normal_character`: the filter after it, and what it put out. Each turn takes
-- one unit of fuel, and there is no result once it runs out.
unfoldable pub settle : ℕ → Filter → Option (Filter × Text)
unfolding reserved_close longest_prefix_suffix
settle zero s = none
settle (suc f) s = elim (is_empty s.pending) [
  | true ↦ some (s, [])
  | false ↦ elim (reserved_close s.pending) [
    | some closing ↦
        some (record s { pending = []; closing = some closing; closing_pending = [] }, [])
    | none ↦ elim (begins_any s.pending reserved_starts) [
      | true ↦ some (s, [])
      | false ↦
          let suffix = longest_prefix_suffix s.pending reserved_starts in
          behind (take (length s.pending - length suffix) s.pending)
            (settle f (record s { pending = suffix }))
    ]
  ]
]

suffix_from-Begins :
    (n : ℕ) (text : Text) (candidates : List Text)
    → (suffix_from n text candidates ≡ [])
      ⊎ (begins_any (suffix_from n text candidates) candidates ≡ true)
unfolding suffix_from
suffix_from-Begins zero text candidates = inl refl
suffix_from-Begins (suc n) text candidates =
    elim (Bool-cases (begins_any (drop (length text - suc n) text) candidates)) [
      | inl y ↦ rw y (inr y)
      | inr f ↦ rw f (suffix_from-Begins n text candidates)
    ]

-- how a filter may rest: nothing is pending, or the beginning of a reserved start
abbrev pub IsResting : Filter → Type 0
IsResting s = (s.pending ≡ []) ⊎ (begins_any s.pending reserved_starts ≡ true)

-- a result, with a filter that rests
abbrev pub Rests : Option (Filter × Text) → Type 0
Rests none = ⊥
Rests (some (after, output)) = IsResting after

behind-Rests : (shown : Text) (o : Option (Filter × Text)) → Rests o → Rests (behind shown o)
behind-Rests shown none h = h
behind-Rests shown (some r) h = h

empty-eq : (text : Text) → is_empty text ≡ true → text ≡ []
empty-eq [] h = refl
empty-eq (c ∷ text) h = cc

-- what may be reserved is settled in a turn
settle-resting : (f : ℕ) (s : Filter) → IsResting s → Rests (settle (suc f) s)
unfolding settle
settle-resting f s h = elim (Bool-cases (is_empty s.pending)) [
  | inl empty ↦ rw (empty, settle) (inl (empty-eq s.pending empty))
  | inr pending ↦ elim (Option-cases (reserved_close s.pending)) [
    | inr (closing, e) ↦ rw (pending, e, settle) (inl refl)
    | inl open_ ↦ elim h [
      | inl e ↦ absurd (go e pending)
      | inr begins ↦ rw (pending, open_, begins, settle) (inr begins)
    ]
  ]
]
  where
    go : s.pending ≡ [] → is_empty s.pending ≡ false → ⊥
    go e p = ground (arith, ap is_empty e)

-- The loop that settles what is pending ends by itself within two turns, and then nothing is
-- pending, or the beginning of a reserved start.
pub settle_enough : (f : ℕ) (s : Filter) → Rests (settle (suc (suc f)) s)
unfolding settle longest_prefix_suffix
settle_enough f s = elim (Bool-cases (is_empty s.pending)) [
  | inl empty ↦ rw (empty, settle) (inl (empty-eq s.pending empty))
  | inr pending ↦ elim (Option-cases (reserved_close s.pending)) [
    | inr (closing, e) ↦ rw (pending, e, settle) (inl refl)
    | inl open_ ↦ elim (Bool-cases (begins_any s.pending reserved_starts)) [
      | inl begins ↦ rw (pending, open_, begins, settle) (inr begins)
      | inr visible ↦
          let suffix = longest_prefix_suffix s.pending reserved_starts in
          rw (pending, open_, visible, settle)
            (behind-Rests (take (length s.pending - length suffix) s.pending) _ (
              settle-resting f (record s { pending = suffix })
                (suffix_from-Begins _ s.pending reserved_starts)))
    ]
  ]
]

-- the result, where there is one
unfoldable pub result_of : (o : Option (Filter × Text)) → Rests o → Filter × Text
result_of none h = elim h [ ]
result_of (some r) h = r

-- A first turn parts what is visible from what may be reserved, and a second one settles the latter.
unfoldable pub feed_normal_character : ℕ → Filter → Filter × Text
unfolding settle result_of
feed_normal_character c s =
    let read = record s { pending = s.pending ++ c ∷ [] } in
    result_of (settle 2 read) (settle_enough 0 read)

unfoldable pub feed_suppressed_character : ℕ → Text → Filter → Filter
unfolding longest_prefix_suffix
feed_suppressed_character c closing s =
    let read = s.closing_pending ++ c ∷ [] in
    if eqb read closing then record s { closing = none; closing_pending = [] } else record s {
      closing_pending =
          if starts_with closing read then read else longest_prefix_suffix read (closing ∷ []);
    }

-- the body of the loop of `feed`
unfoldable pub feed_character : ℕ → Filter → Filter × Text
unfolding feed_normal_character feed_suppressed_character
feed_character c s = elim s.closing [
  | none ↦ feed_normal_character c s
  | some closing ↦ (feed_suppressed_character c closing s, [])
]

unfoldable pub feed : Text → Filter → Filter × Text
unfolding feed_character
feed [] s = (s, [])
feed (c ∷ text) s =
    let (after, output) = feed_character c s in
    let (last, more) = feed text after in (last, output ++ more)

unfoldable pub finish : Filter → Filter × Text
finish s = elim s.closing [
  | some _ ↦ (new_filter, [])
  | none ↦
      (record s { pending = [] }, if starts_with s.pending (codes "<tool_") then [] else s.pending)
]

unfoldable pub sanitize_late_tool_protocol : Text → Text
unfolding feed finish
sanitize_late_tool_protocol text =
    let (last, output) = feed text new_filter in output ++ (finish last).1
