-- ===== src/Memory/Retrieve.antt =====
-- `MemoryService.retrieve`: the memories that a chat message calls up, ranked and bounded.
pub mod Bounds
pub mod Shown
use amit_ai.Common.{
  is_nil, ltb, leb, ◌==◌, if◌then◌else◌, ==_iff, Bool-cases, Option-cases, is_some, length, take,
  drop, any, keep, find, count, All, length-append, length-keep-le, count-append, All-append,
  All-weaken, ℕ, zero, suc, ◌+◌, ◌-◌, ◌*◌, ◌≤◌, ◌<◌, min, String, ◌≡◌, refl, sym, ap, ◌∙◌, fun_ext,
  ◌≢◌, ◌↔◌, ◌⊎◌, inl, inr, Bool, true, false, not, ◌&&◌, ◌||◌, Option, none, some, List, [], ◌∷◌,
  ◌++◌, map, reverse, append-nil, append_assoc, arith, ℕ_discrete, str_eq, str_eq_iff,
}
use amit_ai.Common.Texts.{
  Text, codes, is_space, eqb, starts_with, lstrip, rstrip, strip, is_empty, eqb→eq, eqb_refl, split,
  join, contains, is_member,
}
use amit_ai.Memory.Types.{
  Category, preference, profile, project, workflow, instruction, SlotStatus, Operation, Slot,
  Revision, Db, MemoryRecord,
}
use amit_ai.Memory.Tables.{list_current, sort_by}
use amit_ai.Memory.Apply.{memory_record}
use amit_ai.Memory.Stage.{Policy}

abbrev pub max_retrieved_memories : ℕ
max_retrieved_memories = 8

abbrev pub max_memory_context_chars : ℕ
max_memory_context_chars = 4_000

abbrev is_token_char : ℕ → Bool
is_token_char c = (leb b'a' c && leb c b'z') || (leb b'0' c && leb c b'9')

-- `_TOKEN_PATTERN.findall`: the maximal runs of lower-case letters and digits
unfoldable pub runs_from : Text → Text → List Text
runs_from word [] = if is_empty word then [] else word ∷ []
runs_from word (c ∷ text) =
    let more = runs_from (word ++ c ∷ []) text in
    let next = runs_from [] text in
    if is_token_char c then more else (if is_empty word then next else word ∷ next)

abbrev stopwords : List Text
stopwords =
    codes "a"
    ∷ codes "about"
    ∷ codes "an"
    ∷ codes "and"
    ∷ codes "are"
    ∷ codes "do"
    ∷ codes "does"
    ∷ codes "for"
    ∷ codes "i"
    ∷ codes "in"
    ∷ codes "is"
    ∷ codes "it"
    ∷ codes "kind"
    ∷ codes "me"
    ∷ codes "my"
    ∷ codes "of"
    ∷ codes "on"
    ∷ codes "that"
    ∷ codes "the"
    ∷ codes "to"
    ∷ codes "what"
    ∷ codes "which"
    ∷ codes "you"
    ∷ []

abbrev category_cues : Category → List Text
category_cues preference =
    codes "like" ∷ codes "likes" ∷ codes "prefer" ∷ codes "preference" ∷ codes "preferences" ∷ []
category_cues profile = codes "identity" ∷ codes "name" ∷ codes "profile" ∷ []
category_cues project = codes "context" ∷ codes "project" ∷ codes "projects" ∷ []
category_cues workflow = codes "process" ∷ codes "routine" ∷ codes "workflow" ∷ []
category_cues instruction =
    codes "instruction" ∷ codes "instructions" ∷ codes "rule" ∷ codes "rules" ∷ []

-- a frozenset of words, as a list that holds each once
unfoldable pub unique : List Text → List Text
unique [] = []
unique (w ∷ ws) = let rest = unique ws in if is_member w rest then rest else w ∷ rest

-- `len(a & b)`
abbrev overlap : List Text → List Text → ℕ
overlap a b = count (λ w. is_member w b) a

-- `key.replace(".", " ").replace("_", " ")`
abbrev spaced : Text → Text
spaced = map (λ c. if c == b'.' || c == b'_' then b' ' else c)

unfoldable pub score :
    (exact_key : Bool) (key_overlap value_overlap : ℕ) (category_match : Bool) → Option ℕ
score exact_key key_overlap value_overlap category_match =
    if exact_key
    then some (1_000 + 100 * key_overlap + value_overlap)
    else if ltb 0 key_overlap
    then some (100 * key_overlap + (if category_match then 20 else 0) + value_overlap)
    else if category_match
    then some (20 + value_overlap)
    else if leb 2 value_overlap
    then some value_overlap
    else none

pub record Ranked : Type 0 where
  pub points : ℕ
  pub slot : Slot
  pub revision : Revision

-- the sort key `(-score, -updated_at, id)`
abbrev pub ranks_before : Ranked → Ranked → Bool
ranks_before a b =
    ltb b.points a.points
    || (a.points == b.points
        && (ltb b.slot.updated_at a.slot.updated_at
            || (a.slot.updated_at == b.slot.updated_at && leb a.slot.id b.slot.id)))

module _ (policy : Policy) where
  unfoldable pub tokens : Text → List Text
  unfolding runs_from unique
  tokens value =
      unique (
        keep (λ w. not (is_member w stopwords))
          (runs_from [] (policy.casefold (policy.nfkc value))))

  -- the body of the ranking loop for one slot; a revision without a value is passed over
  unfoldable pub rank_one : Text → Slot → Revision → Option ℕ
  unfolding tokens score
  rank_one query s r = elim r.value [
    | none ↦ none
    | some value ↦
        let words = tokens query in
        score (contains s.key (policy.casefold (policy.nfkc query)))
          (overlap words (tokens (spaced s.key))) (overlap words (tokens value))
          (ltb 0 (overlap words (category_cues s.category)))
  ]

  unfoldable pub rank : Text → List ℕ → List (Slot × Revision) → List Ranked
  rank query excluded [] = []
  rank query excluded ((s, r) ∷ rows) =
      let rest = rank query excluded rows in
      if any (λ i. i == s.id) excluded then rest else elim (rank_one query s r) [
        | none ↦ rest
        | some n ↦ record { points = n; slot = s; revision = r } ∷ rest
      ]

module _ (size : MemoryRecord → ℕ) where
  -- The selection loop, at `n` records and `chars` characters selected. `size` is the length of a
  -- record's JSON.
  unfoldable pub select : ℕ → ℕ → List Ranked → List MemoryRecord
  select n chars [] = []
  select n chars (k ∷ ranked) =
      let found = memory_record k.slot k.revision Operation.retrieved in
      let skip = select n chars ranked in
      let more = select (n + 1) (chars + size found) ranked in
      if ltb 0 n && ltb max_memory_context_chars (chars + size found)
      then skip
      else if ltb max_memory_context_chars (size found)
      then skip
      else if n + 1 == max_retrieved_memories
      then found ∷ []
      else found ∷ more

module _ (policy : Policy) (size : MemoryRecord → ℕ) where
  -- `size` is `len(json.dumps(record, …))`
  unfoldable pub retrieve : ℕ → Text → List ℕ → Db → List MemoryRecord
  unfolding rank select
  retrieve owner query excluded db =
      if is_nil (tokens policy query)
      then []
      else select size 0 0 (
          sort_by ranks_before
            (rank policy query excluded (list_current owner SlotStatus.active none db)))
