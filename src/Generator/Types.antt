-- ===== src/Generator/Types.antt =====
-- runtime/generator.py: outputs, failures, and what a provider's stream yields.
use amit_ai.Common.{
  if◌then◌else◌, ℕ, String, ◌≡◌, refl, Bool, false, Option, none, some, List, [], ◌∷◌, ◌++◌,
}
use amit_ai.Common.Texts.{Text, eqb, strip, is_empty}

-- `GenerationOutput` of evaluation/hf_backend.py
pub record GenerationOutput : Type 0 where
  pub text : Text
  pub input_tokens : ℕ
  pub output_tokens : ℕ

-- The exceptions of the orchestration; `provider_failed` is any other that a provider raises.
pub data Failure : Type 0 where
  generation_failed : Failure
  privacy_blocked : Failure
  type_error value_error runtime_error : String → Failure
  key_error : Failure
  provider_failed : Failure

pub data Ran {ℓ} (A : Type ℓ) : Type ℓ where
  ran : A → Ran A
  raised : Failure → Ran A

module _ {ℓ κ} {A : Type ℓ} {B : Type κ} where
  infixl 5 ◌>>=◌
  abbrev pub ◌>>=◌ : Ran A → (A → Ran B) → Ran B
  ran a >>= rest = rest a
  raised f >>= rest = raised f

  -- A method that ran had each of its calls run.
  pub ran-bind :
      (call : Ran A) (rest : A → Ran B) {b : B}
      → (call >>= rest) ≡ ran b
      → (a : A) × (call ≡ ran a) × (rest a ≡ ran b)
  ran-bind (ran a) rest e = (a, refl, e)
  ran-bind (raised f) rest e = cc

-- What holds of a method's result, where it has one.
abbrev pub Results {ℓ κ} : {A : Type ℓ} → (A → Type κ) → Ran A → Type κ
Results P (ran a) = P a
Results P (raised _) = Unit

pub Results-bind {ℓ κ μ} :
    {A : Type ℓ} {B : Type κ} (P : B → Type μ) (call : Ran A) (rest : A → Ran B)
    → ((a : A) → call ≡ ran a → Results P (rest a))
    → Results P (call >>= rest)
Results-bind P (ran a) rest h = h a refl
Results-bind P (raised f) rest h = tt

pub Results-weaken {ℓ κ μ} :
    {A : Type ℓ} (P : A → Type κ) (Q : A → Type μ) (r : Ran A)
    → ((a : A) → P a → Q a)
    → Results P r
    → Results Q r
Results-weaken P Q (ran a) f h = f a h
Results-weaken P Q (raised e) f h = tt

-- What a provider returns: an output by its fields, where a negative or missing count is none, or
-- another value.
pub data Provided : Type 0 where
  output : (text : Text) (input_tokens output_tokens : Option ℕ) → Provided
  no_output : Provided

-- What a provider's stream yields, as the loop over it sees it: `cancelled` is an item that arrives
-- once the cancel event is set.
pub data Item : Type 0 where
  chunk : Text → Item
  final : Provided → Item
  junk : Item
  cancelled : Item

-- How a generator ends: exhausted, by a return before its end, or by an exception.
pub data End (A : Type 0) : Type 0 where
  yielded : A → End A
  returned : End A
  failed : Failure → End A

-- `_validate_output`
unfoldable pub validate_output : Bool → Provided → Ran GenerationOutput
validate_output strip_text no_output =
    raised (type_error "Runtime engine must return GenerationOutput")
validate_output strip_text (output text input_tokens output_tokens) =
    if is_empty (strip text)
    then raised (value_error "Runtime engine returned an empty response")
    else elim input_tokens [
      | none ↦ raised (type_error "Runtime engine input_tokens must be nonnegative")
      | some i ↦ elim output_tokens [
        | none ↦ raised (type_error "Runtime engine output_tokens must be nonnegative")
        | some o ↦ ran (record {
          text = if strip_text then strip text else text;
          input_tokens = i;
          output_tokens = o;
        })
      ]
    ]

-- The loop of `_stream_once` over the items, at the text of the chunks so far and the output so far:
-- the chunks it yields from here on, and how it ends.
unfoldable pub stream_items :
    Bool
    → Text
    → Option GenerationOutput
    → List Item
    → Ran (Unit {0})
    → List Text × End GenerationOutput
unfolding validate_output
stream_items is_set sofar found [] (raised f) = ([], failed f)
stream_items is_set sofar found [] (ran _) = (
  [],
  if is_set then returned else elim found [
    | none ↦ failed (type_error "Runtime provider stream ended without final output")
    | some o ↦
        if eqb sofar o.text
        then yielded o
        else failed (value_error "Runtime provider chunks do not reconstruct its final output")
  ],
)
stream_items is_set sofar found (cancelled ∷ items) last = ([], returned)
stream_items is_set sofar found (junk ∷ items) last =
    ([], failed (type_error "Runtime provider stream must yield text chunks or GenerationOutput"))
stream_items is_set sofar none (chunk [] ∷ items) last = stream_items is_set sofar none items last
stream_items is_set sofar none (chunk (c ∷ text) ∷ items) last =
    let (more, end) = stream_items is_set (sofar ++ c ∷ text) none items last in
    ((c ∷ text) ∷ more, end)
stream_items is_set sofar (some o) (chunk text ∷ items) last =
    ([], failed (type_error "Runtime provider streamed text after final output"))
stream_items is_set sofar (some o) (final p ∷ items) last =
    ([], failed (type_error "Runtime provider returned final output more than once"))
stream_items is_set sofar none (final p ∷ items) last = elim (validate_output false p) [
  | raised f ↦ ([], failed f)
  | ran o ↦ stream_items is_set sofar (some o) items last
]

-- A provider's stream: its items, whether it then raises, and whether the cancel event is set after.
pub record ProviderStream : Type 0 where
  pub items : List Item
  pub last : Ran (Unit {0})
  pub is_set : Bool

-- `_stream_once`; RemoteDisclosureBlockedError is `raised privacy_blocked`
unfoldable pub stream_once : ProviderStream → List Text × End GenerationOutput
unfolding stream_items
stream_once s = stream_items s.is_set [] none s.items s.last
