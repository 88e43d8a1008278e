-- ===== src/Constraints/Retries/Returns.antt =====
-- evaluation/constraints.py: a bounded retry comes to a result.
use amit_ai.Common.{◌≡◌, false}
use amit_ai.Common.Texts.{Text, strip, is_empty}
use amit_ai.Generator.Types.{Ran, ran}
use amit_ai.Constraints.Types.{Validation}

-- a result that is no exception
abbrev pub IsRan {ℓ} : {A : Type ℓ} → Ran A → Type ℓ
IsRan {A = A} r = (a : A) × (r ≡ ran a)

-- a function that answers, always and not blank
abbrev pub Answers : {S : Type 0} → (Text → S → Ran (Text × S)) → Type 0
Answers {S} retry =
    (prompt : Text) (s : S)
    → (answer : Text × S) × (retry prompt s ≡ ran answer) × (is_empty (strip answer.0) ≡ false)
