-- ===== src/KeyStore/Rotating/Copying.antt =====
-- backend/database.py: `rotate_encrypted_database` keeps the old key until the copy is in place.
use amit_ai.Common.{◌≡◌, Bool, true, false}
use amit_ai.Common.Texts.{Text, eqb}
use amit_ai.KeyStore.Types.{KeyFailure, database_busy, encrypted_storage_error, other_error, Env}
use amit_ai.KeyStore.Disk.{Disk, key_opens, Prog}
use amit_ai.KeyStore.Disk.Triples.{Triple, bind-Triple, handling-Triple, then-Triple, before-Triple}
use amit_ai.KeyStore.Disk.Triples.Steps.{
  pure-Triple, throw-Triple, system_call-Triple, attempt_call-Triple, read_disk-Triple, keep-Triple,
}
use amit_ai.KeyStore.Envelope.{Material}
use amit_ai.KeyStore.Rotating.Stages.{
  Before, Copied, After, Thrown, EitherKey, Before-Safe, after-Safe, Before-Thrown, removed-Before,
  created-Copied, replaced-After,
}
use amit_ai.KeyStore.Copies.{
  Trial, works, is_busy, breaks, Course, remove_candidate, create_candidate, replace_database,
  remove_sidecars, discard_candidate, trial, checked, or_discard, copy_database,
  rotate_encrypted_database,
}

module _ {C : Type 0} (env : Env) (passphrase : Text) (content : C) (m : Material) (new_key : Text)
    (other : eqb m.database_key new_key ≡ false) where
  abbrev Safe : Disk C → Type 0
  Safe = EitherKey env passphrase content m new_key

  abbrev Fails : KeyFailure → Disk C → Type 0
  Fails = Thrown env passphrase content m new_key

  abbrev Old : Disk C → Type 0
  Old = Before env passphrase content m new_key

  abbrev Ready : Disk C → Type 0
  Ready = Copied env passphrase content m new_key

  abbrev New : Disk C → Type 0
  New = After env passphrase content m new_key

  Old-Safe : (d : Disk C) → Old d → Safe d
  Old-Safe = Before-Safe env passphrase content m new_key other

  New-Safe : (d : Disk C) → New d → Safe d
  New-Safe = after-Safe env passphrase content m new_key other

  Old-Fails : (f : KeyFailure) (d : Disk C) → Old d → Fails f d
  Old-Fails = Before-Thrown env passphrase content m new_key other

  Ready-Old : (d : Disk C) → Ready d → Old d
  Ready-Old d c = c.before

  discard-Triple :
      {P : Unit {0} → Disk C → Type 0} (f : KeyFailure)
      → Triple Safe Fails Old (discard_candidate f) P
  unfolding discard_candidate
  discard-Triple f =
      then-Triple Safe Fails
        (attempt_call-Triple Safe Fails remove_candidate Old-Safe (λ d b. b)
          (removed-Before env passphrase content m new_key))
        (throw-Triple Safe Fails f (Old-Fails f))

  trial-Triple :
      (Pre : Disk C → Type 0) (t : Trial)
      → ((d : Disk C) → Pre d → Old d)
      → Triple Safe Fails Pre (trial t) (λ _. Pre)
  unfolding trial
  trial-Triple Pre works h = pure-Triple Safe Fails tt (λ d pre. pre)
  trial-Triple Pre is_busy h = before-Triple Safe Fails h (discard-Triple database_busy)
  trial-Triple Pre breaks h = before-Triple Safe Fails h (discard-Triple encrypted_storage_error)

  checked-Triple :
      (Pre : Disk C → Type 0) (b : Bool)
      → ((d : Disk C) → Pre d → Old d)
      → Triple Safe Fails Pre (checked b) (λ _. Pre)
  unfolding checked
  checked-Triple Pre true h = pure-Triple Safe Fails tt (λ d pre. pre)
  checked-Triple Pre false h = before-Triple Safe Fails h (discard-Triple encrypted_storage_error)

  or_discard-Triple :
      {Pre : Disk C → Type 0} {P : Unit {0} → Disk C → Type 0} {call : Prog C (Unit {0})}
      → Triple Safe (λ _. Old) Pre call P
      → Triple Safe Fails Pre (or_discard call) P
  unfolding or_discard
  or_discard-Triple t =
      handling-Triple Safe Fails (λ _. Old) t (λ f. discard-Triple encrypted_storage_error)

  copy_database-Triple :
      (course : Course)
      → Triple Safe Fails Old (copy_database course m.database_key new_key) (λ _. Ready)
  unfolding copy_database
  copy_database-Triple course =
      bind-Triple Safe Fails (λ d0 d. Old d × (d0 ≡ d))
        (then-Triple Safe Fails
          (then-Triple Safe Fails {Mid = Old}
            (attempt_call-Triple Safe Fails remove_candidate Old-Safe (λ d b. b)
              (removed-Before env passphrase content m new_key))
            (trial-Triple Old course.opening (λ d b. b)))
          (read_disk-Triple Safe Fails))
        (λ d0.
          before-Triple Safe Fails (λ d (b, _). b)
            (then-Triple Safe Fails
              (then-Triple Safe Fails
                (then-Triple Safe Fails
                  (then-Triple Safe Fails
                    (then-Triple Safe Fails
                      (then-Triple Safe Fails
                        (checked-Triple Old (key_opens d0.database m.database_key) (λ d b. b))
                        (or_discard-Triple (
                          system_call-Triple Safe (λ _. Old) (create_candidate new_key) Old-Safe
                            (λ d b. b) (created-Copied env passphrase content m new_key))))
                      (trial-Triple Ready course.copying Ready-Old))
                    (keep-Triple Safe Fails _ other_error (λ d c. Old-Safe d c.before)))
                  (checked-Triple Ready course.verified Ready-Old))
                (keep-Triple Safe Fails _ other_error (λ d c. Old-Safe d c.before)))
              (checked-Triple Ready course.unchanged Ready-Old)))

  -- The database is under the old key or the new one wherever this ends, and under the new one
  -- where it returns.
  pub rotate_encrypted_database-Triple :
      (course : Course)
      → Triple Safe Fails Old (rotate_encrypted_database course m.database_key new_key) (λ _. New)
  unfolding rotate_encrypted_database
  rotate_encrypted_database-Triple course =
      bind-Triple Safe Fails (λ d0 d. New d × (d0 ≡ d))
        (then-Triple Safe Fails
          (then-Triple Safe Fails
            (then-Triple Safe Fails
              (then-Triple Safe Fails (copy_database-Triple course) (
                or_discard-Triple (
                  system_call-Triple Safe (λ _. Old) replace_database (λ d c. Old-Safe d c.before)
                    Ready-Old (replaced-After env passphrase content m new_key))))
              (handling-Triple Safe Fails (λ _. New)
                (system_call-Triple Safe (λ _. New) remove_sidecars New-Safe (λ d a. a) (λ d a. a))
                (λ f. throw-Triple Safe Fails encrypted_storage_error New-Safe)))
            (keep-Triple Safe Fails _ other_error New-Safe))
          (read_disk-Triple Safe Fails))
        (λ d0.
          before-Triple Safe Fails (λ d (a, _). a)
            (keep-Triple Safe Fails _ encrypted_storage_error New-Safe))
