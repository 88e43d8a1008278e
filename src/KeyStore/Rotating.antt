-- ===== src/KeyStore/Rotating.antt =====
-- runtime/key_store.py: `rotate_database_key`, wherever it ends.
pub mod Stages
pub mod Copying
use mathlib.Core.Path.{subst}
use amit_ai.Common.{
  ltb, leb, ◌==◌, if◌then◌else◌, ==_iff, Bool-cases, Option-cases, is_some, is_nil, length, take,
  drop, any, keep, find, count, All, length-append, length-keep-le, count-append, All-append,
  All-weaken, ℕ, zero, suc, ◌+◌, ◌-◌, ◌*◌, ◌≤◌, ◌<◌, min, String, ◌≡◌, refl, sym, ap, ◌∙◌, fun_ext,
  ◌≢◌, ◌↔◌, ◌⊎◌, inl, inr, Bool, true, false, not, ◌&&◌, ◌||◌, Option, none, some, List, [], ◌∷◌,
  ◌++◌, map, reverse, append-nil, append_assoc, reverse-append, reverse-reverse, arith, ℕ_discrete,
  str_eq, str_eq_iff,
}
use amit_ai.Common.Texts.{
  Text, codes, is_space, eqb, starts_with, lstrip, rstrip, strip, is_empty, eqb→eq, eqb_refl, split,
  join, contains, is_member,
}
use amit_ai.KeyStore.Types.{
  RotationState, prepared, database_replaced, finalized, KeyFailure, key_store_error,
  key_rotation_error, unlock_error, private_path_error, secure_memory_error,
  encrypted_storage_error, database_busy, os_error, other_error, IsCrypto, Env, database_key_bytes,
}
use amit_ai.KeyStore.Disk.{
  Disk, exists_file, Prog, ◌>>=◌, ◌>>◌, guard, write, handling, throw, read_disk,
}
use amit_ai.KeyStore.Disk.Triples.{
  Triple, bind-Triple, handling-Triple, then-Triple, before-Triple, after-Triple, given-Triple,
  widen-Triple,
}
use amit_ai.KeyStore.Disk.Triples.Steps.{
  throw-Triple, guard-Triple, write-Triple, read_disk-Triple, keep-Triple,
}
use amit_ai.KeyStore.Envelope.{Material, build_envelope, rotation_document}
use amit_ai.KeyStore.Envelope.Reading.{IsMaterial}
use amit_ai.KeyStore.Recoverable.{
  Settled, Recoverable, settled, pending, IsSettled, material_in-IsMaterial,
}
use amit_ai.KeyStore.Recovering.{require_no_restore-Triple}
use amit_ai.KeyStore.Unlocking.{Read, recover_first-Triple}
use amit_ai.KeyStore.Operations.{
  store_key_file, store_rotation, remove_rotation, write_rotation, rotation_failed, rotate_files,
  rotation_failure, rotate_database_key,
}
use amit_ai.KeyStore.Copies.{
  Course, after_journal_written, before_envelope_finalization, after_envelope_finalized, hook,
  rotate_encrypted_database,
}
use amit_ai.KeyStore.Rotating.Stages.{
  Before, After, Finished, Thrown, EitherKey, renewed, Before-Safe, after-Safe, Before-Thrown,
  stored-Before, stored-After, stored-Finished, key_file-Finished, cancelled-Settled,
  Finished-Settled,
}
use amit_ai.KeyStore.Rotating.Copying.{rotate_encrypted_database-Triple}

module _ {C : Type 0} (env : Env) (law : IsCrypto env.crypto) (passphrase : Text) (content : C)
    (m : Material) (new_key : Text) (other : eqb m.database_key new_key ≡ false) where
  abbrev Safe : Disk C → Type 0
  Safe = EitherKey env passphrase content m new_key

  abbrev Fails : KeyFailure → Disk C → Type 0
  Fails = Thrown env passphrase content m new_key

  abbrev AlwaysSafe : KeyFailure → Disk C → Type 0
  AlwaysSafe f = Safe

  abbrev First : Disk C → Type 0
  First = Settled env passphrase content m

  abbrev Old : Disk C → Type 0
  Old = Before env passphrase content m new_key

  abbrev New : Disk C → Type 0
  New = After env passphrase content m new_key

  abbrev Last : Disk C → Type 0
  Last = Finished env passphrase content m new_key

  abbrev Rotated : Disk C → Type 0
  Rotated = IsSettled env passphrase content new_key

  Old-Safe : (d : Disk C) → Old d → Safe d
  Old-Safe = Before-Safe env passphrase content m new_key other

  New-Safe : (d : Disk C) → New d → Safe d
  New-Safe = after-Safe env passphrase content m new_key other

  Last-Safe : (d : Disk C) → Last d → Safe d
  Last-Safe d f = New-Safe d f.after

  First-Safe : (d : Disk C) → First d → Safe d
  First-Safe d s = inl (settled m s refl)

  rotated : (d : Disk C) → Last d → Rotated (remove_rotation d)
  rotated d f = (
    renewed env passphrase content m new_key,
    Finished-Settled env passphrase content m new_key d f,
    refl,
  )

  rotated-Safe : (d : Disk C) → Last d → Safe (remove_rotation d)
  rotated-Safe d f = inr (
      settled (renewed env passphrase content m new_key)
        (Finished-Settled env passphrase content m new_key d f) refl)

  module _ (known : IsMaterial env passphrase m) (size : length new_key ≡ database_key_bytes) where
    -- a write of the journal, between two stages
    journal-Triple :
        (state : RotationState) (Pre P : Disk C → Type 0)
        → ((d : Disk C) → Pre d → Safe d)
        → ((d : Disk C) → P d → Safe d)
        → ((d : Disk C)
            → Pre d
            → P (
                store_rotation
                  (rotation_document env state m.database_key new_key m.wrapping_key m.kdf)
                  d))
        → Triple Safe Fails Pre (write_rotation env state m.database_key new_key m) (λ _. P)
    unfolding write_rotation
    journal-Triple state Pre P safe safe' step =
        write-Triple Safe Fails _ safe safe (λ d pre. safe' _ (step d pre)) step

    key_file-Triple :
        Triple Safe Fails New
          (write (store_key_file (build_envelope env new_key m.wrapping_key m.kdf)))
          (λ _. Last)
    key_file-Triple =
        let step = key_file-Finished env passphrase content m new_key law known size in
        write-Triple Safe Fails _ New-Safe New-Safe (λ d a. Last-Safe _ (step d a)) step

    rotate_files-Triple :
        (course : Course)
        → Triple Safe Fails First (rotate_files env course m new_key) (λ _. Rotated)
    unfolding rotate_files
    rotate_files-Triple course =
        then-Triple Safe Fails
          (then-Triple Safe Fails
            (then-Triple Safe Fails
              (then-Triple Safe Fails
                (then-Triple Safe Fails
                  (then-Triple Safe Fails
                    (then-Triple Safe Fails
                      (then-Triple Safe Fails
                        (then-Triple Safe Fails
                          (journal-Triple prepared First Old First-Safe Old-Safe (
                            stored-Before env passphrase content m new_key law known size prepared))
                          (keep-Triple Safe Fails _ other_error Old-Safe))
                        (keep-Triple Safe Fails course.secured secure_memory_error Old-Safe))
                      (rotate_encrypted_database-Triple env passphrase content m new_key other
                        course))
                    (journal-Triple database_replaced New New New-Safe New-Safe (
                      stored-After env passphrase content m new_key law known size
                        database_replaced)))
                  (keep-Triple Safe Fails _ other_error New-Safe))
                key_file-Triple)
              (journal-Triple finalized Last Last Last-Safe Last-Safe
                (stored-Finished env passphrase content m new_key law known size finalized)))
            (keep-Triple Safe Fails _ other_error Last-Safe))
          (write-Triple Safe Fails remove_rotation Last-Safe Last-Safe rotated-Safe rotated)

  rotation_failure-Triple :
      (f : KeyFailure) → Triple Safe AlwaysSafe (Fails f) (rotation_failure env f) (λ _. Rotated)
  unfolding rotation_failure
  rotation_failure-Triple database_busy =
      then-Triple Safe AlwaysSafe {Mid = Safe}
        (write-Triple Safe AlwaysSafe remove_rotation Old-Safe Old-Safe
          (λ d b. inl (settled m (cancelled-Settled env passphrase content m new_key d b) refl))
          (λ d b. inl (settled m (cancelled-Settled env passphrase content m new_key d b) refl)))
        (throw-Triple Safe AlwaysSafe _ (λ d safe. safe))
  rotation_failure-Triple (key_store_error _) = throw-Triple Safe AlwaysSafe _ (λ d safe. safe)
  rotation_failure-Triple (key_rotation_error _) = throw-Triple Safe AlwaysSafe _ (λ d safe. safe)
  rotation_failure-Triple unlock_error = throw-Triple Safe AlwaysSafe _ (λ d safe. safe)
  rotation_failure-Triple private_path_error = throw-Triple Safe AlwaysSafe _ (λ d safe. safe)
  rotation_failure-Triple secure_memory_error = throw-Triple Safe AlwaysSafe _ (λ d safe. safe)
  rotation_failure-Triple encrypted_storage_error = throw-Triple Safe AlwaysSafe _ (λ d safe. safe)
  rotation_failure-Triple os_error = throw-Triple Safe AlwaysSafe _ (λ d safe. safe)
  rotation_failure-Triple other_error = throw-Triple Safe AlwaysSafe _ (λ d safe. safe)

  -- what follows the key file's material
  rotate_known-Triple :
      (course : Course)
      → IsMaterial env passphrase m
      → Triple Safe AlwaysSafe First
          (guard (length new_key == database_key_bytes) rotation_failed
            >> handling (rotate_files env course m new_key) (rotation_failure env))
          (λ _. Rotated)
  rotate_known-Triple course known =
      bind-Triple Safe AlwaysSafe (λ _ d. First d × (length new_key == database_key_bytes ≡ true))
        (guard-Triple Safe AlwaysSafe _ rotation_failed First-Safe)
        (λ _.
          given-Triple Safe AlwaysSafe (λ d (s, e). ground (arith, e))
            (λ size.
              before-Triple Safe AlwaysSafe (λ d (s, _). s)
                (handling-Triple Safe AlwaysSafe Fails (rotate_files-Triple known size course)
                  rotation_failure-Triple)))

module _ {C : Type 0} (env : Env) (law : IsCrypto env.crypto) (passphrase : Text) (content : C)
    (key new_key : Text) (other : eqb key new_key ≡ false) where
  -- The passphrase leads to the database, under one of the keys.
  abbrev pub Either : Text → Disk C → Type 0
  Either k d = Recoverable env passphrase content k d ⊎ Recoverable env passphrase content new_key d

  abbrev Works : Disk C → Type 0
  Works = Recoverable env passphrase content key

  abbrev OneKey : Disk C → Type 0
  OneKey = Either key

  abbrev Raises : KeyFailure → Disk C → Type 0
  Raises f = OneKey

  abbrev Ends : Unit {0} → Disk C → Type 0
  Ends _ = IsSettled env passphrase content new_key

  rotate_read-Triple :
      (course : Course) (m : Material)
      → Triple OneKey Raises
          (Read env passphrase content key m)
          (guard (length new_key == database_key_bytes) rotation_failed
            >> handling (rotate_files env course m new_key) (rotation_failure env))
          Ends
  rotate_read-Triple course m =
      given-Triple OneKey Raises
        (λ d (s, is_key). (material_in-IsMaterial env passphrase d.key_file s.opened, is_key))
        (λ (known, is_key).
          before-Triple OneKey Raises (λ d (s, _). s)
            (subst
              (λ k.
                Triple (Either k) (λ _. Either k) (Settled env passphrase content m)
                  (guard (length new_key == database_key_bytes) rotation_failed
                    >> handling (rotate_files env course m new_key) (rotation_failure env))
                  Ends)
              is_key
              (rotate_known-Triple env law passphrase content m new_key
                (ap (λ k. eqb k new_key) is_key ∙ other) course known)))

  pub rotate_database_key-Triple :
      (course : Course)
      → Triple OneKey Raises Works (rotate_database_key env course passphrase new_key) Ends
  unfolding rotate_database_key
  rotate_database_key-Triple course =
      bind-Triple OneKey Raises (λ d0 d. Works d × (d0 ≡ d))
        (then-Triple OneKey Raises (require_no_restore-Triple OneKey Raises (λ f d safe. inl safe))
          (read_disk-Triple OneKey Raises))
        (λ d0.
          bind-Triple OneKey Raises (Read env passphrase content key)
            (widen-Triple Works OneKey (λ _. Works) Raises (λ d. inl) (λ f d. inl)
              (recover_first-Triple env law passphrase content key course.secured d0))
            (rotate_read-Triple course))
