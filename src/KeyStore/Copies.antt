-- ===== src/KeyStore/Copies.antt =====
-- backend/database.py: `rotate_encrypted_database`, over what SQLCipher and the phase hook do.
use amit_ai.Common.{Bool, true, false, not, ◌&&◌, Option, none, some}
use amit_ai.Common.Texts.{Text}
use amit_ai.KeyStore.Types.{KeyFailure, encrypted_storage_error, database_busy, other_error}
use amit_ai.KeyStore.Disk.{
  Database, plaintext, encrypted, Disk, key_opens, Prog, ◌>>=◌, ◌>>◌, pure, throw, read_disk,
  handling, guard, system_call, attempt_call,
}

-- the places at which `phase_hook` is called
pub data Phase : Type 0 where
  after_journal_written after_candidate_created after_candidate_verified : Phase
  after_database_replaced before_envelope_finalization after_envelope_finalized : Phase

-- How the work on the database goes until its file is replaced.
pub data Trial : Type 0 where
  works is_busy breaks : Trial

-- What a rotation meets: how the database is opened and copied, whether the copy is verified and the
-- source unchanged since, whether the handles' memory can be secured, and where the hook raises.
pub record Course : Type 0 where
  pub opening : Trial
  pub copying : Trial
  pub verified : Bool
  pub unchanged : Bool
  pub secured : Bool
  pub hook_raises : Phase → Bool

-- what `sqlcipher_export` writes: the content, under the new key
abbrev pub exported : {C : Type 0} → Text → Option (Database C) → Option (Database C)
exported key none = none
exported key (some (plaintext c)) = some (encrypted key c)
exported key (some (encrypted k c)) = some (encrypted key c)

module _ {C : Type 0} where
  abbrev pub remove_candidate : Disk C → Disk C
  remove_candidate d = record d { candidate = none }

  abbrev pub create_candidate : Text → Disk C → Disk C
  create_candidate key d = record d { candidate = exported key d.database }

  -- `_replace_database`
  abbrev pub replace_database : Disk C → Disk C
  replace_database d = record d { database = d.candidate; candidate = none }

  -- the sidecars are no part of the disk
  abbrev pub remove_sidecars : Disk C → Disk C
  remove_sidecars d = d

  abbrev pub hook : Course → Phase → Prog C (Unit {0})
  hook course phase = guard (not (course.hook_raises phase)) other_error

  -- what follows an exception before the file is replaced
  unfoldable pub discard_candidate : KeyFailure → Prog C (Unit {0})
  discard_candidate failure = attempt_call remove_candidate >> throw failure

  unfoldable pub trial : Trial → Prog C (Unit {0})
  unfolding discard_candidate
  trial works = pure tt
  trial is_busy = discard_candidate database_busy
  trial breaks = discard_candidate encrypted_storage_error

  unfoldable pub checked : Bool → Prog C (Unit {0})
  unfolding discard_candidate
  checked true = pure tt
  checked false = discard_candidate encrypted_storage_error

  unfoldable pub or_discard : Prog C (Unit {0}) → Prog C (Unit {0})
  unfolding discard_candidate
  or_discard call = handling call (λ failure. discard_candidate encrypted_storage_error)

  -- the part of `rotate_encrypted_database` up to the replacement of the file
  unfoldable pub copy_database : Course → (old_key new_key : Text) → Prog C (Unit {0})
  unfolding discard_candidate
  copy_database course old_key new_key =
      attempt_call remove_candidate >> trial course.opening >> read_disk >>= λ d.
      checked (key_opens d.database old_key)
      >> or_discard (system_call (create_candidate new_key))
      >> trial course.copying
      >> hook course after_candidate_created
      >> checked course.verified
      >> hook course after_candidate_verified
      >> checked course.unchanged

  -- `rotate_encrypted_database`
  unfoldable pub rotate_encrypted_database : Course → (old_key new_key : Text) → Prog C (Unit {0})
  unfolding copy_database
  rotate_encrypted_database course old_key new_key =
      copy_database course old_key new_key
      >> or_discard (system_call replace_database)
      >> handling (system_call remove_sidecars) (λ failure. throw encrypted_storage_error)
      >> hook course after_database_replaced
      >> read_disk
      >>= λ d.
          guard (key_opens d.database new_key && not (key_opens d.database old_key))
            encrypted_storage_error
