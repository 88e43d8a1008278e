-- ===== src/KeyStore/Operations.antt =====
-- runtime/key_store.py: the operations of `KeyStore`.
use amit_ai.Common.{
  leb, ◌==◌, if◌then◌else◌, length, String, Bool, true, false, not, ◌||◌, Option, none, some,
}
use amit_ai.Common.Texts.{Text}
use amit_ai.KeyStore.Types.{
  RotationState, prepared, database_replaced, finalized, Envelope, Rotation, KeyFailure,
  key_store_error, key_rotation_error, unlock_error, private_path_error, secure_memory_error,
  encrypted_storage_error, database_busy, os_error, other_error, is_key_store_or_path, Env,
  min_passphrase_chars, database_key_bytes,
}
use amit_ai.KeyStore.Copies.{
  after_journal_written, before_envelope_finalization, after_envelope_finalized, Course,
  remove_candidate, hook, rotate_encrypted_database,
}
use amit_ai.KeyStore.Disk.{
  Stored, absent, document, exists_file, Database, encrypted, Disk, key_opens, Prog, ◌>>=◌, ◌>>◌,
  pure, throw, read_disk, handling, guard, require, write, system_call,
}
use amit_ai.KeyStore.Envelope.{
  Material, RotationMaterial, kdf_document, open_envelope, build_envelope, rotation_document,
  open_rotation,
}

abbrev pub rotation_recovery_required_message : String
rotation_recovery_required_message =
    "Database key rotation recovery is required before changing passphrase"

abbrev pub rotation_failed : KeyFailure
rotation_failed = key_rotation_error "Database key rotation failed"

abbrev pub busy_message : String
busy_message = "Database is busy; stop AmitAI before key rotation"

-- `document` of a key file that opens, or of a journal
unfoldable pub material_in : Env → Text → Stored Envelope → Option Material
unfolding open_envelope
material_in env passphrase (document e) = open_envelope env passphrase e
material_in env passphrase _ = none

unfoldable pub rotation_in : Env → Text → Stored Rotation → Option RotationMaterial
unfolding open_rotation
rotation_in env passphrase (document r) = open_rotation env passphrase r
rotation_in env passphrase _ = none

abbrev pub is_encrypted : {C : Type 0} → Option (Database C) → Bool
is_encrypted (some (encrypted k c)) = true
is_encrypted _ = false

-- the exceptions that `unlock` turns into UnlockError
abbrev pub as_unlock_error : KeyFailure → KeyFailure
as_unlock_error secure_memory_error = unlock_error
as_unlock_error failure = if is_key_store_or_path failure then unlock_error else failure

module _ {C : Type 0} where
  abbrev pub store_key_file : Envelope → Disk C → Disk C
  store_key_file e d = record d { key_file = document e }

  abbrev pub store_rotation : Rotation → Disk C → Disk C
  store_rotation r d = record d { rotation_file = document r }

  abbrev pub remove_rotation : Disk C → Disk C
  remove_rotation d = record d { rotation_file = absent }

  -- `require_no_restore`
  unfoldable pub require_no_restore : Prog C (Unit {0})
  require_no_restore = read_disk >>= λ d. guard (not d.restore_marker) (
      key_store_error
        "Restore recovery required; rerun runtime.backup restore --resume with the same input and destinations")

  -- `_validate_passphrase`
  abbrev pub validate_passphrase : Text → Prog C (Unit {0})
  validate_passphrase passphrase =
      guard (leb min_passphrase_chars (length passphrase))
        (key_store_error "Unlock passphrase must contain at least 12 characters")

  abbrev pub require_uninitialized : Prog C (Unit {0})
  require_uninitialized = read_disk >>= λ d.
      guard (not (exists_file d.key_file || exists_file d.rotation_file))
        (key_store_error "Key store is already initialized")

  -- the key that recovery selects, where one of the two opens the database and the other does not
  unfoldable pub select_key : Option (Database C) → RotationMaterial → Option Text
  select_key database m =
      if key_opens database m.new_key
      then (if key_opens database m.old_key then none else some m.new_key)
      else if key_opens database m.old_key
      then some m.old_key
      else none

  module _ (env : Env) where
    -- `_write_rotation`
    unfoldable pub write_rotation :
        RotationState → (old_key new_key : Text) → Material → Prog C (Unit {0})
    unfolding rotation_document
    write_rotation state old_key new_key m =
        write (store_rotation (rotation_document env state old_key new_key m.wrapping_key m.kdf))

    -- `_write_new_envelope`, at the salt that is drawn
    unfoldable pub write_new_envelope : (key passphrase salt : Text) → Prog C (Unit {0})
    unfolding build_envelope
    write_new_envelope key passphrase salt =
        let kdf = kdf_document env.policy.creation salt in
        require (key_store_error "Unlock failed") (env.crypto.derive passphrase kdf)
        >>= λ wrapping_key. write (store_key_file (build_envelope env key wrapping_key kdf))

    -- `initialize`, at the key that is given or drawn
    unfoldable pub initialize : (passphrase key salt : Text) → Prog C (Unit {0})
    unfolding require_no_restore write_new_envelope
    initialize passphrase key salt =
        require_no_restore
        >> validate_passphrase passphrase
        >> require_uninitialized
        >> read_disk
        >>= λ d.
            guard (not (is_encrypted d.database))
              (key_store_error "Encrypted database exists; use import-existing")
            >> guard (length key == database_key_bytes) (key_store_error "Database key is invalid")
            >> write_new_envelope key passphrase salt

    -- `import_existing`; `matches` tells that the given text is 64 hexadecimal digits
    unfoldable pub import_existing :
        (secured matches : Bool) (key passphrase salt : Text) → Prog C (Unit {0})
    unfolding require_no_restore write_new_envelope
    import_existing secured matches key passphrase salt =
        require_no_restore
        >> validate_passphrase passphrase
        >> require_uninitialized
        >> read_disk
        >>= λ d.
            guard (is_encrypted d.database)
              (key_store_error "Existing encrypted database is required")
            >> guard matches (key_store_error "Existing database key is invalid")
            >> guard secured secure_memory_error
            >> guard (key_opens d.database key)
                (key_store_error "Existing database key could not open the database")
            >> write_new_envelope key passphrase salt

    -- the writes of `recover_rotation`
    unfoldable pub restore_key : Text → RotationMaterial → Prog C (Unit {0})
    unfolding build_envelope
    restore_key key m =
        write (store_key_file (build_envelope env key m.wrapping_key m.kdf))
        >> system_call remove_candidate
        >> write remove_rotation

    -- `recover_rotation`
    unfoldable pub recover_rotation : Bool → Text → Prog C (Unit {0})
    unfolding require_no_restore select_key restore_key
    recover_rotation secured passphrase = require_no_restore >> read_disk >>= λ d.
        require unlock_error (rotation_in env passphrase d.rotation_file) >>= λ m.
        guard secured secure_memory_error
        >> require (key_rotation_error "Database key rotation recovery failed")
            (select_key d.database m)
        >>= λ key. restore_key key m

    -- `self.recover_rotation(...)` where there is a journal
    unfoldable pub recover_if : Bool → Bool → Text → Prog C (Unit {0})
    unfolding recover_rotation
    recover_if true secured passphrase = recover_rotation secured passphrase
    recover_if false secured passphrase = pure tt

    -- `_unlock_material`
    unfoldable pub unlock_material : Text → Prog C Material
    unlock_material passphrase =
        read_disk >>= λ d. require unlock_error (material_in env passphrase d.key_file)

    -- `unlock`, given the database's path; the key stands for its handle
    unfoldable pub unlock : Bool → Text → Prog C Text
    unfolding require_no_restore recover_if
    unlock secured passphrase =
        require_no_restore
        >> handling
            (read_disk >>= λ d.
              recover_if (exists_file d.rotation_file) secured passphrase
              >> unlock_material passphrase
              >>= λ m. guard secured secure_memory_error >> pure m.database_key)
            (λ failure. throw (as_unlock_error failure))

    -- `change_passphrase`
    unfoldable pub change_passphrase :
        (old_passphrase new_passphrase salt : Text) → Prog C (Unit {0})
    unfolding require_no_restore write_new_envelope
    change_passphrase old_passphrase new_passphrase salt = require_no_restore >> read_disk >>= λ d.
        guard (not (exists_file d.rotation_file))
          (key_rotation_error rotation_recovery_required_message)
        >> validate_passphrase new_passphrase
        >> unlock_material old_passphrase
        >>= λ m. write_new_envelope m.database_key new_passphrase salt

    -- the body of the `try` block of `rotate_database_key`
    unfoldable pub rotate_files : Course → Material → Text → Prog C (Unit {0})
    unfolding write_rotation rotate_encrypted_database build_envelope
    rotate_files course m new_key =
        write_rotation prepared m.database_key new_key m
        >> hook course after_journal_written
        >> guard course.secured secure_memory_error
        >> rotate_encrypted_database course m.database_key new_key
        >> write_rotation database_replaced m.database_key new_key m
        >> hook course before_envelope_finalization
        >> write (store_key_file (build_envelope env new_key m.wrapping_key m.kdf))
        >> write_rotation finalized m.database_key new_key m
        >> hook course after_envelope_finalized
        >> write remove_rotation

    -- its `except` clauses
    unfoldable pub rotation_failure : KeyFailure → Prog C (Unit {0})
    rotation_failure database_busy =
        write remove_rotation >> throw (key_rotation_error busy_message)
    rotation_failure encrypted_storage_error = throw rotation_failed
    rotation_failure secure_memory_error = throw secure_memory_error
    rotation_failure unlock_error = throw unlock_error
    rotation_failure private_path_error = throw private_path_error
    rotation_failure (key_store_error message) = throw (key_store_error message)
    rotation_failure (key_rotation_error message) = throw (key_rotation_error message)
    rotation_failure os_error = throw rotation_failed
    rotation_failure other_error = throw rotation_failed

    -- `rotate_database_key`, at the key that is given or drawn
    unfoldable pub rotate_database_key : Course → (passphrase new_key : Text) → Prog C (Unit {0})
    unfolding require_no_restore recover_if rotate_files rotation_failure
    rotate_database_key course passphrase new_key = require_no_restore >> read_disk >>= λ d.
        recover_if (exists_file d.rotation_file) course.secured passphrase
        >> unlock_material passphrase
        >>= λ m.
            guard (length new_key == database_key_bytes) rotation_failed
            >> handling (rotate_files course m new_key) rotation_failure
