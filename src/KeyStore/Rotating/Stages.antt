-- ===== src/KeyStore/Rotating/Stages.antt =====
-- What is on the disk between the writes of a rotation.
use amit_ai.Common.{length, ◌≡◌, refl, ap, ◌⊎◌, inl, inr, false, some}
use amit_ai.Common.Texts.{Text, eqb}
use amit_ai.KeyStore.Types.{
  RotationState, KeyFailure, database_busy, key_store_error, key_rotation_error, unlock_error,
  private_path_error, secure_memory_error, encrypted_storage_error, os_error, other_error, IsCrypto,
  Env, database_key_bytes,
}
use amit_ai.KeyStore.Disk.{encrypted, Disk}
use amit_ai.KeyStore.Envelope.{Material, RotationMaterial, build_envelope, rotation_document}
use amit_ai.KeyStore.Envelope.Reading.{open-build, open-rotation_document, IsMaterial}
use amit_ai.KeyStore.Recoverable.{Keyed, Opens, Settled, Recoverable, pending}
use amit_ai.KeyStore.Operations.{
  material_in, rotation_in, store_key_file, store_rotation, remove_rotation,
}
use amit_ai.KeyStore.Copies.{exported, remove_candidate, create_candidate, replace_database}

module _ {C : Type 0} (env : Env) (passphrase : Text) (content : C) (m : Material)
    (new_key : Text) where
  -- a journal of the old key and the new key
  pub record Journal (d : Disk C) : Type 0 where
    pub material : RotationMaterial
    pub opened : rotation_in env passphrase d.rotation_file ≡ some material
    pub is_old : material.old_key ≡ m.database_key
    pub is_new : material.new_key ≡ new_key

  -- The database is as it was.
  pub record Before (d : Disk C) : Type 0 where
    pub opened : Opens env passphrase content m d
    pub journal : Journal d
    pub keyed : Keyed env passphrase content m.database_key d

  -- The copy under the new key is beside it.
  pub record Copied (d : Disk C) : Type 0 where
    pub before : Before d
    pub copied : d.candidate ≡ some (encrypted new_key content)

  -- The database is under the new key.
  pub record After (d : Disk C) : Type 0 where
    pub journal : Journal d
    pub keyed : Keyed env passphrase content new_key d

  -- the material of the new key file
  abbrev pub renewed : Material
  renewed = record { database_key = new_key; wrapping_key = m.wrapping_key; kdf = m.kdf }

  -- So is the key file.
  pub record Finished (d : Disk C) : Type 0 where
    pub after : After d
    pub opened : Opens env passphrase content renewed d

  -- The passphrase leads to the database, under the old key or under the new one.
  abbrev pub EitherKey : Disk C → Type 0
  EitherKey d =
      Recoverable env passphrase content m.database_key d
      ⊎ Recoverable env passphrase content new_key d

  -- what holds where the work on the files raises
  abbrev pub Thrown : KeyFailure → Disk C → Type 0
  Thrown database_busy = Before
  Thrown (key_store_error _) = EitherKey
  Thrown (key_rotation_error _) = EitherKey
  Thrown unlock_error = EitherKey
  Thrown private_path_error = EitherKey
  Thrown secure_memory_error = EitherKey
  Thrown encrypted_storage_error = EitherKey
  Thrown os_error = EitherKey
  Thrown other_error = EitherKey

  module _ (other : eqb m.database_key new_key ≡ false) where
    differ :
        (r : RotationMaterial)
        → r.old_key ≡ m.database_key
        → r.new_key ≡ new_key
        → eqb r.old_key r.new_key ≡ false
    differ r e e' = rw (e, e') other

    pub Before-Safe : (d : Disk C) → Before d → EitherKey d
    Before-Safe d b =
        let j = b.journal in
        inl (
          pending j.material (record {
            opened = j.opened;
            is_other = differ j.material j.is_old j.is_new;
            is_key = inl j.is_old;
            keyed = b.keyed;
          }))

    pub after-Safe : (d : Disk C) → After d → EitherKey d
    after-Safe d a =
        let j = a.journal in
        inr (
          pending j.material (record {
            opened = j.opened;
            is_other = differ j.material j.is_old j.is_new;
            is_key = inr j.is_new;
            keyed = a.keyed;
          }))

    pub Before-Thrown : (f : KeyFailure) (d : Disk C) → Before d → Thrown f d
    Before-Thrown database_busy d b = b
    Before-Thrown (key_store_error _) d b = Before-Safe d b
    Before-Thrown (key_rotation_error _) d b = Before-Safe d b
    Before-Thrown unlock_error d b = Before-Safe d b
    Before-Thrown private_path_error d b = Before-Safe d b
    Before-Thrown secure_memory_error d b = Before-Safe d b
    Before-Thrown encrypted_storage_error d b = Before-Safe d b
    Before-Thrown os_error d b = Before-Safe d b
    Before-Thrown other_error d b = Before-Safe d b

  pub removed-Before : (d : Disk C) → Before d → Before (remove_candidate d)
  removed-Before d b = record {
    opened = b.opened;
    journal = record {
      material = b.journal.material;
      opened = b.journal.opened;
      is_old = b.journal.is_old;
      is_new = b.journal.is_new;
    };
    keyed = b.keyed;
  }

  pub created-Copied : (d : Disk C) → Before d → Copied (create_candidate new_key d)
  created-Copied d b =
      let (_, database) = b.keyed in
      record {
        before = record {
          opened = b.opened;
          journal = record {
            material = b.journal.material;
            opened = b.journal.opened;
            is_old = b.journal.is_old;
            is_new = b.journal.is_new;
          };
          keyed = b.keyed;
        };
        copied = ap (exported new_key) database;
      }

  pub replaced-After : (d : Disk C) → Copied d → After (replace_database d)
  replaced-After d c =
      let (running, _) = c.before.keyed in
      record {
        journal = record {
          material = c.before.journal.material;
          opened = c.before.journal.opened;
          is_old = c.before.journal.is_old;
          is_new = c.before.journal.is_new;
        };
        keyed = (running, c.copied);
      }

  pub cancelled-Settled :
      (d : Disk C) → Before d → Settled env passphrase content m (remove_rotation d)
  cancelled-Settled d b = record { opened = b.opened; no_rotation = refl; keyed = b.keyed }

  pub Finished-Settled :
      (d : Disk C) → Finished d → Settled env passphrase content renewed (remove_rotation d)
  Finished-Settled d f = record { opened = f.opened; no_rotation = refl; keyed = f.after.keyed }

  module _ (law : IsCrypto env.crypto) (known : IsMaterial env passphrase m)
      (size : length new_key ≡ database_key_bytes) where
    stored-Journal :
        (state : RotationState) (d : Disk C)
        → Journal (
            store_rotation
              (rotation_document env state m.database_key new_key m.wrapping_key m.kdf)
              d)
    unfolding rotation_in
    stored-Journal state d =
        let (derived, old_size) = known in
        record {
          material = _;
          opened =
              open-rotation_document env passphrase state m.database_key new_key m.wrapping_key
                m.kdf law derived old_size size;
          is_old = refl;
          is_new = refl;
        }

    pub stored-Before :
        (state : RotationState) (d : Disk C)
        → Settled env passphrase content m d
        → Before (
            store_rotation
              (rotation_document env state m.database_key new_key m.wrapping_key m.kdf)
              d)
    stored-Before state d s = record {
      opened = s.opened;
      journal = stored-Journal state d;
      keyed = s.keyed;
    }

    pub stored-After :
        (state : RotationState) (d : Disk C)
        → After d
        → After (
            store_rotation
              (rotation_document env state m.database_key new_key m.wrapping_key m.kdf)
              d)
    stored-After state d a = record { journal = stored-Journal state d; keyed = a.keyed }

    pub stored-Finished :
        (state : RotationState) (d : Disk C)
        → Finished d
        → Finished (
            store_rotation
              (rotation_document env state m.database_key new_key m.wrapping_key m.kdf)
              d)
    stored-Finished state d f = record { after = stored-After state d f.after; opened = f.opened }

    pub key_file-Finished :
        (d : Disk C)
        → After d
        → Finished (store_key_file (build_envelope env new_key m.wrapping_key m.kdf) d)
    unfolding material_in
    key_file-Finished d a =
        let (derived, _) = known in
        record {
          after = record {
            journal = record {
              material = a.journal.material;
              opened = a.journal.opened;
              is_old = a.journal.is_old;
              is_new = a.journal.is_new;
            };
            keyed = a.keyed;
          };
          opened = open-build env passphrase new_key m.wrapping_key m.kdf law derived size;
        }
