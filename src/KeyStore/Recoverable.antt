-- ===== src/KeyStore/Recoverable.antt =====
-- runtime/key_store.py: the disks from which a passphrase recovers the database.
use mathlib.Core.Path.{subst}
use amit_ai.Common.{Bool-cases, ◌≡◌, refl, ◌⊎◌, inl, inr, true, false, Option, none, some}
use amit_ai.Common.Texts.{Text, eqb, eqb→eq, eqb_refl}
use amit_ai.KeyStore.Types.{Envelope, Rotation, Env}
use amit_ai.KeyStore.Disk.{
  Stored, absent, unreadable, document, exists_file, Database, encrypted, Disk,
}
use amit_ai.KeyStore.Envelope.{open_rotation, Material, RotationMaterial}
use amit_ai.KeyStore.Envelope.Reading.{
  Known, open_envelope-Known, open_rotation-Known, IsMaterial, IsRotationMaterial,
}
use amit_ai.KeyStore.Operations.{material_in, rotation_in, select_key}

module _ {C : Type 0} (env : Env) (passphrase : Text) (content : C) where
  -- No restore is in progress, and the database holds the content under the key.
  abbrev pub Keyed : Text → Disk C → Type 0
  Keyed key d = (d.restore_marker ≡ false) × (d.database ≡ some (encrypted key content))

  -- The passphrase opens the key file to this material.
  abbrev pub Opens : Material → Disk C → Type 0
  Opens m d = material_in env passphrase d.key_file ≡ some m

  -- The key file has the key of the database, and no rotation is in progress.
  pub record Settled (m : Material) (d : Disk C) : Type 0 where
    pub opened : Opens m d
    pub no_rotation : d.rotation_file ≡ absent
    pub keyed : Keyed m.database_key d

  -- The key file has this key.
  abbrev pub IsSettled : Text → Disk C → Type 0
  IsSettled key d = (m : Material) × Settled m d × (m.database_key ≡ key)

  -- The journal has the key of the database, and another key.
  pub record Pending (r : RotationMaterial) (key : Text) (d : Disk C) : Type 0 where
    pub opened : rotation_in env passphrase d.rotation_file ≡ some r
    pub is_other : eqb r.old_key r.new_key ≡ false
    pub is_key : (r.old_key ≡ key) ⊎ (r.new_key ≡ key)
    pub keyed : Keyed key d

  -- The passphrase leads to this key of the database, through the key file or through the journal.
  pub data Recoverable (key : Text) (d : Disk C) : Type 0 where
    settled : (m : Material) → Settled m d → m.database_key ≡ key → Recoverable key d
    pending : (r : RotationMaterial) → Pending r key d → Recoverable key d

module _ (env : Env) (passphrase : Text) where
  material_in-Known :
      (s : Stored Envelope) → Known (IsMaterial env passphrase) (material_in env passphrase s)
  unfolding material_in
  material_in-Known absent = tt
  material_in-Known unreadable = tt
  material_in-Known (document e) = open_envelope-Known env passphrase e

  pub material_in-IsMaterial :
      (s : Stored Envelope) {m : Material}
      → material_in env passphrase s ≡ some m
      → IsMaterial env passphrase m
  material_in-IsMaterial s h = subst (Known (IsMaterial env passphrase)) h (material_in-Known s)

  open_rotation-exists :
      (e : Rotation) (o : Option RotationMaterial)
      → Known (IsRotationMaterial env passphrase) o
      → Known (λ r. IsRotationMaterial env passphrase r × (true ≡ true)) o
  open_rotation-exists e none h = tt
  open_rotation-exists e (some r) h = (h, refl)

  rotation_in-Known :
      (s : Stored Rotation)
      → Known
          (λ r. IsRotationMaterial env passphrase r × (exists_file s ≡ true))
          (rotation_in env passphrase s)
  unfolding rotation_in
  rotation_in-Known absent = tt
  rotation_in-Known unreadable = tt
  rotation_in-Known (document e) =
      open_rotation-exists e (open_rotation env passphrase e) (open_rotation-Known env passphrase e)

  pub rotation_in-IsMaterial :
      (s : Stored Rotation) {r : RotationMaterial}
      → rotation_in env passphrase s ≡ some r
      → IsRotationMaterial env passphrase r × (exists_file s ≡ true)
  rotation_in-IsMaterial s h =
      subst (Known (λ r. IsRotationMaterial env passphrase r × (exists_file s ≡ true))) h
        (rotation_in-Known s)

eqb_sym-false : (s t : Text) → eqb s t ≡ false → eqb t s ≡ false
eqb_sym-false s t h = elim (Bool-cases (eqb t s)) [
  | inr other ↦ other
  | inl same ↦ (let e : t ≡ s = eqb→eq t s same in let r = eqb_refl s in cc)
]

-- Recovery selects the key of the database.
pub select_key-Pending :
    {C : Type 0} (content : C) (r : RotationMaterial) (key : Text) (database : Option (Database C))
    → database ≡ some (encrypted key content)
    → eqb r.old_key r.new_key ≡ false
    → (r.old_key ≡ key) ⊎ (r.new_key ≡ key)
    → select_key database r ≡ some key
unfolding select_key
select_key-Pending content r key database e other (inl is_old) =
    rw (e, ← is_old, other, eqb_refl r.old_key) refl
select_key-Pending content r key database e other (inr is_new) =
    rw (e, ← is_new, eqb_refl r.new_key, eqb_sym-false r.old_key r.new_key other) refl
