-- ===== src/KeyStore/Returning.antt =====
-- runtime/key_store.py: `unlock` returns, where the disk is recoverable and no write fails.
use amit_ai.Common.{is_some, ◌≡◌, refl, sym, ap, ◌∙◌, Bool, true, false, not, Option, some}
use amit_ai.Common.Texts.{Text}
use amit_ai.KeyStore.Types.{
  KeyFailure, unlock_error, secure_memory_error, key_rotation_error, IsCrypto, Env,
}
use amit_ai.KeyStore.Disk.{exists_file, Disk, ◌>>=◌, ◌>>◌, guard, require}
use amit_ai.KeyStore.Disk.Returns.{
  Returns, bind-Returns, then-Returns, handling-Returns, pure-Returns, read_disk-Returns,
  guard-Returns, require-Returns, write-Returns, system_call-Returns, both-Returns, before-Returns,
  after-Returns,
}
use amit_ai.KeyStore.Envelope.{RotationMaterial}
use amit_ai.KeyStore.Recoverable.{
  Keyed, IsSettled, Pending, Recoverable, settled, pending, select_key-Pending,
}
use amit_ai.KeyStore.Recovering.{same_journal}
use amit_ai.KeyStore.Unlocking.{
  no_journal-IsSettled, journal-IsPending, recover_if-Triple, unlock-Triple,
}
use amit_ai.KeyStore.Operations.{
  material_in, rotation_in, select_key, require_no_restore, restore_key, recover_rotation,
  recover_if, unlock_material, unlock,
}

pub is_found : {A : Type 0} (o : Option A) (a : A) → o ≡ some a → is_some o ≡ true
is_found o a e = rw e refl

module _ {C : Type 0} where
  not_set : (d0 d : Disk C) → d0 ≡ d → d.restore_marker ≡ false → not d0.restore_marker ≡ true
  not_set d0 d same h = ap (λ x. not (Disk.restore_marker x)) same ∙ ap not h

  pub require_no_restore-Returns :
      {Pre : Disk C → Type 0}
      → ((d : Disk C) → Pre d → d.restore_marker ≡ false)
      → Returns Pre require_no_restore (λ _. Pre)
  unfolding require_no_restore
  require_no_restore-Returns {Pre} h =
      bind-Returns (λ d0 d. Pre d × (d0 ≡ d)) read_disk-Returns
        (λ d0.
          after-Returns (λ _ d (pre, _). pre)
            (guard-Returns (not d0.restore_marker) _
              (λ d (pre, same). not_set d0 d same (h d pre))))

module _ {C : Type 0} (env : Env) (law : IsCrypto env.crypto) (passphrase : Text) (content : C)
    (key : Text) where
  abbrev Safe : Disk C → Type 0
  Safe = Recoverable env passphrase content key

  abbrev AlwaysSafe : KeyFailure → Disk C → Type 0
  AlwaysSafe f = Safe

  abbrev Journal : RotationMaterial → Disk C → Type 0
  Journal r = Pending env passphrase content r key

  abbrev Found : Disk C → Type 0
  Found = IsSettled env passphrase content key

  abbrev Ended : {A : Type 0} → A → Disk C → Type 0
  Ended _ _ = Unit {0}

  restore_key-Returns :
      {Pre : Disk C → Type 0} (r : RotationMaterial) (chosen : Text)
      → Returns Pre (restore_key env chosen r) Ended
  unfolding restore_key
  restore_key-Returns {Pre} r chosen =
      then-Returns {Mid = λ _. Unit {0}}
        (then-Returns {Pre = Pre} {Mid = λ _. Unit {0}} (write-Returns _ (λ d _. tt))
          (system_call-Returns _ (λ d _. tt)))
        (write-Returns _ (λ d _. tt))

  running : {k : Text} (d : Disk C) → Keyed env passphrase content k d → d.restore_marker ≡ false
  running d (h, _) = h

  key_of_Journal :
      (d0 d : Disk C) (m : RotationMaterial)
      → Journal m d
      → d0 ≡ d
      → is_some (select_key d0.database m) ≡ true
  key_of_Journal d0 d m p same =
      let (_, database) = p.keyed in
      is_found (select_key d0.database m) key (
        ap (λ x. select_key (Disk.database x) m) same
        ∙ select_key-Pending content m key d.database database p.is_other p.is_key)

  recover-Journal-Returns :
      (d0 : Disk C) (m : RotationMaterial)
      → Returns
          (λ d. Journal m d × (d0 ≡ d))
          (guard true secure_memory_error
            >> require
                (key_rotation_error "Database key rotation recovery failed")
                (select_key d0.database m)
            >>= λ chosen. restore_key env chosen m)
          Ended
  recover-Journal-Returns d0 m =
      bind-Returns (λ chosen d. (Journal m d × (d0 ≡ d)) × (select_key d0.database m ≡ some chosen))
        (then-Returns (guard-Returns true secure_memory_error (λ d pre. refl)) (
          require-Returns _ (select_key d0.database m)
            (λ d (p, same). key_of_Journal d0 d m p same)))
        (λ chosen. restore_key-Returns m chosen)

  recover_rotation-Returns :
      (r : RotationMaterial) → Returns (Journal r) (recover_rotation env true passphrase) Ended
  unfolding recover_rotation
  recover_rotation-Returns r =
      bind-Returns (λ d0 d. Journal r d × (d0 ≡ d))
        (then-Returns (require_no_restore-Returns (λ d p. running d p.keyed)) read_disk-Returns)
        (λ d0.
          bind-Returns
            (λ m d.
              (Journal r d × (d0 ≡ d)) × (rotation_in env passphrase d0.rotation_file ≡ some m))
            (require-Returns unlock_error (rotation_in env passphrase d0.rotation_file)
              (λ d (p, same).
                is_found (rotation_in env passphrase d0.rotation_file) r
                  (ap (λ x. rotation_in env passphrase (Disk.rotation_file x)) same ∙ p.opened)))
            (λ m.
              before-Returns
                (λ d ((p, same), read).
                  (same_journal env law passphrase content r m key d0 d p same read, same))
                (recover-Journal-Returns d0 m)))

  recover_if-Returns :
      (b : Bool)
      → Returns
          (λ d. Safe d × (exists_file d.rotation_file ≡ b))
          (recover_if env b true passphrase)
          (λ _. Found)
  unfolding recover_if
  recover_if-Returns true =
      both-Returns Safe AlwaysSafe (recover_if-Triple env law passphrase content key true true)
        (record {
          on = λ d (safe, there).
              let (r, p) = journal-IsPending env passphrase content key d safe there in
              (recover_rotation-Returns r).on d p;
        })
  recover_if-Returns false =
      pure-Returns tt
        (λ d (safe, there). no_journal-IsSettled env passphrase content key d safe there)

  unlock_material-Returns : Returns Found (unlock_material env passphrase) Ended
  unfolding unlock_material
  unlock_material-Returns =
      bind-Returns (λ d0 d. Found d × (d0 ≡ d)) read_disk-Returns
        (λ d0.
          after-Returns (λ m d _. tt)
            (require-Returns unlock_error (material_in env passphrase d0.key_file)
              (λ d ((m, s, _), same).
                is_found (material_in env passphrase d0.key_file) m
                  (ap (λ x. material_in env passphrase (Disk.key_file x)) same ∙ s.opened))))

  recover_first-Returns :
      (d0 : Disk C)
      → Returns
          (λ d. Safe d × (d0 ≡ d))
          (recover_if env (exists_file d0.rotation_file) true passphrase
            >> unlock_material env passphrase)
          Ended
  recover_first-Returns d0 =
      then-Returns
        (before-Returns
          (λ d (safe, same). (safe, ap (λ x. exists_file (Disk.rotation_file x)) (sym same)))
          (recover_if-Returns (exists_file d0.rotation_file)))
        unlock_material-Returns

  recoverable_running : (d : Disk C) → Safe d → d.restore_marker ≡ false
  recoverable_running d (settled m s is_key) = running d s.keyed
  recoverable_running d (pending r p) = running d p.keyed

  -- Where no write fails, unlocking a recoverable disk returns the key of its database, and leaves
  -- it in the key file.
  pub unlock-Returns :
      Returns Safe
        (unlock env true passphrase)
        (λ k d. IsSettled env passphrase content k d × (k ≡ key))
  unfolding unlock
  unlock-Returns =
      both-Returns Safe AlwaysSafe (unlock-Triple env law passphrase content key true) (
        then-Returns (require_no_restore-Returns recoverable_running) (
          handling-Returns _ (
            bind-Returns (λ d0 d. Safe d × (d0 ≡ d)) read_disk-Returns
              (λ d0. bind-Returns Ended (recover_first-Returns d0) (λ m.
                then-Returns {Mid = λ _. Unit {0}}
                  (guard-Returns true secure_memory_error (λ d _. refl))
                  (pure-Returns m.database_key (λ d _. tt)))))))
