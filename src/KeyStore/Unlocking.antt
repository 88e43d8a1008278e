-- ===== src/KeyStore/Unlocking.antt =====
-- runtime/key_store.py: `unlock`, after a rotation that was cut short or not.
use mathlib.Core.Path.{subst}
use amit_ai.Common.{◌≡◌, refl, sym, ap, ◌∙◌, ◌≢◌, Bool, true, false, some}
use amit_ai.Common.Texts.{Text}
use amit_ai.KeyStore.Types.{KeyFailure, unlock_error, secure_memory_error, IsCrypto, Env}
use amit_ai.KeyStore.Disk.{exists_file, Disk, ◌>>◌}
use amit_ai.KeyStore.Disk.Triples.{
  Triple, bind-Triple, handling-Triple, then-Triple, before-Triple, after-Triple,
}
use amit_ai.KeyStore.Disk.Triples.Steps.{
  pure-Triple, throw-Triple, require-Triple, read_disk-Triple, keep-Triple,
}
use amit_ai.KeyStore.Envelope.{Material, RotationMaterial}
use amit_ai.KeyStore.Recoverable.{
  IsSettled, Settled, Pending, Recoverable, settled, pending, rotation_in-IsMaterial,
}
use amit_ai.KeyStore.Recovering.{require_no_restore-Triple, recover_rotation-Triple}
use amit_ai.KeyStore.Operations.{material_in, recover_if, unlock_material, unlock, as_unlock_error}

-- what holds where a test does
abbrev When : Bool → Type 0
When true = Unit
When false = ⊥

true≢false : true ≢ false
true≢false e = subst When e tt

module _ {C : Type 0} (env : Env) (passphrase : Text) (content : C) (key : Text) where
  abbrev pub IsPending : Disk C → Type 0
  IsPending d = (r : RotationMaterial) × Pending env passphrase content r key d

  pub no_journal-IsSettled :
      (d : Disk C)
      → Recoverable env passphrase content key d
      → exists_file d.rotation_file ≡ false
      → IsSettled env passphrase content key d
  no_journal-IsSettled d (settled m s is_key) none_there = (m, s, is_key)
  no_journal-IsSettled d (pending r p) none_there =
      let (_, there) = rotation_in-IsMaterial env passphrase d.rotation_file p.opened in
      elim (true≢false (sym there ∙ none_there)) [ ]

  pub journal-IsPending :
      (d : Disk C)
      → Recoverable env passphrase content key d
      → exists_file d.rotation_file ≡ true
      → IsPending d
  journal-IsPending d (pending r p) there = (r, p)
  journal-IsPending d (settled m s is_key) there =
      elim (true≢false (sym there ∙ ap exists_file s.no_rotation)) [ ]

  -- what is known of the material that is read from the key file
  abbrev pub Read : Material → Disk C → Type 0
  Read m d = Settled env passphrase content m d × (m.database_key ≡ key)

  pub same_material :
      (d0 d : Disk C) (m : Material)
      → IsSettled env passphrase content key d
      → d0 ≡ d
      → material_in env passphrase d0.key_file ≡ some m
      → Read m d
  same_material d0 d m (m', s, is_key) same read =
      let e = s.opened in let equal : m' ≡ m = cc in subst (λ x. Read x d) equal (s, is_key)

module _ {C : Type 0} (env : Env) (law : IsCrypto env.crypto) (passphrase : Text) (content : C)
    (key : Text) where
  abbrev Safe : Disk C → Type 0
  Safe = Recoverable env passphrase content key

  abbrev AlwaysSafe : KeyFailure → Disk C → Type 0
  AlwaysSafe f = Safe

  abbrev Found : Disk C → Type 0
  Found = IsSettled env passphrase content key

  pub recover_if-Triple :
      (b secured : Bool)
      → Triple Safe AlwaysSafe
          (λ d. Safe d × (exists_file d.rotation_file ≡ b))
          (recover_if env b secured passphrase)
          (λ _. Found)
  unfolding recover_if
  recover_if-Triple true secured = record {
    at = λ fs d (safe, there).
        let (r, p) = journal-IsPending env passphrase content key d safe there in
        (recover_rotation-Triple env law passphrase content key secured r).at fs d p;
  }
  recover_if-Triple false secured =
      pure-Triple Safe AlwaysSafe tt
        (λ d (safe, there). no_journal-IsSettled env passphrase content key d safe there)

  pub unlock_material-Triple :
      Triple Safe AlwaysSafe Found
        (unlock_material env passphrase)
        (Read env passphrase content key)
  unfolding unlock_material
  unlock_material-Triple =
      bind-Triple Safe AlwaysSafe (λ d0 d. Found d × (d0 ≡ d)) (read_disk-Triple Safe AlwaysSafe)
        (λ d0.
          after-Triple Safe AlwaysSafe
            (λ m d ((s, same), read). same_material env passphrase content key d0 d m s same read)
            (require-Triple Safe AlwaysSafe unlock_error (material_in env passphrase d0.key_file)
              (λ d ((m, s, is_key), _). settled m s is_key)))

  -- what an operation does first: recovery, and the key file
  pub recover_first-Triple :
      (secured : Bool) (d0 : Disk C)
      → Triple Safe AlwaysSafe
          (λ d. Safe d × (d0 ≡ d))
          (recover_if env (exists_file d0.rotation_file) secured passphrase
            >> unlock_material env passphrase)
          (Read env passphrase content key)
  recover_first-Triple secured d0 =
      then-Triple Safe AlwaysSafe
        (before-Triple Safe AlwaysSafe
          (λ d (safe, same). (safe, ap (λ x. exists_file (Disk.rotation_file x)) (sym same)))
          (recover_if-Triple (exists_file d0.rotation_file) secured))
        unlock_material-Triple

  pub unlock-Triple :
      (secured : Bool)
      → Triple Safe AlwaysSafe Safe
          (unlock env secured passphrase)
          (λ k d. IsSettled env passphrase content k d × (k ≡ key))
  unfolding unlock
  unlock-Triple secured =
      then-Triple Safe AlwaysSafe (require_no_restore-Triple Safe AlwaysSafe (λ f d safe. safe)) (
        handling-Triple Safe AlwaysSafe AlwaysSafe
          (bind-Triple Safe AlwaysSafe (λ d0 d. Safe d × (d0 ≡ d))
            (read_disk-Triple Safe AlwaysSafe)
            (λ d0.
              bind-Triple Safe AlwaysSafe (Read env passphrase content key)
                (recover_first-Triple secured d0)
                (λ m.
                  then-Triple Safe AlwaysSafe
                    (keep-Triple Safe AlwaysSafe secured secure_memory_error
                      (λ d (s, is_key). settled m s is_key))
                    (pure-Triple Safe AlwaysSafe m.database_key
                      (λ d (s, is_key). ((m, s, refl), is_key))))))
          (λ f. throw-Triple Safe AlwaysSafe (as_unlock_error f) (λ d safe. safe)))
