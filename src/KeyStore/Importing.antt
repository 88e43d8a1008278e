-- ===== src/KeyStore/Importing.antt =====
-- runtime/key_store.py: `import_existing`, and the `unlock` that follows.
use amit_ai.Common.{
  leb, length, ℕ, ◌≤◌, ◌≡◌, refl, ap, ◌∙◌, true, false, not, ◌||◌, some, [], arith,
}
use amit_ai.Common.Texts.{Text, eqb_refl}
use amit_ai.KeyStore.Types.{
  key_store_error, secure_memory_error, IsCrypto, Env, database_key_bytes, min_passphrase_chars,
}
use amit_ai.KeyStore.Disk.{absent, exists_file, Disk, encrypted, key_opens, ◌>>◌}
use amit_ai.KeyStore.Disk.Returns.{
  Ends, Returns, bind-Returns, then-Returns, read_disk-Returns, guard-Returns, require-Returns,
  write-Returns, before-Returns, after-Returns,
}
use amit_ai.KeyStore.Envelope.{is_kdf, kdf_document}
use amit_ai.KeyStore.Recoverable.{IsSettled, settled}
use amit_ai.KeyStore.Returning.{require_no_restore-Returns, is_found, unlock-Returns}
use amit_ai.KeyStore.Passphrases.{stored-IsSettled}
use amit_ai.KeyStore.Operations.{
  write_new_envelope, require_uninitialized, is_encrypted, import_existing, unlock,
}

long_enough : {n m : ℕ} → n ≤ m → leb n m ≡ true
long_enough h = ground arith

-- an encrypted database without a key store
pub record Unmanaged {C : Type 0} (content : C) (key : Text) (d : Disk C) : Type 0 where
  pub running : d.restore_marker ≡ false
  pub no_key_file : d.key_file ≡ absent
  pub no_rotation : d.rotation_file ≡ absent
  pub database : d.database ≡ some (encrypted key content)

-- what the arguments of an import have to be
pub record IsAccepted (env : Env) (passphrase key salt wrapping_key : Text) : Type 0 where
  pub long : min_passphrase_chars ≤ length passphrase
  pub size : length key ≡ database_key_bytes
  pub valid : is_kdf env.policy.bounds (kdf_document env.policy.creation salt) ≡ true
  pub derived :
      env.crypto.derive passphrase (kdf_document env.policy.creation salt) ≡ some wrapping_key

module _ {C : Type 0} (env : Env) (law : IsCrypto env.crypto) (content : C)
    (passphrase key salt wrapping_key : Text) where
  abbrev Alone : Disk C → Type 0
  Alone = Unmanaged content key

  abbrev Accepted : Type 0
  Accepted = IsAccepted env passphrase key salt wrapping_key

  write_new_envelope-Returns :
      Accepted
      → Returns Alone
          (write_new_envelope env key passphrase salt)
          (λ _. IsSettled env passphrase content key)
  unfolding write_new_envelope
  write_new_envelope-Returns ok =
      let kdf = kdf_document env.policy.creation salt in
      bind-Returns (λ w d. Alone d × (env.crypto.derive passphrase kdf ≡ some w))
        (require-Returns _ (env.crypto.derive passphrase kdf)
          (λ d _. is_found (env.crypto.derive passphrase kdf) wrapping_key ok.derived))
        (λ w. write-Returns _ (λ d (u, derived).
          stored-IsSettled env law content salt ok.valid passphrase key w d ok.size derived
            (u.no_rotation, u.running, u.database)))

  no_files :
      (d0 d : Disk C)
      → d0 ≡ d
      → Alone d
      → not (exists_file d0.key_file || exists_file d0.rotation_file) ≡ true
  no_files d0 d same u =
      ap (λ x. not (exists_file (Disk.key_file x) || exists_file (Disk.rotation_file x))) same
      ∙ ap (λ x. not (exists_file x || exists_file d.rotation_file)) u.no_key_file
      ∙ ap (λ x. not (exists_file x)) u.no_rotation

  opens : (d0 d : Disk C) → d0 ≡ d → Alone d → key_opens d0.database key ≡ true
  opens d0 d same u =
      ap (λ x. key_opens (Disk.database x) key) same
      ∙ ap (λ x. key_opens x key) u.database
      ∙ eqb_refl key

  encrypted_there : (d0 d : Disk C) → d0 ≡ d → Alone d → is_encrypted d0.database ≡ true
  encrypted_there d0 d same u =
      ap (λ x. is_encrypted (Disk.database x)) same ∙ ap is_encrypted u.database

  require_uninitialized-Returns : Returns Alone require_uninitialized (λ _. Alone)
  require_uninitialized-Returns =
      bind-Returns (λ d0 d. Alone d × (d0 ≡ d)) read_disk-Returns
        (λ d0.
          after-Returns (λ _ d (u, _). u) (guard-Returns _ _ (λ d (u, same). no_files d0 d same u)))

  import_existing-Returns :
      Accepted
      → Returns Alone
          (import_existing env true true key passphrase salt)
          (λ _. IsSettled env passphrase content key)
  unfolding import_existing
  import_existing-Returns ok =
      bind-Returns (λ d0 d. Alone d × (d0 ≡ d))
        (then-Returns
          (then-Returns
            (then-Returns (require_no_restore-Returns (λ d u. u.running))
              (guard-Returns _ _ (λ d u. long_enough ok.long)))
            require_uninitialized-Returns)
          read_disk-Returns)
        (λ d0.
          then-Returns
            (then-Returns
              (then-Returns
                (then-Returns (guard-Returns _ _ (λ d (u, same). encrypted_there d0 d same u)) (
                  guard-Returns true (key_store_error "Existing database key is invalid")
                    (λ d _. refl)))
                (guard-Returns true secure_memory_error (λ d _. refl)))
              (after-Returns (λ _ d (u, _). u)
                (guard-Returns _ _ (λ d (u, same). opens d0 d same u))))
            (write_new_envelope-Returns ok))

  -- Where the passphrase is accepted, no write fails and memory can be secured, the import of the key
  -- of an encrypted database without a key store and the unlock that follows return that key.
  pub import_existing-unlock :
      (d : Disk C)
      → IsAccepted env passphrase key salt wrapping_key
      → Unmanaged content key d
      → Ends
          (λ k d'. IsSettled env passphrase content k d' × (k ≡ key))
          ((import_existing env true true key passphrase salt >> unlock env true passphrase) [] d)
  import_existing-unlock d ok u =
      (then-Returns (import_existing-Returns ok) (
          before-Returns (λ d' (m, s, is_key). settled m s is_key)
            (unlock-Returns env law passphrase content key))).on
        d u
