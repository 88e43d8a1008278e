-- ===== src/KeyStore/Passphrases.antt =====
-- runtime/key_store.py: `change_passphrase`, wherever it ends.
use amit_ai.Common.{
  length, ◌≡◌, refl, sym, ap, ◌∙◌, ◌⊎◌, inl, inr, true, false, not, some, List, arith,
}
use amit_ai.Common.Texts.{Text}
use amit_ai.KeyStore.Types.{KeyFailure, IsCrypto, Env, database_key_bytes}
use amit_ai.KeyStore.Disk.{Fault, absent, exists_file, Disk, encrypted}
use amit_ai.KeyStore.Disk.Triples.{
  Ensures, Triple, bind-Triple, then-Triple, after-Triple, given-Triple, widen-Triple,
}
use amit_ai.KeyStore.Disk.Triples.Steps.{
  guard-Triple, require-Triple, write-Triple, read_disk-Triple, keep-Triple,
}
use amit_ai.KeyStore.Envelope.{Material, is_kdf, kdf_document, build_envelope}
use amit_ai.KeyStore.Envelope.Reading.{open-build}
use amit_ai.KeyStore.Recoverable.{IsSettled, Settled, Recoverable, settled, material_in-IsMaterial}
use amit_ai.KeyStore.Recovering.{require_no_restore-Triple}
use amit_ai.KeyStore.Unlocking.{Read, unlock_material-Triple, no_journal-IsSettled}
use amit_ai.KeyStore.Operations.{material_in, store_key_file, write_new_envelope, change_passphrase}

-- One of the passphrases leads to the key and the database.
abbrev pub OneOpens :
    {C : Type 0} → Env → C → (old_passphrase new_passphrase key : Text) → Disk C → Type 0
OneOpens env content old_passphrase new_passphrase key d =
    Recoverable env old_passphrase content key d ⊎ IsSettled env new_passphrase content key d

module _ {C : Type 0} (env : Env) (law : IsCrypto env.crypto) (content : C) (salt : Text)
    (valid : is_kdf env.policy.bounds (kdf_document env.policy.creation salt) ≡ true) where
  -- A new key file under a passphrase, beside a database under the key and no journal.
  abbrev Ready : Text → Disk C → Type 0
  Ready key d =
      (d.rotation_file ≡ absent)
      × (d.restore_marker ≡ false)
      × (d.database ≡ some (encrypted key content))

  pub stored-IsSettled :
      (passphrase key wrapping_key : Text) (d : Disk C)
      → length key ≡ database_key_bytes
      → env.crypto.derive passphrase (kdf_document env.policy.creation salt) ≡ some wrapping_key
      → Ready key d
      → IsSettled env passphrase content key (
          store_key_file
            (build_envelope env key wrapping_key (kdf_document env.policy.creation salt))
            d)
  unfolding material_in
  stored-IsSettled passphrase key wrapping_key d size derived (no_rotation, running, database) =
      let kdf = kdf_document env.policy.creation salt in
      let m : Material = record { database_key = key; wrapping_key = wrapping_key; kdf = kdf } in
      (
        m,
        record {
          opened = open-build env passphrase key wrapping_key kdf law (valid, derived) size;
          no_rotation = no_rotation;
          keyed = (running, database);
        },
        refl,
      )

  write_new_envelope-Triple :
      (Q : Disk C → Type 0) (Pre : Disk C → Type 0) (passphrase key : Text)
      → length key ≡ database_key_bytes
      → ((d : Disk C) → Pre d → Q d)
      → ((d : Disk C) → IsSettled env passphrase content key d → Q d)
      → ((d : Disk C) → Pre d → Ready key d)
      → Triple Q
          (λ _. Q)
          Pre
          (write_new_envelope env key passphrase salt)
          (λ _. IsSettled env passphrase content key)
  unfolding write_new_envelope
  write_new_envelope-Triple Q Pre passphrase key size before after ready =
      let kdf = kdf_document env.policy.creation salt in
      bind-Triple Q (λ _. Q)
        (λ wrapping_key d. Pre d × (env.crypto.derive passphrase kdf ≡ some wrapping_key))
        (require-Triple Q (λ _. Q) _ (env.crypto.derive passphrase kdf) before)
        (λ wrapping_key.
          write-Triple Q (λ _. Q) _ (λ d (pre, _). before d pre) (λ d (pre, _). before d pre)
            (λ d (pre, derived).
              after _ (stored-IsSettled passphrase key wrapping_key d size derived (ready d pre)))
            (λ d (pre, derived).
              stored-IsSettled passphrase key wrapping_key d size derived (ready d pre)))

  module _ (old_passphrase new_passphrase key : Text) where
    abbrev Old : Disk C → Type 0
    Old = Recoverable env old_passphrase content key

    abbrev New : Disk C → Type 0
    New = IsSettled env new_passphrase content key

    abbrev OnePassphrase : Disk C → Type 0
    OnePassphrase = OneOpens env content old_passphrase new_passphrase key

    abbrev Raises : KeyFailure → Disk C → Type 0
    Raises f = OnePassphrase

    read-Ready :
        (m : Material) (d : Disk C)
        → Read env old_passphrase content key m d
        → Ready m.database_key d
    read-Ready m d (s, _) = let (running, database) = s.keyed in (s.no_rotation, running, database)

    known_size :
        (m : Material) (d : Disk C)
        → Settled env old_passphrase content m d
        → length m.database_key ≡ database_key_bytes
    known_size m d s =
        let (_, size) = material_in-IsMaterial env old_passphrase d.key_file s.opened in size

    with_key : (k : Text) (d : Disk C) → k ≡ key → IsSettled env new_passphrase content k d → New d
    with_key k d is_key (m, s, e) = (m, s, e ∙ is_key)

    write_read-Triple :
        (m : Material)
        → Triple OnePassphrase Raises
            (Read env old_passphrase content key m)
            (write_new_envelope env m.database_key new_passphrase salt)
            (λ _. New)
    write_read-Triple m =
        given-Triple OnePassphrase Raises (λ d (s, is_key). (is_key, known_size m d s))
          (λ (is_key, size).
            after-Triple OnePassphrase Raises (λ _ d found. with_key m.database_key d is_key found)
              (write_new_envelope-Triple OnePassphrase (Read env old_passphrase content key m)
                new_passphrase m.database_key size (λ d (s, e). inl (settled m s e))
                (λ d found. inr (with_key m.database_key d is_key found)) (read-Ready m)))

    no_rotation :
        (d0 d : Disk C)
        → Old d
        → d0 ≡ d
        → not (exists_file d0.rotation_file) ≡ true
        → IsSettled env old_passphrase content key d
    no_rotation d0 d safe same e =
        no_journal-IsSettled env old_passphrase content key d safe
          (ap (λ x. exists_file (Disk.rotation_file x)) (sym same) ∙ ground (arith, e))

    pub change_passphrase-Triple :
        Triple OnePassphrase Raises Old
          (change_passphrase env old_passphrase new_passphrase salt)
          (λ _. New)
    unfolding change_passphrase
    change_passphrase-Triple =
        bind-Triple OnePassphrase Raises (λ d0 d. Old d × (d0 ≡ d))
          (then-Triple OnePassphrase Raises
            (require_no_restore-Triple OnePassphrase Raises (λ f d safe. inl safe))
            (read_disk-Triple OnePassphrase Raises))
          (λ d0.
            bind-Triple OnePassphrase Raises (Read env old_passphrase content key)
              (then-Triple OnePassphrase Raises
                (then-Triple OnePassphrase Raises
                  (after-Triple OnePassphrase Raises
                    (λ _ d ((safe, same), e). no_rotation d0 d safe same e)
                    (guard-Triple OnePassphrase Raises _ _ (λ d (safe, _). inl safe)))
                  (keep-Triple OnePassphrase Raises _ _ (λ d (m, s, e). inl (settled m s e))))
                (widen-Triple Old OnePassphrase (λ _. Old) Raises (λ d. inl) (λ f d. inl)
                  (unlock_material-Triple env law old_passphrase content key)))
              write_read-Triple)

    -- Whatever the faults, one of the passphrases leads to the key and the database; where the
    -- change returns it is the new one, through the key file.
    pub change_passphrase-keeps_database :
        (faults : List Fault) (d : Disk C)
        → Recoverable env old_passphrase content key d
        → Ensures OnePassphrase Raises
            (λ _. New)
            (change_passphrase env old_passphrase new_passphrase salt faults d)
    change_passphrase-keeps_database faults d safe = change_passphrase-Triple.at faults d safe
