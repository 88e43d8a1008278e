-- ===== src/KeyStore/Recovering.antt =====
-- runtime/key_store.py: `recover_rotation`, `unlock` and what they keep.
use mathlib.Core.Path.{subst}
use amit_ai.Common.{length, ◌≡◌, refl, sym, ap, ◌∙◌, ◌⊎◌, inl, inr, Bool, not, some}
use amit_ai.Common.Texts.{Text}
use amit_ai.KeyStore.Types.{
  KeyFailure, unlock_error, secure_memory_error, key_rotation_error, IsCrypto, Envelope, Env,
  database_key_bytes,
}
use amit_ai.KeyStore.Disk.{Disk, ◌>>=◌, ◌>>◌, guard, require}
use amit_ai.KeyStore.Disk.Triples.{Triple, bind-Triple, then-Triple, before-Triple, given-Triple}
use amit_ai.KeyStore.Disk.Triples.Steps.{
  require-Triple, write-Triple, system_call-Triple, read_disk-Triple, keep-Triple,
}
use amit_ai.KeyStore.Envelope.{Material, RotationMaterial, build_envelope}
use amit_ai.KeyStore.Envelope.Reading.{open-build, IsRotationMaterial, IsDerived}
use amit_ai.KeyStore.Recoverable.{
  IsSettled, Opens, Settled, Pending, Recoverable, settled, pending, rotation_in-IsMaterial,
  select_key-Pending,
}
use amit_ai.KeyStore.Operations.{
  material_in, rotation_in, select_key, require_no_restore, store_key_file, remove_rotation,
  restore_key, recover_rotation,
}
use amit_ai.KeyStore.Copies.{remove_candidate}

module _ {C : Type 0} (Q : Disk C → Type 0) (E : KeyFailure → Disk C → Type 0) where
  pub require_no_restore-Triple :
      {Pre : Disk C → Type 0}
      → ((f : KeyFailure) (d : Disk C) → Pre d → E f d)
      → Triple Q E Pre require_no_restore (λ _. Pre)
  unfolding require_no_restore
  require_no_restore-Triple {Pre} h =
      bind-Triple Q E (λ d0 d. Pre d × (d0 ≡ d)) (read_disk-Triple Q E)
        (λ d0.
          before-Triple Q E (λ d (pre, _). pre)
            (keep-Triple Q E (not d0.restore_marker) _ (λ d pre. h _ d pre)))

module _ {C : Type 0} (env : Env) (passphrase : Text) (content : C) where
  -- the material that recovery writes
  abbrev pub recovered : RotationMaterial → Text → Material
  recovered r key = record { database_key = key; wrapping_key = r.wrapping_key; kdf = r.kdf }

  -- A journal, and the key file that recovery has written.
  pub record Restored (r : RotationMaterial) (key : Text) (d : Disk C) : Type 0 where
    pub journal : Pending env passphrase content r key d
    pub opened : Opens env passphrase content (recovered r key) d

module _ {C : Type 0} (env : Env) (law : IsCrypto env.crypto) (passphrase : Text)
    (content : C) where
  key_length :
      (r : RotationMaterial) (key : Text)
      → IsRotationMaterial env passphrase r
      → (r.old_key ≡ key) ⊎ (r.new_key ≡ key)
      → length key ≡ database_key_bytes
  key_length r key (derived, size, size') (inl is_old) = ap length (sym is_old) ∙ size
  key_length r key (derived, size, size') (inr is_new) = ap length (sym is_new) ∙ size'

  derivation :
      (r : RotationMaterial)
      → IsRotationMaterial env passphrase r
      → IsDerived env passphrase r.wrapping_key r.kdf
  derivation r (derived, _, _) = derived

  store-Pending :
      (e : Envelope) (r : RotationMaterial) (key : Text) (d : Disk C)
      → Pending env passphrase content r key d
      → Pending env passphrase content r key (store_key_file e d)
  store-Pending e r key d p = record {
    opened = p.opened;
    is_other = p.is_other;
    is_key = p.is_key;
    keyed = p.keyed;
  }

  store-Restored :
      (r : RotationMaterial) (key : Text) (d : Disk C)
      → Pending env passphrase content r key d
      → Restored env passphrase content r key
          (store_key_file (build_envelope env key r.wrapping_key r.kdf) d)
  unfolding material_in
  store-Restored r key d p =
      let (known, _) = rotation_in-IsMaterial env passphrase d.rotation_file p.opened in
      record {
        journal = store-Pending (build_envelope env key r.wrapping_key r.kdf) r key d p;
        opened =
            open-build env passphrase key r.wrapping_key r.kdf law (derivation r known)
              (key_length r key known p.is_key);
      }

  discard-Restored :
      (r : RotationMaterial) (key : Text) (d : Disk C)
      → Restored env passphrase content r key d
      → Restored env passphrase content r key (remove_candidate d)
  discard-Restored r key d p = record {
    journal = record {
      opened = p.journal.opened;
      is_other = p.journal.is_other;
      is_key = p.journal.is_key;
      keyed = p.journal.keyed;
    };
    opened = p.opened;
  }

  settle-Restored :
      (r : RotationMaterial) (key : Text) (d : Disk C)
      → Restored env passphrase content r key d
      → Settled env passphrase content (recovered env passphrase content r key) (remove_rotation d)
  settle-Restored r key d p = record {
    opened = p.opened;
    no_rotation = refl;
    keyed = p.journal.keyed;
  }

  pub same_journal :
      (r m : RotationMaterial) (key : Text) (d0 d : Disk C)
      → Pending env passphrase content r key d
      → d0 ≡ d
      → rotation_in env passphrase d0.rotation_file ≡ some m
      → Pending env passphrase content m key d
  same_journal r m key d0 d p same read =
      let e = p.opened in
      let equal : r ≡ m = cc in subst (λ x. Pending env passphrase content x key d) equal p

  same_key :
      (r : RotationMaterial) (key chosen : Text) (d0 d : Disk C)
      → Pending env passphrase content r key d
      → d0 ≡ d
      → select_key d0.database r ≡ some chosen
      → key ≡ chosen
  same_key r key chosen d0 d p same selected =
      let (_, database) = p.keyed in
      let e = select_key-Pending content r key d.database database p.is_other p.is_key in cc

  module _ (key : Text) where
    abbrev Safe : Disk C → Type 0
    Safe = Recoverable env passphrase content key

    abbrev AlwaysSafe : KeyFailure → Disk C → Type 0
    AlwaysSafe f = Safe

    abbrev Journal : RotationMaterial → Disk C → Type 0
    Journal r = Pending env passphrase content r key

    abbrev Found : Disk C → Type 0
    Found = IsSettled env passphrase content key

    restore_key-Triple :
        (r : RotationMaterial)
        → Triple Safe AlwaysSafe (Journal r) (restore_key env key r) (λ _. Found)
    unfolding restore_key
    restore_key-Triple r =
        let envelope = build_envelope env key r.wrapping_key r.kdf in
        let result = recovered env passphrase content r key in
        then-Triple Safe AlwaysSafe {Mid = Restored env passphrase content r key}
          (then-Triple Safe AlwaysSafe {Mid = Restored env passphrase content r key}
            (write-Triple Safe AlwaysSafe (store_key_file envelope) (λ d p. pending r p)
              (λ d p. pending r p) (λ d p. pending r (store-Pending envelope r key d p))
              (λ d p. store-Restored r key d p))
            (system_call-Triple Safe AlwaysSafe remove_candidate (λ d p. pending r p.journal)
              (λ d p. pending r p.journal) (λ d p. discard-Restored r key d p)))
          (write-Triple Safe AlwaysSafe remove_rotation (λ d p. pending r p.journal)
            (λ d p. pending r p.journal) (λ d p. settled result (settle-Restored r key d p) refl)
            (λ d p. (result, settle-Restored r key d p, refl)))

    restore_chosen-Triple :
        (r : RotationMaterial) (chosen : Text)
        → key ≡ chosen
        → Triple Safe AlwaysSafe (Journal r) (restore_key env chosen r) (λ _. Found)
    restore_chosen-Triple r chosen same =
        subst (λ k. Triple Safe AlwaysSafe (Journal r) (restore_key env k r) (λ _. Found)) same
          (restore_key-Triple r)

    recover-Journal-Triple :
        (secured : Bool) (d0 : Disk C) (m : RotationMaterial)
        → Triple Safe AlwaysSafe
            (λ d. Journal m d × (d0 ≡ d))
            (guard secured secure_memory_error
              >> require
                  (key_rotation_error "Database key rotation recovery failed")
                  (select_key d0.database m)
              >>= λ chosen. restore_key env chosen m)
            (λ _. Found)
    recover-Journal-Triple secured d0 m =
        bind-Triple Safe AlwaysSafe
          (λ chosen d. (Journal m d × (d0 ≡ d)) × (select_key d0.database m ≡ some chosen))
          (then-Triple Safe AlwaysSafe
            (keep-Triple Safe AlwaysSafe secured secure_memory_error (λ d (p, _). pending m p))
            (require-Triple Safe AlwaysSafe _ (select_key d0.database m) (λ d (p, _). pending m p)))
          (λ chosen.
            given-Triple Safe AlwaysSafe
              (λ d ((p, same), selected). same_key m key chosen d0 d p same selected)
              (λ same.
                before-Triple Safe AlwaysSafe (λ d ((p, _), _). p)
                  (restore_chosen-Triple m chosen same)))

    pub recover_rotation-Triple :
        (secured : Bool) (r : RotationMaterial)
        → Triple Safe AlwaysSafe (Journal r) (recover_rotation env secured passphrase) (λ _. Found)
    unfolding recover_rotation
    recover_rotation-Triple secured r =
        bind-Triple Safe AlwaysSafe (λ d0 d. Journal r d × (d0 ≡ d))
          (then-Triple Safe AlwaysSafe
            (require_no_restore-Triple Safe AlwaysSafe (λ f d p. pending r p))
            (read_disk-Triple Safe AlwaysSafe))
          (λ d0.
            bind-Triple Safe AlwaysSafe
              (λ m d.
                (Journal r d × (d0 ≡ d)) × (rotation_in env passphrase d0.rotation_file ≡ some m))
              (require-Triple Safe AlwaysSafe unlock_error
                (rotation_in env passphrase d0.rotation_file) (λ d (p, _). pending r p))
              (λ m.
                before-Triple Safe AlwaysSafe
                  (λ d ((p, same), read). (same_journal r m key d0 d p same read, same))
                  (recover-Journal-Triple secured d0 m)))
