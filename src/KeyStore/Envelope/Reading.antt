-- ===== src/KeyStore/Envelope/Reading.antt =====
-- What is built is read back, and what is read was derived from the passphrase.
use mathlib.Core.Path.{subst}
use amit_ai.Common.{
  ◌==◌, Bool-cases, Option-cases, length, ℕ, ◌+◌, ◌≡◌, refl, inl, inr, true, ◌&&◌, Option, none,
  some, arith,
}
use amit_ai.Common.Texts.{Text, eqb}
use amit_ai.KeyStore.Types.{
  Kdf, Wrap, RotationState, old, new, Aad, stable, rotation, Envelope, Rotation, Crypto, IsCrypto,
  Env, envelope_version, envelope_purpose, rotation_purpose, wrap_algorithm, nonce_bytes,
  database_key_bytes, gcm_tag_bytes,
}
use amit_ai.KeyStore.Envelope.{
  is_kdf, wrap_secret, unwrap_secret, sized, Material, RotationMaterial, material_of,
  unwrap_envelope, open_envelope, build_envelope, rotation_document, keys_of, unwrap_rotation,
  open_rotation,
}

-- A derivation within the bounds, and the wrapping key that a passphrase gives by it.
abbrev pub IsDerived : Env → (passphrase wrapping_key : Text) → Kdf → Type 0
IsDerived env passphrase wrapping_key kdf =
    (is_kdf env.policy.bounds kdf ≡ true) × (env.crypto.derive passphrase kdf ≡ some wrapping_key)

unwrap-wrap :
    (crypto : Crypto) (secret key : Text) (aad : Aad)
    → IsCrypto crypto
    → length secret ≡ database_key_bytes
    → unwrap_secret crypto (wrap_secret crypto secret key aad) key aad ≡ some secret
unfolding unwrap_secret wrap_secret
unwrap-wrap crypto secret key aad law size =
    let ciphertext = crypto.encrypt (crypto.nonce aad) secret key aad in
    let long : length ciphertext == database_key_bytes + gcm_tag_bytes ≡ true =
      ground (arith, law.encrypt-length (crypto.nonce aad) secret key aad, size) in
    let drawn : length (crypto.nonce aad) == nonce_bytes ≡ true =
      ground (arith, law.nonce-length aad) in
    let whole : length secret == database_key_bytes ≡ true = ground (arith, size) in
    rw (drawn, long, law.decrypt-encrypt (crypto.nonce aad) secret key aad, whole) refl

sized-length : (n : ℕ) (o : Option Text) {s : Text} → sized n o ≡ some s → length s ≡ n
sized-length n none e = cc
sized-length n (some t) {s} e = elim (Bool-cases (length t == n)) [
  | inl same ↦ ground arith
  | inr other ↦ ground arith
]

unwrap-length :
    (crypto : Crypto) (w : Wrap) (key : Text) (aad : Aad) {s : Text}
    → unwrap_secret crypto w key aad ≡ some s
    → length s ≡ database_key_bytes
unfolding unwrap_secret
unwrap-length crypto w key aad e =
    elim (Bool-cases (
      eqb w.algorithm wrap_algorithm
      && length w.nonce == nonce_bytes
      && length w.ciphertext == database_key_bytes + gcm_tag_bytes)) [
        | inl good ↦
            sized-length database_key_bytes (crypto.decrypt w.nonce w.ciphertext key aad)
              (rw good at e)
        | inr bad ↦ ground (arith, bad)
      ]

-- An envelope of a key is opened to it.
pub open-build :
    (env : Env) (passphrase key wrapping_key : Text) (kdf : Kdf)
    → IsCrypto env.crypto
    → IsDerived env passphrase wrapping_key kdf
    → length key ≡ database_key_bytes
    → open_envelope env passphrase (build_envelope env key wrapping_key kdf)
      ≡ some (record { database_key = key; wrapping_key = wrapping_key; kdf = kdf })
unfolding open_envelope build_envelope unwrap_envelope
open-build env passphrase key wrapping_key kdf law (valid, derived) size =
    rw (valid, derived, unwrap-wrap env.crypto key wrapping_key (stable kdf) law size) refl

-- A journal of two keys is opened to them.
pub open-rotation_document :
    (env : Env) (passphrase : Text) (state : RotationState) (old_key new_key wrapping_key : Text)
    (kdf : Kdf)
    → IsCrypto env.crypto
    → IsDerived env passphrase wrapping_key kdf
    → length old_key ≡ database_key_bytes
    → length new_key ≡ database_key_bytes
    → open_rotation env passphrase (rotation_document env state old_key new_key wrapping_key kdf)
      ≡ some (record {
        state = state;
        old_key = old_key;
        new_key = new_key;
        wrapping_key = wrapping_key;
        kdf = kdf;
      })
unfolding open_rotation rotation_document unwrap_rotation
open-rotation_document env passphrase state old_key new_key wrapping_key kdf law (valid, derived)
      size size' =
    rw
      (
        valid,
        derived,
        unwrap-wrap env.crypto old_key wrapping_key (rotation state kdf old) law size,
        unwrap-wrap env.crypto new_key wrapping_key (rotation state kdf new) law size',
      )
      refl

-- what holds of an option's value, where it has one
abbrev pub Known : {A : Type 0} → (A → Type 0) → Option A → Type 0
Known P none = Unit
Known P (some a) = P a

module _ (env : Env) (passphrase : Text) where
  -- what is known of an opened envelope
  abbrev pub IsMaterial : Material → Type 0
  IsMaterial m =
      IsDerived env passphrase m.wrapping_key m.kdf × (length m.database_key ≡ database_key_bytes)

  -- and of an opened journal
  abbrev pub IsRotationMaterial : RotationMaterial → Type 0
  IsRotationMaterial m =
      IsDerived env passphrase m.wrapping_key m.kdf
      × (length m.old_key ≡ database_key_bytes)
      × (length m.new_key ≡ database_key_bytes)

  material_of-Known :
      (wrapping_key : Text) (kdf : Kdf) (key : Option Text)
      → IsDerived env passphrase wrapping_key kdf
      → ((s : Text) → key ≡ some s → length s ≡ database_key_bytes)
      → Known IsMaterial (material_of wrapping_key kdf key)
  material_of-Known wrapping_key kdf none d size = tt
  material_of-Known wrapping_key kdf (some s) d size = (d, size s refl)

  pub open_envelope-Known : (e : Envelope) → Known IsMaterial (open_envelope env passphrase e)
  unfolding open_envelope unwrap_envelope
  open_envelope-Known e =
      elim (Bool-cases (
        e.version == envelope_version
        && eqb e.purpose envelope_purpose
        && is_kdf env.policy.bounds e.kdf)) [
          | inr bad ↦ rw bad tt
          | inl good ↦ elim (Option-cases (env.crypto.derive passphrase e.kdf)) [
            | inl failed ↦ rw (good, failed) tt
            | inr (key, derived) ↦
                rw (good, derived)
                  (material_of-Known key e.kdf (unwrap_secret env.crypto e.wrap key (stable e.kdf))
                    (ground (arith, good), derived)
                    (λ s h. unwrap-length env.crypto e.wrap key (stable e.kdf) h))
          ]
        ]

  pub open_envelope-IsMaterial :
      (e : Envelope) {m : Material} → open_envelope env passphrase e ≡ some m → IsMaterial m
  open_envelope-IsMaterial e h = subst (Known IsMaterial) h (open_envelope-Known e)

  keys_of-Known :
      (r : Rotation) (wrapping_key : Text) (old_key new_key : Option Text)
      → IsDerived env passphrase wrapping_key r.kdf
      → ((s : Text) → old_key ≡ some s → length s ≡ database_key_bytes)
      → ((s : Text) → new_key ≡ some s → length s ≡ database_key_bytes)
      → Known IsRotationMaterial (keys_of r wrapping_key old_key new_key)
  keys_of-Known r wrapping_key none new_key d size size' = tt
  keys_of-Known r wrapping_key (some s) none d size size' = tt
  keys_of-Known r wrapping_key (some s) (some t) d size size' = (d, size s refl, size' t refl)

  pub open_rotation-Known :
      (r : Rotation) → Known IsRotationMaterial (open_rotation env passphrase r)
  unfolding open_rotation unwrap_rotation
  open_rotation-Known r =
      elim (Bool-cases (
        r.version == envelope_version
        && eqb r.purpose rotation_purpose
        && is_kdf env.policy.bounds r.kdf)) [
          | inr bad ↦ rw bad tt
          | inl good ↦ elim (Option-cases (env.crypto.derive passphrase r.kdf)) [
            | inl failed ↦ rw (good, failed) tt
            | inr (key, derived) ↦
                rw (good, derived)
                  (keys_of-Known r key
                    (unwrap_secret env.crypto r.old_wrap key (rotation r.state r.kdf old))
                    (unwrap_secret env.crypto r.new_wrap key (rotation r.state r.kdf new))
                    (ground (arith, good), derived)
                    (λ s h. unwrap-length env.crypto r.old_wrap key (rotation r.state r.kdf old) h)
                    (λ s h. unwrap-length env.crypto r.new_wrap key (rotation r.state r.kdf new) h))
          ]
        ]

  pub open_rotation-IsMaterial :
      (r : Rotation) {m : RotationMaterial}
      → open_rotation env passphrase r ≡ some m
      → IsRotationMaterial m
  open_rotation-IsMaterial r h = subst (Known IsRotationMaterial) h (open_rotation-Known r)
