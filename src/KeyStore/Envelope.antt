-- ===== src/KeyStore/Envelope.antt =====
-- runtime/key_store.py: the documents of the key file and of the rotation journal. A reader is none
-- where the source raises KeyStoreError or UnlockError.
pub mod Reading
use amit_ai.Common.{
  ltb, leb, ◌==◌, if◌then◌else◌, ==_iff, Bool-cases, Option-cases, is_some, is_nil, length, take,
  drop, any, keep, find, count, All, length-append, length-keep-le, count-append, All-append,
  All-weaken, ℕ, zero, suc, ◌+◌, ◌-◌, ◌*◌, ◌≤◌, ◌<◌, min, String, ◌≡◌, refl, sym, ap, ◌∙◌, fun_ext,
  ◌≢◌, ◌↔◌, ◌⊎◌, inl, inr, Bool, true, false, not, ◌&&◌, ◌||◌, Option, none, some, List, [], ◌∷◌,
  ◌++◌, map, reverse, append-nil, append_assoc, reverse-append, reverse-reverse, arith, ℕ_discrete,
  str_eq, str_eq_iff,
}
use amit_ai.Common.Texts.{
  Text, codes, is_space, eqb, starts_with, lstrip, rstrip, strip, is_empty, eqb→eq, eqb_refl, split,
  join, contains, is_member,
}
use amit_ai.KeyStore.Types.{
  Argon2Parameters, Argon2Bounds, KeyStorePolicy, Kdf, Wrap, RotationState, Label, old, new, Aad,
  stable, rotation, Envelope, Rotation, Crypto, Env, envelope_version, envelope_purpose,
  rotation_purpose, kdf_name, wrap_algorithm, salt_bytes, nonce_bytes, database_key_bytes,
  gcm_tag_bytes,
}

-- `_require_int`
abbrev in_range : ℕ → ℕ → ℕ → Bool
in_range value minimum maximum = leb minimum value && leb value maximum

-- `_parse_kdf`, by whether it returns
unfoldable pub is_kdf : Argon2Bounds → Kdf → Bool
is_kdf bounds kdf =
    let p = kdf.parameters in
    eqb kdf.name kdf_name
    && in_range p.memory_cost_kib bounds.minimum_memory_cost_kib bounds.maximum_memory_cost_kib
    && in_range p.time_cost bounds.minimum_time_cost bounds.maximum_time_cost
    && in_range p.parallelism bounds.minimum_parallelism bounds.maximum_parallelism
    && in_range p.hash_len 32 32
    && length kdf.salt == salt_bytes

-- `_kdf_document`
abbrev pub kdf_document : Argon2Parameters → Text → Kdf
kdf_document parameters salt = record { name = kdf_name; salt = salt; parameters = parameters }

-- `_wrap`
unfoldable pub wrap_secret : Crypto → Text → Text → Aad → Wrap
wrap_secret crypto secret key aad = record {
  algorithm = wrap_algorithm;
  nonce = crypto.nonce aad;
  ciphertext = crypto.encrypt (crypto.nonce aad) secret key aad;
}

abbrev sized : ℕ → Option Text → Option Text
sized n none = none
sized n (some s) = if length s == n then some s else none

-- `_unwrap`
unfoldable pub unwrap_secret : Crypto → Wrap → Text → Aad → Option Text
unwrap_secret crypto w key aad =
    if eqb w.algorithm wrap_algorithm
      && length w.nonce == nonce_bytes
      && length w.ciphertext == database_key_bytes + gcm_tag_bytes
    then sized database_key_bytes (crypto.decrypt w.nonce w.ciphertext key aad)
    else none

-- the key that a passphrase opens, with the wrapping key and its derivation
pub record Material : Type 0 where
  pub database_key : Text
  pub wrapping_key : Text
  pub kdf : Kdf

-- the keys of a journal
pub record RotationMaterial : Type 0 where
  pub state : RotationState
  pub old_key : Text
  pub new_key : Text
  pub wrapping_key : Text
  pub kdf : Kdf

abbrev material_of : Text → Kdf → Option Text → Option Material
material_of wrapping_key kdf none = none
material_of wrapping_key kdf (some key) =
    some (record { database_key = key; wrapping_key = wrapping_key; kdf = kdf })

abbrev unwrap_envelope : Env → Envelope → Option Text → Option Material
unfolding unwrap_secret
unwrap_envelope env e none = none
unwrap_envelope env e (some wrapping_key) =
    material_of wrapping_key e.kdf (unwrap_secret env.crypto e.wrap wrapping_key (stable e.kdf))

-- `_unlock_material` of the document in the key file
unfoldable pub open_envelope : Env → Text → Envelope → Option Material
unfolding is_kdf unwrap_envelope
open_envelope env passphrase e =
    if e.version == envelope_version
      && eqb e.purpose envelope_purpose
      && is_kdf env.policy.bounds e.kdf
    then unwrap_envelope env e (env.crypto.derive passphrase e.kdf)
    else none

-- `_build_envelope_with_kek`
unfoldable pub build_envelope : Env → Text → Text → Kdf → Envelope
unfolding wrap_secret
build_envelope env key wrapping_key kdf = record {
  version = envelope_version;
  purpose = envelope_purpose;
  kdf = kdf;
  wrap = wrap_secret env.crypto key wrapping_key (stable kdf);
}

-- `_rotation_document`
unfoldable pub rotation_document :
    Env → RotationState → (old_key new_key : Text) → Text → Kdf → Rotation
unfolding wrap_secret
rotation_document env state old_key new_key wrapping_key kdf = record {
  version = envelope_version;
  purpose = rotation_purpose;
  state = state;
  kdf = kdf;
  old_wrap = wrap_secret env.crypto old_key wrapping_key (rotation state kdf old);
  new_wrap = wrap_secret env.crypto new_key wrapping_key (rotation state kdf new);
}

abbrev keys_of : Rotation → Text → Option Text → Option Text → Option RotationMaterial
keys_of r wrapping_key (some old_key) (some new_key) = some (record {
  state = r.state;
  old_key = old_key;
  new_key = new_key;
  wrapping_key = wrapping_key;
  kdf = r.kdf;
})
keys_of r wrapping_key (some old_key) none = none
keys_of r wrapping_key none _ = none

abbrev unwrap_rotation : Env → Rotation → Option Text → Option RotationMaterial
unfolding unwrap_secret
unwrap_rotation env r none = none
unwrap_rotation env r (some wrapping_key) =
    keys_of r wrapping_key
      (unwrap_secret env.crypto r.old_wrap wrapping_key (rotation r.state r.kdf old))
      (unwrap_secret env.crypto r.new_wrap wrapping_key (rotation r.state r.kdf new))

-- `_read_rotation` of the document in the journal
unfoldable pub open_rotation : Env → Text → Rotation → Option RotationMaterial
unfolding is_kdf unwrap_rotation
open_rotation env passphrase r =
    if r.version == envelope_version
      && eqb r.purpose rotation_purpose
      && is_kdf env.policy.bounds r.kdf
    then unwrap_rotation env r (env.crypto.derive passphrase r.kdf)
    else none
