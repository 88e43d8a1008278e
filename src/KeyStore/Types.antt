-- ===== src/KeyStore/Types.antt =====
-- runtime/key_store.py: parameters, documents, and the cryptography that the module calls. A key, a
-- passphrase and a ciphertext are texts of code points; base64 is left out.
use amit_ai.Common.{length, ℕ, ◌+◌, String, ◌≡◌, Bool, true, false, Option, some}
use amit_ai.Common.Texts.{Text, codes}

abbrev pub envelope_version : ℕ
envelope_version = 1

abbrev pub envelope_purpose : Text
envelope_purpose = codes "amitai-sqlcipher-database-key"

abbrev pub rotation_purpose : Text
rotation_purpose = codes "amitai-sqlcipher-database-key-rotation"

abbrev pub kdf_name : Text
kdf_name = codes "argon2id"

abbrev pub wrap_algorithm : Text
wrap_algorithm = codes "aes-256-gcm"

abbrev pub min_passphrase_chars : ℕ
min_passphrase_chars = 12

abbrev pub salt_bytes : ℕ
salt_bytes = 16

abbrev pub nonce_bytes : ℕ
nonce_bytes = 12

abbrev pub database_key_bytes : ℕ
database_key_bytes = 32

abbrev pub gcm_tag_bytes : ℕ
gcm_tag_bytes = 16

-- `Argon2Parameters`
pub record Argon2Parameters : Type 0 where
  pub memory_cost_kib : ℕ
  pub time_cost : ℕ
  pub parallelism : ℕ
  pub hash_len : ℕ

-- `Argon2Bounds`
pub record Argon2Bounds : Type 0 where
  pub minimum_memory_cost_kib : ℕ
  pub maximum_memory_cost_kib : ℕ
  pub minimum_time_cost : ℕ
  pub maximum_time_cost : ℕ
  pub minimum_parallelism : ℕ
  pub maximum_parallelism : ℕ

-- `KeyStorePolicy`
pub record KeyStorePolicy : Type 0 where
  pub creation : Argon2Parameters
  pub bounds : Argon2Bounds

-- `PRODUCTION_KEY_STORE_POLICY`
abbrev pub production_key_store_policy : KeyStorePolicy
production_key_store_policy = record {
  creation = record { memory_cost_kib = 65536; time_cost = 3; parallelism = 1; hash_len = 32 };
  bounds = record {
    minimum_memory_cost_kib = 65536;
    maximum_memory_cost_kib = 1048576;
    minimum_time_cost = 3;
    maximum_time_cost = 10;
    minimum_parallelism = 1;
    maximum_parallelism = 8;
  };
}

-- the document of a key derivation
pub record Kdf : Type 0 where
  pub name : Text
  pub salt : Text
  pub parameters : Argon2Parameters

-- the document of a wrapped secret
pub record Wrap : Type 0 where
  pub algorithm : Text
  pub nonce : Text
  pub ciphertext : Text

pub data RotationState : Type 0 where
  prepared database_replaced finalized : RotationState

pub data Label : Type 0 where
  old new : Label

-- the additional data of an encryption: `_stable_aad` and `_rotation_aad`, by what they serialize
pub data Aad : Type 0 where
  stable : Kdf → Aad
  rotation : RotationState → Kdf → Label → Aad

pub record Envelope : Type 0 where
  pub version : ℕ
  pub purpose : Text
  pub kdf : Kdf
  pub wrap : Wrap

-- the journal of a rotation
pub record Rotation : Type 0 where
  pub version : ℕ
  pub purpose : Text
  pub state : RotationState
  pub kdf : Kdf
  pub old_wrap : Wrap
  pub new_wrap : Wrap

-- The exceptions; `encrypted_storage_error` and `database_busy` are of backend/database.py, and
-- `other_error` is any that is not named, as of a phase hook.
pub data KeyFailure : Type 0 where
  key_store_error key_rotation_error : String → KeyFailure
  unlock_error private_path_error secure_memory_error : KeyFailure
  encrypted_storage_error database_busy os_error other_error : KeyFailure

-- KeyStoreError with its subclasses, or PrivatePathError
abbrev pub is_key_store_or_path : KeyFailure → Bool
is_key_store_or_path (key_store_error _) = true
is_key_store_or_path (key_rotation_error _) = true
is_key_store_or_path unlock_error = true
is_key_store_or_path private_path_error = true
is_key_store_or_path _ = false

-- Argon2 and AES-GCM. `derive` is none where the hashing fails, `decrypt` where the tag is wrong.
-- `nonce` are the random bytes that are drawn for an encryption.
pub record Crypto : Type 0 where
  pub derive : Text → Kdf → Option Text
  pub encrypt : (nonce secret key : Text) → Aad → Text
  pub decrypt : (nonce ciphertext key : Text) → Aad → Option Text
  pub nonce : Aad → Text

-- what the module relies on of them: a ciphertext is the secret's length and a tag, and is decrypted
-- with its nonce, key and additional data
pub record IsCrypto (crypto : Crypto) : Type 0 where
  pub nonce-length : (aad : Aad) → length (crypto.nonce aad) ≡ nonce_bytes
  pub encrypt-length :
      (nonce secret key : Text) (aad : Aad)
      → length (crypto.encrypt nonce secret key aad) ≡ length secret + gcm_tag_bytes
  pub decrypt-encrypt :
      (nonce secret key : Text) (aad : Aad)
      → crypto.decrypt nonce (crypto.encrypt nonce secret key aad) key aad ≡ some secret

-- the policy of a key store, and its cryptography
pub record Env : Type 0 where
  pub policy : KeyStorePolicy
  pub crypto : Crypto
