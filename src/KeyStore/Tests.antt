-- ===== src/KeyStore/Tests.antt =====
-- runtime/key_store.py: a key store at concrete keys, with a cryptography that only adds a tag.
use amit_ai.Common.{
  drop, ℕ, zero, suc, ◌≡◌, refl, true, false, Option, none, some, List, [], ◌∷◌, arith,
}
use amit_ai.Common.Texts.{Text, codes}
use amit_ai.KeyStore.Types.{Crypto, IsCrypto, Env, Kdf, production_key_store_policy, gcm_tag_bytes}
use amit_ai.KeyStore.Disk.{
  Fault, proceeds, fails_after, stops, Disk, Outcome, crashed, raised, done, absent, document,
  encrypted, ◌>>◌,
}
use amit_ai.KeyStore.Disk.Triples.{Ensures}
use amit_ai.KeyStore.Disk.Returns.{Ends}
use amit_ai.KeyStore.Envelope.{Material, build_envelope, kdf_document, is_kdf}
use amit_ai.KeyStore.Envelope.Reading.{open-build}
use amit_ai.KeyStore.Recoverable.{IsSettled, Settled, settled}
use amit_ai.KeyStore.Operations.{
  unlock_material, rotation_in, material_in, unlock, rotate_database_key, change_passphrase,
  import_existing,
}
use amit_ai.KeyStore.Copies.{trial, checked, or_discard, Course, works}
use amit_ai.KeyStore.Sessions.{started, rotated, disk_of, Reached-unlock}
use amit_ai.KeyStore.Passphrases.{change_passphrase-keeps_database, OneOpens}
use amit_ai.KeyStore.Importing.{import_existing-unlock, IsAccepted}

abbrev repeat : ℕ → ℕ → Text
repeat x zero = []
repeat x (suc n) = x ∷ repeat x n

abbrev tagged : Text → Text
tagged t = 0 ∷ 0 ∷ 0 ∷ 0 ∷ 0 ∷ 0 ∷ 0 ∷ 0 ∷ 0 ∷ 0 ∷ 0 ∷ 0 ∷ 0 ∷ 0 ∷ 0 ∷ 0 ∷ t

abbrev tagging : Crypto
tagging = record {
  derive = λ passphrase kdf. some passphrase;
  encrypt = λ nonce secret key aad. tagged secret;
  decrypt = λ nonce ciphertext key aad. some (drop gcm_tag_bytes ciphertext);
  nonce = λ aad. repeat 7 12;
}

tagging-IsCrypto : IsCrypto tagging
tagging-IsCrypto = record {
  nonce-length = λ aad. refl;
  encrypt-length = λ nonce secret key aad. omega arith;
  decrypt-encrypt = λ nonce secret key aad. refl;
}

abbrev store : Env
store = record { policy = production_key_store_policy; crypto = tagging }

abbrev first_key : Text
first_key = repeat 1 32

abbrev second_key : Text
second_key = repeat 2 32

abbrev passphrase : Text
passphrase = codes "correct horse"

abbrev salt : Text
salt = repeat 5 16

abbrev kdf : Kdf
kdf = kdf_document production_key_store_policy.creation salt

abbrev holder : Material
holder = record { database_key = first_key; wrapping_key = passphrase; kdf = kdf }

abbrev disk : Disk ℕ
disk = record {
  key_file = document (build_envelope store first_key passphrase kdf);
  rotation_file = absent;
  restore_marker = false;
  database = some (encrypted first_key 42);
  candidate = none;
}

salt_valid : is_kdf store.policy.bounds kdf ≡ true
unfolding is_kdf
salt_valid = refl

disk-Settled : Settled store passphrase 42 holder disk
unfolding material_in
disk-Settled = record {
  opened =
      open-build store passphrase first_key passphrase kdf tagging-IsCrypto (salt_valid, refl) refl;
  no_rotation = refl;
  keyed = (refl, refl);
}

abbrev smooth : Course
smooth = record {
  opening = works;
  copying = works;
  verified = true;
  unchanged = true;
  secured = true;
  hook_raises = λ phase. false;
}

-- the process ends after the database is replaced, before the journal says so
abbrev cut_short : List Fault
cut_short = proceeds ∷ proceeds ∷ proceeds ∷ proceeds ∷ proceeds ∷ stops ∷ []

Reached-unlock_example : Ends (IsSettled store passphrase 42) (
    unlock store true passphrase []
      (disk_of (rotate_database_key store smooth passphrase second_key cut_short disk)))
Reached-unlock_example =
    Reached-unlock store tagging-IsCrypto passphrase 42 disk-Settled
      (rotated disk smooth second_key cut_short started refl)

abbrev next_passphrase : Text
next_passphrase = codes "another passphrase"

change_passphrase-keeps_database_example :
    Ensures
      (OneOpens store 42 passphrase next_passphrase first_key)
      (λ _. OneOpens store 42 passphrase next_passphrase first_key)
      (λ _. IsSettled store next_passphrase 42 first_key)
      (change_passphrase store passphrase next_passphrase salt (fails_after ∷ []) disk)
change_passphrase-keeps_database_example =
    change_passphrase-keeps_database store tagging-IsCrypto 42 salt salt_valid passphrase
      next_passphrase first_key (fails_after ∷ []) disk (settled holder disk-Settled refl)

abbrev unmanaged : Disk ℕ
unmanaged = record {
  key_file = absent;
  rotation_file = absent;
  restore_marker = false;
  database = some (encrypted first_key 42);
  candidate = none;
}

accepted : IsAccepted store passphrase first_key salt passphrase
accepted = record { long = omega arith; size = refl; valid = salt_valid; derived = refl }

import_existing-unlock_example :
    Ends
      (λ k d'. IsSettled store passphrase 42 k d' × (k ≡ first_key))
      ((import_existing store true true first_key passphrase salt >> unlock store true passphrase)
        [] unmanaged)
import_existing-unlock_example =
    import_existing-unlock store tagging-IsCrypto 42 passphrase first_key salt passphrase unmanaged
      accepted (record { running = refl; no_key_file = refl; no_rotation = refl; database = refl })

-- What a run ends with: nothing at a crash, or the key.
abbrev key_of : {C : Type 0} → Outcome C Text → Option Text
key_of (crashed d) = none
key_of (raised f d fs) = none
key_of (done k d fs) = some k

-- The new key is found after a rotation that was cut short behind the replacement of the database,
-- and the old one where the process ends before it.
found_new :
    key_of (
      unlock store true passphrase []
        (disk_of (rotate_database_key store smooth passphrase second_key cut_short disk)))
    ≡ some second_key
unfolding unlock rotate_database_key unlock_material material_in trial checked or_discard
    rotation_in
found_new = refl

found_old :
    key_of (
      unlock store true passphrase [] (
        disk_of (
          rotate_database_key store smooth passphrase second_key
            (proceeds ∷ proceeds ∷ proceeds ∷ stops ∷ [])
            disk)))
    ≡ some first_key
unfolding unlock rotate_database_key unlock_material material_in trial checked or_discard
    rotation_in
found_old = refl

-- A rotation to the key that the database already has leaves a journal that no unlock gets past.
same_key_locks :
    key_of (
      unlock store true passphrase []
        (disk_of (rotate_database_key store smooth passphrase first_key [] disk)))
    ≡ none
unfolding unlock rotate_database_key unlock_material material_in trial checked or_discard
    rotation_in
same_key_locks = refl
