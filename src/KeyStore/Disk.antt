-- ===== src/KeyStore/Disk.antt =====
-- The files of a key store, and programs over them whose writes may fail or be the last before a
-- crash.
pub mod Triples
pub mod Returns
use amit_ai.Common.{
  ltb, leb, ◌==◌, if◌then◌else◌, ==_iff, Bool-cases, Option-cases, is_some, is_nil, length, take,
  drop, any, keep, find, count, All, length-append, length-keep-le, count-append, All-append,
  All-weaken, ℕ, zero, suc, ◌+◌, ◌-◌, ◌*◌, ◌≤◌, ◌<◌, min, String, ◌≡◌, refl, sym, ap, ◌∙◌, fun_ext,
  ◌≢◌, ◌↔◌, ◌⊎◌, inl, inr, Bool, true, false, not, ◌&&◌, ◌||◌, Option, none, some, List, [], ◌∷◌,
  ◌++◌, map, reverse, append-nil, append_assoc, reverse-append, reverse-reverse, arith, ℕ_discrete,
  str_eq, str_eq_iff,
}
use amit_ai.Common.Texts.{
  Text, codes, is_space, eqb, starts_with, lstrip, rstrip, strip, is_empty, eqb→eq, eqb_refl, split,
  join, contains, is_member,
}
use amit_ai.KeyStore.Types.{Envelope, Rotation, KeyFailure, private_path_error, os_error}

-- A private file: missing, not a document of its kind, or a document.
pub data Stored {ℓ} (A : Type ℓ) : Type ℓ where
  absent unreadable : Stored A
  document : A → Stored A

abbrev pub exists_file {ℓ} : {A : Type ℓ} → Stored A → Bool
exists_file absent = false
exists_file _ = true

-- A database file, by the key that it is encrypted with and what it holds.
pub data Database (C : Type 0) : Type 0 where
  plaintext : C → Database C
  encrypted : Text → C → Database C

pub record Disk (C : Type 0) : Type 0 where
  pub key_file : Stored Envelope
  pub rotation_file : Stored Rotation
  pub restore_marker : Bool
  pub database : Option (Database C)
  pub candidate : Option (Database C)

-- `database_key_opens`: SQLCipher opens a file with the key that it is encrypted with, and no other
abbrev pub key_opens : {C : Type 0} → Option (Database C) → Text → Bool
key_opens none key = false
key_opens (some (plaintext c)) key = false
key_opens (some (encrypted k c)) key = eqb k key

-- What becomes of a write: it is made, raises before or after its effect, or the process ends first.
pub data Fault : Type 0 where
  proceeds fails fails_after stops : Fault

-- A run ends by a crash, by an exception or with a value, at a disk, and with the faults that are
-- still to come.
pub data Outcome (C A : Type 0) : Type 0 where
  crashed : Disk C → Outcome C A
  raised : KeyFailure → Disk C → List Fault → Outcome C A
  done : A → Disk C → List Fault → Outcome C A

-- a program, at the faults of its writes, of which those past the end of the list are made
abbrev pub Prog : Type 0 → Type 0 → Type 0
Prog C A = List Fault → Disk C → Outcome C A

module _ {C : Type 0} where
  infixl 5 ◌>>=◌ ◌>>◌
  abbrev pub ◌>>=◌ : {A B : Type 0} → Prog C A → (A → Prog C B) → Prog C B
  ◌>>=◌ m rest fs d = elim (m fs d) [
    | crashed d' ↦ crashed d'
    | raised f d' fs' ↦ raised f d' fs'
    | done a d' fs' ↦ rest a fs' d'
  ]

  abbrev pub ◌>>◌ : {B : Type 0} → Prog C (Unit {0}) → Prog C B → Prog C B
  m >> rest = m >>= λ _. rest

  abbrev pub pure : {A : Type 0} → A → Prog C A
  pure a fs d = done a d fs

  abbrev pub throw : {A : Type 0} → KeyFailure → Prog C A
  throw f fs d = raised f d fs

  abbrev pub read_disk : Prog C (Disk C)
  read_disk fs d = done d d fs

  -- `except`, with what follows an exception
  abbrev pub handling : {A : Type 0} → Prog C A → (KeyFailure → Prog C A) → Prog C A
  handling m handler fs d = elim (m fs d) [
    | crashed d' ↦ crashed d'
    | raised f d' fs' ↦ handler f fs' d'
    | done a d' fs' ↦ done a d' fs'
  ]

  abbrev pub guard : Bool → KeyFailure → Prog C (Unit {0})
  guard true f fs d = done tt d fs
  guard false f fs d = raised f d fs

  -- the value of an option, or the exception
  abbrev pub require : {A : Type 0} → KeyFailure → Option A → Prog C A
  require f none fs d = raised f d fs
  require f (some a) fs d = done a d fs

  -- `atomic_write_private` and `remove_private`, which replace or remove a file at once; the checks
  -- and the synchronisation that follow may raise
  abbrev pub write : (Disk C → Disk C) → Prog C (Unit {0})
  write step [] d = done tt (step d) []
  write step (proceeds ∷ fs) d = done tt (step d) fs
  write step (fails ∷ fs) d = raised private_path_error d fs
  write step (fails_after ∷ fs) d = raised private_path_error (step d) fs
  write step (stops ∷ fs) d = crashed d

  -- a call of the operating system, which raises OSError and then has no effect
  abbrev pub system_call : (Disk C → Disk C) → Prog C (Unit {0})
  system_call step [] d = done tt (step d) []
  system_call step (proceeds ∷ fs) d = done tt (step d) fs
  system_call step (fails ∷ fs) d = raised os_error d fs
  system_call step (fails_after ∷ fs) d = raised os_error d fs
  system_call step (stops ∷ fs) d = crashed d

  -- the same, where the OSError is ignored
  abbrev pub attempt_call : (Disk C → Disk C) → Prog C (Unit {0})
  attempt_call step [] d = done tt (step d) []
  attempt_call step (proceeds ∷ fs) d = done tt (step d) fs
  attempt_call step (fails ∷ fs) d = done tt d fs
  attempt_call step (fails_after ∷ fs) d = done tt d fs
  attempt_call step (stops ∷ fs) d = crashed d
