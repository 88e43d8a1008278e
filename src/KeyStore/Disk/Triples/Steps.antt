-- ===== src/KeyStore/Disk/Triples/Steps.antt =====
-- What holds after one step over the disk: a value, an exception, a test, a read or a write.
use amit_ai.Common.{◌≡◌, refl, Bool, true, false, Option, none, some, List, [], ◌∷◌}
use amit_ai.KeyStore.Types.{KeyFailure, private_path_error, os_error}
use amit_ai.KeyStore.Disk.{
  Disk, Fault, proceeds, fails, fails_after, stops, pure, throw, read_disk, guard, require, write,
  system_call, attempt_call,
}
use amit_ai.KeyStore.Disk.Triples.{Ensures, Triple}

module _ {C : Type 0} (Q : Disk C → Type 0) (E : KeyFailure → Disk C → Type 0) where
  pub pure-Triple :
      {A : Type 0} {Pre : Disk C → Type 0} {P : A → Disk C → Type 0} (a : A)
      → ((d : Disk C) → Pre d → P a d)
      → Triple Q E Pre (pure a) P
  pure-Triple a h = record { at = λ fs d pre. h d pre }

  pub throw-Triple :
      {A : Type 0} {Pre : Disk C → Type 0} {P : A → Disk C → Type 0} (f : KeyFailure)
      → ((d : Disk C) → Pre d → E f d)
      → Triple Q E Pre (throw f) P
  throw-Triple f h = record { at = λ fs d pre. h d pre }

  -- a test keeps what holds before it
  guard_at :
      (Pre : Disk C → Type 0) (b : Bool) (f : KeyFailure) (fs : List Fault) (d : Disk C)
      → (Pre d → E f d)
      → Pre d
      → Ensures Q E (λ _ d. Pre d × (b ≡ true)) (guard b f fs d)
  guard_at Pre true f fs d h pre = (pre, refl)
  guard_at Pre false f fs d h pre = h pre

  keep_at :
      (Pre : Disk C → Type 0) (b : Bool) (f : KeyFailure) (fs : List Fault) (d : Disk C)
      → (Pre d → E f d)
      → Pre d
      → Ensures Q E (λ _. Pre) (guard b f fs d)
  keep_at Pre true f fs d h pre = pre
  keep_at Pre false f fs d h pre = h pre

  pub guard-Triple :
      {Pre : Disk C → Type 0} (b : Bool) (f : KeyFailure)
      → ((d : Disk C) → Pre d → E f d)
      → Triple Q E Pre (guard b f) (λ _ d. Pre d × (b ≡ true))
  guard-Triple {Pre} b f h = record { at = λ fs d pre. guard_at Pre b f fs d (h d) pre }

  require_at :
      {A : Type 0} (Pre : Disk C → Type 0) (f : KeyFailure) (o : Option A) (fs : List Fault)
      (d : Disk C)
      → (Pre d → E f d)
      → Pre d
      → Ensures Q E (λ a d. Pre d × (o ≡ some a)) (require f o fs d)
  require_at Pre f none fs d h pre = h pre
  require_at Pre f (some a) fs d h pre = (pre, refl)

  pub require-Triple :
      {A : Type 0} {Pre : Disk C → Type 0} (f : KeyFailure) (o : Option A)
      → ((d : Disk C) → Pre d → E f d)
      → Triple Q E Pre (require f o) (λ a d. Pre d × (o ≡ some a))
  require-Triple {Pre = Pre} f o h = record { at = λ fs d pre. require_at Pre f o fs d (h d) pre }

  write_at :
      (P : Unit {0} → Disk C → Type 0) (step : Disk C → Disk C) (fs : List Fault) (d : Disk C)
      → Q d
      → E private_path_error d
      → E private_path_error (step d)
      → P tt (step d)
      → Ensures Q E P (write step fs d)
  write_at P step [] d crash before after made = made
  write_at P step (proceeds ∷ fs) d crash before after made = made
  write_at P step (fails ∷ fs) d crash before after made = before
  write_at P step (fails_after ∷ fs) d crash before after made = after
  write_at P step (stops ∷ fs) d crash before after made = crash

  pub write-Triple :
      {Pre : Disk C → Type 0} {P : Unit {0} → Disk C → Type 0} (step : Disk C → Disk C)
      → ((d : Disk C) → Pre d → Q d)
      → ((d : Disk C) → Pre d → E private_path_error d)
      → ((d : Disk C) → Pre d → E private_path_error (step d))
      → ((d : Disk C) → Pre d → P tt (step d))
      → Triple Q E Pre (write step) P
  write-Triple {P = P} step crash before after made = record {
    at = λ fs d h. write_at P step fs d (crash d h) (before d h) (after d h) (made d h);
  }

  call_at :
      (P : Unit {0} → Disk C → Type 0) (step : Disk C → Disk C) (fs : List Fault) (d : Disk C)
      → Q d
      → E os_error d
      → P tt (step d)
      → Ensures Q E P (system_call step fs d)
  call_at P step [] d crash failed made = made
  call_at P step (proceeds ∷ fs) d crash failed made = made
  call_at P step (fails ∷ fs) d crash failed made = failed
  call_at P step (fails_after ∷ fs) d crash failed made = failed
  call_at P step (stops ∷ fs) d crash failed made = crash

  pub system_call-Triple :
      {Pre : Disk C → Type 0} {P : Unit {0} → Disk C → Type 0} (step : Disk C → Disk C)
      → ((d : Disk C) → Pre d → Q d)
      → ((d : Disk C) → Pre d → E os_error d)
      → ((d : Disk C) → Pre d → P tt (step d))
      → Triple Q E Pre (system_call step) P
  system_call-Triple {P = P} step crash failed made = record {
    at = λ fs d h. call_at P step fs d (crash d h) (failed d h) (made d h);
  }

  attempt_at :
      (P : Unit {0} → Disk C → Type 0) (step : Disk C → Disk C) (fs : List Fault) (d : Disk C)
      → Q d
      → P tt d
      → P tt (step d)
      → Ensures Q E P (attempt_call step fs d)
  attempt_at P step [] d crash ignored made = made
  attempt_at P step (proceeds ∷ fs) d crash ignored made = made
  attempt_at P step (fails ∷ fs) d crash ignored made = ignored
  attempt_at P step (fails_after ∷ fs) d crash ignored made = ignored
  attempt_at P step (stops ∷ fs) d crash ignored made = crash

  pub attempt_call-Triple :
      {Pre : Disk C → Type 0} {P : Unit {0} → Disk C → Type 0} (step : Disk C → Disk C)
      → ((d : Disk C) → Pre d → Q d)
      → ((d : Disk C) → Pre d → P tt d)
      → ((d : Disk C) → Pre d → P tt (step d))
      → Triple Q E Pre (attempt_call step) P
  attempt_call-Triple {P = P} step crash ignored made = record {
    at = λ fs d h. attempt_at P step fs d (crash d h) (ignored d h) (made d h);
  }

  -- what is read is the disk
  pub read_disk-Triple :
      {Pre : Disk C → Type 0} → Triple Q E Pre read_disk (λ d0 d. Pre d × (d0 ≡ d))
  read_disk-Triple = record { at = λ fs d pre. (pre, refl) }

  -- A test that keeps what holds before it, where its outcome is not used.
  pub keep-Triple :
      {Pre : Disk C → Type 0} (b : Bool) (f : KeyFailure)
      → ((d : Disk C) → Pre d → E f d)
      → Triple Q E Pre (guard b f) (λ _. Pre)
  keep-Triple {Pre} b f h = record { at = λ fs d pre. keep_at Pre b f fs d (h d) pre }
