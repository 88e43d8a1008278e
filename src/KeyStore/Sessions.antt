-- ===== src/KeyStore/Sessions.antt =====
-- runtime/key_store.py: sessions that unlock a key store or rotate its key, each cut short anywhere.
use amit_ai.Common.{◌≡◌, refl, sym, ap, ◌∙◌, ◌⊎◌, inl, inr, Bool, true, false, some, List, []}
use amit_ai.Common.Texts.{Text}
use amit_ai.KeyStore.Types.{KeyFailure, IsCrypto, Env}
use amit_ai.KeyStore.Disk.{Disk, Fault, Outcome, crashed, raised, done, key_opens, encrypted}
use amit_ai.KeyStore.Disk.Triples.{Ensures}
use amit_ai.KeyStore.Disk.Returns.{Ends, after-Returns}
use amit_ai.KeyStore.Envelope.{Material}
use amit_ai.KeyStore.Recoverable.{IsSettled, Settled, Recoverable, settled, pending}
use amit_ai.KeyStore.Unlocking.{unlock-Triple}
use amit_ai.KeyStore.Rotating.{rotate_database_key-Triple}
use amit_ai.KeyStore.Returning.{unlock-Returns}
use amit_ai.KeyStore.Operations.{unlock, rotate_database_key}
use amit_ai.KeyStore.Copies.{Course}

abbrev pub disk_of : {C A : Type 0} → Outcome C A → Disk C
disk_of (crashed d) = d
disk_of (raised f d fs) = d
disk_of (done a d fs) = d

-- The disks that sessions lead to. A key is rotated to one that is not the key of the database.
pub data Reached {C : Type 0} (env : Env) (passphrase : Text) (start : Disk C)
    : Disk C → Type 0 where
  started : Reached env passphrase start start
  unlocked :
      (d : Disk C) (secured : Bool) (faults : List Fault)
      → Reached env passphrase start d
      → Reached env passphrase start (disk_of (unlock env secured passphrase faults d))
  rotated :
      (d : Disk C) (course : Course) (new_key : Text) (faults : List Fault)
      → Reached env passphrase start d
      → key_opens d.database new_key ≡ false
      → Reached env passphrase start
          (disk_of (rotate_database_key env course passphrase new_key faults d))

ends_in :
    {C A : Type 0} (Q : Disk C → Type 0) (E : KeyFailure → Disk C → Type 0)
    (P : A → Disk C → Type 0) (S : Disk C → Type 0) (o : Outcome C A)
    → ((d : Disk C) → Q d → S d)
    → ((f : KeyFailure) (d : Disk C) → E f d → S d)
    → ((a : A) (d : Disk C) → P a d → S d)
    → Ensures Q E P o
    → S (disk_of o)
ends_in Q E P S (crashed d) f g h x = f d x
ends_in Q E P S (raised failure d fs) f g h x = g failure d x
ends_in Q E P S (done a d fs) f g h x = h a d x

module _ {C : Type 0} (env : Env) (law : IsCrypto env.crypto) (passphrase : Text)
    (content : C) where
  abbrev HasKey : Disk C → Type 0
  HasKey d = (key : Text) × Recoverable env passphrase content key d

  settled-HasKey : (key : Text) (d : Disk C) → IsSettled env passphrase content key d → HasKey d
  settled-HasKey key d (m, s, is_key) = (key, settled m s is_key)

  keyed :
      (key : Text) (d : Disk C)
      → Recoverable env passphrase content key d
      → d.database ≡ some (encrypted key content)
  keyed key d (settled m s is_key) =
      let (_, database) = s.keyed in database ∙ ap (λ k. some (encrypted k content)) is_key
  keyed key d (pending r p) = let (_, database) = p.keyed in database

  has_either :
      (d : Disk C) (key new_key : Text)
      → Recoverable env passphrase content key d ⊎ Recoverable env passphrase content new_key d
      → HasKey d
  has_either d key new_key (inl s) = (key, s)
  has_either d key new_key (inr s) = (new_key, s)

  unlocked-HasKey :
      (d : Disk C) (secured : Bool) (faults : List Fault)
      → HasKey d
      → HasKey (disk_of (unlock env secured passphrase faults d))
  unlocked-HasKey d secured faults (key, safe) =
      ends_in (Recoverable env passphrase content key) (λ _. Recoverable env passphrase content key)
        (λ k d. IsSettled env passphrase content k d × (k ≡ key)) HasKey
        (unlock env secured passphrase faults d) (λ d s. (key, s)) (λ _ d s. (key, s))
        (λ k d (s, _). settled-HasKey k d s)
        ((unlock-Triple env law passphrase content key secured).at faults d safe)

  rotated-HasKey :
      (d : Disk C) (course : Course) (new_key : Text) (faults : List Fault)
      → key_opens d.database new_key ≡ false
      → HasKey d
      → HasKey (disk_of (rotate_database_key env course passphrase new_key faults d))
  rotated-HasKey d course new_key faults fresh (key, safe) =
      let other = ap (λ x. key_opens x new_key) (sym (keyed key d safe)) ∙ fresh in
      ends_in _ _ _ HasKey (rotate_database_key env course passphrase new_key faults d)
        (λ d s. has_either d key new_key s) (λ _ d s. has_either d key new_key s)
        (λ _ d s. settled-HasKey new_key d s)
        ((rotate_database_key-Triple env law passphrase content key new_key other course).at faults
          d safe)

  Reached-HasKey :
      {start : Disk C} (d : Disk C) → HasKey start → Reached env passphrase start d → HasKey d
  Reached-HasKey _ h started = h
  Reached-HasKey _ h (unlocked d secured faults reached) =
      unlocked-HasKey d secured faults (Reached-HasKey d h reached)
  Reached-HasKey _ h (rotated d course new_key faults reached fresh) =
      rotated-HasKey d course new_key faults fresh (Reached-HasKey d h reached)

  -- From a settled key store, after any sequence of unlocks and of rotations to a key that is not the
  -- database's, each of which may fail or end at any write, an unlock with the passphrase that can
  -- secure its memory and meets no fault returns the key under which the database holds its content,
  -- and leaves it in the key file, with no journal.
  pub Reached-unlock :
      {m : Material} {start d : Disk C}
      → Settled env passphrase content m start
      → Reached env passphrase start d
      → Ends (IsSettled env passphrase content) (unlock env true passphrase [] d)
  Reached-unlock {m = m} {d = d} s reached =
      let (key, safe) = Reached-HasKey d (m.database_key, settled m s refl) reached in
      (after-Returns {P' = IsSettled env passphrase content} (λ k d (found, _). found)
          (unlock-Returns env law passphrase content key)).on
        d safe
