-- ===== src/KeyStore/Disk/Returns.antt =====
-- What a program over the disk returns where no write fails.
use amit_ai.Common.{is_some, ◌≡◌, refl, Bool, true, false, Option, none, some, [], ◌∷◌}
use amit_ai.KeyStore.Types.{KeyFailure}
use amit_ai.KeyStore.Disk.Triples.{Ensures, Triple}
use amit_ai.KeyStore.Disk.{
  Disk, Outcome, crashed, raised, done, Prog, ◌>>=◌, ◌>>◌, pure, read_disk, handling, guard,
  require, write, system_call,
}

module _ {C : Type 0} where
  -- a value and a disk of which `P` holds
  abbrev pub Ends : {A : Type 0} → (A → Disk C → Type 0) → Outcome C A → Type 0
  Ends P (crashed d) = ⊥
  Ends P (raised f d fs) = ⊥
  Ends P (done a d []) = P a d
  Ends P (done a d (f ∷ fs)) = ⊥

  -- from every disk where `Pre` holds
  pub record Returns {A : Type 0} (Pre : Disk C → Type 0) (m : Prog C A) (P : A → Disk C → Type 0)
      : Type 0 where
    pub on : (d : Disk C) → Pre d → Ends P (m [] d)

  follow :
      {A B : Type 0} (Mid : A → Disk C → Type 0) (P : B → Disk C → Type 0) (rest : A → Prog C B)
      (o : Outcome C A)
      → ((a : A) → Returns (Mid a) (rest a) P)
      → Ends Mid o
      → Ends P (elim o [
        | crashed d' ↦ crashed d'
        | raised f d' fs' ↦ raised f d' fs'
        | done a d' fs' ↦ rest a fs' d'
      ])
  follow Mid P rest (done a d []) next h = (next a).on d h
  follow Mid P rest (crashed _) next h = elim h [ ]
  follow Mid P rest (raised _ _ _) next h = elim h [ ]
  follow Mid P rest (done a d (_ ∷ _)) next h = elim h [ ]

  pub bind-Returns :
      {A B : Type 0} {Pre : Disk C → Type 0} (Mid : A → Disk C → Type 0) {P : B → Disk C → Type 0}
      {m : Prog C A} {rest : A → Prog C B}
      → Returns Pre m Mid
      → ((a : A) → Returns (Mid a) (rest a) P)
      → Returns Pre (m >>= rest) P
  bind-Returns Mid {P = P} {m = m} {rest = rest} first next = record {
    on = λ d h. follow Mid P rest (m [] d) next (first.on d h);
  }

  pub then-Returns :
      {B : Type 0} {Pre Mid : Disk C → Type 0} {P : B → Disk C → Type 0} {m : Prog C (Unit {0})}
      {rest : Prog C B}
      → Returns Pre m (λ _. Mid)
      → Returns Mid rest P
      → Returns Pre (m >> rest) P
  then-Returns {Mid = Mid} first next = bind-Returns (λ _. Mid) first (λ _. next)

  handle :
      {A : Type 0} (P : A → Disk C → Type 0) (handler : KeyFailure → Prog C A) (o : Outcome C A)
      → Ends P o
      → Ends P (elim o [
        | crashed d' ↦ crashed d'
        | raised f d' fs' ↦ handler f fs' d'
        | done a d' fs' ↦ done a d' fs'
      ])
  handle P handler (done a d []) h = h
  handle P handler (crashed _) h = elim h [ ]
  handle P handler (raised _ _ _) h = elim h [ ]
  handle P handler (done a d (_ ∷ _)) h = elim h [ ]

  pub handling-Returns :
      {A : Type 0} {Pre : Disk C → Type 0} {P : A → Disk C → Type 0} {m : Prog C A}
      (handler : KeyFailure → Prog C A)
      → Returns Pre m P
      → Returns Pre (handling m handler) P
  handling-Returns {P = P} {m = m} handler first = record {
    on = λ d h. handle P handler (m [] d) (first.on d h);
  }

  pub pure-Returns :
      {A : Type 0} {Pre : Disk C → Type 0} {P : A → Disk C → Type 0} (a : A)
      → ((d : Disk C) → Pre d → P a d)
      → Returns Pre (pure a) P
  pure-Returns a h = record { on = h }

  pub read_disk-Returns : {Pre : Disk C → Type 0} → Returns Pre read_disk (λ d0 d. Pre d × (d0 ≡ d))
  read_disk-Returns = record { on = λ d pre. (pre, refl) }

  guard_on :
      (Pre : Disk C → Type 0) (b : Bool) (f : KeyFailure) (d : Disk C)
      → b ≡ true
      → Pre d
      → Ends (λ _. Pre) (guard b f [] d)
  guard_on Pre true f d e pre = pre
  guard_on Pre false f d e pre = cc

  pub guard-Returns :
      {Pre : Disk C → Type 0} (b : Bool) (f : KeyFailure)
      → ((d : Disk C) → Pre d → b ≡ true)
      → Returns Pre (guard b f) (λ _. Pre)
  guard-Returns {Pre} b f h = record { on = λ d pre. guard_on Pre b f d (h d pre) pre }

  require_on :
      {A : Type 0} (Pre : Disk C → Type 0) (f : KeyFailure) (o : Option A) (d : Disk C)
      → is_some o ≡ true
      → Pre d
      → Ends (λ a d. Pre d × (o ≡ some a)) (require f o [] d)
  require_on Pre f none d e pre = cc
  require_on Pre f (some a) d e pre = (pre, refl)

  pub require-Returns :
      {A : Type 0} {Pre : Disk C → Type 0} (f : KeyFailure) (o : Option A)
      → ((d : Disk C) → Pre d → is_some o ≡ true)
      → Returns Pre (require f o) (λ a d. Pre d × (o ≡ some a))
  require-Returns {Pre = Pre} f o h = record { on = λ d pre. require_on Pre f o d (h d pre) pre }

  pub write-Returns :
      {Pre : Disk C → Type 0} {P : Unit {0} → Disk C → Type 0} (step : Disk C → Disk C)
      → ((d : Disk C) → Pre d → P tt (step d))
      → Returns Pre (write step) P
  write-Returns step made = record { on = made }

  pub system_call-Returns :
      {Pre : Disk C → Type 0} {P : Unit {0} → Disk C → Type 0} (step : Disk C → Disk C)
      → ((d : Disk C) → Pre d → P tt (step d))
      → Returns Pre (system_call step) P
  system_call-Returns step made = record { on = made }

  both_on :
      {A : Type 0} (Q : Disk C → Type 0) (E : KeyFailure → Disk C → Type 0)
      (P : A → Disk C → Type 0) (o : Outcome C A)
      → Ensures Q E P o
      → Ends (λ _ _. Unit {0}) o
      → Ends P o
  both_on Q E P (done a d []) h end = h
  both_on Q E P (crashed _) h end = elim end [ ]
  both_on Q E P (raised _ _ _) h end = elim end [ ]
  both_on Q E P (done a d (_ ∷ _)) h end = elim end [ ]

  -- What holds of every value holds of the one that is returned.
  pub both-Returns :
      {A : Type 0} (Q : Disk C → Type 0) (E : KeyFailure → Disk C → Type 0) {Pre : Disk C → Type 0}
      {P : A → Disk C → Type 0} {m : Prog C A}
      → Triple Q E Pre m P
      → Returns Pre m (λ _ _. Unit {0})
      → Returns Pre m P
  both-Returns Q E {P = P} {m = m} t r = record {
    on = λ d pre. both_on Q E P (m [] d) (t.at [] d pre) (r.on d pre);
  }

  pub before-Returns :
      {A : Type 0} {Pre Pre' : Disk C → Type 0} {P : A → Disk C → Type 0} {m : Prog C A}
      → ((d : Disk C) → Pre d → Pre' d)
      → Returns Pre' m P
      → Returns Pre m P
  before-Returns h r = record { on = λ d pre. r.on d (h d pre) }

  after_on :
      {A : Type 0} (P P' : A → Disk C → Type 0) (o : Outcome C A)
      → ((a : A) (d : Disk C) → P a d → P' a d)
      → Ends P o
      → Ends P' o
  after_on P P' (done a d []) f h = f a d h
  after_on P P' (crashed _) f h = elim h [ ]
  after_on P P' (raised _ _ _) f h = elim h [ ]
  after_on P P' (done a d (_ ∷ _)) f h = elim h [ ]

  pub after-Returns :
      {A : Type 0} {Pre : Disk C → Type 0} {P P' : A → Disk C → Type 0} {m : Prog C A}
      → ((a : A) (d : Disk C) → P a d → P' a d)
      → Returns Pre m P
      → Returns Pre m P'
  after-Returns {P = P} {P' = P'} {m = m} h r = record {
    on = λ d pre. after_on P P' (m [] d) h (r.on d pre);
  }
