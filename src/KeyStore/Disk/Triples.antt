-- ===== src/KeyStore/Disk/Triples.antt =====
-- What holds wherever a program over the disk ends: at a crash, at an exception, and at a value.
pub mod Steps
use amit_ai.Common.{◌≡◌, refl, Bool, true, false, Option, none, some, List, [], ◌∷◌}
use amit_ai.KeyStore.Types.{KeyFailure, private_path_error, os_error}
use amit_ai.KeyStore.Disk.{
  Disk, Fault, proceeds, fails, fails_after, stops, Outcome, crashed, raised, done, Prog, ◌>>=◌,
  ◌>>◌, pure, throw, read_disk, handling, guard, require, write, system_call, attempt_call,
}

module _ {C : Type 0} where
  -- `Q` at a crash, `E` at an exception, `P` at a value
  abbrev pub Ensures :
      {A : Type 0}
      → (Disk C → Type 0)
      → (KeyFailure → Disk C → Type 0)
      → (A → Disk C → Type 0)
      → Outcome C A
      → Type 0
  Ensures Q E P (crashed d) = Q d
  Ensures Q E P (raised f d fs) = E f d
  Ensures Q E P (done a d fs) = P a d

  -- from every disk where `Pre` holds, whatever the faults
  pub record Triple {A : Type 0} (Q : Disk C → Type 0) (E : KeyFailure → Disk C → Type 0)
      (Pre : Disk C → Type 0) (m : Prog C A) (P : A → Disk C → Type 0) : Type 0 where
    pub at : (fs : List Fault) (d : Disk C) → Pre d → Ensures Q E P (m fs d)

  module _ (Q : Disk C → Type 0) (E : KeyFailure → Disk C → Type 0) where
    follow :
        {A B : Type 0} (Mid : A → Disk C → Type 0) (P : B → Disk C → Type 0) (rest : A → Prog C B)
        (o : Outcome C A)
        → ((a : A) → Triple Q E (Mid a) (rest a) P)
        → Ensures Q E Mid o
        → Ensures Q E P (elim o [
          | crashed d' ↦ crashed d'
          | raised f d' fs' ↦ raised f d' fs'
          | done a d' fs' ↦ rest a fs' d'
        ])
    follow Mid P rest (crashed d) next h = h
    follow Mid P rest (raised f d fs) next h = h
    follow Mid P rest (done a d fs) next h = (next a).at fs d h

    pub bind-Triple :
        {A B : Type 0} {Pre : Disk C → Type 0} (Mid : A → Disk C → Type 0) {P : B → Disk C → Type 0}
        {m : Prog C A} {rest : A → Prog C B}
        → Triple Q E Pre m Mid
        → ((a : A) → Triple Q E (Mid a) (rest a) P)
        → Triple Q E Pre (m >>= rest) P
    bind-Triple Mid {P = P} {m = m} {rest = rest} first next = record {
      at = λ fs d h. follow Mid P rest (m fs d) next (first.at fs d h);
    }

    handle :
        {A : Type 0} (E' : KeyFailure → Disk C → Type 0) (P : A → Disk C → Type 0)
        (handler : KeyFailure → Prog C A) (o : Outcome C A)
        → ((f : KeyFailure) → Triple Q E (E' f) (handler f) P)
        → Ensures Q E' P o
        → Ensures Q E P (elim o [
          | crashed d' ↦ crashed d'
          | raised f d' fs' ↦ handler f fs' d'
          | done a d' fs' ↦ done a d' fs'
        ])
    handle E' P handler (crashed d) next h = h
    handle E' P handler (raised f d fs) next h = (next f).at fs d h
    handle E' P handler (done a d fs) next h = h

    pub handling-Triple :
        {A : Type 0} {Pre : Disk C → Type 0} (E' : KeyFailure → Disk C → Type 0)
        {P : A → Disk C → Type 0} {m : Prog C A} {handler : KeyFailure → Prog C A}
        → Triple Q E' Pre m P
        → ((f : KeyFailure) → Triple Q E (E' f) (handler f) P)
        → Triple Q E Pre (handling m handler) P
    handling-Triple E' {P = P} {m = m} {handler = handler} first next = record {
      at = λ fs d h. handle E' P handler (m fs d) next (first.at fs d h);
    }

    pub then-Triple :
        {B : Type 0} {Pre Mid : Disk C → Type 0} {P : B → Disk C → Type 0} {m : Prog C (Unit {0})}
        {rest : Prog C B}
        → Triple Q E Pre m (λ _. Mid)
        → Triple Q E Mid rest P
        → Triple Q E Pre (m >> rest) P
    then-Triple {Mid = Mid} first next = bind-Triple (λ _. Mid) first (λ _. next)

    pub before-Triple :
        {A : Type 0} {Pre Pre' : Disk C → Type 0} {P : A → Disk C → Type 0} {m : Prog C A}
        → ((d : Disk C) → Pre d → Pre' d)
        → Triple Q E Pre' m P
        → Triple Q E Pre m P
    before-Triple h t = record { at = λ fs d pre. t.at fs d (h d pre) }

    after_at :
        {A : Type 0} (P P' : A → Disk C → Type 0) (o : Outcome C A)
        → ((a : A) (d : Disk C) → P a d → P' a d)
        → Ensures Q E P o
        → Ensures Q E P' o
    after_at P P' (crashed d) f h = h
    after_at P P' (raised failure d fs) f h = h
    after_at P P' (done a d fs) f h = f a d h

    pub after-Triple :
        {A : Type 0} {Pre : Disk C → Type 0} {P P' : A → Disk C → Type 0} {m : Prog C A}
        → ((a : A) (d : Disk C) → P a d → P' a d)
        → Triple Q E Pre m P
        → Triple Q E Pre m P'
    after-Triple {P = P} {P' = P'} {m = m} h t = record {
      at = λ fs d pre. after_at P P' (m fs d) h (t.at fs d pre);
    }

    -- what holds before a program whatever the disk
    pub given-Triple :
        {A : Type 0} {Pre : Disk C → Type 0} {P : A → Disk C → Type 0} {m : Prog C A} {F : Type 0}
        → ((d : Disk C) → Pre d → F)
        → (F → Triple Q E Pre m P)
        → Triple Q E Pre m P
    given-Triple h t = record { at = λ fs d pre. (t (h d pre)).at fs d pre }

  widen_at :
      {A : Type 0} (Q Q' : Disk C → Type 0) (E E' : KeyFailure → Disk C → Type 0)
      (P : A → Disk C → Type 0) (o : Outcome C A)
      → ((d : Disk C) → Q d → Q' d)
      → ((f : KeyFailure) (d : Disk C) → E f d → E' f d)
      → Ensures Q E P o
      → Ensures Q' E' P o
  widen_at Q Q' E E' P (crashed d) f g h = f d h
  widen_at Q Q' E E' P (raised failure d fs) f g h = g failure d h
  widen_at Q Q' E E' P (done a d fs) f g h = h

  pub widen-Triple :
      {A : Type 0} (Q Q' : Disk C → Type 0) (E E' : KeyFailure → Disk C → Type 0)
      {Pre : Disk C → Type 0} {P : A → Disk C → Type 0} {m : Prog C A}
      → ((d : Disk C) → Q d → Q' d)
      → ((f : KeyFailure) (d : Disk C) → E f d → E' f d)
      → Triple Q E Pre m P
      → Triple Q' E' Pre m P
  widen-Triple Q Q' E E' {P = P} {m = m} f g t = record {
    at = λ fs d pre. widen_at Q Q' E E' P (m fs d) f g (t.at fs d pre);
  }
