-- ===== src/Memory/Staging/Commands.antt =====
-- What a chat command stages: it goes through at once, and it never opens a memory to remote
-- inference.
use amit_ai.Common.{Option-cases, ℕ, ◌≡◌, ◌≢◌, inl, inr, false, Option, none, some, arith}
use amit_ai.Memory.Types.{SlotStatus, Slot, Db, Staged, Source}
use amit_ai.Memory.Tables.{get_slot_by_key}
use amit_ai.Memory.Apply.{apply}
use amit_ai.Memory.Rows.{any_of_find-none}
use amit_ai.Memory.Consistency.{has_id, IsConsistent}
use amit_ai.Memory.Types.{remote_allowed}
use amit_ai.Memory.Stage.{Command, Decision, stage_on_slot, stage_without_slot, stage_chat_command}
use amit_ai.Memory.Staging.{Succeeds, staged-Succeeds, new-Succeeds}

-- what a command stages on a slot expects the slot as it is
stage_on_slot-expects :
    (c : Command) (s : Slot) (m : Staged)
    → stage_on_slot c s ≡ some m
    → (m.memory_id ≡ s.id)
      × (m.owner ≡ s.owner)
      × (m.expected_revision ≡ some s.current_revision)
      × (m.expected_status ≡ some s.status)
unfolding stage_on_slot
stage_on_slot-expects c s m e = ground arith

stage_without_slot-expects :
    (owner fresh : ℕ) (c : Command) (m : Staged)
    → stage_without_slot owner fresh c ≡ some m
    → (m.memory_id ≡ fresh)
      × (m.owner ≡ owner)
      × (m.category ≡ c.category)
      × (m.key ≡ c.key)
      × (m.expected_revision ≡ none)
unfolding stage_without_slot
stage_without_slot-expects owner fresh c m e = ground arith

new_is_local :
    (owner fresh : ℕ) (c : Command) (m : Staged)
    → stage_without_slot owner fresh c ≡ some m
    → m.sensitivity ≢ remote_allowed
unfolding stage_without_slot
new_is_local owner fresh c m e r = ground arith

kept_open :
    (c : Command) (s : Slot) (m : Staged)
    → stage_on_slot c s ≡ some m
    → m.sensitivity ≡ remote_allowed
    → (s.status ≡ SlotStatus.active) × (s.sensitivity ≡ remote_allowed)
unfolding stage_on_slot
kept_open c s m e r = ground arith

module _ (owner fresh : ℕ) (decision : Decision) (c : Command) (db : Db) (m : Staged)
    (command : decision.command ≡ some c)
    (staged : stage_chat_command owner fresh decision db ≡ some m) where
  staged_absent :
      get_slot_by_key owner c.category c.key db ≡ none → stage_without_slot owner fresh c ≡ some m
  unfolding stage_chat_command
  staged_absent absent = ground arith

  staged_present :
      (s : Slot) → get_slot_by_key owner c.category c.key db ≡ some s → stage_on_slot c s ≡ some m
  unfolding stage_chat_command
  staged_present s present = ground arith

  -- What a chat command stages goes through, if it is applied to the consistent tables that it was
  -- staged on and a generated id is new.
  pub stage_chat_command-Succeeds :
      (src : Option Source) (now : ℕ)
      → IsConsistent db
      → has_id fresh db.slots ≡ false
      → Succeeds (apply m src now db)
  unfolding get_slot_by_key
  stage_chat_command-Succeeds src now h unused =
      elim (Option-cases (get_slot_by_key owner c.category c.key db)) [
        | inl absent ↦
            let (i, o, k, t, e) =
              stage_without_slot-expects owner fresh c m (staged_absent absent) in
            new-Succeeds db m src now h e (rw i unused)
              (rw (o, k, t) (any_of_find-none _ db.slots absent))
        | inr (s, present) ↦
            let (i, o, r, st) = stage_on_slot-expects c s m (staged_present s present) in
            staged-Succeeds db h _ s present m src now i o r st
      ]

  -- A chat command never opts a memory in to remote inference: what it stages is open to remote
  -- inference only if the slot of its key was active and open already.
  pub stage_chat_command-sensitivity :
      m.sensitivity ≡ remote_allowed
      → (s : Slot) × (get_slot_by_key owner c.category c.key db ≡ some s)
        × (s.status ≡ SlotStatus.active)
        × (s.sensitivity ≡ remote_allowed)
  stage_chat_command-sensitivity e =
      elim (Option-cases (get_slot_by_key owner c.category c.key db)) [
        | inl absent ↦ absurd (stays_local absent)
        | inr (s, present) ↦ let (a, b) = kept s present in (s, present, a, b)
      ]
    where
      stays_local : get_slot_by_key owner c.category c.key db ≡ none → ⊥
      stays_local absent = new_is_local owner fresh c m (staged_absent absent) e

      kept :
          (s : Slot)
          → get_slot_by_key owner c.category c.key db ≡ some s
          → (s.status ≡ SlotStatus.active) × (s.sensitivity ≡ remote_allowed)
      kept s present = kept_open c s m (staged_present s present) e
