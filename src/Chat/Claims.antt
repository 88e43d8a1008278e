-- ===== src/Chat/Claims.antt =====
-- backend/chat_service.py: what an acknowledgment claims, the length of a title, and the order of
-- the timestamps.
use amit_ai.Common.{
  leb, if◌then◌else◌, Bool-cases, is_some, length, take, length-append, ℕ, zero, suc, ◌≤◌, ◌<◌, ◌≡◌,
  refl, sym, ap, inl, inr, Bool, true, false, not, ◌||◌, Option, none, some, [], ◌∷◌, ◌++◌, arith,
}
use amit_ai.Common.Texts.{Text, codes, rstrip, split, join, contains}
use amit_ai.Memory.Types.{Sensitivity, local_only, remote_allowed, Staged, is_deleted}
use amit_ai.Generator.Candidate.{split_trailing}
use amit_ai.Generator.Candidate.Whitespace.{rstrip-split_trailing, split_trailing-join}
use amit_ai.Chat.Types.{
  Prepared, is_stored, access, is_reason, unchanged, changed, acknowledgment, deterministic_title,
  timestamp_after, persist_timestamps,
}

abbrev pub denial : Text
denial = codes "No memory was changed"

unchanged-denies : (reason : Option Text) → contains denial (unchanged reason) ≡ true
unfolding unchanged contains
unchanged-denies reason =
    elim (Bool-cases (is_reason reason (codes "Memory target was not found or is not active"))) [
      | inl missing ↦ rw missing refl
      | inr other ↦
          elim (Bool-cases
            (is_reason reason (codes "Sensitive credentials cannot be stored in memory"))) [
              | inl secret ↦ rw (other, secret) refl
              | inr generic ↦ rw (other, generic) refl
            ]
    ]

-- the text of a change denies nothing
changed_text-claims :
    (deleted stored : Bool) (sensitivity : Sensitivity)
    → contains denial (
        if deleted
        then codes "Forgotten from saved memory."
        else (if stored then codes "Memory saved." else codes "Memory updated.")
          ++ access sensitivity)
      ≡ false
unfolding contains
changed_text-claims true true local_only = refl
changed_text-claims true true remote_allowed = refl
changed_text-claims true false local_only = refl
changed_text-claims true false remote_allowed = refl
changed_text-claims false true local_only = refl
changed_text-claims false true remote_allowed = refl
changed_text-claims false false local_only = refl
changed_text-claims false false remote_allowed = refl

-- The acknowledgment says that no memory was changed exactly where there is an image or no change is
-- staged.
pub acknowledgment-denies :
    (p : Prepared)
    → contains denial (acknowledgment p) ≡ (p.has_assets || not (is_some p.staged_memory))
unfolding acknowledgment contains changed
acknowledgment-denies p = by_parts p.has_assets p.staged_memory
  where
    by_parts :
        (has_assets : Bool) (staged : Option Staged)
        → contains denial (
            if has_assets
            then codes "No memory was changed. Send the memory command in a text-only message."
            else elim staged [ none ↦ unchanged p.reason | some m ↦ changed m ])
          ≡ (has_assets || not (is_some staged))
    by_parts true staged = refl
    by_parts false none = unchanged-denies p.reason
    by_parts false (some m) =
        changed_text-claims (is_deleted m.operation) (is_stored m.operation) m.sensitivity

length-rstrip : (text : Text) → length (rstrip text) ≤ length text
length-rstrip text = omega (
  arith,
  ap length (rstrip-split_trailing text),
  sym (length-append (split_trailing text).0 (split_trailing text).1),
  ap length (split_trailing-join text),
)

length-take_le : (n : ℕ) (text : Text) → length (take n text) ≤ n
length-take_le zero text = omega arith
length-take_le (suc n) [] = omega arith
length-take_le (suc n) (c ∷ text) = omega (arith, length-take_le n text)

-- A title has at most 60 characters.
pub deterministic_title-bounded : (message : Text) → length (deterministic_title message) ≤ 60
unfolding deterministic_title
deterministic_title-bounded message =
    elim (Bool-cases (leb (length (join (b' ' ∷ []) (split message))) 60)) [
      | inl short ↦ rw short (ground (arith, short))
      | inr long ↦
          let cut = take 57 (join (b' ' ∷ []) (split message)) in
          rw long (
            omega (
              arith,
              length-append (rstrip cut) (codes "..."),
              length-rstrip cut,
              length-take_le 57 (join (b' ' ∷ []) (split message)),
            ))
    ]

timestamp_after-later : (previous now : ℕ) → previous < timestamp_after (some previous) now
unfolding timestamp_after
timestamp_after-later previous now = ground arith

-- Whatever the clock gives, the messages and the update of a chat are in strict order.
pub persist_timestamps-ordered :
    (p : Prepared) (first second : ℕ)
    → (p.user_created_at < (persist_timestamps p first second).0)
      × ((persist_timestamps p first second).0 < (persist_timestamps p first second).1)
unfolding persist_timestamps
persist_timestamps-ordered p first second = (
  timestamp_after-later p.user_created_at first,
  timestamp_after-later (timestamp_after (some p.user_created_at) first) second,
)
