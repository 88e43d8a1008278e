-- ===== src/Chat/Committing.antt =====
-- backend/chat_service.py: what the transaction of `_persist_chat` leaves of a conversation.
use mathlib.Core.Path.{subst}
use amit_ai.Common.{
  ◌==◌, keep, All, All-append, All-weaken, ℕ, ◌≤◌, ◌<◌, ◌≡◌, refl, sym, ap, ◌∙◌, ◌≢◌, Bool, true,
  false, not, ◌||◌, Option, none, some, List, [], ◌∷◌, ◌++◌, map, append-nil, append_assoc, arith,
}
use amit_ai.Common.Texts.{Text, strip, is_empty}
use amit_ai.Memory.Types.{Db, Reference, MemoryError, MemoryRecord, Staged, Source, Result, ok, err}
use amit_ai.Memory.Apply.{apply}
use amit_ai.Memory.Rows.{any-append}
use amit_ai.Chat.Types.{Prepared, timestamp_after, persist_timestamps}
use amit_ai.Chat.Rows.{
  Conversation, Message, Store, memory_failed, Saved, saved, refused, has_message, ◌>>=◌, get_fresh,
  touch, create_message, sort, list_for_conversation, add_metadata,
}
use amit_ai.Chat.Persist.{
  Pending, Draws, latest, user_time, after_apply, apply_staged, attach, user_message,
  assistant_message, memory_metadata_reference, continued_in, conversation_for, persist_chat,
}
use amit_ai.Chat.Transcript.{keep-append, sort-append, rows-latest}

-- The rows are those before, and nothing is refused but a change of memory that is staged.
abbrev pub Commits : Option Staged → (Store → Type 0) → Saved Store → Type 0
Commits staged P (saved s) = P s
Commits none P (refused e) = ⊥
Commits (some m) P (refused e) = (raised : MemoryError) × (e ≡ memory_failed raised)

abbrev listed : ℕ → List Message → List Message
listed id ms = sort (keep (λ m. m.conversation_id == id) ms)

listed-turn :
    (id : ℕ) (ms : List Message) (u a : Message)
    → u.conversation_id ≡ id
    → a.conversation_id ≡ id
    → All (λ m. m.created_at < u.created_at) (keep (λ m. m.conversation_id == id) ms)
    → u.created_at < a.created_at
    → listed id ((ms ++ (u ∷ [])) ++ (a ∷ [])) ≡ listed id ms ++ (u ∷ a ∷ [])
listed-turn id ms u a here here' before after =
    let kept = keep (λ (m : Message). m.conversation_id == id) ms in
    let has_u : u.conversation_id == id ≡ true = ground (arith, here) in
    let has_a : a.conversation_id == id ≡ true = ground (arith, here') in
    let one : keep (λ (m : Message). m.conversation_id == id) (u ∷ []) ≡ u ∷ [] = rw has_u refl in
    let two : keep (λ (m : Message). m.conversation_id == id) (a ∷ []) ≡ a ∷ [] = rw has_a refl in
    ap sort (
      keep-append (λ m. m.conversation_id == id) (ms ++ (u ∷ [])) (a ∷ [])
      ∙ ap (λ x. x ++ keep (λ (m : Message). m.conversation_id == id) (a ∷ []))
          (keep-append (λ m. m.conversation_id == id) ms (u ∷ []))
      ∙ ap (λ x. (kept ++ x) ++ keep (λ (m : Message). m.conversation_id == id) (a ∷ [])) one
      ∙ ap (λ x. (kept ++ (u ∷ [])) ++ x) two)
    ∙ sort-append (kept ++ (u ∷ [])) a (
        All-append (λ m. m.created_at < a.created_at) kept (u ∷ [])
          (All-weaken (λ m. m.created_at < u.created_at) (λ m. m.created_at < a.created_at)
            (λ m h. omega (arith, h, after)) kept before)
          (after, tt))
    ∙ ap (λ x. x ++ (a ∷ [])) (sort-append kept u before)
    ∙ append_assoc (sort kept) (u ∷ []) (a ∷ [])

listed-other :
    (id k : ℕ) (ms : List Message) (m : Message)
    → m.conversation_id ≡ id
    → k ≢ id
    → listed k (ms ++ (m ∷ [])) ≡ listed k ms
listed-other id k ms m here other =
    let absent : m.conversation_id == k ≡ false = ground (arith, here, other) in
    let none_there : keep (λ (x : Message). x.conversation_id == k) (m ∷ []) ≡ [] =
      rw absent refl in
    ap sort (
      keep-append (λ x. x.conversation_id == k) ms (m ∷ [])
      ∙ ap (λ x. keep (λ (y : Message). y.conversation_id == k) ms ++ x) none_there
      ∙ append-nil (keep (λ (y : Message). y.conversation_id == k) ms))

-- The conversation has the question and the answer after its other rows, and the rows of other
-- conversations are the same.
pub record IsAppended (id : ℕ) (u a : Message) (before after : List Message) : Type 0 where
  pub appended : listed id after ≡ listed id before ++ (u ∷ a ∷ [])
  pub others : (k : ℕ) → k ≢ id → listed k after ≡ listed k before

turn-IsAppended :
    (id : ℕ) (ms : List Message) (u a : Message)
    → u.conversation_id ≡ id
    → a.conversation_id ≡ id
    → All (λ m. m.created_at < u.created_at) (keep (λ m. m.conversation_id == id) ms)
    → u.created_at < a.created_at
    → IsAppended id u a ms ((ms ++ (u ∷ [])) ++ (a ∷ []))
turn-IsAppended id ms u a here here' before after = record {
  appended = listed-turn id ms u a here here' before after;
  others = λ k other.
      listed-other id k (ms ++ (u ∷ [])) a here' other ∙ listed-other id k ms u here other;
}

-- the question is later than the rows of the conversation
asked_later :
    (c : Conversation) (now at : ℕ) (s : Store)
    → at ≡ user_time c now s
    → All (λ m. m.created_at < at) (keep (λ m. m.conversation_id == c.id) s.messages)
unfolding user_time timestamp_after list_for_conversation
asked_later c now at s drawn =
    let rows = keep (λ (m : Message). m.conversation_id == c.id) s.messages in
    All-weaken (λ m. m.created_at ≤ latest c.created_at (sort rows)) (λ m. m.created_at < at)
      (λ m h. ground (arith, h, drawn)) rows (rows-latest c.created_at rows)

module _ (describe : MemoryRecord → Text) (p : Pending) (draws : Draws) (id : ℕ)
    (answered : is_empty (strip p.response) ≡ false) (asked : List Message)
    (new : has_message draws.assistant_id asked ≡ false) where
  abbrev Final : Store → Type 0
  Final s = s.messages ≡ asked ++ (assistant_message p draws id ∷ [])

  -- the part of `_persist_chat` behind the memory change
  abbrev answer : List Reference × Store → Saved Store
  answer (references, changed) = create_message (assistant_message p draws id) changed >>= λ s.
      saved (
        touch id (persist_timestamps p.turn draws.assistant_now draws.update_now).1 (
          add_metadata
            (p.memory ++ map (memory_metadata_reference describe) p.retrieved_memory ++ references)
            s))

  answer-Commits :
      (staged : Option Staged) (references : List Reference) (s : Store)
      → s.messages ≡ asked
      → Commits staged Final (answer (references, s))
  unfolding create_message touch add_metadata
  answer-Commits none references s same =
      rw (answered, ap (has_message draws.assistant_id) same ∙ new)
        (ap (λ ms. ms ++ (assistant_message p draws id ∷ [])) same)
  answer-Commits (some m) references s same =
      rw (answered, ap (has_message draws.assistant_id) same ∙ new)
        (ap (λ ms. ms ++ (assistant_message p draws id ∷ [])) same)

  applied-Commits :
      (m : Staged) (s : Store) (o : Result (MemoryRecord × Db))
      → s.messages ≡ asked
      → Commits (some m) Final (after_apply describe s o >>= answer)
  applied-Commits m s (err e) same = (e, refl)
  applied-Commits m s (ok (r, db)) same =
      answer-Commits (some m) (memory_metadata_reference describe r ∷ []) (record s { memory = db })
        same

  staged-Commits :
      (staged : Option Staged) (src : Source) (now : ℕ) (s : Store)
      → s.messages ≡ asked
      → Commits staged Final (apply_staged describe staged src now s >>= answer)
  unfolding apply_staged
  staged-Commits none src now s same = answer-Commits none [] s same
  staged-Commits (some m) src now s same =
      applied-Commits m s (apply m (some src) now s.memory) same

attached_enough :
    (has_assets attached : Bool) (s : Store)
    → not has_assets || attached ≡ true
    → attach has_assets attached s ≡ saved s
attached_enough false attached s h = refl
attached_enough true true s h = refl
attached_enough true false s h = cc

timestamp_later :
    (p : Prepared) (first second : ℕ) → p.user_created_at < (persist_timestamps p first second).0
unfolding persist_timestamps timestamp_after
timestamp_later p first second = ground arith

-- weaker rows of a commit
Commits-weaken :
    (P P' : Store → Type 0) (staged : Option Staged) (o : Saved Store)
    → ((s : Store) → P s → P' s)
    → Commits staged P o
    → Commits staged P' o
Commits-weaken P P' staged (saved s) f h = f s h
Commits-weaken P P' none (refused e) f h = elim h [ ]
Commits-weaken P P' (some m) (refused e) f h = h

-- A chat that continues the conversation it was prepared from, with ids that are new.
pub record Continues (p : Pending) (draws : Draws) (c : Conversation) (now : ℕ) (attached : Bool)
    (s : Store) : Type 0 where
  pub continues : p.turn.conversation_id ≡ some c.id
  pub found : get_fresh c.id s ≡ some c
  pub drawn : p.turn.user_created_at ≡ user_time c now s
  pub asked : is_empty (strip p.turn.message) ≡ false
  pub answered : is_empty (strip p.response) ≡ false
  pub attached_all : not p.turn.has_assets || attached ≡ true
  pub new_user : has_message draws.user_id s.messages ≡ false
  pub new_assistant : has_message draws.assistant_id s.messages ≡ false
  pub distinct : draws.user_id == draws.assistant_id ≡ false

continued :
    (p : Pending) (draws : Draws) (c : Conversation) (now : ℕ) (attached : Bool) (s : Store)
    → Continues p draws c now attached s
    → conversation_for p draws s p.turn.conversation_id ≡ saved (c.id, s)
unfolding conversation_for
continued p draws c now attached s h =
    ap (conversation_for p draws s) h.continues ∙ ap (continued_in c.id s) h.found

created :
    (m : Message) (s : Store)
    → is_empty (strip m.content) ≡ false
    → has_message m.id s.messages ≡ false
    → create_message m s ≡ saved (record s { messages = s.messages ++ (m ∷ []) })
unfolding create_message
created m s h new = rw (h, new) refl

-- the id of the answer is still new once the question is there
still_new :
    (p : Pending) (draws : Draws) (c : Conversation) (now : ℕ) (attached : Bool) (s : Store)
    → Continues p draws c now attached s
    → has_message draws.assistant_id (s.messages ++ (user_message p draws c.id ∷ [])) ≡ false
still_new p draws c now attached s h =
    any-append (λ m. m.id == draws.assistant_id) s.messages (user_message p draws c.id ∷ [])
    ∙ ground (arith, h.new_assistant, h.distinct)

-- A chat with a question and an answer that are not blank, which continues a conversation from its
-- latest row, whose images can be attached and whose two message ids are new and different, is
-- committed with its question and its answer listed behind the other rows of the conversation,
-- whatever the clock and the order of the ids, and leaves the rows of other conversations; only a
-- staged change of memory can refuse it.
pub persist_chat-Commits :
    (describe : MemoryRecord → Text) (p : Pending) (draws : Draws) (c : Conversation) (now : ℕ)
    (attached : Bool) (s : Store)
    → Continues p draws c now attached s
    → Commits p.turn.staged_memory
        (λ s'.
          IsAppended c.id
            (user_message p draws c.id)
            (assistant_message p draws c.id)
            s.messages
            s'.messages)
        (persist_chat describe attached p draws s)
unfolding persist_chat
persist_chat-Commits describe p draws c now attached s h =
    let asked = s.messages ++ (user_message p draws c.id ∷ []) in
    let new = still_new p draws c now attached s h in
    let before = asked_later c now p.turn.user_created_at s h.drawn in
    rw
      (
        continued p draws c now attached s h,
        created (user_message p draws c.id) s h.asked h.new_user,
        attached_enough p.turn.has_assets attached (record s { messages = asked }) h.attached_all,
      )
      (Commits-weaken (λ s'. s'.messages ≡ asked ++ (assistant_message p draws c.id ∷ []))
        (λ s'.
          IsAppended c.id (user_message p draws c.id) (assistant_message p draws c.id) s.messages
            s'.messages)
        p.turn.staged_memory
        (apply_staged describe p.turn.staged_memory
            (record { conversation = c.id; message = draws.user_id }) draws.memory_now
            (record s { messages = asked })
          >>= answer describe p draws c.id h.answered asked new)
        (λ s' e.
          subst
            (IsAppended c.id (user_message p draws c.id) (assistant_message p draws c.id)
              s.messages)
            (sym e)
            (turn-IsAppended c.id s.messages (user_message p draws c.id)
              (assistant_message p draws c.id) refl refl before
              (timestamp_later p.turn draws.assistant_now draws.update_now)))
        (staged-Commits describe p draws c.id h.answered asked new p.turn.staged_memory
          (record { conversation = c.id; message = draws.user_id }) draws.memory_now
          (record s { messages = asked }) refl))
