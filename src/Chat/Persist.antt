-- ===== src/Chat/Persist.antt =====
-- backend/chat_service.py: the timestamps of `_prepare_chat`, and `_persist_chat`.
use amit_ai.Common.{ℕ, Bool, true, false, Option, none, some, List, [], ◌∷◌, ◌++◌, map}
use amit_ai.Common.Texts.{Text}
use amit_ai.Memory.Types.{Db, Reference, entry, MemoryRecord, Staged, Source, Result, ok, err}
use amit_ai.Memory.Apply.{apply}
use amit_ai.Context.{user, assistant}
use amit_ai.Chat.Types.{Prepared, timestamp_after, persist_timestamps}
use amit_ai.Chat.Rows.{
  Conversation, Message, Store, conversation_not_found, asset_failed, memory_failed, Saved, saved,
  refused, ◌>>=◌, get_fresh, create_conversation, touch, create_message, list_for_conversation,
  add_metadata,
}

-- What `_persist_chat` reads of `_PreparedChat` and of the generation, besides the turn.
pub record Pending : Type 0 where
  pub turn : Prepared
  pub title : Text
  pub request_timestamp : ℕ
  pub response : Text
  pub memory : List Reference
  pub retrieved_memory : List MemoryRecord

-- the ids that are drawn, and the readings of the clock
pub record Draws : Type 0 where
  pub conversation_id : ℕ
  pub user_id : ℕ
  pub assistant_id : ℕ
  pub assistant_now : ℕ
  pub update_now : ℕ
  pub memory_now : ℕ

-- `history[-1].created_at if history else conversation.created_at`
abbrev pub latest : ℕ → List Message → ℕ
latest n [] = n
latest n (m ∷ ms) = latest m.created_at ms

-- `user_created_at` for a conversation that is there
unfoldable pub user_time : Conversation → ℕ → Store → ℕ
unfolding timestamp_after list_for_conversation
user_time c now s = timestamp_after (some (latest c.created_at (list_for_conversation c.id s))) now

-- `memory_metadata_reference`; `describe` prints the members that are no identifier
abbrev pub memory_metadata_reference : (MemoryRecord → Text) → MemoryRecord → Reference
memory_metadata_reference describe r = entry (some r.id) none (describe r)

-- `get_fresh` and its check
abbrev pub continued_in : ℕ → Store → Option Conversation → Saved (ℕ × Store)
continued_in id s none = refused conversation_not_found
continued_in id s (some c) = saved (id, s)

-- the conversation of a chat, which is created for a first message
unfoldable pub conversation_for : Pending → Draws → Store → Option ℕ → Saved (ℕ × Store)
unfolding create_conversation
conversation_for p draws s none =
    create_conversation draws.conversation_id p.title p.request_timestamp s >>= λ created.
    saved (draws.conversation_id, created)
conversation_for p draws s (some id) = continued_in id s (get_fresh id s)

abbrev pub after_apply :
    (MemoryRecord → Text) → Store → Result (MemoryRecord × Db) → Saved (List Reference × Store)
after_apply describe s (err e) = refused (memory_failed e)
after_apply describe s (ok (r, db)) =
    saved (memory_metadata_reference describe r ∷ [], record s { memory = db })

-- the staged change, with its reference
unfoldable pub apply_staged :
    (MemoryRecord → Text) → Option Staged → Source → ℕ → Store → Saved (List Reference × Store)
unfolding apply
apply_staged describe none src now s = saved ([], s)
apply_staged describe (some m) src now s = after_apply describe s (apply m (some src) now s.memory)

-- `assets.attach`, by whether it returns
abbrev pub attach : Bool → Bool → Store → Saved Store
attach false attached s = saved s
attach true true s = saved s
attach true false s = refused asset_failed

abbrev pub user_message : Pending → Draws → ℕ → Message
user_message p draws id = record {
  id = draws.user_id;
  conversation_id = id;
  role = user;
  content = p.turn.message;
  created_at = p.turn.user_created_at;
}

abbrev pub assistant_message : Pending → Draws → ℕ → Message
assistant_message p draws id = record {
  id = draws.assistant_id;
  conversation_id = id;
  role = assistant;
  content = p.response;
  created_at = (persist_timestamps p.turn draws.assistant_now draws.update_now).0;
}

-- `_persist_chat`, by the tables that its transaction commits
unfoldable pub persist_chat : (MemoryRecord → Text) → Bool → Pending → Draws → Store → Saved Store
unfolding conversation_for apply_staged create_message add_metadata touch
persist_chat describe attached p draws s =
    conversation_for p draws s p.turn.conversation_id >>= λ (id, created).
    create_message (user_message p draws id) created >>= λ asked.
    attach p.turn.has_assets attached asked >>= λ linked.
    apply_staged describe p.turn.staged_memory
      (record { conversation = id; message = draws.user_id }) draws.memory_now linked
    >>= λ (references, changed).
        create_message (assistant_message p draws id) changed >>= λ answered. saved (
          touch id (persist_timestamps p.turn draws.assistant_now draws.update_now).1 (
            add_metadata
              (p.memory
                ++ map (memory_metadata_reference describe) p.retrieved_memory
                ++ references)
              answered))
