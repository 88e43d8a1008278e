-- ===== src/Chat/Rows.antt =====
-- backend/repositories.py: `ConversationRepository` and `MessageRepository`, as far as a chat uses
-- them, on the rows of backend/models.py. An id is a number in the order of the ids.
use amit_ai.Common.{
  any, ltb, leb, ◌==◌, if◌then◌else◌, keep, find, ℕ, Bool, ◌&&◌, ◌||◌, Option, List, [], ◌∷◌, ◌++◌,
  map,
}
use amit_ai.Common.Texts.{Text, strip, is_empty}
use amit_ai.Memory.Types.{Db, Reference, refs, MemoryError}
use amit_ai.Context.{Role}

-- `Conversation`, less `archived`, which a chat neither reads nor writes
pub record Conversation : Type 0 where
  pub id : ℕ
  pub title : Text
  pub created_at : ℕ
  pub updated_at : ℕ

-- `Message`
pub record Message : Type 0 where
  pub id : ℕ
  pub conversation_id : ℕ
  pub role : Role
  pub content : Text
  pub created_at : ℕ

-- the tables that a chat reads and writes; the references of the messages' metadata stand in `memory`
pub record Store : Type 0 where
  pub conversations : List Conversation
  pub messages : List Message
  pub memory : Db

-- what a transaction raises, which is then rolled back
pub data ChatError : Type 0 where
  conversation_not_found empty_content asset_failed : ChatError
  -- the `IntegrityError` of a flush whose row has an id that is taken, the PRIMARY KEY of its table
  id_taken : ChatError
  memory_failed : MemoryError → ChatError

pub data Saved {ℓ} (A : Type ℓ) : Type ℓ where
  saved : A → Saved A
  refused : ChatError → Saved A

infixl 5 ◌>>=◌
abbrev pub ◌>>=◌ {ℓ κ} : {A : Type ℓ} {B : Type κ} → Saved A → (A → Saved B) → Saved B
call >>= rest = elim call [ refused e ↦ refused e | saved a ↦ rest a ]

-- `ConversationRepository.get_fresh`
abbrev pub get_fresh : ℕ → Store → Option Conversation
get_fresh id s = find (λ c. c.id == id) s.conversations

-- `ConversationRepository.create`
unfoldable pub create_conversation : (id : ℕ) (title : Text) (now : ℕ) → Store → Saved Store
create_conversation id title now s =
    if any (λ c. c.id == id) s.conversations
    then refused id_taken
    else saved (record s {
      conversations =
          s.conversations
          ++ (record { id = id; title = title; created_at = now; updated_at = now } ∷ []);
    })

-- `ConversationRepository.touch`
unfoldable pub touch : ℕ → ℕ → Store → Store
touch id now s = record s {
  conversations =
      map (λ c. if c.id == id then record c { updated_at = now } else c) s.conversations;
}

-- whether a message has the id
abbrev pub has_message : ℕ → List Message → Bool
has_message id = any (λ m. m.id == id)

-- `MessageRepository.create`, of a role that is valid
unfoldable pub create_message : Message → Store → Saved Store
unfolding strip
create_message m s =
    if is_empty (strip m.content)
    then refused empty_content
    else if has_message m.id s.messages
    then refused id_taken
    else saved (record s { messages = s.messages ++ (m ∷ []) })

-- the order of `list_for_conversation`
abbrev pub stands_before : Message → Message → Bool
stands_before m n = ltb m.created_at n.created_at || m.created_at == n.created_at && leb m.id n.id

unfoldable pub insert : Message → List Message → List Message
insert m [] = m ∷ []
insert m (n ∷ ms) = let rest = insert m ms in if stands_before m n then m ∷ n ∷ ms else n ∷ rest

unfoldable pub sort : List Message → List Message
unfolding insert
sort [] = []
sort (m ∷ ms) = insert m (sort ms)

-- `MessageRepository.list_for_conversation`
unfoldable pub list_for_conversation : ℕ → Store → List Message
unfolding sort
list_for_conversation id s = sort (keep (λ m. m.conversation_id == id) s.messages)

-- `MessageRepository.add_metadata`, of the references; its key is the id of a message that was just
-- created, so no row has it
unfoldable pub add_metadata : List Reference → Store → Store
add_metadata references s = record s {
  memory = record s.memory { metadata = s.memory.metadata ++ (refs references ∷ []) };
}
