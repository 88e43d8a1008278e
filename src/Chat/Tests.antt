-- ===== src/Chat/Tests.antt =====
-- backend/chat_service.py: runs of a streamed chat, and the inputs at which its theorems are applied.
use amit_ai.Common.{◌≡◌, refl, Bool, true, false, none, some, List, [], ◌∷◌}
use amit_ai.Common.Texts.{Text, codes, is_space, lstrip, rstrip, strip, contains}
use amit_ai.Generator.Types.{Ran, ran}
use amit_ai.Chat.Types.{
  Prepared, start, text, final, done, emit, commit, acknowledgment, persist_timestamps,
}
use amit_ai.Common.{map, ℕ}
use amit_ai.Context.{Role, user, assistant}
use amit_ai.Chat.Types.{timestamp_after}
use amit_ai.Chat.Rows.{
  Conversation, Message, Store, Saved, saved, refused, id_taken, list_for_conversation, sort,
  insert,
}
use amit_ai.Chat.Persist.{Pending, Draws, user_time, persist_chat, user_message, assistant_message}
use amit_ai.Chat.Committing.{Commits, IsAppended, Continues, persist_chat-Commits}
use amit_ai.Common.{◌++◌, inr}
use amit_ai.Common.Texts.{starts_with}
use amit_ai.Memory.Types.{
  Operation, Category, SlotStatus, Sensitivity, local_only, remote_allowed, MemoryRecord,
}
use amit_ai.Context.{remote, compile_model_context}
use amit_ai.Context
use amit_ai.Chat.Prompt.{Decision, generation_messages}
use amit_ai.Chat.Prompt.Privacy.{prompt_noninterference}
use amit_ai.Chat.Stream.{
  ChatItem, delta, result, Signals, generation_of, stream_generation, stream_chat,
}
use amit_ai.Chat.Protocol.{Ends, stream_chat-Runs}
use amit_ai.Chat.Claims.{denial, acknowledgment-denies}

abbrev quiet : Signals
quiet = record { before = false; after_start = false; at_item = λ n. false; at_end = false }

abbrev saves_all : Text → Ran (Unit {0})
saves_all response = ran tt

abbrev question : Prepared
question = record {
  conversation_id = some 3;
  message = codes "hi";
  user_created_at = 100;
  staged_memory = none;
  has_assets = false;
  intent_detected = false;
  reason = none;
}

abbrev hello : Prepared → Ran (Bool × List ChatItem × Ran (Unit {0}))
hello p = ran (false, delta (codes "he") ∷ delta (codes "y") ∷ result (codes "hey") ∷ [], ran tt)

streamed_hello :
    (stream_chat quiet saves_all (ran tt) (ran question) (λ p. generation_of (hello p))).steps
    ≡ emit (start (some 3))
      ∷ emit (text (codes "he"))
      ∷ emit (text (codes "y"))
      ∷ commit (codes "hey")
      ∷ emit (final (codes "hey"))
      ∷ emit done
      ∷ []
unfolding stream_chat stream_generation strip rstrip lstrip is_space
streamed_hello = refl

stream_chat-Runs_example :
    Ends
      (ran tt)
      (stream_chat quiet saves_all (ran tt) (ran question) (λ p. generation_of (hello p)))
stream_chat-Runs_example = stream_chat-Runs quiet saves_all (ran tt) (ran question) hello

acknowledgment-denies_example : contains denial (acknowledgment question) ≡ true
acknowledgment-denies_example = acknowledgment-denies question

abbrev trip : Conversation
trip = record { id = 3; title = codes "Trip"; created_at = 50; updated_at = 99 }

abbrev row : ℕ → ℕ → Role → Text → ℕ → Message
row id conversation_id role content created_at = record {
  id = id;
  conversation_id = conversation_id;
  role = role;
  content = content;
  created_at = created_at;
}

-- rows out of order, and one of another conversation
abbrev store : Store
store = record {
  conversations = trip ∷ [];
  messages =
      row 2 3 assistant (codes "hello") 99
      ∷ row 9 4 user (codes "later") 500
      ∷ row 1 3 user (codes "hello?") 60
      ∷ [];
  memory = record { slots = []; revisions = []; metadata = [] };
}

abbrev turn : Pending
turn = record {
  turn = question;
  title = [];
  request_timestamp = 90;
  response = codes "hey";
  memory = [];
  retrieved_memory = [];
}

abbrev draws : Draws
draws = record {
  conversation_id = 5;
  user_id = 11;
  assistant_id = 10;
  assistant_now = 90;
  update_now = 90;
  memory_now = 90;
}

turn-Continues : Continues turn draws trip 90 true store
unfolding user_time timestamp_after list_for_conversation sort insert strip is_space
turn-Continues = record {
  continues = refl;
  found = refl;
  drawn = refl;
  asked = refl;
  answered = refl;
  attached_all = refl;
  new_user = refl;
  new_assistant = refl;
  distinct = refl;
}

persist_chat-Commits_example :
    Commits none
      (λ s'.
        IsAppended 3
          (user_message turn draws 3)
          (assistant_message turn draws 3)
          store.messages
          s'.messages)
      (persist_chat (λ r. []) true turn draws store)
persist_chat-Commits_example =
    persist_chat-Commits (λ r. []) turn draws trip 90 true store turn-Continues

-- the ids that a listing gives
abbrev ids : Saved Store → List ℕ
ids (refused e) = []
ids (saved s) = map (λ (m : Message). m.id) (list_for_conversation 3 s)

listed_after : ids (persist_chat (λ r. []) true turn draws store) ≡ 1 ∷ 2 ∷ 11 ∷ 10 ∷ []
unfolding persist_chat persist_timestamps timestamp_after list_for_conversation sort insert strip
    is_space
listed_after = refl

-- a drawn id that a message has refuses the chat
taken_id :
    persist_chat (λ r. []) true turn (record draws { assistant_id = 2 }) store ≡ refused id_taken
unfolding persist_chat persist_timestamps timestamp_after list_for_conversation sort insert strip
    is_space
taken_id = refl

abbrev no_command : Decision
no_command = record { intent_detected = false; operation = none; payload = [] }

abbrev remembered : ℕ → Sensitivity → Text → MemoryRecord
remembered id sensitivity value = record {
  id = id;
  operation = Operation.stored;
  category = Category.preference;
  key = codes "colour";
  status = SlotStatus.active;
  sensitivity = sensitivity;
  conversation = none;
  message = none;
  updated_at = 1;
  value = some value;
}

abbrev is_remember : Text → Bool
is_remember words = starts_with words (codes "remember")

abbrev prompt_of : Text → Text → List Context.Message
prompt_of secret value =
    generation_messages (λ rs. []) is_remember no_command
      (remembered 1 remote_allowed (codes "black") ∷ remembered 2 local_only value ∷ [])
      (row 1 3 user (codes "remember " ++ secret) 60 ∷ row 2 3 assistant secret 70 ∷ [])
      (codes "hi")

prompt_noninterference_example :
    compile_model_context [] [] remote (prompt_of (codes "my street") (codes "red"))
    ≡ compile_model_context [] [] remote (prompt_of (codes "my town") (codes "blue"))
prompt_noninterference_example =
    prompt_noninterference (λ rs. []) is_remember [] [] no_command no_command
      (remembered 1 remote_allowed (codes "black") ∷ remembered 2 local_only (codes "red") ∷ [])
      (remembered 1 remote_allowed (codes "black") ∷ remembered 2 local_only (codes "blue") ∷ [])
      (row 1 3 user (codes "remember my street") 60 ∷ row 2 3 assistant (codes "my street") 70 ∷ [])
      (row 1 3 user (codes "remember my town") 60 ∷ row 2 3 assistant (codes "my town") 70 ∷ [])
      (codes "hi") (codes "hi")
      (record {
        intent = refl;
        operation = refl;
        retrieved = refl;
        allowed_records = refl;
        rows = ((refl, inr (refl, refl)), ((refl, inr (refl, refl)), tt));
        request = λ _. refl;
      })
