-- ===== src/Chat/Prompt/Privacy.antt =====
-- backend/chat_service.py, runtime/context.py: what a remote provider is sent of a prompt.
use mathlib.Core.Path.{subst}
use amit_ai.Common.{
  if◌then◌else◌, is_some, is_nil, keep, ◌≡◌, refl, sym, ap, ◌∙◌, ◌≢◌, ◌⊎◌, inl, inr, Bool, true,
  false, not, ◌&&◌, Option, none, some, List, [], ◌∷◌, ◌++◌,
}
use amit_ai.Common.Texts.{Text}
use amit_ai.Memory.Types.{MemoryRecord}
use amit_ai.Context.{
  Role, user, assistant, system, tool, Projection, Message, is_user, is_system, is_trusted, remote,
  compile_model_context,
}
use amit_ai.Context.Privacy.{SameRemotely, AllSameRemotely, remote_noninterference}
use amit_ai.Chat.Rows
use amit_ai.Chat.Prompt.{
  Decision, is_remote, command_frame, command_projection, history_projection, was_command,
  history_context, remote_frame, memory_frame, command_frames, generation_messages,
}

-- a command of the user, or the answer to one
abbrev pub is_hidden : Role → (is_command previous_was_command : Bool) → Bool
is_hidden user is_command previous = is_command
is_hidden assistant is_command previous = previous
is_hidden system is_command previous = false
is_hidden tool is_command previous = false

module _ (is_command : Text → Bool) where
  -- rows that differ at most in the text of a command and of its answer
  abbrev pub SameRow : Bool → Rows.Message → Rows.Message → Type 0
  SameRow previous m m' =
      (m.role ≡ m'.role)
      × ((m.content ≡ m'.content)
          ⊎ (is_hidden m.role (is_command m.content) previous ≡ true)
            × (is_hidden m'.role (is_command m'.content) previous ≡ true))

  abbrev pub SameHistory : Bool → List Rows.Message → List Rows.Message → Type 0
  SameHistory previous [] [] = Unit
  SameHistory previous [] (_ ∷ _) = ⊥
  SameHistory previous (_ ∷ _) [] = ⊥
  SameHistory previous (m ∷ ms) (m' ∷ ms') =
      SameRow previous m m' × SameHistory (was_command m.role (is_command m.content)) ms ms'

hidden_text : Role → Option Projection
hidden_text r = history_projection r true true

hidden-projection :
    (r : Role) (c p : Bool) → is_hidden r c p ≡ true → history_projection r c p ≡ hidden_text r
unfolding hidden_text
hidden-projection user true p h = refl
hidden-projection user false p h = cc
hidden-projection assistant c true h = refl
hidden-projection assistant c false h = cc
hidden-projection system c p h = cc
hidden-projection tool c p h = cc

hidden-was_command : (r : Role) (c p : Bool) → is_hidden r c p ≡ true → was_command r c ≡ is_user r
hidden-was_command user true p h = refl
hidden-was_command user false p h = cc
hidden-was_command assistant c p h = refl
hidden-was_command system c p h = cc
hidden-was_command tool c p h = cc

hidden-is_system : (r : Role) (c p : Bool) → is_hidden r c p ≡ true → is_system r ≡ false
hidden-is_system user c p h = refl
hidden-is_system assistant c p h = refl
hidden-is_system system c p h = sym h
hidden-is_system tool c p h = refl

is_there :
    (r : Role) (c p : Bool) → is_hidden r c p ≡ true → is_some (history_projection r c p) ≡ true
is_there user true p h = refl
is_there user false p h = cc
is_there assistant c true h = refl
is_there assistant c false h = cc
is_there system c p h = cc
is_there tool c p h = cc

-- what holds where a test does
abbrev When : Bool → Type 0
When true = Unit
When false = ⊥

true≢false : true ≢ false
true≢false e = subst When e tt

untrusted : (m : Message) → is_system m.role ≡ false → is_trusted m ≡ false
unfolding is_trusted
untrusted m h = rw h refl

module _ (is_command : Text → Bool) (previous : Bool) where
  abbrev framed : Rows.Message → Message
  framed m = record {
    role = m.role;
    content = m.content;
    remote_projection = history_projection m.role (is_command m.content) previous;
  }

  row-SameRemotely :
      (m m' : Rows.Message)
      → SameRow is_command previous m m'
      → SameRemotely (framed m) (framed m')
        × (was_command m.role (is_command m.content) ≡ was_command m'.role (is_command m'.content))
  unfolding is_trusted
  row-SameRemotely m m' (role, inl content) = ((role, cc, cc, λ _. content), cc)
  row-SameRemotely m m' (role, inr (h, h')) =
      let shown = hidden-projection m.role (is_command m.content) previous h in
      let shown' = hidden-projection m'.role (is_command m'.content) previous h' in
      let there = is_there m.role (is_command m.content) previous h in
      let next = hidden-was_command m.role (is_command m.content) previous h in
      let next' = hidden-was_command m'.role (is_command m'.content) previous h' in
      let plain =
        untrusted (framed m) (hidden-is_system m.role (is_command m.content) previous h) in
      let plain' =
        untrusted (framed m') (hidden-is_system m'.role (is_command m'.content) previous h') in
      (
        (
          role,
          plain ∙ sym plain',
          shown ∙ ap hidden_text role ∙ sym shown',
          λ absent. elim (true≢false (sym there ∙ ap is_some absent)) [ ],
        ),
        next ∙ ap is_user role ∙ sym next',
      )

AllSameRemotely-append :
    (ms ms' ns ns' : List Message)
    → AllSameRemotely ms ms'
    → AllSameRemotely ns ns'
    → AllSameRemotely (ms ++ ns) (ms' ++ ns')
AllSameRemotely-append [] [] ns ns' h k = k
AllSameRemotely-append [] (_ ∷ _) ns ns' h k = elim h [ ]
AllSameRemotely-append (_ ∷ _) [] ns ns' h k = elim h [ ]
AllSameRemotely-append (m ∷ ms) (m' ∷ ms') ns ns' (s, h) k =
    (s, AllSameRemotely-append ms ms' ns ns' h k)

module _ (is_command : Text → Bool) where
  history-same :
      (previous : Bool) (ms ms' : List Rows.Message)
      → SameHistory is_command previous ms ms'
      → AllSameRemotely
          (history_context is_command previous ms)
          (history_context is_command previous ms')
  unfolding history_context
  history-same previous [] [] h = tt
  history-same previous [] (_ ∷ _) h = elim h [ ]
  history-same previous (_ ∷ _) [] h = elim h [ ]
  history-same previous (m ∷ ms) (m' ∷ ms') (s, h) =
      let (same, next) = row-SameRemotely is_command previous m m' s in
      (
        same,
        subst
            (λ b.
              AllSameRemotely
                (history_context is_command (was_command m.role (is_command m.content)) ms)
                (history_context is_command b ms'))
            next (history-same (was_command m.role (is_command m.content)) ms ms' h),
      )

-- the records that a remote provider may see
abbrev pub allowed : Bool → List MemoryRecord → List MemoryRecord
allowed intent rs = keep (λ r. is_remote r && not intent) rs

module _ (dumps : List MemoryRecord → Text) (intent : Bool) where
  memory-same :
      (rs rs' : List MemoryRecord)
      → is_nil rs ≡ is_nil rs'
      → allowed intent rs ≡ allowed intent rs'
      → AllSameRemotely (memory_frame dumps intent rs) (memory_frame dumps intent rs')
  unfolding memory_frame is_trusted
  memory-same [] [] n e = tt
  memory-same [] (_ ∷ _) n e = elim (true≢false n) [ ]
  memory-same (_ ∷ _) [] n e = elim (true≢false (sym n)) [ ]
  memory-same (r ∷ rs) (r' ∷ rs') n e = (
    (
      refl,
      refl,
      ap (λ x. some (record { content = remote_frame dumps x })) e,
      λ absent. elim (true≢false (ap is_some absent)) [ ],
    ),
    tt,
  )

abbrev status : Text → Message
status text = record {
  role = system;
  content = text;
  remote_projection = some (record { content = none });
}

status-same :
    (b : Bool) (d d' : Decision)
    → AllSameRemotely
        (if b then status (command_frame d) ∷ [] else [])
        (if b then status (command_frame d') ∷ [] else [])
unfolding is_trusted
status-same true d d' =
    ((refl, refl, refl, λ absent. elim (true≢false (ap is_some absent)) [ ]), tt)
status-same false d d' = tt

commands-same :
    (d d' : Decision)
    → d.intent_detected ≡ d'.intent_detected
    → AllSameRemotely (command_frames d) (command_frames d')
commands-same d d' e =
    subst
      (λ b. AllSameRemotely (command_frames d) (if b then status (command_frame d') ∷ [] else [])) e
      (status-same d.intent_detected d d')

unprojected :
    (intent : Bool) (operation : Option Text)
    → command_projection intent operation ≡ none
    → intent ≡ false
unfolding command_projection
unprojected false operation e = refl
unprojected true none e = elim (true≢false (ap is_some e)) [ ]
unprojected true (some operation) e = elim (true≢false (ap is_some e)) [ ]

-- Two turns that differ only in what a remote provider may not learn: the records that are not
-- allowed, the text of commands in the history and of their answers, and the text of a message that
-- is a command.
pub record SameTurn (is_command : Text → Bool) (d d' : Decision) (rs rs' : List MemoryRecord)
    (history history' : List Rows.Message) (message message' : Text) : Type 0 where
  pub intent : d.intent_detected ≡ d'.intent_detected
  pub operation : d.operation ≡ d'.operation
  pub retrieved : is_nil rs ≡ is_nil rs'
  pub allowed_records : allowed d.intent_detected rs ≡ allowed d.intent_detected rs'
  pub rows : SameHistory is_command false history history'
  pub request : d.intent_detected ≡ false → message ≡ message'

-- Two turns that both retrieve memory or both do not, with the same kind of command or none, and
-- whose prompts differ only in memory records that are not allowed remotely, in the text of
-- commands in the history and of the answers to them, and in the text of a message that is a
-- command, compile to the same context for a remote provider.
pub prompt_noninterference :
    (dumps : List MemoryRecord → Text) (is_command : Text → Bool) (prompt tools : Text)
    (d d' : Decision) (rs rs' : List MemoryRecord) (history history' : List Rows.Message)
    (message message' : Text)
    → SameTurn is_command d d' rs rs' history history' message message'
    → compile_model_context prompt tools remote
        (generation_messages dumps is_command d rs history message)
      ≡ compile_model_context prompt tools remote
          (generation_messages dumps is_command d' rs' history' message')
unfolding generation_messages is_trusted
prompt_noninterference dumps is_command prompt tools d d' rs rs' history history' message message'
      h =
    remote_noninterference prompt tools (generation_messages dumps is_command d rs history message)
      (generation_messages dumps is_command d' rs' history' message')
      (AllSameRemotely-append (memory_frame dumps d.intent_detected rs)
        (memory_frame dumps d'.intent_detected rs') _ _
        (subst
          (λ b.
            AllSameRemotely (memory_frame dumps d.intent_detected rs) (memory_frame dumps b rs'))
          h.intent (memory-same dumps d.intent_detected rs rs' h.retrieved h.allowed_records))
        (AllSameRemotely-append (command_frames d) (command_frames d') _ _
          (commands-same d d' h.intent)
          (AllSameRemotely-append (history_context is_command false history)
            (history_context is_command false history') _ _
            (history-same is_command false history history' h.rows)
            (
              (
                refl,
                refl,
                ap (λ b. command_projection b d.operation) h.intent
                    ∙ ap (command_projection d'.intent_detected) h.operation,
                λ absent. h.request (unprojected d.intent_detected d.operation absent),
              ),
              tt,
            ))))
