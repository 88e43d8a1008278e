-- ===== src/Context/Tests.antt =====
-- Runs of the context compiler, and its theorems at a small conversation.
use amit_ai.Common.{
  arith, length, All, ◌≤◌, ◌≡◌, refl, true, false, none, some, List, [], ◌∷◌, ◌++◌,
}
use amit_ai.Common.Texts.{Text, codes}
use amit_ai.Context.{
  is_trusted, assemble, project_one, is_assistant, user, assistant, system, Message, Sent, remote,
  local, select_recent_history, compile_model_context, compiled, refused, no_current_user,
  current_user_omitted, max_history_messages, max_history_context_chars, Role,
}
use amit_ai.Context.Bounds.{select_recent_history_bounds, total_chars, StartsTurn}
use amit_ai.Context.Privacy.{remote_noninterference}

abbrev said : Role → Text → Message
said r t = record { role = r; content = t; remote_projection = none }

abbrev hidden : Text → Message
hidden t = record { role = user; content = t; remote_projection = some (record { content = none }) }

abbrev memory_frame : Text → Message
memory_frame t = record {
  role = system;
  content = codes "MEMORY_CONTEXT_V1" ++ 10 ∷ t;
  remote_projection = some (record { content = some (codes "MEMORY_CONTEXT_V1") });
}

abbrev talk : Text → List Message
talk secret =
    memory_frame secret
    ∷ hidden secret
    ∷ said assistant (codes "noted")
    ∷ said user (codes "hi")
    ∷ said assistant (codes "hello")
    ∷ said user (codes "bye")
    ∷ []

abbrev sent : Role → Text → Sent
sent r t = record { role = r; content = t }

-- the assistant's answer to the hidden turn is dropped with it, and no truncation is reported
talk_remotely :
    compile_model_context [] [] remote (talk (codes "my pin"))
    ≡ compiled (record {
      messages =
          sent system (10 ∷ 10 ∷ [])
          ∷ sent system (codes "MEMORY_CONTEXT_V1")
          ∷ sent user (codes "hi")
          ∷ sent assistant (codes "hello")
          ∷ sent user (codes "bye")
          ∷ [];
      history_truncated = false;
      retained_history_count = 2;
      retained_user_turn_count = 1;
      latest_prior_turn_retained = true;
      latest_prior_user_turn_retained = true;
      trusted_context_count = 1;
    })
unfolding compile_model_context project_one assemble is_trusted
talk_remotely = refl

nothing_current : compile_model_context [] [] local [] ≡ refused no_current_user
unfolding compile_model_context
nothing_current = refl

hidden_current : compile_model_context [] [] remote (hidden [] ∷ []) ≡ refused current_user_omitted
unfolding compile_model_context project_one
hidden_current = refl

remote_noninterference_example :
    compile_model_context [] [] remote (talk (codes "my pin"))
    ≡ compile_model_context [] [] remote (talk (codes "my age"))
unfolding is_trusted
remote_noninterference_example =
    remote_noninterference [] [] (talk (codes "my pin")) (talk (codes "my age")) (
      (refl, refl, refl, λ e. ground arith),
      (
        (refl, refl, refl, λ e. ground arith),
        (
          (refl, refl, refl, λ e. refl),
          (
            (refl, refl, refl, λ e. refl),
            ((refl, refl, refl, λ e. refl), ((refl, refl, refl, λ e. refl), tt)),
          ),
        ),
      ),
    )

abbrev dialogue : List Sent
dialogue = sent assistant (codes "hello") ∷ sent user (codes "hi") ∷ []

select_recent_history_bounds_example :
    let (kept, truncated) = select_recent_history dialogue in
    (length kept ≤ max_history_messages)
    × (total_chars kept ≤ max_history_context_chars)
    × StartsTurn kept
    × ((front : List Sent) × (dialogue ≡ front ++ kept)
        × (truncated ≡ false → All (λ m. is_assistant m.role ≡ true) front))
select_recent_history_bounds_example = select_recent_history_bounds dialogue
