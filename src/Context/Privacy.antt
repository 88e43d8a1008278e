-- ===== src/Context/Privacy.antt =====
-- Under remote execution the content that a projection hides has no influence on what is compiled.
use amit_ai.Common.{
  Bool-cases, Option-cases, ℕ, ◌+◌, ◌≡◌, refl, sym, ap, ◌∙◌, inl, inr, Bool, Option, none, some,
  List, [], ◌∷◌, arith,
}
use amit_ai.Common.Texts.{Text}
use amit_ai.Context.{
  compile_split, Role, is_user, is_turn, Message, remote, Sent, project_one, project, is_trusted,
  split_last, split_trusted, projected_history, last_position, assemble, compile_model_context,
}

-- Two messages that a remote provider may not tell apart: the same role, the same frame kind, the
-- same remote projection. Their local contents may differ where a projection stands for them.
abbrev pub SameRemotely : Message → Message → Type 0
SameRemotely m m' =
    (m.role ≡ m'.role)
    × (is_trusted m ≡ is_trusted m')
    × (m.remote_projection ≡ m'.remote_projection)
    × (m.remote_projection ≡ none → m.content ≡ m'.content)

abbrev pub AllSameRemotely : List Message → List Message → Type 0
AllSameRemotely [] [] = Unit
AllSameRemotely [] (_ ∷ _) = ⊥
AllSameRemotely (_ ∷ _) [] = ⊥
AllSameRemotely (m ∷ ms) (m' ∷ ms') = SameRemotely m m' × AllSameRemotely ms ms'

project_one-same :
    (m m' : Message) → SameRemotely m m' → project_one remote m ≡ project_one remote m'
unfolding project_one
project_one-same m m' (r, t, p, c) = elim (Option-cases m.remote_projection) [
  | inl none_here ↦ rw (none_here, sym p ∙ none_here, r, c none_here) refl
  | inr (q, q_here) ↦
      rw (q_here, sym p ∙ q_here)
        (elim (Option-cases q.content) [
          | inl no_text ↦ rw no_text refl
          | inr (text, has_text) ↦ rw (has_text, r) refl
        ])
]

project-same :
    (ms ms' : List Message) → AllSameRemotely ms ms' → project remote ms ≡ project remote ms'
unfolding project
project-same [] [] h = refl
project-same [] (_ ∷ _) h = absurd h
project-same (_ ∷ _) [] h = absurd h
project-same (m ∷ ms) (m' ∷ ms') (s, h) =
    ground (arith, project_one-same m m' s, project-same ms ms' h)

projected_history-same :
    (i : ℕ) (ms ms' : List Message)
    → AllSameRemotely ms ms'
    → projected_history remote i ms ≡ projected_history remote i ms'
unfolding projected_history
projected_history-same i [] [] h = refl
projected_history-same i [] (_ ∷ _) h = absurd h
projected_history-same i (_ ∷ _) [] h = absurd h
projected_history-same i (m ∷ ms) (m' ∷ ms') (s, h) =
    ground (arith, project_one-same m m' s, projected_history-same (i + 1) ms ms' h)

last_position-same :
    (q : Role → Bool) (i : ℕ) (ms ms' : List Message)
    → AllSameRemotely ms ms'
    → last_position q i ms ≡ last_position q i ms'
last_position-same q i [] [] h = refl
last_position-same q i [] (_ ∷ _) h = absurd h
last_position-same q i (_ ∷ _) [] h = absurd h
last_position-same q i (m ∷ ms) (m' ∷ ms') (s, h) =
    ground (arith, ap q s.0, last_position-same q (i + 1) ms ms' h)

split_trusted-same :
    (ms ms' : List Message)
    → AllSameRemotely ms ms'
    → AllSameRemotely (split_trusted ms).0 (split_trusted ms').0
      × AllSameRemotely (split_trusted ms).1 (split_trusted ms').1
unfolding split_trusted
split_trusted-same [] [] h = (tt, tt)
split_trusted-same [] (_ ∷ _) h = absurd h
split_trusted-same (_ ∷ _) [] h = absurd h
split_trusted-same (m ∷ ms) (m' ∷ ms') (s, h) = elim (Bool-cases (is_trusted m')) [
  | inl trusted ↦
      rw (s.1, trusted) ((s, (split_trusted-same ms ms' h).0), (split_trusted-same ms ms' h).1)
  | inr not_trusted ↦ rw (s.1, not_trusted) (tt, (s, h))
]

assemble-same :
    (prompt tools : Text) (ms ms' : List Message) (s : Sent)
    → AllSameRemotely ms ms'
    → assemble prompt tools remote ms s ≡ assemble prompt tools remote ms' s
unfolding assemble
assemble-same prompt tools ms ms' s h =
    let (frames, history) = split_trusted-same ms ms' h in
    rw (
      project-same _ _ frames,
      projected_history-same 0 _ _ history,
      last_position-same is_turn 0 _ _ history,
      last_position-same is_user 0 _ _ history,
    )

abbrev SameSplit : Option (List Message × Message) → Option (List Message × Message) → Type 0
SameSplit none none = Unit
SameSplit (some (front, last)) (some (front', last')) =
    AllSameRemotely front front' × SameRemotely last last'
SameSplit _ _ = ⊥

-- the splits of two indistinguishable conversations
split_last-same :
    (ms ms' : List Message) → AllSameRemotely ms ms' → SameSplit (split_last ms) (split_last ms')
unfolding split_last
split_last-same [] [] h = tt
split_last-same [] (_ ∷ _) h = absurd h
split_last-same (_ ∷ _) [] h = absurd h
split_last-same (m ∷ ms) (m' ∷ ms') (s, h) =
    go (split_last ms) (split_last ms') (split_last-same ms ms' h)
  where
    go :
        (o o' : Option (List Message × Message))
        → SameSplit o o'
        → SameSplit
            (elim o [ none ↦ some ([], m) | some (front, last) ↦ some (m ∷ front, last) ])
            (elim o' [ none ↦ some ([], m') | some (front, last) ↦ some (m' ∷ front, last) ])
    go none none k = (tt, s)
    go none (some _) k = absurd k
    go (some _) none k = absurd k
    go (some (front, last)) (some (front', last')) (k, l) = ((s, k), l)

compile_split-same :
    (prompt tools : Text) (o o' : Option (List Message × Message))
    → SameSplit o o'
    → compile_split prompt tools remote o ≡ compile_split prompt tools remote o'
unfolding compile_split
compile_split-same prompt tools none none h = refl
compile_split-same prompt tools none (some _) h = absurd h
compile_split-same prompt tools (some _) none h = absurd h
compile_split-same prompt tools (some (front, last)) (some (front', last')) (h, s) =
    elim (Option-cases (project_one remote last')) [
      | inl e ↦ ground (arith, ap is_user s.0, project_one-same last last' s)
      | inr (sent, e) ↦ ground (
        arith,
        ap is_user s.0,
        project_one-same last last' s,
        assemble-same prompt tools front front' sent h,
      )
    ]

-- Two conversations that agree, message by message, in role, in frame kind, in remote projection
-- and, where there is no projection, in content,
-- compile to the same context for a remote provider: local content behind a projection, or of a
-- message that is omitted remotely, has no influence on what is sent or reported.
pub remote_noninterference :
    (prompt tools : Text) (ms ms' : List Message)
    → AllSameRemotely ms ms'
    → compile_model_context prompt tools remote ms ≡ compile_model_context prompt tools remote ms'
unfolding compile_model_context
remote_noninterference prompt tools ms ms' h =
    compile_split-same prompt tools (split_last ms) (split_last ms') (split_last-same ms ms' h)
