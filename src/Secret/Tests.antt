-- ===== src/Secret/Tests.antt =====
-- The theorems on secrets at a key.
use amit_ai.Common.{ℕ, ◌≡◌, refl, true, false, List, [], ◌∷◌}
use amit_ai.Secret.{
  SecretHandle, construct, close, copy_bytes, temporary_hex, refused_read, handle_closed, copy,
  exit, enter, run,
}
use amit_ai.Secret.Erasure.{IsErased, closed-IsErased}

abbrev key : List ℕ
key =
    7 ∷ 7 ∷ 7 ∷ 7 ∷ 7 ∷ 7 ∷ 7 ∷ 7 ∷ 7 ∷ 7 ∷ 7 ∷ 7 ∷ 7 ∷ 7 ∷ 7 ∷ 7 ∷ 7 ∷ 7 ∷ 7 ∷ 7 ∷ 7 ∷ 7 ∷ 7 ∷ 7
    ∷ 7 ∷ 7 ∷ 7 ∷ 7 ∷ 7 ∷ 7 ∷ 7 ∷ 7 ∷ []

abbrev handle : SecretHandle
handle = record { buffer = key; locked = true; is_closed = false }

closed-IsErased_example :
    let last = run (exit ∷ []) (close (run (enter ∷ copy ∷ []) handle)) in
    IsErased last
    × (copy_bytes last ≡ refused_read handle_closed)
    × (temporary_hex (λ b. 0) (λ b. b) last ≡ refused_read handle_closed)
unfolding construct
closed-IsErased_example =
    closed-IsErased true true key handle (enter ∷ copy ∷ []) (exit ∷ []) (λ b. 0) (λ b. b) refl
