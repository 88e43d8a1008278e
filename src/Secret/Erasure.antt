-- ===== src/Secret/Erasure.antt =====
-- A closed handle holds no key.
use amit_ai.Common.{
  ◌==◌, if◌then◌else◌, Bool-cases, length, All, ℕ, suc, ◌≡◌, refl, ap, ◌∙◌, ◌⊎◌, inl, inr, Bool,
  true, false, not, ◌&&◌, List, [], ◌∷◌, arith,
}
use mathlib.Core.Path.{subst}
use amit_ai.Secret.{
  fresh, erased, memset_zero, SecretHandle, handle_closed, Construction, made, refused, close,
  construct, refused_read, copy_bytes, temporary_hex, Call, copy, as_hex, enter, exit, close_it,
  delete, step, run,
}

abbrev pub IsZeros : List ℕ → Type 0
IsZeros = All (λ b. b ≡ 0)

-- closed, with 32 zeros in the place of the key
abbrev pub IsErased : SecretHandle → Type 0
IsErased h = (h.is_closed ≡ true) × (length h.buffer ≡ 32) × IsZeros h.buffer

-- an open handle has 32 bytes, a closed one is erased
abbrev IsHandle : SecretHandle → Type 0
IsHandle h = ((h.is_closed ≡ false) × (length h.buffer ≡ 32)) ⊎ IsErased h

memset_zero-IsZeros : (bs : List ℕ) → IsZeros (memset_zero bs)
memset_zero-IsZeros [] = tt
memset_zero-IsZeros (b ∷ bs) = (refl, memset_zero-IsZeros bs)

length-memset_zero : (bs : List ℕ) → length (memset_zero bs) ≡ length bs
length-memset_zero [] = refl
length-memset_zero (b ∷ bs) = ap suc (length-memset_zero bs)

erased_if-IsErased :
    (b : Bool) (h : SecretHandle)
    → h.is_closed ≡ b
    → IsHandle h
    → IsErased (if b then h else erased h)
erased_if-IsErased true h e (inl (open_, size)) = ground arith
erased_if-IsErased true h e (inr all) = all
erased_if-IsErased false h e (inl (open_, size)) =
    (refl, length-memset_zero h.buffer ∙ size, memset_zero-IsZeros h.buffer)
erased_if-IsErased false h e (inr (closed, size, zeros)) = ground arith

close-IsErased : (h : SecretHandle) → IsHandle h → IsErased (close h)
unfolding close
close-IsErased h e = erased_if-IsErased h.is_closed h refl e

step-IsErased : (c : Call) (h : SecretHandle) → IsErased h → IsErased (step c h)
unfolding step
step-IsErased copy h e = e
step-IsErased as_hex h e = e
step-IsErased enter h e = e
step-IsErased exit h e = close-IsErased h (inr e)
step-IsErased close_it h e = close-IsErased h (inr e)
step-IsErased delete h e = close-IsErased h (inr e)

step-IsHandle : (c : Call) (h : SecretHandle) → IsHandle h → IsHandle (step c h)
unfolding step
step-IsHandle copy h e = e
step-IsHandle as_hex h e = e
step-IsHandle enter h e = e
step-IsHandle exit h e = inr (close-IsErased h e)
step-IsHandle close_it h e = inr (close-IsErased h e)
step-IsHandle delete h e = inr (close-IsErased h e)

run-IsErased : (calls : List Call) (h : SecretHandle) → IsErased h → IsErased (run calls h)
unfolding run
run-IsErased [] h e = e
run-IsErased (c ∷ calls) h e = run-IsErased calls (step c h) (step-IsErased c h e)

run-IsHandle : (calls : List Call) (h : SecretHandle) → IsHandle h → IsHandle (run calls h)
unfolding run
run-IsHandle [] h e = e
run-IsHandle (c ∷ calls) h e = run-IsHandle calls (step c h) (step-IsHandle c h e)

unfoldable handle_of : Construction → SecretHandle
handle_of (made h) = h
handle_of (refused error h) = fresh false []

made_fresh :
    (lock require_lock : Bool) (secret : List ℕ) (h : SecretHandle)
    → construct lock require_lock secret ≡ made h
    → (length secret ≡ 32) × (made (fresh lock secret) ≡ made h)
unfolding construct
made_fresh lock require_lock secret h e = elim (Bool-cases (length secret == 32)) [
  | inr other ↦ ground arith
  | inl size ↦ elim (Bool-cases (require_lock && not lock)) [
    | inl unlocked ↦ ground arith
    | inr fine ↦ (ground arith, ground arith)
  ]
]

made_with :
    (lock require_lock : Bool) (secret : List ℕ) (h : SecretHandle)
    → construct lock require_lock secret ≡ made h
    → IsHandle h
unfolding handle_of
made_with lock require_lock secret h e =
    let (size, same) = made_fresh lock require_lock secret h e in
    subst IsHandle (ap handle_of same) (inl (refl, size))

erased_refuses :
    (high low : ℕ → ℕ) (h : SecretHandle)
    → IsErased h
    → (copy_bytes h ≡ refused_read handle_closed)
      × (temporary_hex high low h ≡ refused_read handle_closed)
unfolding copy_bytes temporary_hex
erased_refuses high low h (closed, size, zeros) = (rw closed refl, rw closed refl)

-- Once a handle that was made is closed, after whatever calls, it stays so under all further calls:
-- its 32 bytes are zero, and no method gives them out.
pub closed-IsErased :
    (lock require_lock : Bool) (secret : List ℕ) (h : SecretHandle) (before after : List Call)
    (high low : ℕ → ℕ)
    → construct lock require_lock secret ≡ made h
    → let last = run after (close (run before h)) in
      IsErased last
      × (copy_bytes last ≡ refused_read handle_closed)
      × (temporary_hex high low last ≡ refused_read handle_closed)
closed-IsErased lock require_lock secret h before after high low e =
    let last_erased = run-IsErased after (close (run before h)) (
      close-IsErased (run before h)
        (run-IsHandle before h (made_with lock require_lock secret h e))) in
    let (copies, hexes) = erased_refuses high low (run after (close (run before h))) last_erased in
    (last_erased, copies, hexes)
