-- ===== src/Secret.antt =====
-- backend/secure_memory.py: `SecretHandle`, the owner of a key of 32 bytes. Whether the operating
-- system locked the memory is a parameter.
pub mod Erasure
mod Tests
use amit_ai.Common.{
  ltb, leb, ◌==◌, if◌then◌else◌, ==_iff, Bool-cases, Option-cases, is_some, is_nil, length, take,
  drop, any, keep, find, count, All, length-append, length-keep-le, count-append, All-append,
  All-weaken, ℕ, zero, suc, ◌+◌, ◌-◌, ◌*◌, ◌≤◌, ◌<◌, min, String, ◌≡◌, refl, sym, ap, ◌∙◌, fun_ext,
  ◌≢◌, ◌↔◌, ◌⊎◌, inl, inr, Bool, true, false, not, ◌&&◌, ◌||◌, Option, none, some, List, [], ◌∷◌,
  ◌++◌, map, reverse, append-nil, append_assoc, reverse-append, reverse-reverse, arith, ℕ_discrete,
  str_eq, str_eq_iff,
}
use amit_ai.Common.Texts.{
  Text, codes, is_space, eqb, starts_with, lstrip, rstrip, strip, is_empty, eqb→eq, eqb_refl, split,
  join, contains, is_member,
}

-- `SecretHandle`, by its attributes; bytes are numbers
pub record SecretHandle : Type 0 where
  pub buffer : List ℕ
  pub locked : Bool
  pub is_closed : Bool

pub data SecureMemoryError : Type 0 where
  wrong_length not_locked handle_closed : SecureMemoryError

-- what `SecretHandle(...)` does; a handle that could not be locked is closed first
pub data Construction : Type 0 where
  made : SecretHandle → Construction
  refused : SecureMemoryError → Option SecretHandle → Construction

-- `ctypes.memset(self._address, 0, len(self._buffer))`
abbrev pub memset_zero : List ℕ → List ℕ
memset_zero [] = []
memset_zero (_ ∷ bytes) = 0 ∷ memset_zero bytes

abbrev pub erased : SecretHandle → SecretHandle
erased h = record { buffer = memset_zero h.buffer; locked = false; is_closed = true }

-- `close`: `memset`, then `_unlock_memory`
unfoldable pub close : SecretHandle → SecretHandle
close h = if h.is_closed then h else erased h

abbrev pub fresh : Bool → List ℕ → SecretHandle
fresh lock secret = record { buffer = secret; locked = lock; is_closed = false }

-- `__init__`, where `lock` is what `_lock_memory` returns
unfoldable pub construct : Bool → Bool → List ℕ → Construction
unfolding close
construct lock require_lock secret =
    let h = fresh lock secret in
    if not (length secret == 32)
    then refused wrong_length none
    else if require_lock && not lock
    then refused not_locked (some (close h))
    else made h

-- what a method that reads the key returns, or the error of `_ensure_open`
pub data Read : Type 0 where
  read : List ℕ → Read
  refused_read : SecureMemoryError → Read

unfoldable pub copy_bytes : SecretHandle → Read
copy_bytes h = if h.is_closed then refused_read handle_closed else read h.buffer

-- the digits of `bytes.hex`
abbrev pub digit : ℕ → ℕ
digit n = if ltb n 10 then b'0' + n else b'a' + (n - 10)

abbrev pub hex : (high low : ℕ → ℕ) → List ℕ → Text
hex high low [] = []
hex high low (b ∷ bs) = digit (high b) ∷ digit (low b) ∷ hex high low bs

-- the value that `temporary_hex` yields, given the two halves of a byte
unfoldable pub temporary_hex : (high low : ℕ → ℕ) → SecretHandle → Read
temporary_hex high low h =
    if h.is_closed then refused_read handle_closed else read (hex high low h.buffer)

-- what a holder may call: only `close`, `__exit__` and `__del__` change the handle
pub data Call : Type 0 where
  copy as_hex enter exit close_it delete : Call

unfoldable pub step : Call → SecretHandle → SecretHandle
unfolding close
step copy h = h
step as_hex h = h
step enter h = h
step exit h = close h
step close_it h = close h
step delete h = close h

unfoldable pub run : List Call → SecretHandle → SecretHandle
unfolding step
run [] h = h
run (c ∷ calls) h = run calls (step c h)
