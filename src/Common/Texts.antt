-- ===== src/Common/Texts.antt =====
-- Text as the list of its code points, with the methods of Python's `str` that the program calls.
use Prim.Native.Char.{code}
use Prim.Native.String.{String}
use Prim.Native.Nat.{ℕ}
use mathlib.Core.Path.{◌≡◌, refl}
use mathlib.Core.Bool.{Bool, true, false, ◌||◌, ◌&&◌}
use mathlib.Core.List.{List, [], ◌∷◌, ◌++◌, reverse}
use native.Mathlib.Omega.{arith}
use amit_ai.Common.Tests.{leb, ◌==◌, if◌then◌else◌}

abbrev pub Text : Type 0
Text = List ℕ

-- The code points of a literal.
abbrev pub codes : String → Text
codes String.[] = []
codes (String.◌∷◌ c s) = code c ∷ codes s

abbrev between : ℕ → ℕ → ℕ → Bool
between lo hi c = leb lo c && leb c hi

-- `str.isspace` of one character
unfoldable pub is_space : ℕ → Bool
is_space c =
    between 9 13 c
    || between 28 32 c
    || c == 0x85
    || c == 0xa0
    || c == 0x1680
    || between 0x2000 0x200a c
    || between 0x2028 0x2029 c
    || c == 0x202f
    || c == 0x205f
    || c == 0x3000

-- `text == other`
abbrev pub eqb : Text → Text → Bool
eqb [] [] = true
eqb [] (_ ∷ _) = false
eqb (_ ∷ _) [] = false
eqb (c ∷ s) (d ∷ t) = c == d && eqb s t

-- `text.startswith(start)`, the text first
abbrev pub starts_with : Text → Text → Bool
starts_with text [] = true
starts_with [] (_ ∷ _) = false
starts_with (c ∷ text) (d ∷ start) = c == d && starts_with text start

unfoldable pub lstrip : Text → Text
lstrip [] = []
lstrip (c ∷ text) = let rest = lstrip text in if is_space c then rest else c ∷ text

unfoldable pub rstrip : Text → Text
unfolding lstrip
rstrip text = reverse (lstrip (reverse text))

unfoldable pub strip : Text → Text
unfolding lstrip rstrip
strip text = rstrip (lstrip text)

-- `not text`
abbrev pub is_empty : Text → Bool
is_empty [] = true
is_empty (_ ∷ _) = false

pub eqb→eq : (s t : Text) → eqb s t ≡ true → s ≡ t
eqb→eq [] [] h = refl
eqb→eq [] (_ ∷ _) h = ground arith
eqb→eq (_ ∷ _) [] h = ground arith
eqb→eq (c ∷ s) (d ∷ t) h = ground (arith, eqb→eq s t)

pub eqb_refl : (s : Text) → eqb s s ≡ true
eqb_refl [] = refl
eqb_refl (c ∷ s) = ground (arith, eqb_refl s)

-- `text.split()` with the word that is being read, and `sep.join(words)`
unfoldable pub split_from : Text → Text → List Text
split_from word [] = if is_empty word then [] else word ∷ []
split_from word (c ∷ text) =
    let more = split_from (word ++ c ∷ []) text in
    let next = split_from [] text in
    if is_space c then (if is_empty word then next else word ∷ next) else more

unfoldable pub split : Text → List Text
unfolding split_from
split text = split_from [] text

unfoldable pub join : Text → List Text → Text
join sep [] = []
join sep (w ∷ []) = w
join sep (w ∷ v ∷ ws) = w ++ sep ++ join sep (v ∷ ws)

-- `part in text`
unfoldable pub contains : Text → Text → Bool
contains part [] = is_empty part
contains part (c ∷ text) = starts_with (c ∷ text) part || contains part text

-- `text in words`
abbrev pub is_member : Text → List Text → Bool
is_member t [] = false
is_member t (w ∷ ws) = eqb t w || is_member t ws
