-- ===== src/Base/Text.antt =====
-- Python's `str` as its list of code points, with the string methods that the program calls.
use Prim.Native.Nat.{ℕ, ◌+◌}
use Prim.Native.Char.{code}
use Prim.Native.String.{String}
use mathlib.Core.Path.{◌≡◌, refl}
use mathlib.Core.Logic.{◌↔◌}
use mathlib.Core.Bool.{Bool, true, false, ◌&&◌, ◌||◌}
use mathlib.Core.Option.{Option, none, some}
use mathlib.Core.List.{List, [], ◌∷◌, ◌++◌}
use native.Mathlib.Omega.{arith}
use p4net.Base.Tests.{leb, ◌==◌, if◌then◌else◌}

abbrev pub Text : Type 0
Text = List ℕ

-- The code points of a literal.
abbrev pub codes : String → Text
codes String.[] = []
codes (String.◌∷◌ c s) = code c ∷ codes s

-- `s == t`
unfoldable pub text_eq : Text → Text → Bool
text_eq [] [] = true
text_eq [] (d ∷ t) = false
text_eq (c ∷ s) [] = false
text_eq (c ∷ s) (d ∷ t) = c == d && text_eq s t

pub text_eq_refl : (s : Text) → text_eq s s ≡ true
unfolding text_eq
text_eq_refl [] = refl
text_eq_refl (c ∷ s) = ground (arith, text_eq_refl s)

pub text_eq→eq : (s t : Text) → text_eq s t ≡ true → s ≡ t
unfolding text_eq
text_eq→eq [] [] h = refl
text_eq→eq [] (d ∷ t) h = cc
text_eq→eq (c ∷ s) [] h = cc
text_eq→eq (c ∷ s) (d ∷ t) h = ground (arith, text_eq→eq s t)

pub text_eq_iff : (s t : Text) → (text_eq s t ≡ true) ↔ (s ≡ t)
text_eq_iff s t = (text_eq→eq s t, λ e. rw e (text_eq_refl t))

-- `s.count(c)` for one character.
unfoldable pub count : ℕ → Text → ℕ
count c [] = 0
count c (d ∷ s) = (if c == d then 1 else 0) + count c s

-- `c in s` for one character.
unfoldable pub has : ℕ → Text → Bool
has c [] = false
has c (d ∷ s) = c == d || has c s

abbrev push_front : ℕ → List Text → List Text
push_front c [] = (c ∷ []) ∷ []
push_front c (w ∷ ws) = (c ∷ w) ∷ ws

-- `s.split(sep)` for one character: never empty, one part more than separators.
unfoldable pub split : ℕ → Text → List Text
split sep [] = [] ∷ []
split sep (c ∷ s) = let rest = split sep s in if c == sep then [] ∷ rest else push_front c rest

-- `sep.join(parts)`
unfoldable pub join : Text → List Text → Text
join sep [] = []
join sep (w ∷ []) = w
join sep (w ∷ v ∷ ws) = w ++ (sep ++ join sep (v ∷ ws))

-- `s.rsplit(sep, 1)` where `sep` occurs: what stands before and after the last one.
unfoldable pub rsplit_last : ℕ → Text → Option (Text × Text)
rsplit_last sep [] = none
rsplit_last sep (c ∷ s) = elim (rsplit_last sep s) [
  | some (front, back) ↦ some (c ∷ front, back)
  | none ↦ if c == sep then some ([], s) else none
]

abbrev pub is_digit : ℕ → Bool
is_digit c = leb b'0' c && leb c b'9'

-- The characters that `str.isspace` accepts beyond code point 160.
abbrev wide_space : ℕ → Bool
wide_space c =
    c == 5760
    || (leb 8192 c && leb c 8202)
    || c == 8232
    || c == 8233
    || c == 8239
    || c == 8287
    || c == 12288

-- `c.isspace()`
abbrev pub is_space : ℕ → Bool
is_space c = (leb 9 c && leb c 13) || (leb 28 c && leb c 32) || c == 133 || c == 160 || wide_space c

-- A word with no separator is one part; before a separator it is the first part.
pub split_whole : (sep : ℕ) (w : Text) → has sep w ≡ false → split sep w ≡ w ∷ []
unfolding split has
split_whole sep [] h = refl
split_whole sep (c ∷ w) h = ground (arith, split_whole sep w)

pub split-append :
    (sep : ℕ) (w s : Text) → has sep w ≡ false → split sep (w ++ (sep ∷ s)) ≡ w ∷ split sep s
unfolding split has
split-append sep [] s h = ground arith
split-append sep (c ∷ w) s h = ground (arith, split-append sep w s)
