-- ===== src/Builtins/Lines.antt =====
-- Methods of `str` that read command output: lines, prefixes and substrings.
use p4net.Base.{
  ℕ, Bool, true, false, ◌&&◌, ◌||◌, Option, none, some, List, [], ◌∷◌, ◌++◌, leb, ◌==◌,
  if◌then◌else◌, ◌≡◌, refl, arith,
}
use p4net.Base.Text.{Text, codes}

-- The characters that end a line.
abbrev pub is_line_break : ℕ → Bool
is_line_break c =
    (leb 10 c && leb c 13) || (leb 28 c && leb c 30) || c == 133 || c == 8232 || c == 8233

abbrev starts_newline : Text → Bool
starts_newline [] = false
starts_newline (c ∷ s) = c == 10

abbrev to_first : ℕ → List Text → List Text
to_first c [] = (c ∷ []) ∷ []
to_first c (l ∷ ls) = (c ∷ l) ∷ ls

-- `s.splitlines()`: a line break ends a line, and CR LF is one.
unfoldable pub splitlines : Text → List Text
splitlines [] = []
splitlines (c ∷ s) =
    let rest = splitlines s in
    if c == 13 && starts_newline s
    then rest
    else if is_line_break c
    then [] ∷ rest
    else to_first c rest

-- `s.startswith(p)`, with what follows `p`.
unfoldable pub after_prefix : Text → Text → Option Text
after_prefix [] s = some s
after_prefix (c ∷ p) [] = none
after_prefix (c ∷ p) (d ∷ s) = let rest = after_prefix p s in if c == d then rest else none

abbrev pub starts_with : Text → Text → Bool
starts_with p s = elim (after_prefix p s) [ none ↦ false | some _ ↦ true ]

-- `p in s`
unfoldable pub occurs : Text → Text → Bool
occurs p [] = starts_with p []
occurs p (c ∷ s) = starts_with p (c ∷ s) || occurs p s

-- What stands behind the first `c`.
unfoldable pub after_char : ℕ → Text → Option Text
after_char c [] = none
after_char c (d ∷ s) = let rest = after_char c s in if d == c then some s else rest

pub after_prefix-append : (p s : Text) → after_prefix p (p ++ s) ≡ some s
unfolding after_prefix
after_prefix-append [] s = refl
after_prefix-append (c ∷ p) s = ground (arith, after_prefix-append p s)

lines :
    (splitlines (codes "a\r\nb\n\nc\n") ≡ codes "a" ∷ codes "b" ∷ [] ∷ codes "c" ∷ [])
    × (splitlines (codes "") ≡ [])
    × (splitlines (codes "\n") ≡ [] ∷ [])
    × (after_prefix (codes "ab") (codes "abc") ≡ some (codes "c"))
    × (occurs (codes "bc") (codes "abcd") ≡ true)
unfolding splitlines after_prefix occurs
lines = (refl, refl, refl, refl, refl)
