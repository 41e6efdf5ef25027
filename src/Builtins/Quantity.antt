-- ===== src/Builtins/Quantity.antt =====
-- A number in decimal notation with a unit behind it, as the patterns of the program read it.
-- A character above code point 127 is no digit here, while `\d` takes the digits of every script.
use p4net.Base.{
  ℕ, ◌≡◌, ◌≢◌, refl, Bool, true, false, ◌&&◌, Option, none, some, [], ◌∷◌, ◌++◌, All, leb, ◌==◌,
  if◌then◌else◌, arith,
}
use p4net.Base.Text.{Text}

abbrev pub digit_char : ℕ → Bool
digit_char c = leb b'0' c && leb c b'9'

-- The longest run of digits in front, and the rest.
unfoldable pub take_digits : Text → Text × Text
take_digits [] = ([], [])
take_digits (c ∷ s) =
    let rest = take_digits s in if digit_char c then (c ∷ rest.0, rest.1) else ([], c ∷ s)

abbrev no_text : Text → Bool
no_text [] = true
no_text (c ∷ s) = false

-- The digits, a point with digits behind it, and what follows.
unfoldable pub after_whole : Text → Text → Option (Text × Text)
unfolding take_digits
after_whole whole [] = some (whole, [])
after_whole whole (c ∷ s) =
    if c == b'.'
    then if no_text (take_digits s).0
      then none
      else some (whole ++ (c ∷ (take_digits s).0), (take_digits s).1)
    else some (whole, c ∷ s)

-- `[0-9]+(?:\.[0-9]+)?` in front and the unit behind it, which begins with neither digit nor point.
unfoldable pub split_quantity : Text → Option (Text × Text)
unfolding after_whole
split_quantity s =
    if no_text (take_digits s).0 then none else after_whole (take_digits s).0 (take_digits s).1

-- A text that a digit does not begin.
abbrev pub IsUnit : Text → Type 0
IsUnit [] = Unit
IsUnit (c ∷ s) = (digit_char c ≡ false) × (c ≢ b'.')

take_digits-append :
    (ds unit : Text)
    → All (λ c. digit_char c ≡ true) ds
    → IsUnit unit
    → take_digits (ds ++ unit) ≡ (ds, unit)
unfolding take_digits
take_digits-append [] [] h u = refl
take_digits-append [] (c ∷ s) h u = rw u.0 refl
take_digits-append (d ∷ ds) unit h u = rw (h.0, take_digits-append ds unit h.1 u) refl

-- Digits and a unit are split where they meet.
pub split_quantity-append :
    (d : ℕ) (ds unit : Text)
    → All (λ c. digit_char c ≡ true) (d ∷ ds)
    → IsUnit unit
    → split_quantity ((d ∷ ds) ++ unit) ≡ some (d ∷ ds, unit)
unfolding split_quantity
split_quantity-append d ds [] h u = rw (take_digits-append (d ∷ ds) [] h u) refl
split_quantity-append d ds (c ∷ s) h u =
    rw (take_digits-append (d ∷ ds) (c ∷ s) h u) (ground (arith, u.1))
