-- ===== src/Builtins/IntText.antt =====
-- `int(text, base)` and the printing of an int, as Python documents them: white space around, a
-- sign, a base prefix, and single underscores between the digits.
-- A character above code point 127 is no digit here, while Python takes the decimal digits of
-- every script.
use p4net.Base.{
  ℕ, zero, suc, ◌+◌, ◌-◌, ◌*◌, ◌/◌, ◌%◌, ◌≡◌, ◌≢◌, ap, ◌∙◌, refl, Bool, true, false, ◌&&◌, ◌||◌,
  Option, none, some, [], ◌∷◌, arith, ltb, leb, ◌==◌, if◌then◌else◌, ℤ, pos, negsuc, ◌≤◌, ◌<◌, sym,
  subst, Bool-cases, inl, inr,
}
use p4net.Base.Text.{Text, is_space, codes}
use mathlib.Core.List.{reverse}

-- The value of a digit in a base up to 36.
unfoldable pub digit_value : ℕ → ℕ → Option ℕ
digit_value base c =
    let v =
      if leb b'0' c && leb c b'9'
      then c - 48
      else if leb b'a' c && leb c b'z'
      then c - 87
      else if leb b'A' c && leb c b'Z'
      then c - 55
      else 36 in
    if ltb v base then some v else none

-- The digits so far are worth `acc`; `bare` says that the next character must be a digit.
unfoldable pub digits : ℕ → Bool → ℕ → Text → Option ℕ
digits base bare acc [] = if bare then none else some acc
digits base bare acc (c ∷ s) = elim (c == b'_') [
  | true ↦ elim bare [ true ↦ none | false ↦ digits base true acc s ]
  | false ↦ elim (digit_value base c) [
    | none ↦ none
    | some d ↦ digits base false (acc * base + d) s
  ]
]

unfoldable pub lstrip_space : Text → Text
lstrip_space [] = []
lstrip_space (c ∷ s) = if is_space c then lstrip_space s else c ∷ s

unfoldable pub strip : Text → Text
unfolding lstrip_space
strip s = reverse (lstrip_space (reverse (lstrip_space s)))

-- One underscore may stand between a prefix and the digits.
after_prefix : ℕ → Text → Option ℕ
after_prefix base [] = none
after_prefix base (c ∷ s) = if c == b'_' then digits base true 0 s else digits base true 0 (c ∷ s)

-- The letter behind the `0` of a prefix, as the base that it announces.
prefix_base : ℕ → ℕ
prefix_base c =
    if c == b'x' || c == b'X'
    then 16
    else if c == b'o' || c == b'O'
    then 8
    else if c == b'b' || c == b'B'
    then 2
    else 0

-- `base` 0 reads a literal: a prefix gives the base, and without one a leading zero is only
-- accepted in zero itself.
magnitude : ℕ → Text → Option ℕ
magnitude base [] = none
magnitude base (c ∷ []) = digits (if base == 0 then 10 else base) true 0 (c ∷ [])
magnitude base (c ∷ d ∷ s) =
    let announced = prefix_base d in
    let prefixed = c == b'0' && ltb 0 announced && (base == 0 || base == announced) in
    if prefixed
    then after_prefix announced s
    else if base == 0 && c == b'0'
    then (elim (digits 10 true 0 (c ∷ d ∷ s)) [
      | none ↦ none
      | some n ↦ if n == 0 then some 0 else none
    ])
    else digits (if base == 0 then 10 else base) true 0 (c ∷ d ∷ s)

negate : ℕ → ℤ
negate zero = pos 0
negate (suc n) = negsuc n

signed : ℕ → Text → Option ℤ
signed base [] = none
signed base (c ∷ s) =
    if c == b'-'
    then (elim (magnitude base s) [ none ↦ none | some n ↦ some (negate n) ])
    else (elim (magnitude base (if c == b'+' then s else c ∷ s)) [
      | none ↦ none
      | some n ↦ some (pos n)
    ])

-- `int(text, base)`; `none` is ValueError.
unfoldable pub parse_int : ℕ → Text → Option ℤ
unfolding signed magnitude negate after_prefix prefix_base digits digit_value strip
parse_int base s = signed base (strip s)

-- The decimal digits of `n`, lowest last; the fuel `n` is always enough.
decimal_within : ℕ → ℕ → Text → Text
decimal_within zero n s = (48 + n) ∷ s
decimal_within (suc f) n s = elim (ltb n 10) [
  | true ↦ (48 + n) ∷ s
  | false ↦ decimal_within f (n / 10) ((48 + n % 10) ∷ s)
]

-- `str(n)`
unfoldable pub decimal : ℕ → Text
unfolding decimal_within
decimal n = decimal_within n n []

-- `str` of any int.
unfoldable pub str_int : ℤ → Text
unfolding decimal
str_int (pos n) = decimal n
str_int (negsuc n) = b'-' ∷ decimal (suc n)

-- What `decimal` writes are digits, and at least one.
abbrev pub AreDigits : Text → Type 0
AreDigits [] = Unit
AreDigits (c ∷ s) = (leb b'0' c ≡ true) × (leb c b'9' ≡ true) × AreDigits s

decimal_within_small :
    (f n : ℕ) (s : Text) → ltb n 10 ≡ true → decimal_within (suc f) n s ≡ (48 + n) ∷ s
unfolding decimal_within
decimal_within_small f n s small = rw (decimal_within, small) refl

decimal_within_large :
    (f n : ℕ) (s : Text)
    → ltb n 10 ≡ false
    → decimal_within (suc f) n s ≡ decimal_within f (n / 10) ((48 + n % 10) ∷ s)
unfolding decimal_within
decimal_within_large f n s large = rw (decimal_within, large) refl

decimal_within-AreDigits :
    (f n : ℕ) (s : Text)
    → n ≤ f
    → AreDigits s
    → AreDigits (decimal_within f n s) × (decimal_within f n s ≢ [])
unfolding decimal_within
decimal_within-AreDigits zero n s fits h =
    ((ground (arith, fits), ground (arith, fits), h), λ e. cc)
decimal_within-AreDigits (suc f) n s fits h = elim (Bool-cases (ltb n 10)) [
  | inl small ↦
      subst (λ t. AreDigits t × (t ≢ [])) (sym (decimal_within_small f n s small))
        ((ground (arith, small), ground (arith, small), h), λ e. cc)
  | inr large ↦
      subst (λ t. AreDigits t × (t ≢ [])) (sym (decimal_within_large f n s large))
        (decimal_within-AreDigits f (n / 10) ((48 + n % 10) ∷ s) (ground (arith, large, fits))
          (ground (arith, large), ground (arith, large), h))
]

pub decimal-AreDigits : (n : ℕ) → AreDigits (decimal n) × (decimal n ≢ [])
unfolding decimal
decimal-AreDigits n = decimal_within-AreDigits n n [] (omega arith) tt

digits_next :
    (bare : Bool) (acc d : ℕ) (s : Text)
    → d < 10
    → digits 10 bare acc ((48 + d) ∷ s) ≡ digits 10 false (acc * 10 + d) s
unfolding digits digit_value
digits_next bare acc d s small =
    let plain : ((48 + d) == b'_') ≡ false = ground (arith, small) in
    let value : digit_value 10 (48 + d) ≡ some d = ground (arith, small) in
    rw (digits, plain, value) refl

digits-decimal_within :
    (f n : ℕ) (bare : Bool) (s : Text)
    → n ≤ f
    → digits 10 bare 0 (decimal_within f n s) ≡ digits 10 false n s
unfolding decimal_within
digits-decimal_within zero n bare s fits =
    digits_next bare 0 n s (omega arith) ∙ ap (λ m. digits 10 false m s) (omega arith)
digits-decimal_within (suc f) n bare s fits = elim (Bool-cases (ltb n 10)) [
  | inl small ↦
      ap (digits 10 bare 0) (decimal_within_small f n s small)
      ∙ digits_next bare 0 n s (ground (arith, small))
      ∙ ap (λ m. digits 10 false m s) (omega arith)
  | inr large ↦
      ap (digits 10 bare 0) (decimal_within_large f n s large)
      ∙ digits-decimal_within f (n / 10) bare ((48 + n % 10) ∷ s) (ground (arith, large, fits))
      ∙ digits_next false (n / 10) (n % 10) s (omega arith)
      ∙ ap (λ m. digits 10 false m s) (omega arith)
]

-- The digits of a number are worth the number.
pub digits-decimal : (n : ℕ) → digits 10 true 0 (decimal n) ≡ some n
unfolding decimal digits
digits-decimal n = digits-decimal_within n n true [] (omega arith)

digits_pair :
    (c d v w : ℕ)
    → digit_value 16 c ≡ some v
    → digit_value 16 d ≡ some w
    → c ≢ b'_'
    → d ≢ b'_'
    → digits 16 true 0 (c ∷ d ∷ []) ≡ some (v * 16 + w)
unfolding digits
digits_pair c d v w hc hd nc nd = ground arith

signed_pair :
    (c d n : ℕ)
    → digits 16 true 0 (c ∷ d ∷ []) ≡ some n
    → (c ≢ b'-') × (c ≢ b'+') × (d ≢ b'x') × (d ≢ b'X')
    → signed 16 (c ∷ d ∷ []) ≡ some (pos n)
unfolding signed magnitude prefix_base
signed_pair c d n e h = ground arith

-- Two hexadecimal digits in base 16, with white space around them.
pub parse_hex_pair :
    (s : Text) (c d v w : ℕ)
    → strip s ≡ c ∷ d ∷ []
    → digit_value 16 c ≡ some v
    → digit_value 16 d ≡ some w
    → (c ≢ b'_') × (d ≢ b'_') × (c ≢ b'-') × (c ≢ b'+') × (d ≢ b'x') × (d ≢ b'X')
    → parse_int 16 s ≡ some (pos (v * 16 + w))
unfolding parse_int
parse_hex_pair s c d v w e hc hd h =
    ap (signed 16) e
    ∙ signed_pair c d (v * 16 + w) (digits_pair c d v w hc hd h.0 h.1) (h.2, h.3, h.4, h.5)

parse_hex : parse_int 0 (codes " 0x_1F ") ≡ some (pos 31)
unfolding parse_int
parse_hex = refl

parse_zeros : (parse_int 0 (codes "00") ≡ some (pos 0)) × (parse_int 0 (codes "01") ≡ none)
unfolding parse_int
parse_zeros = (refl, refl)

parse_bases :
    (parse_int 10 (codes "-024") ≡ some (negsuc 23))
    × (parse_int 16 (codes "0b") ≡ some (pos 11))
    × (parse_int 0 (codes "0b") ≡ none)
    × (parse_int 10 (codes "1__0") ≡ none)
unfolding parse_int
parse_bases = (refl, refl, refl, refl)

decimal_example : str_int (negsuc 1023) ≡ codes "-1024"
unfolding str_int
decimal_example = refl
