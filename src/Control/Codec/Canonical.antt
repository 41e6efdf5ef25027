-- ===== src/Control/Codec/Canonical.antt =====
-- The canonical byte strings of P4Runtime: `canonicalize` against the numbers, and the padding
-- that the decoders undo it with.
use p4net.Base.{
  ℕ, zero, suc, ◌-◌, ◌^◌, ◌≤◌, ◌<◌, ◌≡◌, refl, ap, sym, ◌∙◌, ◌≢◌, ◌↔◌, inl, inr, List, [], ◌∷◌,
  ◌++◌, arith, ◌==◌, true, Bool-cases, length, replicate, All, pos, length-replicate, length-append,
  All-append, ok,
}
use p4net.Builtins.Bytes.{
  IsByte, from_bytes, lstrip_zero, from_bytes-lt, from_bytes_inj, from_bytes-lstrip, lstrip-IsByte,
  length-lstrip-le, pow256_pos,
}
use p4net.Control.Codec.{
  bytes, int, n_bytes, encode_int, decode_int, canonicalize, zero_extend, or_zero,
}
use p4net.Control.Codec.Ints.{encode_int-iff-Writes, decode_bytes_ok}
use native.Mathlib.Nat.{pow-le-pow_right}

-- The shortest form: one byte at least, and no leading zero before another byte.
abbrev pub IsCanonical : List ℕ → Type 0
IsCanonical [] = ⊥
IsCanonical (b ∷ []) = Unit
IsCanonical (b ∷ c ∷ bs) = b ≢ 0

abbrev HasNoLeadingZero : List ℕ → Type 0
HasNoLeadingZero [] = Unit
HasNoLeadingZero (b ∷ bs) = b ≢ 0

lstrip-HasNoLeadingZero : (bs : List ℕ) → HasNoLeadingZero (lstrip_zero bs)
unfolding lstrip_zero
lstrip-HasNoLeadingZero [] = tt
lstrip-HasNoLeadingZero (b ∷ bs) = elim (Bool-cases (b == 0)) [
  | inl e ↦ rw e (lstrip-HasNoLeadingZero bs)
  | inr e ↦ rw e (ground arith)
]

-- With no leading zero the value tells the length.
from_bytes-ge : (b : ℕ) (bs : List ℕ) → b ≢ 0 → 256 ^ length bs ≤ from_bytes (b ∷ bs)
unfolding from_bytes
from_bytes-ge b bs h = grind (arith, pow256_pos (length bs))

shorter_is_less :
    (xs ys : List ℕ)
    → All IsByte xs
    → HasNoLeadingZero ys
    → length xs < length ys
    → from_bytes xs < from_bytes ys
shorter_is_less xs [] p q h = absurd (omega arith)
shorter_is_less xs (y ∷ ys) p q h = omega (
  arith,
  from_bytes-lt xs p,
  from_bytes-ge y ys q,
  pow-le-pow_right {n = 256} (omega arith) {i = length xs} {j = length ys} (omega arith),
)

no_leading_zero_inj :
    (xs ys : List ℕ)
    → All IsByte xs
    → All IsByte ys
    → HasNoLeadingZero xs
    → HasNoLeadingZero ys
    → from_bytes xs ≡ from_bytes ys
    → xs ≡ ys
no_leading_zero_inj xs ys p q hx hy e =
    from_bytes_inj xs ys p q
      (ground (arith, shorter_is_less xs ys p hy, shorter_is_less ys xs q hx)) e

or_zero_value : (bs : List ℕ) → from_bytes (or_zero bs) ≡ from_bytes bs
unfolding from_bytes
or_zero_value [] = omega arith
or_zero_value (b ∷ bs) = refl

pub from_bytes-canonicalize : (bs : List ℕ) → from_bytes (canonicalize bs) ≡ from_bytes bs
unfolding canonicalize
from_bytes-canonicalize bs = or_zero_value (lstrip_zero bs) ∙ from_bytes-lstrip bs

or_zero-IsCanonical : (bs : List ℕ) → HasNoLeadingZero bs → IsCanonical (or_zero bs)
or_zero-IsCanonical [] h = tt
or_zero-IsCanonical (b ∷ []) h = tt
or_zero-IsCanonical (b ∷ c ∷ bs) h = h

-- Whatever the bytes, the result is in canonical form.
pub canonicalize-IsCanonical : (bs : List ℕ) → IsCanonical (canonicalize bs)
unfolding canonicalize
canonicalize-IsCanonical bs = or_zero-IsCanonical (lstrip_zero bs) (lstrip-HasNoLeadingZero bs)

or_zero-IsByte : (bs : List ℕ) → All IsByte bs → All IsByte (or_zero bs)
or_zero-IsByte [] h = omega arith
or_zero-IsByte (b ∷ bs) h = h

pub canonicalize-IsByte : (bs : List ℕ) → All IsByte bs → All IsByte (canonicalize bs)
unfolding canonicalize
canonicalize-IsByte bs h = or_zero-IsByte (lstrip_zero bs) (lstrip-IsByte bs h)

length-or_zero : (bs : List ℕ) (n : ℕ) → length bs ≤ n → 0 < n → length (or_zero bs) ≤ n
length-or_zero [] n h k = omega arith
length-or_zero (b ∷ bs) n h k = h

pub length-canonicalize-le :
    (bs : List ℕ) (n : ℕ) → length bs ≤ n → 0 < n → length (canonicalize bs) ≤ n
unfolding canonicalize
length-canonicalize-le bs n h k =
    length-or_zero (lstrip_zero bs) n (omega (arith, length-lstrip-le bs)) k

same_value→same_canonical :
    (xs ys : List ℕ)
    → All IsByte xs
    → All IsByte ys
    → from_bytes xs ≡ from_bytes ys
    → canonicalize xs ≡ canonicalize ys
unfolding canonicalize
same_value→same_canonical xs ys p q e = ap or_zero (
    no_leading_zero_inj (lstrip_zero xs) (lstrip_zero ys) (lstrip-IsByte xs p) (lstrip-IsByte ys q)
      (lstrip-HasNoLeadingZero xs) (lstrip-HasNoLeadingZero ys)
      (cc (from_bytes-lstrip xs, from_bytes-lstrip ys)))

-- Two byte strings have one canonical form exactly when they stand for one number.
pub canonicalize-iff-same_value :
    (xs ys : List ℕ)
    → All IsByte xs
    → All IsByte ys
    → (canonicalize xs ≡ canonicalize ys) ↔ (from_bytes xs ≡ from_bytes ys)
canonicalize-iff-same_value xs ys p q = (
  λ e. cc (from_bytes-canonicalize xs, from_bytes-canonicalize ys, ap from_bytes e),
  same_value→same_canonical xs ys p q,
)

-- The canonical form is the shortest: no byte string of the same number is shorter, the empty one
-- aside.
canonical_is_shortest :
    (bs ys : List ℕ)
    → All IsByte bs
    → All IsByte ys
    → from_bytes ys ≡ from_bytes bs
    → 0 < length ys
    → length (canonicalize bs) ≤ length ys
canonical_is_shortest bs ys p q e nonempty = omega (
  arith,
  ap length (same_value→same_canonical ys bs q p e),
  length-canonicalize-le ys (length ys) (omega arith) nonempty,
)

-- The result of `canonicalize` is in canonical form (one byte at least, and no leading zero before
-- another byte), and no other non-empty byte string of its number is shorter.
pub canonicalize_shortest :
    (bs ys : List ℕ)
    → All IsByte bs
    → All IsByte ys
    → from_bytes ys ≡ from_bytes bs
    → 0 < length ys
    → IsCanonical (canonicalize bs) × (length (canonicalize bs) ≤ length ys)
canonicalize_shortest bs ys p q e nonempty =
    (canonicalize-IsCanonical bs, canonical_is_shortest bs ys p q e nonempty)

from_bytes-zeros : (n : ℕ) (bs : List ℕ) → from_bytes (replicate n 0 ++ bs) ≡ from_bytes bs
unfolding from_bytes
from_bytes-zeros zero bs = refl
from_bytes-zeros (suc n) bs = omega (arith, from_bytes-zeros n bs)

zeros-IsByte : (n : ℕ) → All IsByte (replicate n 0)
zeros-IsByte zero = tt
zeros-IsByte (suc n) = (omega arith, zeros-IsByte n)

-- What the decoders read: the bytes padded on the high side to the width.
pub padded : List ℕ → ℕ → List ℕ
padded bs w = replicate (n_bytes w - length bs) 0 ++ bs

pub padded_size : (bs : List ℕ) (w : ℕ) → length bs ≤ n_bytes w → length (padded bs w) ≡ n_bytes w
unfolding padded
padded_size bs w h = omega (
  arith,
  length-append {0} (replicate (n_bytes w - length bs) 0) bs,
  length-replicate {0} {A = ℕ} (n_bytes w - length bs) 0,
)

pub zero_extend-padded :
    (bs : List ℕ) (w : ℕ) → length bs ≤ n_bytes w → zero_extend bs w ≡ ok (padded bs w)
unfolding zero_extend padded
zero_extend-padded bs w h = elim (Bool-cases (length bs == n_bytes w)) [
  | inl e ↦ rw (full e) (ground arith)
  | inr e ↦ ground arith
]
  where
    full : (length bs == n_bytes w) ≡ true → n_bytes w - length bs ≡ 0
    full e = ground arith

zero_extend_short : (bs out : List ℕ) (w : ℕ) → zero_extend bs w ≡ ok out → length bs ≤ n_bytes w
unfolding zero_extend
zero_extend_short bs out w e = ground arith

pub zero_extend-ok :
    (bs out : List ℕ) (w : ℕ)
    → zero_extend bs w ≡ ok out
    → (length bs ≤ n_bytes w) × (out ≡ padded bs w)
zero_extend-ok bs out w e =
    let short = zero_extend_short bs out w e in (short, cc (zero_extend-padded bs w short))

pub padded-IsByte : (bs : List ℕ) (w : ℕ) → All IsByte bs → All IsByte (padded bs w)
unfolding padded
padded-IsByte bs w h = All-append IsByte _ bs (zeros-IsByte (n_bytes w - length bs)) h

pub padded_value : (bs : List ℕ) (w : ℕ) → from_bytes (padded bs w) ≡ from_bytes bs
unfolding padded
padded_value bs w = from_bytes-zeros (n_bytes w - length bs) bs

-- Padding undoes `canonicalize` on a byte string of the full width.
pub zero_extend-canonicalize :
    (bs : List ℕ) (w : ℕ)
    → 0 < w
    → length bs ≡ n_bytes w
    → All IsByte bs
    → zero_extend (canonicalize bs) w ≡ ok bs
zero_extend-canonicalize bs w h size digits = zero_extend-padded _ w short ∙ ap ok same
  where
    short : length (canonicalize bs) ≤ n_bytes w
    short = length-canonicalize-le bs (n_bytes w) (omega arith) (omega arith)

    same : padded (canonicalize bs) w ≡ bs
    same =
        from_bytes_inj _ bs (padded-IsByte _ w (canonicalize-IsByte bs digits)) digits
          (padded_size _ w short ∙ sym size)
          (padded_value (canonicalize bs) w ∙ from_bytes-canonicalize bs)

-- An int survives encoding, stripping to canonical form, and decoding at its width.
pub decode-canonicalize-encode :
    (n w : ℕ) (bs : List ℕ)
    → encode_int (int (pos n)) w ≡ ok bs
    → (decode_int (bytes bs) w ≡ ok n) × (decode_int (bytes (canonicalize bs)) w ≡ ok n)
unfolding decode_int
decode-canonicalize-encode n w bs e =
    let h = (encode_int-iff-Writes n w bs).0 e in
    let value : from_bytes (canonicalize bs) ≡ n = from_bytes-canonicalize bs ∙ h.value in
    let short = length-canonicalize-le bs (n_bytes w) (omega (arith, h.size)) in
    (
      decode_bytes_ok bs w h.positive (omega (arith, h.size)) (rw h.value h.fits) ∙ ap ok h.value,
      decode_bytes_ok (canonicalize bs) w h.positive (short (omega (arith, h.positive)))
            (rw value h.fits)
          ∙ ap ok value,
    )
