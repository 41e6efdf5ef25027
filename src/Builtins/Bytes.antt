-- ===== src/Builtins/Bytes.antt =====
-- `bytes` as lists of numbers below 256, `int.from_bytes(…, "big")`, `int.to_bytes(n, "big")`,
-- `int.bit_length` and `bytes.lstrip(b"\x00")`, with the arithmetic that the codec rests on.
use p4net.Base.{
  ℕ, zero, suc, ◌+◌, ◌*◌, ◌/◌, ◌%◌, ◌^◌, ◌≤◌, ◌<◌, ◌≡◌, refl, ap, true, false, List, [], ◌∷◌, arith,
  ◌==◌, if◌then◌else◌, length, All, ◌↔◌,
}
use native.Mathlib.Nat.{
  pow-suc, one-le-pow, div-add-mod', mod-lt, div-lt_iff_lt-mul, mul-add-div_right,
  mul-add-mod_self_right, mod-eq_of_lt, div-eq_of_lt, add-zero,
}

abbrev pub IsByte : ℕ → Type 0
IsByte b = b < 256

unfoldable pub from_bytes : List ℕ → ℕ
from_bytes [] = 0
from_bytes (b ∷ bs) = b * 256 ^ length bs + from_bytes bs

-- `v.to_bytes(n, "big")` for `v` below `256 ** n`.
unfoldable pub to_bytes : ℕ → ℕ → List ℕ
to_bytes zero v = []
to_bytes (suc n) v = (v / 256 ^ n) ∷ to_bytes n (v % 256 ^ n)

-- Halvings until 0; the fuel `v` is always enough.
bits_within : ℕ → ℕ → ℕ
bits_within zero v = 0
bits_within (suc f) v = elim (v == 0) [ true ↦ 0 | false ↦ suc (bits_within f (v / 2)) ]

unfoldable pub bit_length : ℕ → ℕ
unfolding bits_within
bit_length v = bits_within v v

unfoldable pub lstrip_zero : List ℕ → List ℕ
lstrip_zero [] = []
lstrip_zero (b ∷ bs) = if b == 0 then lstrip_zero bs else b ∷ bs

pub pow256_pos : (n : ℕ) → 1 ≤ 256 ^ n
pow256_pos n = one-le-pow n 256 (omega arith)

pub length-to_bytes : (n v : ℕ) → length (to_bytes n v) ≡ n
unfolding to_bytes
length-to_bytes zero v = refl
length-to_bytes (suc n) v = ap suc (length-to_bytes n (v % 256 ^ n))

pub from_bytes-to_bytes : (n v : ℕ) → v < 256 ^ n → from_bytes (to_bytes n v) ≡ v
unfolding from_bytes to_bytes
from_bytes-to_bytes zero v h = omega arith
from_bytes-to_bytes (suc n) v h = rw length-to_bytes (
    omega (
      arith,
      from_bytes-to_bytes n (v % 256 ^ n) (mod-lt v (pow256_pos n)),
      div-add-mod' v (256 ^ n),
    ))

pub to_bytes-IsByte : (n v : ℕ) → v < 256 ^ n → All IsByte (to_bytes n v)
unfolding to_bytes
to_bytes-IsByte zero v h = tt
to_bytes-IsByte (suc n) v h = (
  (div-lt_iff_lt-mul (pow256_pos n)).1 (omega (arith, pow-suc 256 n)),
  to_bytes-IsByte n (v % 256 ^ n) (mod-lt v (pow256_pos n)),
)

-- Byte strings stand for numbers below `256 ** len`.
pub from_bytes-lt : (bs : List ℕ) → All IsByte bs → from_bytes bs < 256 ^ length bs
unfolding from_bytes
from_bytes-lt [] h = omega arith
from_bytes-lt (b ∷ bs) h = grind (arith, pow-suc 256 (length bs), from_bytes-lt bs h.1)

pub to_bytes-from_bytes : (bs : List ℕ) → All IsByte bs → to_bytes (length bs) (from_bytes bs) ≡ bs
unfolding from_bytes to_bytes
to_bytes-from_bytes [] h = refl
to_bytes-from_bytes (b ∷ bs) h =
    let below = from_bytes-lt bs h.1 in
    let scale = 256 ^ length bs in
    let pos_scale = pow256_pos (length bs) in
    rw (
      mul-add-div_right pos_scale b (from_bytes bs),
      div-eq_of_lt below,
      mul-add-mod_self_right b scale (from_bytes bs),
      mod-eq_of_lt below,
      to_bytes-from_bytes bs h.1,
      add-zero,
    )

-- Two byte strings of one length with one value are the same.
pub from_bytes_inj :
    (xs ys : List ℕ)
    → All IsByte xs
    → All IsByte ys
    → length xs ≡ length ys
    → from_bytes xs ≡ from_bytes ys
    → xs ≡ ys
from_bytes_inj xs ys p q len val = cc (to_bytes-from_bytes xs p, to_bytes-from_bytes ys q)

pub from_bytes-lstrip : (bs : List ℕ) → from_bytes (lstrip_zero bs) ≡ from_bytes bs
unfolding from_bytes lstrip_zero
from_bytes-lstrip [] = refl
from_bytes-lstrip (b ∷ bs) = ground (arith, from_bytes-lstrip bs)

pub length-lstrip-le : (bs : List ℕ) → length (lstrip_zero bs) ≤ length bs
unfolding lstrip_zero
length-lstrip-le [] = omega arith
length-lstrip-le (b ∷ bs) = ground (arith, length-lstrip-le bs)

pub lstrip-IsByte : (bs : List ℕ) → All IsByte bs → All IsByte (lstrip_zero bs)
unfolding lstrip_zero
lstrip-IsByte [] h = tt
lstrip-IsByte (b ∷ bs) h = ground (arith, lstrip-IsByte bs)

-- The bits of `v` are at most `w` exactly when `v` is below `2 ** w`.
bits_within-le : (f v w : ℕ) → v ≤ f → bits_within f v ≤ w → v < 2 ^ w
unfolding bits_within
bits_within-le zero v w h b = omega (arith, one-le-pow w 2)
bits_within-le (suc f) v zero h b = ground arith
bits_within-le (suc f) v (suc w) h b =
    ground (arith, bits_within-le f (v / 2) w, one-le-pow w 2, pow-suc 2 w)

bits_within-of_lt : (f v w : ℕ) → v < 2 ^ w → bits_within f v ≤ w
unfolding bits_within
bits_within-of_lt zero v w h = omega arith
bits_within-of_lt (suc f) v zero h = ground arith
bits_within-of_lt (suc f) v (suc w) h = ground (arith, bits_within-of_lt f (v / 2) w, pow-suc 2 w)

pub bit_length-le_iff : (v w : ℕ) → (bit_length v ≤ w) ↔ (v < 2 ^ w)
unfolding bit_length
bit_length-le_iff v w = (bits_within-le v v w (omega arith), bits_within-of_lt v v w)

bits_max : bit_length 0xffff_ffff_ffff_ffff_ffff_ffff_ffff_ffff ≡ 128
unfolding bit_length
bits_max = refl
