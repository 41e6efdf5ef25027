-- ===== src/Control/Codec/Ints.antt =====
-- `encode_int` and `decode_int`: which integers fit, what is written, and the round trip.
use p4net.Base.{
  ℕ, zero, suc, ◌+◌, ◌*◌, ◌^◌, ◌≤◌, ◌<◌, ◌≡◌, refl, ap, ◌↔◌, List, arith, length, All, pos, ok,
}
use p4net.Builtins.Bytes.{
  IsByte, from_bytes, to_bytes, bit_length-le_iff, from_bytes-to_bytes, length-to_bytes,
  to_bytes-IsByte,
}
use p4net.Control.Codec.{int, n_bytes, encode_int, decode_bytes}
use native.Mathlib.Nat.{pow-le-pow_right, pow-suc}
use native.Mathlib.Numerals.{towards_suc}
use p4net.Builtins.Bytes.{from_bytes_inj}

pow_eight : (s : ℕ) → 2 ^ (s + 8) ≡ 256 * 2 ^ s
pow_eight s = simp towards_suc (omega arith)

-- Powers of 256 as powers of two.
pow256 : (n : ℕ) → 256 ^ n ≡ 2 ^ (n * 8)
pow256 zero = refl
pow256 (suc n) = omega (arith, pow-suc 256 n, pow256 n, pow_eight (n * 8), same)
  where
    same : 2 ^ (suc n * 8) ≡ 2 ^ (n * 8 + 8)
    same = ap (λ t. 2 ^ t) (omega arith)

-- A number that fits `w` bits fits the bytes that round `w` up.
pub fits_bytes : (w n : ℕ) → n < 2 ^ w → n < 256 ^ n_bytes w
fits_bytes w n h = omega (
  arith,
  pow256 (n_bytes w),
  pow-le-pow_right {n = 2} (omega arith) {i = w} {j = n_bytes w * 8} (omega arith),
)

-- What `bs` has to be for `n` at width `w`: the big-endian digits, as many as the width rounds to.
pub record Writes (w n : ℕ) (bs : List ℕ) : Type 0 where
  pub positive : 0 < w
  pub fits : n < 2 ^ w
  pub size : length bs ≡ n_bytes w
  pub digits : All IsByte bs
  pub value : from_bytes bs ≡ n

pub encode_int_ok :
    (n w : ℕ) → 0 < w → n < 2 ^ w → encode_int (int (pos n)) w ≡ ok (to_bytes (n_bytes w) n)
unfolding encode_int
encode_int_ok n w h k = ground (arith, (bit_length-le_iff n w).1 k)

pub encode_int-fits :
    (n w : ℕ) (bs : List ℕ)
    → encode_int (int (pos n)) w ≡ ok bs
    → (0 < w) × (n < 2 ^ w) × (bs ≡ to_bytes (n_bytes w) n)
unfolding encode_int
encode_int-fits n w bs h = ground (arith, (bit_length-le_iff n w).0)

encode_int→Writes : (n w : ℕ) (bs : List ℕ) → encode_int (int (pos n)) w ≡ ok bs → Writes w n bs
encode_int→Writes n w bs h =
    let (p, f, e) = encode_int-fits n w bs h in
    record {
      positive = p;
      fits = f;
      size = rw e (length-to_bytes (n_bytes w) n);
      digits = rw e (to_bytes-IsByte (n_bytes w) n (fits_bytes w n f));
      value = rw e (from_bytes-to_bytes (n_bytes w) n (fits_bytes w n f));
    }

Writes→encode_int : (n w : ℕ) (bs : List ℕ) → Writes w n bs → encode_int (int (pos n)) w ≡ ok bs
Writes→encode_int n w bs h = rw (encode_int_ok n w h.positive h.fits) (ap ok same)
  where
    below : n < 256 ^ n_bytes w
    below = fits_bytes w n h.fits

    same : to_bytes (n_bytes w) n ≡ bs
    same =
        from_bytes_inj _ bs (to_bytes-IsByte (n_bytes w) n below) h.digits
          (cc (length-to_bytes (n_bytes w) n, h.size))
          (cc (from_bytes-to_bytes (n_bytes w) n below, h.value))

-- For a non-negative int, `encode_int` returns `bs` exactly when the width is positive, the int
-- is below `2 ** bitwidth`, and `bs` is its big-endian byte string of `(bitwidth + 7) // 8` bytes.
pub encode_int-iff-Writes :
    (n w : ℕ) (bs : List ℕ) → (encode_int (int (pos n)) w ≡ ok bs) ↔ Writes w n bs
encode_int-iff-Writes n w bs = (encode_int→Writes n w bs, Writes→encode_int n w bs)

pub decode_bytes_ok :
    (bs : List ℕ) (w : ℕ)
    → 0 < w
    → length bs ≤ n_bytes w
    → from_bytes bs < 2 ^ w
    → decode_bytes bs w ≡ ok (from_bytes bs)
unfolding decode_bytes
decode_bytes_ok bs w h k f = ground (arith, (bit_length-le_iff (from_bytes bs) w).1 f)

pub decode_bytes-fits :
    (bs : List ℕ) (w n : ℕ)
    → decode_bytes bs w ≡ ok n
    → (0 < w) × (length bs ≤ n_bytes w) × (n < 2 ^ w) × (from_bytes bs ≡ n)
unfolding decode_bytes
decode_bytes-fits bs w n h = ground (arith, (bit_length-le_iff (from_bytes bs) w).0)
