-- ===== src/Control/Codec/Keys.antt =====
-- `parse_lpm`, `parse_ternary` and `parse_range`: what a returned match key satisfies.
use p4net.Base.{
  ℕ, ◌-◌, ◌%◌, ◌^◌, ◌≤◌, ◌≡◌, ◌↔◌, ◌⊎◌, inl, inr, List, refl, arith, ℤ, pos, negsuc, ok,
  Result-cases,
}
use p4net.Base.Bits.{bit_and_low, bit, bit_and_within}
use p4net.Builtins.Bytes.{from_bytes}
use p4net.Control.Codec.{
  Value, Arg, one, pair, tuple, lpm_parts, check_host_bits, prefix_in_range, encode_value,
  parse_lpm, parse_ternary, parse_range,
}
use Prim.Native.Nat.{bit_and}

-- What `parse_lpm` promises of its result: the bytes encode the address, the length is that of the
-- argument and at most the width, and below the prefix all bits are zero unless the length is 0.
pub record IsLpm (arg : Arg) (w : ℕ) (bs : List ℕ) (len : ℕ) : Type 0 where
  pub addr : Value
  pub parts : lpm_parts arg ≡ ok (addr, pos len)
  pub in_range : len ≤ w
  pub encoded : encode_value addr w ≡ ok bs
  pub aligned : (len ≡ 0) ⊎ (from_bytes bs % 2 ^ (w - len) ≡ 0)

prefix_in_range-ok : (p : ℤ) (w len : ℕ) → prefix_in_range p w ≡ ok len → (p ≡ pos len) × (len ≤ w)
unfolding prefix_in_range
prefix_in_range-ok (pos n) w len e = ground arith
prefix_in_range-ok (negsuc n) w len e = cc

prefix_in_range_pos : (w len : ℕ) → len ≤ w → prefix_in_range (pos len) w ≡ ok len
unfolding prefix_in_range
prefix_in_range_pos w len h = ground arith

check_host_bits-ok :
    (out bs : List ℕ) (n len w : ℕ)
    → check_host_bits out n w ≡ ok (bs, len)
    → (out ≡ bs) × (n ≡ len) × ((n ≡ 0) ⊎ (from_bytes out % 2 ^ (w - n) ≡ 0))
unfolding check_host_bits
check_host_bits-ok out bs n len w e =
    (ground arith, ground arith, ground (arith, bit_and_low (w - n) (from_bytes out)))

check_host_bits_aligned :
    (bs : List ℕ) (len w : ℕ)
    → (len ≡ 0) ⊎ (from_bytes bs % 2 ^ (w - len) ≡ 0)
    → check_host_bits bs len w ≡ ok (bs, len)
unfolding check_host_bits
check_host_bits_aligned bs len w (inl h) = ground arith
check_host_bits_aligned bs len w (inr h) = ground (arith, bit_and_low (w - len) (from_bytes bs))

IsLpm-of_steps :
    (arg : Arg) (addr : Value) (prefix : ℤ) (w n len : ℕ) (out bs : List ℕ)
    → lpm_parts arg ≡ ok (addr, prefix)
    → prefix_in_range prefix w ≡ ok n
    → encode_value addr w ≡ ok out
    → check_host_bits out n w ≡ ok (bs, len)
    → IsLpm arg w bs len
IsLpm-of_steps arg addr prefix w n len out bs e1 e2 e3 e4 =
    let (same, size, aligned) = check_host_bits-ok out bs n len w e4 in
    let (whole, fits) = prefix_in_range-ok prefix w n e2 in
    record {
      addr = addr;
      parts = cc;
      in_range = omega arith;
      encoded = cc;
      aligned = rw (← same, ← size) aligned;
    }

parse_lpm→IsLpm :
    (arg : Arg) (w : ℕ) (bs : List ℕ) (len : ℕ)
    → parse_lpm arg w ≡ ok (bs, len)
    → IsLpm arg w bs len
unfolding parse_lpm
parse_lpm→IsLpm arg w bs len e = elim (Result-cases (lpm_parts arg)) [
  | inr (x, e1) ↦ ground arith
  | inl ((addr, prefix), e1) ↦ elim (Result-cases (prefix_in_range prefix w)) [
    | inr (x, e2) ↦ ground arith
    | inl (n, e2) ↦ elim (Result-cases (encode_value addr w)) [
      | inr (x, e3) ↦ ground arith
      | inl (out, e3) ↦ IsLpm-of_steps arg addr prefix w n len out bs e1 e2 e3 (ground arith)
    ]
  ]
]

IsLpm→parse_lpm :
    (arg : Arg) (w : ℕ) (bs : List ℕ) (len : ℕ)
    → IsLpm arg w bs len
    → parse_lpm arg w ≡ ok (bs, len)
unfolding parse_lpm
IsLpm→parse_lpm arg w bs len h =
    rw (h.parts, prefix_in_range_pos w len h.in_range, h.encoded)
      (check_host_bits_aligned bs len w h.aligned)

-- `parse_lpm` returns exactly the keys that `IsLpm` describes.
pub parse_lpm-iff-IsLpm :
    (arg : Arg) (w : ℕ) (bs : List ℕ) (len : ℕ)
    → (parse_lpm arg w ≡ ok (bs, len)) ↔ IsLpm arg w bs len
parse_lpm-iff-IsLpm arg w bs len = (parse_lpm→IsLpm arg w bs len, IsLpm→parse_lpm arg w bs len)

-- Of a pair, `parse_ternary` returns what its parts encode to, unless its own test refuses them.
pub parse_ternary_iff :
    (v m : Value) (w : ℕ) (bs mask : List ℕ)
    → (parse_ternary (pair v m) w ≡ ok (bs, mask)) ↔ (
        (encode_value v w ≡ ok bs)
        × (encode_value m w ≡ ok mask)
        × ((from_bytes mask ≡ 0) ⊎ (bit_and (from_bytes bs) (from_bytes mask) ≡ from_bytes bs)))
unfolding parse_ternary
parse_ternary_iff v m w bs mask =
    (λ e. (ground arith, ground arith, ground arith), λ h. ground arith)

-- Of a pair, `parse_range` returns what its parts encode to, unless the first is the larger.
pub parse_range_iff :
    (low high : Value) (w : ℕ) (lo hi : List ℕ)
    → (parse_range (pair low high) w ≡ ok (lo, hi)) ↔ (
        (encode_value low w ≡ ok lo)
        × (encode_value high w ≡ ok hi)
        × (from_bytes lo ≤ from_bytes hi))
unfolding parse_range
parse_range_iff low high w lo hi =
    (λ e. (ground arith, ground arith, ground arith), λ h. ground arith)

-- A value and a mask: the argument is the pair of them, `bs` and `mask` are their encodings, and
-- the mask is zero or has a digit 1 wherever the value has one.
pub record IsTernary (arg : Arg) (w : ℕ) (bs mask : List ℕ) : Type 0 where
  pub value : Value
  pub mask_value : Value
  pub parts : arg ≡ pair value mask_value
  pub encoded : encode_value value w ≡ ok bs
  pub mask_encoded : encode_value mask_value w ≡ ok mask
  pub within : (from_bytes mask ≡ 0) ⊎ ((i : ℕ) → bit i (from_bytes bs) ≤ bit i (from_bytes mask))

parse_ternary→IsTernary :
    (arg : Arg) (w : ℕ) (bs mask : List ℕ)
    → parse_ternary arg w ≡ ok (bs, mask)
    → IsTernary arg w bs mask
unfolding parse_ternary
parse_ternary→IsTernary (one v) w bs mask e = cc
parse_ternary→IsTernary tuple w bs mask e = cc
parse_ternary→IsTernary (pair v m) w bs mask e =
    let (encoded, mask_encoded, within) = (parse_ternary_iff v m w bs mask).0 e in
    record {
      value = v;
      mask_value = m;
      parts = refl;
      encoded = encoded;
      mask_encoded = mask_encoded;
      within = elim within [
        | inl none_set ↦ inl none_set
        | inr same ↦ inr ((bit_and_within (from_bytes bs) (from_bytes mask)).0 same)
      ];
    }

IsTernary→parse_ternary :
    (arg : Arg) (w : ℕ) (bs mask : List ℕ)
    → IsTernary arg w bs mask
    → parse_ternary arg w ≡ ok (bs, mask)
IsTernary→parse_ternary arg w bs mask h =
    let same : (from_bytes mask ≡ 0) ⊎ (bit_and (from_bytes bs) (from_bytes mask) ≡ from_bytes bs) =
      elim h.within [
        | inl none_set ↦ inl none_set
        | inr digits ↦ inr ((bit_and_within (from_bytes bs) (from_bytes mask)).1 digits)
      ] in
    rw h.parts
      ((parse_ternary_iff h.value h.mask_value w bs mask).1 (h.encoded, h.mask_encoded, same))

-- `parse_ternary` returns `(bs, mask)` exactly where the argument is a pair whose two parts encode to
-- them and, unless the mask is zero, every binary digit 1 of the value is a digit 1 of the mask. In
-- particular it returns nothing for an argument that is no pair.
pub parse_ternary-iff-IsTernary :
    (arg : Arg) (w : ℕ) (bs mask : List ℕ)
    → (parse_ternary arg w ≡ ok (bs, mask)) ↔ IsTernary arg w bs mask
parse_ternary-iff-IsTernary arg w bs mask =
    (parse_ternary→IsTernary arg w bs mask, IsTernary→parse_ternary arg w bs mask)
