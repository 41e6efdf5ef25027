-- ===== src/Control/Codec/Values.antt =====
-- `encode_value`: whatever the kind of value, what is returned fits the field.
use p4net.Base.{
  ℕ, ◌^◌, ◌≤◌, ◌<◌, ◌≡◌, ap, inl, inr, List, arith, ◌==◌, Bool-cases, Option-cases, length, All, ℤ,
  pos, negsuc, ok, >>=-eq-ok, ◌>>◌, raise_if, require, not, ◌&&◌,
}
use p4net.Base.Text.{Text, count, has}
use p4net.Builtins.Bytes.{
  IsByte, from_bytes, to_bytes, bit_length-le_iff, from_bytes-lt, from_bytes-to_bytes,
  length-to_bytes, to_bytes-IsByte,
}
use p4net.Builtins.IntText.{parse_int}
use p4net.Builtins.Address.{ipv4_packed, ipv6_int}
use p4net.Builtins.Address.Bounds.{ipv4_packed_bytes, ipv6_int-lt}
use p4net.Control.Codec.{
  Value, bytes, bool, int, str, other, Coded, n_bytes, encode_int, encode_ipv4, encode_mac, mac_re,
  encode_str, encode_bytes, encode_typed, encode_value, bool_int, bad_literal, encode_ipv6,
  encode_literal, CodecError,
}
use p4net.Control.Codec.Ints.{Writes, encode_int-iff-Writes}
use p4net.Control.Codec.Macs.{encode_mac_bytes}

-- A Python `bytes` object holds bytes; nothing is asked of the other values.
abbrev pub IsPython : Value → Type 0
IsPython (bytes bs) = All IsByte bs
IsPython _ = Unit

-- What a field of `w` bits may carry.
pub record FitsField (w : ℕ) (bs : List ℕ) : Type 0 where
  pub size : length bs ≤ n_bytes w
  pub digits : All IsByte bs
  pub value : from_bytes bs < 2 ^ w

Writes→FitsField : (w n : ℕ) (bs : List ℕ) → Writes w n bs → FitsField w bs
Writes→FitsField w n bs h = record {
  size = omega (arith, h.size);
  digits = h.digits;
  value = omega (arith, h.value, h.fits);
}

encode_int-FitsField : (n : ℤ) (w : ℕ) (bs : List ℕ) → encode_int (int n) w ≡ ok bs → FitsField w bs
encode_int-FitsField (pos n) w bs e = Writes→FitsField w n bs ((encode_int-iff-Writes n w bs).0 e)
encode_int-FitsField (negsuc n) w bs e = unfold encode_int in cc

encode_bytes-FitsField :
    (given bs : List ℕ) (w : ℕ) → All IsByte given → encode_bytes given w ≡ ok bs → FitsField w bs
unfolding encode_bytes
encode_bytes-FitsField given bs w digits e =
    let same : given ≡ bs = ground arith in
    rw (← same) (record {
      size = ground arith;
      digits = digits;
      value = ground (arith, (bit_length-le_iff (from_bytes given) w).0);
    })

ipv4-FitsField : (s : Text) (bs : List ℕ) → encode_ipv4 s ≡ ok bs → FitsField 32 bs
unfolding encode_ipv4
ipv4-FitsField s bs e = elim (Option-cases (ipv4_packed s)) [
  | inl h ↦ ground arith
  | inr (out, h) ↦
      let (size, digits) = ipv4_packed_bytes s bs (ground arith) in
      record {
        size = omega arith;
        digits = digits;
        value = omega (arith, from_bytes-lt bs digits, ap (λ t. 256 ^ t) size);
      }
]

mac-FitsField : (s : Text) (bs : List ℕ) → encode_mac s ≡ ok bs → FitsField 48 bs
mac-FitsField s bs e =
    let (size, digits) = encode_mac_bytes s bs e in
    record {
      size = omega arith;
      digits = digits;
      value = omega (arith, from_bytes-lt bs digits, ap (λ t. 256 ^ t) size);
    }

ipv6-FitsField : (s : Text) (bs : List ℕ) → encode_ipv6 s ≡ ok bs → FitsField 128 bs
unfolding encode_ipv6
ipv6-FitsField s bs e = elim (Option-cases (ipv6_int s)) [
  | inl h ↦ ground arith
  | inr (n, h) ↦
      let below : n < 256 ^ 16 = omega (arith, ipv6_int-lt s n h) in
      let same : to_bytes 16 n ≡ bs = ground arith in
      rw (← same) (record {
        size = omega (arith, length-to_bytes 16 n);
        digits = to_bytes-IsByte 16 n below;
        value = omega (arith, from_bytes-to_bytes 16 n below);
      })
]

literal-FitsField : (s : Text) (w : ℕ) (bs : List ℕ) → encode_literal s w ≡ ok bs → FitsField w bs
unfolding encode_literal
literal-FitsField s w bs e =
    let (n, parsed, encoded) = >>=-eq-ok (require (parse_int 0 s) bad_literal) _ e in
    encode_int-FitsField n w bs encoded

-- A branch that first checks the width.
at_width :
    (E : CodecError) (k w : ℕ) (m : Coded (List ℕ)) (bs : List ℕ)
    → (m ≡ ok bs → FitsField k bs)
    → (raise_if (not (w == k)) E >> m) ≡ ok bs
    → FitsField w bs
at_width E k w m bs fits e = let width : w ≡ k = ground arith in rw width (fits (ground arith))

encode_str-FitsField : (s : Text) (w : ℕ) (bs : List ℕ) → encode_str s w ≡ ok bs → FitsField w bs
unfolding encode_str
encode_str-FitsField s w bs e = elim (Bool-cases (count b'.' s == 3)) [
  | inl dotted ↦ at_width _ 32 w (encode_ipv4 s) bs (ipv4-FitsField s bs) (rw dotted at e)
  | inr plain ↦ elim (Bool-cases (count b':' s == 5 && mac_re s)) [
    | inl mac ↦ at_width _ 48 w (encode_mac s) bs (mac-FitsField s bs) (rw (plain, mac) at e)
    | inr not_mac ↦ elim (Bool-cases (has b':' s)) [
      | inl colon ↦
          at_width _ 128 w (encode_ipv6 s) bs (ipv6-FitsField s bs)
            (rw (plain, not_mac, colon) at e)
      | inr number ↦ literal-FitsField s w bs (rw (plain, not_mac, number) at e)
    ]
  ]
]

encode_typed-FitsField :
    (v : Value) (w : ℕ) (bs : List ℕ) → IsPython v → encode_typed v w ≡ ok bs → FitsField w bs
unfolding encode_typed
encode_typed-FitsField (bytes given) w bs p e = encode_bytes-FitsField given bs w p e
encode_typed-FitsField (bool b) w bs p e = encode_int-FitsField (pos (bool_int b)) w bs e
encode_typed-FitsField (int n) w bs p e = encode_int-FitsField n w bs e
encode_typed-FitsField (str s) w bs p e = encode_str-FitsField s w bs e
encode_typed-FitsField other w bs p e = cc

-- On every branch that returns, the width is positive, the bytes are no more than the width rounds
-- up to, and they stand for a number below `2 ** bitwidth`.
pub encode_value-FitsField :
    (v : Value) (w : ℕ) (bs : List ℕ)
    → IsPython v
    → encode_value v w ≡ ok bs
    → (0 < w) × FitsField w bs
unfolding encode_value
encode_value-FitsField v w bs p e = elim (Bool-cases (w == 0)) [
  | inl h ↦ ground arith
  | inr h ↦ (ground arith, encode_typed-FitsField v w bs p (rw h at e))
]
