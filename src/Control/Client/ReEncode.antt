-- ===== src/Control/Client/ReEncode.antt =====
-- Forms that `encode_match` sent for a field, given back to it as raw bytes.
use p4net.Base.{
  ℕ, ◌-◌, ◌^◌, ◌<◌, ◌≡◌, refl, sym, subst, ◌∙◌, inl, inr, Bool, true, false, ◌&&◌, ◌==◌,
  if◌then◌else◌, Option, none, some, List, [], ◌∷◌, length, arith, pos, Bool-cases, ok, >>=-eq-ok,
}
use p4net.Builtins.Bytes.{from_bytes, bit_length-le_iff, pow256_pos}
use p4net.Control.Codec.{
  Coded, Value, bytes, int, Arg, one, pair, tuple, n_bytes, encode_bytes, encode_typed,
  encode_value, lpm_parts, parse_lpm, parse_ternary, parse_range, canonicalize,
}
use p4net.Control.Codec.Canonical.{
  from_bytes-canonicalize, canonicalize-IsByte, length-canonicalize-le, canonicalize-iff-same_value,
}
use p4net.Control.Codec.Values.{IsPython, FitsField, encode_value-FitsField}
use p4net.Control.Codec.Keys.{parse_lpm-iff-IsLpm, parse_ternary_iff, parse_range_iff}
use p4net.Control.Index.{MatchType, exact, lpm, ternary, range, optional, unspecified}
use p4net.Control.Index.MatchKeys.{
  MatchForm, exact_form, lpm_form, ternary_form, range_form, optional_form, as_value, all_zero,
  encode_form,
}
use p4net.Control.Index.Matching.{IsPythonArg, lpm_addr-IsPython, all_zero→}
use p4net.Control.Client.Tables.{raw_form}

module _ (w : ℕ) (bs : List ℕ) (fits : (0 < w) × FitsField w bs) where
  canonical_again : canonicalize (canonicalize bs) ≡ canonicalize bs
  canonical_again =
      let digits = (fits.1).digits in
      (canonicalize-iff-same_value (canonicalize bs) bs (canonicalize-IsByte bs digits) digits).1
        (from_bytes-canonicalize bs)

  encode_again : encode_value (bytes (canonicalize bs)) w ≡ ok (canonicalize bs)
  unfolding encode_value encode_typed encode_bytes
  encode_again =
      let value = from_bytes-canonicalize bs in
      let small = (bit_length-le_iff (from_bytes bs) w).1 (fits.1).value in
      let short = length-canonicalize-le bs (n_bytes w) (fits.1).size (omega (arith, fits.0)) in
      rw value (ground (arith, small, short, fits.0))

-- The bytes of a value, and the same of the bytes that were sent for it.
value_again :
    (v : Value) (w : ℕ) (bs : List ℕ)
    → IsPython v
    → encode_value v w ≡ ok bs
    → (encode_value (bytes (canonicalize bs)) w ≡ ok (canonicalize bs))
      × (canonicalize (canonicalize bs) ≡ canonicalize bs)
value_again v w bs p e =
    let fits = encode_value-FitsField v w bs p e in
    (encode_again w bs fits, canonical_again w bs fits)

all_zero_of_value : (bs : List ℕ) → from_bytes bs ≡ 0 → all_zero bs ≡ true
unfolding all_zero from_bytes
all_zero_of_value [] z = refl
all_zero_of_value (b ∷ bs) z =
    let none_left = all_zero_of_value bs (omega (arith, z)) in
    let scale = pow256_pos (length bs) in
    elim (Bool-cases (b == 0)) [
      | inl h ↦ rw (h, none_left)
      | inr h ↦ absurd (grind (arith, z, scale, h))
    ]

-- Canonical bytes of a mask with a bit keep one.
canonicalize-some_bits : (m : List ℕ) → all_zero m ≡ false → all_zero (canonicalize m) ≡ false
canonicalize-some_bits m h = elim (Bool-cases (all_zero (canonicalize m))) [
  | inr some_bits ↦ some_bits
  | inl zeros ↦
      cc (
        h,
        all_zero_of_value m (sym (from_bytes-canonicalize m) ∙ all_zero→ (canonicalize m) zeros),
      )
]

-- A form is sent again as itself.
unfoldable pub SentAgain : MatchType → ℕ → MatchForm → Type 0
SentAgain mt w form = encode_form mt w (raw_form form) ≡ ok (some form)

the_form :
    {form sent : MatchForm}
    → ◌≡◌ {A = Coded (Option MatchForm)} (ok (some form)) (ok (some sent))
    → form ≡ sent
the_form e = cc

exact_again :
    (v : Value) (w : ℕ) (bs : List ℕ)
    → IsPython v
    → encode_value v w ≡ ok bs
    → SentAgain exact w (exact_form (canonicalize bs))
unfolding SentAgain encode_form raw_form
exact_again v w bs p e = let (again, same) = value_again v w bs p e in rw (again, same)

optional_again :
    (v : Value) (w : ℕ) (bs : List ℕ)
    → IsPython v
    → encode_value v w ≡ ok bs
    → SentAgain optional w (optional_form (canonicalize bs))
unfolding SentAgain encode_form raw_form
optional_again v w bs p e = let (again, same) = value_again v w bs p e in rw (again, same)

lpm_key :
    (c : List ℕ) (len w : ℕ) → lpm_parts (pair (bytes c) (int (pos len))) ≡ ok (bytes c, pos len)
unfolding lpm_parts
lpm_key c len w = refl

lpm_again :
    (arg : Arg) (w : ℕ) (bs : List ℕ) (len : ℕ)
    → IsPythonArg arg
    → (len == 0) ≡ false
    → parse_lpm arg w ≡ ok (bs, len)
    → SentAgain lpm w (lpm_form (canonicalize bs) len)
unfolding SentAgain encode_form raw_form
lpm_again arg w bs len p some_bits e =
    let h = (parse_lpm-iff-IsLpm arg w bs len).0 e in
    let (again, same) =
      value_again h.addr w bs (lpm_addr-IsPython arg h.addr (pos len) p h.parts) h.encoded in
    let parsed =
      (parse_lpm-iff-IsLpm (pair (bytes (canonicalize bs)) (int (pos len))) w (canonicalize bs)
          len).1
        (record {
          addr = bytes (canonicalize bs);
          parts = lpm_key (canonicalize bs) len w;
          in_range = h.in_range;
          encoded = again;
          aligned = rw (from_bytes-canonicalize bs) h.aligned;
        }) in
    rw (parsed, some_bits, same)

ternary_again :
    (v m : Value) (w : ℕ) (bs mask : List ℕ)
    → IsPython v
    → IsPython m
    → all_zero mask ≡ false
    → parse_ternary (pair v m) w ≡ ok (bs, mask)
    → SentAgain ternary w (ternary_form (canonicalize bs) (canonicalize mask))
unfolding SentAgain encode_form raw_form
ternary_again v m w bs mask p q some_bits e =
    let (ev, em, masked) = (parse_ternary_iff v m w bs mask).0 e in
    let (again_v, same_v) = value_again v w bs p ev in
    let (again_m, same_m) = value_again m w mask q em in
    let parsed =
      (parse_ternary_iff (bytes (canonicalize bs)) (bytes (canonicalize mask)) w (canonicalize bs)
          (canonicalize mask)).1
        (again_v, again_m, rw (from_bytes-canonicalize bs, from_bytes-canonicalize mask) masked) in
    rw (parsed, same_v, same_m, canonicalize-some_bits mask some_bits)

range_again :
    (v m : Value) (w : ℕ) (lo hi : List ℕ)
    → IsPython v
    → IsPython m
    → (from_bytes lo == 0 && from_bytes hi == 2 ^ w - 1) ≡ false
    → parse_range (pair v m) w ≡ ok (lo, hi)
    → SentAgain range w (range_form (canonicalize lo) (canonicalize hi))
unfolding SentAgain encode_form raw_form
range_again v m w lo hi p q some_bits e =
    let (el, eh, order) = (parse_range_iff v m w lo hi).0 e in
    let (again_l, same_l) = value_again v w lo p el in
    let (again_h, same_h) = value_again m w hi q eh in
    let parsed =
      (parse_range_iff (bytes (canonicalize lo)) (bytes (canonicalize hi)) w (canonicalize lo)
          (canonicalize hi)).1
        (again_l, again_h, rw (from_bytes-canonicalize lo, from_bytes-canonicalize hi) order) in
    rw (parsed, same_l, same_h, from_bytes-canonicalize lo, from_bytes-canonicalize hi, some_bits)

as_value-IsPython : (arg : Arg) → IsPythonArg arg → IsPython (as_value arg)
as_value-IsPython (one v) p = p
as_value-IsPython (pair v m) p = tt
as_value-IsPython tuple p = tt

module _ (w : ℕ) where
  -- A wildcard is no form.
  wildcard :
      (b : Bool) (sent form : MatchForm)
      → ◌≡◌ {A = Coded (Option MatchForm)} (ok (if b then none else some sent)) (ok (some form))
      → (b ≡ false) × (sent ≡ form)
  wildcard b sent form e = ground arith

  -- Whatever the match type, a form that was sent is sent again from its raw bytes.
  pub encode_form-SentAgain :
      (mt : MatchType) (arg : Arg) (form : MatchForm)
      → IsPythonArg arg
      → encode_form mt w arg ≡ ok (some form)
      → SentAgain mt w form
  unfolding encode_form parse_ternary parse_range
  encode_form-SentAgain exact arg form p e =
      let (bs, e1, e2) = >>=-eq-ok (encode_value (as_value arg) w) _ e in
      subst (SentAgain exact w) (the_form e2)
        (exact_again (as_value arg) w bs (as_value-IsPython arg p) e1)
  encode_form-SentAgain optional arg form p e =
      let (bs, e1, e2) = >>=-eq-ok (encode_value (as_value arg) w) _ e in
      subst (SentAgain optional w) (the_form e2)
        (optional_again (as_value arg) w bs (as_value-IsPython arg p) e1)
  encode_form-SentAgain lpm arg form p e =
      let ((bs, len), e1, e2) = >>=-eq-ok (parse_lpm arg w) _ e in
      let (some_bits, same) = wildcard (len == 0) (lpm_form (canonicalize bs) len) form e2 in
      subst (SentAgain lpm w) same (lpm_again arg w bs len p some_bits e1)
  encode_form-SentAgain ternary (pair v m) form p e =
      let ((bs, mask), e1, e2) = >>=-eq-ok (parse_ternary (pair v m) w) _ e in
      let (some_bits, same) =
        wildcard (all_zero mask) (ternary_form (canonicalize bs) (canonicalize mask)) form e2 in
      subst (SentAgain ternary w) same (ternary_again v m w bs mask p.0 p.1 some_bits e1)
  encode_form-SentAgain ternary (one v) form p e = cc
  encode_form-SentAgain ternary tuple form p e = cc
  encode_form-SentAgain range (pair v m) form p e =
      let ((lo, hi), e1, e2) = >>=-eq-ok (parse_range (pair v m) w) _ e in
      let (some_bits, same) =
        wildcard (from_bytes lo == 0 && from_bytes hi == 2 ^ w - 1)
          (range_form (canonicalize lo) (canonicalize hi)) form e2 in
      subst (SentAgain range w) same (range_again v m w lo hi p.0 p.1 some_bits e1)
  encode_form-SentAgain range (one v) form p e = cc
  encode_form-SentAgain range tuple form p e = cc
  encode_form-SentAgain unspecified arg form p e = cc
