-- ===== src/Control/Index/Matching.antt =====
-- What an encoded match key matches: the forms that `encode_match` sends, the ones that it leaves
-- out included, accept exactly the packets that the caller's values describe.
use p4net.Base.{
  ℕ, ◌-◌, ◌/◌, ◌^◌, ◌≤◌, ◌<◌, ◌≡◌, refl, ap, sym, ◌∙◌, ◌↔◌, inl, inr, true, Option, none, some,
  List, [], ◌∷◌, arith, ◌==◌, Bool-cases, ok, >>=-eq-ok, ok_inj, if◌then◌else◌, ℤ, pos, subst,
  require, ◌&&◌,
}
use p4net.Base.Bits.{bit_and-zero}
use p4net.Base.Text.{rsplit_last}
use p4net.Builtins.IntText.{parse_int}
use p4net.Builtins.Bytes.{from_bytes}
use p4net.Control.Codec.{
  Value, Arg, one, pair, tuple, other, bytes, bool, int, str, no_slash, bad_prefix, encode_value,
  parse_lpm, parse_ternary, parse_range, canonicalize, lpm_parts,
}
use p4net.Control.Codec.Canonical.{from_bytes-canonicalize}
use p4net.Control.Codec.Values.{IsPython, encode_value-FitsField}
use p4net.Control.Codec.Keys.{parse_lpm-iff-IsLpm}
use p4net.Control.Index.{MatchType, exact, lpm, ternary, range, optional, unspecified}
use p4net.Control.Index.MatchKeys.{
  MatchForm, exact_form, lpm_form, ternary_form, range_form, optional_form, as_value, all_zero,
}
use Prim.Native.Nat.{bit_and}
use native.Mathlib.Nat.{div-eq_of_lt}

-- When a field of `w` bits with the number `x` satisfies a form, as P4Runtime defines it.
abbrev pub FormMatches : ℕ → MatchForm → ℕ → Type 0
FormMatches w (exact_form bs) x = x ≡ from_bytes bs
FormMatches w (lpm_form bs len) x = x / 2 ^ (w - len) ≡ from_bytes bs / 2 ^ (w - len)
FormMatches w (ternary_form v m) x =
    bit_and x (from_bytes m) ≡ bit_and (from_bytes v) (from_bytes m)
FormMatches w (range_form lo hi) x = (from_bytes lo ≤ x) × (x ≤ from_bytes hi)
FormMatches w (optional_form bs) x = x ≡ from_bytes bs

-- A field that is left out matches everything.
abbrev pub SentMatches : ℕ → Option MatchForm → ℕ → Type 0
SentMatches w none x = Unit
SentMatches w (some form) x = FormMatches w form x

-- When `x` is what the caller's argument describes.
abbrev pub KeyMatches : MatchType → ℕ → Arg → ℕ → Type 0
KeyMatches exact w arg x =
    (bs : List ℕ) × (encode_value (as_value arg) w ≡ ok bs) × (x ≡ from_bytes bs)
KeyMatches optional w arg x =
    (bs : List ℕ) × (encode_value (as_value arg) w ≡ ok bs) × (x ≡ from_bytes bs)
KeyMatches lpm w arg x =
    (bs : List ℕ) × (len : ℕ) × (parse_lpm arg w ≡ ok (bs, len))
    × (x / 2 ^ (w - len) ≡ from_bytes bs / 2 ^ (w - len))
KeyMatches ternary w arg x =
    (v : List ℕ) × (m : List ℕ) × (parse_ternary arg w ≡ ok (v, m))
    × (bit_and x (from_bytes m) ≡ bit_and (from_bytes v) (from_bytes m))
KeyMatches range w arg x =
    (lo : List ℕ) × (hi : List ℕ) × (parse_range arg w ≡ ok (lo, hi))
    × (from_bytes lo ≤ x)
    × (x ≤ from_bytes hi)
KeyMatches unspecified w arg x = ⊥

-- `bytes` objects in the argument hold bytes.
abbrev pub IsPythonArg : Arg → Type 0
IsPythonArg (one v) = IsPython v
IsPythonArg (pair v m) = IsPython v × IsPython m
IsPythonArg tuple = Unit

pub all_zero→ : (bs : List ℕ) → all_zero bs ≡ true → from_bytes bs ≡ 0
unfolding all_zero from_bytes
all_zero→ [] h = refl
all_zero→ (b ∷ bs) h = ground (arith, all_zero→ bs)

pub lpm_addr-IsPython :
    (arg : Arg) (addr : Value) (len : ℤ)
    → IsPythonArg arg
    → lpm_parts arg ≡ ok (addr, len)
    → IsPython addr
unfolding lpm_parts
lpm_addr-IsPython (one (str s)) addr len p e =
    let ((front, prefix), _, e1) = >>=-eq-ok (require (rsplit_last b'/' s) no_slash) _ e in
    let (n, _, e2) = >>=-eq-ok (require (parse_int 10 prefix) bad_prefix) _ e1 in
    subst IsPython (ap (λ q. q.0) (ok_inj e2)) tt
lpm_addr-IsPython (one (bytes bs)) addr len p e = cc
lpm_addr-IsPython (one (bool b)) addr len p e = cc
lpm_addr-IsPython (one (int n)) addr len p e = cc
lpm_addr-IsPython (one other) addr len p e = cc
lpm_addr-IsPython (pair v (int n)) addr len p e = subst IsPython (ap (λ q. q.0) (ok_inj e)) p.0
lpm_addr-IsPython (pair v (bytes bs)) addr len p e = cc
lpm_addr-IsPython (pair v (bool b)) addr len p e = cc
lpm_addr-IsPython (pair v (str s)) addr len p e = cc
lpm_addr-IsPython (pair v other) addr len p e = cc
lpm_addr-IsPython tuple addr len p e = cc

-- A prefix of length 0 leaves no bit of the field.
lpm_value-lt :
    (arg : Arg) (w len : ℕ) (bs : List ℕ)
    → IsPythonArg arg
    → parse_lpm arg w ≡ ok (bs, len)
    → from_bytes bs < 2 ^ w
lpm_value-lt arg w len bs p e =
    let key = (parse_lpm-iff-IsLpm arg w bs len).0 e in
    (encode_value-FitsField key.addr w bs (lpm_addr-IsPython arg key.addr (pos len) p key.parts)
      key.encoded).1.value

module _ (w x : ℕ) (arg : Arg) (p : IsPythonArg arg) (small : x < 2 ^ w) where
  pub exact-matches :
      (bs : List ℕ)
      → encode_value (as_value arg) w ≡ ok bs
      → FormMatches w (exact_form (canonicalize bs)) x ↔ KeyMatches exact w arg x
  exact-matches bs e = (
    λ h. (bs, e, h ∙ from_bytes-canonicalize bs),
    λ (out, e', h). h ∙ ap from_bytes (ok_inj (sym e' ∙ e)) ∙ sym (from_bytes-canonicalize bs),
  )

  -- The parse has one result, so the description is an equation about it.
  lpm_key :
      (bs : List ℕ) (len : ℕ)
      → parse_lpm arg w ≡ ok (bs, len)
      → (x / 2 ^ (w - len) ≡ from_bytes bs / 2 ^ (w - len)) ↔ KeyMatches lpm w arg x
  lpm_key bs len e = (
    λ h. (bs, len, e, h),
    λ (bs', len', e', h).
        subst {A = List ℕ × ℕ} (λ q. x / 2 ^ (w - q.1) ≡ from_bytes q.0 / 2 ^ (w - q.1))
          (ok_inj (sym e' ∙ e)) h,
  )

  -- Both sides are 0 where no bit is left.
  no_prefix :
      (bs : List ℕ) (len : ℕ)
      → len ≡ 0
      → from_bytes bs < 2 ^ w
      → x / 2 ^ (w - len) ≡ from_bytes bs / 2 ^ (w - len)
  no_prefix bs len z below =
      let whole : w - len ≡ w = omega arith in rw (whole, div-eq_of_lt small, div-eq_of_lt below)

  pub lpm-matches :
      (bs : List ℕ) (len : ℕ)
      → parse_lpm arg w ≡ ok (bs, len)
      → SentMatches w (if len == 0 then none else some (lpm_form (canonicalize bs) len)) x
        ↔ KeyMatches lpm w arg x
  lpm-matches bs len e = elim (Bool-cases (len == 0)) [
    | inl z ↦ rw z (
      λ _. (lpm_key bs len e).0 (no_prefix bs len (ground arith) (lpm_value-lt arg w len bs p e)),
      λ _. tt,
    )
    | inr nz ↦ rw (nz, from_bytes-canonicalize bs) (lpm_key bs len e)
  ]

  ternary_key :
      (v m : List ℕ)
      → parse_ternary arg w ≡ ok (v, m)
      → (bit_and x (from_bytes m) ≡ bit_and (from_bytes v) (from_bytes m))
        ↔ KeyMatches ternary w arg x
  ternary_key v m e = (
    λ h. (v, m, e, h),
    λ (v', m', e', h).
        subst {A = List ℕ × List ℕ}
          (λ q. bit_and x (from_bytes q.1) ≡ bit_and (from_bytes q.0) (from_bytes q.1))
          (ok_inj (sym e' ∙ e)) h,
  )

  no_mask :
      (v m : List ℕ)
      → all_zero m ≡ true
      → bit_and x (from_bytes m) ≡ bit_and (from_bytes v) (from_bytes m)
  no_mask v m z = rw (all_zero→ m z, bit_and-zero x, bit_and-zero (from_bytes v))

  pub ternary-matches :
      (v m : List ℕ)
      → parse_ternary arg w ≡ ok (v, m)
      → SentMatches w
          (if all_zero m then none else some (ternary_form (canonicalize v) (canonicalize m)))
          x
        ↔ KeyMatches ternary w arg x
  ternary-matches v m e = elim (Bool-cases (all_zero m)) [
    | inl z ↦ rw z (λ _. (ternary_key v m e).0 (no_mask v m z), λ _. tt)
    | inr nz ↦ rw (nz, from_bytes-canonicalize v, from_bytes-canonicalize m) (ternary_key v m e)
  ]

  range_key :
      (lo hi : List ℕ)
      → parse_range arg w ≡ ok (lo, hi)
      → ((from_bytes lo ≤ x) × (x ≤ from_bytes hi)) ↔ KeyMatches range w arg x
  range_key lo hi e = (
    λ h. (lo, hi, e, h.0, h.1),
    λ (lo', hi', e', l, h).
        subst {A = List ℕ × List ℕ} (λ q. (from_bytes q.0 ≤ x) × (x ≤ from_bytes q.1))
          (ok_inj (sym e' ∙ e)) (l, h),
  )

  pub range-matches :
      (lo hi : List ℕ)
      → parse_range arg w ≡ ok (lo, hi)
      → SentMatches w
          (if from_bytes lo == 0 && from_bytes hi == 2 ^ w - 1
            then none
            else some (range_form (canonicalize lo) (canonicalize hi)))
          x
        ↔ KeyMatches range w arg x
  range-matches lo hi e = elim (Bool-cases (from_bytes lo == 0 && from_bytes hi == 2 ^ w - 1)) [
    | inl z ↦ rw z (λ _. (range_key lo hi e).0 (ground arith, ground arith), λ _. tt)
    | inr nz ↦ rw (nz, from_bytes-canonicalize lo, from_bytes-canonicalize hi) (range_key lo hi e)
  ]
