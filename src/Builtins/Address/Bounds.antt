-- ===== src/Builtins/Address/Bounds.antt =====
-- The numbers that `ipaddress` returns fit their addresses.
use p4net.Base.{
  ℕ, zero, suc, ◌+◌, ◌-◌, ◌*◌, ◌^◌, ◌≤◌, ◌<◌, ◌≡◌, refl, ap, inl, inr, Bool, true, false, some,
  List, [], ◌∷◌, arith, ◌==◌, length, take, drop, All, Bool-cases, Option-cases, if◌then◌else◌,
}
use p4net.Base.Text.{Text, split}
use p4net.Builtins.Bytes.{IsByte}
use p4net.Builtins.IntText.{digit_value, digits}
use p4net.Builtins.Address.{
  parse_octet, octets, ipv4_packed, hextet, hextets, joined_runs, at_gap, by_gaps, ipv6_groups,
  ipv6_number, ipv6_int, gaps, inner, dotted_suffix, without_scope, first_empty, last_text,
  is_empty,
}
use native.Mathlib.Nat.{pow-suc, pow-zero, add-zero, add-suc, one-le-pow, pow-le-pow_right}

octet-IsByte : (s : Text) (n : ℕ) → parse_octet s ≡ some n → IsByte n
unfolding parse_octet
octet-IsByte [] n h = cc
octet-IsByte (c ∷ s) n h = ground arith

octets_cons :
    (t : Text) (ts : List Text) (ns : List ℕ)
    → octets (t ∷ ts) ≡ some ns
    → (n : ℕ) × (rest : List ℕ) × (parse_octet t ≡ some n)
      × (octets ts ≡ some rest)
      × (ns ≡ n ∷ rest)
unfolding octets
octets_cons t ts ns h = elim (Option-cases (parse_octet t)) [
  | inl e ↦ cc (rw (e, octets) at h)
  | inr (n, e) ↦ elim (Option-cases (octets ts)) [
    | inl f ↦ cc (rw (e, octets, f) at h)
    | inr (rest, f) ↦ (n, rest, e, f, cc (rw (e, octets, f) at h))
  ]
]

octets_bytes :
    (ts : List Text) (ns : List ℕ) → octets ts ≡ some ns → (length ns ≡ length ts) × All IsByte ns
octets_bytes [] ns h = let e : ns ≡ [] = unfold octets in cc h in rw e (refl, tt)
octets_bytes (t ∷ ts) ns h =
    let (n, rest, e, f, eq) = octets_cons t ts ns h in
    let (size, small) = octets_bytes ts rest f in rw eq (ap suc size, (octet-IsByte t n e, small))

-- A dotted address is four bytes.
pub ipv4_packed_bytes :
    (s : Text) (bs : List ℕ) → ipv4_packed s ≡ some bs → (length bs ≡ 4) × All IsByte bs
unfolding ipv4_packed
ipv4_packed_bytes s bs h = ground (arith, octets_bytes (split b'.' s) bs)

digit_value-lt : (base c d : ℕ) → digit_value base c ≡ some d → d < base
unfolding digit_value
digit_value-lt base c d h = ground arith

scaled : (a b p : ℕ) → a ≤ b → a * p ≤ b * p
scaled a b p h = grind arith

digits-lt :
    (bare : Bool) (acc : ℕ) (s : Text) (n : ℕ)
    → digits 16 bare acc s ≡ some n
    → n < (acc + 1) * 16 ^ length s
unfolding digits
digits-lt true acc [] n h = cc
digits-lt false acc [] n h = ground arith
digits-lt bare acc (c ∷ s) n h = elim (Bool-cases (c == b'_')) [
  | inl us ↦ elim (Bool-cases bare) [
    | inl b ↦ cc (rw (us, b, digits) at h)
    | inr b ↦ omega (
      arith,
      digits-lt true acc s n (rw (us, b, digits) at h),
      ap (λ (t : ℕ). (acc + 1) * t) (pow-suc 16 (length s)),
    )
  ]
  | inr digit ↦ elim (Option-cases (digit_value 16 c)) [
    | inl e ↦ cc (rw (digit, digits, e) at h)
    | inr (d, e) ↦ omega (
      arith,
      digits-lt false (acc * 16 + d) s n (rw (digit, digits, e) at h),
      pow-suc 16 (length s),
      digit_value-lt 16 c d e,
      scaled (acc * 16 + d + 1) ((acc + 1) * 16) (16 ^ length s)
          (omega (arith, digit_value-lt 16 c d e)),
      ap (λ (t : ℕ). (acc + 1) * t) (pow-suc 16 (length s)),
    )
  ]
]

hextet-lt : (s : Text) (n : ℕ) → hextet s ≡ some n → n < 65536
unfolding hextet
hextet-lt s n h =
    ground
      (arith, digits-lt true 0 s n, pow-le-pow_right {n = 16} (omega arith) {i = length s} {j = 4})

hextets-lt :
    (ts : List Text) (acc n : ℕ) → hextets acc ts ≡ some n → n < (acc + 1) * 65536 ^ length ts
unfolding hextets
hextets-lt [] acc n h = ground arith
hextets-lt (t ∷ ts) acc n h = elim (Option-cases (hextet t)) [
  | inl e ↦ cc (rw (e, hextets) at h)
  | inr (d, e) ↦ omega (
    arith,
    hextets-lt ts (acc * 65536 + d) n (rw (e, hextets) at h),
    scaled (acc * 65536 + d + 1) ((acc + 1) * 65536) (65536 ^ length ts)
        (omega (arith, hextet-lt t d e)),
    ap (λ (t : ℕ). (acc + 1) * t) (pow-suc 65536 (length ts)),
  )
]

pow_groups : (a b : ℕ) → 65536 ^ (a + b) ≡ 65536 ^ a * 65536 ^ b
pow_groups a zero = omega (arith, ap (λ t. 65536 ^ t) (add-zero a), pow-zero 65536)
pow_groups a (suc b) = omega (
  arith,
  ap (λ t. 65536 ^ t) (add-suc a b),
  pow-suc 65536 (a + b),
  pow_groups a b,
  ap (λ (t : ℕ). 65536 ^ a * t) (pow-suc 65536 b),
)

-- `hi` groups, a gap of `k` and `lo` groups, eight in all at most.
two_runs :
    (hi k lo v n : ℕ)
    → v < 65536 ^ hi
    → n < (v * 65536 ^ k + 1) * 65536 ^ lo
    → hi + k + lo ≤ 8
    → n < 2 ^ 128
two_runs hi k lo v n hv hn total = omega (
  arith,
  hn,
  scaled (v * 65536 ^ k + 1) (65536 ^ (hi + k)) (65536 ^ lo) head,
  pow_groups (hi + k) lo,
  pow-le-pow_right {n = 65536} (omega arith) total,
)
  where
    head : v * 65536 ^ k + 1 ≤ 65536 ^ (hi + k)
    head = omega (
      arith,
      scaled (v + 1) (65536 ^ hi) (65536 ^ k) (omega arith),
      one-le-pow k 65536,
      pow_groups hi k,
    )

length-take-le : {A : Type 0} (n : ℕ) (xs : List A) → length (take n xs) ≤ n
length-take-le zero xs = omega arith
length-take-le (suc n) [] = omega arith
length-take-le (suc n) (x ∷ xs) = omega (arith, length-take-le n xs)

length-drop : {A : Type 0} (n : ℕ) (xs : List A) → length (drop n xs) ≡ length xs - n
length-drop zero xs = omega arith
length-drop (suc n) [] = omega arith
length-drop (suc n) (x ∷ xs) = omega (arith, length-drop n xs)

joined_runs-lt :
    (hi lo : ℕ) (parts : List Text) (n : ℕ)
    → hi + lo ≤ 7
    → joined_runs hi lo parts ≡ some n
    → n < 2 ^ 128
unfolding joined_runs
joined_runs-lt hi lo parts n room h = elim (Option-cases (hextets 0 (take hi parts))) [
  | inl e ↦ cc (rw (e, joined_runs) at h)
  | inr (v, e) ↦
      two_runs (length (take hi parts)) (8 - (hi + lo)) (length (drop (length parts - lo) parts)) v
        n (omega (arith, hextets-lt (take hi parts) 0 v e))
        (hextets-lt (drop (length parts - lo) parts) (v * 65536 ^ (8 - (hi + lo))) n
          (rw (e, joined_runs) at h))
        (omega (arith, length-take-le hi parts, length-drop (length parts - lo) parts))
]

at_gap-lt : (g : ℕ) (parts : List Text) (n : ℕ) → at_gap g parts ≡ some n → n < 2 ^ 128
unfolding at_gap
at_gap-lt g parts n h =
    let lead = first_empty parts in
    let trail = is_empty (last_text parts) in
    let hi = if lead then g - 1 else g in
    let lo = if trail then length parts - g - 2 else length parts - g - 1 in
    ground (arith, joined_runs-lt hi lo parts n)

eight_groups :
    (parts : List Text) (n : ℕ) → length parts ≡ 8 → hextets 0 parts ≡ some n → n < 2 ^ 128
eight_groups parts n size h = omega (arith, hextets-lt parts 0 n h, ap (λ t. 65536 ^ t) size)

by_gaps-lt : (gs : List ℕ) (parts : List Text) (n : ℕ) → by_gaps gs parts ≡ some n → n < 2 ^ 128
unfolding by_gaps
by_gaps-lt [] parts n h = ground (arith, eight_groups parts n)
by_gaps-lt (g ∷ []) parts n h = at_gap-lt g parts n h
by_gaps-lt (g ∷ g' ∷ gs) parts n h = cc

ipv6_number-lt : (s : Text) (n : ℕ) → ipv6_number s ≡ some n → n < 2 ^ 128
unfolding ipv6_number ipv6_groups
ipv6_number-lt s n h = elim (Option-cases (dotted_suffix (split b':' s))) [
  | inl e ↦ ground arith
  | inr (parts, e) ↦ ground (arith, by_gaps-lt (gaps 1 (inner parts)) parts n)
]

-- An IPv6 address is below `2 ** 128`.
pub ipv6_int-lt : (s : Text) (n : ℕ) → ipv6_int s ≡ some n → n < 2 ^ 128
unfolding ipv6_int
ipv6_int-lt s n h = elim (Option-cases (without_scope s)) [
  | inl e ↦ ground arith
  | inr (address, e) ↦ ground (arith, ipv6_number-lt address n)
]
