-- ===== src/Builtins/Address.antt =====
-- The standard `ipaddress` module as the program uses it: the number that `IPv4Address(text)` and
-- `IPv6Address(text)` stand for, and the text of an IPv4 address.
-- The text of an IPv6 address differs between the supported Python versions (3.13 prints mapped
-- addresses in dotted form), so its users take it as a parameter.
pub mod Bounds
use p4net.Base.{
  ℕ, zero, suc, ◌+◌, ◌-◌, ◌*◌, ◌/◌, ◌%◌, ◌≤◌, ◌<◌, ◌^◌, ◌≡◌, refl, Bool, true, false, not, ◌&&◌,
  ◌||◌, Option, none, some, List, [], ◌∷◌, ◌++◌, arith, ltb, leb, ◌==◌, if◌then◌else◌, length, take,
  drop, inl, inr, Option-cases, Bool-cases,
}
use p4net.Base.Text.{Text, codes, split, join, has, is_digit}
use p4net.Builtins.IntText.{digit_value, digits, decimal}
use mathlib.Core.List.{reverse}
use native.Mathlib.Nat.{pow-suc}

all_digits : Text → Bool
all_digits [] = true
all_digits (c ∷ s) = is_digit c && all_digits s

-- The value of decimal digits.
decimal_value : ℕ → Text → ℕ
decimal_value acc [] = acc
decimal_value acc (c ∷ s) = decimal_value (acc * 10 + (c - 48)) s

leading_zero : Text → Bool
leading_zero (c ∷ d ∷ s) = c == b'0'
leading_zero _ = false

-- One part of a dotted address: 1 to 3 digits, no leading zero, at most 255.
unfoldable pub parse_octet : Text → Option ℕ
unfolding all_digits decimal_value leading_zero
parse_octet [] = none
parse_octet (c ∷ s) =
    let t = c ∷ s in
    let n = decimal_value 0 t in
    if not (all_digits t) || ltb 3 (length t) || leading_zero t || ltb 255 n then none else some n

unfoldable pub octets : List Text → Option (List ℕ)
octets [] = some []
octets (t ∷ ts) = elim (parse_octet t) [
  | none ↦ none
  | some n ↦ elim (octets ts) [ none ↦ none | some ns ↦ some (n ∷ ns) ]
]

-- The bytes of `IPv4Address(text).packed`; `none` is AddressValueError. A `/` is no digit.
unfoldable pub ipv4_packed : Text → Option (List ℕ)
unfolding octets
ipv4_packed s = let parts = split b'.' s in if length parts == 4 then octets parts else none

unfoldable pub octet_texts : List ℕ → List Text
octet_texts [] = []
octet_texts (b ∷ bs) = decimal b ∷ octet_texts bs

-- `str(IPv4Address(packed))`
unfoldable pub ipv4_text : List ℕ → Text
unfolding octet_texts
ipv4_text bs = join (codes ".") (octet_texts bs)

-- A group of 1 to 4 hexadecimal digits, with no underscore.
hextet : Text → Option ℕ
unfolding digits digit_value
hextet s = if ltb 4 (length s) || has b'_' s then none else digits 16 true 0 s

-- The value of the groups so far is `acc`.
hextets : ℕ → List Text → Option ℕ
unfolding hextet
hextets acc [] = some acc
hextets acc (t ∷ ts) = elim (hextet t) [ none ↦ none | some n ↦ hextets (acc * 65536 + n) ts ]

abbrev is_empty : Text → Bool
is_empty [] = true
is_empty (c ∷ s) = false

abbrev first_empty : List Text → Bool
first_empty [] = true
first_empty (t ∷ ts) = is_empty t

abbrev last_text : List Text → Text
last_text [] = []
last_text (t ∷ []) = t
last_text (t ∷ u ∷ ts) = last_text (u ∷ ts)

-- All but the last part.
abbrev front : List Text → List Text
front [] = []
front (t ∷ []) = []
front (t ∷ u ∷ ts) = t ∷ front (u ∷ ts)

-- The positions of the empty parts, of which the first stands at `i`.
gaps : ℕ → List Text → List ℕ
gaps i [] = []
gaps i (t ∷ ts) = let rest = gaps (i + 1) ts in if is_empty t then i ∷ rest else rest

abbrev inner : List Text → List Text
inner [] = []
inner (t ∷ ts) = front ts

-- `hi` groups from the front and `lo` from the back, with zeros between.
joined_runs : ℕ → ℕ → List Text → Option ℕ
unfolding hextets
joined_runs hi lo parts = elim (hextets 0 (take hi parts)) [
  | none ↦ none
  | some v ↦ hextets (v * 65536 ^ (8 - (hi + lo))) (drop (length parts - lo) parts)
]

-- A `::` at position `g`. It stands for one group at least, and an address may only begin or end
-- in a colon where the `::` does.
at_gap : ℕ → List Text → Option ℕ
unfolding joined_runs
at_gap g parts =
    let lead = first_empty parts in
    let trail = is_empty (last_text parts) in
    let hi = if lead then g - 1 else g in
    let lo = if trail then length parts - g - 2 else length parts - g - 1 in
    if (lead && ltb 0 hi) || (trail && ltb 0 lo) || ltb 7 (hi + lo)
    then none
    else joined_runs hi lo parts

by_gaps : List ℕ → List Text → Option ℕ
unfolding at_gap
by_gaps [] parts =
    if length parts == 8 && not (first_empty parts) && not (is_empty (last_text parts))
    then hextets 0 parts
    else none
by_gaps (g ∷ []) parts = at_gap g parts
by_gaps (g ∷ h ∷ gs) parts = none

-- The parts between colons. An empty part that is neither the first nor the last is a `::`.
ipv6_groups : List Text → Option ℕ
unfolding by_gaps gaps
ipv6_groups parts = by_gaps (gaps 1 (inner parts)) parts

hex_digit : ℕ → ℕ
hex_digit d = if ltb d 10 then 48 + d else 87 + d

-- `'%x' % n` for `n` below 65536.
hex_group : ℕ → Text
unfolding hex_digit
hex_group n =
    if ltb n 16
    then hex_digit n ∷ []
    else if ltb n 256
    then hex_digit (n / 16) ∷ hex_digit (n % 16) ∷ []
    else if ltb n 4096
    then hex_digit (n / 256) ∷ hex_digit (n / 16 % 16) ∷ hex_digit (n % 16) ∷ []
    else hex_digit (n / 4096)
      ∷ hex_digit (n / 256 % 16)
      ∷ hex_digit (n / 16 % 16)
      ∷ hex_digit (n % 16)
      ∷ []

hex_pair : List ℕ → List Text
unfolding hex_group
hex_pair (a ∷ b ∷ c ∷ d ∷ []) = hex_group (a * 256 + b) ∷ hex_group (c * 256 + d) ∷ []
hex_pair _ = []

-- A dotted last part stands for two groups.
dotted_suffix : List Text → Option (List Text)
unfolding hex_pair
dotted_suffix parts =
    if has b'.' (last_text parts)
    then (elim (ipv4_packed (last_text parts)) [
      | none ↦ none
      | some bs ↦ some (front parts ++ hex_pair bs)
    ])
    else some parts

-- What stands before a `%`, if the scope behind it is neither empty nor holds another.
without_scope : Text → Option Text
without_scope s = elim (split b'%' s) [
  | a ∷ [] ↦ some a
  | a ∷ z ∷ [] ↦ if is_empty z then none else some a
  | _ ↦ none
]

-- The number of an address text with no scope.
ipv6_number : Text → Option ℕ
unfolding ipv6_groups dotted_suffix
ipv6_number s =
    let parts = split b':' s in
    if ltb (length parts) 3 then none else (elim (dotted_suffix parts) [
      | none ↦ none
      | some groups ↦ if ltb 9 (length groups) then none else ipv6_groups groups
    ])

-- The number that `IPv6Address(text)` holds; `none` is AddressValueError.
unfoldable pub ipv6_int : Text → Option ℕ
unfolding ipv6_number without_scope
ipv6_int s =
    if has b'/' s then none else (elim (without_scope s) [ none ↦ none | some a ↦ ipv6_number a ])

ipv6_forms :
    (ipv6_int (codes "fd00::1") ≡ some 0xfd00_0000_0000_0000_0000_0000_0000_0001)
    × (ipv6_int (codes "::") ≡ some 0)
    × (ipv6_int (codes "::ffff:1.2.3.4%eth0") ≡ some 0xffff_0102_0304)
    × (ipv6_int (codes "1::2::3") ≡ none)
    × (ipv6_int (codes "1:2:3:4:5:6:7") ≡ none)
    × (ipv6_int (codes "1:2:3:4:5:6:7::") ≡ some 0x0001_0002_0003_0004_0005_0006_0007_0000)
unfolding ipv6_int ipv4_packed parse_octet split has
ipv6_forms = (refl, refl, refl, refl, refl, refl)

ipv4_forms :
    (ipv4_packed (codes "10.0.0.255") ≡ some (10 ∷ 0 ∷ 0 ∷ 255 ∷ []))
    × (ipv4_packed (codes "10.0.0.01") ≡ none)
    × (ipv4_packed (codes "10.0.0.256") ≡ none)
unfolding ipv4_packed parse_octet split
ipv4_forms = (refl, refl, refl)
