-- ===== src/Builtins/Interface.antt =====
-- `IPv4Interface` and `IPv6Interface` of the standard `ipaddress` module, and `Path.suffix`.
use p4net.Base.{
  ℕ, zero, suc, ◌+◌, ◌-◌, ◌^◌, ◌*◌, ◌≡◌, refl, Bool, true, false, ◌&&◌, ◌||◌, Option, none, some,
  List, [], ◌∷◌, leb, ◌==◌, if◌then◌else◌,
}
use p4net.Base.Text.{Text, codes, split, has, is_digit, rsplit_last}
use p4net.Builtins.Address.{ipv4_packed, ipv6_int, parse_octet}
use p4net.Builtins.Bytes.{from_bytes}

all_digits : Text → Bool
all_digits [] = true
all_digits (c ∷ s) = is_digit c && all_digits s

prefix_value : ℕ → Text → ℕ
prefix_value acc [] = acc
prefix_value acc (c ∷ s) = prefix_value (acc * 10 + (c - 48)) s

-- A prefix length in ASCII digits, of at most `width`.
prefix_length : ℕ → Text → Bool
unfolding all_digits prefix_value
prefix_length width [] = false
prefix_length width (c ∷ s) = all_digits (c ∷ s) && leb (prefix_value 0 (c ∷ s)) width

-- Some power of two up to `2 ^ p` is `n`.
power_of_two : ℕ → ℕ → Bool
power_of_two zero n = n == 1
power_of_two (suc p) n = n == 2 ^ suc p || power_of_two p n

-- The mask in dotted form: ones above zeros, or the complement of that.
dotted_mask : Text → Bool
unfolding power_of_two
dotted_mask s = elim (ipv4_packed s) [
  | none ↦ false
  | some bs ↦ let n = from_bytes bs in power_of_two 32 (2 ^ 32 - n) || power_of_two 32 (n + 1)
]

-- `IPv4Interface(text).ip.packed`; `none` is one of its ValueErrors.
unfoldable pub ipv4_interface : Text → Option (List ℕ)
unfolding prefix_length dotted_mask
ipv4_interface s = elim (split b'/' s) [
  | a ∷ [] ↦ ipv4_packed a
  | a ∷ m ∷ [] ↦ if prefix_length 32 m || dotted_mask m then ipv4_packed a else none
  | _ ↦ none
]

-- The number of `IPv6Interface(text).ip`.
unfoldable pub ipv6_interface : Text → Option ℕ
unfolding prefix_length
ipv6_interface s = elim (split b'/' s) [
  | a ∷ [] ↦ ipv6_int a
  | a ∷ m ∷ [] ↦ if prefix_length 128 m then ipv6_int a else none
  | _ ↦ none
]

abbrev hidden : Text → Bool
hidden [] = true
hidden (c ∷ []) = c == b'.'
hidden (c ∷ d ∷ s) = false

-- The last part of a path; empty and `.` parts are dropped.
last_part : Text → List Text → Text
last_part name [] = name
last_part name (p ∷ ps) = last_part (if hidden p then name else p) ps

-- `Path(text).suffix`, up to Python 3.13.
unfoldable pub path_suffix : Text → Text
unfolding last_part
path_suffix s = elim (rsplit_last b'.' (last_part [] (split b'/' s))) [
  | some (c ∷ front, d ∷ back) ↦ b'.' ∷ d ∷ back
  | _ ↦ []
]

interfaces :
    (ipv4_interface (codes "10.0.0.1/24") ≡ some (10 ∷ 0 ∷ 0 ∷ 1 ∷ []))
    × (ipv4_interface (codes "10.0.0.1/255.255.255.0") ≡ some (10 ∷ 0 ∷ 0 ∷ 1 ∷ []))
    × (ipv4_interface (codes "10.0.0.1/0.0.0.255") ≡ some (10 ∷ 0 ∷ 0 ∷ 1 ∷ []))
    × (ipv4_interface (codes "10.0.0.1/255.0.255.0") ≡ none)
    × (ipv4_interface (codes "10.0.0.1/33") ≡ none)
    × (ipv4_interface (codes "10.0.0.1/") ≡ none)
    × (ipv6_interface (codes "::1/64") ≡ some 1)
unfolding ipv4_interface ipv6_interface ipv4_packed ipv6_int from_bytes split has parse_octet
interfaces = (refl, refl, refl, refl, refl, refl, refl)

suffixes :
    (path_suffix (codes "a/b.p4") ≡ codes ".p4")
    × (path_suffix (codes "a.p4/./") ≡ codes ".p4")
    × (path_suffix (codes ".p4") ≡ [])
unfolding path_suffix rsplit_last split
suffixes = (refl, refl, refl)
