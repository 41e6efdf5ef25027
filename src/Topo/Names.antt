-- ===== src/Topo/Names.antt =====
-- The errors of the topology layer, and its rules on names: the patterns of
-- src/p4net/topo/host.py and link.py, and src/p4net/_ifname.py.
use p4net.Base.{
  ℕ, ◌+◌, ◌≡◌, refl, Bool, true, false, ◌&&◌, ◌||◌, List, [], ◌∷◌, ltb, leb, ◌==◌, if◌then◌else◌,
  length, Result, err, ok, raise_if, ◌>>◌,
}
use p4net.Base.Text.{Text, codes, split, has, is_digit, is_space, text_eq}

-- One `raise` of interface name validation.
pub data IfnameError : Type 0 where
  empty_name : IfnameError
  dot_name : IfnameError
  white_space : IfnameError
  forbidden_character : IfnameError
  not_utf8 : IfnameError
  too_long : IfnameError

-- One `raise TopologyError` of the descriptors and the builder.
pub data TopologyError : Type 0 where
  invalid_name : TopologyError
  invalid_ip : TopologyError
  invalid_mac : TopologyError
  route_without_ip : TopologyError
  invalid_default_route : TopologyError
  invalid_ip6 : TopologyError
  route6_without_ip6 : TopologyError
  invalid_default_route6 : TopologyError
  wrong_suffix : TopologyError
  unsupported_arch : TopologyError
  out_of_range : TopologyError
  invalid_log_level : TopologyError
  negative_port : TopologyError
  empty_node : TopologyError
  not_finite : TopologyError
  both_forms : TopologyError
  jitter_without_delay : TopologyError
  loss_out_of_range : TopologyError
  extra_with_override : TopologyError
  extra_without_base : TopologyError
  negative_extra : TopologyError
  mtu_out_of_range : TopologyError
  no_node : TopologyError
  no_switch : TopologyError
  duplicate_name : TopologyError
  switch_port_range : TopologyError
  cpu_port_taken : TopologyError
  no_free_port : TopologyError
  bad_ifname : IfnameError → TopologyError
  address_on_switch : TopologyError

unfoldable pub is_letter : ℕ → Bool
is_letter c = (leb b'A' c && leb c b'Z') || (leb b'a' c && leb c b'z')

-- `[A-Za-z0-9_-]`
unfoldable pub name_char : ℕ → Bool
unfolding is_letter
name_char c = is_letter c || is_digit c || c == b'_' || c == b'-'

unfoldable pub all_chars : (ℕ → Bool) → Text → Bool
all_chars p [] = true
all_chars p (c ∷ s) = p c && all_chars p s

-- `NAME_RE.fullmatch(s)` for `^[A-Za-z][A-Za-z0-9_-]{0,11}$`.
unfoldable pub name_re : Text → Bool
unfolding all_chars
name_re [] = false
name_re (c ∷ s) = is_letter c && all_chars name_char s && leb (length s) 11

mac_char : ℕ → Bool
mac_char c = is_digit c || (leb b'a' c && leb c b'f') || (leb b'A' c && leb c b'F')

mac_pair : Text → Bool
unfolding mac_char
mac_pair (c ∷ d ∷ []) = mac_char c && mac_char d
mac_pair _ = false

all_pairs : List Text → Bool
unfolding mac_pair
all_pairs [] = true
all_pairs (t ∷ ts) = mac_pair t && all_pairs ts

-- `_MAC_RE.fullmatch(s)`: six pairs of hexadecimal digits between colons.
unfoldable pub mac_fullmatch : Text → Bool
unfolding all_pairs
mac_fullmatch s = let pairs = split b':' s in length pairs == 6 && all_pairs pairs

abbrev is_surrogate : ℕ → Bool
is_surrogate c = leb 55296 c && leb c 57343

-- The bytes of one code point in UTF-8.
unfoldable pub char_bytes : ℕ → ℕ
char_bytes c = if ltb c 128 then 1 else if ltb c 2048 then 2 else if ltb c 65536 then 3 else 4

-- `len(s.encode("utf-8"))`
unfoldable pub utf8_length : Text → ℕ
utf8_length [] = 0
utf8_length (c ∷ s) = char_bytes c + utf8_length s

unfoldable pub any_char : (ℕ → Bool) → Text → Bool
any_char p [] = false
any_char p (c ∷ s) = p c || any_char p s

abbrev pub ifname_max_bytes : ℕ
ifname_max_bytes = 15

abbrev pub is_empty : Text → Bool
is_empty [] = true
is_empty (c ∷ s) = false

unfoldable pub validate_ifname : Text → Result IfnameError (Unit {0})
validate_ifname name = do
  raise_if (is_empty name) empty_name
  raise_if (text_eq name (codes ".") || text_eq name (codes "..")) dot_name
  raise_if (any_char is_space name) white_space
  raise_if (has b'/' name || has b':' name || has 0 name) forbidden_character
  raise_if (any_char is_surrogate name) not_utf8
  raise_if (ltb ifname_max_bytes (utf8_length name)) too_long
  ok tt

names :
    (name_re (codes "h1_a-Z") ≡ true)
    × (name_re (codes "1h") ≡ false)
    × (name_re (codes "abcdefghijklm") ≡ false)
    × (mac_fullmatch (codes "00:11:22:33:44:fF") ≡ true)
    × (mac_fullmatch (codes "00:11:22:33:44:ff ") ≡ false)
    × (validate_ifname (codes "h1-eth0") ≡ ok tt)
    × (validate_ifname (codes "abcdefghijkl-eth0") ≡ err too_long)
unfolding name_re name_char is_letter mac_fullmatch validate_ifname any_char utf8_length char_bytes
    split has text_eq
names = (refl, refl, refl, refl, refl, refl, refl)
