-- ===== src/Control/Codec.antt =====
-- src/p4net/control/codec.py: Python values to P4Runtime byte strings and back.
-- A raised EncodingError is a value of `CodecError`, one constructor for each `raise` of the file.
pub mod Ints
pub mod Canonical
pub mod Values
pub mod Keys
pub mod Macs
pub mod Ipv4
mod Examples
use p4net.Base.{
  ℕ, zero, suc, ◌+◌, ◌-◌, ◌*◌, ◌/◌, ◌%◌, ◌^◌, ◌≤◌, ◌<◌, Bool, true, false, not, ◌&&◌, ◌||◌, Option,
  none, some, List, [], ◌∷◌, ◌++◌, map, ltb, leb, ◌==◌, if◌then◌else◌, ℤ, pos, negsuc, length,
  replicate, Result, ok, err, ◌>>=◌, ◌>>◌, raise_if, require, traverse,
}
use p4net.Base.Text.{Text, codes, count, has, split, join, rsplit_last}
use p4net.Builtins.Bytes.{from_bytes, to_bytes, bit_length, lstrip_zero}
use p4net.Builtins.IntText.{parse_int, decimal, str_int}
use p4net.Builtins.Address.{ipv4_packed, ipv4_text, ipv6_int}
use Prim.Native.Nat.{bit_and}

-- A Python object as the codec tells them apart; `other` is an object of any further type.
pub data Value : Type 0 where
  bytes : List ℕ → Value
  bool : Bool → Value
  int : ℤ → Value
  str : Text → Value
  other : Value

-- What a caller passes for a match field: one object, a tuple of two, or a tuple of another length.
pub data Arg : Type 0 where
  one : Value → Arg
  pair : Value → Value → Arg
  tuple : Arg

pub data CodecError : Type 0 where
  not_int negative zero_width too_wide : CodecError
  bad_ipv4 bad_mac bad_ipv6 bad_literal bad_type : CodecError
  long_bytes wide_bytes : CodecError
  ipv4_width mac_width ipv6_width : CodecError
  not_bytes : CodecError
  no_slash bad_prefix prefix_type lpm_type prefix_range host_bits : CodecError
  ternary_type masked_bits : CodecError
  range_type range_order : CodecError
  unsupported_match exact_shape lpm_shape ternary_shape range_shape : CodecError
  missing_exact missing_param : CodecError

abbrev pub Coded : Type 0 → Type 0
Coded A = Result CodecError A

-- `(bitwidth + 7) // 8`
abbrev pub n_bytes : ℕ → ℕ
n_bytes w = (w + 7) / 8

-- A width is a natural number here: a negative one takes the branch of 0.
unfoldable pub encode_int : Value → ℕ → Coded (List ℕ)
encode_int (int (pos n)) w = do
  raise_if (w == 0) zero_width
  raise_if (ltb w (bit_length n)) too_wide
  ok (to_bytes (n_bytes w) n)
encode_int (int (negsuc n)) w = err negative
encode_int _ w = err not_int

unfoldable pub encode_ipv4 : Text → Coded (List ℕ)
encode_ipv4 s = require (ipv4_packed s) bad_ipv4

abbrev pub is_hex : ℕ → Bool
is_hex c = leb b'0' c && leb c b'9' || leb b'A' c && leb c b'F' || leb b'a' c && leb c b'f'

-- `^[0-9A-Fa-f]{2}(:[0-9A-Fa-f]{2}){5}$` under `re.match`, where `$` also stands before a last
-- newline. The number counts the `:xx` groups that are still to come.
unfoldable pub mac_groups : ℕ → Text → Bool
mac_groups zero (c ∷ d ∷ []) = is_hex c && is_hex d
mac_groups zero (c ∷ d ∷ e ∷ []) = is_hex c && is_hex d && e == 10
mac_groups (suc k) (c ∷ d ∷ e ∷ s) = is_hex c && is_hex d && e == b':' && mac_groups k s
mac_groups _ _ = false

abbrev pub mac_re : Text → Bool
mac_re s = mac_groups 5 s

-- `bytes(int(part, 16) for part in …)`
unfoldable pub hex_bytes : List Text → Option (List ℕ)
hex_bytes [] = some []
hex_bytes (t ∷ ts) = elim (parse_int 16 t) [
  | some (pos n) ↦ elim (hex_bytes ts) [ some ns ↦ some (n ∷ ns) | none ↦ none ]
  | _ ↦ none
]

unfoldable pub encode_mac : Text → Coded (List ℕ)
encode_mac s = do raise_if (not (mac_re s)) bad_mac; require (hex_bytes (split b':' s)) bad_mac

unfoldable pub encode_ipv6 : Text → Coded (List ℕ)
encode_ipv6 s = do n ← require (ipv6_int s) bad_ipv6; ok (to_bytes 16 n)

unfoldable pub encode_literal : Text → ℕ → Coded (List ℕ)
encode_literal s w = do n ← require (parse_int 0 s) bad_literal; encode_int (int n) w

-- The `str` branch of `encode_value`.
unfoldable pub encode_str : Text → ℕ → Coded (List ℕ)
encode_str s w =
    if count b'.' s == 3
    then raise_if (not (w == 32)) ipv4_width >> encode_ipv4 s
    else if count b':' s == 5 && mac_re s
    then raise_if (not (w == 48)) mac_width >> encode_mac s
    else if has b':' s
    then raise_if (not (w == 128)) ipv6_width >> encode_ipv6 s
    else encode_literal s w

unfoldable pub encode_bytes : List ℕ → ℕ → Coded (List ℕ)
encode_bytes bs w = do
  raise_if (ltb (n_bytes w) (length bs)) long_bytes
  raise_if (ltb w (bit_length (from_bytes bs))) wide_bytes
  ok bs

abbrev bool_int : Bool → ℕ
bool_int true = 1
bool_int false = 0

-- `encode_value` behind its first test.
unfoldable pub encode_typed : Value → ℕ → Coded (List ℕ)
encode_typed (bytes bs) w = encode_bytes bs w
encode_typed (bool b) w = encode_int (int (pos (bool_int b))) w
encode_typed (int n) w = encode_int (int n) w
encode_typed (str s) w = encode_str s w
encode_typed other w = err bad_type

unfoldable pub encode_value : Value → ℕ → Coded (List ℕ)
encode_value v w = raise_if (w == 0) zero_width >> encode_typed v w

unfoldable pub decode_bytes : List ℕ → ℕ → Coded ℕ
decode_bytes bs w = do
  raise_if (w == 0) zero_width
  raise_if (ltb (n_bytes w) (length bs)) too_wide
  raise_if (ltb w (bit_length (from_bytes bs))) wide_bytes
  ok (from_bytes bs)

unfoldable pub decode_int : Value → ℕ → Coded ℕ
decode_int (bytes bs) w = decode_bytes bs w
decode_int _ w = err not_bytes

-- The address and the prefix length of an LPM argument, before any range check.
unfoldable pub lpm_parts : Arg → Coded (Value × ℤ)
lpm_parts (one (str s)) = do
  (addr, prefix) ← require (rsplit_last b'/' s) no_slash
  len ← require (parse_int 10 prefix) bad_prefix
  ok (str addr, len)
lpm_parts (one v) = err lpm_type
lpm_parts (pair addr (int len)) = ok (addr, len)
lpm_parts (pair addr v) = err prefix_type
lpm_parts tuple = err lpm_type

-- `prefix_len < 0 or prefix_len > bitwidth`
unfoldable pub prefix_in_range : ℤ → ℕ → Coded ℕ
prefix_in_range (pos n) w = if ltb w n then err prefix_range else ok n
prefix_in_range (negsuc n) w = err prefix_range

-- `(1 << (bitwidth - prefix_len)) - 1`
abbrev host_mask : ℕ → ℕ → ℕ
host_mask w len = 2 ^ (w - len) - 1

-- The last test of `parse_lpm`.
unfoldable pub check_host_bits : List ℕ → ℕ → ℕ → Coded (List ℕ × ℕ)
check_host_bits encoded len w = do
  raise_if (not (len == 0) && not (bit_and (from_bytes encoded) (host_mask w len) == 0)) host_bits
  ok (encoded, len)

unfoldable pub parse_lpm : Arg → ℕ → Coded (List ℕ × ℕ)
parse_lpm arg w = do
  (addr, prefix) ← lpm_parts arg
  len ← prefix_in_range prefix w
  encoded ← encode_value addr w
  check_host_bits encoded len w

unfoldable pub parse_ternary : Arg → ℕ → Coded (List ℕ × List ℕ)
parse_ternary (pair v m) w = do
  enc_val ← encode_value v w
  enc_mask ← encode_value m w
  let mask = from_bytes enc_mask
  let val = from_bytes enc_val
  raise_if (not (mask == 0) && not (bit_and val mask == val)) masked_bits
  ok (enc_val, enc_mask)
parse_ternary _ w = err ternary_type

unfoldable pub parse_range : Arg → ℕ → Coded (List ℕ × List ℕ)
parse_range (pair low high) w = do
  enc_low ← encode_value low w
  enc_high ← encode_value high w
  raise_if (ltb (from_bytes enc_high) (from_bytes enc_low)) range_order
  ok (enc_low, enc_high)
parse_range _ w = err range_type

-- `stripped if stripped else b"\x00"`
abbrev pub or_zero : List ℕ → List ℕ
or_zero [] = 0 ∷ []
or_zero (b ∷ bs) = b ∷ bs

unfoldable pub canonicalize : List ℕ → List ℕ
canonicalize bs = or_zero (lstrip_zero bs)

unfoldable pub encode_values : List Value → ℕ → Coded (List (List ℕ))
unfolding traverse
encode_values vs w = traverse (λ v. encode_value v w) vs

unfoldable pub zero_extend : List ℕ → ℕ → Coded (List ℕ)
zero_extend bs w = do
  raise_if (ltb (n_bytes w) (length bs)) too_wide
  ok (if length bs == n_bytes w then bs else replicate (n_bytes w - length bs) 0 ++ bs)

unfoldable pub decode_ipv4 : Value → Coded Text
decode_ipv4 (bytes bs) = do padded ← zero_extend bs 32; ok (ipv4_text padded)
decode_ipv4 _ = err not_bytes

abbrev hex_char : ℕ → ℕ
hex_char d = if ltb d 10 then 48 + d else 87 + d

-- `f"{b:02x}"`
abbrev hex2 : ℕ → Text
hex2 b = hex_char (b / 16) ∷ hex_char (b % 16) ∷ []

unfoldable pub decode_mac : Value → Coded Text
decode_mac (bytes bs) = do padded ← zero_extend bs 48; ok (join (codes ":") (map hex2 padded))
decode_mac _ = err not_bytes

-- The text of an IPv6 address is Python's.
module _ (ipv6_text : List ℕ → Text) where
  unfoldable pub decode_ipv6 : Value → Coded Text
  decode_ipv6 (bytes bs) = do padded ← zero_extend bs 128; ok (ipv6_text padded)
  decode_ipv6 _ = err not_bytes

  unfoldable pub format_value : List ℕ → ℕ → Coded Text
  format_value bs w =
      if w == 32
      then decode_ipv4 (bytes bs)
      else if w == 48
      then decode_mac (bytes bs)
      else if w == 128
      then decode_ipv6 (bytes bs)
      else (do n ← decode_int (bytes bs) w; ok (decimal n))

  unfoldable pub format_lpm : List ℕ → ℤ → ℕ → Coded Text
  format_lpm value len w = do text ← format_value value w; ok (text ++ (codes "/" ++ str_int len))

  unfoldable pub format_ternary : List ℕ → List ℕ → ℕ → Coded Text
  format_ternary value mask w = do
    v ← format_value value w
    m ← format_value mask w
    ok (v ++ (codes "&" ++ m))

  unfoldable pub format_range : List ℕ → List ℕ → ℕ → Coded Text
  format_range low high w = do
    lo ← format_value low w
    hi ← format_value high w
    ok (codes "[" ++ (lo ++ (codes "," ++ (hi ++ codes "]"))))

  unfoldable pub format_exact : List ℕ → ℕ → Coded Text
  format_exact bs w = format_value bs w
