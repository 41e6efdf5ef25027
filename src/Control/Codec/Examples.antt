-- ===== src/Control/Codec/Examples.antt =====
-- Runs of the codec on small inputs, and its theorems at concrete inputs.
use p4net.Base.{
  ℕ, ◌≤◌, ◌<◌, ◌≡◌, refl, ◌↔◌, List, [], ◌∷◌, arith, length, All, pos, negsuc, ok, err, traverse,
  true,
}
use p4net.Base.Text.{Text, codes, count, has, split, join, rsplit_last}
use p4net.Builtins.Bytes.{IsByte, from_bytes, to_bytes, bit_length, lstrip_zero}
use p4net.Builtins.IntText.{parse_int, decimal}
use p4net.Builtins.Address.{ipv4_packed, ipv6_int, octets, parse_octet, ipv4_text, octet_texts}
use p4net.Control.Codec.{
  Arg, one, pair, bytes, bool, int, str, zero_width, negative, too_wide, host_bits, mac_width,
  masked_bits, ternary_type, range_order, range_type, encode_int, encode_ipv4, mac_groups,
  hex_bytes, encode_mac, encode_ipv6, encode_literal, encode_str, encode_bytes, encode_typed,
  encode_value, decode_bytes, decode_int, lpm_parts, prefix_in_range, check_host_bits, parse_lpm,
  parse_ternary, parse_range, canonicalize, zero_extend, decode_mac, decode_ipv4, encode_values,
  bad_literal,
}
use p4net.Control.Codec.Ints.{Writes, encode_int-iff-Writes}
use p4net.Control.Codec.Canonical.{
  IsCanonical, canonicalize-iff-same_value, zero_extend-canonicalize, decode-canonicalize-encode,
  padded, canonicalize_shortest,
}
use p4net.Control.Codec.Macs.{encode_mac_total, encode_mac-decode_mac}
use p4net.Control.Codec.Ipv4.{encode_ipv4-decode_ipv4}
use p4net.Control.Codec.Values.{FitsField, encode_value-FitsField}
use p4net.Control.Codec.Keys.{IsLpm, parse_lpm-iff-IsLpm, IsTernary, parse_ternary-iff-IsTernary}

program : Unit {0}
unfolding encode_int encode_ipv4 mac_groups hex_bytes encode_mac encode_ipv6 encode_literal
    encode_str encode_bytes encode_typed encode_value decode_bytes decode_int lpm_parts
    prefix_in_range check_host_bits parse_lpm parse_ternary parse_range canonicalize zero_extend
    decode_mac encode_values traverse count has split join rsplit_last from_bytes to_bytes
    bit_length lstrip_zero parse_int ipv4_packed octets parse_octet ipv6_int decode_ipv4 ipv4_text
    octet_texts decimal
program = tt

abbrev fe80 : Text
fe80 = codes "00:00:00:00:01:fe"

run_values :
    (encode_value (str (codes "10.0.0.1")) 32 ≡ ok (10 ∷ 0 ∷ 0 ∷ 1 ∷ []))
    × (encode_value (str fe80) 48 ≡ ok (0 ∷ 0 ∷ 0 ∷ 0 ∷ 1 ∷ 254 ∷ []))
    × (encode_value (str fe80) 32 ≡ err mac_width)
    × (encode_value (str (codes "0x1ff")) 9 ≡ ok (1 ∷ 255 ∷ []))
    × (encode_value (str (codes "512")) 9 ≡ err too_wide)
    × (encode_value (str (codes "1.2.3")) 32 ≡ err bad_literal)
    × (encode_value (int (negsuc 0)) 8 ≡ err negative)
    × (encode_value (bool true) 0 ≡ err zero_width)
unfolding program
run_values = (refl, refl, refl, refl, refl, refl, refl, refl)

run_lpm :
    (parse_lpm (one (str (codes "10.0.1.0/24"))) 32 ≡ ok (10 ∷ 0 ∷ 1 ∷ 0 ∷ [], 24))
    × (parse_lpm (one (str (codes "10.0.1.1/24"))) 32 ≡ err host_bits)
    × (parse_lpm (one (str (codes "10.0.1.1/0"))) 32 ≡ ok (10 ∷ 0 ∷ 1 ∷ 1 ∷ [], 0))
unfolding program
run_lpm = (refl, refl, refl)

-- `$` lets one newline through, and `int` strips it.
mac_with_newline : encode_mac (codes "00:00:00:00:00:01\n") ≡ ok (0 ∷ 0 ∷ 0 ∷ 0 ∷ 0 ∷ 1 ∷ [])
unfolding program
mac_with_newline = refl

encode_300 : encode_int (int (pos 300)) 12 ≡ ok (1 ∷ 44 ∷ [])
unfolding program
encode_300 = refl

encode_int-iff-Writes_example :
    (encode_int (int (pos 300)) 12 ≡ ok (1 ∷ 44 ∷ [])) ↔ Writes 12 300 (1 ∷ 44 ∷ [])
encode_int-iff-Writes_example = encode_int-iff-Writes 300 12 (1 ∷ 44 ∷ [])

canonicalize-iff-same_value_example :
    (canonicalize (0 ∷ 0 ∷ 7 ∷ []) ≡ canonicalize (7 ∷ []))
    ↔ (from_bytes (0 ∷ 0 ∷ 7 ∷ []) ≡ from_bytes (7 ∷ []))
canonicalize-iff-same_value_example =
    canonicalize-iff-same_value (0 ∷ 0 ∷ 7 ∷ []) (7 ∷ []) (omega arith) (omega arith)

canonicalize_shortest_example :
    IsCanonical (canonicalize (0 ∷ 9 ∷ [])) × (length (canonicalize (0 ∷ 9 ∷ [])) ≤ 3)
canonicalize_shortest_example =
    canonicalize_shortest (0 ∷ 9 ∷ []) (0 ∷ 0 ∷ 9 ∷ []) (omega arith) (omega arith)
      (unfold from_bytes in refl) (omega arith)

zero_extend-canonicalize_example : zero_extend (canonicalize (0 ∷ 9 ∷ [])) 12 ≡ ok (0 ∷ 9 ∷ [])
zero_extend-canonicalize_example =
    zero_extend-canonicalize (0 ∷ 9 ∷ []) 12 (omega arith) refl (omega arith)

decode-canonicalize-encode_example :
    (decode_int (bytes (1 ∷ 44 ∷ [])) 12 ≡ ok 300)
    × (decode_int (bytes (canonicalize (1 ∷ 44 ∷ []))) 12 ≡ ok 300)
decode-canonicalize-encode_example = decode-canonicalize-encode 300 12 (1 ∷ 44 ∷ []) encode_300

encode_mac_total_example :
    (bs : List ℕ) × (encode_mac fe80 ≡ ok bs) × (length bs ≡ 6) × All IsByte bs
encode_mac_total_example = encode_mac_total fe80 (unfold mac_groups in refl)

mac_text : decode_mac (bytes (1 ∷ 254 ∷ [])) ≡ ok fe80
unfolding program
mac_text = refl

encode_mac-decode_mac_example : (2 ≤ 6) × (encode_mac fe80 ≡ ok (padded (1 ∷ 254 ∷ []) 48))
encode_mac-decode_mac_example = encode_mac-decode_mac (1 ∷ 254 ∷ []) fe80 (omega arith) mac_text

ipv4_read : decode_ipv4 (bytes (10 ∷ 0 ∷ 1 ∷ [])) ≡ ok (codes "0.10.0.1")
unfolding program
ipv4_read = refl

encode_ipv4-decode_ipv4_example :
    (3 ≤ 4) × (encode_ipv4 (codes "0.10.0.1") ≡ ok (padded (10 ∷ 0 ∷ 1 ∷ []) 32))
encode_ipv4-decode_ipv4_example =
    encode_ipv4-decode_ipv4 (10 ∷ 0 ∷ 1 ∷ []) (codes "0.10.0.1") (omega arith) ipv4_read

ipv6_value : encode_value (str (codes "::1")) 128 ≡ ok (to_bytes 16 1)
unfolding program
ipv6_value = refl

encode_value-FitsField_example : (0 < 128) × FitsField 128 (to_bytes 16 1)
encode_value-FitsField_example =
    encode_value-FitsField (str (codes "::1")) 128 (to_bytes 16 1) tt ipv6_value

abbrev subnet : Arg
subnet = one (str (codes "10.0.1.0/24"))

parse_lpm-iff-IsLpm_example :
    (parse_lpm subnet 32 ≡ ok (10 ∷ 0 ∷ 1 ∷ 0 ∷ [], 24)) ↔ IsLpm subnet 32 (10 ∷ 0 ∷ 1 ∷ 0 ∷ []) 24
parse_lpm-iff-IsLpm_example = parse_lpm-iff-IsLpm subnet 32 (10 ∷ 0 ∷ 1 ∷ 0 ∷ []) 24

parse_ternary-iff-IsTernary_example :
    (parse_ternary (pair (int (pos 4)) (int (pos 12))) 8 ≡ ok (4 ∷ [], 12 ∷ []))
    ↔ IsTernary (pair (int (pos 4)) (int (pos 12))) 8 (4 ∷ []) (12 ∷ [])
parse_ternary-iff-IsTernary_example =
    parse_ternary-iff-IsTernary (pair (int (pos 4)) (int (pos 12))) 8 (4 ∷ []) (12 ∷ [])

run_pairs :
    (parse_ternary (pair (int (pos 4)) (int (pos 12))) 8 ≡ ok (4 ∷ [], 12 ∷ []))
    × (parse_ternary (pair (int (pos 2)) (int (pos 12))) 8 ≡ err masked_bits)
    × (parse_ternary (one (int (pos 2))) 8 ≡ err ternary_type)
    × (parse_range (pair (int (pos 4)) (int (pos 12))) 8 ≡ ok (4 ∷ [], 12 ∷ []))
    × (parse_range (pair (int (pos 12)) (int (pos 4))) 8 ≡ err range_order)
    × (parse_range (one (int (pos 2))) 8 ≡ err range_type)
unfolding program
run_pairs = (refl, refl, refl, refl, refl, refl)
