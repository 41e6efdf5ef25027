-- ===== src/Control/Index/Examples.antt =====
-- A small pipeline, runs of the index over it, and the theorems at concrete inputs.
use p4net.Base.{
  ◌≡◌, refl, ◌↔◌, true, Option, some, List, [], ◌∷◌, arith, ◌==◌, All, pos, ok, err, if◌then◌else◌,
}
use p4net.Base.Text.{Text, codes, text_eq, count, has, split, join, rsplit_last}
use p4net.Base.Dict.{Dict, lookup, contains, insert, text_eq_instance}
use p4net.Builtins.Bytes.{from_bytes, to_bytes, bit_length, lstrip_zero}
use p4net.Builtins.IntText.{parse_int}
use p4net.Builtins.Address.{ipv4_packed, octets, parse_octet}
use p4net.Control.Codec.{
  Value, one, pair, int, str, encode_int, encode_ipv4, encode_literal, encode_str, encode_typed,
  encode_value, lpm_parts, prefix_in_range, check_host_bits, parse_lpm, parse_ternary, parse_range,
  canonicalize, mac_groups,
}
use p4net.Control.Index.{
  Table, Action, P4Info, exact, lpm, ternary, new_index, index_by, last_header, register_specs,
  no_such_field, table_id, table_name, name_of, table_requires_priority, any_needs_priority,
}
use p4net.Control.Index.MatchKeys.{
  Match, FieldMatch, exact_form, lpm_form, all_zero, encode_form, encode_items, known_names,
  exact_present, fields_of, encode_match,
}
use p4net.Control.Index.WholeKey.{
  Packet, AllSentMatch, ItemMatches, encode_match-matches, encode_match-unknown_field_iff,
}
use p4net.Control.Index.UnknownNames.{HasUnknown}
use p4net.Control.Index.ActionParams.{
  WireAction, params_present, encode_params, or_empty, encode_action,
}
use p4net.Control.Index.Actions.{InOrder, encode_action-InOrder}

unfoldable pub program : Unit {0}
unfolding text_eq count has split join rsplit_last lookup contains insert from_bytes to_bytes
    bit_length lstrip_zero parse_int ipv4_packed octets parse_octet encode_int encode_ipv4
    encode_literal encode_str encode_typed encode_value lpm_parts prefix_in_range check_host_bits
    parse_lpm parse_ternary parse_range canonicalize mac_groups new_index index_by last_header
    register_specs all_zero encode_form encode_items known_names exact_present encode_match
    params_present encode_params encode_action table_id table_name name_of table_requires_priority
    any_needs_priority
program = tt

abbrev pub acl : Table
acl = record {
  preamble = record { id = 7; name = codes "acl" };
  match_fields =
      record { id = 1; name = codes "port"; bitwidth = 9; match_type = exact }
      ∷ record { id = 2; name = codes "dst"; bitwidth = 32; match_type = lpm }
      ∷ record { id = 3; name = codes "flags"; bitwidth = 8; match_type = ternary }
      ∷ [];
}

abbrev pub forward : Action
forward = record {
  preamble = record { id = 40; name = codes "forward" };
  params =
      record { id = 1; name = codes "port"; bitwidth = 9 }
      ∷ record { id = 2; name = codes "ttl"; bitwidth = 8 }
      ∷ [];
}

abbrev pub pipeline : P4Info
pipeline = record {
  tables = acl ∷ [];
  actions = forward ∷ [];
  counters = [];
  registers = [];
  headers = [];
}

-- The zero mask is left out of the message.
abbrev pub key : Match
key =
    (codes "flags", pair (int (pos 5)) (int (pos 0)))
    ∷ (codes "dst", one (str (codes "10.0.1.0/24")))
    ∷ (codes "port", one (int (pos 3)))
    ∷ []

abbrev pub sent : List FieldMatch
sent =
    record { field_id = 2; form = lpm_form (10 ∷ 0 ∷ 1 ∷ 0 ∷ []) 24 }
    ∷ record { field_id = 1; form = exact_form (3 ∷ []) }
    ∷ []

pub acl_found : lookup (codes "acl") (new_index pipeline).tables_by_name ≡ some acl
unfolding program
acl_found = refl

pub key_sent : encode_match (new_index pipeline) (codes "acl") key ≡ ok sent
unfolding program
key_sent = refl

index_runs :
    (table_id (new_index pipeline) (codes "acl") ≡ ok 7)
    × (table_name (new_index pipeline) 7 ≡ ok (codes "acl"))
    × (table_requires_priority (new_index pipeline) (codes "acl") ≡ ok true)
unfolding program
index_runs = (refl, refl, refl)

abbrev packet : Packet
packet = record {
  number = λ id. if id == 2 then 0x0a00_0109 else 3;
  width = λ id. if id == 1 then 9 else if id == 2 then 32 else 8;
}

encode_match-matches_example :
    AllSentMatch packet sent ↔ All (ItemMatches (fields_of acl) packet) key
encode_match-matches_example =
    encode_match-matches (new_index pipeline) (codes "acl") acl key sent packet acl_found
      (omega arith) ((tt, tt), (tt, (tt, tt))) key_sent

abbrev misspelt : Match
misspelt = (codes "flag", one (int (pos 1))) ∷ key

encode_match-unknown_field_iff_example :
    (encode_match (new_index pipeline) (codes "acl") misspelt ≡ err no_such_field)
    ↔ HasUnknown acl.match_fields misspelt
encode_match-unknown_field_iff_example =
    encode_match-unknown_field_iff (new_index pipeline) (codes "acl") acl misspelt acl_found

abbrev pub given : Option (Dict Text Value)
given = some ((codes "ttl", int (pos 64)) ∷ (codes "port", str (codes "0x101")) ∷ [])

abbrev pub wire : WireAction
wire = record {
  action_id = 40;
  params =
      record { param_id = 1; value = 1 ∷ 1 ∷ [] } ∷ record { param_id = 2; value = 64 ∷ [] } ∷ [];
}

forward_found : lookup (codes "forward") (new_index pipeline).actions_by_name ≡ some forward
unfolding program
forward_found = refl

action_sent : encode_action (new_index pipeline) (codes "forward") given ≡ ok wire
unfolding program
action_sent = refl

encode_action-InOrder_example :
    (40 ≡ forward.preamble.id)
    × InOrder (or_empty given) forward.params wire.params
    × (known_names (index_by (λ p. p.name) [] forward.params) (or_empty given) ≡ true)
encode_action-InOrder_example =
    encode_action-InOrder (new_index pipeline) (codes "forward") forward given wire forward_found
      action_sent
