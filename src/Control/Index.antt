-- ===== src/Control/Index.antt =====
-- src/p4net/control/p4info_index.py: names, numbers and encodings over a P4Info message.
-- The protobuf messages are records with the fields that the index reads or writes; parsing one
-- from a file is the protobuf library's.
pub mod Keyed
pub mod MatchKeys
pub mod Matching
pub mod UnknownNames
pub mod WholeKey
pub mod ActionParams
pub mod Actions
pub mod PacketMetadata
pub mod Examples
use p4net.Base.{
  ℕ, ◌-◌, ◌^◌, Bool, true, false, not, ◌&&◌, ◌||◌, Option, none, some, List, [], ◌∷◌, ltb, ◌==◌,
  if◌then◌else◌, ℤ, pos, Result, ok, err, ◌>>=◌, ◌>>◌, raise_if, require, traverse,
}
use p4net.Base.Text.{Text, text_eq, codes}
use p4net.Base.Dict.{Eq, Dict, keys, values, lookup, contains, insert, nat_eq, text_eq_instance}
use p4net.Builtins.Bytes.{from_bytes}
use p4net.Control.Codec.{
  Value, bytes, bool, int, other, Arg, one, pair, tuple, Coded, CodecError, unsupported_match,
  exact_shape, lpm_shape, ternary_shape, range_shape, missing_exact, missing_param, encode_value,
  parse_lpm, parse_ternary, parse_range, canonicalize, format_exact, format_lpm, format_ternary,
  format_range,
}

pub data MatchType : Type 0 where
  exact lpm ternary range optional unspecified : MatchType

pub record Preamble : Type 0 where
  pub id : ℕ
  pub name : Text

pub record MatchField : Type 0 where
  pub id : ℕ
  pub name : Text
  pub bitwidth : ℕ
  pub match_type : MatchType

-- A parameter of an action, and a field of a controller header: the index reads the same of both.
pub record Param : Type 0 where
  pub id : ℕ
  pub name : Text
  pub bitwidth : ℕ

pub record Table : Type 0 where
  pub preamble : Preamble
  pub match_fields : List MatchField

pub record Action : Type 0 where
  pub preamble : Preamble
  pub params : List Param

pub record Register : Type 0 where
  pub preamble : Preamble
  pub bitwidth : ℕ
  pub size : ℕ

-- `controller_packet_metadata`
pub record PacketHeader : Type 0 where
  pub preamble : Preamble
  pub metadata : List Param

pub record P4Info : Type 0 where
  pub tables : List Table
  pub actions : List Action
  pub counters : List Preamble
  pub registers : List Register
  pub headers : List PacketHeader

pub record RegisterSpec : Type 0 where
  pub id : ℕ
  pub name : Text
  pub bitwidth : ℕ
  pub size : ℕ

pub record P4InfoIndex : Type 0 where
  pub tables_by_name : Dict Text Table
  pub actions_by_name : Dict Text Action
  pub counters_by_name : Dict Text Preamble
  pub registers_by_name : Dict Text RegisterSpec
  pub packet_in : Option PacketHeader
  pub packet_out : Option PacketHeader

-- The exception classes that the index raises.
pub data IndexError : Type 0 where
  no_such_table no_such_action no_such_register no_such_field p4runtime : IndexError
  encoding : CodecError → IndexError

abbrev pub Indexed : Type 0 → Type 0
Indexed A = Result IndexError A

abbrev pub lift : {A : Type 0} → Coded A → Indexed A
lift (ok a) = ok a
lift (err e) = err (encoding e)

-- `{key(x): x for x in xs}`, on top of the entries so far.
unfoldable pub index_by : {A K : Type 0} ⦃e : Eq K⦄ → (A → K) → Dict K A → List A → Dict K A
index_by key d [] = d
index_by key d (x ∷ xs) = index_by key (insert (key x) x d) xs

abbrev register_spec : Register → RegisterSpec
register_spec r = record {
  id = r.preamble.id;
  name = r.preamble.name;
  bitwidth = r.bitwidth;
  size = r.size;
}

-- The last header of the name.
unfoldable pub last_header : Text → Option PacketHeader → List PacketHeader → Option PacketHeader
last_header name found [] = found
last_header name found (h ∷ hs) =
    last_header name (if text_eq h.preamble.name name then some h else found) hs

unfoldable pub register_specs : List Register → List RegisterSpec
register_specs [] = []
register_specs (r ∷ rs) = register_spec r ∷ register_specs rs

-- `P4InfoIndex(p4info)`
unfoldable pub new_index : P4Info → P4InfoIndex
new_index info = record {
  tables_by_name = index_by (λ t. t.preamble.name) [] info.tables;
  actions_by_name = index_by (λ a. a.preamble.name) [] info.actions;
  counters_by_name = index_by (λ c. c.name) [] info.counters;
  registers_by_name = index_by (λ r. r.name) [] (register_specs info.registers);
  packet_in = last_header (codes "packet_in") none info.headers;
  packet_out = last_header (codes "packet_out") none info.headers;
}

unfoldable pub table_id : P4InfoIndex → Text → Indexed ℕ
table_id index name = do
  t ← require (lookup name index.tables_by_name) no_such_table
  ok t.preamble.id

unfoldable pub action_id : P4InfoIndex → Text → Indexed ℕ
action_id index name = do
  a ← require (lookup name index.actions_by_name) no_such_action
  ok a.preamble.id

unfoldable pub counter_id : P4InfoIndex → Text → Indexed ℕ
counter_id index name = do c ← require (lookup name index.counters_by_name) p4runtime; ok c.id

unfoldable pub register_by_name : P4InfoIndex → Text → Indexed RegisterSpec
register_by_name index name = require (lookup name index.registers_by_name) no_such_register

-- The name of the first preamble with the id.
unfoldable pub name_of : {A : Type 0} → (A → Preamble) → ℕ → List A → Option Text
name_of preamble id [] = none
name_of preamble id (x ∷ xs) =
    if (preamble x).id == id then some (preamble x).name else name_of preamble id xs

unfoldable pub table_name : P4InfoIndex → ℕ → Indexed Text
table_name index id =
    require (name_of (λ t. t.preamble) id (values index.tables_by_name)) no_such_table

unfoldable pub action_name : P4InfoIndex → ℕ → Indexed Text
action_name index id =
    require (name_of (λ a. a.preamble) id (values index.actions_by_name)) no_such_action

unfoldable pub counter_name : P4InfoIndex → ℕ → Indexed Text
counter_name index id = require (name_of (λ c. c) id (values index.counters_by_name)) p4runtime

abbrev pub needs_priority : MatchType → Bool
needs_priority optional = true
needs_priority ternary = true
needs_priority range = true
needs_priority _ = false

unfoldable pub any_needs_priority : List MatchField → Bool
any_needs_priority [] = false
any_needs_priority (mf ∷ mfs) = needs_priority mf.match_type || any_needs_priority mfs

unfoldable pub table_requires_priority : P4InfoIndex → Text → Indexed Bool
table_requires_priority index name = do
  t ← require (lookup name index.tables_by_name) no_such_table
  ok (any_needs_priority t.match_fields)
