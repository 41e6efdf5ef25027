-- ===== src/Control/Index/PacketMetadata.antt =====
-- The controller packet metadata of src/p4net/control/p4info_index.py.
use p4net.Base.{
  ℕ, Bool, not, true, false, Option, none, some, List, [], ◌∷◌, pos, ok, ◌>>=◌, ◌>>◌, raise_if,
}
use p4net.Base.Text.{Text}
use p4net.Base.Dict.{Dict, lookup, insert, nat_eq, text_eq_instance}
use p4net.Builtins.Bytes.{from_bytes}
use p4net.Control.Codec.{Value, int, encode_value, canonicalize}
use p4net.Control.Index.{Param, PacketHeader, P4InfoIndex, no_such_field, Indexed, lift, index_by}
use p4net.Control.Index.MatchKeys.{known_names}
use p4net.Control.Index.ActionParams.{WireParam}

unfoldable pub schema_pairs : List Param → List (Text × ℕ)
schema_pairs [] = []
schema_pairs (m ∷ ms) = (m.name, m.bitwidth) ∷ schema_pairs ms

-- `packet_in_metadata_schema` and `packet_out_metadata_schema`, of their header.
unfoldable pub metadata_schema : Option PacketHeader → List (Text × ℕ)
metadata_schema none = []
metadata_schema (some header) = schema_pairs header.metadata

-- `metadata.get(m.name, 0)`
abbrev value_or_zero : Option Value → Value
value_or_zero none = int (pos 0)
value_or_zero (some v) = v

unfoldable pub encode_metadata : List Param → Dict Text Value → Indexed (List WireParam)
encode_metadata [] metadata = ok []
encode_metadata (m ∷ ms) metadata = do
  encoded ← lift (encode_value (value_or_zero (lookup m.name metadata)) m.bitwidth)
  rest ← encode_metadata ms metadata
  ok (record { param_id = m.id; value = canonicalize encoded } ∷ rest)

abbrev is_nil : {A : Type 0} → List A → Bool
is_nil [] = true
is_nil (x ∷ xs) = false

unfoldable pub encode_for_header : Option PacketHeader → Dict Text Value → Indexed (List WireParam)
encode_for_header none metadata = do raise_if (not (is_nil metadata)) no_such_field; ok []
encode_for_header (some header) metadata = do
  raise_if (not (known_names (index_by (λ m. m.name) [] header.metadata) metadata)) no_such_field
  encode_metadata header.metadata metadata

unfoldable pub encode_packet_out_metadata : P4InfoIndex → Dict Text Value → Indexed (List WireParam)
encode_packet_out_metadata index metadata = encode_for_header index.packet_out metadata

-- `{int(m.id): m for m in …}`
abbrev pub index_by_id : List Param → Dict ℕ Param
index_by_id ms = index_by (λ m. m.id) [] ms

-- A number that the schema lacks is dropped.
unfoldable pub decode_metadata : Dict ℕ Param → List WireParam → Dict Text ℕ → Dict Text ℕ
decode_metadata schema [] out = out
decode_metadata schema (pm ∷ pms) out =
    decode_metadata schema pms (elim (lookup pm.param_id schema) [
      | none ↦ out
      | some m ↦ insert m.name (from_bytes pm.value) out
    ])

unfoldable pub decode_for_header : Option PacketHeader → List WireParam → Dict Text ℕ
decode_for_header none metadata = []
decode_for_header (some header) metadata = decode_metadata (index_by_id header.metadata) metadata []

unfoldable pub decode_packet_in_metadata : P4InfoIndex → List WireParam → Dict Text ℕ
decode_packet_in_metadata index metadata = decode_for_header index.packet_in metadata
