-- ===== src/Control/Client/Examples.antt =====
-- A client of a small pipeline, runs of its calls, and the theorems at concrete inputs.
use p4net.Base.{
  ℕ, ◌+◌, ◌≡◌, inl, refl, ◌↔◌, true, false, none, some, [], ◌∷◌, arith, pos, ok, length,
}
use p4net.Base.Text.{Text, codes, join}
use p4net.Base.Dict.{text_eq_instance}
use p4net.Builtins.IntText.{strip, str_int}
use p4net.Builtins.Lines.{splitlines, after_prefix, occurs, after_char}
use p4net.Control.Codec.{int}
use p4net.Control.Index.{RegisterSpec, Register, new_index, register_by_name}
use p4net.Control.Index.MatchKeys.{encode_match}
use p4net.Control.Index.Examples.{
  program, acl, pipeline, key, sent, given, wire, acl_found, key_sent,
}
use p4net.Control.Client.RpcErrors.{
  unknown, not_found, RpcError, connection_error, entry_not_found, lower, unpacked, entry_codes,
  metadata_codes, extract_p4_canonical_codes, code_in, grpc_code_for, first_resolved, resolved_code,
  error_of_code, translate_rpc_error,
}
use p4net.Control.Client.{
  Client, is_connected, require_connected, require_connected_with_index, TableEntry, Stub,
}
use p4net.Control.Client.Tables.{
  ActionCall, built_entry, Decoded, fields_by_id, decoded_match, decode_table_entry, deletions,
  checked_priority, valid_priority, encoded_action,
}
use p4net.Control.Client.RoundTrip.{FieldsDiffer, IsPythonKey, encode_match-decoded_match}
use p4net.Control.Client.Entries.{IsEntry, built_entry-iff-IsEntry}
use p4net.Control.Client.Clearing.{IdsDiffer, action_name_of, deletion_of, built_entry-cleared}
use p4net.Control.Client.Registers.{
  CliOutcome, completed, clean_line, int_or_error, ints_of, sized_ints, array_in,
  parse_register_read_array, any_error_line, cli_stdout, in_register, write_command, read_command,
  register_write, register_read, run_thrift_cli, read_register,
}
use p4net.Control.Client.Cells.{
  IsOpen, IsCellWrite, register_write-iff-IsCellWrite, length-read_register,
}
use p4net.Control.Client.Refusals.{
  PipelineCallsRaise, OtherCallsRaise, ConfigCallsRaise, disconnected-refused,
}
use p4net.Control.Client.Pipeline.{PipelineStub}
use p4net.Control.Client.Translation.{IsFirst, translate_rpc_error-resolves}

calls : Unit {0}
unfolding program require_connected_with_index require_connected built_entry checked_priority
    valid_priority encoded_action lower unpacked entry_codes metadata_codes
    extract_p4_canonical_codes code_in grpc_code_for first_resolved resolved_code error_of_code
    translate_rpc_error clean_line int_or_error ints_of sized_ints array_in
    parse_register_read_array any_error_line cli_stdout in_register write_command read_command
    register_write register_read run_thrift_cli read_register splitlines after_prefix occurs
    after_char strip str_int register_by_name is_connected
calls = tt

key-IsPythonKey : IsPythonKey key
key-IsPythonKey = (ground arith, ((tt, tt), (tt, (tt, tt))))

acl-FieldsDiffer : FieldsDiffer acl
acl-FieldsDiffer = (ground arith, ground arith)

encode_match-decoded_match_example :
    encode_match
      (new_index pipeline)
      (codes "acl")
      (decoded_match (fields_by_id acl.match_fields) sent [])
    ≡ ok sent
encode_match-decoded_match_example =
    encode_match-decoded_match (new_index pipeline) (codes "acl") key acl sent acl_found
      acl-FieldsDiffer key-IsPythonKey key_sent

abbrev call : ActionCall
call = (codes "forward", given)

abbrev entry : TableEntry
entry = record { table_id = 7; match = sent; action = some wire; priority = 2147483647 }

entry_built :
    built_entry pipeline (codes "acl") key (some call) (some (int (pos 2147483647))) ≡ ok entry
unfolding calls
entry_built = refl

built_entry-iff-IsEntry_example :
    (built_entry pipeline (codes "acl") key (some call) (some (int (pos 2147483647))) ≡ ok entry)
    ↔ IsEntry pipeline (codes "acl") key (some call) (some (int (pos 2147483647))) entry
built_entry-iff-IsEntry_example =
    built_entry-iff-IsEntry pipeline (codes "acl") key (some call) (some (int (pos 2147483647)))
      entry

pipeline-IdsDiffer : IdsDiffer pipeline
pipeline-IdsDiffer = record {
  tables = (tt, tt);
  actions = (tt, tt);
  fields = (acl-FieldsDiffer, tt);
}

built_entry-cleared_example :
    (d : Decoded) × (decode_table_entry pipeline entry ≡ ok d)
    × (d.table ≡ codes "acl")
    × (d.action ≡ action_name_of (some call))
    × (deletions pipeline (codes "acl") 7 (d ∷ []) ≡ ok (deletion_of entry ∷ []))
built_entry-cleared_example =
    built_entry-cleared pipeline (codes "acl") key (some call) (some (int (pos 2147483647))) entry
      pipeline-IdsDiffer key-IsPythonKey entry_built

abbrev counting : Register
counting = record { preamble = record { id = 90; name = codes "seen" }; bitwidth = 8; size = 2 }

abbrev client : Client
client = record {
  device_id = 1;
  election_id_high = 1;
  election_id_low = 0;
  role_name = none;
  thrift_address = some (codes "h", 9090);
  connected = true;
  closed = false;
  index = some (record pipeline { registers = counting ∷ [] });
}

-- A register process that always answers with two cells.
abbrev cli : ℕ → Text → ℕ → Text → ℕ × CliOutcome
cli t host port command = (t + 1, completed (pos 0) (codes "RuntimeCmd: seen= 7, 9\n") [])

cells_read : (read_register cli client (codes "seen") 0).1 ≡ ok (pos 7 ∷ pos 9 ∷ [])
unfolding calls
cells_read = refl

length-read_register_example :
    (spec : RegisterSpec) × IsOpen client (codes "seen") spec
    × (length (pos 7 ∷ pos 9 ∷ []) ≡ spec.size)
length-read_register_example =
    length-read_register cli client (codes "seen") 0 (pos 7 ∷ pos 9 ∷ []) cells_read

abbrev command : Text
command = codes "register_write seen 1 255"

register_write-iff-IsCellWrite_example :
    (register_write client (codes "seen") (pos 1) (pos 255) ≡ ok command) ↔ (
      IsCellWrite client (codes "seen") (pos 1) (pos 255)
      × (command
          ≡ join
              (codes " ")
              (codes "register_write" ∷ codes "seen" ∷ str_int (pos 1) ∷ str_int (pos 255) ∷ [])))
register_write-iff-IsCellWrite_example =
    register_write-iff-IsCellWrite client (codes "seen") (pos 1) (pos 255) command

cell_written :
    register_write client (codes "seen") (pos 1) (pos 255) ≡ ok (codes "register_write seen 1 255")
unfolding calls
cell_written = refl

-- A switch that counts the calls that reach it.
abbrev stub : Stub ℕ
stub = record {
  write = λ s req. (s + 1, none);
  read = λ s req. (s + 1, record { entities = []; failure = none });
  parse_status = λ bs. some (none ∷ some (pos 0) ∷ some (pos 5) ∷ []);
}

abbrev config_stub : PipelineStub ℕ
config_stub = record {
  set_config = λ s req. (s + 1, none);
  get_config = λ s device. (s + 1, ok (pipeline, []));
  parse_status = λ bs. none;
}

abbrev stale : Client
stale = record client { connected = false }

disconnected-refused_example :
    PipelineCallsRaise stub cli stale connection_error
    × OtherCallsRaise stub cli stale connection_error
    × ConfigCallsRaise config_stub stale connection_error
unfolding calls
disconnected-refused_example = disconnected-refused stub config_stub cli stale refl

abbrev failure : RpcError
failure = record {
  code = some unknown;
  details = none;
  trailing_metadata = some ((codes "Grpc-Status-Details-Bin", 1 ∷ []) ∷ []);
}

codes_found : extract_p4_canonical_codes stub.parse_status failure ≡ pos 0 ∷ pos 5 ∷ []
unfolding calls
codes_found = refl

failure-IsFirst : IsFirst (extract_p4_canonical_codes stub.parse_status failure) not_found
unfolding calls
failure-IsFirst = record {
  before = pos 0 ∷ [];
  code = pos 5;
  after = [];
  parts = refl;
  silent = (inl refl, tt);
  nonzero = refl;
  stands_for = refl;
}

translate_rpc_error-resolves_example :
    translate_rpc_error stub.parse_status false failure ≡ error_of_code false not_found
translate_rpc_error-resolves_example =
    translate_rpc_error-resolves stub.parse_status false failure not_found refl failure-IsFirst

failure_translated : translate_rpc_error stub.parse_status false failure ≡ entry_not_found
unfolding calls
failure_translated = refl
