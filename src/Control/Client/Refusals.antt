-- ===== src/Control/Client/Refusals.antt =====
-- The calls of `P4RuntimeClient` that have no connection or no pipeline.
use p4net.Base.{ℕ, ◌≡◌, refl, true, false, Option, none, List, ℤ, err}
use p4net.Base.Text.{Text}
use p4net.Base.Dict.{Dict}
use p4net.Control.Codec.{Value}
use p4net.Control.Index.{P4Info}
use p4net.Control.Index.MatchKeys.{Match}
use p4net.Control.Client.RpcErrors.{ClientError, connection_error, p4runtime_error}
use p4net.Control.Client.{
  Client, is_connected, require_connected, require_connected_with_index, UpdateType, Stub,
  send_built,
}
use p4net.Control.Client.Tables.{
  ActionCall, entry_request, write_entry, list_table_entries, clear_table,
}
use p4net.Control.Client.Counters.{read_counters, read_counter, reset_counter}
use p4net.Control.Client.Registers.{
  CliOutcome, register_write, register_read, write_register, read_register, read_register_cell,
}
use p4net.Control.Client.Multicast.{
  mcast_request, add_multicast_group, modify_multicast_group, delete_multicast_group,
  list_multicast_groups,
}
use p4net.Control.Client.Packets.{PacketOut, send_packet_out}
use p4net.Control.Client.Pipeline.{
  PipelineStub, pipeline_request, set_pipeline_config, get_pipeline_config,
}

no_connection : (c : Client) → is_connected c ≡ false → require_connected c ≡ err connection_error
unfolding require_connected
no_connection c off = rw off refl

no_index :
    (c : Client) (e : ClientError)
    → require_connected c ≡ err e
    → require_connected_with_index c ≡ err e
unfolding require_connected_with_index
no_index c e off = rw off refl

no_pipeline :
    (c : Client)
    → is_connected c ≡ true
    → c.index ≡ none
    → require_connected_with_index c ≡ err p4runtime_error
unfolding require_connected_with_index require_connected
no_pipeline c on missing = rw (on, missing) refl

-- The calls that need the pipeline, over a switch and over the register command line.
module _ {S T : Type 0} (stub : Stub S) (cli : T → Text → ℕ → Text → T × CliOutcome)
    (c : Client) where
  unfoldable pub PipelineCallsRaise : ClientError → Type 0
  PipelineCallsRaise e =
      ((kind : UpdateType) (table : Text) (match : Match) (action : Option ActionCall)
          (priority : Option Value) (s : S)
        → write_entry stub c kind table match action priority s ≡ (s, err e))
      × ((table : Option Text) (s : S) → list_table_entries stub c table s ≡ (s, err e))
      × ((table : Text) (s : S) → clear_table stub c table s ≡ (s, err e))
      × ((counter : Text) (s : S) → read_counters stub c counter s ≡ (s, err e))
      × ((counter : Text) (index : ℤ) (s : S) → read_counter stub c counter index s ≡ (s, err e))
      × ((counter : Text) (index : Option ℤ) (s : S)
          → reset_counter stub c counter index s ≡ (s, err e))
      × ((name : Text) (index value : ℤ) (t : T)
          → write_register cli c name index value t ≡ (t, err e))
      × ((name : Text) (t : T) → read_register cli c name t ≡ (t, err e))
      × ((name : Text) (index : ℤ) (t : T) → read_register_cell cli c name index t ≡ (t, err e))

  unfoldable pub OtherCallsRaise : ClientError → Type 0
  OtherCallsRaise e =
      ((group_id : ℤ) (ports : List ℤ) (s : S)
        → add_multicast_group stub c group_id ports s ≡ (s, err e))
      × ((group_id : ℤ) (ports : List ℤ) (s : S)
          → modify_multicast_group stub c group_id ports s ≡ (s, err e))
      × ((group_id : ℤ) (s : S) → delete_multicast_group stub c group_id s ≡ (s, err e))
      × ((s : S) → list_multicast_groups stub c s ≡ (s, err e))
      × ((outgoing : Option (List PacketOut)) (payload : Value) (metadata : Dict Text Value)
          → send_packet_out c outgoing payload metadata ≡ err e)

  pipeline_calls_raise :
      (e : ClientError) → require_connected_with_index c ≡ err e → PipelineCallsRaise e
  unfolding PipelineCallsRaise write_entry entry_request send_built list_table_entries clear_table
      read_counters read_counter reset_counter write_register register_write read_register
      read_register_cell register_read
  pipeline_calls_raise e refused = (
    λ kind table match action priority s. rw refused refl,
    λ table s. rw (refused, list_table_entries) refl,
    λ table s. rw (refused, clear_table) refl,
    λ counter s. rw (refused, read_counters) refl,
    λ counter index s. rw (refused, read_counter) refl,
    λ counter index s. rw (refused, reset_counter) refl,
    λ name index value t. rw (refused, write_register, register_write) refl,
    λ name t. rw (refused, read_register, register_read) refl,
    λ name index t. rw (refused, read_register_cell, register_read) refl,
  )

  other_calls_raise : (e : ClientError) → require_connected c ≡ err e → OtherCallsRaise e
  unfolding OtherCallsRaise add_multicast_group modify_multicast_group delete_multicast_group
      mcast_request send_built list_multicast_groups send_packet_out
  other_calls_raise e refused = (
    λ group_id ports s. rw refused refl,
    λ group_id ports s. rw refused refl,
    λ group_id s. rw refused refl,
    λ s. rw (refused, list_multicast_groups) refl,
    λ outgoing payload metadata. rw refused refl,
  )

-- Pushing and reading back a pipeline, which also keep what the client knows of it.
unfoldable pub ConfigCallsRaise : {S : Type 0} → PipelineStub S → Client → ClientError → Type 0
ConfigCallsRaise {S} stub c e =
    ((action : Text) (p4info : P4Info) (config : List ℕ) (s : S)
      → set_pipeline_config stub c action p4info config s ≡ (s, c, err e))
    × ((s : S) → get_pipeline_config stub c s ≡ (s, c, err e))

config_calls_raise :
    {S : Type 0} (stub : PipelineStub S) (c : Client) (e : ClientError)
    → require_connected c ≡ err e
    → ConfigCallsRaise stub c e
unfolding ConfigCallsRaise set_pipeline_config pipeline_request get_pipeline_config
config_calls_raise stub c e refused = (
  λ action p4info config s. rw (refused, set_pipeline_config, pipeline_request) refl,
  λ s. rw (refused, get_pipeline_config) refl,
)

-- Without a connection every request to the switch or to the register process raises
-- `ConnectionError`: those on tables, counters, registers, multicast groups and packet-outs, and
-- those that push or read back a pipeline. The switch and the register process are left as they
-- were, and so is the client's index at a push or a read of the pipeline.
pub disconnected-refused :
    {S T : Type 0} (stub : Stub S) (config : PipelineStub S)
    (cli : T → Text → ℕ → Text → T × CliOutcome) (c : Client)
    → is_connected c ≡ false
    → PipelineCallsRaise stub cli c connection_error
      × OtherCallsRaise stub cli c connection_error
      × ConfigCallsRaise config c connection_error
disconnected-refused stub config cli c off =
    let refused = no_connection c off in
    (
      pipeline_calls_raise stub cli c connection_error (no_index c connection_error refused),
      other_calls_raise stub cli c connection_error refused,
      config_calls_raise config c connection_error refused,
    )

-- With a connection but no pipeline every call that needs one raises `P4RuntimeError`, and the
-- switch and the register process are left as they were.
pub no_pipeline-refused :
    {S T : Type 0} (stub : Stub S) (cli : T → Text → ℕ → Text → T × CliOutcome) (c : Client)
    → is_connected c ≡ true
    → c.index ≡ none
    → PipelineCallsRaise stub cli c p4runtime_error
no_pipeline-refused stub cli c on missing =
    pipeline_calls_raise stub cli c p4runtime_error (no_pipeline c on missing)
