-- ===== src/Control/Client.antt =====
-- src/p4net/control/client.py: the requests of `P4RuntimeClient` and what it makes of the answers.
-- The gRPC stub and the Thrift command line are parameters, which act on a state of their own.
pub mod RpcErrors
pub mod Tables
pub mod Pipeline
pub mod Counters
pub mod Registers
pub mod Multicast
pub mod Packets
pub mod ReEncode
pub mod Relisted
pub mod RoundTrip
pub mod Ids
pub mod Entries
pub mod Clearing
pub mod Lifecycle
pub mod Refusals
pub mod Translation
pub mod Cells
pub mod Examples
use p4net.Base.{
  ℕ, Bool, true, false, not, ◌&&◌, Option, none, some, List, [], ◌∷◌, Result, ok, err, ◌>>=◌, ◌>>◌,
  raise_if, require, ℤ, pos, negsuc,
}
use p4net.Base.Text.{Text}
use p4net.Control.Index.{P4Info, P4InfoIndex, new_index, IndexError, Indexed}
use p4net.Control.Index.MatchKeys.{FieldMatch}
use p4net.Control.Index.ActionParams.{WireAction}
use RpcErrors.{
  RpcError, Details, ClientError, connection_error, p4runtime_error, index_error,
  translate_rpc_error,
}

-- The state of a client that its requests read. The P4Info message stands for the index over it.
pub record Client : Type 0 where
  pub device_id : ℕ
  pub election_id_high : ℕ
  pub election_id_low : ℕ
  pub role_name : Option Text
  pub thrift_address : Option (Text × ℕ)
  pub connected : Bool
  pub closed : Bool
  pub index : Option P4Info

abbrev pub Called : Type 0 → Type 0
Called A = Result ClientError A

abbrev pub lift_index : {A : Type 0} → Indexed A → Called A
lift_index (ok a) = ok a
lift_index (err e) = err (index_error e)

unfoldable pub is_connected : Client → Bool
is_connected c = c.connected && not c.closed

unfoldable pub require_connected : Client → Called (Unit {0})
unfolding is_connected
require_connected c = raise_if (not (is_connected c)) connection_error

unfoldable pub require_connected_with_index : Client → Called P4Info
unfolding require_connected
require_connected_with_index c = do require_connected c; require c.index p4runtime_error

-- `p4runtime_pb2.TableEntry`; a priority that is not set is 0.
pub record TableEntry : Type 0 where
  pub table_id : ℕ
  pub match : List FieldMatch
  pub action : Option WireAction
  pub priority : ℕ

-- A counter cell; the index is absent where all cells are meant.
pub record CounterEntry : Type 0 where
  pub counter_id : ℕ
  pub index : Option ℤ
  pub packet_count : ℕ
  pub byte_count : ℕ

pub record Replica : Type 0 where
  pub egress_port : ℤ
  pub instance_id : ℕ

pub record MulticastGroup : Type 0 where
  pub multicast_group_id : ℤ
  pub replicas : List Replica

pub data Entity : Type 0 where
  table_entity : TableEntry → Entity
  counter_entity : CounterEntry → Entity
  multicast_entity : MulticastGroup → Entity
  other_entity : Entity

pub data UpdateType : Type 0 where
  insert_update modify_update delete_update : UpdateType

pub record Update : Type 0 where
  pub kind : UpdateType
  pub entity : Entity

-- The role is empty where the client has none.
pub record WriteRequest : Type 0 where
  pub device_id : ℕ
  pub role : Text
  pub election_id_high : ℕ
  pub election_id_low : ℕ
  pub updates : List Update

pub record ReadRequest : Type 0 where
  pub device_id : ℕ
  pub entity : Entity

-- The entities that a Read streams, and the error that ends the stream early.
pub record Stream : Type 0 where
  pub entities : List Entity
  pub failure : Option RpcError

-- The calls of the gRPC stub on the state `S` of the switch.
pub record Stub (S : Type 0) : Type 0 where
  pub write : S → WriteRequest → S × Option RpcError
  pub read : S → ReadRequest → S × Stream
  pub parse_status : List ℕ → Option Details

abbrev pub role_of : Client → Text
role_of c = elim c.role_name [ none ↦ [] | some r ↦ r ]

-- The fields that every write carries.
unfoldable pub write_request : Client → List Update → WriteRequest
write_request c updates = record {
  device_id = c.device_id;
  role = role_of c;
  election_id_high = c.election_id_high;
  election_id_low = c.election_id_low;
  updates = updates;
}

abbrev pub read_request : Client → Entity → ReadRequest
read_request c entity = record { device_id = c.device_id; entity = entity }

module _ {S : Type 0} (stub : Stub S) where
  -- `except grpc.RpcError as exc: raise self._translate_rpc_error(exc)`
  unfoldable pub outcome : {A : Type 0} → Option RpcError → A → Called A
  outcome none a = ok a
  outcome (some e) a = err (translate_rpc_error stub.parse_status false e)

  -- `self._stub.Write(req)`
  unfoldable pub send_write : S → WriteRequest → S × Called (Unit {0})
  unfolding outcome
  send_write s req = let answer = stub.write s req in (answer.0, outcome answer.1 tt)

  -- A request that could not be built is not sent.
  unfoldable pub send_built : S → Called WriteRequest → S × Called (Unit {0})
  unfolding send_write
  send_built s (err e) = (s, err e)
  send_built s (ok req) = send_write s req

  -- The loop over a stream: what the entities give, then the error that ended it.
  unfoldable pub read_with :
      {A : Type 0} → (List Entity → Called A) → S → ReadRequest → S × Called A
  unfolding outcome
  read_with collect s req =
      let answer = stub.read s req in
      (answer.0, collect answer.1.entities >>= λ found. outcome answer.1.failure found)
