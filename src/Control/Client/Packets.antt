-- ===== src/Control/Client/Packets.antt =====
-- Controller packets in src/p4net/control/client.py: sending, handlers and their dispatch.
use p4net.Base.{
  ℕ, Bool, Option, none, some, List, [], ◌∷◌, ◌++◌, ok, err, ◌>>=◌, ◌>>◌, require, ◌==◌,
  if◌then◌else◌,
}
use p4net.Base.Text.{Text}
use p4net.Base.Dict.{Dict}
use p4net.Control.Codec.{Value, bytes}
use p4net.Control.Index.{P4Info, new_index}
use p4net.Control.Index.ActionParams.{WireParam}
use p4net.Control.Index.PacketMetadata.{encode_packet_out_metadata, decode_packet_in_metadata}
use p4net.Control.Client.RpcErrors.{connection_error, encoding_error}
use p4net.Control.Client.{Client, Called, lift_index, require_connected}

pub record PacketOut : Type 0 where
  pub payload : List ℕ
  pub metadata : List WireParam

-- `idx.encode_packet_out_metadata(metadata or {})`, without a pipeline no metadata.
unfoldable pub encoded_metadata : Option P4Info → Dict Text Value → Called (List WireParam)
encoded_metadata none [] = ok []
encoded_metadata none (m ∷ ms) = err encoding_error
encoded_metadata (some info) metadata =
    lift_index (encode_packet_out_metadata (new_index info) metadata)

unfoldable pub payload_bytes : Value → Called (List ℕ)
payload_bytes (bytes bs) = ok bs
payload_bytes _ = err encoding_error

-- The queue of the outgoing stream, `none` once it is closed, with the packet at its end.
unfoldable pub send_packet_out :
    Client → Option (List PacketOut) → Value → Dict Text Value → Called (List PacketOut)
unfolding encoded_metadata payload_bytes
send_packet_out c outgoing payload metadata = do
  require_connected c
  wire ← encoded_metadata c.index metadata
  bs ← payload_bytes payload
  queue ← require outgoing connection_error
  ok (queue ++ (record { payload = bs; metadata = wire } ∷ []))

-- `on_packet_in`: a handler is a number, which stands for the function object.
unfoldable pub on_packet_in : ℕ → List ℕ → List ℕ
on_packet_in handler handlers = handlers ++ (handler ∷ [])

-- The first occurrence goes; an absent handler is no error.
unfoldable pub deregister : ℕ → List ℕ → List ℕ
deregister handler [] = []
deregister handler (h ∷ hs) =
    let rest = deregister handler hs in if h == handler then hs else h ∷ rest

pub record PacketIn : Type 0 where
  pub payload : List ℕ
  pub metadata : List WireParam

unfoldable pub packet_in_metadata : Option P4Info → List WireParam → Dict Text ℕ
packet_in_metadata none metadata = []
packet_in_metadata (some info) metadata = decode_packet_in_metadata (new_index info) metadata

module _ {S : Type 0} (call : ℕ → List ℕ → Dict Text ℕ → S → S × Bool) where
  -- Every handler of the snapshot is called in turn; `true` is an exception, which is logged.
  unfoldable pub call_handlers : List ℕ → List ℕ → Dict Text ℕ → S → S
  call_handlers [] payload metadata s = s
  call_handlers (h ∷ hs) payload metadata s =
      call_handlers hs payload metadata (call h payload metadata s).0

  unfoldable pub dispatch_packet_in : Client → List ℕ → PacketIn → S → S
  unfolding packet_in_metadata call_handlers
  dispatch_packet_in c handlers packet s =
      call_handlers handlers packet.payload (packet_in_metadata c.index packet.metadata) s
