-- ===== src/Lib.antt =====
-- p4net, a P4Runtime-native network emulator for BMv2 switches: what its control plane puts on
-- the wire, what its topology builder accepts, and how a network is brought up and down.
--
-- Parts.
--   Base, Builtins: shared types and lemmas; Python's bytes, int and ipaddress as the program uses
--     them (no code of the repository).
--   Control/Codec models src/p4net/control/codec.py: a Python object is a `Value`, a match
--     argument an `Arg`, a raised EncodingError a `CodecError`. The functions keep their names.
--   Control/Index models src/p4net/control/p4info_index.py: the P4Info message as records, the
--     index over it (`new_index` is the constructor), and the encoders and decoders of match keys
--     (MatchKeys), actions (ActionParams) and controller metadata (PacketMetadata). Each calls the
--     codec, as the source does.
--   Control/Client models src/p4net/control/client.py and _rpc_errors.py: the requests of
--     P4RuntimeClient by kind (Tables, Pipeline, Counters, Registers, Multicast, Packets), which
--     Control/Index encodes, and what it makes of the answers. The gRPC stub and the register
--     process are parameters, functions on a state of their own. Where a method takes an optional
--     index there are two definitions (read_counter and read_counters). Lifecycle is the
--     connection: each block under `_teardown_lock` is a step, a number stands for the channel,
--     stream, thread and event of one attempt, and every order of the steps is considered.
--   Topo models src/p4net/topo and src/p4net/_ifname.py: Names (the patterns of names and MAC
--     addresses, interface names), Nodes (Host and P4Switch), Link (LinkEndpoint and Link) and
--     Topology, the builder, whose operations take the topology and return the new one. `add_link`
--     is split at its stages: `connect` from the resolved nodes on, `attach` for the construction.
--   Topo/Validate models the builder's `validate`, one module for each group of its checks: the
--     problems that it lists are values, and Whole puts the groups together. Topo/Render models
--     to_graphviz and to_dict, Topo/Restore from_dict, and Topo/Payload how it reads its values.
--     `str(path)` and `Path(text)` are parameters.
--   Runtime models the checks and the command lines of src/p4net/runtime: Tc those of tc.py, Bmv2
--     those of the switch process.
--   Network models src/p4net/network/orchestrator.py. Directions: the durations and impairments of
--     one direction of a link, where the rounding of floats is a parameter. Calls: every call on a
--     collaborator (a namespace, a veth pair, a switch process, a client) is a value in a log, and
--     a parameter answers it after all earlier ones. Start (`do_start`, `wire_link`) and Stop
--     (`do_stop`, `start`) run such calls in the order of the source; Resources reads off the log
--     what is held. A start checks with Topo/Validate and shapes with Runtime/Tc. Pings models
--     pingall and, of src/p4net/network/nodes.py, the primary addresses.
--
-- A function that raises returns a `Result`; errors carry the exception class and, for the codec,
-- which `raise` it was, in place of the message. Widths are natural numbers: a negative width takes
-- the branch of zero. Texts are lists of code points, and a dict is a list of entries in insertion
-- order. `bit_length` and `decimal` recur on fuel that starts at the number itself, which halving
-- and dividing by ten never exhaust. The loop that looks for a free port runs on the number of
-- ports in use as its fuel, which Topo/Topology/Ports shows to be enough. Types decide what the
-- source asks by isinstance; a finite float is an integer over a power of two. What a collaborator
-- raises is an exception of class Exception: KeyboardInterrupt and the like, which no
-- `except Exception` catches, are left out.
--
-- Not modelled: of the topology, references to nodes by object, and what from_dict does with a
-- value of a kind that to_dict does not write there; of the client, expect_packet_in, the context
-- manager and numbers too wide for their protobuf field; the asyncio client; of the network, the
-- disconnection of asyncio clients, the futures that serialise start and stop, the polling of IPv6
-- addresses, the process of a ping and the signal handlers; the runtime's namespaces and processes,
-- the compiler driver and the CLI; the text of an IPv6 address, which Python versions print
-- differently, is a parameter of the formatters.
pub mod Base
pub mod Builtins
pub mod Control
pub mod Topo
pub mod Runtime
pub mod Network
