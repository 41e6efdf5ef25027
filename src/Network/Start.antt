-- ===== src/Network/Start.antt =====
-- `_do_start` and `_wire_link` of src/p4net/network/orchestrator.py.
use p4net.Base.{
  ℕ, Bool, true, false, not, ◌&&◌, Option, none, some, List, [], ◌∷◌, ◌++◌, map, if◌then◌else◌, ℤ,
}
use p4net.Base.Text.{Text, codes, text_eq}
use p4net.Base.Dict.{Dict, nat_eq, insert, text_eq_instance}
use p4net.Builtins.IntText.{str_int}
use p4net.Topo.Nodes.{Host, P4Switch, is_some}
use p4net.Topo.Link.{Float, Link, LinkEndpoint}
use p4net.Topo.Topology.{Topology, NodeKind, a_host, a_switch, node}
use p4net.Topo.Validate.Addresses.{effective_host_addresses, in_set, add_to_set}
use p4net.Topo.Validate.Whole.{validate}
use p4net.Runtime.Tc.{is_clear, netem_argv}
use p4net.Network.Directions.{Floats, direction_params}
use p4net.Runtime.Bmv2.{SwitchProcess}
use p4net.Network.Calls.{
  Side, side_a, side_b, Call, make_dirs, register_hooks, compile_source, create_namespace, exec_in,
  create_veth, veth_mac, veth_mtu, veth_up, enable_ipv6, disable_ipv6, run_tc, start_bmv2,
  await_bmv2, connect_client, push_pipeline, await_ipv6, Answer, Log, invalid_topology,
  unknown_node, missing_interface, no_direction, no_command, Act, give, fail, ◌>>=◌, ◌>>◌, update,
  for_each, lifted, add_key, do_call,
}

abbrev or_number : Option ℕ → ℕ → ℕ
or_number none n = n
or_number (some m) n = m

abbrev set_port : Text → LinkEndpoint → Dict ℕ Text → Dict ℕ Text
set_port name e ports = elim e.port [
  | none ↦ ports
  | some p ↦ elim e.iface_name [
    | none ↦ ports
    | some iface ↦ if text_eq e.node name then insert p iface ports else ports
  ]
]

unfoldable pub port_to_iface_for : Text → List Link → Dict ℕ Text → Dict ℕ Text
port_to_iface_for name [] ports = ports
port_to_iface_for name (l ∷ ls) ports =
    port_to_iface_for name ls (set_port name l.b (set_port name l.a ports))

abbrev pub namespace_of : NodeKind → Option Text
namespace_of (a_host h) = some h.name
namespace_of (a_switch s) = none

-- The collaborators' answers, the rounding and printing of floats, and the time of the start.
module _ (answers : Log → Call → Answer) (floats : Floats) (show_float : Float → Text)
    (unsafe with_pcap : Bool) (now : ℕ) where
  abbrev pub call : Call → Act (Unit {0})
  call c = do_call answers c

  unfoldable pub check_topology : Topology → Act (Unit {0})
  check_topology t = if unsafe then give tt else lifted invalid_topology (validate t)

  unfoldable pub compile_switch : Text × P4Switch → Act (Unit {0})
  compile_switch (name, s) = do
    call (compile_source s.p4_src s.arch)
    update (λ n. record n { compiled = add_key name n.compiled })

  unfoldable pub register_cleanup : Act (Unit {0})
  register_cleanup n =
      if n.registered
      then give tt n
      else (do call register_hooks; update (λ m. record m { registered = true })) n

  unfoldable pub start_namespace : Text × Host → Act (Unit {0})
  start_namespace (name, h) = do
    call (create_namespace name)
    update (λ n. record n { namespaces = add_key name n.namespaces })
    call (exec_in name (codes "ip" ∷ codes "link" ∷ codes "set" ∷ codes "lo" ∷ codes "up" ∷ []))

  abbrev pub exec_given : {A : Type 0} → Text → Option A → (A → List Text) → Act (Unit {0})
  exec_given ns none argv = give tt
  exec_given ns (some a) argv = call (exec_in ns (argv a))

  unfoldable pub configure_host_iface :
      Text → Text → Option Text → Option Text → Option Text → Option ℤ → Act (Unit {0})
  configure_host_iface ns iface ip ip6 mac mtu = do
    exec_given ns mac
        (λ m. codes "ip" ∷ codes "link" ∷ codes "set" ∷ iface ∷ codes "address" ∷ m ∷ [])
    exec_given ns mtu
        (λ m. codes "ip" ∷ codes "link" ∷ codes "set" ∷ iface ∷ codes "mtu" ∷ str_int m ∷ [])
    exec_given ns ip (λ a. codes "ip" ∷ codes "addr" ∷ codes "add" ∷ a ∷ codes "dev" ∷ iface ∷ [])
    exec_given ns ip6
        (λ a. codes "ip" ∷ codes "-6" ∷ codes "addr" ∷ codes "add" ∷ a ∷ codes "dev" ∷ iface ∷ [])
    call (exec_in ns (codes "ip" ∷ codes "link" ∷ codes "set" ∷ iface ∷ codes "up" ∷ []))

  -- The MAC address of the interface: its own, or that of the host on its first link.
  unfoldable pub mac_for : Host → LinkEndpoint → Bool → Option Text
  mac_for h e first_link = elim e.mac [
    | some m ↦ some m
    | none ↦ if first_link then h.mac else none
  ]

  abbrev pub call_given : {A : Type 0} → Option A → (A → Call) → Act (Unit {0})
  call_given none c = give tt
  call_given (some a) c = call (c a)

  unfoldable pub configure_host_end : Host → LinkEndpoint → Text → Option ℤ → Bool → Act (Unit {0})
  unfolding configure_host_iface mac_for
  configure_host_end h e iface mtu first_link = do
    call (
        if is_some (effective_host_addresses h e first_link).1
        then enable_ipv6 (some h.name) iface
        else disable_ipv6 (some h.name) iface)
    configure_host_iface h.name iface (effective_host_addresses h e first_link).0
        (effective_host_addresses h e first_link).1 (mac_for h e first_link) mtu

  unfoldable pub configure_switch_end :
      Text → Text → Side → LinkEndpoint → Text → Option ℤ → Act (Unit {0})
  configure_switch_end name_a name_b side e iface mtu = do
    call (disable_ipv6 none iface)
    call_given e.mac (veth_mac name_a name_b side)
    call_given mtu (λ m. veth_mtu name_a name_b side (str_int m))
    call (veth_up name_a name_b side)

  -- One end of the link; the hosts whose first link was seen come back.
  unfoldable pub configure_end :
      Text → Text → Side → NodeKind → LinkEndpoint → Text → Option ℤ → List Text → Act (List Text)
  unfolding configure_host_end configure_switch_end
  configure_end name_a name_b side (a_host h) e iface mtu seen = do
    configure_host_end h e iface mtu (not (in_set h.name seen))
    give (add_to_set h.name seen)
  configure_end name_a name_b side (a_switch s) e iface mtu seen = do
    configure_switch_end name_a name_b side e iface mtu
    give seen

  unfoldable pub shape_direction : Link → Bool → NodeKind → Text → Act (Unit {0})
  shape_direction link direction n iface = do
    netem ← lifted no_direction (direction_params floats link direction)
    if is_clear netem then give tt else (do
      argv ← lifted no_command (netem_argv show_float iface netem)
      call (run_tc (namespace_of n) argv))

  abbrev pub require_iface : Option Text → Act Text
  require_iface none = fail missing_interface
  require_iface (some iface) = give iface

  unfoldable pub make_veth : Text → Text → NodeKind → NodeKind → Act (Unit {0})
  make_veth name_a name_b node_a node_b = do
    call (create_veth name_a name_b (namespace_of node_a) (namespace_of node_b))
    update (λ n. record n { veths = n.veths ++ ((name_a, name_b) ∷ []) })

  unfoldable pub wire_link : Topology → Link → List Text → Act (List Text)
  unfolding make_veth configure_end shape_direction
  wire_link t link seen = do
    name_a ← require_iface link.a.iface_name
    name_b ← require_iface link.b.iface_name
    node_a ← lifted (λ _. unknown_node) (node t link.a.node)
    node_b ← lifted (λ _. unknown_node) (node t link.b.node)
    make_veth name_a name_b node_a node_b
    seen_a ← configure_end name_a name_b side_a node_a link.a name_a link.options.mtu seen
    seen_b ← configure_end name_a name_b side_b node_b link.b name_b link.options.mtu seen_a
    shape_direction link true node_a name_a
    shape_direction link false node_b name_b
    give seen_b

  unfoldable pub wire_links : Topology → List Link → List Text → Act (Unit {0})
  unfolding wire_link
  wire_links t [] seen = give tt
  wire_links t (l ∷ ls) seen = wire_link t l seen >>= λ next. wire_links t ls next

  -- An empty route is falsy.
  abbrev pub add_route : Text → Option Text → List Text → Act (Unit {0})
  add_route ns none argv = give tt
  add_route ns (some []) argv = give tt
  add_route ns (some (c ∷ s)) argv = call (exec_in ns (argv ++ ((c ∷ s) ∷ [])))

  unfoldable pub default_routes : Text × Host → Act (Unit {0})
  default_routes (name, h) = do
    add_route name h.default_route
        (codes "ip" ∷ codes "route" ∷ codes "add" ∷ codes "default" ∷ codes "via" ∷ [])
    add_route name h.default_route6
        (codes "ip" ∷ codes "-6" ∷ codes "route" ∷ codes "add" ∷ codes "default" ∷ codes "via" ∷ [])

  unfoldable pub switch_process : Topology → Text → P4Switch → SwitchProcess
  unfolding port_to_iface_for
  switch_process t name s = record {
    name = name;
    device_id = or_number s.device_id 0;
    grpc_port = or_number s.grpc_port 50051;
    thrift_port = or_number s.thrift_port 9090;
    port_to_iface = port_to_iface_for name t.links [];
    with_pcap = s.pcap_enabled && with_pcap;
    cpu_port = s.cpu_port;
    log_level = s.log_level;
  }

  unfoldable pub start_switch : Topology → Text × P4Switch → Act (Unit {0})
  unfolding switch_process
  start_switch t (name, s) = do
    call (start_bmv2 (switch_process t name s))
    update (λ n. record n { switches = add_key name n.switches })
    call (await_bmv2 name)

  unfoldable pub start_client : Text → Act (Unit {0})
  start_client name = do
    call (connect_client name now)
    update (λ n. record n { clients = add_key name n.clients })
    call (push_pipeline name)

  -- The clients of the switches that run.
  unfoldable pub start_clients : Act (Unit {0})
  unfolding start_client
  start_clients n = for_each n.switches start_client n

  abbrev pub keys_of : {A : Type 0} → Dict Text A → List Text
  keys_of d = map (λ e. e.0) d

  unfoldable pub do_start : Topology → Act (Unit {0})
  unfolding check_topology compile_switch register_cleanup start_namespace wire_links default_routes
      start_switch start_clients
  do_start t = do
    check_topology t
    call make_dirs
    for_each t.switches compile_switch
    register_cleanup
    for_each t.hosts start_namespace
    wire_links t t.links []
    for_each t.hosts default_routes
    for_each t.switches (start_switch t)
    start_clients
    call await_ipv6
    update
        (λ n. record n { running_hosts = keys_of t.hosts; running_switches = keys_of t.switches })
