-- ===== src/Topo/Topology.antt =====
-- src/p4net/topo/topology.py: the builder. Its three collections are a record that every
-- operation returns anew; a node reference is a name.
pub mod Ports
pub mod Invariant
pub mod Examples
use p4net.Base.{
  ℕ, zero, suc, ◌+◌, Bool, true, false, not, ◌&&◌, ◌||◌, Option, none, some, List, [], ◌∷◌, ◌++◌,
  ltb, leb, ◌==◌, if◌then◌else◌, length, Result, err, ok, raise_if, ◌>>◌, ◌>>=◌, ℤ, pos, negsuc,
}
use p4net.Base.Text.{Text, codes, text_eq}
use p4net.Base.Members.{member}
use p4net.Base.Dict.{text_eq_instance, Dict, contains, lookup, insert, values}
use p4net.Builtins.IntText.{decimal}
use p4net.Topo.Names.{
  TopologyError, IfnameError, no_node, no_switch, duplicate_name, switch_port_range, cpu_port_taken,
  no_free_port, bad_ifname, address_on_switch, validate_ifname,
}
use p4net.Topo.Nodes.{Host, P4Switch, SwitchOptions, new_host, new_switch, is_some}
use p4net.Topo.Link.{Link, LinkEndpoint, LinkOptions, new_endpoint, new_link, validate_port_number}

pub record Topology : Type 0 where
  pub hosts : Dict Text Host
  pub switches : Dict Text P4Switch
  pub links : List Link

abbrev pub new_topology : Topology
new_topology = record { hosts = []; switches = []; links = [] }

pub data NodeKind : Type 0 where
  a_host : Host → NodeKind
  a_switch : P4Switch → NodeKind

unfoldable pub node_name : NodeKind → Text
node_name (a_host h) = Host.name h
node_name (a_switch s) = P4Switch.name s

unfoldable pub is_switch : NodeKind → Bool
is_switch (a_host h) = false
is_switch (a_switch s) = true

unfoldable pub node : Topology → Text → Result TopologyError NodeKind
node t name = elim (lookup name (Topology.hosts t)) [
  | some h ↦ ok (a_host h)
  | none ↦ elim (lookup name (Topology.switches t)) [
    | some s ↦ ok (a_switch s)
    | none ↦ err no_node
  ]
]

unfoldable pub name_taken : Topology → Text → Bool
name_taken t name = contains name (Topology.hosts t) || contains name (Topology.switches t)

unfoldable pub reject_existing_name : Topology → Text → Result TopologyError (Unit {0})
unfolding name_taken
reject_existing_name t name = raise_if (name_taken t name) duplicate_name

-- The host is `Host(name=name, ...)` of the arguments.
unfoldable pub add_host : Host → Topology → Result TopologyError (Topology × Host)
add_host h t = do
  reject_existing_name t (Host.name h)
  host ← new_host h
  ok (
    record {
      hosts = insert (Host.name h) host (Topology.hosts t);
      switches = Topology.switches t;
      links = Topology.links t;
    },
    host,
  )

abbrev pub or_assigned : Option ℤ → ℕ → Option ℤ
or_assigned none n = some (pos n)
or_assigned (some z) n = some z

-- Device id and service ports that are not given count up with the switches.
unfoldable pub assigned : ℕ → SwitchOptions → SwitchOptions
assigned idx o = record {
  p4_src = SwitchOptions.p4_src o;
  arch = SwitchOptions.arch o;
  device_id = or_assigned (SwitchOptions.device_id o) idx;
  grpc_port = or_assigned (SwitchOptions.grpc_port o) (50051 + idx);
  thrift_port = or_assigned (SwitchOptions.thrift_port o) (9090 + idx);
  cpu_port = SwitchOptions.cpu_port o;
  log_level = SwitchOptions.log_level o;
  pcap_enabled = SwitchOptions.pcap_enabled o;
}

unfoldable pub add_switch :
    Text → SwitchOptions → Topology → Result TopologyError (Topology × P4Switch)
unfolding assigned
add_switch name o t = do
  reject_existing_name t name
  switch ← new_switch name (assigned (length (Topology.switches t)) o)
  ok (
    record {
      hosts = Topology.hosts t;
      switches = insert name switch (Topology.switches t);
      links = Topology.links t;
    },
    switch,
  )

-- The port of an endpoint of the node, if it has one.
unfoldable pub port_at : Text → LinkEndpoint → List ℕ
port_at name e = elim (LinkEndpoint.port e) [
  | none ↦ []
  | some p ↦ if text_eq (LinkEndpoint.node e) name then p ∷ [] else []
]

-- The ports that links use at a node.
unfoldable pub used_ports : Text → List Link → List ℕ
unfolding port_at
used_ports name [] = []
used_ports name (l ∷ ls) =
    port_at name (Link.a l) ++ (port_at name (Link.b l) ++ used_ports name ls)

unfoldable pub cpu_port_of : NodeKind → Option ℕ
cpu_port_of (a_host h) = none
cpu_port_of (a_switch s) = P4Switch.cpu_port s

abbrev pub with_cpu : Option ℕ → List ℕ → List ℕ
with_cpu none used = used
with_cpu (some p) used = p ∷ used

-- The ports that an automatic allocation avoids.
unfoldable pub avoided : NodeKind → List Link → List ℕ
unfolding node_name cpu_port_of
avoided n ls = with_cpu (cpu_port_of n) (used_ports (node_name n) ls)

-- `while candidate in used: candidate += 1`
unfoldable pub first_free : ℕ → ℕ → List ℕ → ℕ
unfolding member
first_free zero c used = c
first_free (suc fuel) c used = elim (member c used) [
  | true ↦ first_free fuel (suc c) used
  | false ↦ c
]

abbrev pub switch_port_max : ℕ
switch_port_max = 510

abbrev pub is_port : Option ℕ → ℕ → Bool
is_port none n = false
is_port (some p) n = n == p

unfoldable pub requested_port : NodeKind → ℤ → Result TopologyError ℕ
requested_port n z = do
  p ← validate_port_number z
  raise_if (is_switch n && ltb switch_port_max p) switch_port_range
  raise_if (is_port (cpu_port_of n) p) cpu_port_taken
  ok p

-- The loop never tests more candidates than there are ports in use, and one.
unfoldable pub candidate : NodeKind → List Link → ℕ
unfolding avoided first_free is_switch
candidate n ls = first_free (length (avoided n ls)) (if is_switch n then 1 else 0) (avoided n ls)

unfoldable pub allocated_port : NodeKind → List Link → Result TopologyError ℕ
unfolding is_switch
allocated_port n ls = do
  raise_if (is_switch n && ltb switch_port_max (candidate n ls)) no_free_port
  ok (candidate n ls)

unfoldable pub auto_port : Topology → NodeKind → Option ℤ → Result TopologyError ℕ
auto_port t n (some z) = requested_port n z
auto_port t n none = allocated_port n (Topology.links t)

-- `f"{node_name}-eth{port}"`
unfoldable pub iface_name : Text → ℕ → Text
iface_name name port = name ++ (codes "-eth" ++ decimal port)

-- A ValueError of the name check becomes a TopologyError.
unfoldable pub check_iface : Text → Result TopologyError (Unit {0})
check_iface name = elim (validate_ifname name) [ err e ↦ err (bad_ifname e) | ok _ ↦ ok tt ]

-- The arguments of `add_link` for one side.
pub record Side : Type 0 where
  pub ref : Text
  pub port : Option ℤ
  pub ip : Option Text
  pub mac : Option Text
  pub ip6 : Option Text

abbrev pub endpoint_of : Side → Text → ℕ → LinkEndpoint
endpoint_of s name port = record {
  node = name;
  port = some port;
  iface_name = some (iface_name name port);
  ip = Side.ip s;
  mac = Side.mac s;
  ip6 = Side.ip6 s;
}

unfoldable pub no_address : NodeKind → Option Text → Result TopologyError (Unit {0})
no_address n ip = raise_if (is_some ip && is_switch n) address_on_switch

unfoldable pub check_ifaces : NodeKind → NodeKind → ℕ → ℕ → Result TopologyError (Unit {0})
check_ifaces na nb pa pb = do
  check_iface (iface_name (node_name na) pa)
  check_iface (iface_name (node_name nb) pb)

unfoldable pub check_addresses : Side → Side → NodeKind → NodeKind → Result TopologyError (Unit {0})
check_addresses sa sb na nb = do
  no_address na (Side.ip sa)
  no_address nb (Side.ip sb)
  no_address na (Side.ip6 sa)
  no_address nb (Side.ip6 sb)

abbrev pub append_link : Link → Topology → Topology
append_link l t = record {
  hosts = Topology.hosts t;
  switches = Topology.switches t;
  links = Topology.links t ++ (l ∷ []);
}

-- The two endpoints, and the link appended.
unfoldable pub attach :
    LinkOptions → Topology → LinkEndpoint → LinkEndpoint → Result TopologyError (Topology × Link)
attach o t a b = do
  ea ← new_endpoint a
  eb ← new_endpoint b
  link ← new_link (record { a = ea; b = eb; options = o })
  ok (append_link link t, link)

-- `add_link` from the resolved nodes on.
unfoldable pub connect :
    Side
    → Side
    → LinkOptions
    → Topology
    → NodeKind
    → NodeKind
    → Result TopologyError (Topology × Link)
connect sa sb o t na nb = do
  pa ← auto_port t na (Side.port sa)
  pb ← auto_port t nb (Side.port sb)
  check_ifaces na nb pa pb
  check_addresses sa sb na nb
  attach o t (endpoint_of sa (node_name na) pa) (endpoint_of sb (node_name nb) pb)

unfoldable pub add_link :
    Side → Side → LinkOptions → Topology → Result TopologyError (Topology × Link)
add_link sa sb o t = do
  na ← node t (Side.ref sa)
  nb ← node t (Side.ref sb)
  connect sa sb o t na nb
