-- ===== src/Topo/Topology/Invariant.antt =====
-- What holds of every topology that the builder returns.
pub mod Nodes
pub mod Additions
pub mod Links
pub mod Steps
use p4net.Base.{
  ℕ, ◌≤◌, ◌≡◌, ◌≢◌, Bool, true, false, Option, none, some, List, [], ◌∷◌, All, Result, ok,
}
use p4net.Base.Text.{Text}
use p4net.Base.Dict.{text_eq_instance, Dict, contains}
use p4net.Topo.Names.{name_re, validate_ifname}
use p4net.Topo.Nodes.{Host, P4Switch, new_host}
use p4net.Topo.Link.{Link, LinkEndpoint, new_endpoint, new_link}
use p4net.Topo.Topology.{
  Topology, NodeKind, node, node_name, is_switch, cpu_port_of, iface_name, switch_port_max,
}

-- A number from `lo` to `hi`, where one is set.
InRange : ℕ → ℕ → Option ℕ → Type 0
InRange lo hi o = (n : ℕ) → o ≡ some n → (lo ≤ n) × (n ≤ hi)

-- A host is stored under its name and passes the constructor's checks.
unfoldable pub HostEntry : Text × Host → Type 0
HostEntry entry = (entry.0 ≡ Host.name entry.1) × (new_host entry.1 ≡ ok entry.1)

-- A switch is stored under its name, which fits the pattern, with its numbers in range.
unfoldable pub SwitchEntry : Text × P4Switch → Type 0
unfolding InRange
SwitchEntry entry =
    (entry.0 ≡ P4Switch.name entry.1)
    × (name_re (P4Switch.name entry.1) ≡ true)
    × InRange 0 2147483647 (P4Switch.device_id entry.1)
    × InRange 1024 65535 (P4Switch.grpc_port entry.1)
    × InRange 1024 65535 (P4Switch.thrift_port entry.1)
    × InRange 1 510 (P4Switch.cpu_port entry.1)

-- An endpoint at node `n` and port `p`: the interface is named after both, and at a switch the
-- port is a data port without addresses.
unfoldable pub AssignedAt : LinkEndpoint → NodeKind → ℕ → Type 0
AssignedAt e n p =
    (LinkEndpoint.port e ≡ some p)
    × (LinkEndpoint.iface_name e ≡ some (iface_name (node_name n) p))
    × (validate_ifname (iface_name (node_name n) p) ≡ ok tt)
    × (cpu_port_of n ≢ some p)
    × (is_switch n ≡ true
        → (p ≤ switch_port_max) × (LinkEndpoint.ip e ≡ none) × (LinkEndpoint.ip6 e ≡ none))

-- The endpoint's node exists, and it is assigned there.
unfoldable pub Assigned : Topology → LinkEndpoint → Type 0
Assigned t e = (n : NodeKind) × (p : ℕ) × (node t (LinkEndpoint.node e) ≡ ok n) × AssignedAt e n p

unfoldable pub LinkAssigned : Topology → Link → Type 0
LinkAssigned t l = Assigned t (Link.a l) × Assigned t (Link.b l) × (new_link l ≡ ok l)

unfoldable pub WellFormed : Topology → Type 0
WellFormed t =
    All HostEntry (Topology.hosts t)
    × All SwitchEntry (Topology.switches t)
    × ((name : Text)
        → contains name (Topology.hosts t) ≡ true
        → contains name (Topology.switches t) ≡ false)
    × All (LinkAssigned t) (Topology.links t)
