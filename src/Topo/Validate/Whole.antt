-- ===== src/Topo/Validate/Whole.antt =====
-- `Topology.validate` as a whole, and the two queries on links.
use p4net.Base.{
  Option, none, some, List, [], ◌∷◌, ◌++◌, if◌then◌else◌, ℕ, Result, err, ok, raise_if, ◌>>◌, not,
}
use p4net.Base.Text.{Text, text_eq}
use p4net.Base.Dict.{text_eq_instance, nat_eq, Dict, contains, insert}
use p4net.Topo.Names.{TopologyError, no_switch}
use p4net.Topo.Link.{Link, LinkEndpoint}
use p4net.Topo.Topology.{Topology}
use p4net.Topo.Validate.Problems.{Problem}
use p4net.Topo.Validate.Structure.{host_keys, switch_keys, shared_names, all_link_problems}
use p4net.Topo.Validate.Claims.{port_problems, service_problems, interface_problems}
use p4net.Topo.Validate.Addresses.{address_problems}

unfoldable pub structure_problems : Topology → List Problem
structure_problems t =
    host_keys (Topology.hosts t)
    ++ (switch_keys (Topology.switches t)
        ++ (shared_names t (Topology.hosts t) ++ all_link_problems t 0 (Topology.links t)))

-- `errors`, when every part has run.
unfoldable pub problems : Topology → List Problem
problems t =
    structure_problems t
    ++ (port_problems t ++ (service_problems t ++ (interface_problems t ++ address_problems t)))

-- The raised TopologyError lists the problems.
unfoldable pub validate : Topology → Result (List Problem) (Unit {0})
validate t = elim (problems t) [ [] ↦ ok tt | p ∷ ps ↦ err (p ∷ ps) ]

-- Every link of a node with its near and its far end.
unfoldable pub neighbors_in : Text → List Link → List (Link × LinkEndpoint × LinkEndpoint)
neighbors_in name [] = []
neighbors_in name (l ∷ ls) =
    let rest = neighbors_in name ls in
    if text_eq (LinkEndpoint.node (Link.a l)) name
    then (l, Link.a l, Link.b l) ∷ rest
    else if text_eq (LinkEndpoint.node (Link.b l)) name
    then (l, Link.b l, Link.a l) ∷ rest
    else rest

unfoldable pub neighbors_of : Topology → Text → List (Link × LinkEndpoint × LinkEndpoint)
neighbors_of t name = neighbors_in name (Topology.links t)

-- The port of an endpoint that belongs to the switch.
unfoldable pub port_here : Text → LinkEndpoint → Option ℕ
port_here name e = if text_eq (LinkEndpoint.node e) name then LinkEndpoint.port e else none

unfoldable pub assign_ports : Text → List Link → Dict ℕ LinkEndpoint → Dict ℕ LinkEndpoint
unfolding port_here
assign_ports name [] d = d
assign_ports name (l ∷ ls) d = elim (port_here name (Link.a l)) [
  | some p ↦ assign_ports name ls (insert p (Link.b l) d)
  | none ↦ elim (port_here name (Link.b l)) [
    | some p ↦ assign_ports name ls (insert p (Link.a l) d)
    | none ↦ assign_ports name ls d
  ]
]

-- The far end of every port of a switch.
unfoldable pub port_assignments : Topology → Text → Result TopologyError (Dict ℕ LinkEndpoint)
port_assignments t name = do
  raise_if (not (contains name (Topology.switches t))) no_switch
  ok (assign_ports name (Topology.links t) [])
