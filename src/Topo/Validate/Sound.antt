-- ===== src/Topo/Validate/Sound.antt =====
-- What a topology that `Topology.validate` accepts has.
use p4net.Base.{Distinct, ◌≡◌, refl, [], ◌∷◌, ◌++◌, List, All, arith, ok}
use p4net.Base.Dict.{values}
use p4net.Topo.Topology.{Topology}
use p4net.Topo.Validate.Problems.{Problem}
use p4net.Topo.Validate.Structure.{host_keys, switch_keys, shared_names}
use p4net.Topo.Validate.Claims.{port_problems, service_problems, interface_problems}
use p4net.Topo.Validate.Addresses.{address_problems}
use p4net.Topo.Validate.Whole.{structure_problems, problems, validate}
use p4net.Topo.Validate.Distinct.{assigned_ports, port_problems-iff-Distinct}
use p4net.Topo.Validate.Services.{device_ids, tcp_ports, service_problems-iff-Distinct}
use p4net.Topo.Validate.Ends.{LinkSound, append-nothing_iff, all_link_problems-nothing_iff}

-- Nothing in a row of five parts.
five_parts :
    (a b c d e : List Problem)
    → a ++ (b ++ (c ++ (d ++ e))) ≡ []
    → (a ≡ []) × (b ≡ []) × (c ≡ []) × (d ≡ []) × (e ≡ [])
five_parts [] [] [] [] [] h = (refl, refl, refl, refl, refl)
five_parts [] [] [] [] (p ∷ e) h = cc
five_parts [] [] [] (p ∷ d) e h = cc
five_parts [] [] (p ∷ c) d e h = cc
five_parts [] (p ∷ b) c d e h = cc
five_parts (p ∷ a) b c d e h = cc

validate-nothing : (t : Topology) → validate t ≡ ok tt → problems t ≡ []
unfolding validate
validate-nothing t h = ground arith

-- In an accepted topology every link joins different known nodes at ports, and at a switch at a
-- data port without addresses; no two ends of links hold one port of one node; no two switches
-- have one device id, and no TCP port is used twice.
pub validate_sound :
    (t : Topology)
    → validate t ≡ ok tt
    → All (LinkSound t) (Topology.links t)
      × Distinct (assigned_ports (Topology.links t))
      × Distinct (device_ids (values (Topology.switches t)))
      × Distinct (tcp_ports (values (Topology.switches t)))
unfolding problems structure_problems
validate_sound t h =
    let (structure, ports, services, interfaces, addresses) =
      five_parts (structure_problems t) (port_problems t) (service_problems t)
        (interface_problems t) (address_problems t) (validate-nothing t h) in
    let after_hosts = (append-nothing_iff (host_keys (Topology.hosts t)) _).0 structure in
    let after_switches =
      (append-nothing_iff (switch_keys (Topology.switches t)) _).0 after_hosts.1 in
    let links = (append-nothing_iff (shared_names t (Topology.hosts t)) _).0 after_switches.1 in
    let (ids, tcp) = (service_problems-iff-Distinct t).0 services in
    (
      (all_link_problems-nothing_iff t 0 (Topology.links t)).0 links.1,
      (port_problems-iff-Distinct t).0 ports,
      ids,
      tcp,
    )
