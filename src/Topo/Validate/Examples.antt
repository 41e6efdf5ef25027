-- ===== src/Topo/Validate/Examples.antt =====
-- A topology of one host and one switch, accepted, and the theorems on it.
use p4net.Base.{Distinct, ◌≡◌, ◌↔◌, refl, true, none, some, List, [], ◌∷◌, All, ok}
use p4net.Base.Text.{codes, text_eq, has, split}
use p4net.Base.Dict.{lookup, contains, insert, text_eq_instance}
use p4net.Builtins.Address.{ipv4_packed, parse_octet, ipv6_int}
use p4net.Builtins.Interface.{ipv4_interface, ipv6_interface}
use p4net.Topo.Names.{validate_ifname, any_char, utf8_length, char_bytes}
use p4net.Topo.Nodes.{Host, P4Switch}
use p4net.Topo.Link.{Link, LinkOptions}
use p4net.Topo.Topology.{Topology}
use p4net.Topo.Validate.Problems.{port_collision, collide, ends}
use p4net.Topo.Validate.Structure.{
  host_keys, switch_keys, shared_names, at_switch, endpoint_problems, link_problems,
  all_link_problems,
}
use p4net.Topo.Validate.Claims.{
  port_claim, port_claims, port_problems, service_claim, service_claims, service_problems,
  interface_scope, named_claim, interface_claim, interface_claims, interface_problems,
}
use p4net.Topo.Validate.Addresses.{
  effective_host_addresses, in_set, add_to_set, add_owner, own_ipv4, own_ipv6, seen_host,
  own_addresses, address_owners, shared, address_problems,
}
use p4net.Topo.Validate.Whole.{structure_problems, problems, validate}
use p4net.Topo.Validate.Distinct.{assigned_ports, port_problems-iff-Distinct}
use p4net.Topo.Validate.Services.{device_ids, tcp_ports, service_problems-iff-Distinct}
use p4net.Topo.Validate.Ends.{LinkSound, all_link_problems-nothing_iff}
use p4net.Topo.Validate.Sound.{validate_sound}

program : Unit {0}
unfolding text_eq has split lookup contains insert ipv4_packed parse_octet ipv6_int ipv4_interface
    ipv6_interface validate_ifname any_char utf8_length char_bytes collide ends host_keys
    switch_keys shared_names at_switch endpoint_problems link_problems all_link_problems port_claim
    port_claims port_problems service_claim service_claims service_problems interface_scope
    named_claim interface_claim interface_claims interface_problems effective_host_addresses in_set
    add_to_set add_owner own_ipv4 own_ipv6 seen_host own_addresses address_owners shared
    address_problems structure_problems problems validate
program = tt

abbrev h1 : Host
h1 = record {
  name = codes "h1";
  ip = some (codes "10.0.0.1/24");
  mac = none;
  default_route = none;
  ip6 = none;
  default_route6 = none;
}

abbrev s1 : P4Switch
s1 = record {
  name = codes "s1";
  p4_src = codes "l2.p4";
  arch = codes "v1model";
  device_id = some 0;
  grpc_port = some 50051;
  thrift_port = some 9090;
  cpu_port = some 1;
  log_level = codes "info";
  pcap_enabled = true;
}

abbrev plain : LinkOptions
plain = record {
  bandwidth = none;
  delay = none;
  jitter = none;
  loss_pct = none;
  mtu = none;
  bandwidth_a_to_b = none;
  bandwidth_b_to_a = none;
  delay_a_to_b = none;
  delay_b_to_a = none;
  jitter_a_to_b = none;
  jitter_b_to_a = none;
  loss_pct_a_to_b = none;
  loss_pct_b_to_a = none;
  delay_a_to_b_extra = none;
  delay_b_to_a_extra = none;
  jitter_a_to_b_extra = none;
  jitter_b_to_a_extra = none;
  loss_pct_a_to_b_extra = none;
  loss_pct_b_to_a_extra = none;
}

abbrev cable : Link
cable = record {
  a = record {
    node = codes "h1";
    port = some 0;
    iface_name = some (codes "h1-eth0");
    ip = none;
    mac = none;
    ip6 = none;
  };
  b = record {
    node = codes "s1";
    port = some 2;
    iface_name = some (codes "s1-eth2");
    ip = none;
    mac = none;
    ip6 = none;
  };
  options = plain;
}

abbrev with_links : List Link → Topology
with_links ls = record {
  hosts = (codes "h1", h1) ∷ [];
  switches = (codes "s1", s1) ∷ [];
  links = ls;
}

accepted : validate (with_links (cable ∷ [])) ≡ ok tt
unfolding program
accepted = refl

-- The same cable twice.
port_taken :
    port_problems (with_links (cable ∷ cable ∷ []))
    ≡ port_collision (codes "h1", 0) 0 1 ∷ port_collision (codes "s1", 2) 0 1 ∷ []
unfolding program
port_taken = refl

validate_sound_example :
    All (LinkSound (with_links (cable ∷ []))) (cable ∷ [])
    × Distinct (assigned_ports (cable ∷ []))
    × Distinct (device_ids (s1 ∷ []))
    × Distinct (tcp_ports (s1 ∷ []))
validate_sound_example = validate_sound (with_links (cable ∷ [])) accepted

all_link_problems-nothing_iff_example :
    (all_link_problems (with_links []) 0 (cable ∷ []) ≡ [])
    ↔ All (LinkSound (with_links [])) (cable ∷ [])
all_link_problems-nothing_iff_example = all_link_problems-nothing_iff (with_links []) 0 (cable ∷ [])

port_problems-iff-Distinct_example :
    (port_problems (with_links (cable ∷ cable ∷ [])) ≡ [])
    ↔ Distinct (assigned_ports (cable ∷ cable ∷ []))
port_problems-iff-Distinct_example = port_problems-iff-Distinct (with_links (cable ∷ cable ∷ []))

service_problems-iff-Distinct_example :
    (service_problems (with_links []) ≡ [])
    ↔ (Distinct (device_ids (s1 ∷ [])) × Distinct (tcp_ports (s1 ∷ [])))
service_problems-iff-Distinct_example = service_problems-iff-Distinct (with_links [])
