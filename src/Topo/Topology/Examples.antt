-- ===== src/Topo/Topology/Examples.antt =====
-- A small topology built by calls, and the theorems on it.
use p4net.Base.{All, ℕ, ◌≤◌, ◌≡◌, refl, ◌↔◌, true, none, some, [], ◌∷◌, pos, ok, err}
use p4net.Base.Text.{Text, codes, text_eq, split, join, has, rsplit_last}
use p4net.Base.Members.{member}
use p4net.Base.Dict.{lookup, contains, insert, text_eq_instance}
use p4net.Builtins.IntText.{decimal}
use p4net.Builtins.Bytes.{from_bytes}
use p4net.Builtins.Address.{ipv4_packed, parse_octet, ipv6_int}
use p4net.Builtins.Interface.{ipv4_interface, ipv6_interface, path_suffix}
use p4net.Topo.Names.{
  name_re, name_char, is_letter, all_chars, mac_fullmatch, validate_ifname, any_char, utf8_length,
  char_bytes, no_free_port,
}
use p4net.Topo.Nodes.{
  Host, P4Switch, SwitchOptions, new_host, check_host, new_switch, ranged, plain_ip6,
}
use p4net.Topo.Link.{
  Link, LinkOptions, new_endpoint, check_endpoint, new_link, check_link, check_options,
  validate_port_number,
}
use p4net.Topo.Topology.{
  Topology, Side, new_topology, add_host, add_switch, add_link, node, node_name, is_switch,
  name_taken, reject_existing_name, port_at, used_ports, cpu_port_of, avoided, first_free,
  candidate, allocated_port, requested_port, auto_port, iface_name, check_iface, check_ifaces,
  check_addresses, no_address, attach, connect, a_switch,
}
use p4net.Topo.Topology.Ports.{
  allocated_port-iff-IsAllocated, allocated_port_full_iff, IsFree, IsAllocated,
}
use p4net.Topo.Validate.Structure.{all_link_problems}
use p4net.Topo.Validate.Built.{NoLoop, Built-link_problems_iff}
use p4net.Topo.Topology.Invariant.{WellFormed}
use p4net.Topo.Topology.Invariant.Steps.{
  Built, empty, then_step, host_added, switch_added, link_added, Built-WellFormed,
}

program : Unit {0}
unfolding text_eq split join has rsplit_last lookup contains insert decimal from_bytes ipv4_packed
    parse_octet ipv6_int ipv4_interface ipv6_interface path_suffix member name_re name_char
    is_letter all_chars mac_fullmatch validate_ifname any_char utf8_length char_bytes new_host
    check_host new_switch ranged plain_ip6 new_endpoint check_endpoint new_link check_link
    check_options validate_port_number add_host add_switch add_link node node_name is_switch
    name_taken reject_existing_name port_at used_ports cpu_port_of avoided first_free candidate
    allocated_port requested_port auto_port iface_name check_iface check_ifaces check_addresses
    no_address attach connect
program = tt

abbrev h1 : Host
h1 = record {
  name = codes "h1";
  ip = some (codes "10.0.0.1/24");
  mac = some (codes "00:00:00:00:00:01");
  default_route = some (codes "10.0.0.254");
  ip6 = some (codes "fd00::1/64");
  default_route6 = none;
}

abbrev s1_options : SwitchOptions
s1_options = record {
  p4_src = codes "l2.p4";
  arch = codes "v1model";
  device_id = none;
  grpc_port = none;
  thrift_port = none;
  cpu_port = some (pos 1);
  log_level = codes "info";
  pcap_enabled = true;
}

abbrev s1 : P4Switch
s1 = record {
  name = codes "s1";
  p4_src = codes "l2.p4";
  arch = codes "v1model";
  device_id = some 0;
  grpc_port = some 50051;
  thrift_port = some 9090;
  cpu_port = some 1;
  log_level = codes "info";
  pcap_enabled = true;
}

abbrev plain : LinkOptions
plain = record {
  bandwidth = none;
  delay = some (codes "5ms");
  jitter = none;
  loss_pct = none;
  mtu = some (pos 1500);
  bandwidth_a_to_b = none;
  bandwidth_b_to_a = none;
  delay_a_to_b = none;
  delay_b_to_a = none;
  jitter_a_to_b = none;
  jitter_b_to_a = none;
  loss_pct_a_to_b = none;
  loss_pct_b_to_a = none;
  delay_a_to_b_extra = none;
  delay_b_to_a_extra = none;
  jitter_a_to_b_extra = none;
  jitter_b_to_a_extra = none;
  loss_pct_a_to_b_extra = none;
  loss_pct_b_to_a_extra = none;
}

abbrev auto : Text → Side
auto name = record { ref = name; port = none; ip = none; mac = none; ip6 = none }

abbrev with_h1 : Topology
with_h1 = record { hosts = (codes "h1", h1) ∷ []; switches = []; links = [] }

abbrev with_s1 : Topology
with_s1 = record { hosts = (codes "h1", h1) ∷ []; switches = (codes "s1", s1) ∷ []; links = [] }

-- The host's first port is 0; the switch's is 2, behind the CPU port.
abbrev cable : Link
cable = record {
  a = record {
    node = codes "h1";
    port = some 0;
    iface_name = some (codes "h1-eth0");
    ip = none;
    mac = none;
    ip6 = none;
  };
  b = record {
    node = codes "s1";
    port = some 2;
    iface_name = some (codes "s1-eth2");
    ip = none;
    mac = none;
    ip6 = none;
  };
  options = plain;
}

abbrev pub linked : Topology
linked = record {
  hosts = (codes "h1", h1) ∷ [];
  switches = (codes "s1", s1) ∷ [];
  links = cable ∷ [];
}

h1_added : add_host h1 new_topology ≡ ok (with_h1, h1)
unfolding program
h1_added = refl

s1_added : add_switch (codes "s1") s1_options with_h1 ≡ ok (with_s1, s1)
unfolding program
s1_added = refl

cable_added : add_link (auto (codes "h1")) (auto (codes "s1")) plain with_s1 ≡ ok (linked, cable)
unfolding program
cable_added = refl

pub linked-Built : Built linked
linked-Built =
    then_step with_s1 linked
      (then_step with_h1 with_s1
        (then_step new_topology with_h1 empty (host_added h1 new_topology (with_h1, h1) h1_added))
        (switch_added (codes "s1") s1_options with_h1 (with_s1, s1) s1_added))
      (link_added (auto (codes "h1")) (auto (codes "s1")) plain with_s1 (linked, cable) cable_added)

Built-WellFormed_example : WellFormed linked
Built-WellFormed_example = Built-WellFormed linked-Built

allocated_port-iff-IsAllocated_example :
    (allocated_port (a_switch s1) (cable ∷ []) ≡ ok 3) ↔ IsAllocated (a_switch s1) (cable ∷ []) 3
allocated_port-iff-IsAllocated_example = allocated_port-iff-IsAllocated (a_switch s1) (cable ∷ []) 3

allocated_port_full_iff_example : (allocated_port (a_switch s1) (cable ∷ []) ≡ err no_free_port) ↔ (
    (is_switch (a_switch s1) ≡ true)
    × ((p : ℕ) → 1 ≤ p → p ≤ 510 → ¬ (IsFree (a_switch s1) (cable ∷ []) p)))
allocated_port_full_iff_example = allocated_port_full_iff (a_switch s1) (cable ∷ [])

third_port : allocated_port (a_switch s1) (cable ∷ []) ≡ ok 3
unfolding program
third_port = refl

Built-link_problems_iff_example :
    (all_link_problems linked 0 (cable ∷ []) ≡ []) ↔ All NoLoop (cable ∷ [])
Built-link_problems_iff_example = Built-link_problems_iff linked linked-Built
