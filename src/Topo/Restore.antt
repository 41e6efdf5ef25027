-- ===== src/Topo/Restore.antt =====
-- `Topology.from_dict` of src/p4net/topo/topology.py, over the JSON values of `to_dict`. `Path(text)`
-- is a parameter.
pub mod Entries
pub mod Built
pub mod RoundTrip
pub mod Examples
use p4net.Base.{ℕ, true, Option, none, some, List, [], ◌∷◌, ℤ, ok, err, ◌>>=◌}
use p4net.Base.Text.{Text, codes}
use p4net.Base.Dict.{Dict, insert, text_eq_instance}
use p4net.Topo.Nodes.{Host, P4Switch, SwitchOptions, new_host, new_switch}
use p4net.Topo.Link.{Link, LinkEndpoint, LinkOptions, new_endpoint, new_link, validate_port_number}
use p4net.Topo.Topology.{Topology}
use p4net.Topo.Render.{Json, Fields, no_field, field, Items, no_item, item}
use p4net.Topo.Payload.{
  Restored, constructed, get, as_text, as_flag, as_opt_text, as_opt_int, as_opt_float, as_fields,
  as_items, required, get_or,
}

unfoldable pub restore_host : Json → Restored Host
unfolding get
restore_host payload = do
  f ← as_fields payload
  name ← required as_text (codes "name") f
  ip ← get_or as_opt_text none (codes "ip") f
  mac ← get_or as_opt_text none (codes "mac") f
  default_route ← get_or as_opt_text none (codes "default_route") f
  ip6 ← get_or as_opt_text none (codes "ip6") f
  default_route6 ← get_or as_opt_text none (codes "default_route6") f
  constructed (
      new_host (record {
        name = name;
        ip = ip;
        mac = mac;
        default_route = default_route;
        ip6 = ip6;
        default_route6 = default_route6;
      }))

unfoldable pub restore_switch : (Text → Text) → Json → Restored P4Switch
unfolding get
restore_switch make_path payload = do
  f ← as_fields payload
  name ← required as_text (codes "name") f
  p4_src ← required as_text (codes "p4_src") f
  arch ← get_or as_text (codes "v1model") (codes "arch") f
  device_id ← get_or as_opt_int none (codes "device_id") f
  grpc_port ← get_or as_opt_int none (codes "grpc_port") f
  thrift_port ← get_or as_opt_int none (codes "thrift_port") f
  cpu_port ← get_or as_opt_int none (codes "cpu_port") f
  log_level ← get_or as_text (codes "info") (codes "log_level") f
  pcap_enabled ← get_or as_flag true (codes "pcap_enabled") f
  constructed (
      new_switch name (record {
        p4_src = make_path p4_src;
        arch = arch;
        device_id = device_id;
        grpc_port = grpc_port;
        thrift_port = thrift_port;
        cpu_port = cpu_port;
        log_level = log_level;
        pcap_enabled = pcap_enabled;
      }))

abbrev pub constructed_port : Option ℤ → Restored (Option ℕ)
constructed_port none = ok none
constructed_port (some z) = do p ← constructed (validate_port_number z); ok (some p)

unfoldable pub restore_endpoint : Json → Restored LinkEndpoint
unfolding get
restore_endpoint payload = do
  f ← as_fields payload
  node ← required as_text (codes "node") f
  port ← get_or as_opt_int none (codes "port") f
  iface_name ← get_or as_opt_text none (codes "iface_name") f
  ip ← get_or as_opt_text none (codes "ip") f
  mac ← get_or as_opt_text none (codes "mac") f
  ip6 ← get_or as_opt_text none (codes "ip6") f
  number_of_port ← constructed_port port
  constructed (
      new_endpoint (record {
        node = node;
        port = number_of_port;
        iface_name = iface_name;
        ip = ip;
        mac = mac;
        ip6 = ip6;
      }))

unfoldable pub restore_options : Fields → Restored LinkOptions
unfolding get
restore_options f = do
  bandwidth ← get_or as_opt_text none (codes "bandwidth") f
  delay ← get_or as_opt_text none (codes "delay") f
  jitter ← get_or as_opt_text none (codes "jitter") f
  loss_pct ← get_or as_opt_float none (codes "loss_pct") f
  mtu ← get_or as_opt_int none (codes "mtu") f
  bandwidth_a_to_b ← get_or as_opt_text none (codes "bandwidth_a_to_b") f
  bandwidth_b_to_a ← get_or as_opt_text none (codes "bandwidth_b_to_a") f
  delay_a_to_b ← get_or as_opt_text none (codes "delay_a_to_b") f
  delay_b_to_a ← get_or as_opt_text none (codes "delay_b_to_a") f
  jitter_a_to_b ← get_or as_opt_text none (codes "jitter_a_to_b") f
  jitter_b_to_a ← get_or as_opt_text none (codes "jitter_b_to_a") f
  loss_pct_a_to_b ← get_or as_opt_float none (codes "loss_pct_a_to_b") f
  loss_pct_b_to_a ← get_or as_opt_float none (codes "loss_pct_b_to_a") f
  delay_a_to_b_extra ← get_or as_opt_text none (codes "delay_a_to_b_extra") f
  delay_b_to_a_extra ← get_or as_opt_text none (codes "delay_b_to_a_extra") f
  jitter_a_to_b_extra ← get_or as_opt_text none (codes "jitter_a_to_b_extra") f
  jitter_b_to_a_extra ← get_or as_opt_text none (codes "jitter_b_to_a_extra") f
  loss_pct_a_to_b_extra ← get_or as_opt_float none (codes "loss_pct_a_to_b_extra") f
  loss_pct_b_to_a_extra ← get_or as_opt_float none (codes "loss_pct_b_to_a_extra") f
  ok (record {
    bandwidth = bandwidth;
    delay = delay;
    jitter = jitter;
    loss_pct = loss_pct;
    mtu = mtu;
    bandwidth_a_to_b = bandwidth_a_to_b;
    bandwidth_b_to_a = bandwidth_b_to_a;
    delay_a_to_b = delay_a_to_b;
    delay_b_to_a = delay_b_to_a;
    jitter_a_to_b = jitter_a_to_b;
    jitter_b_to_a = jitter_b_to_a;
    loss_pct_a_to_b = loss_pct_a_to_b;
    loss_pct_b_to_a = loss_pct_b_to_a;
    delay_a_to_b_extra = delay_a_to_b_extra;
    delay_b_to_a_extra = delay_b_to_a_extra;
    jitter_a_to_b_extra = jitter_a_to_b_extra;
    jitter_b_to_a_extra = jitter_b_to_a_extra;
    loss_pct_a_to_b_extra = loss_pct_a_to_b_extra;
    loss_pct_b_to_a_extra = loss_pct_b_to_a_extra;
  })

unfoldable pub restore_link : Json → Restored Link
unfolding get restore_endpoint restore_options
restore_link payload = do
  f ← as_fields payload
  a ← required restore_endpoint (codes "a") f
  b ← required restore_endpoint (codes "b") f
  options ← restore_options f
  constructed (new_link (record { a = a; b = b; options = options }))

-- The loop over `data.get(..., {}).items()`
unfoldable pub restore_entries :
    {V : Type 0} → (Json → Restored V) → Fields → Dict Text V → Restored (Dict Text V)
restore_entries read no_field out = ok out
restore_entries read (field k v rest) out = do
  entry ← read v
  restore_entries read rest (insert k entry out)

unfoldable pub restore_links : Items → Restored (List Link)
unfolding restore_link
restore_links no_item = ok []
restore_links (item x rest) = do
  link ← restore_link x
  links ← restore_links rest
  ok (link ∷ links)

unfoldable pub from_dict : (Text → Text) → Json → Restored Topology
unfolding get restore_host restore_switch restore_entries restore_links
from_dict make_path payload = do
  f ← as_fields payload
  host_data ← get_or as_fields no_field (codes "hosts") f
  hosts ← restore_entries restore_host host_data []
  switch_data ← get_or as_fields no_field (codes "switches") f
  switches ← restore_entries (restore_switch make_path) switch_data []
  link_data ← get_or as_items no_item (codes "links") f
  links ← restore_links link_data
  ok (record { hosts = hosts; switches = switches; links = links })
