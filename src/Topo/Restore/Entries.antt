-- ===== src/Topo/Restore/Entries.antt =====
-- What one entry of a snapshot is read back as: nodes, endpoints and links.
use p4net.Base.{ℕ, ◌≡◌, refl, Option, none, some, ok, ℤ, pos}
use p4net.Base.Text.{Text, text_eq}
use p4net.Topo.Nodes.{Host, P4Switch, SwitchOptions, new_host, new_switch}
use p4net.Topo.Link.{
  Float, Link, LinkEndpoint, LinkOptions, new_endpoint, new_link, validate_port_number,
}
use p4net.Topo.Render.{
  of_text, of_nat, of_int, of_float, host_to_dict, switch_to_dict, endpoint_to_dict, link_to_dict,
}
use p4net.Topo.Payload.{get, as_opt_text, as_opt_int, as_opt_float}
use p4net.Topo.Restore.{
  constructed_port, restore_host, restore_switch, restore_endpoint, restore_options, restore_link,
}

text_again : (o : Option Text) → as_opt_text (of_text o) ≡ ok o
text_again none = refl
text_again (some s) = refl

int_again : (o : Option ℤ) → as_opt_int (of_int o) ≡ ok o
int_again none = refl
int_again (some z) = refl

float_again : (o : Option Float) → as_opt_float (of_float o) ≡ ok o
float_again none = refl
float_again (some x) = refl

abbrev pub opt_pos : Option ℕ → Option ℤ
opt_pos none = none
opt_pos (some n) = some (pos n)

nat_again : (o : Option ℕ) → as_opt_int (of_nat o) ≡ ok (opt_pos o)
nat_again none = refl
nat_again (some n) = refl

port_again : (o : Option ℕ) → constructed_port (opt_pos o) ≡ ok o
unfolding validate_port_number
port_again none = refl
port_again (some n) = refl

pub host_again : (h : Host) → new_host h ≡ ok h → restore_host (host_to_dict h) ≡ ok h
unfolding restore_host get host_to_dict text_eq
host_again h good =
    rw
      (
        text_again (Host.ip h),
        text_again (Host.mac h),
        text_again (Host.default_route h),
        text_again (Host.ip6 h),
        text_again (Host.default_route6 h),
        good,
      )
      refl

-- The arguments that make a switch again.
abbrev pub options_of : P4Switch → SwitchOptions
options_of s = record {
  p4_src = P4Switch.p4_src s;
  arch = P4Switch.arch s;
  device_id = opt_pos (P4Switch.device_id s);
  grpc_port = opt_pos (P4Switch.grpc_port s);
  thrift_port = opt_pos (P4Switch.thrift_port s);
  cpu_port = opt_pos (P4Switch.cpu_port s);
  log_level = P4Switch.log_level s;
  pcap_enabled = P4Switch.pcap_enabled s;
}

pub switch_again :
    (str_path make_path : Text → Text) (s : P4Switch)
    → make_path (str_path (P4Switch.p4_src s)) ≡ P4Switch.p4_src s
    → new_switch (P4Switch.name s) (options_of s) ≡ ok s
    → restore_switch make_path (switch_to_dict str_path s) ≡ ok s
unfolding restore_switch get switch_to_dict text_eq
switch_again str_path make_path s path good =
    rw
      (
        nat_again (P4Switch.device_id s),
        nat_again (P4Switch.grpc_port s),
        nat_again (P4Switch.thrift_port s),
        nat_again (P4Switch.cpu_port s),
        path,
        good,
      )
      refl

endpoint_again :
    (e : LinkEndpoint) → new_endpoint e ≡ ok e → restore_endpoint (endpoint_to_dict e) ≡ ok e
unfolding restore_endpoint get endpoint_to_dict text_eq
endpoint_again e good =
    rw
      (
        nat_again (LinkEndpoint.port e),
        text_again (LinkEndpoint.iface_name e),
        text_again (LinkEndpoint.ip e),
        text_again (LinkEndpoint.mac e),
        text_again (LinkEndpoint.ip6 e),
        port_again (LinkEndpoint.port e),
        good,
      )
      refl

pub link_again :
    (l : Link)
    → (new_endpoint (Link.a l) ≡ ok (Link.a l)) × (new_endpoint (Link.b l) ≡ ok (Link.b l))
    → new_link l ≡ ok l
    → restore_link (link_to_dict l) ≡ ok l
unfolding restore_link restore_options get link_to_dict text_eq
link_again l (good_a, good_b) good =
    let o = Link.options l in
    rw
      (
        endpoint_again (Link.a l) good_a,
        endpoint_again (Link.b l) good_b,
        text_again (LinkOptions.bandwidth o),
        text_again (LinkOptions.delay o),
        text_again (LinkOptions.jitter o),
        text_again (LinkOptions.bandwidth_a_to_b o),
        text_again (LinkOptions.bandwidth_b_to_a o),
        text_again (LinkOptions.delay_a_to_b o),
        text_again (LinkOptions.delay_b_to_a o),
        text_again (LinkOptions.jitter_a_to_b o),
        text_again (LinkOptions.jitter_b_to_a o),
        text_again (LinkOptions.delay_a_to_b_extra o),
        text_again (LinkOptions.delay_b_to_a_extra o),
        text_again (LinkOptions.jitter_a_to_b_extra o),
        text_again (LinkOptions.jitter_b_to_a_extra o),
        float_again (LinkOptions.loss_pct o),
        float_again (LinkOptions.loss_pct_a_to_b o),
        float_again (LinkOptions.loss_pct_b_to_a o),
        float_again (LinkOptions.loss_pct_a_to_b_extra o),
        float_again (LinkOptions.loss_pct_b_to_a_extra o),
        int_again (LinkOptions.mtu o),
        good,
      )
      refl
