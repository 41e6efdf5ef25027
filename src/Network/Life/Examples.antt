-- ===== src/Network/Life/Examples.antt =====
-- A network of one host and one switch, of which the switch process never gets ready.
use p4net.Base.{◌≡◌, refl, true, false, none, some, [], ◌∷◌, err, pos}
use p4net.Base.Text.{Text, codes, text_eq}
use p4net.Base.Dict.{lookup, insert, text_eq_instance}
use p4net.Builtins.IntText.{decimal, str_int}
use p4net.Topo.Nodes.{Host, P4Switch}
use p4net.Topo.Link.{Float, LinkOptions, in_percent}
use p4net.Topo.Topology.{Topology, node}
use p4net.Topo.Validate.Addresses.{effective_host_addresses, in_set, add_to_set}
use p4net.Runtime.Tc.{is_clear, check_netem, netem_argv, valid_time, has_unit, unit_of, lower_case}
use p4net.Builtins.Quantity.{take_digits, after_whole, split_quantity}
use p4net.Network.Directions.{
  Floats, direction_params, resolved, resolve_dir_str, resolve_dir_loss, rate_or,
}
use p4net.Network.Calls.{
  Call, await_bmv2, Answer, returned, raised, Log, call_raised, Net, new_net, in_keys, add_key,
  for_each, has_raised, do_call,
}
use p4net.Network.Start.{
  port_to_iface_for, check_topology, compile_switch, register_cleanup, start_namespace,
  configure_host_iface, mac_for, configure_host_end, configure_switch_end, configure_end,
  shape_direction, make_veth, wire_link, wire_links, default_routes, start_switch, start_client,
  start_clients, do_start, switch_process,
}
use p4net.Network.Stop.{
  await_or_kill, end_process, is_running, reap, each, was_there, release_namespace,
  unregister_cleanup, do_stop, finished, run_start, start,
}
use p4net.Network.Resources.{Resource, a_process, is_held}
use p4net.Network.Life.{begins, starts, failed_start-releases, do_stop-releases}

network : Unit {0}
unfolding text_eq lookup insert decimal str_int in_percent node effective_host_addresses in_set
    add_to_set is_clear check_netem netem_argv valid_time has_unit unit_of lower_case take_digits
    after_whole split_quantity direction_params resolved resolve_dir_str resolve_dir_loss rate_or
    in_keys add_key for_each has_raised do_call port_to_iface_for check_topology compile_switch
    register_cleanup start_namespace configure_host_iface mac_for configure_host_end
    configure_switch_end configure_end shape_direction make_veth wire_link wire_links default_routes
    start_switch start_client start_clients do_start switch_process await_or_kill end_process
    is_running reap each was_there release_namespace unregister_cleanup do_stop finished run_start
    start
network = tt

abbrev floats : Floats
floats = record { add = λ x y. x; scaled = λ t unit. unit }

abbrev show_float : Float → Text
show_float x = codes "5"

-- All calls return, but the wait for the switch process raises.
abbrev answers : Log → Call → Answer
answers log (await_bmv2 name) = raised
answers log _ = returned

abbrev h1 : Host
h1 = record {
  name = codes "h1";
  ip = some (codes "10.0.0.1/24");
  mac = none;
  default_route = none;
  ip6 = none;
  default_route6 = none;
}

abbrev s1 : P4Switch
s1 = record {
  name = codes "s1";
  p4_src = codes "a.p4";
  arch = codes "v1model";
  device_id = some 0;
  grpc_port = none;
  thrift_port = none;
  cpu_port = none;
  log_level = codes "info";
  pcap_enabled = false;
}

abbrev options : LinkOptions
options = record {
  bandwidth = none;
  delay = some (codes "5ms");
  jitter = none;
  loss_pct = none;
  mtu = some (pos 1400);
  bandwidth_a_to_b = none;
  bandwidth_b_to_a = none;
  delay_a_to_b = none;
  delay_b_to_a = none;
  jitter_a_to_b = none;
  jitter_b_to_a = none;
  loss_pct_a_to_b = none;
  loss_pct_b_to_a = none;
  delay_a_to_b_extra = none;
  delay_b_to_a_extra = none;
  jitter_a_to_b_extra = none;
  jitter_b_to_a_extra = none;
  loss_pct_a_to_b_extra = none;
  loss_pct_b_to_a_extra = none;
}

abbrev topology : Topology
topology = record {
  hosts = (codes "h1", h1) ∷ [];
  switches = (codes "s1", s1) ∷ [];
  links =
      record {
        a = record {
          node = codes "h1";
          port = none;
          iface_name = some (codes "h1-eth0");
          ip = none;
          mac = none;
          ip6 = none;
        };
        b = record {
          node = codes "s1";
          port = some 1;
          iface_name = some (codes "s1-eth1");
          ip = none;
          mac = none;
          ip6 = none;
        };
        options = options;
      }
      ∷ [];
}

start_raises :
    (start answers floats show_float true false 7 false false topology new_net).1
    ≡ err (call_raised (await_bmv2 (codes "s1")))
unfolding network
start_raises = refl

failed_start-releases_example :
    ((r : Resource)
      → is_held r (start answers floats show_float true false 7 false false topology new_net).0.log
        ≡ false)
    × ((start answers floats show_float true false 7 false false topology new_net).0.running
        ≡ false)
failed_start-releases_example =
    failed_start-releases answers floats show_float true false 7 false false topology new_net
      (call_raised (await_bmv2 (codes "s1"))) begins refl start_raises

-- The network while the switch process is awaited.
held_at_start :
    is_held
      (a_process (codes "s1"))
      (do_start answers floats show_float true false 7 topology new_net).0.log
    ≡ true
unfolding network is_held
held_at_start = refl

-- All calls return.
abbrev obliging : Log → Call → Answer
obliging log c = returned

abbrev running_net : Net
running_net = (start obliging floats show_float true false 7 false false topology new_net).0

runs : running_net.running ≡ true
unfolding network
runs = refl

held_while_running : is_held (a_process (codes "s1")) running_net.log ≡ true
unfolding network is_held
held_while_running = refl

do_stop-releases_example :
    is_held (a_process (codes "s1")) (do_stop obliging running_net).log ≡ false
do_stop-releases_example =
    do_stop-releases obliging floats show_float true false 7 (starts false false topology begins)
      (a_process (codes "s1"))
