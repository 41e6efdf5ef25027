-- ===== src/Runtime/Bmv2/Examples.antt =====
-- The command line of a switch with two ports.
use p4net.Base.{◌≡◌, refl, false, some, [], ◌∷◌, ok}
use p4net.Base.Text.{codes, text_eq}
use p4net.Base.Dict.{nat_eq, lookup}
use p4net.Builtins.IntText.{decimal}
use p4net.Runtime.Bmv2.{
  SwitchProcess, is_log_level, check_process, insert_port, sorted_ports, port_args, build_argv,
}

two_ports : Unit {0}
unfolding text_eq lookup decimal is_log_level check_process insert_port sorted_ports port_args
    build_argv
two_ports = tt

abbrev process : SwitchProcess
process = record {
  name = codes "s1";
  device_id = 3;
  grpc_port = 50051;
  thrift_port = 9090;
  port_to_iface = (2, codes "s1-eth2") ∷ (1, codes "s1-eth1") ∷ [];
  with_pcap = false;
  cpu_port = some 510;
  log_level = codes "info";
}

process_checked : check_process process ≡ ok tt
unfolding two_ports
process_checked = refl

process_argv :
    build_argv (codes "a.json") (some (codes "pcap")) process
    ≡ codes "simple_switch_grpc"
      ∷ codes "--device-id"
      ∷ codes "3"
      ∷ codes "-i"
      ∷ codes "1@s1-eth1"
      ∷ codes "-i"
      ∷ codes "2@s1-eth2"
      ∷ codes "--thrift-port"
      ∷ codes "9090"
      ∷ codes "--log-console"
      ∷ codes "--log-flush"
      ∷ codes "-L"
      ∷ codes "info"
      ∷ codes "a.json"
      ∷ codes "--"
      ∷ codes "--grpc-server-addr"
      ∷ codes "127.0.0.1:50051"
      ∷ codes "--cpu-port"
      ∷ codes "510"
      ∷ []
unfolding two_ports
process_argv = refl
