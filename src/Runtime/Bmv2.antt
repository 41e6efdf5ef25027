-- ===== src/Runtime/Bmv2.antt =====
-- src/p4net/runtime/bmv2.py: the checks of `BMv2Switch` and the command line of the process. The
-- path of the program's JSON and the directory for captures are texts.
pub mod Examples
use p4net.Base.{
  ℕ, Bool, true, false, not, ◌||◌, Option, none, some, List, [], ◌∷◌, ◌++◌, leb, if◌then◌else◌,
  Result, ok, err, ◌>>◌, raise_if,
}
use p4net.Base.Text.{Text, codes, text_eq}
use p4net.Base.Dict.{nat_eq, Dict, keys, lookup}
use p4net.Builtins.IntText.{decimal}

-- The arguments of `BMv2Switch` that the network gives; the others keep their defaults.
pub record SwitchProcess : Type 0 where
  pub name : Text
  pub device_id : ℕ
  pub grpc_port : ℕ
  pub thrift_port : ℕ
  pub port_to_iface : Dict ℕ Text
  pub with_pcap : Bool
  pub cpu_port : Option ℕ
  pub log_level : Text

pub data ProcessError : Type 0 where
  empty_name bad_log_level : ProcessError

unfoldable pub is_log_level : Text → List Text → Bool
is_log_level s [] = false
is_log_level s (t ∷ ts) = text_eq s t || is_log_level s ts

abbrev log_levels : List Text
log_levels = codes "trace" ∷ codes "debug" ∷ codes "info" ∷ codes "warn" ∷ codes "error" ∷ []

abbrev no_name : Text → Bool
no_name [] = true
no_name (c ∷ s) = false

unfoldable pub check_process : SwitchProcess → Result ProcessError (Unit {0})
unfolding is_log_level
check_process p = do
  raise_if (no_name p.name) empty_name
  raise_if (not (is_log_level p.log_level log_levels)) bad_log_level

unfoldable pub insert_port : ℕ → List ℕ → List ℕ
insert_port p [] = p ∷ []
insert_port p (q ∷ qs) = let rest = insert_port p qs in if leb p q then p ∷ q ∷ qs else q ∷ rest

-- `sorted(ports)`
unfoldable pub sorted_ports : List ℕ → List ℕ
unfolding insert_port
sorted_ports [] = []
sorted_ports (p ∷ ps) = insert_port p (sorted_ports ps)

unfoldable pub port_args : Dict ℕ Text → List ℕ → List Text
port_args ifaces [] = []
port_args ifaces (p ∷ ps) =
    let rest = port_args ifaces ps in
    elim (lookup p ifaces) [
      | none ↦ rest
      | some iface ↦ codes "-i" ∷ (decimal p ++ (b'@' ∷ iface)) ∷ rest
    ]

abbrev pcap_args : Option Text → List Text
pcap_args none = []
pcap_args (some dir) = codes "--pcap" ∷ dir ∷ []

abbrev cpu_args : Option ℕ → List Text
cpu_args none = []
cpu_args (some p) = codes "--cpu-port" ∷ decimal p ∷ []

-- The path of the JSON stands before the separator, the target's options behind it.
unfoldable pub build_argv : Text → Option Text → SwitchProcess → List Text
unfolding sorted_ports port_args
build_argv json pcap_dir p =
    codes "simple_switch_grpc"
    ∷ codes "--device-id"
    ∷ decimal p.device_id
    ∷ (port_args p.port_to_iface (sorted_ports (keys p.port_to_iface))
        ++ (codes "--thrift-port"
            ∷ decimal p.thrift_port
            ∷ codes "--log-console"
            ∷ codes "--log-flush"
            ∷ codes "-L"
            ∷ p.log_level
            ∷ (pcap_args (if p.with_pcap then pcap_dir else none)
                ++ (json
                    ∷ codes "--"
                    ∷ codes "--grpc-server-addr"
                    ∷ (codes "127.0.0.1:" ++ decimal p.grpc_port)
                    ∷ cpu_args p.cpu_port))))
