-- ===== src/Topo/Nodes.antt =====
-- src/p4net/topo/host.py and switch.py: the checks of the two kinds of node.
-- A Python `int` is checked as an ℤ and kept as an ℕ, since no negative one passes.
use p4net.Base.{
  ℕ, Bool, true, false, not, ◌&&◌, ◌||◌, Option, none, some, leb, if◌then◌else◌, Result, err, ok,
  raise_if, ◌>>◌, ◌>>=◌, ℤ, pos, negsuc,
}
use p4net.Base.Text.{Text, codes, has, text_eq}
use p4net.Builtins.Address.{ipv4_packed, ipv6_int}
use p4net.Builtins.Interface.{ipv4_interface, ipv6_interface, path_suffix}
use p4net.Topo.Names.{
  TopologyError, invalid_name, invalid_ip, invalid_mac, route_without_ip, invalid_default_route,
  invalid_ip6, route6_without_ip6, invalid_default_route6, wrong_suffix, unsupported_arch,
  out_of_range, invalid_log_level, name_re, mac_fullmatch,
}

pub record Host : Type 0 where
  pub name : Text
  pub ip : Option Text
  pub mac : Option Text
  pub default_route : Option Text
  pub ip6 : Option Text
  pub default_route6 : Option Text

abbrev pub is_some : {A : Type 0} → Option A → Bool
is_some none = false
is_some (some a) = true

-- `if o is not None: check(o)`
abbrev pub when_set : {A : Type 0} → Option A → (A → Bool) → Bool
when_set none p = false
when_set (some a) p = p a

-- An IPv6 CIDR with no dotted part.
unfoldable pub plain_ip6 : Text → Bool
plain_ip6 s = not (has b'.' s) && is_some (ipv6_interface s)

-- `Host.__post_init__`
unfoldable pub check_host : Host → Result TopologyError (Unit {0})
check_host h = do
  raise_if (not (name_re (Host.name h))) invalid_name
  raise_if (when_set (Host.ip h) (λ a. not (is_some (ipv4_interface a)))) invalid_ip
  raise_if (when_set (Host.mac h) (λ m. not (mac_fullmatch m))) invalid_mac
  raise_if (is_some (Host.default_route h) && not (is_some (Host.ip h))) route_without_ip
  raise_if (when_set (Host.default_route h) (λ a. not (is_some (ipv4_packed a))))
      invalid_default_route
  raise_if (when_set (Host.ip6 h) (λ a. not (plain_ip6 a))) invalid_ip6
  raise_if (is_some (Host.default_route6 h) && not (is_some (Host.ip6 h))) route6_without_ip6
  raise_if (when_set (Host.default_route6 h) (λ a. not (is_some (ipv6_int a))))
      invalid_default_route6

-- `Host(...)` of the fields of `h`.
unfoldable pub new_host : Host → Result TopologyError Host
new_host h = check_host h >> ok h

pub record P4Switch : Type 0 where
  pub name : Text
  pub p4_src : Text
  pub arch : Text
  pub device_id : Option ℕ
  pub grpc_port : Option ℕ
  pub thrift_port : Option ℕ
  pub cpu_port : Option ℕ
  pub log_level : Text
  pub pcap_enabled : Bool

-- The arguments of `add_switch` behind the name.
pub record SwitchOptions : Type 0 where
  pub p4_src : Text
  pub arch : Text
  pub device_id : Option ℤ
  pub grpc_port : Option ℤ
  pub thrift_port : Option ℤ
  pub cpu_port : Option ℤ
  pub log_level : Text
  pub pcap_enabled : Bool

-- `if value is not None and not lo <= value <= hi: raise`
unfoldable pub ranged : ℕ → ℕ → Option ℤ → Result TopologyError (Option ℕ)
ranged lo hi none = ok none
ranged lo hi (some (negsuc n)) = err out_of_range
ranged lo hi (some (pos n)) = if leb lo n && leb n hi then ok (some n) else err out_of_range

valid_log_level : Text → Bool
valid_log_level s =
    text_eq s (codes "trace")
    || text_eq s (codes "debug")
    || text_eq s (codes "info")
    || text_eq s (codes "warn")
    || text_eq s (codes "error")

-- `P4Switch.__post_init__`
unfoldable pub new_switch : Text → SwitchOptions → Result TopologyError P4Switch
unfolding valid_log_level
new_switch name o = do
  raise_if (not (name_re name)) invalid_name
  raise_if (not (text_eq (path_suffix (SwitchOptions.p4_src o)) (codes ".p4"))) wrong_suffix
  raise_if (not (text_eq (SwitchOptions.arch o) (codes "v1model"))) unsupported_arch
  device ← ranged 0 2147483647 (SwitchOptions.device_id o)
  grpc ← ranged 1024 65535 (SwitchOptions.grpc_port o)
  thrift ← ranged 1024 65535 (SwitchOptions.thrift_port o)
  cpu ← ranged 1 510 (SwitchOptions.cpu_port o)
  raise_if (not (valid_log_level (SwitchOptions.log_level o))) invalid_log_level
  ok (record {
    name = name;
    p4_src = SwitchOptions.p4_src o;
    arch = SwitchOptions.arch o;
    device_id = device;
    grpc_port = grpc;
    thrift_port = thrift;
    cpu_port = cpu;
    log_level = SwitchOptions.log_level o;
    pcap_enabled = SwitchOptions.pcap_enabled o;
  })
