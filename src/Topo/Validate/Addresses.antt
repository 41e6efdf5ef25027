-- ===== src/Topo/Validate/Addresses.antt =====
-- The last part of `Topology.validate`: no address has two hosts. `effective_host_addresses` is
-- src/p4net/topo/_addresses.py.
use p4net.Base.{
  ℕ, Bool, false, not, ◌||◌, Option, none, some, List, [], ◌∷◌, ◌++◌, ltb, if◌then◌else◌, length,
}
use p4net.Base.Text.{Text, text_eq}
use p4net.Base.Dict.{text_eq_instance, nat_eq, Eq, Dict, lookup, insert}
use p4net.Builtins.Interface.{ipv4_interface, ipv6_interface}
use p4net.Topo.Nodes.{Host}
use p4net.Topo.Link.{LinkEndpoint}
use p4net.Topo.Topology.{Topology}
use p4net.Topo.Validate.Problems.{
  Problem, invalid_endpoint_ip, invalid_endpoint_ip6, ip_shared, ip6_shared, End, ends,
}

abbrev or_default : Option Text → Option Text → Option Text
or_default none default = default
or_default (some a) default = some a

-- The first link of a host falls back on the addresses of the host.
unfoldable pub effective_host_addresses : Host → LinkEndpoint → Bool → Option Text × Option Text
effective_host_addresses h e first_link = (
  or_default (LinkEndpoint.ip e) (if first_link then Host.ip h else none),
  or_default (LinkEndpoint.ip6 e) (if first_link then Host.ip6 h else none),
)

-- A set of names, in the order of insertion.
unfoldable pub in_set : Text → List Text → Bool
in_set name [] = false
in_set name (n ∷ ns) = text_eq n name || in_set name ns

unfoldable pub add_to_set : Text → List Text → List Text
unfolding in_set
add_to_set name ns = if in_set name ns then ns else ns ++ (name ∷ [])

-- `owners.setdefault(address, set()).add(name)`
unfoldable pub add_owner :
    {K : Type 0} ⦃e : Eq K⦄ → K → Text → Dict K (List Text) → Dict K (List Text)
unfolding add_to_set
add_owner k name owners = elim (lookup k owners) [
  | none ↦ insert k (name ∷ []) owners
  | some ns ↦ insert k (add_to_set name ns) owners
]

pub record Owners : Type 0 where
  pub seen_hosts : List Text
  pub ipv4_owners : Dict (List ℕ) (List Text)
  pub ipv6_owners : Dict ℕ (List Text)
  pub errors : List Problem

unfoldable pub own_ipv4 : Text → Text → Option Text → Owners → Owners
own_ipv4 node name none o = o
own_ipv4 node name (some a) o = elim (ipv4_interface a) [
  | none ↦ record {
    seen_hosts = Owners.seen_hosts o;
    ipv4_owners = Owners.ipv4_owners o;
    ipv6_owners = Owners.ipv6_owners o;
    errors = Owners.errors o ++ (invalid_endpoint_ip node a ∷ []);
  }
  | some ip ↦ record {
    seen_hosts = Owners.seen_hosts o;
    ipv4_owners = add_owner ip name (Owners.ipv4_owners o);
    ipv6_owners = Owners.ipv6_owners o;
    errors = Owners.errors o;
  }
]

unfoldable pub own_ipv6 : Text → Text → Option Text → Owners → Owners
own_ipv6 node name none o = o
own_ipv6 node name (some a) o = elim (ipv6_interface a) [
  | none ↦ record {
    seen_hosts = Owners.seen_hosts o;
    ipv4_owners = Owners.ipv4_owners o;
    ipv6_owners = Owners.ipv6_owners o;
    errors = Owners.errors o ++ (invalid_endpoint_ip6 node a ∷ []);
  }
  | some ip ↦ record {
    seen_hosts = Owners.seen_hosts o;
    ipv4_owners = Owners.ipv4_owners o;
    ipv6_owners = add_owner ip name (Owners.ipv6_owners o);
    errors = Owners.errors o;
  }
]

unfoldable pub seen_host : Text → Owners → Owners
seen_host name o = record {
  seen_hosts = add_to_set name (Owners.seen_hosts o);
  ipv4_owners = Owners.ipv4_owners o;
  ipv6_owners = Owners.ipv6_owners o;
  errors = Owners.errors o;
}

unfoldable pub own_addresses : Host → LinkEndpoint → Owners → Owners
unfolding effective_host_addresses own_ipv4 own_ipv6 seen_host
own_addresses h e o =
    let addresses =
      effective_host_addresses h e (not (in_set (Host.name h) (Owners.seen_hosts o))) in
    own_ipv6 (LinkEndpoint.node e) (Host.name h) addresses.1
      (own_ipv4 (LinkEndpoint.node e) (Host.name h) addresses.0 (seen_host (Host.name h) o))

unfoldable pub address_owners : Topology → List End → Owners → Owners
unfolding own_addresses
address_owners t [] o = o
address_owners t (end ∷ es) o =
    address_owners t es (elim (lookup (LinkEndpoint.node (End.endpoint end)) (Topology.hosts t)) [
      | none ↦ o
      | some h ↦ own_addresses h (End.endpoint end) o
    ])

unfoldable pub shared : {K : Type 0} → (K → List Text → Problem) → Dict K (List Text) → List Problem
shared report [] = []
shared report ((k, names) ∷ d) =
    let rest = shared report d in if ltb 1 (length names) then report k names ∷ rest else rest

abbrev no_owners : Owners
no_owners = record { seen_hosts = []; ipv4_owners = []; ipv6_owners = []; errors = [] }

unfoldable pub address_problems : Topology → List Problem
unfolding address_owners shared ends
address_problems t =
    let o = address_owners t (ends 0 (Topology.links t)) no_owners in
    Owners.errors o
    ++ (shared ip_shared (Owners.ipv4_owners o) ++ shared ip6_shared (Owners.ipv6_owners o))
