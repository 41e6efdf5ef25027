-- ===== src/Topo/Topology/Invariant/Links.antt =====
-- Adding a link keeps the invariant.
use p4net.Base.{
  ℕ, ◌≤◌, ◌≡◌, ◌≢◌, ◌↔◌, refl, sym, subst, true, Option, none, some, [], ◌∷◌, ◌++◌, All-append,
  All-weaken, Result-cases, ok, >>-eq-ok, ok_inj, arith, inl, inr, ℤ, pos, negsuc,
}
use p4net.Base.Text.{Text}
use p4net.Topo.Names.{validate_ifname}
use p4net.Topo.Link.{
  Link, LinkEndpoint, LinkOptions, new_endpoint, new_link, check_link, check_endpoint,
  validate_port_number,
}
use p4net.Topo.Topology.Ports.{allocated_port-iff-IsAllocated, IsAllocated, IsFree}
use p4net.Topo.Topology.{
  Topology, NodeKind, Side, node, node_name, is_switch, cpu_port_of, iface_name, switch_port_max,
  auto_port, requested_port, check_iface, check_ifaces, check_addresses, no_address, attach,
  connect, add_link, append_link, endpoint_of,
}
use p4net.Topo.Topology.Invariant.Nodes.{node-node_name}
use p4net.Topo.Topology.Invariant.{Assigned, AssignedAt, LinkAssigned, WellFormed}

-- A requested port is the one that is returned, in the range of a switch and not its CPU port.
requested_port-returns :
    (n : NodeKind) (z : ℤ) (p : ℕ)
    → (requested_port n z ≡ ok p)
      ↔ ((z ≡ pos p) × (is_switch n ≡ true → p ≤ switch_port_max) × (cpu_port_of n ≢ some p))
unfolding requested_port validate_port_number
requested_port-returns n (pos q) p = ground arith
requested_port-returns n (negsuc q) p = ground arith

-- Any port that is returned, requested or allocated, may be used at the node.
auto_port-usable :
    (t : Topology) (n : NodeKind) (request : Option ℤ) (p : ℕ)
    → auto_port t n request ≡ ok p
    → (is_switch n ≡ true → p ≤ switch_port_max) × (cpu_port_of n ≢ some p)
unfolding auto_port IsAllocated IsFree
auto_port-usable t n (some z) p e =
    let (same, top, no_cpu) = (requested_port-returns n z p).0 e in (top, no_cpu)
auto_port-usable t n none p e =
    let (lo, free, least, top) = (allocated_port-iff-IsAllocated n (Topology.links t) p).0 e in
    (top, free.0)

check_iface-valid : (name : Text) → check_iface name ≡ ok tt → validate_ifname name ≡ ok tt
unfolding check_iface
check_iface-valid name e = ground arith

check_ifaces-valid :
    (na nb : NodeKind) (pa pb : ℕ)
    → check_ifaces na nb pa pb ≡ ok tt
    → (validate_ifname (iface_name (node_name na) pa) ≡ ok tt)
      × (validate_ifname (iface_name (node_name nb) pb) ≡ ok tt)
unfolding check_ifaces
check_ifaces-valid na nb pa pb e =
    let (first, second) = >>-eq-ok (check_iface (iface_name (node_name na) pa)) _ e in
    (check_iface-valid _ first, check_iface-valid _ second)

no_address-on_switch :
    (n : NodeKind) (ip : Option Text) → no_address n ip ≡ ok tt → is_switch n ≡ true → ip ≡ none
unfolding no_address
no_address-on_switch n none e h = refl
no_address-on_switch n (some a) e h = ground arith

check_addresses-on_switch :
    (sa sb : Side) (na nb : NodeKind)
    → check_addresses sa sb na nb ≡ ok tt
    → (is_switch na ≡ true → (Side.ip sa ≡ none) × (Side.ip6 sa ≡ none))
      × (is_switch nb ≡ true → (Side.ip sb ≡ none) × (Side.ip6 sb ≡ none))
unfolding check_addresses no_address
check_addresses-on_switch sa sb na nb e = ground arith

-- The link that `attach` makes of two endpoints.
abbrev between : LinkOptions → LinkEndpoint → LinkEndpoint → Link
between o ea eb = record { a = ea; b = eb; options = o }

pub new_endpoint-same : (e made : LinkEndpoint) → new_endpoint e ≡ ok made → e ≡ made
unfolding new_endpoint
new_endpoint-same e made h = ok_inj (>>-eq-ok (check_endpoint e) (ok e) h).1

new_link-same : (l made : Link) → new_link l ≡ ok made → l ≡ made
unfolding new_link
new_link-same l made h = ok_inj (>>-eq-ok (check_link l) (ok l) h).1

pub attach-returns :
    (o : LinkOptions) (t : Topology) (a b : LinkEndpoint) (out : Topology × Link)
    → attach o t a b ≡ ok out
    → (out ≡ (append_link (between o a b) t, between o a b))
      × (new_link (between o a b) ≡ ok (between o a b))
unfolding attach
attach-returns o t a b out e = elim (Result-cases (new_endpoint a)) [
  | inr (_, bad) ↦ ground (arith, e, bad)
  | inl (ea, made_a) ↦ elim (Result-cases (new_endpoint b)) [
    | inr (_, bad) ↦ ground (arith, e, made_a, bad)
    | inl (eb, made_b) ↦ elim (Result-cases (new_link (between o ea eb))) [
      | inr (_, bad) ↦ ground (arith, e, made_a, made_b, bad)
      | inl (l, made) ↦
          let returned = rw (made_a, made_b, made, attach) at e in
          let same_a = new_endpoint-same a ea made_a in
          let same_b = new_endpoint-same b eb made_b in
          let same = new_link-same (between o ea eb) l made in
          (cc (returned, same_a, same_b, same), cc (made, same_a, same_b, same))
    ]
  ]
]

pub connect-returns :
    (sa sb : Side) (o : LinkOptions) (t : Topology) (na nb : NodeKind) (out : Topology × Link)
    → connect sa sb o t na nb ≡ ok out
    → (pa : ℕ) × (pb : ℕ) × (auto_port t na (Side.port sa) ≡ ok pa)
      × (auto_port t nb (Side.port sb) ≡ ok pb)
      × (check_ifaces na nb pa pb ≡ ok tt)
      × (check_addresses sa sb na nb ≡ ok tt)
      × (attach o t (endpoint_of sa (node_name na) pa) (endpoint_of sb (node_name nb) pb) ≡ ok out)
unfolding connect
connect-returns sa sb o t na nb out e = elim (Result-cases (auto_port t na (Side.port sa))) [
  | inr (_, bad) ↦ ground (arith, e, bad)
  | inl (pa, at_a) ↦ elim (Result-cases (auto_port t nb (Side.port sb))) [
    | inr (_, bad) ↦ ground (arith, e, at_a, bad)
    | inl (pb, at_b) ↦
        let checks = >>-eq-ok (check_ifaces na nb pa pb) _ (rw (at_a, at_b, connect) at e) in
        let rest = >>-eq-ok (check_addresses sa sb na nb) _ checks.1 in
        (pa, pb, at_a, at_b, checks.0, rest.0, rest.1)
  ]
]

endpoint-AssignedAt :
    (t : Topology) (s : Side) (n : NodeKind) (p : ℕ)
    → auto_port t n (Side.port s) ≡ ok p
    → validate_ifname (iface_name (node_name n) p) ≡ ok tt
    → (is_switch n ≡ true → (Side.ip s ≡ none) × (Side.ip6 s ≡ none))
    → AssignedAt (endpoint_of s (node_name n) p) n p
unfolding AssignedAt
endpoint-AssignedAt t s n p assigned valid no_ip =
    let (top, no_cpu) = auto_port-usable t n (Side.port s) p assigned in
    (refl, refl, valid, no_cpu, λ here. (top here, (no_ip here).0, (no_ip here).1))

-- A new link changes no node.
LinkAssigned-append :
    (t : Topology) (l k : Link) → LinkAssigned t k → LinkAssigned (append_link l t) k
unfolding LinkAssigned Assigned node
LinkAssigned-append t l k h = h

append_link-WellFormed :
    (t : Topology) (l : Link) → WellFormed t → LinkAssigned t l → WellFormed (append_link l t)
unfolding WellFormed
append_link-WellFormed t l (hosts, switches, apart, links) assigned = (
  hosts,
  switches,
  apart,
  All-weaken (LinkAssigned t) (LinkAssigned (append_link l t)) (Topology.links t ++ (l ∷ []))
      (LinkAssigned-append t l)
      (All-append (LinkAssigned t) (Topology.links t) (l ∷ []) links (assigned, tt)),
)

connect-LinkAssigned :
    (sa sb : Side) (o : LinkOptions) (t : Topology) (na nb : NodeKind) (out : Topology × Link)
    → node t (node_name na) ≡ ok na
    → node t (node_name nb) ≡ ok nb
    → connect sa sb o t na nb ≡ ok out
    → (out.0 ≡ append_link out.1 t) × LinkAssigned t out.1
unfolding LinkAssigned Assigned
connect-LinkAssigned sa sb o t na nb out here_a here_b e =
    let (pa, pb, at_a, at_b, ifaces, addresses, attached) = connect-returns sa sb o t na nb out e in
    let (same, made) =
      attach-returns o t (endpoint_of sa (node_name na) pa) (endpoint_of sb (node_name nb) pb) out
        attached in
    let (name_a, name_b) = check_ifaces-valid na nb pa pb ifaces in
    let (no_ip_a, no_ip_b) = check_addresses-on_switch sa sb na nb addresses in
    subst (λ pair. (pair.0 ≡ append_link pair.1 t) × LinkAssigned t pair.1) (sym same)
      (
        refl,
        (
          (na, pa, here_a, endpoint-AssignedAt t sa na pa at_a name_a no_ip_a),
          (nb, pb, here_b, endpoint-AssignedAt t sb nb pb at_b name_b no_ip_b),
          made,
        ),
      )

pub add_link-returns :
    (sa sb : Side) (o : LinkOptions) (t : Topology) (out : Topology × Link)
    → add_link sa sb o t ≡ ok out
    → (na : NodeKind) × (nb : NodeKind) × (node t (Side.ref sa) ≡ ok na)
      × (node t (Side.ref sb) ≡ ok nb)
      × (connect sa sb o t na nb ≡ ok out)
unfolding add_link
add_link-returns sa sb o t out e = elim (Result-cases (node t (Side.ref sa))) [
  | inr (_, bad) ↦ ground (arith, e, bad)
  | inl (na, found_a) ↦ elim (Result-cases (node t (Side.ref sb))) [
    | inr (_, bad) ↦ ground (arith, e, found_a, bad)
    | inl (nb, found_b) ↦ (na, nb, found_a, found_b, rw (found_a, found_b, add_link) at e)
  ]
]

-- What `add_link` appends is a link whose endpoints are assigned at their nodes.
pub add_link-LinkAssigned :
    (sa sb : Side) (o : LinkOptions) (t : Topology) (out : Topology × Link)
    → WellFormed t
    → add_link sa sb o t ≡ ok out
    → (out.0 ≡ append_link out.1 t) × LinkAssigned t out.1
add_link-LinkAssigned sa sb o t out valid e =
    let (na, nb, found_a, found_b, connected) = add_link-returns sa sb o t out e in
    let here_a =
      subst (λ x. node t x ≡ ok na) (sym (node-node_name t (Side.ref sa) na valid found_a))
        found_a in
    let here_b =
      subst (λ x. node t x ≡ ok nb) (sym (node-node_name t (Side.ref sb) nb valid found_b))
        found_b in
    connect-LinkAssigned sa sb o t na nb out here_a here_b connected

pub add_link-WellFormed :
    (sa sb : Side) (o : LinkOptions) (t : Topology) (out : Topology × Link)
    → WellFormed t
    → add_link sa sb o t ≡ ok out
    → WellFormed out.0
add_link-WellFormed sa sb o t out valid e =
    let (same, assigned) = add_link-LinkAssigned sa sb o t out valid e in
    subst WellFormed (sym same) (append_link-WellFormed t out.1 valid assigned)
