-- ===== src/Topo/Validate/Claims.antt =====
-- The middle parts of `Topology.validate`: ports, service ports and interfaces have one owner.
use p4net.Base.{
  ℕ, Bool, true, false, Option, none, some, List, [], ◌∷◌, if◌then◌else◌, err, ok, ◌≡◌, ◌↔◌, arith,
}
use p4net.Base.Text.{Text, codes, text_eq}
use p4net.Base.Dict.{text_eq_instance, nat_eq, pair_eq, option_eq, Eq, contains, values}
use p4net.Topo.Names.{validate_ifname}
use p4net.Topo.Nodes.{P4Switch}
use p4net.Topo.Link.{LinkEndpoint}
use p4net.Topo.Topology.{Topology}
use p4net.Topo.Validate.Problems.{
  Problem, port_collision, service_collision, no_interface, bad_interface, reserved_lo,
  interface_collision, End, Claim, problem, skip, claims, collide, ends, PortField, device_id_field,
  grpc_field, thrift_field,
}

-- Part 3: a port of a node, claimed by the number of a link.
unfoldable pub port_claim : End → Claim (Text × ℕ) ℕ
port_claim end = elim (LinkEndpoint.port (End.endpoint end)) [
  | none ↦ skip
  | some p ↦ claims (LinkEndpoint.node (End.endpoint end), p) (End.link end)
]

unfoldable pub port_claims : List End → List (Claim (Text × ℕ) ℕ)
unfolding port_claim
port_claims [] = []
port_claims (end ∷ es) = port_claim end ∷ port_claims es

unfoldable pub port_problems : Topology → List Problem
unfolding port_claims collide ends
port_problems t = collide port_collision [] (port_claims (ends 0 (Topology.links t)))

-- Part 4: device ids, and the TCP ports of both kinds, which share one space.
unfoldable pub service_claim :
    Bool → Text → PortField → Option ℕ → Claim (Bool × ℕ) (Text × PortField)
service_claim tcp name field none = skip
service_claim tcp name field (some n) = claims (tcp, n) (name, field)

unfoldable pub service_claims : List P4Switch → List (Claim (Bool × ℕ) (Text × PortField))
unfolding service_claim
service_claims [] = []
service_claims (s ∷ ss) =
    service_claim false (P4Switch.name s) device_id_field (P4Switch.device_id s)
    ∷ service_claim true (P4Switch.name s) grpc_field (P4Switch.grpc_port s)
    ∷ service_claim true (P4Switch.name s) thrift_field (P4Switch.thrift_port s)
    ∷ service_claims ss

abbrev pub bool_beq : Bool → Bool → Bool
bool_beq true b = b
bool_beq false true = false
bool_beq false false = true

pub bool_beq_iff : (a b : Bool) → (bool_beq a b ≡ true) ↔ (a ≡ b)
bool_beq_iff true b = ground arith
bool_beq_iff false true = ground arith
bool_beq_iff false false = ground arith

instance abbrev pub bool_eq : Eq Bool
bool_eq = record { beq = bool_beq; beq_iff = bool_beq_iff }

unfoldable pub service_problems : Topology → List Problem
unfolding service_claims collide
service_problems t =
    collide (λ key. service_collision key.1) [] (service_claims (values (Topology.switches t)))

-- Part 5: an interface in the namespace of its host, or in the root namespace.
unfoldable pub interface_scope : Topology → Text → Option (Option Text)
interface_scope t node =
    if contains node (Topology.hosts t)
    then some (some node)
    else if contains node (Topology.switches t)
    then some none
    else none

unfoldable pub named_claim : Topology → End → Text → Claim (Option Text × Text) End
unfolding interface_scope
named_claim t end name = elim (validate_ifname name) [
  | err e ↦ problem (bad_interface end e)
  | ok _ ↦
      if text_eq name (codes "lo")
      then problem (reserved_lo end)
      else (elim (interface_scope t (LinkEndpoint.node (End.endpoint end))) [
        | none ↦ skip
        | some scope ↦ claims (scope, name) end
      ])
]

unfoldable pub interface_claim : Topology → End → Claim (Option Text × Text) End
unfolding named_claim
interface_claim t end = elim (LinkEndpoint.iface_name (End.endpoint end)) [
  | none ↦ problem (no_interface end)
  | some [] ↦ problem (no_interface end)
  | some (c ∷ s) ↦ named_claim t end (c ∷ s)
]

unfoldable pub interface_claims : Topology → List End → List (Claim (Option Text × Text) End)
unfolding interface_claim
interface_claims t [] = []
interface_claims t (end ∷ es) = interface_claim t end ∷ interface_claims t es

unfoldable pub interface_problems : Topology → List Problem
unfolding interface_claims collide ends
interface_problems t =
    collide interface_collision [] (interface_claims t (ends 0 (Topology.links t)))
