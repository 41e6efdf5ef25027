-- ===== src/Topo/Validate/Ends.antt =====
-- What `Topology.validate` asks of every link by itself.
use p4net.Base.{
  ℕ, suc, ◌≤◌, ◌≡◌, ◌≢◌, ◌↔◌, ◌⊎◌, refl, subst, Bool, true, not, ◌&&◌, Option, none, some, List, [],
  ◌∷◌, ◌++◌, All, arith, ltb,
}
use mathlib.Core.Option.{some-injective}
use p4net.Base.Text.{Text, text_eq, text_eq_iff}
use p4net.Base.Dict.{text_eq_instance, contains, lookup}
use p4net.Topo.Nodes.{P4Switch, is_some}
use p4net.Topo.Link.{Link, LinkEndpoint}
use p4net.Topo.Topology.{Topology, is_port, switch_port_max}
use p4net.Topo.Validate.Problems.{
  Problem, End, end_a, end_b, when, port_out_of_range, uses_cpu_port, unknown_node, no_port,
  self_loop,
}
use p4net.Topo.Validate.Structure.{at_switch, endpoint_problems, link_problems, all_link_problems}

-- A port within a switch's range that is not its CPU port.
unfoldable pub DataPort : Option ℕ → Option ℕ → Type 0
DataPort cpu none = Unit {0}
DataPort cpu (some p) = (p ≤ 510) × (cpu ≢ some p)

-- A switch's end holds a data port and no address.
unfoldable pub AtSwitch : LinkEndpoint → P4Switch → Type 0
unfolding DataPort
AtSwitch e s =
    (LinkEndpoint.ip e ≡ none)
    × (LinkEndpoint.ip6 e ≡ none)
    × DataPort (P4Switch.cpu_port s) (LinkEndpoint.port e)

-- An end at a known node, with a port.
unfoldable pub EndSound : Topology → LinkEndpoint → Type 0
unfolding AtSwitch
EndSound t e =
    ((contains (LinkEndpoint.node e) (Topology.hosts t) ≡ true)
      ⊎ (contains (LinkEndpoint.node e) (Topology.switches t) ≡ true))
    × (LinkEndpoint.port e ≢ none)
    × ((s : P4Switch) → lookup (LinkEndpoint.node e) (Topology.switches t) ≡ some s → AtSwitch e s)

-- Both ends are sound, and they are at different nodes.
unfoldable pub LinkSound : Topology → Link → Type 0
unfolding EndSound
LinkSound t l =
    EndSound t (Link.a l)
    × EndSound t (Link.b l)
    × (LinkEndpoint.node (Link.a l) ≢ LinkEndpoint.node (Link.b l))

pub append-nothing_iff : (ps qs : List Problem) → (ps ++ qs ≡ []) ↔ ((ps ≡ []) × (qs ≡ []))
append-nothing_iff [] qs = ground arith
append-nothing_iff (p ∷ ps) qs = ground arith

port_rules :
    (cpu : Option ℕ) (end : End) (p : ℕ)
    → (when (ltb switch_port_max p) (port_out_of_range end p)
          ++ when (is_port cpu p) (uses_cpu_port end p)
        ≡ [])
      ↔ DataPort cpu (some p)
unfolding DataPort
port_rules none end p = ground arith
port_rules (some c) end p = ground arith

at_switch_known :
    (end : End) (s : P4Switch) (node : Text) (port : Option ℕ) (iface ip mac ip6 : Option Text)
    → (at_switch end
          (record { node = node; port = port; iface_name = iface; ip = ip; mac = mac; ip6 = ip6 })
          s
        ≡ [])
      ↔ ((ip ≡ none) × (ip6 ≡ none) × DataPort (P4Switch.cpu_port s) port)
unfolding at_switch DataPort
at_switch_known end s node none iface none mac none = (λ h. (refl, refl, tt), λ h. refl)
at_switch_known end s node none iface (some a) mac ip6 = ground arith
at_switch_known end s node none iface none mac (some a) = ground arith
at_switch_known end s node (some p) iface none mac none =
    let rules = port_rules (P4Switch.cpu_port s) end p in
    (λ h. (refl, refl, rules.0 h), λ (no_ip, no_ip6, h). rules.1 h)
at_switch_known end s node (some p) iface (some a) mac ip6 = ground arith
at_switch_known end s node (some p) iface none mac (some a) = ground arith

at_switch-nothing_iff :
    (end : End) (e : LinkEndpoint) (s : P4Switch) → (at_switch end e s ≡ []) ↔ AtSwitch e s
unfolding AtSwitch
at_switch-nothing_iff end e s =
    at_switch_known end s (LinkEndpoint.node e) (LinkEndpoint.port e) (LinkEndpoint.iface_name e)
      (LinkEndpoint.ip e) (LinkEndpoint.mac e) (LinkEndpoint.ip6 e)

known_iff :
    (host switch : Bool) (p : Problem)
    → (when (not host && not switch) p ≡ []) ↔ ((host ≡ true) ⊎ (switch ≡ true))
known_iff host switch p = ground arith

port_set_iff : (o : Option ℕ) (p : Problem) → (when (not (is_some o)) p ≡ []) ↔ (o ≢ none)
port_set_iff none p = ground arith
port_set_iff (some n) p = ground arith

-- The part of the check that runs where the node is a switch.
switch_part_iff :
    (end : End) (e : LinkEndpoint) (o : Option P4Switch)
    → ((elim o [ none ↦ [] | some s ↦ at_switch end e s ]) ≡ [])
      ↔ ((s : P4Switch) → o ≡ some s → AtSwitch e s)
switch_part_iff end e none = (λ h s absurd. ground (arith, absurd), λ h. refl)
switch_part_iff end e (some s) =
    let rules = at_switch-nothing_iff end e s in
    (λ h r same. subst (AtSwitch e) (some-injective s r same) (rules.0 h), λ h. rules.1 (h s refl))

endpoint_problems-nothing_iff :
    (t : Topology) (end : End) (e : LinkEndpoint) → (endpoint_problems t end e ≡ []) ↔ EndSound t e
unfolding endpoint_problems EndSound
endpoint_problems-nothing_iff t end e =
    let known =
      known_iff (contains (LinkEndpoint.node e) (Topology.hosts t))
        (contains (LinkEndpoint.node e) (Topology.switches t)) (unknown_node end) in
    let port = port_set_iff (LinkEndpoint.port e) (no_port end) in
    let switch = switch_part_iff end e (lookup (LinkEndpoint.node e) (Topology.switches t)) in
    let outer =
      append-nothing_iff
        (when
          (not (contains (LinkEndpoint.node e) (Topology.hosts t))
            && not (contains (LinkEndpoint.node e) (Topology.switches t)))
          (unknown_node end))
        _ in
    let inner = append-nothing_iff (when (not (is_some (LinkEndpoint.port e))) (no_port end)) _ in
    (
      λ h.
          let rest = inner.0 (outer.0 h).1 in
          (known.0 (outer.0 h).0, port.0 rest.0, switch.0 rest.1),
      λ (is_known, has_port, rules).
          outer.1 (known.1 is_known, inner.1 (port.1 has_port, switch.1 rules)),
    )

self_loop_iff : (x y : Text) (p : Problem) → (when (text_eq x y) p ≡ []) ↔ (x ≢ y)
self_loop_iff x y p = ground (arith, text_eq_iff x y)

link_problems-nothing_iff :
    (t : Topology) (i : ℕ) (l : Link) → (link_problems t i l ≡ []) ↔ LinkSound t l
unfolding link_problems LinkSound
link_problems-nothing_iff t i l =
    let at_a : End = record { link = i; which = end_a; endpoint = Link.a l } in
    let at_b : End = record { link = i; which = end_b; endpoint = Link.b l } in
    let first = endpoint_problems-nothing_iff t at_a (Link.a l) in
    let second = endpoint_problems-nothing_iff t at_b (Link.b l) in
    let apart =
      self_loop_iff (LinkEndpoint.node (Link.a l)) (LinkEndpoint.node (Link.b l))
        (self_loop i (LinkEndpoint.node (Link.a l))) in
    let outer = append-nothing_iff (endpoint_problems t at_a (Link.a l)) _ in
    let inner = append-nothing_iff (endpoint_problems t at_b (Link.b l)) _ in
    (
      λ h.
          let rest = inner.0 (outer.0 h).1 in
          (first.0 (outer.0 h).0, second.0 rest.0, apart.0 rest.1),
      λ (sound_a, sound_b, differ).
          outer.1 (first.1 sound_a, inner.1 (second.1 sound_b, apart.1 differ)),
    )

-- The check of the links by themselves finds nothing exactly when every link is sound: both ends
-- are at known nodes, different ones, and hold a port; at a switch the port is at most 510 and not
-- the CPU port, and the end has no address.
pub all_link_problems-nothing_iff :
    (t : Topology) (i : ℕ) (ls : List Link) → (all_link_problems t i ls ≡ []) ↔ All (LinkSound t) ls
unfolding all_link_problems
all_link_problems-nothing_iff t i [] = (λ _. tt, λ _. refl)
all_link_problems-nothing_iff t i (l ∷ ls) =
    let here = link_problems-nothing_iff t i l in
    let rest = all_link_problems-nothing_iff t (suc i) ls in
    let outer = append-nothing_iff (link_problems t i l) (all_link_problems t (suc i) ls) in
    (
      λ h. (here.0 (outer.0 h).0, rest.0 (outer.0 h).1),
      λ (sound, more). outer.1 (here.1 sound, rest.1 more),
    )
